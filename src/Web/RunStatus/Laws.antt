-- ===== src/Web/RunStatus/Laws.antt =====
-- What the state of a run's row implies (web/lib/machine-run-status.js, machine-detail-data.js).
use shore_sentinel_app.Base.{
  ℕ, ◌≤◌, ◌<◌, String, Bool, true, false, not, ◌&&◌, ◌||◌, ◌≡◌, refl, sym, ◌∙◌, ◌⊎◌, ◌↔◌, List, [],
  ◌∷◌, any, All, arith, eq_iff, str_eq, one_of, Bool-cases, inl, inr, if◌then◌else◌,
}
use shore_sentinel_app.Value.{
  pos, negsuc, Num, whole, between, infinite, nan, Value, str, array, truthy, get, or_nullish,
}
use shore_sentinel_app.Runtime.{Runtime, number_of}
use shore_sentinel_app.Web.RunStatus.{
  success_statuses, terminal_statuses, terminal_events, is_str, is_one_of, clamp, progress_or,
  status_progress, normalized_status, is_successful_run, is_terminal_run, progress_for_run,
  tone_for_run, scan_launch_blocked,
}

-- A number from 0 to 100.
abbrev pub IsPercent : Num → Type 0
IsPercent (whole (pos n)) = n ≤ 100
IsPercent (between (pos n)) = n < 100
IsPercent (whole (negsuc n)) = ⊥
IsPercent (between (negsuc n)) = ⊥
IsPercent (infinite b) = ⊥
IsPercent nan = ⊥

clamp-IsPercent : (n : Num) (m : Num) → IsPercent m → IsPercent (progress_or (clamp n) m)
clamp-IsPercent (whole (pos n)) m h = ground arith
clamp-IsPercent (whole (negsuc n)) m h = omega arith
clamp-IsPercent (between (pos n)) m h = ground arith
clamp-IsPercent (between (negsuc n)) m h = omega arith
clamp-IsPercent (infinite b) m h = h
clamp-IsPercent nan m h = h

status_progress_bound : (s : String) → status_progress s ≤ 100
status_progress_bound s = ground arith

IsPercent-choice :
    (b c : Bool) (o : Num) (n : ℕ)
    → n ≤ 100
    → IsPercent (
        if not b
        then whole (pos 0)
        else progress_or (clamp o) (if c then whole (pos 100) else whole (pos n)))
IsPercent-choice false c o n h = omega arith
IsPercent-choice true true o n h = clamp-IsPercent o _ (omega arith)
IsPercent-choice true false o n h = clamp-IsPercent o _ h

success_is_terminal :
    (s : String) → one_of success_statuses s ≡ true → one_of terminal_statuses s ≡ true
success_is_terminal s h = ground arith

success_event_is_terminal :
    (v : Value) → is_str "job.succeeded" v ≡ true → is_one_of terminal_events v ≡ true
success_event_is_terminal (str t) h = rw h
success_event_is_terminal _ h = cc

failed_is_terminal : (s : String) → str_eq s "failed" ≡ true → one_of terminal_statuses s ≡ true
failed_is_terminal s h = ground arith

failed_event_is_terminal :
    (v : Value) → is_str "job.failed" v ≡ true → is_one_of terminal_events v ≡ true
failed_event_is_terminal (str t) h = ground arith
failed_event_is_terminal _ h = cc

or_cases : (a b : Bool) → (a || b) ≡ true → (a ≡ true) ⊎ (b ≡ true)
or_cases a b h = ground arith

or_left : (a b : Bool) → a ≡ true → (a || b) ≡ true
or_left a b h = ground arith

or_right : (a b : Bool) → b ≡ true → (a || b) ≡ true
or_right a b h = ground arith

true_not_false : true ≡ false → ⊥
true_not_false h = cc

red_not_green : ◌≡◌ {A = String} "red" "green" → ⊥
red_not_green h = cc ((eq_iff "red" "green").1 h)

amber_not_green : ◌≡◌ {A = String} "amber" "green" → ⊥
amber_not_green h = cc ((eq_iff "amber" "green").1 h)

abbrev tone : Bool → Bool → String
tone a b = if a then "green" else if b then "red" else "amber"

tone_is_green : (a b : Bool) → tone a b ≡ "green" → a ≡ true
tone_is_green true b h = refl
tone_is_green false true h = absurd (red_not_green h)
tone_is_green false false h = absurd (amber_not_green h)

All-of_none_blocked :
    (p : Value → Bool) (runs : List Value)
    → (any (λ run. not (p run)) runs ≡ false) ↔ All (λ run. p run ≡ true) runs
All-of_none_blocked p [] = (λ _. tt, λ _. refl)
All-of_none_blocked p (r ∷ runs) = grind (arith, All-of_none_blocked p runs)

module _ (rt : Runtime) where
  -- The progress shown for any row lies between 0 and 100, whatever number the API reported.
  pub progress_for_run-IsPercent : (run : Value) → IsPercent (progress_for_run rt run)
  unfolding progress_for_run
  progress_for_run-IsPercent run =
      IsPercent-choice (truthy run) (is_successful_run rt run)
        (number_of rt (or_nullish (get "latest_progress_percent" run) (get "progress_percent" run)))
        (status_progress (normalized_status rt run))
        (status_progress_bound (normalized_status rt run))

  -- A successful run is terminal.
  terminal_of_successful :
      (run : Value) → is_successful_run rt run ≡ true → is_terminal_run rt run ≡ true
  unfolding is_successful_run is_terminal_run
  terminal_of_successful run h = elim (or_cases _ _ h) [
    | inl status ↦ or_left _ _ (success_is_terminal (normalized_status rt run) status)
    | inr event ↦ or_right _ _ (success_event_is_terminal (get "latest_event_type" run) event)
  ]

  abbrev is_failed_run : Value → Bool
  is_failed_run run =
      str_eq (normalized_status rt run) "failed"
      || is_str "job.failed" (get "latest_event_type" run)

  terminal_of_failed : (run : Value) → is_failed_run run ≡ true → is_terminal_run rt run ≡ true
  unfolding is_terminal_run
  terminal_of_failed run h = elim (or_cases _ _ h) [
    | inl status ↦ or_left _ _ (failed_is_terminal (normalized_status rt run) status)
    | inr event ↦ or_right _ _ (failed_event_is_terminal (get "latest_event_type" run) event)
  ]

  tone_going : (run : Value) → is_terminal_run rt run ≡ false → tone_for_run rt run ≡ "amber"
  unfolding tone_for_run
  tone_going run h = elim (Bool-cases (is_successful_run rt run)) [
    | inl won ↦ absurd (true_not_false (sym (terminal_of_successful run won) ∙ h))
    | inr other ↦ rw other (elim (Bool-cases (is_failed_run run)) [
      | inl lost ↦ absurd (true_not_false (sym (terminal_of_failed run lost) ∙ h))
      | inr going ↦ rw going refl
    ])
  ]

  -- The tone is green exactly for the successful runs, which are all terminal; and a red run is
  -- terminal as well, so a run that is still going shows amber.
  pub tone_for_run_exact :
      (run : Value)
      → ((tone_for_run rt run ≡ "green") ↔ (is_successful_run rt run ≡ true))
        × ((is_successful_run rt run && not (is_terminal_run rt run)) ≡ false)
        × ((is_terminal_run rt run ≡ true) ⊎ (tone_for_run rt run ≡ "amber"))
  unfolding tone_for_run
  tone_for_run_exact run = (
    (tone_is_green (is_successful_run rt run) (is_failed_run run), λ h. rw h refl),
    elim (Bool-cases (is_successful_run rt run)) [
      | inl won ↦ rw (won, terminal_of_successful run won)
      | inr other ↦ rw other
    ],
    elim (Bool-cases (is_terminal_run rt run)) [
      | inl over ↦ inl over
      | inr going ↦ inr (tone_going run going)
    ],
  )

  -- A scan can be launched exactly when the history of runs is there and every run of it is
  -- terminal.
  pub scan_launch_blocked_iff :
      (runs : Value) (unavailable : Bool)
      → (scan_launch_blocked rt runs unavailable ≡ false)
        ↔ ((unavailable ≡ false) × All (λ run. is_terminal_run rt run ≡ true) (array runs))
  unfolding scan_launch_blocked
  scan_launch_blocked_iff runs true =
      (λ h. absurd (true_not_false h), λ h. absurd (true_not_false h.0))
  scan_launch_blocked_iff runs false =
      let (to, from) = All-of_none_blocked (is_terminal_run rt) (array runs) in
      (λ h. (refl, to h), λ h. from h.1)
