-- ===== src/Api/Run/Sound/Reports.antt =====
-- The statement of api/src on a worker's event, for the invariant.
use shore_sentinel_app.Base.{
  ◌⊎◌, ℕ, suc, ◌+◌, ◌≤◌, ◌<◌, ◌≡◌, refl, sym, subst, ◌∙◌, String, true, false, not, ◌&&◌, ◌||◌,
  Option, none, some, List, ◌∷◌, all, any, map, leb, ltb, ◌==◌, Bool-cases, and_left, and_right,
  and_intro, not-true, ==_iff, ltb→lt, inl, inr, arith,
}
use shore_sentinel_app.Shared.{
  RunEventType, job_queued, job_claimed, job_running, parse_started, parse_succeeded,
  artifact_upload_requested, artifact_upload_succeeded, job_retry_scheduled, job_succeeded,
  job_failed,
}
use shore_sentinel_app.Api.Run.{Status, is_pending, is_cancelled, reported, Event, Store, has_event}
use shore_sentinel_app.Api.Run.Events.{
  worker_event_transition, is_retry, applies_to, is_granted, authorizes, revoke_grant, add_grant,
  next_grant, applied, Written, written, write_event, worker_event_statement,
}
use shore_sentinel_app.Api.Run.Ladder.{Ladder, Ladder-usable, Ladder-retry, granted_unrevoked}
use shore_sentinel_app.Api.Run.Sound.{
  job_status_for, is_reachable_status, reported_attempts, is_bounded, IsSound,
}
use shore_sentinel_app.Api.Run.Sound.Statements.{all_bounded_mono, reported_attempts_le}

-- What the guards of an accepted event say.
pub record IsAccepted (now : ℕ) (grant_id : String) (attempt : ℕ) (type : RunEventType) (s : Store)
    : Type 0 where
  pub granted : any (is_granted now grant_id attempt) s.grants ≡ true
  pub open_run : s.cancellation_requested ≡ false
  pub in_turn :
      (not (is_retry type) || ((s.retry_count + 1 == attempt) && ltb attempt s.retry_max_attempts))
      ≡ true
  pub applicable : applies_to type s.run_status ≡ true
  pub is_new : has_event type attempt s.events ≡ false

accepted :
    (now : ℕ) (grant_id : String) (attempt : ℕ) (type : RunEventType) (s : Store)
    → (authorizes now grant_id attempt type s && applies_to type s.run_status) ≡ true
    → has_event type attempt s.events ≡ false
    → IsAccepted now grant_id attempt type s
accepted now grant_id attempt type s guard new =
    let authorized = and_left (authorizes now grant_id attempt type s) _ guard in
    let within = and_left _ _ authorized in
    let unlocked = and_left _ _ within in
    record {
      granted = and_left _ _ unlocked;
      open_run = not-true s.cancellation_requested (and_right _ _ unlocked);
      in_turn = and_right _ _ authorized;
      applicable = and_right (authorizes now grant_id attempt type s) _ guard;
      is_new = new;
    }

-- What becomes of the rows.
abbrev pub IsOutcome :
    (now : ℕ) (grant_id next_id : String) (attempt : ℕ)
    → RunEventType
    → Store
    → Written × Store
    → Type 0
IsOutcome now grant_id next_id attempt type s result =
    (result.1 ≡ s)
    ⊎ ((statuses : Status × Status) × (worker_event_transition type ≡ some statuses)
        × IsAccepted now grant_id attempt type s
        × (result ≡ (written, applied grant_id next_id attempt type statuses s)))

write_event_cases :
    (now : ℕ) (grant_id next_id : String) (attempt : ℕ) (type : RunEventType) (s : Store)
    (o : Option (Status × Status))
    → worker_event_transition type ≡ o
    → IsOutcome now grant_id next_id attempt type s
        (write_event now grant_id next_id attempt type s o)
write_event_cases now grant_id next_id attempt type s none e = inl refl
write_event_cases now grant_id next_id attempt type s (some statuses) e =
    elim (Bool-cases (authorizes now grant_id attempt type s && applies_to type s.run_status)) [
      | inr guard ↦ inl (rw guard refl)
      | inl guard ↦ elim (Bool-cases (has_event type attempt s.events)) [
        | inl old ↦ inl (rw (guard, old) refl)
        | inr new ↦
            inr (statuses, e, accepted now grant_id attempt type s guard new, rw (guard, new) refl)
      ]
    ]

-- The event either changes nothing, or is accepted and applied.
pub worker_event_cases :
    (now : ℕ) (grant_id next_id : String) (attempt : ℕ) (type : RunEventType) (s : Store)
    → IsOutcome now grant_id next_id attempt type s
        (worker_event_statement now grant_id next_id attempt type s)
unfolding worker_event_statement
worker_event_cases now grant_id next_id attempt type s =
    write_event_cases now grant_id next_id attempt type s (worker_event_transition type) refl

-- The statuses that a transition writes belong together, and are the waiting ones for a retry.
abbrev IsPaired : RunEventType → Option (Status × Status) → Type 0
IsPaired type none = Unit
IsPaired type (some (run, job)) =
    (is_reachable_status run ≡ true)
    × (job ≡ job_status_for run)
    × (is_cancelled run ≡ false)
    × (is_pending run ≡ is_retry type)

transition-IsPaired : (type : RunEventType) → IsPaired type (worker_event_transition type)
unfolding worker_event_transition
transition-IsPaired job_queued = tt
transition-IsPaired job_claimed = (refl, refl, refl, refl)
transition-IsPaired job_running = (refl, refl, refl, refl)
transition-IsPaired parse_started = (refl, refl, refl, refl)
transition-IsPaired parse_succeeded = (refl, refl, refl, refl)
transition-IsPaired artifact_upload_requested = (refl, refl, refl, refl)
transition-IsPaired artifact_upload_succeeded = (refl, refl, refl, refl)
transition-IsPaired job_retry_scheduled = (refl, refl, refl, refl)
transition-IsPaired job_succeeded = (refl, refl, refl, refl)
transition-IsPaired job_failed = (refl, refl, refl, refl)

-- An accepted event reports of the newest attempt.
pub newest_attempt :
    (now : ℕ) (grant_id : String) (attempt : ℕ) (type : RunEventType) (s : Store)
    → IsAccepted now grant_id attempt type s
    → IsSound s
    → attempt ≡ suc s.retry_count
newest_attempt now grant_id attempt type s ok sound =
    let (g, older, e, usable, at_n) =
      Ladder-usable (is_granted now grant_id attempt) (granted_unrevoked now grant_id attempt)
        (suc s.retry_count) s.grants sound.grants_in_order ok.granted in
    sym ((==_iff g.attempt attempt).0 (and_right _ _ (and_left _ _ usable))) ∙ at_n

pub all-reported :
    (type : RunEventType) (attempt b c : ℕ)
    → b ≤ c
    → attempt ≤ c
    → (es : List Event) → all (is_bounded b) es ≡ true
    → all (is_bounded c) (record { type = reported type; attempt = some attempt } ∷ es) ≡ true
all-reported type attempt b c h below es old =
    and_intro (leb attempt c) _ (ground arith) (all_bounded_mono b c h es old)

module _ (now : ℕ) (grant_id next_id : String) (attempt : ℕ) (type : RunEventType)
    (run job : Status) (s : Store) (ok : IsAccepted now grant_id attempt type s) (sound : IsSound s)
    (paired : IsPaired type (some (run, job))) where
  progress-IsSound :
      is_retry type ≡ false → IsSound (applied grant_id next_id attempt type (run, job) s)
  progress-IsSound e =
      let not_pending : is_pending run ≡ false = paired.3 ∙ e in
      let bound : attempt ≡ suc s.retry_count =
        newest_attempt now grant_id attempt type s ok sound in
      let after : reported_attempts (applied grant_id next_id attempt type (run, job) s)
          ≡ suc s.retry_count =
        rw (reported_attempts, not_pending, e) refl in
      record {
        run_reachable = paired.0;
        statuses_match = paired.1;
        cancellation_known = ok.open_run ∙ sym paired.2;
        attempts_left = rw e sound.attempts_left;
        grants_in_order = rw e sound.grants_in_order;
        events_bounded =
            all-reported type attempt _ _ (omega (arith, after, reported_attempts_le s))
              (omega (arith, after, bound)) s.events sound.events_bounded;
        grants_cleared = rw paired.2 refl;
        artifacts_cleared = rw paired.2 refl;
        events_cleared = rw paired.2 refl;
        dispatch_cleared = rw paired.2 refl;
      }

  retry-IsSound :
      is_retry type ≡ true → IsSound (applied grant_id next_id attempt type (run, job) s)
  retry-IsSound e =
      let waits : is_pending run ≡ true = paired.3 ∙ e in
      let bound : attempt ≡ suc s.retry_count =
        newest_attempt now grant_id attempt type s ok sound in
      let turn = and_right (s.retry_count + 1 == attempt) _ (rw e at ok.in_turn) in
      let after : reported_attempts (applied grant_id next_id attempt type (run, job) s)
          ≡ s.retry_count + 1 =
        rw (reported_attempts, waits, e) refl in
      let up : suc (suc s.retry_count) ≡ suc (s.retry_count + 1) = omega arith in
      let left : attempt < s.retry_max_attempts = ltb→lt attempt s.retry_max_attempts turn in
      record {
        run_reachable = paired.0;
        statuses_match = paired.1;
        cancellation_known = ok.open_run ∙ sym paired.2;
        attempts_left = rw e (omega (arith, left, bound));
        grants_in_order = rw e (
            subst
              (λ n.
                Ladder n
                  (add_grant (next_grant next_id attempt) (map (revoke_grant grant_id) s.grants)))
              up
              (Ladder-retry now grant_id next_id attempt (suc s.retry_count) s.grants
                sound.grants_in_order ok.granted (sym bound)));
        events_bounded =
            all-reported type attempt _ _ (omega (arith, after, reported_attempts_le s))
              (omega (arith, after, bound)) s.events sound.events_bounded;
        grants_cleared = rw paired.2 refl;
        artifacts_cleared = rw paired.2 refl;
        events_cleared = rw paired.2 refl;
        dispatch_cleared = rw paired.2 refl;
      }

pub worker_event_statement-IsSound :
    (now : ℕ) (grant_id next_id : String) (attempt : ℕ) (type : RunEventType) (s : Store)
    → IsSound s
    → IsSound (worker_event_statement now grant_id next_id attempt type s).1
worker_event_statement-IsSound now grant_id next_id attempt type s sound =
    elim (worker_event_cases now grant_id next_id attempt type s) [
      | inl same ↦ subst IsSound (sym same) sound
      | inr (statuses, e, ok, changed) ↦
          let paired = subst (IsPaired type) e (transition-IsPaired type) in
          subst (λ r. IsSound r.1) (sym changed)
            (elim (Bool-cases (is_retry type)) [
              | inl retry ↦
                  retry-IsSound now grant_id next_id attempt type statuses.0 statuses.1 s ok sound
                    paired retry
              | inr progress ↦
                  progress-IsSound now grant_id next_id attempt type statuses.0 statuses.1 s ok
                    sound paired progress
            ])
    ]
