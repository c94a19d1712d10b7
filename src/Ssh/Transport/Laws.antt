-- ===== src/Ssh/Transport/Laws.antt =====
-- What the commands of the transport come to (workers/worker-node/src/sshExecutor.js).
use Prim.Native.String.{◌++◌}
use shore_sentinel_app.Base.{
  ℕ, ◌+◌, String, Bool, true, false, ◌&&◌, ◌||◌, ◌≡◌, refl, ap, ◌∙◌, ◌++◌ as append, Option, List,
  [], ◌∷◌, leb, ltb, Bool-cases, Option-cases, inl, inr, arith, if◌then◌else◌,
}
use shore_sentinel_app.Ssh.Transport.{
  Caps, Settlement, pending, resolved, rejected, RunState, Chunk, RunEvent, output, errors, closed,
  not_started, timed_out, aborted, is_settled, is_zero, finish_error, finish_result, append_output,
  append_errors, close_run, run_step, run_start, run,
}

abbrev pub is_rejected : Settlement → Bool
is_rejected (rejected e) = true
is_rejected _ = false

-- The connection was ended once if the run was rejected and never if not, and what was read is
-- within the limits unless the run was rejected.
pub record IsSound (caps : Caps) (s : RunState) : Type 0 where
  pub ended : s.ended ≡ (if is_rejected s.settlement then 1 else 0)
  pub within :
      (is_rejected s.settlement
        || (leb s.stdout_bytes caps.max_output_bytes && leb s.stderr_bytes caps.max_stderr_bytes))
      ≡ true

unsettled-rejected : (x : Settlement) → is_settled x ≡ false → is_rejected x ≡ false
unsettled-rejected pending h = refl
unsettled-rejected (resolved out err) h = refl
unsettled-rejected (rejected e) h = cc h

unsettled-ended :
    (caps : Caps) (s : RunState) → IsSound caps s → is_settled s.settlement ≡ false → s.ended ≡ 0
unsettled-ended caps s h e = h.ended ∙ rw (unsettled-rejected s.settlement e)

rejection-IsSound :
    (caps : Caps) (e : String) (s : RunState)
    → s.ended ≡ 0
    → IsSound caps (record s { settlement = rejected e; ended = s.ended + 1 })
rejection-IsSound caps e s h = record { ended = omega (arith, h); within = refl }

finish_error-IsSound :
    (caps : Caps) (e : String) (s : RunState) → IsSound caps s → IsSound caps (finish_error e s)
finish_error-IsSound caps e s h = elim (Bool-cases (is_settled s.settlement)) [
  | inl done ↦ simp done h
  | inr waiting ↦ simp waiting (rejection-IsSound caps e s (unsettled-ended caps s h waiting))
]

finish_result-IsSound :
    (caps : Caps) (s : RunState) → IsSound caps s → IsSound caps (finish_result s)
finish_result-IsSound caps s h = elim (Bool-cases (is_settled s.settlement)) [
  | inl done ↦ simp done h
  | inr waiting ↦ simp waiting (record {
    ended = unsettled-ended caps s h waiting;
    within = rw (unsettled-rejected s.settlement waiting) at h.within;
  })
]

grown-IsSound :
    (caps : Caps) (s : RunState) (out err : String) (n m : ℕ)
    → IsSound caps s
    → is_settled s.settlement ≡ false
    → (leb n caps.max_output_bytes && leb m caps.max_stderr_bytes) ≡ true
    → IsSound caps (record s { stdout = out; stderr = err; stdout_bytes = n; stderr_bytes = m })
grown-IsSound caps s out err n m h waiting b = record {
  ended = h.ended;
  within = rw (unsettled-rejected s.settlement waiting) b;
}

and_of_left :
    (caps : Caps) (s : RunState)
    → IsSound caps s
    → is_settled s.settlement ≡ false
    → (n : ℕ) → ltb caps.max_output_bytes n ≡ false
    → (leb n caps.max_output_bytes && leb s.stderr_bytes caps.max_stderr_bytes) ≡ true
and_of_left caps s h waiting n under =
    let b = rw (unsettled-rejected s.settlement waiting) at h.within in ground arith

and_of_right :
    (caps : Caps) (s : RunState)
    → IsSound caps s
    → is_settled s.settlement ≡ false
    → (n : ℕ) → ltb caps.max_stderr_bytes n ≡ false
    → (leb s.stdout_bytes caps.max_output_bytes && leb n caps.max_stderr_bytes) ≡ true
and_of_right caps s h waiting n under =
    let b = rw (unsettled-rejected s.settlement waiting) at h.within in ground arith

append_output-IsSound :
    (caps : Caps) (c : Chunk) (s : RunState)
    → IsSound caps s
    → IsSound caps (append_output caps c s)
append_output-IsSound caps c s h =
    let counted : RunState = record s { stdout_bytes = s.stdout_bytes + c.bytes } in
    elim (Bool-cases (is_settled s.settlement)) [
      | inl done ↦ simp done h
      | inr waiting ↦ elim (Bool-cases (ltb caps.max_output_bytes (s.stdout_bytes + c.bytes))) [
        | inl over ↦
            simp (waiting, over)
              (rejection-IsSound caps "SSH remote stdout exceeded configured byte limit" counted
                (unsettled-ended caps s h waiting))
        | inr under ↦ elim (Option-cases c.decoded) [
          | inl bad ↦
              simp (waiting, under, bad)
                (rejection-IsSound caps "SSH remote stdout contained invalid UTF-8" counted
                  (unsettled-ended caps s h waiting))
          | inr (t, good) ↦
              simp (waiting, under, good)
                (grown-IsSound caps s (s.stdout ++ t) s.stderr (s.stdout_bytes + c.bytes)
                  s.stderr_bytes h waiting
                  (and_of_left caps s h waiting (s.stdout_bytes + c.bytes) under))
        ]
      ]
    ]

append_errors-IsSound :
    (caps : Caps) (c : Chunk) (s : RunState)
    → IsSound caps s
    → IsSound caps (append_errors caps c s)
append_errors-IsSound caps c s h =
    let counted : RunState = record s { stderr_bytes = s.stderr_bytes + c.bytes } in
    elim (Bool-cases (is_settled s.settlement)) [
      | inl done ↦ simp done h
      | inr waiting ↦ elim (Bool-cases (ltb caps.max_stderr_bytes (s.stderr_bytes + c.bytes))) [
        | inl over ↦
            simp (waiting, over)
              (rejection-IsSound caps "SSH remote stderr exceeded configured byte limit" counted
                (unsettled-ended caps s h waiting))
        | inr under ↦ elim (Option-cases c.decoded) [
          | inl bad ↦
              simp (waiting, under, bad)
                (rejection-IsSound caps "SSH remote stderr contained invalid UTF-8" counted
                  (unsettled-ended caps s h waiting))
          | inr (t, good) ↦
              simp (waiting, under, good)
                (grown-IsSound caps s s.stdout (s.stderr ++ t) s.stdout_bytes
                  (s.stderr_bytes + c.bytes) h waiting
                  (and_of_right caps s h waiting (s.stderr_bytes + c.bytes) under))
        ]
      ]
    ]

close_run-IsSound :
    (exit_text : Option ℕ → String) (caps : Caps) (exit_code : Option ℕ)
    (flushed : Option (String × String)) (s : RunState)
    → IsSound caps s
    → IsSound caps (close_run exit_text exit_code flushed s)
close_run-IsSound exit_text caps exit_code flushed s h = elim (Bool-cases (is_zero exit_code)) [
  | inr other ↦
      rw other
        (finish_error-IsSound caps ("SSH remote runner exited with " ++ exit_text exit_code) s h)
  | inl zero_exit ↦ elim (Option-cases flushed) [
    | inl bad ↦
        rw (zero_exit, bad)
          (finish_error-IsSound caps "SSH remote stdout contained invalid UTF-8" s h)
    | inr ((out, err), good) ↦
        rw (zero_exit, good)
          (finish_result-IsSound caps
            (record s { stdout = s.stdout ++ out; stderr = s.stderr ++ err })
            (record { ended = h.ended; within = h.within }))
  ]
]

run_step-IsSound :
    (exit_text : Option ℕ → String) (caps : Caps) (e : RunEvent) (s : RunState)
    → IsSound caps s
    → IsSound caps (run_step exit_text caps e s)
unfolding run_step
run_step-IsSound exit_text caps (output chunk) s h = append_output-IsSound caps chunk s h
run_step-IsSound exit_text caps (errors chunk) s h = append_errors-IsSound caps chunk s h
run_step-IsSound exit_text caps (closed exit_code flushed) s h =
    close_run-IsSound exit_text caps exit_code flushed s h
run_step-IsSound exit_text caps (not_started error) s h = finish_error-IsSound caps error s h
run_step-IsSound exit_text caps timed_out s h =
    finish_error-IsSound caps "SSH remote runner timed out" s h
run_step-IsSound exit_text caps aborted s h =
    finish_error-IsSound caps "SSH remote runner aborted" s h

run-keeps-IsSound :
    (exit_text : Option ℕ → String) (caps : Caps) (es : List RunEvent) (s : RunState)
    → IsSound caps s
    → IsSound caps (run exit_text caps es s)
unfolding run
run-keeps-IsSound exit_text caps [] s h = h
run-keeps-IsSound exit_text caps (e ∷ es) s h =
    run-keeps-IsSound exit_text caps es (run_step exit_text caps e s)
      (run_step-IsSound exit_text caps e s h)

start_within : (caps : Caps) → (leb 0 caps.max_output_bytes && leb 0 caps.max_stderr_bytes) ≡ true
start_within caps = ground arith

-- Whatever happens on the connection, in whatever order: a run that was not rejected has read no
-- more than its limits, and the connection was ended exactly once if the run was rejected, and not
-- at all if it was not.
pub run-IsSound :
    (exit_text : Option ℕ → String) (caps : Caps) (events : List RunEvent)
    → IsSound caps (run exit_text caps events run_start)
run-IsSound exit_text caps events =
    run-keeps-IsSound exit_text caps events run_start
      (record { ended = refl; within = start_within caps })

step_settled :
    (exit_text : Option ℕ → String) (caps : Caps) (e : RunEvent) (s : RunState)
    → is_settled s.settlement ≡ true
    → (run_step exit_text caps e s).settlement ≡ s.settlement
unfolding run_step
step_settled exit_text caps (output chunk) s h = simp h
step_settled exit_text caps (errors chunk) s h = simp h
step_settled exit_text caps (closed exit_code flushed) s h = elim (Bool-cases (is_zero exit_code)) [
  | inr other ↦ simp (other, h)
  | inl zero_exit ↦ elim (Option-cases flushed) [
    | inl bad ↦ simp (zero_exit, bad, h)
    | inr ((out, err), good) ↦ simp (zero_exit, good, h)
  ]
]
step_settled exit_text caps (not_started error) s h = simp h
step_settled exit_text caps timed_out s h = simp h
step_settled exit_text caps aborted s h = simp h

run_settled :
    (exit_text : Option ℕ → String) (caps : Caps) (es : List RunEvent) (s : RunState)
    → is_settled s.settlement ≡ true
    → (run exit_text caps es s).settlement ≡ s.settlement
unfolding run
run_settled exit_text caps [] s h = refl
run_settled exit_text caps (e ∷ es) s h =
    let same = step_settled exit_text caps e s h in
    run_settled exit_text caps es (run_step exit_text caps e s) (ap is_settled same ∙ h) ∙ same

run-append :
    (exit_text : Option ℕ → String) (caps : Caps) (es fs : List RunEvent) (s : RunState)
    → run exit_text caps (append es fs) s ≡ run exit_text caps fs (run exit_text caps es s)
unfolding run
run-append exit_text caps [] fs s = refl
run-append exit_text caps (e ∷ es) fs s =
    run-append exit_text caps es fs (run_step exit_text caps e s)

-- The promise of a run is settled once: whatever comes after the events that settled it leaves it
-- as it is.
pub run_settles_once :
    (exit_text : Option ℕ → String) (caps : Caps) (before after : List RunEvent)
    (settled : is_settled (run exit_text caps before run_start).settlement ≡ true)
    → (run exit_text caps (append before after) run_start).settlement
      ≡ (run exit_text caps before run_start).settlement
run_settles_once exit_text caps before after settled =
    ap (λ s. s.settlement) (run-append exit_text caps before after run_start)
    ∙ run_settled exit_text caps after (run exit_text caps before run_start) settled
