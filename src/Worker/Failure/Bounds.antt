-- ===== src/Worker/Failure/Bounds.antt =====
-- How many events the handling of one failure sends
-- (workers/worker-node/src/failureHandling.js).
use shore_sentinel_app.Base.{
  ◌⊎◌, Bool-cases, inl, inr, ℕ, zero, suc, ◌+◌, ◌≤◌, String, Bool, true, false, ◌||◌, ◌≡◌, refl,
  sym, ◌∙◌, none, List, [], ◌∷◌, arith, Bool-cases, Option-cases, inl, inr,
}
use shore_sentinel_app.Value.{Value, get, truthy}
use shore_sentinel_app.Runtime.{Runtime}
use shore_sentinel_app.Worker.Exec.{
  Call, get_run_control, emit_run_event, sleep, World, Session, Outcome, returned, thrown, final,
  throw, ◌>>=◌, with_timeout, record_call,
}
use shore_sentinel_app.Worker.Exec.Triple.{Post, with_timeout-Post}
use shore_sentinel_app.Worker.Job.{normalize_ssh_job}
use shore_sentinel_app.Worker.Control.{Job}
use shore_sentinel_app.Worker.Failure.{
  Handled, emit_managed_ssh_failure, attempt_result, deliver, after_control,
  handle_managed_ssh_failure,
}
use shore_sentinel_app.Worker.Failure.Delivery.{emit-Delivered}

-- How many events a log holds.
abbrev pub deliveries : List Call → ℕ
deliveries [] = 0
deliveries (emit_run_event e c ∷ log) = suc (deliveries log)
deliveries (_ ∷ log) = deliveries log

true_not_false : true ≡ false → ⊥
true_not_false h = cc

module _ (rt : Runtime) (w : World) (timeout_ms : ℕ) (job : Job) (max_attempts : ℕ)
    (message : String) (managed : Bool) where
  abbrev Emits : Session → Outcome Bool → Type 0
  Emits s o = deliveries (final o).log ≤ suc (deliveries s.log)

  emit_unreferred :
      (s : Session)
      → (managed || s.on_job) ≡ false
      → Emits s (emit_managed_ssh_failure rt w timeout_ms job max_attempts message managed s)
  unfolding emit_managed_ssh_failure
  emit_unreferred s h = rw h (omega arith)

  emit_invalid :
      (s : Session)
      → (managed || s.on_job) ≡ true
      → normalize_ssh_job job.payload ≡ none
      → Emits s (emit_managed_ssh_failure rt w timeout_ms job max_attempts message managed s)
  unfolding emit_managed_ssh_failure ◌>>=◌ throw
  emit_invalid s h e = rw (h, e) (omega arith)

  emit-deliveries :
      (s : Session)
      → Emits s (emit_managed_ssh_failure rt w timeout_ms job max_attempts message managed s)
  emit-deliveries s = elim (Bool-cases (managed || s.on_job)) [
    | inl referred ↦ elim (Option-cases (normalize_ssh_job job.payload)) [
      | inl invalid ↦ emit_invalid s referred invalid
      | inr (ids, valid) ↦
          rw
            (emit-Delivered rt w timeout_ms job ids max_attempts message managed s valid
              referred).one_event
            (omega arith)
    ]
    | inr unreferred ↦ emit_unreferred s unreferred
  ]

  attempt_bound :
      (left : ℕ) (o : Outcome Bool) (again : Session → Handled × Session) (n : ℕ)
      → deliveries (final o).log ≤ suc n
      → ((s : Session) → deliveries (again s).1.log ≤ deliveries s.log + left)
      → deliveries (attempt_result rt w timeout_ms left o again).1.log ≤ n + suc left
  attempt_bound left (returned d s) again n h k = omega arith
  attempt_bound zero (thrown e s) again n h k = omega arith
  attempt_bound (suc left) (thrown e s) again n h k = omega (arith, k (record_call (sleep 1000) s))

  deliver_bound :
      (left : ℕ) (s : Session)
      → deliveries (deliver rt w timeout_ms left job max_attempts message managed s).1.log
        ≤ deliveries s.log + left
  unfolding deliver
  deliver_bound zero s = omega arith
  deliver_bound (suc left) s =
      attempt_bound left
        (emit_managed_ssh_failure rt w timeout_ms job max_attempts message managed s)
        (λ s'. deliver rt w timeout_ms left job max_attempts message managed s') (deliveries s.log)
        (emit-deliveries s) (λ s'. deliver_bound left s')

  attempt_goes_on :
      (left : ℕ) (o : Outcome Bool) (again : Session → Handled × Session)
      → ((s : Session) → (again s).0.cancelled ≡ false)
      → (attempt_result rt w timeout_ms left o again).0.cancelled ≡ false
  attempt_goes_on left (returned d s) again h = refl
  attempt_goes_on zero (thrown e s) again h = refl
  attempt_goes_on (suc left) (thrown e s) again h = h _

  deliver_goes_on :
      (left : ℕ) (s : Session)
      → (deliver rt w timeout_ms left job max_attempts message managed s).0.cancelled ≡ false
  unfolding deliver
  deliver_goes_on zero s = refl
  deliver_goes_on (suc left) s =
      attempt_goes_on left
        (emit_managed_ssh_failure rt w timeout_ms job max_attempts message managed s)
        (λ s'. deliver rt w timeout_ms left job max_attempts message managed s')
        (λ s'. deliver_goes_on left s')

  -- After the control read: at most `attempts` events, and none if the run was cancelled.
  abbrev IsBounded : ℕ → Session → Handled × Session → Type 0
  IsBounded attempts s (h, s') =
      (deliveries s'.log ≤ deliveries s.log + attempts)
      × (h.cancelled ≡ true → (h.delivered ≡ false) × (deliveries s'.log ≡ deliveries s.log))

  deliver-IsBounded :
      (attempts : ℕ) (s : Session)
      → IsBounded attempts s (deliver rt w timeout_ms attempts job max_attempts message managed s)
  deliver-IsBounded attempts s =
      (deliver_bound attempts s, λ c. absurd (true_not_false (sym c ∙ deliver_goes_on attempts s)))

  moved :
      (attempts : ℕ) (s s' : Session) (r : Handled × Session)
      → deliveries s'.log ≡ deliveries s.log
      → IsBounded attempts s' r
      → IsBounded attempts s r
  moved attempts s s' r e h = (omega (arith, h.0), λ c. ((h.1 c).0, (h.1 c).1 ∙ e))

  abbrev Same : Session → Session → Type 0
  Same s s' = deliveries s'.log ≡ deliveries s.log

  after_control-IsBounded :
      (attempts : ℕ) (s : Session) (o : Outcome Value)
      → Post (λ _. Same s) (Same s) o
      → IsBounded attempts s (
          after_control rt w timeout_ms o
            (λ s'. deliver rt w timeout_ms attempts job max_attempts message managed s'))
  after_control-IsBounded attempts s (returned v s') h =
      elim (Bool-cases (truthy (get "cancelled" v))) [
        | inl cancelled ↦ rw cancelled (omega arith, λ _. (refl, h))
        | inr going ↦ rw going (
            moved attempts s s'
              (deliver rt w timeout_ms attempts job max_attempts message managed s') h
              (deliver-IsBounded attempts s'))
      ]
  after_control-IsBounded attempts s (thrown e s') h =
      moved attempts s s' (deliver rt w timeout_ms attempts job max_attempts message managed s') h
        (deliver-IsBounded attempts s')

  -- Handling a failure sends at most as many events as there are delivery attempts, whatever the
  -- API answers; and where it finds the run cancelled it sends none and reports none delivered.
  pub handle_bounded :
      (attempts : ℕ) (s : Session)
      → let r =
          handle_managed_ssh_failure rt w timeout_ms job max_attempts attempts message managed s in
        (deliveries r.1.log ≤ deliveries s.log + attempts)
        × ((r.0.cancelled ≡ false)
            ⊎ ((r.0.delivered ≡ false) × (deliveries r.1.log ≡ deliveries s.log)))
  unfolding handle_managed_ssh_failure
  handle_bounded attempts s =
      let (bound, quiet) =
        after_control-IsBounded attempts s
          (with_timeout rt w (get_run_control (get "runId" job.payload)) timeout_ms
            "worker run control" s)
          (with_timeout-Post (λ _. Same s) (Same s) rt w (get_run_control (get "runId" job.payload))
            timeout_ms "worker run control" s (λ v _. refl) refl) in
      let r =
        handle_managed_ssh_failure rt w timeout_ms job max_attempts attempts message managed s in
      (bound, elim (Bool-cases r.0.cancelled) [ inl e ↦ inr (quiet e) | inr e ↦ inl e ])
