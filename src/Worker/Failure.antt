-- ===== src/Worker/Failure.antt =====
-- emitManagedSshFailure of workers/worker-node/src/managedSshProcessor.js, failureHandling.js and
-- the handlers of index.js: what happens to a job that failed.
pub mod Delivery
pub mod Bounds
use Prim.Native.String.{◌++◌}
use shore_sentinel_app.Base.{
  ℕ, zero, suc, String, Bool, true, false, not, ◌&&◌, ◌||◌, Option, none, some, List, [], ◌∷◌, ltb,
  str_eq, if◌then◌else◌,
}
use shore_sentinel_app.Value.{
  Value, str, num, whole, pos, bool, get, truthy, text_or, is_text, text_of,
}
use shore_sentinel_app.Shared.{
  status_text, event_text, RunEvent, Built, built, refused, build_run_event,
}
use shore_sentinel_app.Runtime.{Runtime}
use shore_sentinel_app.Worker.Exec.{
  Call, get_run_control, emit_run_event, reconcile_cleanup, sleep, World, FailureRecord,
  FailureState, Session, Outcome, returned, thrown, Exec, pure, throw, require, ◌>>=◌, ◌>>◌, call,
  with_timeout, record_call,
}
use shore_sentinel_app.Worker.Lifecycle.{Decision, retry_decision}
use shore_sentinel_app.Worker.Control.{Job, lift_job}
use shore_sentinel_app.Worker.Job.{normalize_ssh_job}
use shore_sentinel_app.Worker.Process.{
  Budgets, Summary, Thrown, Processed, completed, failed_with, process_managed_ssh_job,
}

abbrev pub lifecycle_delivery_attempts : ℕ
lifecycle_delivery_attempts = 3

-- `state.maxAttempts ?? maxAttempts`.
abbrev attempts_or : Option ℕ → ℕ → ℕ
attempts_or (some n) m = n
attempts_or none m = m

-- `state.failure ??= { … }`; the text of an `Error` whose message is empty is "Error".
abbrev pub keep_failure : FailureState → ℕ → String → Option FailureRecord → FailureRecord
keep_failure state max_attempts message (some f) = f
keep_failure state max_attempts message none = record {
  max_attempts = attempts_or state.max_attempts max_attempts;
  error = text_or message "Error";
}

abbrev record_failure : ℕ → String → Exec FailureRecord
record_failure max_attempts message s =
    let f = keep_failure s.failure_state max_attempts message s.failure_state.failure in
    returned f (record s { failure_state = record s.failure_state { failure = some f } })

abbrev forget_on_job : Exec Bool
forget_on_job s = returned true (record s { on_job = false })

pub record Handled : Type 0 where
  pub cancelled : Bool
  pub delivered : Bool

module _ (rt : Runtime) (w : World) (lifecycle_timeout_ms : ℕ) where
  abbrev send_failure : Built → String → Exec Value
  send_failure (built event) capability =
      with_timeout rt w (emit_run_event event capability) lifecycle_timeout_ms
        "worker failure lifecycle event"
  send_failure (refused e) capability = throw "run event is incomplete"

  -- The event that reports a decision.
  abbrev pub failure_event : Job → String → Decision → Session → Built
  failure_event job run_id d s =
      build_run_event (w.now s.log) run_id job.id (event_text d.event_type) (status_text d.status)
        d.attempt (some d.message) d.metadata

  report_failure : Job → String → FailureRecord → Exec Value
  report_failure job run_id f s =
      let d = retry_decision rt s.failure_state.attempt none f.max_attempts f.error in
      send_failure (failure_event job run_id d s) s.failure_state.worker_capability s

  -- `emitManagedSshFailure`. `managed` says that the error, or the argument `failureState`, refers
  -- to the object `failureState`; the job may refer to it too.
  pub emit_managed_ssh_failure : Job → ℕ → String → Bool → Exec Bool
  unfolding pure throw report_failure
  emit_managed_ssh_failure job max_attempts message managed s =
      if not (managed || s.on_job)
      then returned false s
      else (do
        ids ← lift_job (normalize_ssh_job job.payload)
        f ← record_failure max_attempts message
        report_failure job ids.run_id f
        forget_on_job)
          s

  -- One delivery that failed, with `left` attempts after it: the last one ends the loop.
  abbrev attempt_result : ℕ → Outcome Bool → (Session → Handled × Session) → Handled × Session
  attempt_result left (returned d s) again = (record { cancelled = false; delivered = d }, s)
  attempt_result zero (thrown e s) again = (record { cancelled = false; delivered = false }, s)
  attempt_result (suc left) (thrown e s) again = again (record_call (sleep 1000) s)

  -- The loop over `deliveryAttempt`.
  pub deliver : ℕ → Job → ℕ → String → Bool → Session → Handled × Session
  deliver zero job max_attempts message managed s =
      (record { cancelled = false; delivered = false }, s)
  deliver (suc left) job max_attempts message managed s =
      attempt_result left (emit_managed_ssh_failure job max_attempts message managed s)
        (λ s'. deliver left job max_attempts message managed s')

  abbrev after_control : Outcome Value → (Session → Handled × Session) → Handled × Session
  after_control (returned control s) continue =
      if truthy (get "cancelled" control)
      then (record { cancelled = true; delivered = false }, s)
      else continue s
  after_control (thrown e s) continue = continue s

  -- `handleManagedSshFailure`. The run is read as `job.data?.runId`.
  pub handle_managed_ssh_failure : Job → ℕ → ℕ → String → Bool → Session → Handled × Session
  handle_managed_ssh_failure job max_attempts attempts message managed s =
      after_control
        (with_timeout rt w (get_run_control (get "runId" job.payload)) lifecycle_timeout_ms
          "worker run control" s)
        (λ s'. deliver attempts job max_attempts message managed s')
