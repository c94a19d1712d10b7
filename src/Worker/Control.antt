-- ===== src/Worker/Control.antt =====
-- assertActive, emit and the checks of managedSshProcessor.js (workers/worker-node/src) that a job
-- is made of.
pub mod Rules
use Prim.Native.String.{◌++◌}
use shore_sentinel_app.Base.{
  ℕ, ◌+◌, String, Bool, true, false, not, ◌&&◌, Option, none, some, List, [], ◌∷◌, leb, str_eq,
  length, if◌then◌else◌,
}
use shore_sentinel_app.Value.{
  Value, undef, null, num, whole, pos, str, arr, items, obj, end, field, truthy, nullish, get,
  is_filled_text, is_safe_integer, is_number, is_text, is_object, below_number, nat_of, text_of,
}
use shore_sentinel_app.Shared.{
  JobStatus, claimed, running, parsing, artifact_uploading, succeeded, status_text, RunEventType,
  job_claimed, job_running, parse_started, parse_succeeded, artifact_upload_requested,
  artifact_upload_succeeded, job_succeeded, event_text, scanner_raw_output, normalized_findings,
  enrichment_summary, RunEvent, Built, built, refused, build_run_event,
}
use shore_sentinel_app.Runtime.{Runtime, Serialized, text, nothing, throws}
use shore_sentinel_app.Worker.Exec.{
  Artifact, Call, get_run_control, fetch_ssh_grant, emit_run_event, upload_artifact, start_monitor,
  execute, parse, World, FailureState, Session, Outcome, returned, thrown, Exec, pure, throw,
  require, ◌>>=◌, ◌>>◌, call, with_timeout, record_call, valid_timeout,
}
use shore_sentinel_app.Worker.Job.{SshJob, normalize_ssh_job}

-- A BullMQ job.
pub record Job : Type 0 where
  pub id : String
  pub attempts_made : ℕ
  pub payload : Value

abbrev pub lift_job : Option SshJob → Exec SshJob
lift_job (some j) = pure j
lift_job none = throw "SSH queue payload must contain opaque identifiers only"

-- The condition of the grant's check.
abbrev pub grant_accepted : ℕ → Value → Bool
grant_accepted attempt grant =
    is_filled_text (get "grantId" grant)
    && (is_number attempt (get "attempt" grant)
        && (is_filled_text (get "workerCapability" grant)
            && (is_safe_integer (get "maxAttempts" grant)
                && not (below_number (get "maxAttempts" grant) attempt))))

-- `failureState` is filled in, and the job's property `managedSshFailure` defined.
unfoldable pub remember_grant : ℕ → Value → Exec (Unit {0})
remember_grant attempt grant s = returned tt (record s {
  failure_state = record s.failure_state {
    attempt = some attempt;
    max_attempts = some (nat_of (get "maxAttempts" grant));
    worker_capability = text_of (get "workerCapability" grant);
  };
  on_job = true;
})

module _ (rt : Runtime) (w : World) (lifecycle_timeout_ms : ℕ) where
  -- `assertActive`.
  unfoldable pub assert_active : String → Exec (Unit {0})
  assert_active run_id = do
    control ←
        with_timeout rt w (get_run_control (str run_id)) lifecycle_timeout_ms "worker run control"
    require (not (truthy (get "cancelled" control))) ("Scan run " ++ run_id ++ " was cancelled")

  abbrev send : Built → String → Exec Value
  send (built event) capability =
      with_timeout rt w (emit_run_event event capability) lifecycle_timeout_ms
        "worker lifecycle event"
  send (refused e) capability = throw "run event is incomplete"

  -- `emit`.
  unfoldable pub emit :
      Job → String → String → ℕ → RunEventType → JobStatus → String → Value → Exec (Unit {0})
  emit job run_id capability attempt type status message metadata s =
      (send
            (build_run_event (w.now s.log) run_id job.id (event_text type) (status_text status)
              attempt (some message) metadata)
            capability
          >> pure tt)
        s

abbrev pub no_metadata : Value
no_metadata = obj end
