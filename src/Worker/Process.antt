-- ===== src/Worker/Process.antt =====
-- processManagedSshJob of workers/worker-node/src/managedSshProcessor.js: from the queue's job to
-- the uploaded artifacts. The monitor that polls while the scan runs is `Monitor`.
pub mod Protocol
pub mod Progress
pub mod Guarantees
pub mod Outcomes
use Prim.Native.String.{◌++◌}
use shore_sentinel_app.Base.{
  ℕ, ◌+◌, String, Bool, true, false, not, ◌&&◌, Option, none, some, List, [], ◌∷◌, leb, str_eq,
  length, if◌then◌else◌,
}
use shore_sentinel_app.Value.{
  Value, undef, null, num, whole, pos, str, arr, items, obj, end, field, truthy, nullish, get,
  is_filled_text, is_safe_integer, is_number, is_text, is_object, below_number, nat_of, text_of,
}
use shore_sentinel_app.Shared.{
  JobStatus, claimed, running, parsing, artifact_uploading, succeeded, status_text, RunEventType,
  job_claimed, job_running, parse_started, parse_succeeded, artifact_upload_requested,
  artifact_upload_succeeded, job_succeeded, event_text, scanner_raw_output, normalized_findings,
  enrichment_summary, RunEvent, Built, built, refused, build_run_event,
}
use shore_sentinel_app.Runtime.{Runtime, Serialized, text, nothing, throws}
use shore_sentinel_app.Worker.Exec.{
  Artifact, Call, get_run_control, fetch_ssh_grant, emit_run_event, upload_artifact, start_monitor,
  execute, parse, World, FailureState, Session, Outcome, returned, thrown, Exec, pure, throw,
  require, ◌>>=◌, ◌>>◌, call, with_timeout, record_call, valid_timeout,
}
use shore_sentinel_app.Worker.Limits.{assert_scanner_output_bytes, raw_scanner_artifact_max_bytes}
use shore_sentinel_app.Worker.Job.{SshJob, normalize_ssh_job}
use shore_sentinel_app.Worker.Lifecycle.{artifact_upload_payload, worker_artifact_max_bytes}
use shore_sentinel_app.Worker.Output.{read, read_length, ScannerOutput, scanner_output_from_ssh}
use shore_sentinel_app.Worker.Control.{
  Job, lift_job, grant_accepted, remember_grant, assert_active, emit, no_metadata,
}
use shore_sentinel_app.Worker.Monitor.{start_monitoring, execute_monitored}

-- The budgets of `processManagedSshJob`.
pub record Budgets : Type 0 where
  pub contract_version : String
  pub cancellation_poll_ms : ℕ
  pub parser_timeout_ms : ℕ
  pub artifact_handoff_timeout_ms : ℕ
  pub lifecycle_event_timeout_ms : ℕ

pub record Summary : Type 0 where
  pub artifacts : ℕ
  pub findings : Value

module _ (rt : Runtime) (w : World) (o : Budgets) where
  -- The `uploads` of the job, all built before the first is sent.
  unfoldable pub build_uploads : String → ℕ → String → Value → Exec (List Artifact)
  build_uploads run_id attempt raw parsed = do
    raw_upload ←
        artifact_upload_payload rt run_id attempt scanner_raw_output "application/json" (str raw)
          (obj (
            field "contractVersion" (str o.contract_version)
              (field "source" (str "managed_ssh") end)))
          raw_scanner_artifact_max_bytes
    findings ←
        artifact_upload_payload rt run_id attempt normalized_findings "application/json"
          (get "normalizedFindings" parsed)
          (obj (field "parserVersion" (get "parserVersion" parsed) end)) worker_artifact_max_bytes
    enrichment ←
        artifact_upload_payload rt run_id attempt enrichment_summary "application/json"
          (get "enrichmentSummary" parsed)
          (obj (field "parserVersion" (get "parserVersion" parsed) end)) worker_artifact_max_bytes
    pure (raw_upload ∷ findings ∷ enrichment ∷ [])

  -- One round of the loop over `uploads`, and the loop.
  unfoldable pub upload_one : Job → String → String → ℕ → Artifact → Exec (Unit {0})
  upload_one job run_id capability attempt artifact = do
    assert_active rt w o.lifecycle_event_timeout_ms run_id
    emit rt w o.lifecycle_event_timeout_ms job run_id capability attempt artifact_upload_requested
        artifact_uploading ("Uploading " ++ artifact.kind) no_metadata
    with_timeout rt w (upload_artifact artifact capability) o.artifact_handoff_timeout_ms
        "artifact handoff"
    emit rt w o.lifecycle_event_timeout_ms job run_id capability attempt artifact_upload_succeeded
        artifact_uploading ("Uploaded " ++ artifact.kind) no_metadata

  unfoldable pub upload_all : Job → String → String → ℕ → List Artifact → Exec (Unit {0})
  upload_all job run_id capability attempt [] = pure tt
  upload_all job run_id capability attempt (artifact ∷ rest) = do
    upload_one job run_id capability attempt artifact
    upload_all job run_id capability attempt rest

  -- From the parser's result to the end of the job.
  unfoldable pub hand_off : Job → String → String → ℕ → String → Value → Exec Summary
  hand_off job run_id capability attempt raw parsed = do
    assert_active rt w o.lifecycle_event_timeout_ms run_id
    list ← read "normalizedFindings" parsed
    count ← read_length rt list
    emit rt w o.lifecycle_event_timeout_ms job run_id capability attempt parse_succeeded
        artifact_uploading "Python parser completed" (obj (field "findings" count end))
    uploads ← build_uploads run_id attempt raw parsed
    upload_all job run_id capability attempt uploads
    assert_active rt w o.lifecycle_event_timeout_ms run_id
    emit rt w o.lifecycle_event_timeout_ms job run_id capability attempt job_succeeded succeeded
        "Managed SSH scan job completed" no_metadata
    pure (record { artifacts = length uploads; findings = count })

  -- From the accepted grant to the parser's result.
  unfoldable pub scan : Job → String → String → ℕ → Value → Exec Summary
  scan job run_id capability attempt grant = do
    assert_active rt w o.lifecycle_event_timeout_ms run_id
    emit rt w o.lifecycle_event_timeout_ms job run_id capability attempt job_claimed claimed
        "Node worker claimed managed SSH scan job" no_metadata
    emit rt w o.lifecycle_event_timeout_ms job run_id capability attempt job_running running
        "Managed SSH scan started" no_metadata
    aborted ← start_monitoring w o.lifecycle_event_timeout_ms run_id o.cancellation_poll_ms
    result ← execute_monitored w o.lifecycle_event_timeout_ms run_id aborted grant
    assert_active rt w o.lifecycle_event_timeout_ms run_id
    output ← scanner_output_from_ssh rt result
    emit rt w o.lifecycle_event_timeout_ms job run_id capability attempt parse_started parsing
        "Python parser requested for managed SSH result" no_metadata
    parsed ←
        with_timeout rt w (parse run_id output.scanner_output o.contract_version)
          o.parser_timeout_ms "Python parser"
    hand_off job run_id capability attempt output.raw parsed

  -- `processManagedSshJobSteps`.
  unfoldable pub process_steps : Job → Exec Summary
  process_steps job = do
    ids ← lift_job (normalize_ssh_job job.payload)
    assert_active rt w o.lifecycle_event_timeout_ms ids.run_id
    grant ←
        with_timeout rt w (fetch_ssh_grant ids.run_id ids.target_id (job.attempts_made + 1))
          o.lifecycle_event_timeout_ms "SSH grant acquisition"
    require (grant_accepted (job.attempts_made + 1) grant)
        "SSH execution grant is missing attempt-scoped capability identifier"
    remember_grant (job.attempts_made + 1) grant
    scan job ids.run_id (text_of (get "workerCapability" grant)) (job.attempts_made + 1) grant

-- What `processManagedSshJob` throws: the error, and whether it carries `failureState`.
pub record Thrown : Type 0 where
  pub message : String
  pub managed : Bool

pub data Processed : Type 0 where
  completed : Summary → Session → Processed
  failed_with : Thrown → Session → Processed

abbrev pub no_failure_state : FailureState
no_failure_state = record {
  attempt = none;
  max_attempts = none;
  worker_capability = "";
  failure = none;
}

abbrev pub fresh : List Call → Session
fresh log = record { log = log; failure_state = no_failure_state; on_job = false }

abbrev pub caught : Outcome Summary → Processed
caught (returned summary s) = completed summary s
caught (thrown e s) =
    failed_with
      (record { message = e; managed = not (str_eq s.failure_state.worker_capability "") }) s

-- `processManagedSshJob`, after the calls of `log`.
unfoldable pub process_managed_ssh_job : Runtime → World → Budgets → Job → List Call → Processed
process_managed_ssh_job rt w o job log = caught (process_steps rt w o job (fresh log))

-- The state that a run of `processManagedSshJob` ends in.
abbrev pub session_of : Processed → Session
session_of (completed summary s) = s
session_of (failed_with e s) = s
