-- ===== src/Worker/Examples.antt =====
-- A job run to its end, one that is cancelled on the way and one with no grant: the theorems of
-- `Outcomes` at concrete worlds (workers/worker-node/src/managedSshProcessor.js).
mod Failures
mod Settings
mod Requests
use shore_sentinel_app.Base.{
  ◌+◌, ℕ, String, Bool, true, false, ◌≡◌, refl, Option, some, none, List, [], ◌∷◌, All, length,
  if◌then◌else◌, ◌==◌,
}
use shore_sentinel_app.Value.{
  Value, undef, num, whole, pos, bool, str, arr, nil, obj, end, field, nan,
}
use shore_sentinel_app.Shared.{build_run_event, event_text, status_text, kind_text}
use shore_sentinel_app.Runtime.{Runtime, text}
use shore_sentinel_app.Worker.Exec.{
  Call, get_run_control, fetch_ssh_grant, monitor_read, parse, Settled, resolved, World, ◌>>=◌,
  pure, throw, require, call, with_timeout,
}
use shore_sentinel_app.Worker.Limits.{assert_scanner_output_bytes}
use shore_sentinel_app.Worker.Lifecycle.{artifact_upload_payload}
use shore_sentinel_app.Worker.Output.{read, read_length, scanner_output_from_ssh}
use shore_sentinel_app.Worker.Control.{Job, assert_active, emit, remember_grant}
use shore_sentinel_app.Worker.Monitor.{poll, start_monitoring, execute_monitored}
use shore_sentinel_app.Worker.Control.Rules.{
  milestones, IsScoped, IsActive, StopsAtCancel, IsWatched, IsPartial,
}
use shore_sentinel_app.Worker.Job.{SshJob, normalize_ssh_job}
use shore_sentinel_app.Worker.Process.{
  Budgets, completed, failed_with, session_of, process_managed_ssh_job, process_steps, scan,
  hand_off, build_uploads, upload_all, upload_one,
}
use shore_sentinel_app.Worker.Process.Protocol.{full_protocol}
use shore_sentinel_app.Worker.Process.Outcomes.{
  process_order, process-StopsAtCancel, process-IsScoped, process_complete, process_unmanaged,
}

-- A runtime that prints nothing, which is enough where no text is long.
abbrev pub plain : Runtime
plain = record {
  parse_json = λ s. some (obj end);
  stringify = λ v. text "{}";
  stringify_pretty = λ v. text "[]";
  base64 = λ s. s;
  decimal = λ n. "0";
  utf16_length = λ s. 0;
  to_text = λ v. "";
  to_lower = λ s. s;
  trim = λ s. s;
  time_of = λ v. nan;
  encode = λ s. s;
  to_number = λ v. nan;
}

abbrev pub payload : Value
payload = obj (
    field "runId" (str "run-1")
      (field "jobId" (str "job-1") (field "targetId" (str "target-1") end)))

abbrev pub ids : SshJob
ids = record { run_id = "run-1"; job_id = "job-1"; target_id = "target-1" }

abbrev pub job : Job
job = record { id = "queue-job-1"; attempts_made = 0; payload = payload }

abbrev pub budgets : Budgets
budgets = record {
  contract_version = "v1";
  cancellation_poll_ms = 1000;
  parser_timeout_ms = 120000;
  artifact_handoff_timeout_ms = 30000;
  lifecycle_event_timeout_ms = 10000;
}

abbrev grant : Value
grant = obj (
    field "grantId" (str "grant-1") (
      field "attempt" (num (whole (pos 1))) (
        field "workerCapability" (str "capability")
          (field "maxAttempts" (num (whole (pos 3))) end))))

abbrev parsed : Value
parsed = obj (field "normalizedFindings" (arr nil) (field "enrichmentSummary" (obj end) end))

-- The run counts as cancelled once the log holds `limit` calls.
abbrev pub reply : ℕ → List Call → Call → Option Settled
reply limit log (get_run_control v) =
    some (resolved (obj (field "cancelled" (bool (length log == limit)) end)))
reply limit log (monitor_read run) =
    some (resolved (obj (field "cancelled" (bool (length log == limit)) end)))
reply limit log (fetch_ssh_grant r t n) = some (resolved grant)
reply limit log (parse r v c) = some (resolved parsed)
reply limit log _ = some (resolved undef)

abbrev pub world : ℕ → World
world limit = record {
  answer = reply limit;
  settle = λ log c.
      resolved (obj (field "exitCode" (num (whole (pos 0))) (field "stdout" (str "{}") end)));
  polls = λ log. 2;
  now = λ log. "now";
}

pub valid : normalize_ssh_job payload ≡ some ids
unfolding normalize_ssh_job
valid = refl

runs : Unit {0}
unfolding process_managed_ssh_job process_steps ◌>>=◌ normalize_ssh_job assert_active with_timeout
    require remember_grant scan emit build_run_event event_text status_text start_monitoring poll
    execute_monitored scanner_output_from_ssh hand_off read kind_text pure throw
    artifact_upload_payload assert_scanner_output_bytes read_length build_uploads upload_all
    upload_one
runs = tt

completes :
    process_managed_ssh_job plain (world 1000) budgets job []
    ≡ completed
        (record { artifacts = 3; findings = num (whole (pos 0)) })
        (session_of (process_managed_ssh_job plain (world 1000) budgets job []))
unfolding runs
completes = refl

-- The run is cancelled when ten calls were made: the control is read next after the execution and
-- three reads of the monitor.
stops : length (session_of (process_managed_ssh_job plain (world 10) budgets job [])).log ≡ 11
unfolding runs
stops = refl

-- The first read of the monitor after the execution is answered with the cancellation, and is its
-- last: the whole log is one call shorter than that of an attempt that is never cancelled.
watched :
    length (session_of (process_managed_ssh_job plain (world 8) budgets job [])).log + 1
    ≡ length (session_of (process_managed_ssh_job plain (world 1000) budgets job [])).log
unfolding runs
watched = refl

-- Without a grant the error carries no state.
ungranted :
    process_managed_ssh_job plain (world 0) budgets job []
    ≡ failed_with
        (record { message = "Scan run run-1 was cancelled"; managed = false })
        (session_of (process_managed_ssh_job plain (world 0) budgets job []))
unfolding runs
ungranted = refl

process_order_example :
    IsPartial full_protocol
      (milestones (session_of (process_managed_ssh_job plain (world 10) budgets job [])).log)
process_order_example = process_order plain (world 10) budgets job ids valid

process-StopsAtCancel_example :
    let log = (session_of (process_managed_ssh_job plain (world 10) budgets job [])).log in
    StopsAtCancel (world 10) log × IsWatched (world 10) log
process-StopsAtCancel_example = process-StopsAtCancel plain (world 10) budgets job ids valid

process-IsScoped_example :
    let s = session_of (process_managed_ssh_job plain (world 10) budgets job []) in
    All (IsScoped s.failure_state.worker_capability "run-1" 1) s.log
process-IsScoped_example = process-IsScoped plain (world 10) budgets job ids valid

process_complete_example :
    let s = session_of (process_managed_ssh_job plain (world 1000) budgets job []) in
    (milestones s.log ≡ full_protocol) × (◌≡◌ {A = ℕ} 3 3) × IsActive (world 1000) s.log
process_complete_example = process_complete plain (world 1000) budgets job ids valid completes

process_unmanaged_example :
    milestones (session_of (process_managed_ssh_job plain (world 0) budgets job [])).log ≡ []
process_unmanaged_example = process_unmanaged plain (world 0) budgets job ids valid ungranted refl
