-- ===== src/Worker/Examples/Failures.antt =====
-- The failure handling and the bounds of uploads at concrete inputs (workers/worker-node/src).

use shore_sentinel_app.Base.{◌⊎◌, ◌≤◌, Bool, true, false, ◌≡◌, refl, ◌↔◌, some, none, [], ◌∷◌}
use shore_sentinel_app.Value.{undef, str, get, truthy, is_object}
use shore_sentinel_app.Shared.{RunEvent, scanner_raw_output, validate_artifact_upload}
use shore_sentinel_app.Shared.Laws.{IsKind, validate_artifact_upload_iff}
use shore_sentinel_app.Worker.Exec.{emit_run_event, rejected, World, Session, final}
use shore_sentinel_app.Worker.Exec.Triple.{Post}
use shore_sentinel_app.Worker.Job.{normalize_ssh_job}
use shore_sentinel_app.Worker.Job.Laws.{IsOpaque, normalize_ssh_job_iff}
use shore_sentinel_app.Worker.Lifecycle.{artifact_upload_payload}
use shore_sentinel_app.Worker.Lifecycle.Laws.{IsUpload, artifact_upload_payload-Post}
use shore_sentinel_app.Worker.Output.{scanner_output_from_ssh}
use shore_sentinel_app.Worker.Output.Laws.{Fits, scanner_output_from_ssh-Reads}
use shore_sentinel_app.Worker.Failure.{emit_managed_ssh_failure, handle_managed_ssh_failure}
use shore_sentinel_app.Worker.Failure.Delivery.{emit_again}
use shore_sentinel_app.Worker.Failure.Bounds.{deliveries, handle_bounded}
use shore_sentinel_app.Worker.Examples.{plain, job, ids, payload, valid}

-- An API that is down.
abbrev down : World
down = record {
  answer = λ log c. some (rejected "transport unavailable");
  settle = λ log c. rejected "transport unavailable";
  polls = λ log. 0;
  now = λ log. "now";
}

-- The session after the first attempt's grant.
abbrev granted : Session
granted = record {
  log = [];
  failure_state = record {
    attempt = some 1;
    max_attempts = some 3;
    worker_capability = "capability";
    failure = none;
  };
  on_job = true;
}

emit_again_example :
    let s1 = final (emit_managed_ssh_failure plain down 10000 job 3 "remote failed" true granted) in
    let s2 = final (emit_managed_ssh_failure plain down 10000 job 7 "stalled" true s1) in
    (e : RunEvent) × (s2.log
      ≡ emit_run_event (record e { occurred_at = "now" }) "capability"
        ∷ emit_run_event e "capability"
        ∷ [])
emit_again_example =
    emit_again plain down 10000 job ids 3 7 "remote failed" "stalled" true true granted valid refl
      refl

handle_bounded_example :
    let r = handle_managed_ssh_failure plain down 10000 job 3 2 "remote failed" true granted in
    (deliveries r.1.log ≤ 2)
    × ((r.0.cancelled ≡ false) ⊎ ((r.0.delivered ≡ false) × (deliveries r.1.log ≡ 0)))
handle_bounded_example = handle_bounded plain down 10000 job 3 "remote failed" true 2 granted

artifact_upload_payload-Post_example :
    Post
      (λ a s'. (s' ≡ granted) × IsUpload plain "run-1" 1 scanner_raw_output (str "{}") 4 a)
      (λ s'. s' ≡ granted)
      (artifact_upload_payload plain "run-1" 1 scanner_raw_output "application/json"
        (str "{}")
        undef
        4
        granted)
artifact_upload_payload-Post_example =
    artifact_upload_payload-Post plain "run-1" 1 scanner_raw_output "application/json" (str "{}")
      undef 4 granted

scanner_output_from_ssh-Reads_example :
    Post
      (λ out s'. (s' ≡ granted) × Fits out)
      (λ s'. s' ≡ granted)
      (scanner_output_from_ssh plain undef granted)
scanner_output_from_ssh-Reads_example = scanner_output_from_ssh-Reads plain undef granted

normalize_ssh_job_iff_example : (normalize_ssh_job payload ≡ some ids) ↔ IsOpaque payload ids
normalize_ssh_job_iff_example = normalize_ssh_job_iff payload ids

validate_artifact_upload_iff_example : ((validate_artifact_upload (λ v. true) payload).0 ≡ true) ↔ (
    (is_object payload ≡ true)
    × (truthy (get "runId" payload) ≡ true)
    × IsKind (get "kind" payload)
    × (truthy (get "contentType" payload) ≡ true)
    × (truthy (get "bodyBase64" payload) ≡ true)
    × (◌≡◌ {A = Bool} true true))
validate_artifact_upload_iff_example = validate_artifact_upload_iff (λ v. true) payload
