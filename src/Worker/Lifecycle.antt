-- ===== src/Worker/Lifecycle.antt =====
-- workers/worker-node/src/lifecycle.js: the retry decision and the body of an artifact upload.
pub mod Laws
use Prim.Native.String.{◌++◌, len}
use shore_sentinel_app.Base.{
  ℕ, ◌+◌, ◌*◌, String, Bool, true, false, ◌&&◌, Option, none, some, leb, ltb, if◌then◌else◌,
}
use shore_sentinel_app.Value.{Value, str, obj, end, field, max_safe, text_or}
use shore_sentinel_app.Shared.{
  JobStatus, retrying, failed, RunEventType, job_retry_scheduled, job_failed, ArtifactKind,
  kind_text,
}
use shore_sentinel_app.Runtime.{Runtime, Serialized, text, nothing, throws}
use shore_sentinel_app.Worker.Exec.{Artifact, Exec, pure, throw, require, ◌>>=◌, ◌>>◌}

abbrev pub worker_artifact_max_bytes : ℕ
worker_artifact_max_bytes = 1024 * 1024

pub record Decision : Type 0 where
  pub retry : Bool
  pub attempt : ℕ
  pub next_attempt : Option ℕ
  pub status : JobStatus
  pub event_type : RunEventType
  pub message : String
  pub metadata : Value

abbrev current_attempt : Option ℕ → Option ℕ → ℕ
current_attempt (some attempt) attempts_made = attempt
current_attempt none (some made) = made + 1
current_attempt none none = 1

-- `{ error: error?.message || String(error || 'unknown error') }` where the error is a text,
-- which has no `message`.
abbrev error_metadata : String → Value
error_metadata e = obj (field "error" (str (text_or e "unknown error")) end)

-- `retryDecision`.
unfoldable pub retry_decision : Runtime → Option ℕ → Option ℕ → ℕ → String → Decision
retry_decision rt attempt attempts_made max_attempts error =
    let current = current_attempt attempt attempts_made in
    let retry = ltb current max_attempts in
    record {
      retry = retry;
      attempt = current;
      next_attempt = if retry then some (current + 1) else none;
      status = if retry then retrying else failed;
      event_type = if retry then job_retry_scheduled else job_failed;
      message =
          if retry
          then "Retry "
            ++ rt.decimal (current + 1)
            ++ "/"
            ++ rt.decimal max_attempts
            ++ " scheduled"
          else "Job failed permanently";
      metadata = error_metadata error;
    }

-- `typeof body === 'string' ? body : JSON.stringify(body, null, 2)`.
abbrev serialized_body : Runtime → Value → Serialized
serialized_body rt (str s) = text s
serialized_body rt v = rt.stringify_pretty v

abbrev bounded_upload :
    Runtime → String → ℕ → ArtifactKind → String → Value → ℕ → Serialized → Exec Artifact
bounded_upload rt run_id attempt kind content_type metadata max_bytes (text s) = do
  require (leb (len s) max_bytes) "artifact body exceeds configured byte limit"
  pure (record {
    run_id = run_id;
    attempt = attempt;
    kind = kind_text kind;
    content_type = content_type;
    body_base64 = rt.base64 s;
    metadata = metadata;
  })
bounded_upload rt run_id attempt kind content_type metadata max_bytes nothing =
    throw "artifact body is not valid JSON"
bounded_upload rt run_id attempt kind content_type metadata max_bytes throws =
    throw "artifact body is not valid JSON"

-- `artifactUploadPayload`.
unfoldable pub artifact_upload_payload :
    Runtime → String → ℕ → ArtifactKind → String → Value → Value → ℕ → Exec Artifact
unfolding pure throw require ◌>>=◌
artifact_upload_payload rt run_id attempt kind content_type body metadata max_bytes = do
  require (leb max_bytes max_safe && leb 1 max_bytes)
      "artifact byte limit must be a positive integer"
  bounded_upload rt run_id attempt kind content_type metadata max_bytes (serialized_body rt body)
