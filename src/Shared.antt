-- ===== src/Shared.antt =====
-- packages/shared/src/index.js: the vocabulary that worker, API and web share, and the two
-- functions on it. The clock and `Buffer.from` are arguments.
pub mod Laws
use shore_sentinel_app.Base.{
  ℕ, String, Bool, true, false, not, ◌&&◌, ◌||◌, Option, none, some, List, [], ◌∷◌, ◌++◌, one_of,
  str_eq, if◌then◌else◌,
}
use shore_sentinel_app.Value.{Value, undef, null, str, truthy, get, is_object, is_text, text_of}

-- The queues' names.
pub data Queues : Type 0 where
  scan_jobs parse_jobs artifact_processing lifecycle_events : Queues

unfoldable pub queue_name : Queues → String
queue_name scan_jobs = "shore-sentinel.scan.jobs"
queue_name parse_jobs = "shore-sentinel.parse.jobs"
queue_name artifact_processing = "shore-sentinel.artifact.processing"
queue_name lifecycle_events = "shore-sentinel.lifecycle.events"

pub data JobStatus : Type 0 where
  queued claimed running parsing artifact_uploading succeeded retrying failed : JobStatus

unfoldable pub status_text : JobStatus → String
status_text queued = "queued"
status_text claimed = "claimed"
status_text running = "running"
status_text parsing = "parsing"
status_text artifact_uploading = "artifact_uploading"
status_text succeeded = "succeeded"
status_text retrying = "retrying"
status_text failed = "failed"

pub data RunEventType : Type 0 where
  job_queued job_claimed job_running parse_started parse_succeeded : RunEventType
  artifact_upload_requested artifact_upload_succeeded : RunEventType
  job_retry_scheduled job_succeeded job_failed : RunEventType

unfoldable pub event_text : RunEventType → String
event_text job_queued = "job.queued"
event_text job_claimed = "job.claimed"
event_text job_running = "job.running"
event_text parse_started = "parse.started"
event_text parse_succeeded = "parse.succeeded"
event_text artifact_upload_requested = "artifact.upload_requested"
event_text artifact_upload_succeeded = "artifact.upload_succeeded"
event_text job_retry_scheduled = "job.retry_scheduled"
event_text job_succeeded = "job.succeeded"
event_text job_failed = "job.failed"

pub data ArtifactKind : Type 0 where
  scanner_raw_output normalized_findings enrichment_summary : ArtifactKind

unfoldable pub kind_text : ArtifactKind → String
kind_text scanner_raw_output = "scanner.raw_output"
kind_text normalized_findings = "scanner.normalized_findings"
kind_text enrichment_summary = "scanner.enrichment_summary"

-- `Object.values(ARTIFACT_KIND)`.
abbrev pub kind_values : List String
kind_values =
    "scanner.raw_output" ∷ "scanner.normalized_findings" ∷ "scanner.enrichment_summary" ∷ []

-- What `buildRunEvent` returns. `job_id` is `none` for null.
pub record RunEvent : Type 0 where
  pub run_id : String
  pub job_id : Option String
  pub type : String
  pub status : String
  pub attempt : ℕ
  pub message : String
  pub metadata : Value
  pub occurred_at : String

pub data EventError : Type 0 where
  run_id_required type_required status_required : EventError

pub data Built : Type 0 where
  built : RunEvent → Built
  refused : EventError → Built

abbrev pub job_id_text : String → Option String
job_id_text id = if str_eq id "" then none else some id

-- `message || type`.
abbrev pub message_or : Option String → String → String
message_or none type = type
message_or (some m) type = if str_eq m "" then type else m

-- `buildRunEvent`: a missing text is the empty one, which is as falsy as `undefined`.
unfoldable pub build_run_event :
    (now run_id job_id type status : String) → ℕ → Option String → Value → Built
build_run_event now run_id job_id type status attempt message metadata =
    if str_eq run_id ""
    then refused run_id_required
    else if str_eq type ""
    then refused type_required
    else if str_eq status ""
    then refused status_required
    else built (record {
      run_id = run_id;
      job_id = job_id_text job_id;
      type = type;
      status = status;
      attempt = attempt;
      message = message_or message type;
      metadata = metadata;
      occurred_at = now;
    })

pub data UploadError : Type 0 where
  payload_not_object run_id_missing kind_invalid content_type_missing body_missing : UploadError
  body_not_base64 : UploadError

abbrev report : Bool → UploadError → List UploadError
report true e = e ∷ []
report false e = []

abbrev known_kind : Value → Bool
known_kind (str s) = one_of kind_values s
known_kind undef = false
known_kind _ = false

-- The `errors` of `validateArtifactUpload`; `buffer_from` says whether `Buffer.from` returns.
unfoldable pub upload_errors : (Value → Bool) → Value → List UploadError
upload_errors buffer_from payload =
    report (not (is_object payload)) payload_not_object
    ++ (report (not (truthy (get "runId" payload))) run_id_missing
        ++ (report (not (truthy (get "kind" payload)) || not (known_kind (get "kind" payload)))
              kind_invalid
            ++ (report (not (truthy (get "contentType" payload))) content_type_missing
                ++ (report (not (truthy (get "bodyBase64" payload))) body_missing
                    ++ report
                        (truthy (get "bodyBase64" payload)
                          && not (buffer_from (get "bodyBase64" payload)))
                        body_not_base64))))

abbrev none_left : List UploadError → Bool
none_left [] = true
none_left (_ ∷ _) = false

-- `validateArtifactUpload`: `ok` beside the errors.
unfoldable pub validate_artifact_upload : (Value → Bool) → Value → Bool × List UploadError
unfolding upload_errors
validate_artifact_upload buffer_from payload =
    let errors = upload_errors buffer_from payload in (none_left errors, errors)

abbrev pub scanner_bundle_contract_version : String
scanner_bundle_contract_version = "shore-sentinel.scanner-output/v1"
