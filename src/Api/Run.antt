-- ===== src/Api/Run.antt =====
-- api/src/app.controller.ts, queue.service.ts and schema.ts: the rows of the database that belong
-- to one run of one tenant, as far as a statement reads them. Times are milliseconds; a time that
-- is only tested for being null is a truth value. Columns that are the same in every row that is
-- inserted (the worker `worker-node`, the action `ssh_execute`) are left out.
pub mod Events
pub mod Grants
pub mod Cancel
pub mod Artifacts
pub mod Dispatch
pub mod Steps
pub mod Ladder
pub mod Sound
pub mod Automaton
pub mod Laws
pub mod Requests
use shore_sentinel_app.Base.{
  ℕ, ◌+◌, String, Bool, true, false, not, ◌&&◌, ◌||◌, Option, none, some, List, [], ◌∷◌, any, ltb,
  leb, ◌==◌, str_eq, if◌then◌else◌,
}
use shore_sentinel_app.Shared.{
  RunEventType, job_queued, job_claimed, job_running, parse_started, parse_succeeded,
  artifact_upload_requested, artifact_upload_succeeded, job_retry_scheduled, job_succeeded,
  job_failed,
}
use shore_sentinel_app.Api.Cleanup.{CleanupWork}

-- The types `scan_run_status` and `scan_job_status` of the schema: `pending` and `stale` belong to
-- the former only, `queued` to the latter only.
pub data Status : Type 0 where
  pending queued leased running completed failed stale cancelled : Status

-- `status IN ('leased','running')`, and the two lists that have the waiting status as well.
abbrev pub is_started : Status → Bool
is_started leased = true
is_started running = true
is_started _ = false

abbrev pub is_active_run : Status → Bool
is_active_run pending = true
is_active_run leased = true
is_active_run running = true
is_active_run _ = false

abbrev pub is_open_job : Status → Bool
is_open_job queued = true
is_open_job leased = true
is_open_job running = true
is_open_job _ = false

abbrev pub is_pending : Status → Bool
is_pending pending = true
is_pending _ = false

abbrev pub is_queued : Status → Bool
is_queued queued = true
is_queued _ = false

abbrev pub is_cancelled : Status → Bool
is_cancelled cancelled = true
is_cancelled _ = false

-- `status IN ('completed','failed')`, and with 'cancelled'.
abbrev pub is_finished : Status → Bool
is_finished completed = true
is_finished failed = true
is_finished _ = false

abbrev pub is_terminal : Status → Bool
is_terminal s = is_finished s || is_cancelled s

-- A row of `worker_execution_grants`.
pub record Grant : Type 0 where
  pub id : String
  pub attempt : ℕ
  pub expires_at : Option ℕ
  pub consumed : Bool
  pub revoked : Bool

-- The type of a row of `job_events`: one that a worker or the queue reports, or one of the API.
pub data EventType : Type 0 where
  reported : RunEventType → EventType
  artifact_uploaded scan_cancelled : EventType

-- A row of `job_events`, with `payload->>'attempt'` where the payload has it, which is taken to be
-- written as a number is.
pub record Event : Type 0 where
  pub type : EventType
  pub attempt : Option ℕ

-- `artifact_parse_status`, as far as it is written.
pub data ParseStatus : Type 0 where
  processing uploaded quarantined : ParseStatus

-- A row of `artifacts`.
pub record StoredArtifact : Type 0 where
  pub id : String
  pub artifact_type : String
  pub sha256 : String
  pub storage_uri : String
  pub parse_status : ParseStatus

-- The row of `scan_dispatch_outbox`.
pub record DispatchRow : Type 0 where
  pub published : Bool
  pub failed : Bool
  pub attempt_count : ℕ
  pub next_attempt_at : Option ℕ
  pub created_at : ℕ

-- The rows of one run and its job. `enrolled` says that the joins with the target, its credential,
-- host key pin and policies bring a row, and `alerts` are the events
-- `scan.dispatch_failed` of `notification_events`, by their `attempt_count`.
pub record Store : Type 0 where
  pub run_status : Status
  pub cancellation_requested : Bool
  pub job_status : Status
  pub retry_count : ℕ
  pub retry_max_attempts : ℕ
  pub retry_backoff_ms : ℕ
  pub grants : List Grant
  pub events : List Event
  pub artifacts : List StoredArtifact
  pub cleanup : List CleanupWork
  pub dispatch : Option DispatchRow
  pub alerts : List ℕ
  pub enrolled : Bool

-- `expires_at > now()` and `expires_at <= now()`: neither holds of null.
abbrev pub after_now : ℕ → Option ℕ → Bool
after_now now none = false
after_now now (some t) = ltb now t

abbrev pub expired : ℕ → Option ℕ → Bool
expired now none = false
expired now (some t) = leb t now

abbrev pub is_null : Option ℕ → Bool
is_null none = true
is_null (some t) = false

-- The conditions that every use of a grant shares: consumed, not revoked and not expired.
abbrev pub is_live : ℕ → Grant → Bool
is_live now g = g.consumed && not g.revoked && after_now now g.expires_at

abbrev pub type_code : RunEventType → ℕ
type_code job_queued = 0
type_code job_claimed = 1
type_code job_running = 2
type_code parse_started = 3
type_code parse_succeeded = 4
type_code artifact_upload_requested = 5
type_code artifact_upload_succeeded = 6
type_code job_retry_scheduled = 7
type_code job_succeeded = 8
type_code job_failed = 9

-- Whether a row is the event of a type, given by its code, for an attempt.
abbrev pub is_coded : (code attempt : ℕ) → Event → Bool
is_coded code attempt e = elim e.type [
  | reported t ↦ (type_code t == code) && elim e.attempt [ none ↦ false | some n ↦ n == attempt ]
  | artifact_uploaded ↦ false
  | scan_cancelled ↦ false
]

abbrev pub is_event : RunEventType → ℕ → Event → Bool
is_event type attempt = is_coded (type_code type) attempt

abbrev pub has_event : RunEventType → ℕ → List Event → Bool
has_event type attempt events = any (is_event type attempt) events

-- `createJob`: the rows of a run that is just created, whose grant for the first attempt waits to
-- be consumed.
unfoldable pub create_job :
    (grant_id : String) (now retry_max_attempts retry_backoff_ms : ℕ) → Bool → Store
create_job grant_id now retry_max_attempts retry_backoff_ms enrolled = record {
  run_status = pending;
  cancellation_requested = false;
  job_status = queued;
  retry_count = 0;
  retry_max_attempts = retry_max_attempts;
  retry_backoff_ms = retry_backoff_ms;
  grants =
      record { id = grant_id; attempt = 1; expires_at = none; consumed = false; revoked = false }
      ∷ [];
  events = record { type = reported job_queued; attempt = none } ∷ [];
  artifacts = [];
  cleanup = [];
  dispatch = some (record {
    published = false;
    failed = false;
    attempt_count = 0;
    next_attempt_at = none;
    created_at = now;
  });
  alerts = [];
  enrolled = enrolled;
}
