-- ===== src/Api/Run/Events.antt =====
-- `workerEvent` of api/src/app.controller.ts: the statement that applies a worker's event.
use shore_sentinel_app.Base.{
  ℕ, suc, ◌+◌, String, Bool, true, false, not, ◌&&◌, ◌||◌, Option, none, some, List, ◌∷◌, any, map,
  ltb, leb, ◌==◌, str_eq, if◌then◌else◌,
}
use shore_sentinel_app.Shared.{
  RunEventType, job_queued, job_claimed, job_running, parse_started, parse_succeeded,
  artifact_upload_requested, artifact_upload_succeeded, job_retry_scheduled, job_succeeded,
  job_failed,
}
use shore_sentinel_app.Api.Run.{
  Status, pending, queued, leased, running, completed, failed, is_started, is_active_run,
  is_pending, Grant, reported, Store, is_live, has_event,
}

-- `workerEventTransition`: the statuses of the run and the job, none for a type that throws.
unfoldable pub worker_event_transition : RunEventType → Option (Status × Status)
worker_event_transition job_claimed = some (leased, leased)
worker_event_transition job_running = some (running, running)
worker_event_transition parse_started = some (running, running)
worker_event_transition parse_succeeded = some (running, running)
worker_event_transition artifact_upload_requested = some (running, running)
worker_event_transition artifact_upload_succeeded = some (running, running)
worker_event_transition job_succeeded = some (completed, completed)
worker_event_transition job_failed = some (failed, failed)
worker_event_transition job_retry_scheduled = some (pending, queued)
worker_event_transition job_queued = none

abbrev pub is_retry : RunEventType → Bool
is_retry job_retry_scheduled = true
is_retry _ = false

-- The condition on `sr.status` of `transitioned_run`.
abbrev pub applies_to : RunEventType → Status → Bool
applies_to job_claimed s = is_pending s
applies_to job_retry_scheduled s = is_active_run s
applies_to job_queued s = false
applies_to _ s = is_started s

-- The grant that `authorized` joins.
abbrev pub is_granted : (now : ℕ) (grant_id : String) (attempt : ℕ) → Grant → Bool
is_granted now grant_id attempt g =
    (str_eq g.id grant_id && (g.attempt == attempt)) && is_live now g

-- `authorized`.
abbrev pub authorizes : (now : ℕ) (grant_id : String) (attempt : ℕ) → RunEventType → Store → Bool
authorizes now grant_id attempt type s =
    any (is_granted now grant_id attempt) s.grants
    && not s.cancellation_requested
    && leb attempt s.retry_max_attempts
    && (not (is_retry type) || ((s.retry_count + 1 == attempt) && ltb attempt s.retry_max_attempts))

-- `revoked_attempt`.
abbrev pub revoke_grant : String → Grant → Grant
revoke_grant grant_id g = if str_eq g.id grant_id then record g { revoked = true } else g

-- `next_attempt`: the constraint on the attempts of a run makes a second grant do nothing.
abbrev pub add_grant : Grant → List Grant → List Grant
add_grant g gs = if any (λ h. h.attempt == g.attempt) gs then gs else g ∷ gs

abbrev pub next_grant : String → ℕ → Grant
next_grant id attempt = record {
  id = id;
  attempt = suc attempt;
  expires_at = none;
  consumed = false;
  revoked = false;
}

-- The rows after `transitioned_run` and the parts that follow it.
abbrev pub applied :
    (grant_id next_id : String) (attempt : ℕ) → RunEventType → Status × Status → Store → Store
applied grant_id next_id attempt type (run, job) s = record s {
  run_status = run;
  job_status = job;
  retry_count = if is_retry type then s.retry_count + 1 else s.retry_count;
  grants =
      if is_retry type
      then add_grant (next_grant next_id attempt) (map (revoke_grant grant_id) s.grants)
      else s.grants;
  events = record { type = reported type; attempt = some attempt } ∷ s.events;
}

-- What the statement brings: no row, the row of the event, or an error of the unique index on
-- the events of an attempt, which leaves everything as it was.
pub data Written : Type 0 where
  refused written duplicate : Written

-- The statement, for the statuses of a transition.
abbrev pub write_event :
    (now : ℕ) (grant_id next_id : String) (attempt : ℕ)
    → RunEventType
    → Store
    → Option (Status × Status)
    → Written × Store
write_event now grant_id next_id attempt type s none = (refused, s)
write_event now grant_id next_id attempt type s (some statuses) =
    if not (authorizes now grant_id attempt type s && applies_to type s.run_status)
    then (refused, s)
    else if has_event type attempt s.events
    then (duplicate, s)
    else (written, applied grant_id next_id attempt type statuses s)

-- The statement of `workerEvent`; `next_id` is the identifier that a new grant gets.
unfoldable pub worker_event_statement :
    (now : ℕ) (grant_id next_id : String) (attempt : ℕ) → RunEventType → Store → Written × Store
worker_event_statement now grant_id next_id attempt type s =
    write_event now grant_id next_id attempt type s (worker_event_transition type)
