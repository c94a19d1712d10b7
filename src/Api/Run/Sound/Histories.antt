-- ===== src/Api/Run/Sound/Histories.antt =====
-- The histories of statements of api/src, for the invariant.
use shore_sentinel_app.Base.{Bool}
use shore_sentinel_app.Api.Run.{Store}
use shore_sentinel_app.Api.Run.Steps.{
  Step, report, hand_out, cancel, reserve, finalize, discard, purge, publish, abandon, delay, enrol,
  Run, start, then_step, IsReachable,
}
use shore_sentinel_app.Api.Run.Sound.{IsSound}
use shore_sentinel_app.Api.Run.Sound.Statements.{create_job-IsSound, cancel_statement-IsSound}
use shore_sentinel_app.Api.Run.Sound.Files.{
  reserve_statement-IsSound, finalize_statement-IsSound, discard_statement-IsSound,
  delete_statement-IsSound, mark_published-IsSound, mark_failed-IsSound, mark_retry-IsSound,
}
use shore_sentinel_app.Api.Run.Sound.Reports.{worker_event_statement-IsSound}
use shore_sentinel_app.Api.Run.Sound.Handouts.{ssh_grant_statement-IsSound}

enrol-IsSound : (b : Bool) (s : Store) → IsSound s → IsSound (record s { enrolled = b })
enrol-IsSound b s sound = record {
  run_reachable = sound.run_reachable;
  statuses_match = sound.statuses_match;
  cancellation_known = sound.cancellation_known;
  attempts_left = sound.attempts_left;
  grants_in_order = sound.grants_in_order;
  events_bounded = sound.events_bounded;
  grants_cleared = sound.grants_cleared;
  artifacts_cleared = sound.artifacts_cleared;
  events_cleared = sound.events_cleared;
  dispatch_cleared = sound.dispatch_cleared;
}

pub Step-IsSound : {s t : Store} → Step s t → IsSound s → IsSound t
Step-IsSound (report now grant_id next_id attempt type s) h =
    worker_event_statement-IsSound now grant_id next_id attempt type s h
Step-IsSound (hand_out id now lifetime_ms attempt s) h =
    ssh_grant_statement-IsSound id now lifetime_ms attempt s h
Step-IsSound (cancel now s) h = cancel_statement-IsSound now s h
Step-IsSound (reserve now attempt id kind sha256 uri s) h =
    reserve_statement-IsSound s h now attempt id kind sha256 uri
Step-IsSound (finalize now attempt id uri s) h = finalize_statement-IsSound s h now attempt id uri
Step-IsSound (discard now id uri s) h = discard_statement-IsSound now id uri s h
Step-IsSound (purge id works s) h = delete_statement-IsSound id works s h
Step-IsSound (publish s) h = mark_published-IsSound s h
Step-IsSound (abandon s) h = mark_failed-IsSound s h
Step-IsSound (delay now attempt_count s) h = mark_retry-IsSound now attempt_count s h
Step-IsSound (enrol b s) h = enrol-IsSound b s h

pub Run-IsSound : {s t : Store} → Run s t → IsSound s → IsSound t
Run-IsSound start h = h
Run-IsSound (then_step earlier st) h = Step-IsSound st (Run-IsSound earlier h)

-- However the statements of requests and deliveries follow each other after a run is created with
-- at least one attempt: its status and that of its job go together, a cancellation is requested
-- exactly of a cancelled run, attempts remain below their maximum, its grants are one for each
-- attempt so far with all but the newest revoked, no event is of a later attempt, and a cancelled
-- run has only revoked grants, quarantined artifacts, no event of an upload and no unpublished
-- dispatch.
pub reachable-IsSound : (t : Store) → IsReachable t → IsSound t
reachable-IsSound t r = Run-IsSound r.history (
    create_job-IsSound r.grant_id r.created_at r.max_attempts r.backoff_ms r.enrolled_at_first
      r.has_attempt)
