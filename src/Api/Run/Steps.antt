-- ===== src/Api/Run/Steps.antt =====
-- The histories of a run: any sequence of the statements of api/src, whatever their arguments, so
-- that requests may be interleaved in any way.
use shore_sentinel_app.Api.Cleanup.{CleanupWork}
use shore_sentinel_app.Base.{List, ℕ, ◌≤◌, String, Bool}
use shore_sentinel_app.Shared.{RunEventType}
use shore_sentinel_app.Api.Run.{Store, create_job}
use shore_sentinel_app.Api.Run.Events.{worker_event_statement}
use shore_sentinel_app.Api.Run.Grants.{ssh_grant_statement}
use shore_sentinel_app.Api.Run.Cancel.{cancel_statement}
use shore_sentinel_app.Api.Run.Artifacts.{
  reserve_statement, finalize_statement, discard_statement, delete_statement,
}
use shore_sentinel_app.Api.Run.Dispatch.{mark_published, mark_failed, mark_retry}

pub data Step : Store → Store → Type 0 where
  report :
      (now : ℕ) (grant_id next_id : String) (attempt : ℕ) (type : RunEventType) (s : Store)
      → Step s (worker_event_statement now grant_id next_id attempt type s).1
  hand_out :
      (id : String) (now lifetime_ms attempt : ℕ) (s : Store)
      → Step s (ssh_grant_statement id now lifetime_ms attempt s).1
  cancel : (now : ℕ) (s : Store) → Step s (cancel_statement now s).1
  reserve :
      (now attempt : ℕ) (id kind sha256 uri : String) (s : Store)
      → Step s (reserve_statement now attempt id kind sha256 uri s).1
  finalize :
      (now attempt : ℕ) (id uri : String) (s : Store)
      → Step s (finalize_statement now attempt id uri s).1
  discard : (now : ℕ) (id uri : String) (s : Store) → Step s (discard_statement now id uri s)
  purge :
      (id : String) (works : List CleanupWork) (s : Store) → Step s (delete_statement id works s)
  publish : (s : Store) → Step s (mark_published s)
  abandon : (s : Store) → Step s (mark_failed s)
  delay : (now attempt_count : ℕ) (s : Store) → Step s (mark_retry now attempt_count s)
  enrol : (enrolled : Bool) (s : Store) → Step s (record s { enrolled = enrolled })

-- The statements that follow each other on one run.
pub data Run (s : Store) : Store → Type 0 where
  start : Run s s
  then_step : {t u : Store} → Run s t → Step t u → Run s u

-- A store of a run that was created with some retry policy.
pub record IsReachable (t : Store) : Type 0 where
  pub grant_id : String
  pub created_at : ℕ
  pub max_attempts : ℕ
  pub backoff_ms : ℕ
  pub enrolled_at_first : Bool
  pub has_attempt : 1 ≤ max_attempts
  pub history : Run (create_job grant_id created_at max_attempts backoff_ms enrolled_at_first) t
