-- ===== src/Api/Run/Sound.antt =====
-- The invariant of the rows of a run of api/src.
pub mod Statements
pub mod Files
pub mod Reports
pub mod Handouts
pub mod Histories
use shore_sentinel_app.Base.{
  ℕ, suc, ◌+◌, ◌≤◌, ◌<◌, ◌≡◌, Bool, true, false, not, ◌&&◌, ◌||◌, Option, none, some, List, [], ◌∷◌,
  all, leb,
}
use shore_sentinel_app.Api.Run.{
  Status, pending, queued, leased, running, completed, failed, stale, cancelled, is_pending,
  is_cancelled, Grant, Event, ParseStatus, quarantined, StoredArtifact, DispatchRow, Store,
}
use shore_sentinel_app.Api.Run.Cancel.{is_kept_event}
use shore_sentinel_app.Api.Run.Ladder.{Ladder}

-- The status of the job that goes with that of the run.
abbrev pub job_status_for : Status → Status
job_status_for pending = queued
job_status_for s = s

abbrev pub is_reachable_status : Status → Bool
is_reachable_status queued = false
is_reachable_status stale = false
is_reachable_status _ = true

-- The newest attempt of which a worker may have reported.
abbrev pub reported_attempts : Store → ℕ
reported_attempts s = elim (is_pending s.run_status) [
  | true ↦ s.retry_count
  | false ↦ suc s.retry_count
]

abbrev pub is_bounded : ℕ → Event → Bool
is_bounded bound e = elim e.attempt [ none ↦ true | some n ↦ leb n bound ]

abbrev pub is_revoked : Grant → Bool
is_revoked g = g.revoked

abbrev pub is_quarantined : StoredArtifact → Bool
is_quarantined a = elim a.parse_status [ quarantined ↦ true | _ ↦ false ]

abbrev pub is_withdrawn : Option DispatchRow → Bool
is_withdrawn none = true
is_withdrawn (some d) = d.published

-- What holds of a run that is cancelled.
abbrev pub when_cancelled : Status → Bool → Bool
when_cancelled st b = not (is_cancelled st) || b

pub record IsSound (s : Store) : Type 0 where
  pub run_reachable : is_reachable_status s.run_status ≡ true
  pub statuses_match : s.job_status ≡ job_status_for s.run_status
  pub cancellation_known : s.cancellation_requested ≡ is_cancelled s.run_status
  pub attempts_left : s.retry_count < s.retry_max_attempts
  pub grants_in_order : Ladder (suc s.retry_count) s.grants
  pub events_bounded : all (is_bounded (reported_attempts s)) s.events ≡ true
  pub grants_cleared : when_cancelled s.run_status (all is_revoked s.grants) ≡ true
  pub artifacts_cleared : when_cancelled s.run_status (all is_quarantined s.artifacts) ≡ true
  pub events_cleared : when_cancelled s.run_status (all is_kept_event s.events) ≡ true
  pub dispatch_cleared : when_cancelled s.run_status (is_withdrawn s.dispatch) ≡ true
