-- ===== src/Api/Run/Cancel.antt =====
-- `cancelRun` of api/src/app.controller.ts: the statement that cancels a run.
use shore_sentinel_app.Base.{
  ℕ, Bool, true, false, not, ◌||◌, Option, none, some, List, [], ◌∷◌, map, filter, if◌then◌else◌,
}
use shore_sentinel_app.Api.Cleanup.{CleanupWork, request_cleanup}
use shore_sentinel_app.Api.Run.{
  cancelled, is_cancelled, is_terminal, Grant, reported, artifact_uploaded, scan_cancelled, Event,
  quarantined, StoredArtifact, DispatchRow, Store,
}

-- `newly_cancelled`.
abbrev pub cancels : Store → Bool
cancels s = not (is_terminal s.run_status)

abbrev pub revoke : Grant → Grant
revoke g = record g { revoked = true }

abbrev pub quarantine : StoredArtifact → StoredArtifact
quarantine a = record a { parse_status = quarantined }

-- `revoked_pending_dispatches`.
abbrev pub withdraw : Option DispatchRow → Option DispatchRow
withdraw none = none
withdraw (some d) = if d.published then some d else none

abbrev pub is_kept_event : Event → Bool
is_kept_event e = elim e.type [
  | reported t ↦ true
  | artifact_uploaded ↦ false
  | scan_cancelled ↦ true
]

-- `cleanup_work`, for every artifact of the run.
abbrev pub request_cleanups : ℕ → List StoredArtifact → List CleanupWork → List CleanupWork
request_cleanups now [] works = works
request_cleanups now (a ∷ artifacts) works =
    request_cleanup now a.id a.storage_uri (request_cleanups now artifacts works)

-- The rows after the parts that follow `cancelled_run`, on a run that is or becomes cancelled.
abbrev pub withdrawn : ℕ → Store → Store
withdrawn now s = record s {
  run_status = cancelled;
  cancellation_requested = s.cancellation_requested || cancels s;
  job_status = if is_terminal s.job_status then s.job_status else cancelled;
  grants = map revoke s.grants;
  events =
      (let kept = filter is_kept_event s.events in
        if cancels s then record { type = scan_cancelled; attempt = none } ∷ kept else kept);
  artifacts = map quarantine s.artifacts;
  cleanup = request_cleanups now s.artifacts s.cleanup;
  dispatch = withdraw s.dispatch;
}

-- The statement: whether it brings a row, without which the request is in conflict, and the rows
-- after it.
unfoldable pub cancel_statement : (now : ℕ) → Store → Bool × Store
cancel_statement now s =
    if cancels s || is_cancelled s.run_status then (true, withdrawn now s) else (false, s)
