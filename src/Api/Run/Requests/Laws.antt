-- ===== src/Api/Run/Requests/Laws.antt =====
-- What the requests of workers come to.
use shore_sentinel_app.Base.{
  ℕ, ◌≡◌, refl, ap, ◌⊎◌, ◌∙◌, String, true, false, not, ◌&&◌, Option, none, some, Bool-cases,
  and_right, inl, inr,
}
use shore_sentinel_app.Runtime.{Runtime}
use shore_sentinel_app.Shared.{job_retry_scheduled}
use shore_sentinel_app.Api.Run.{is_pending, is_queued, Store, has_event}
use shore_sentinel_app.Api.Run.Events.{worker_event_transition}
use shore_sentinel_app.Api.Run.Requests.{
  Secrets, WorkerRequest, replayed_grant, matching_grant, authorized_event,
  require_worker_capability, accepted, forbidden, record_event,
}

-- Only an attempt whose retry is recorded already has a grant to replay.
replayed_recorded :
    (attempt : ℕ) (s : Store)
    → has_event job_retry_scheduled attempt s.events ≡ false
    → replayed_grant attempt s ≡ none
replayed_recorded attempt s h =
    elim (Bool-cases (
      is_pending s.run_status
      && not s.cancellation_requested
      && is_queued s.job_status
      && has_event job_retry_scheduled attempt s.events)) [
        | inr e ↦ rw e refl
        | inl e ↦ cc (h, and_right _ (has_event job_retry_scheduled attempt s.events) e)
      ]

unmatched :
    (rt : Runtime) (secrets : Secrets) (run_id : String) (capability : Option String)
    → matching_grant rt secrets run_id capability none ≡ none
unmatched rt secrets run_id none = refl
unmatched rt secrets run_id (some supplied) = refl

uncapable :
    (rt : Runtime) (secrets : Secrets) (req : WorkerRequest) (run_id : String) (now attempt : ℕ)
    (s : Store)
    → has_event job_retry_scheduled attempt s.events ≡ false
    → require_worker_capability rt secrets req run_id now attempt true s ≡ none
unfolding require_worker_capability
uncapable rt secrets req run_id now attempt s h =
    ap (matching_grant rt secrets run_id req.capability) (replayed_recorded attempt s h)
    ∙ unmatched rt secrets run_id req.capability

-- A retry that is recorded is acknowledged or refused.
replay_answer :
    (next_id : String) (now attempt : ℕ) (s : Store) (o : Option String)
    → has_event job_retry_scheduled attempt s.events ≡ true
    → (authorized_event next_id now attempt job_retry_scheduled s o ≡ (forbidden, s))
      ⊎ (authorized_event next_id now attempt job_retry_scheduled s o ≡ (accepted, s))
unfolding worker_event_transition
replay_answer next_id now attempt s none h = inl refl
replay_answer next_id now attempt s (some grant_id) h = inr (rw h refl)

-- A worker's report that a retry is scheduled never changes the rows: it is refused, or it is
-- acknowledged because the same retry of the attempt is recorded already.
pub retry_unrecorded :
    (rt : Runtime) (secrets : Secrets) (req : WorkerRequest) (run_id next_id : String)
    (now attempt : ℕ) (s : Store)
    → (record_event rt secrets req run_id next_id now attempt job_retry_scheduled s
        ≡ (forbidden, s))
      ⊎ ((record_event rt secrets req run_id next_id now attempt job_retry_scheduled s
            ≡ (accepted, s))
          × (has_event job_retry_scheduled attempt s.events ≡ true))
unfolding record_event
retry_unrecorded rt secrets req run_id next_id now attempt s =
    let capable = require_worker_capability rt secrets req run_id now attempt true s in
    elim (Bool-cases (has_event job_retry_scheduled attempt s.events)) [
      | inr h ↦ inl (
          ap (authorized_event next_id now attempt job_retry_scheduled s)
            (uncapable rt secrets req run_id now attempt s h))
      | inl h ↦ elim (replay_answer next_id now attempt s capable h) [
        | inl e ↦ inl e
        | inr e ↦ inr (e, h)
      ]
    ]
