-- ===== src/Api/Run/Grants.antt =====
-- `workerSshGrant` of api/src/app.controller.ts: the statement that hands out a grant. Its parts
-- all see the rows as they were before the statement.
use shore_sentinel_app.Base.{
  ℕ, ◌+◌, ◌-◌, String, Bool, true, false, not, ◌&&◌, Option, none, some, List, [], ◌∷◌, any, map,
  ltb, leb, ◌==◌, if◌then◌else◌,
}
use mathlib.Core.Option
use shore_sentinel_app.Shared.{job_retry_scheduled}
use shore_sentinel_app.Api.Run.{
  pending, queued, is_started, is_open_job, is_pending, is_queued, Grant, reported, Event, Store,
  expired, is_null, is_live, has_event,
}
use shore_sentinel_app.Api.Run.Events.{add_grant}

-- `locked_run`.
abbrev pub is_locked : Store → Bool
is_locked s = not s.cancellation_requested && is_open_job s.job_status

-- The predecessor that a recovery needs: consumed, not revoked and expired.
abbrev pub is_lapsed : (now attempt : ℕ) → Grant → Bool
is_lapsed now attempt g =
    (g.attempt + 1 == attempt) && (g.consumed && not g.revoked && expired now g.expires_at)

-- The condition of `recovered_run`.
abbrev pub recovers : (now attempt : ℕ) → Store → Bool
recovers now attempt s =
    is_locked s
    && is_started s.run_status
    && (ltb 1 attempt && leb attempt s.retry_max_attempts && (s.retry_count + 2 == attempt))
    && not (any (λ g. g.attempt == attempt) s.grants)
    && any (is_lapsed now attempt) s.grants

-- `revoked_recovered_attempt`.
abbrev pub revoke_lapsed : (now attempt : ℕ) → Grant → Grant
revoke_lapsed now attempt g =
    if (g.attempt + 1 == attempt) && (not g.revoked && expired now g.expires_at)
    then record g { revoked = true }
    else g

abbrev pub recovered_grant : String → (now lifetime_ms attempt : ℕ) → Grant
recovered_grant id now lifetime_ms attempt = record {
  id = id;
  attempt = attempt;
  expires_at = some (now + lifetime_ms);
  consumed = true;
  revoked = false;
}

-- `recovered_event`: a conflict does nothing.
abbrev pub add_recovery : (previous : ℕ) → List Event → List Event
add_recovery previous events =
    if has_event job_retry_scheduled previous events
    then events
    else record { type = reported job_retry_scheduled; attempt = some previous } ∷ events

-- The rows after a recovery. The job, its counter and the event follow `recovered_job`, which wants
-- a job that has started.
abbrev pub recovered : String → (now lifetime_ms attempt : ℕ) → Store → Store
recovered id now lifetime_ms attempt s =
    let job_recovers = is_started s.job_status in
    record s {
      run_status = pending;
      job_status = if job_recovers then queued else s.job_status;
      retry_count = if job_recovers then s.retry_count + 1 else s.retry_count;
      grants =
          add_grant (recovered_grant id now lifetime_ms attempt)
            (map (revoke_lapsed now attempt) s.grants);
      events = if job_recovers then add_recovery (attempt - 1) s.events else s.events;
    }

-- The conditions on the run and its job that `consumed_grant` and `active_consumed_grant` share.
abbrev pub is_waiting : ℕ → Store → Bool
is_waiting attempt s =
    is_locked s
    && (is_pending s.run_status && is_queued s.job_status)
    && leb attempt s.retry_max_attempts
    && s.enrolled

-- The grants of the two parts.
abbrev pub is_consumable : ℕ → Grant → Bool
is_consumable attempt g =
    (g.attempt == attempt) && (not g.consumed && not g.revoked && is_null g.expires_at)

abbrev pub is_replayed : (now attempt : ℕ) → Grant → Bool
is_replayed now attempt g = (g.attempt == attempt) && is_live now g

abbrev pub consume : (now lifetime_ms attempt : ℕ) → Grant → Grant
consume now lifetime_ms attempt g =
    if is_consumable attempt g
    then record g { consumed = true; expires_at = some (now + lifetime_ms) }
    else g

abbrev pub first_grant : (Grant → Bool) → List Grant → Option Grant
first_grant p [] = none
first_grant p (g ∷ gs) = let rest = first_grant p gs in if p g then some g else rest

abbrev pub or_else : Option Grant → Option Grant → Option Grant
or_else none h = h
or_else (some g) h = some g

-- The first row of the statement, and the rows after it. A recovery and the other two parts exclude
-- each other, since the run has started or is pending. `recovered_context` joins the job as it was
-- before the recovery, and wants it queued.
unfoldable pub ssh_grant_statement :
    (id : String) (now lifetime_ms attempt : ℕ) → Store → Option Grant × Store
ssh_grant_statement id now lifetime_ms attempt s =
    if recovers now attempt s
    then (
      if is_queued s.job_status && s.enrolled
          then some (recovered_grant id now lifetime_ms attempt)
          else none,
      recovered id now lifetime_ms attempt s,
    )
    else if not (is_waiting attempt s)
    then (none, s)
    else (
      or_else
          (Option.map (consume now lifetime_ms attempt)
            (first_grant (is_consumable attempt) s.grants))
          (first_grant (is_replayed now attempt) s.grants),
      record s { grants = map (consume now lifetime_ms attempt) s.grants },
    )
