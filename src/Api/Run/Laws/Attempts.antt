-- ===== src/Api/Run/Laws/Attempts.antt =====
-- An attempt of a worker, from its claim to its end (api/src).
use shore_sentinel_app.Base.{
  ℕ, suc, ◌≤◌, ◌<◌, ◌≡◌, refl, sym, ap, subst, ◌∙◌, String, true, false, ◌&&◌, some, List, [], ◌∷◌,
  any, all, leb, ◌==◌, and_left, and_right, ==_iff, str_eq, arith,
}
use shore_sentinel_app.Shared.{RunEventType, job_claimed, job_running, job_succeeded}
use shore_sentinel_app.Api.Run.{
  Status, pending, queued, leased, running, completed, failed, stale, cancelled, is_pending,
  is_cancelled, Event, Store, is_event, has_event,
}
use shore_sentinel_app.Api.Run.Events.{
  is_granted, is_retry, authorizes, applies_to, applied, worker_event_transition, written,
  write_event, worker_event_statement,
}
use shore_sentinel_app.Api.Run.Ladder.{Ladder-usable, granted_unrevoked}
use shore_sentinel_app.Api.Run.Steps.{IsReachable}
use shore_sentinel_app.Api.Run.Sound.{reported_attempts, is_bounded}
use shore_sentinel_app.Api.Run.Sound.Histories.{reachable-IsSound}

fresh_event :
    (type : RunEventType) (attempt b : ℕ)
    → b < attempt
    → (x : Event) → is_bounded b x ≡ true
    → is_event type attempt x ≡ false
fresh_event type attempt b h x e = ground arith

-- No event of an attempt above a bound.
bounded_fresh :
    (type : RunEventType) (attempt b : ℕ)
    → b < attempt
    → (es : List Event) → all (is_bounded b) es ≡ true
    → has_event type attempt es ≡ false
bounded_fresh type attempt b h [] e = refl
bounded_fresh type attempt b h (x ∷ es) e =
    let rest = bounded_fresh type attempt b h es (and_right _ _ e) in
    let this = fresh_event type attempt b h x (and_left _ _ e) in rw (this, rest) refl

-- An event that a worker may report is recorded.
accepts :
    (now : ℕ) (grant_id next_id : String) (attempt : ℕ) (type : RunEventType) (run job : Status)
    (s : Store)
    → worker_event_transition type ≡ some (run, job)
    → is_retry type ≡ false
    → any (is_granted now grant_id attempt) s.grants ≡ true
    → s.cancellation_requested ≡ false
    → attempt ≤ s.retry_max_attempts
    → applies_to type s.run_status ≡ true
    → has_event type attempt s.events ≡ false
    → worker_event_statement now grant_id next_id attempt type s
      ≡ (written, applied grant_id next_id attempt type (run, job) s)
unfolding worker_event_statement
accepts now grant_id next_id attempt type run job s e r granted open_run within applies new =
    let small : leb attempt s.retry_max_attempts ≡ true = ground arith in
    let ok : (authorizes now grant_id attempt type s && applies_to type s.run_status) ≡ true =
      rw (granted, open_run, small, r, applies) refl in
    let result : write_event now grant_id next_id attempt type s (some (run, job))
        ≡ (written, applied grant_id next_id attempt type (run, job) s) =
      rw (ok, new) refl in
    subst
      (λ o.
        write_event now grant_id next_id attempt type s o
        ≡ (written, applied grant_id next_id attempt type (run, job) s))
      (sym e) result

pending_is : (st : Status) → is_pending st ≡ true → st ≡ pending
pending_is pending h = refl
pending_is leased h = cc h
pending_is running h = cc h
pending_is queued h = cc h
pending_is completed h = cc h
pending_is failed h = cc h
pending_is stale h = cc h
pending_is cancelled h = cc h

-- The rows after a worker has claimed a run, begun it and finished it, at three times.
abbrev pub finish_run : (now1 now2 now3 : ℕ) (grant_id : String) (attempt : ℕ) → Store → Store
finish_run now1 now2 now3 grant_id attempt s =
    let claimed = (worker_event_statement now1 grant_id "" attempt job_claimed s).1 in
    let begun = (worker_event_statement now2 grant_id "" attempt job_running claimed).1 in
    (worker_event_statement now3 grant_id "" attempt job_succeeded begun).1

-- A worker whose grant is valid throughout can finish a run that waits: in a reachable store with a
-- pending run, its events `job.claimed`, `job.running` and `job.succeeded` complete the run and the
-- job, whatever was reported of earlier attempts.
pub finish_run-completes :
    (now1 now2 now3 : ℕ) (grant_id : String) (attempt : ℕ) (s : Store)
    → IsReachable s
    → is_pending s.run_status ≡ true
    → any (is_granted now1 grant_id attempt) s.grants ≡ true
    → any (is_granted now2 grant_id attempt) s.grants ≡ true
    → any (is_granted now3 grant_id attempt) s.grants ≡ true
    → ((finish_run now1 now2 now3 grant_id attempt s).run_status ≡ completed)
      × ((finish_run now1 now2 now3 grant_id attempt s).job_status ≡ completed)
unfolding worker_event_transition
finish_run-completes now1 now2 now3 grant_id attempt s r waits granted1 granted2 granted3 =
    let sound = reachable-IsSound s r in
    let (g, older, e, usable, at_n) =
      Ladder-usable (is_granted now1 grant_id attempt) (granted_unrevoked now1 grant_id attempt)
        (suc s.retry_count) s.grants sound.grants_in_order granted1 in
    let named = and_left ((str_eq g.id grant_id) && (g.attempt == attempt)) _ usable in
    let same : g.attempt ≡ attempt =
      (==_iff g.attempt attempt).0 (and_right (str_eq g.id grant_id) _ named) in
    let newest : attempt ≡ suc s.retry_count = sym same ∙ at_n in
    let within : attempt ≤ s.retry_max_attempts = omega (arith, newest, sound.attempts_left) in
    let open_run : s.cancellation_requested ≡ false =
      sound.cancellation_known ∙ ap is_cancelled (pending_is s.run_status waits) in
    let bound : reported_attempts s ≡ s.retry_count = rw (reported_attempts, waits) refl in
    let above : reported_attempts s < attempt = omega (arith, bound, newest) in
    let fresh = λ (type : RunEventType).
      bounded_fresh type attempt (reported_attempts s) above s.events sound.events_bounded in
    let claimed =
      accepts now1 grant_id "" attempt job_claimed leased leased s refl refl granted1 open_run
        within waits (fresh job_claimed) in
    let s1 : Store = applied grant_id "" attempt job_claimed (leased, leased) s in
    let begun =
      accepts now2 grant_id "" attempt job_running running running s1 refl refl granted2 open_run
        within refl (fresh job_running) in
    let s2 : Store = applied grant_id "" attempt job_running (running, running) s1 in
    let finished =
      accepts now3 grant_id "" attempt job_succeeded completed completed s2 refl refl granted3
        open_run within refl (fresh job_succeeded) in
    let end =
      ap
        (λ u.
          (worker_event_statement now3 grant_id "" attempt job_succeeded
            (worker_event_statement now2 grant_id "" attempt job_running u.1).1).1)
        claimed
      ∙ ap (λ u. (worker_event_statement now3 grant_id "" attempt job_succeeded u.1).1) begun
      ∙ ap (λ u. u.1) finished in
    (ap (λ u. u.run_status) end, ap (λ u. u.job_status) end)
