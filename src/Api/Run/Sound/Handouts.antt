-- ===== src/Api/Run/Sound/Handouts.antt =====
-- The statement of api/src that hands out a grant, for the invariant.
use shore_sentinel_app.Base.{
  ℕ, suc, ◌+◌, ◌-◌, ◌≤◌, ◌≡◌, refl, sym, subst, String, true, false, List, all, any, map,
  Bool-cases, and_left, and_right, not-true, ==_iff, leb→le, inl, inr, arith,
}
use shore_sentinel_app.Shared.{job_retry_scheduled}
use shore_sentinel_app.Api.Run.{
  Status, pending, queued, leased, running, completed, failed, stale, cancelled, is_pending,
  is_cancelled, is_started, Event, Store, has_event,
}
use shore_sentinel_app.Api.Run.Grants.{
  recovers, is_locked, is_lapsed, recovered, add_recovery, recovered_grant, revoke_lapsed,
  is_waiting, consume, ssh_grant_statement,
}
use shore_sentinel_app.Api.Run.Events.{add_grant}
use shore_sentinel_app.Api.Run.Ladder.{Ladder, Ladder-map, consume-IsDemotion, Ladder-recover}
use shore_sentinel_app.Api.Run.Sound.{job_status_for, reported_attempts, is_bounded, IsSound}
use shore_sentinel_app.Api.Run.Sound.Statements.{all_bounded_mono, reported_attempts_le}
use shore_sentinel_app.Api.Run.Sound.Reports.{all-reported}

-- What the guards of a recovery say.
pub record IsRecovery (now attempt : ℕ) (s : Store) : Type 0 where
  pub locked : is_locked s ≡ true
  pub started : is_started s.run_status ≡ true
  pub within : attempt ≤ s.retry_max_attempts
  pub in_turn : s.retry_count + 2 ≡ attempt
  pub lapsed : any (is_lapsed now attempt) s.grants ≡ true

pub recovers-IsRecovery :
    (now attempt : ℕ) (s : Store) → recovers now attempt s ≡ true → IsRecovery now attempt s
recovers-IsRecovery now attempt s h =
    let others = and_left _ _ h in
    let front = and_left _ _ others in
    let numbers = and_right _ _ front in
    record {
      locked = and_left _ _ (and_left _ _ front);
      started = and_right _ _ (and_left _ _ front);
      within = leb→le attempt s.retry_max_attempts (and_right _ _ (and_left _ _ numbers));
      in_turn = (==_iff (s.retry_count + 2) attempt).0 (and_right _ _ numbers);
      lapsed = and_right _ _ h;
    }

-- The job of a run that has started has started.
pub started_job : (st : Status) → is_started st ≡ true → is_started (job_status_for st) ≡ true
started_job leased h = refl
started_job running h = refl
started_job pending h = cc h
started_job queued h = cc h
started_job completed h = cc h
started_job failed h = cc h
started_job stale h = cc h
started_job cancelled h = cc h

all-recovery :
    (previous b c : ℕ)
    → b ≤ c
    → previous ≤ c
    → (es : List Event) → all (is_bounded b) es ≡ true
    → all (is_bounded c) (add_recovery previous es) ≡ true
all-recovery previous b c h below es old =
    elim (Bool-cases (has_event job_retry_scheduled previous es)) [
      | inl e ↦ rw e (all_bounded_mono b c h es old)
      | inr e ↦ rw e (all-reported job_retry_scheduled previous b c h below es old)
    ]

recovered-IsSound :
    (id : String) (now lifetime_ms attempt : ℕ) (s : Store)
    → IsRecovery now attempt s
    → IsSound s
    → IsSound (recovered id now lifetime_ms attempt s)
recovered-IsSound id now lifetime_ms attempt s ok sound =
    let job : is_started s.job_status ≡ true =
      subst (λ st. is_started st ≡ true) (sym sound.statuses_match)
        (started_job s.run_status ok.started) in
    let up : suc (suc s.retry_count) ≡ suc (s.retry_count + 1) = omega arith in
    let turn : attempt ≡ suc (suc s.retry_count) = omega (arith, ok.in_turn) in
    record {
      run_reachable = refl;
      statuses_match = rw job refl;
      cancellation_known = not-true s.cancellation_requested (and_left _ _ ok.locked);
      attempts_left = rw job (omega (arith, ok.within, turn));
      grants_in_order = rw job (
          subst
            (λ n. Ladder n (
              add_grant (recovered_grant id now lifetime_ms attempt)
                (map (revoke_lapsed now attempt) s.grants)))
            up
            (Ladder-recover id now lifetime_ms attempt (suc s.retry_count) s.grants
              sound.grants_in_order ok.lapsed turn));
      events_bounded = rw job (
          all-recovery (attempt - 1) (reported_attempts s) (s.retry_count + 1)
            (omega (arith, reported_attempts_le s)) (omega (arith, turn)) s.events
            sound.events_bounded);
      grants_cleared = refl;
      artifacts_cleared = refl;
      events_cleared = refl;
      dispatch_cleared = refl;
    }

waiting_open :
    (now attempt : ℕ) (s : Store) → is_waiting attempt s ≡ true → is_pending s.run_status ≡ true
waiting_open now attempt s h = and_left _ _ (and_right _ _ (and_left _ _ (and_left _ _ h)))

pending_uncancelled : (st : Status) → is_pending st ≡ true → is_cancelled st ≡ false
pending_uncancelled pending h = refl
pending_uncancelled leased h = refl
pending_uncancelled running h = refl
pending_uncancelled queued h = refl
pending_uncancelled completed h = refl
pending_uncancelled failed h = refl
pending_uncancelled stale h = refl
pending_uncancelled cancelled h = cc h

consumed-IsSound :
    (now lifetime_ms attempt : ℕ) (s : Store)
    → is_cancelled s.run_status ≡ false
    → IsSound s
    → IsSound (record s { grants = map (consume now lifetime_ms attempt) s.grants })
consumed-IsSound now lifetime_ms attempt s e sound = record {
  run_reachable = sound.run_reachable;
  statuses_match = sound.statuses_match;
  cancellation_known = sound.cancellation_known;
  attempts_left = sound.attempts_left;
  grants_in_order =
      Ladder-map (consume now lifetime_ms attempt) (consume-IsDemotion now lifetime_ms attempt) _
        s.grants sound.grants_in_order;
  events_bounded = sound.events_bounded;
  grants_cleared = rw e refl;
  artifacts_cleared = sound.artifacts_cleared;
  events_cleared = sound.events_cleared;
  dispatch_cleared = sound.dispatch_cleared;
}

pub ssh_grant_statement-IsSound :
    (id : String) (now lifetime_ms attempt : ℕ) (s : Store)
    → IsSound s
    → IsSound (ssh_grant_statement id now lifetime_ms attempt s).1
unfolding ssh_grant_statement
ssh_grant_statement-IsSound id now lifetime_ms attempt s sound =
    elim (Bool-cases (recovers now attempt s)) [
      | inl e ↦ rw e (
          recovered-IsSound id now lifetime_ms attempt s (recovers-IsRecovery now attempt s e)
            sound)
      | inr e ↦ elim (Bool-cases (is_waiting attempt s)) [
        | inl w ↦
            rw (e, w)
              (consumed-IsSound now lifetime_ms attempt s
                (pending_uncancelled s.run_status (waiting_open now attempt s w)) sound)
        | inr w ↦ rw (e, w) sound
      ]
    ]
