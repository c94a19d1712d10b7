-- ===== src/Api/Run/Laws/Lost.antt =====
-- Attempts whose grant expires (api/src).
use shore_sentinel_app.Base.{
  ℕ, suc, ◌+◌, ◌-◌, ◌≤◌, ◌≡◌, refl, sym, subst, String, Bool, true, false, ◌&&◌, Option, none, some,
  List, [], ◌∷◌, any, ◌==◌, Bool-cases, and_left, and_right, not-true, inl, inr, arith,
}
use shore_sentinel_app.Shared.{RunEventType}
use shore_sentinel_app.Api.Run.{
  after_now, Status, pending, queued, leased, running, completed, failed, stale, cancelled,
  is_pending, is_queued, is_started, Grant, Store, expired, is_live,
}
use shore_sentinel_app.Api.Run.Events.{
  is_granted, worker_event_transition, refused, write_event, worker_event_statement,
}
use shore_sentinel_app.Api.Run.Grants.{
  recovers, is_lapsed, recovered, is_waiting, is_consumable, is_replayed, first_grant,
  ssh_grant_statement,
}
use shore_sentinel_app.Api.Run.Ladder.{
  Ladder, Superseded-none, live_unrevoked, lapsed_unrevoked, granted_unrevoked,
}
use shore_sentinel_app.Api.Run.Steps.{IsReachable}
use shore_sentinel_app.Api.Run.Sound.Histories.{reachable-IsSound}
use shore_sentinel_app.Api.Run.Sound.Handouts.{recovers-IsRecovery, started_job}

started_unqueued : (st : Status) → is_started st ≡ true → is_queued st ≡ false
started_unqueued leased h = refl
started_unqueued running h = refl
started_unqueued pending h = refl
started_unqueued queued h = cc h
started_unqueued completed h = refl
started_unqueued failed h = refl
started_unqueued stale h = refl
started_unqueued cancelled h = refl

-- In every reachable store, a request that recovers an attempt whose grant has expired changes the
-- rows to those of the next attempt, which waits with a consumed grant, and still brings no row, so
-- that the request is refused.
pub recovery_unanswered :
    (id : String) (now lifetime_ms attempt : ℕ) (s : Store)
    → IsReachable s
    → recovers now attempt s ≡ true
    → ssh_grant_statement id now lifetime_ms attempt s
      ≡ (none, recovered id now lifetime_ms attempt s)
unfolding ssh_grant_statement
recovery_unanswered id now lifetime_ms attempt s r h =
    let sound = reachable-IsSound s r in
    let started = (recovers-IsRecovery now attempt s h).started in
    let job : is_started s.job_status ≡ true =
      subst (λ st. is_started st ≡ true) (sym sound.statuses_match)
        (started_job s.run_status started) in
    let unqueued : is_queued s.job_status ≡ false = started_unqueued s.job_status job in
    rw (h, unqueued) refl

none_first : (p : Grant → Bool) (gs : List Grant) → any p gs ≡ false → first_grant p gs ≡ none
none_first p [] h = refl
none_first p (g ∷ gs) h = elim (Bool-cases (p g)) [
  | inl e ↦ cc (rw e at h)
  | inr e ↦ rw e (none_first p gs (rw e at h))
]

-- The newest grant has expired, so a test that no expired grant passes fails on all of them.
lapsed_none :
    (p : Grant → Bool) (now k n : ℕ)
    → ((g : Grant) → p g ≡ true → g.revoked ≡ false)
    → ((g : Grant) → is_lapsed now k g ≡ true → p g ≡ false)
    → (gs : List Grant) → Ladder n gs
    → any (is_lapsed now k) gs ≡ true
    → any p gs ≡ false
lapsed_none p now k n unrevoked conflict [] h found = refl
lapsed_none p now k n unrevoked conflict (g ∷ gs) (pos, at_n, rest) found =
    elim (Bool-cases (is_lapsed now k g)) [
      | inl e ↦ rw (conflict g e, Superseded-none p unrevoked (n - 1) gs rest) refl
      | inr e ↦ cc (
          rw (e, Superseded-none (is_lapsed now k) (lapsed_unrevoked now k) (n - 1) gs rest) at
            found)
    ]

expired_dead :
    (now later : ℕ)
    → now ≤ later
    → (o : Option ℕ) → expired now o ≡ true
    → after_now later o ≡ false
expired_dead now later h none e = refl
expired_dead now later h (some t) e = ground arith

expired_unusable :
    (now later k : ℕ)
    → now ≤ later
    → (g : Grant) → is_lapsed now k g ≡ true
    → is_live later g ≡ false
expired_unusable now later k h g lapsed = elim (Bool-cases (is_live later g)) [
  | inr e ↦ e
  | inl e ↦
      let late : expired now g.expires_at ≡ true =
        and_right _ _ (and_right (g.attempt + 1 == k) _ lapsed) in
      let alive : after_now later g.expires_at ≡ true = and_right _ _ e in
      cc (expired_dead now later h g.expires_at late, alive)
]

and_false : (a b : Bool) → b ≡ false → (a && b) ≡ false
and_false true b h = h
and_false false b h = refl

expired_granted :
    (now later k : ℕ) (grant_id : String) (attempt : ℕ)
    → now ≤ later
    → (g : Grant) → is_lapsed now k g ≡ true
    → is_granted later grant_id attempt g ≡ false
expired_granted now later k grant_id attempt h g lapsed =
    and_false _ (is_live later g) (expired_unusable now later k h g lapsed)

expired_replayed :
    (now later k attempt : ℕ)
    → now ≤ later
    → (g : Grant) → is_lapsed now k g ≡ true
    → is_replayed later attempt g ≡ false
expired_replayed now later k attempt h g lapsed =
    and_false _ (is_live later g) (expired_unusable now later k h g lapsed)

lapsed_consumed :
    (now k attempt : ℕ) (g : Grant) → is_lapsed now k g ≡ true → is_consumable attempt g ≡ false
lapsed_consumed now k attempt g lapsed =
    let used : g.consumed ≡ true =
      and_left _ _ (and_left _ _ (and_right (g.attempt + 1 == k) _ lapsed)) in
    rw used (and_false _ false refl)

replayed_unrevoked :
    (later attempt : ℕ) (g : Grant) → is_replayed later attempt g ≡ true → g.revoked ≡ false
replayed_unrevoked later attempt g h = live_unrevoked later g (and_right _ _ h)

consumable_unrevoked :
    (attempt : ℕ) (g : Grant) → is_consumable attempt g ≡ true → g.revoked ≡ false
consumable_unrevoked attempt g h = not-true _ (and_right _ _ (and_left _ _ (and_right _ _ h)))

pending_unstarted : (st : Status) → is_pending st ≡ true → is_started st ≡ false
pending_unstarted pending h = refl
pending_unstarted leased h = cc h
pending_unstarted running h = cc h
pending_unstarted queued h = refl
pending_unstarted completed h = refl
pending_unstarted failed h = refl
pending_unstarted stale h = refl
pending_unstarted cancelled h = refl

unwritten :
    (now : ℕ) (grant_id next_id : String) (attempt : ℕ) (type : RunEventType) (s : Store)
    (o : Option (Status × Status))
    → any (is_granted now grant_id attempt) s.grants ≡ false
    → write_event now grant_id next_id attempt type s o ≡ (refused, s)
unwritten now grant_id next_id attempt type s none h = refl
unwritten now grant_id next_id attempt type s (some statuses) h = rw h refl

-- Neither a grant nor an event is to be had.
pub record IsStuck (now : ℕ) (s : Store) : Type 0 where
  pub no_grant :
      (id : String) (lifetime_ms attempt : ℕ)
      → (ssh_grant_statement id now lifetime_ms attempt s).0 ≡ none
  pub no_event :
      (grant_id next_id : String) (attempt : ℕ) (type : RunEventType)
      → worker_event_statement now grant_id next_id attempt type s ≡ (refused, s)

module _ (now later : ℕ) (h : now ≤ later) (s : Store) (r : IsReachable s)
    (waits : is_pending s.run_status ≡ true)
    (lapsed : any (is_lapsed now (suc (suc s.retry_count))) s.grants ≡ true) where
  no_usable :
      (p : Grant → Bool)
      → ((g : Grant) → p g ≡ true → g.revoked ≡ false)
      → ((g : Grant) → is_lapsed now (suc (suc s.retry_count)) g ≡ true → p g ≡ false)
      → any p s.grants ≡ false
  no_usable p unrevoked conflict =
      lapsed_none p now (suc (suc s.retry_count)) (suc s.retry_count) unrevoked conflict s.grants
        (reachable-IsSound s r).grants_in_order lapsed

  unrecoverable : (attempt : ℕ) → recovers later attempt s ≡ false
  unrecoverable attempt = elim (Bool-cases (recovers later attempt s)) [
    | inr e ↦ e
    | inl e ↦
        let ok = (recovers-IsRecovery later attempt s e).started in
        cc (ok, pending_unstarted s.run_status waits)
  ]

  no_answer :
      (id : String) (lifetime_ms attempt : ℕ)
      → (ssh_grant_statement id later lifetime_ms attempt s).0 ≡ none
  unfolding ssh_grant_statement
  no_answer id lifetime_ms attempt =
      let k = suc (suc s.retry_count) in
      let unconsumed = none_first (is_consumable attempt) s.grants (
        no_usable (is_consumable attempt) (consumable_unrevoked attempt)
          (lapsed_consumed now k attempt)) in
      let unreplayed = none_first (is_replayed later attempt) s.grants (
        no_usable (is_replayed later attempt) (replayed_unrevoked later attempt)
          (expired_replayed now later k attempt h)) in
      elim (Bool-cases (is_waiting attempt s)) [
        | inl w ↦ rw (unrecoverable attempt, w, unconsumed, unreplayed) refl
        | inr w ↦ rw (unrecoverable attempt, w) refl
      ]

  no_record :
      (grant_id next_id : String) (attempt : ℕ) (type : RunEventType)
      → worker_event_statement later grant_id next_id attempt type s ≡ (refused, s)
  unfolding worker_event_statement
  no_record grant_id next_id attempt type =
      let ungranted =
        no_usable (is_granted later grant_id attempt) (granted_unrevoked later grant_id attempt)
          (expired_granted now later (suc (suc s.retry_count)) grant_id attempt h) in
      unwritten later grant_id next_id attempt type s (worker_event_transition type) ungranted

  -- In a reachable store whose run waits while the newest grant was consumed and has expired, no
  -- request of a worker at any later time brings a grant, for whatever attempt, and none of its events
  -- is accepted.
  pub expired_before_claim-IsStuck : IsStuck later s
  expired_before_claim-IsStuck = record { no_grant = no_answer; no_event = no_record }
