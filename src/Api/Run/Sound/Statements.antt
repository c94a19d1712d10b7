-- ===== src/Api/Run/Sound/Statements.antt =====
-- The creation and the cancellation of a run of api/src, for the invariant.
use shore_sentinel_app.Base.{
  ℕ, suc, ◌≤◌, ◌≡◌, refl, String, Bool, true, false, not, ◌||◌, Option, none, some, List, [], ◌∷◌,
  all, map, filter, Bool-cases, and_left, and_right, and_intro, inl, inr, if◌then◌else◌, arith,
}
use shore_sentinel_app.Api.Run.{
  Status, pending, queued, leased, running, completed, failed, stale, cancelled, is_pending,
  is_cancelled, is_terminal, Grant, Event, StoredArtifact, DispatchRow, Store, create_job,
}
use shore_sentinel_app.Api.Run.Cancel.{
  cancels, revoke, quarantine, withdraw, withdrawn, is_kept_event, cancel_statement,
}
use shore_sentinel_app.Api.Run.Ladder.{IsDemotion, Ladder-map}
use shore_sentinel_app.Api.Run.Sound.{
  job_status_for, is_reachable_status, reported_attempts, is_bounded, is_revoked, is_quarantined,
  is_withdrawn, IsSound,
}

pub create_job-IsSound :
    (grant_id : String) (now max backoff : ℕ) (enrolled : Bool)
    → 1 ≤ max
    → IsSound (create_job grant_id now max backoff enrolled)
unfolding create_job
create_job-IsSound grant_id now max backoff enrolled h = record {
  run_reachable = refl;
  statuses_match = refl;
  cancellation_known = refl;
  attempts_left = h;
  grants_in_order = (omega arith, refl, refl);
  events_bounded = refl;
  grants_cleared = refl;
  artifacts_cleared = refl;
  events_cleared = refl;
  dispatch_cleared = refl;
}

-- The changes that cancellation makes, one list at a time.
revoke-IsDemotion : IsDemotion revoke
revoke-IsDemotion = record { keeps_attempt = λ g. refl; keeps_revoked = λ g h. refl }

all_revoked : (gs : List Grant) → all is_revoked (map revoke gs) ≡ true
all_revoked [] = refl
all_revoked (g ∷ gs) = all_revoked gs

all_quarantined : (xs : List StoredArtifact) → all is_quarantined (map quarantine xs) ≡ true
all_quarantined [] = refl
all_quarantined (a ∷ xs) = all_quarantined xs

all-filter {ℓ} : {A : Type ℓ} (p : A → Bool) (xs : List A) → all p (filter p xs) ≡ true
all-filter p [] = refl
all-filter p (x ∷ xs) = elim (Bool-cases (p x)) [
  | inl e ↦ rw (e, all-filter p xs) rw e refl
  | inr e ↦ rw e (all-filter p xs)
]

pub all-filter_other {ℓ} :
    {A : Type ℓ} (p q : A → Bool) (xs : List A) → all p xs ≡ true → all p (filter q xs) ≡ true
all-filter_other p q [] h = refl
all-filter_other p q (x ∷ xs) h =
    let rest = all-filter_other p q xs (and_right _ _ h) in
    elim (Bool-cases (q x)) [
      | inl e ↦ rw e (and_intro _ _ (and_left _ _ h) rest)
      | inr e ↦ rw e rest
    ]

all-logged :
    (p : Event → Bool) (logs : Bool) (e : Event) (es : List Event)
    → p e ≡ true
    → all p es ≡ true
    → all p (if logs then e ∷ es else es) ≡ true
all-logged p true e es h rest = and_intro _ _ h rest
all-logged p false e es h rest = rest

or_swap : (a b : Bool) → (a || b) ≡ true → (b || a) ≡ true
or_swap true true h = refl
or_swap true false h = refl
or_swap false b h = rw h refl

withdraw-IsWithdrawn : (d : Option DispatchRow) → is_withdrawn (withdraw d) ≡ true
withdraw-IsWithdrawn none = refl
withdraw-IsWithdrawn (some d) = elim (Bool-cases d.published) [
  | inl e ↦ simp (e) refl
  | inr e ↦ simp (e) refl
]

is_bounded_mono : (b c : ℕ) → b ≤ c → (x : Event) → is_bounded b x ≡ true → is_bounded c x ≡ true
is_bounded_mono b c h x e = ground arith

pub all_bounded_mono :
    (b c : ℕ)
    → b ≤ c
    → (es : List Event) → all (is_bounded b) es ≡ true
    → all (is_bounded c) es ≡ true
all_bounded_mono b c h [] e = refl
all_bounded_mono b c h (x ∷ es) e =
    and_intro _ _ (is_bounded_mono b c h x (and_left _ _ e))
      (all_bounded_mono b c h es (and_right _ _ e))

pub reported_attempts_le : (s : Store) → reported_attempts s ≤ suc s.retry_count
reported_attempts_le s = elim (Bool-cases (is_pending s.run_status)) [
  | inl e ↦ rw (reported_attempts, e) (omega arith)
  | inr e ↦ rw (reported_attempts, e) (omega arith)
]

cancelled_job :
    (run : Status)
    → is_reachable_status run ≡ true
    → (not (is_terminal run) || is_cancelled run) ≡ true
    → (if is_terminal (job_status_for run) then job_status_for run else cancelled) ≡ cancelled
cancelled_job pending r h = refl
cancelled_job leased r h = refl
cancelled_job running r h = refl
cancelled_job cancelled r h = refl
cancelled_job completed r h = cc h
cancelled_job failed r h = cc h
cancelled_job queued r h = cc r
cancelled_job stale r h = cc r

withdrawn-IsSound :
    (now : ℕ) (s : Store)
    → (cancels s || is_cancelled s.run_status) ≡ true
    → IsSound s
    → IsSound (withdrawn now s)
withdrawn-IsSound now s h sound = record {
  run_reachable = refl;
  statuses_match = rw sound.statuses_match (cancelled_job s.run_status sound.run_reachable h);
  cancellation_known = rw sound.cancellation_known (or_swap (cancels s) _ h);
  attempts_left = sound.attempts_left;
  grants_in_order = Ladder-map revoke revoke-IsDemotion _ s.grants sound.grants_in_order;
  events_bounded = all-logged (is_bounded (suc s.retry_count)) (cancels s) _ _ refl (
      all-filter_other _ is_kept_event s.events
        (all_bounded_mono _ _ (reported_attempts_le s) s.events sound.events_bounded));
  grants_cleared = all_revoked s.grants;
  artifacts_cleared = all_quarantined s.artifacts;
  events_cleared =
      all-logged is_kept_event (cancels s) _ _ refl (all-filter is_kept_event s.events);
  dispatch_cleared = withdraw-IsWithdrawn s.dispatch;
}

pub cancel_statement-IsSound :
    (now : ℕ) (s : Store) → IsSound s → IsSound (cancel_statement now s).1
unfolding cancel_statement
cancel_statement-IsSound now s sound = elim (Bool-cases (cancels s || is_cancelled s.run_status)) [
  | inl e ↦ rw e (withdrawn-IsSound now s e sound)
  | inr e ↦ rw e sound
]
