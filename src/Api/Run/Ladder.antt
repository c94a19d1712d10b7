-- ===== src/Api/Run/Ladder.antt =====
-- The grants of a run as a ladder: one for each attempt from 1 on, the newest first, of which all
-- but the newest are revoked.
use shore_sentinel_app.Base.{
  ℕ, suc, ◌+◌, ◌-◌, ◌≤◌, ◌<◌, ◌≡◌, refl, String, Bool, true, false, not, ◌&&◌, List, [], ◌∷◌, any,
  map, ◌==◌, str_eq, Bool-cases, and_left, and_right, not-true, subst, arith, inl, inr,
}
use shore_sentinel_app.Api.Run.{Grant, expired, is_live}
use shore_sentinel_app.Api.Run.Events.{is_granted, revoke_grant, add_grant, next_grant}
use shore_sentinel_app.Api.Run.Grants.{
  is_lapsed, revoke_lapsed, recovered_grant, is_consumable, consume,
}

-- Revoked grants for the attempts from `n` down to 1.
abbrev pub Superseded : ℕ → List Grant → Type 0
Superseded n [] = n ≡ 0
Superseded n (g ∷ gs) = (1 ≤ n) × (g.attempt ≡ n) × (g.revoked ≡ true) × Superseded (n - 1) gs

abbrev pub Ladder : ℕ → List Grant → Type 0
Ladder n [] = n ≡ 0
Ladder n (g ∷ gs) = (1 ≤ n) × (g.attempt ≡ n) × Superseded (n - 1) gs

-- A change of the grants that only ever revokes.
pub record IsDemotion (f : Grant → Grant) : Type 0 where
  pub keeps_attempt : (g : Grant) → (f g).attempt ≡ g.attempt
  pub keeps_revoked : (g : Grant) → g.revoked ≡ true → (f g).revoked ≡ true

pub Superseded-map :
    (f : Grant → Grant)
    → IsDemotion f
    → (n : ℕ) (gs : List Grant) → Superseded n gs
    → Superseded n (map f gs)
Superseded-map f d n [] h = h
Superseded-map f d n (g ∷ gs) (pos, at_n, gone, rest) =
    (pos, rw (d.keeps_attempt g) at_n, d.keeps_revoked g gone, Superseded-map f d (n - 1) gs rest)

-- The newest grant may change in any way that keeps its attempt.
pub Ladder-map :
    (f : Grant → Grant)
    → IsDemotion f
    → (n : ℕ) (gs : List Grant) → Ladder n gs
    → Ladder n (map f gs)
Ladder-map f d n [] h = h
Ladder-map f d n (g ∷ gs) (pos, at_n, rest) =
    (pos, rw (d.keeps_attempt g) at_n, Superseded-map f d (n - 1) gs rest)

-- No revoked grant passes a test that only unrevoked ones pass.
pub Superseded-none :
    (p : Grant → Bool)
    → ((g : Grant) → p g ≡ true → g.revoked ≡ false)
    → (n : ℕ) (gs : List Grant) → Superseded n gs
    → any p gs ≡ false
Superseded-none p unrevoked n [] h = refl
Superseded-none p unrevoked n (g ∷ gs) (pos, at_n, gone, rest) = elim (Bool-cases (p g)) [
  | inl e ↦ cc (unrevoked g e, gone)
  | inr e ↦ rw (e, Superseded-none p unrevoked (n - 1) gs rest) refl
]

pub Superseded-fresh :
    (k n : ℕ) (gs : List Grant) → n < k → Superseded n gs → any (λ g. g.attempt == k) gs ≡ false
Superseded-fresh k n [] h s = refl
Superseded-fresh k n (g ∷ gs) h (pos, at_n, gone, rest) =
    let ih = Superseded-fresh k (n - 1) gs (omega arith) rest in rw (at_n, ih) (ground arith)

revoke_grant-IsDemotion : (id : String) → IsDemotion (revoke_grant id)
revoke_grant-IsDemotion id = record {
  keeps_attempt = λ g. elim (Bool-cases (str_eq g.id id)) [ inl e ↦ rw e refl | inr e ↦ rw e refl ];
  keeps_revoked = λ g h. elim (Bool-cases (str_eq g.id id)) [ inl e ↦ rw e refl | inr e ↦ rw e h ];
}

pub consume-IsDemotion :
    (now lifetime_ms attempt : ℕ) → IsDemotion (consume now lifetime_ms attempt)
consume-IsDemotion now lifetime_ms attempt = record {
  keeps_attempt =
      λ g. elim (Bool-cases (is_consumable attempt g)) [ inl e ↦ rw e refl | inr e ↦ rw e refl ];
  keeps_revoked =
      λ g h. elim (Bool-cases (is_consumable attempt g)) [ inl e ↦ rw e h | inr e ↦ rw e h ];
}

revoke_lapsed-IsDemotion : (now attempt : ℕ) → IsDemotion (revoke_lapsed now attempt)
revoke_lapsed-IsDemotion now attempt = record {
  keeps_attempt = λ g.
      elim (Bool-cases
        ((g.attempt + 1 == attempt) && (not g.revoked && expired now g.expires_at))) [
          | inl e ↦ rw e refl
          | inr e ↦ rw e refl
        ];
  keeps_revoked = λ g h.
      elim (Bool-cases
        ((g.attempt + 1 == attempt) && (not g.revoked && expired now g.expires_at))) [
          | inl e ↦ rw e refl
          | inr e ↦ rw e h
        ];
}

pub live_unrevoked : (now : ℕ) (g : Grant) → is_live now g ≡ true → g.revoked ≡ false
live_unrevoked now g h = not-true _ (and_right _ _ (and_left _ _ h))

pub granted_unrevoked :
    (now : ℕ) (grant_id : String) (attempt : ℕ) (g : Grant)
    → is_granted now grant_id attempt g ≡ true
    → g.revoked ≡ false
granted_unrevoked now grant_id attempt g h = live_unrevoked now g (and_right _ _ h)

pub lapsed_unrevoked :
    (now attempt : ℕ) (g : Grant) → is_lapsed now attempt g ≡ true → g.revoked ≡ false
lapsed_unrevoked now attempt g h = not-true _ (and_right _ _ (and_left _ _ (and_right _ _ h)))

granted_revoked :
    (now : ℕ) (grant_id : String) (attempt : ℕ) (g : Grant)
    → is_granted now grant_id attempt g ≡ true
    → (revoke_grant grant_id g).revoked ≡ true
granted_revoked now grant_id attempt g h =
    let same : str_eq g.id grant_id ≡ true = and_left _ _ (and_left _ _ h) in rw same refl

lapsed_revoked :
    (now attempt : ℕ) (g : Grant)
    → is_lapsed now attempt g ≡ true
    → (revoke_lapsed now attempt g).revoked ≡ true
lapsed_revoked now attempt g h =
    let previous : (g.attempt + 1 == attempt) ≡ true = and_left _ _ h in
    let unrevoked : not g.revoked ≡ true = and_right _ _ (and_left _ _ (and_right _ _ h)) in
    let late : expired now g.expires_at ≡ true = and_right _ _ (and_right _ _ h) in
    rw (previous, unrevoked, late) refl

-- A grant that may be used is the newest one.
pub Ladder-usable :
    (p : Grant → Bool)
    → ((g : Grant) → p g ≡ true → g.revoked ≡ false)
    → (n : ℕ) (gs : List Grant) → Ladder n gs
    → any p gs ≡ true
    → (g : Grant) × (older : List Grant) × (gs ≡ g ∷ older) × (p g ≡ true) × (g.attempt ≡ n)
Ladder-usable p unrevoked n [] h found = cc found
Ladder-usable p unrevoked n (g ∷ gs) (pos, at_n, rest) found = elim (Bool-cases (p g)) [
  | inl e ↦ (g, gs, refl, e, at_n)
  | inr e ↦ cc (rw (e, Superseded-none p unrevoked (n - 1) gs rest) at found)
]

-- A change that revokes the grant in use leaves only revoked ones.
Ladder-revoked :
    (p : Grant → Bool) (f : Grant → Grant)
    → IsDemotion f
    → ((g : Grant) → p g ≡ true → g.revoked ≡ false)
    → ((g : Grant) → p g ≡ true → (f g).revoked ≡ true)
    → (n : ℕ) (gs : List Grant) → Ladder n gs
    → any p gs ≡ true
    → Superseded n (map f gs)
Ladder-revoked p f d unrevoked revokes n [] h found = h
Ladder-revoked p f d unrevoked revokes n (g ∷ gs) (pos, at_n, rest) found =
    elim (Bool-cases (p g)) [
      | inl e ↦ (pos, rw (d.keeps_attempt g) at_n, revokes g e, Superseded-map f d (n - 1) gs rest)
      | inr e ↦ cc (rw (e, Superseded-none p unrevoked (n - 1) gs rest) at found)
    ]

Ladder-push :
    (new : Grant) (n : ℕ) (gs : List Grant)
    → Superseded n gs
    → new.attempt ≡ suc n
    → Ladder (suc n) (add_grant new gs)
Ladder-push new n gs older next =
    let fresh = Superseded-fresh new.attempt n gs (omega (arith, next)) older in
    let same : n ≡ suc n - 1 = omega arith in
    simp (fresh) (omega arith, next, subst (λ m. Superseded m gs) same older)

-- A retry that is reported with the newest grant.
pub Ladder-retry :
    (now : ℕ) (grant_id next_id : String) (attempt n : ℕ) (gs : List Grant)
    → Ladder n gs
    → any (is_granted now grant_id attempt) gs ≡ true
    → n ≡ attempt
    → Ladder (suc n) (add_grant (next_grant next_id attempt) (map (revoke_grant grant_id) gs))
Ladder-retry now grant_id next_id attempt n gs h found e =
    Ladder-push (next_grant next_id attempt) n (map (revoke_grant grant_id) gs)
      (Ladder-revoked (is_granted now grant_id attempt) (revoke_grant grant_id)
        (revoke_grant-IsDemotion grant_id) (granted_unrevoked now grant_id attempt)
        (granted_revoked now grant_id attempt) n gs h found)
      (omega (arith, e))

-- A recovery of the newest grant, which has expired.
pub Ladder-recover :
    (id : String) (now lifetime_ms attempt n : ℕ) (gs : List Grant)
    → Ladder n gs
    → any (is_lapsed now attempt) gs ≡ true
    → attempt ≡ suc n
    → Ladder (suc n) (
        add_grant (recovered_grant id now lifetime_ms attempt) (map (revoke_lapsed now attempt) gs))
Ladder-recover id now lifetime_ms attempt n gs h found e =
    Ladder-push (recovered_grant id now lifetime_ms attempt) n (map (revoke_lapsed now attempt) gs)
      (Ladder-revoked (is_lapsed now attempt) (revoke_lapsed now attempt)
        (revoke_lapsed-IsDemotion now attempt) (lapsed_unrevoked now attempt)
        (lapsed_revoked now attempt) n gs h found)
      e
