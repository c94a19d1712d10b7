-- ===== src/Ssh/Bits/Laws.antt =====
-- What the masks of the CIDR test in workers/worker-node/src/sshExecutor.js keep of a number.
use shore_sentinel_app.Base.{
  and_left, ℕ, zero, suc, ◌+◌, ◌*◌, ◌-◌, ◌/◌, ◌%◌, ◌≤◌, ◌<◌, ◌≡◌, refl, sym, ap, subst, ◌∙◌, ◌↔◌,
  Bool, true, false, ◌&&◌, ◌==◌, ==_iff, Bool-cases, inl, inr, arith,
}
use shore_sentinel_app.Ssh.Bits.{bit_and, mask_of}

-- The number without its last `n` bits.
abbrev pub leading : ℕ → ℕ → ℕ
leading zero v = v
leading (suc n) v = leading n (v / 2)

abbrev twice : ℕ → ℕ → ℕ
twice zero v = v
twice (suc n) v = 2 * twice n v

abbrev ones : ℕ → ℕ
ones zero = 0
ones (suc k) = 1 + 2 * ones k

leading_half : (n v : ℕ) → leading n v / 2 ≡ leading n (v / 2)
leading_half zero v = refl
leading_half (suc n) v = leading_half n (v / 2)

odd_rest : (x : ℕ) → (1 + 2 * x) % 2 ≡ 1
odd_rest x = omega arith

odd_half : (x : ℕ) → (1 + 2 * x) / 2 ≡ x
odd_half x = omega arith

even_rest : (x : ℕ) → (2 * x) % 2 ≡ 0
even_rest x = omega arith

even_half : (x : ℕ) → (2 * x) / 2 ≡ x
even_half x = omega arith

abbrev plus : ℕ → ℕ → ℕ
plus zero k = k
plus (suc n) k = suc (plus n k)

plus-add : (n k : ℕ) → plus n k ≡ n + k
plus-add zero k = omega arith
plus-add (suc n) k = omega (arith, plus-add n k)

-- The masks are ones followed by zeros.
bit_and-ones : (k v : ℕ) → leading k v ≡ 0 → bit_and k v (ones k) ≡ v
bit_and-ones zero v h = sym h
bit_and-ones (suc k) v h =
    rw (odd_rest (ones k), odd_half (ones k), bit_and-ones k (v / 2) h) (omega arith)

bit_and-twice :
    (n k v m : ℕ) → bit_and (plus n k) v (twice n m) ≡ twice n (bit_and k (leading n v) m)
bit_and-twice zero k v m = refl
bit_and-twice (suc n) k v m =
    rw (even_rest (twice n m), even_half (twice n m), bit_and-twice n k (v / 2) m) (omega arith)

twice_inj : (n x y : ℕ) → twice n x ≡ twice n y → x ≡ y
twice_inj zero x y h = h
twice_inj (suc n) x y h = twice_inj n x y (omega (arith, h))

leading-plus : (n k v : ℕ) → leading (plus n k) v ≡ leading k (leading n v)
leading-plus zero k v = refl
leading-plus (suc n) k v = leading-plus n k (v / 2)

abbrev power : ℕ → ℕ
power zero = 1
power (suc k) = 2 * power k

leading_small : (k v : ℕ) → v < power k → leading k v ≡ 0
leading_small zero v h = omega arith
leading_small (suc k) v h = leading_small k (v / 2) (omega arith)

abbrev each_below : ℕ → (ℕ → Bool) → Bool
each_below zero p = true
each_below (suc n) p = p n && each_below n p

and_right : (a b : Bool) → (a && b) ≡ true → b ≡ true
and_right true b h = h
and_right false b h = cc h

each_below-holds : (n : ℕ) (p : ℕ → Bool) (i : ℕ) → each_below n p ≡ true → i < n → p i ≡ true
each_below-holds zero p i h l = absurd (omega arith)
each_below-holds (suc n) p i h l = elim (Bool-cases (p i)) [
  | inl e ↦ e
  | inr e ↦ elim (Bool-cases (i == n)) [
    | inl same ↦ ap p ((==_iff i n).0 same) ∙ and_left (p n) (each_below n p) h
    | inr other ↦ each_below-holds n p i (and_right (p n) (each_below n p) h) (ground arith)
  ]
]

is_ones : ℕ → Bool
is_ones p = mask_of p == twice (32 - p) (ones p)

every_mask : each_below 33 is_ones ≡ true
unfolding is_ones
every_mask = refl

mask_of-ones : (p : ℕ) → p ≤ 32 → mask_of p ≡ twice (32 - p) (ones p)
unfolding is_ones
mask_of-ones p h =
    (==_iff (mask_of p) (twice (32 - p) (ones p))).0
      (each_below-holds 33 is_ones p every_mask (omega arith))

bit_and-plus :
    (n p v : ℕ)
    → leading (plus n p) v ≡ 0
    → bit_and (plus n p) v (twice n (ones p)) ≡ twice n (leading n v)
bit_and-plus n p v h =
    bit_and-twice n p v (ones p)
    ∙ ap (twice n) (bit_and-ones p (leading n v) (sym (leading-plus n p v) ∙ h))

plus-32 : (p : ℕ) → p ≤ 32 → plus (32 - p) p ≡ 32
plus-32 p h = omega (arith, plus-add (32 - p) p)

-- A mask keeps the leading bits and clears the others.
pub bit_and-mask :
    (p v : ℕ)
    → p ≤ 32
    → v < 4294967296
    → bit_and 32 v (mask_of p) ≡ twice (32 - p) (leading (32 - p) v)
bit_and-mask p v h l =
    subst (λ w. leading w v ≡ 0 → bit_and w v (mask_of p) ≡ twice (32 - p) (leading (32 - p) v))
      (plus-32 p h)
      (λ z. ap (bit_and (plus (32 - p) p) v) (mask_of-ones p h) ∙ bit_and-plus (32 - p) p v z)
      (leading_small 32 v l)

-- Two numbers agree under a mask exactly when their leading bits agree.
pub bit_and-mask_iff :
    (p v n : ℕ)
    → p ≤ 32
    → v < 4294967296
    → n < 4294967296
    → (bit_and 32 v (mask_of p) ≡ bit_and 32 n (mask_of p))
      ↔ (leading (32 - p) v ≡ leading (32 - p) n)
bit_and-mask_iff p v n h lv ln = (
  (λ e.
      twice_inj (32 - p) (leading (32 - p) v) (leading (32 - p) n)
        (sym (bit_and-mask p v h lv) ∙ e ∙ bit_and-mask p n h ln)),
  (λ e. bit_and-mask p v h lv ∙ ap (twice (32 - p)) e ∙ sym (bit_and-mask p n h ln)),
)
