-- ===== src/Api/Validation/Decoding.antt =====
-- The decoding of base64 by RFC 4648, and the texts that fit the pattern of api/src/validation.ts.
use shore_sentinel_app.Base.{
  ℕ, ◌+◌, ◌-◌, ◌*◌, ◌/◌, ◌%◌, ◌≡◌, refl, Bool, true, false, ◌&&◌, ◌||◌, Option, none, some, List,
  [], ◌∷◌, length, leb, ◌==◌, Bool-cases, Option-cases, inl, inr, arith, if◌then◌else◌,
}
use shore_sentinel_app.Api.Validation.{is_base64_code, equals_sign, is_canonical_base64, padding}

-- The value of a character of the alphabet.
unfoldable pub sextet : ℕ → Option ℕ
sextet c =
    if leb b'A' c && leb c b'Z'
    then some (c - b'A')
    else if leb b'a' c && leb c b'z'
    then some (c - b'a' + 26)
    else if leb b'0' c && leb c b'9'
    then some (c - b'0' + 52)
    else if c == b'+'
    then some 62
    else if c == b'/'
    then some 63
    else none

abbrev pub with_value : Option ℕ → (ℕ → Option (List ℕ)) → Option (List ℕ)
with_value none f = none
with_value (some v) f = f v

-- The bytes of a group of two, three or four characters, before some more.
abbrev pub one_byte : ℕ → ℕ → Option (List ℕ)
one_byte a b = with_value (sextet a) λ x. with_value (sextet b) λ y. some ((x * 4 + y / 16) ∷ [])

abbrev pub two_bytes : ℕ → ℕ → ℕ → Option (List ℕ)
two_bytes a b c = with_value (sextet a) λ x.
    with_value (sextet b)
      λ y. with_value (sextet c) λ z. some ((x * 4 + y / 16) ∷ (y % 16 * 16 + z / 4) ∷ [])

abbrev pub three_bytes : ℕ → ℕ → ℕ → ℕ → List ℕ → Option (List ℕ)
three_bytes a b c d more = with_value (sextet a) λ x. with_value (sextet b) λ y.
    with_value (sextet c) λ z.
      with_value (sextet d)
        λ t. some ((x * 4 + y / 16) ∷ (y % 16 * 16 + z / 4) ∷ (z % 4 * 64 + t) ∷ more)

abbrev pub last_bytes : ℕ → ℕ → ℕ → ℕ → Option (List ℕ)
last_bytes a b c d =
    if d == b'='
    then (if c == b'=' then one_byte a b else two_bytes a b c)
    else three_bytes a b c d []

abbrev pub and_more : Option (List ℕ) → (List ℕ → Option (List ℕ)) → Option (List ℕ)
and_more none f = none
and_more (some l) f = f l

-- The bytes that a padded text encodes, none where it is no such text.
unfoldable pub decoded : List ℕ → Option (List ℕ)
decoded [] = some []
decoded (a ∷ []) = none
decoded (a ∷ b ∷ []) = none
decoded (a ∷ b ∷ c ∷ []) = none
decoded (a ∷ b ∷ c ∷ d ∷ []) = last_bytes a b c d
decoded (a ∷ b ∷ c ∷ d ∷ e ∷ rest) = and_more (decoded (e ∷ rest)) (three_bytes a b c d)

-- The text is decoded, to three bytes for four characters but for the padding.
pub record Decodes (cs : List ℕ) : Type 0 where
  pub bytes : List ℕ
  pub accepted : decoded cs ≡ some bytes
  pub counted : 4 * (length bytes + padding cs) ≡ 3 * length cs

HasValue : ℕ → Type 0
HasValue c = (v : ℕ) × (sextet c ≡ some v)

code-HasValue : (c : ℕ) → is_base64_code c ≡ true → HasValue c
unfolding HasValue sextet
code-HasValue c h = elim (Option-cases (sextet c)) [
  | inr found ↦ found
  | inl missing ↦ ground arith
]

and_parts : (a b : Bool) → (a && b) ≡ true → (a ≡ true) × (b ≡ true)
and_parts true b h = (refl, h)
and_parts false b h = cc h

-- The last group, with two padding characters, one or none.
twice-Decodes :
    (a b c d : ℕ)
    → (d == b'=') ≡ true
    → (c == b'=') ≡ true
    → HasValue a
    → HasValue b
    → Decodes (a ∷ b ∷ c ∷ d ∷ [])
unfolding HasValue decoded
twice-Decodes a b c d padded twice (x, ex) (y, ey) = record {
  bytes = (x * 4 + y / 16) ∷ [];
  accepted = rw (padded, twice, ex, ey) refl;
  counted = rw (padded, twice) refl;
}

once-Decodes :
    (a b c d : ℕ)
    → (d == b'=') ≡ true
    → (c == b'=') ≡ false
    → HasValue a
    → HasValue b
    → HasValue c
    → Decodes (a ∷ b ∷ c ∷ d ∷ [])
unfolding HasValue decoded
once-Decodes a b c d padded once (x, ex) (y, ey) (z, ez) = record {
  bytes = (x * 4 + y / 16) ∷ (y % 16 * 16 + z / 4) ∷ [];
  accepted = rw (padded, once, ex, ey, ez) refl;
  counted = rw (padded, once) refl;
}

full-Decodes :
    (a b c d : ℕ)
    → (d == b'=') ≡ false
    → HasValue a
    → HasValue b
    → HasValue c
    → HasValue d
    → Decodes (a ∷ b ∷ c ∷ d ∷ [])
unfolding HasValue decoded
full-Decodes a b c d full (x, ex) (y, ey) (z, ez) (t, et) = record {
  bytes = (x * 4 + y / 16) ∷ (y % 16 * 16 + z / 4) ∷ (z % 4 * 64 + t) ∷ [];
  accepted = rw (full, ex, ey, ez, et) refl;
  counted = rw full (ground arith);
}

last-Decodes :
    (a b c d : ℕ)
    → HasValue a
    → HasValue b
    → ((is_base64_code c && (is_base64_code d || d == equals_sign))
        || (c == equals_sign && d == equals_sign))
      ≡ true
    → Decodes (a ∷ b ∷ c ∷ d ∷ [])
last-Decodes a b c d va vb h = elim (Bool-cases (d == b'=')) [
  | inl padded ↦ elim (Bool-cases (c == b'=')) [
    | inl twice ↦ twice-Decodes a b c d padded twice va vb
    | inr once ↦ once-Decodes a b c d padded once va vb (code-HasValue c (ground arith))
  ]
  | inr full ↦
      full-Decodes a b c d full va vb (code-HasValue c (ground arith))
        (code-HasValue d (ground arith))
]

-- A group before others.
group-Decodes :
    (a b c d e f g h : ℕ) (rest : List ℕ)
    → HasValue a
    → HasValue b
    → HasValue c
    → HasValue d
    → Decodes (e ∷ f ∷ g ∷ h ∷ rest)
    → Decodes (a ∷ b ∷ c ∷ d ∷ e ∷ f ∷ g ∷ h ∷ rest)
unfolding HasValue decoded
group-Decodes a b c d e f g h rest (x, ex) (y, ey) (z, ez) (t, et) later = record {
  bytes = (x * 4 + y / 16) ∷ (y % 16 * 16 + z / 4) ∷ (z % 4 * 64 + t) ∷ later.bytes;
  accepted = rw (later.accepted, ex, ey, ez, et) refl;
  counted = omega (arith, later.counted);
}

pub canonical-Decodes : (cs : List ℕ) → is_canonical_base64 cs ≡ true → Decodes cs
unfolding is_canonical_base64 decoded
canonical-Decodes [] h = record { bytes = []; accepted = refl; counted = refl }
canonical-Decodes (a ∷ []) h = cc h
canonical-Decodes (a ∷ b ∷ []) h = cc h
canonical-Decodes (a ∷ b ∷ c ∷ []) h = cc h
canonical-Decodes (a ∷ b ∷ c ∷ d ∷ []) h =
    last-Decodes a b c d (code-HasValue a (ground arith)) (code-HasValue b (ground arith))
      (ground arith)
canonical-Decodes (a ∷ b ∷ c ∷ d ∷ e ∷ []) h = ground arith
canonical-Decodes (a ∷ b ∷ c ∷ d ∷ e ∷ f ∷ []) h = ground arith
canonical-Decodes (a ∷ b ∷ c ∷ d ∷ e ∷ f ∷ g ∷ []) h = ground arith
canonical-Decodes (a ∷ b ∷ c ∷ d ∷ e ∷ f ∷ g ∷ k ∷ rest) h =
    let (front, later) = and_parts _ (is_canonical_base64 (e ∷ f ∷ g ∷ k ∷ rest)) h in
    let (three, code_d) = and_parts _ (is_base64_code d) front in
    let (two, code_c) = and_parts _ (is_base64_code c) three in
    let (code_a, code_b) = and_parts (is_base64_code a) (is_base64_code b) two in
    group-Decodes a b c d e f g k rest (code-HasValue a code_a) (code-HasValue b code_b)
      (code-HasValue c code_c) (code-HasValue d code_d)
      (canonical-Decodes (e ∷ f ∷ g ∷ k ∷ rest) later)
