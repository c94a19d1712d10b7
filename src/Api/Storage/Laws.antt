-- ===== src/Api/Storage/Laws.antt =====
-- The keys that a storage address may name.
use shore_sentinel_app.Base.{
  ◌≡◌, refl, subst, String, Bool, true, false, ◌||◌, some, any, str_eq, starts_with, split_on,
  Bool-cases, inl, inr,
}
use shore_sentinel_app.Api.Storage.{bucket_prefix, after_prefix, is_bad_part, object_key}

some_text : {a b : String} → some a ≡ some b → a ≡ b
some_text h = cc h

or_left : (a b : Bool) → (a || b) ≡ false → a ≡ false
or_left true b h = h
or_left false b h = refl

or_right : (a b : Bool) → (a || b) ≡ false → b ≡ false
or_right true b h = cc h
or_right false b h = h

-- What a key keeps to.
abbrev pub IsPlainKey : String → Type 0
IsPlainKey key =
    (str_eq key "" ≡ false)
    × (starts_with key "/" ≡ false)
    × (any is_bad_part (split_on b'/' key) ≡ false)

-- An address is accepted only in the bucket, and its key is not empty, does not start with a slash
-- and has no part that is empty, a dot, two dots or holds a control character or a backslash.
object_key-IsPlainKey :
    (bucket uri key : String)
    → object_key bucket uri ≡ some key
    → (starts_with uri (bucket_prefix bucket) ≡ true) × IsPlainKey key
unfolding object_key
object_key-IsPlainKey bucket uri key h =
    let rest = after_prefix (bucket_prefix bucket) uri in
    elim (Bool-cases (starts_with uri (bucket_prefix bucket))) [
      | inr other ↦ cc (rw (object_key, other) at h)
      | inl inside ↦
          elim (Bool-cases
            (str_eq rest "" || starts_with rest "/" || any is_bad_part (split_on b'/' rest))) [
              | inl bad ↦ cc (rw (object_key, inside, bad) at h)
              | inr good ↦ (
                inside,
                subst IsPlainKey (some_text (rw (object_key, inside, good) at h)) (
                  or_left _ _ (or_left _ _ good),
                  or_right _ _ (or_left _ _ good),
                  or_right _ _ good,
                ),
              )
            ]
    ]
