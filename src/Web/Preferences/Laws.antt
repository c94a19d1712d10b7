-- ===== src/Web/Preferences/Laws.antt =====
-- The preferences that are applied are always among the options (web/lib/display-preferences.js).
use shore_sentinel_app.Base.{
  String, Bool, true, false, ◌&&◌, ◌≡◌, refl, sym, ap, subst, ◌∙◌, some, List, one_of, str_eq,
  eq_iff, Bool-cases, inl, inr,
}
use shore_sentinel_app.Value.{Value, undef, null, bool, num, str, arr, obj, end, field, get, truthy}
use shore_sentinel_app.Web.Preferences.{
  Preferences, density_options, contrast_options, effects_options, values, normalize_choice,
  normalize, normalize_choices, normalize_display_preferences, Stored, absent, parsed, broken,
  bootstrap_preferences,
}

pub record AreOptions (p : Preferences) : Type 0 where
  pub density : one_of (values density_options) p.density ≡ true
  pub contrast : one_of (values contrast_options) p.contrast ≡ true
  pub effects : one_of (values effects_options) p.effects ≡ true

choice_allowed :
    (v : Value) (allowed : List String) (fallback : String)
    → one_of allowed fallback ≡ true
    → one_of allowed (normalize_choice v allowed fallback) ≡ true
choice_allowed (str s) allowed fallback h = elim (Bool-cases (one_of allowed s)) [
  | inl known ↦ rw known known
  | inr other ↦ rw other h
]
choice_allowed undef allowed fallback h = h
choice_allowed _ allowed fallback h = h

-- The preferences as the value that is stored.
abbrev pub stored_value : Preferences → Value
stored_value p = obj (
    field "density" (str p.density)
      (field "contrast" (str p.contrast) (field "effects" (str p.effects) end)))

choice_kept :
    (allowed : List String) (s fallback : String)
    → one_of allowed s ≡ true
    → normalize_choice (str s) allowed fallback ≡ s
choice_kept allowed s fallback h = rw h

choices-AreOptions : (v : Value) → AreOptions (normalize_choices v)
choices-AreOptions v = record {
  density = choice_allowed (get "density" v) (values density_options) "comfortable" refl;
  contrast = choice_allowed (get "contrast" v) (values contrast_options) "standard" refl;
  effects = choice_allowed (get "effects" v) (values effects_options) "full" refl;
}

choices-stored_value : (p : Preferences) → AreOptions p → normalize_choices (stored_value p) ≡ p
choices-stored_value p h i = record {
  density = choice_kept (values density_options) p.density "comfortable" h.density i;
  contrast = choice_kept (values contrast_options) p.contrast "standard" h.contrast i;
  effects = choice_kept (values effects_options) p.effects "full" h.effects i;
}

some_inj : {a b : Preferences} → some a ≡ some b → a ≡ b
some_inj h = cc h

normalized_choices :
    (v : Value) (p : Preferences)
    → normalize_display_preferences v ≡ some p
    → normalize_choices v ≡ p
unfolding normalize_display_preferences
normalized_choices null p h = cc h
normalized_choices undef p h = some_inj h
normalized_choices (bool b) p h = some_inj h
normalized_choices (num n) p h = some_inj h
normalized_choices (str s) p h = some_inj h
normalized_choices (arr vs) p h = some_inj h
normalized_choices (obj fs) p h = some_inj h

stored_choices :
    (p : Preferences)
    → normalize_choices (stored_value p) ≡ p
    → normalize_display_preferences (stored_value p) ≡ some p
unfolding normalize_display_preferences
stored_choices p h = ap some h

-- Whatever was stored, each preference that it is normalised to is one of its options, and storing
-- and normalising these preferences again changes nothing.
pub normalize_display_preferences_stable :
    (v : Value) (p : Preferences) (accepted : normalize_display_preferences v ≡ some p)
    → AreOptions p × (normalize_display_preferences (stored_value p) ≡ some p)
normalize_display_preferences_stable v p accepted =
    let h = subst AreOptions (normalized_choices v p accepted) (choices-AreOptions v) in
    (h, stored_choices p (choices-stored_value p h))

absent-AreOptions : (m l : Bool) → AreOptions (bootstrap_preferences (absent m l))
unfolding bootstrap_preferences
absent-AreOptions true true = record { density = refl; contrast = refl; effects = refl }
absent-AreOptions true false = record { density = refl; contrast = refl; effects = refl }
absent-AreOptions false true = record { density = refl; contrast = refl; effects = refl }
absent-AreOptions false false = record { density = refl; contrast = refl; effects = refl }

and_false : (b : Bool) → (b && false) ≡ false
and_false true = refl
and_false false = refl

-- The two normalisations of a choice are the same where no allowed value is empty.
normalize_same :
    (v : Value) (allowed : List String) (fallback : String)
    → one_of allowed "" ≡ false
    → normalize v allowed fallback ≡ normalize_choice v allowed fallback
normalize_same (str s) allowed fallback h = elim (Bool-cases (str_eq s "")) [
  | inl blank ↦ rw ((eq_iff s "").0 blank, h) refl
  | inr filled ↦ rw filled refl
]
normalize_same undef allowed fallback h = refl
normalize_same null allowed fallback h = refl
normalize_same (bool true) allowed fallback h = refl
normalize_same (bool false) allowed fallback h = refl
normalize_same (num n) allowed fallback h = rw (and_false (truthy (num n))) refl
normalize_same (arr vs) allowed fallback h = refl
normalize_same (obj fs) allowed fallback h = refl

bootstrap_parsed : (v : Value) → bootstrap_preferences (parsed v) ≡ normalize_choices v
unfolding bootstrap_preferences
bootstrap_parsed v i = record {
  density = normalize_same (get "density" v) (values density_options) "comfortable" refl i;
  contrast = normalize_same (get "contrast" v) (values contrast_options) "standard" refl i;
  effects = normalize_same (get "effects" v) (values effects_options) "full" refl i;
}

bootstrap-AreOptions : (s : Stored) → AreOptions (bootstrap_preferences s)
unfolding bootstrap_preferences
bootstrap-AreOptions (absent m l) = absent-AreOptions m l
bootstrap-AreOptions (parsed v) = subst AreOptions (sym (bootstrap_parsed v)) (choices-AreOptions v)
bootstrap-AreOptions broken = record { density = refl; contrast = refl; effects = refl }

-- The script that runs before the page is drawn applies options only, whatever it finds, and where
-- preferences are stored that the page can normalise, those that the page itself would apply.
pub bootstrap_preferences_agree :
    (s : Stored) (v : Value) (p : Preferences) (accepted : normalize_display_preferences v ≡ some p)
    → AreOptions (bootstrap_preferences s) × (bootstrap_preferences (parsed v) ≡ p)
bootstrap_preferences_agree s v p accepted =
    (bootstrap-AreOptions s, bootstrap_parsed v ∙ normalized_choices v p accepted)
