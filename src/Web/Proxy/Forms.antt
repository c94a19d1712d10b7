-- ===== src/Web/Proxy/Forms.antt =====
-- The body that the enrollment of web/app/api/targets/route.js makes of a form.
use shore_sentinel_app.Base.{
  String, true, ◌≡◌, refl, sym, ◌∙◌, ap, Option, none, some, [], ◌∷◌, str_eq, eq_iff, Bool-cases,
  Option-cases, inl, inr, if◌then◌else◌,
}
use shore_sentinel_app.Value.{
  Value, undef, null, bool, num, str, arr, obj, Fields, end, field, find_field,
}
use shore_sentinel_app.Web.Proxy.Mutations.{
  Form, set_field, from_entries_onto, blank_to_null, blanks_to_null, coerce_payload,
}

-- The last value that a form has under a name.
abbrev pub last_value : String → Form → Option Value
last_value name [] = none
last_value name ((k, v) ∷ rest) = elim (last_value name rest) [
  | some later ↦ some later
  | none ↦ if str_eq k name then some v else none
]

-- What is sent for it: nothing for a name that the form lacks, and null for an empty text.
abbrev pub sent_value : Option Value → Value
sent_value none = undef
sent_value (some (str s)) = if str_eq s "" then null else str s
sent_value (some undef) = undef
sent_value (some v) = v

-- Read by name, the fields are those of the form.
abbrev pub AreFormFields : Form → Fields → Type 0
AreFormFields form fields =
    (name : String) → find_field name fields ≡ sent_value (last_value name form)

find-set_field :
    (name k : String) (v : Value) (fs : Fields)
    → find_field name (set_field k v fs) ≡ (if str_eq k name then v else find_field name fs)
find-set_field name k v end = refl
find-set_field name k v (field j w fs) =
    let ih = find-set_field name k v fs in
    elim (Bool-cases (str_eq j k)) [
      | inl same ↦
          rw ((eq_iff j k).0 same, (eq_iff k k).1 refl)
            (elim (Bool-cases (str_eq k name)) [
              | inl here ↦ rw here refl
              | inr there ↦ rw there refl
            ])
      | inr other ↦ elim (Bool-cases (str_eq j name)) [
        | inr there ↦ rw (other, there) ih
        | inl here ↦ elim (Bool-cases (str_eq k name)) [
          | inr elsewhere ↦ rw (other, here, elsewhere) refl
          | inl both ↦
              let same : str_eq j k ≡ true =
                (eq_iff j k).1 ((eq_iff j name).0 here ∙ sym ((eq_iff k name).0 both)) in
              cc (same, other)
        ]
      ]
    ]

-- The last value of a form, or what stood before.
abbrev later_or : Option Value → Value → Value
later_or none v = v
later_or (some w) v = w

find-from_entries_onto :
    (name : String) (acc : Fields) (form : Form)
    → find_field name (from_entries_onto acc form)
      ≡ later_or (last_value name form) (find_field name acc)
find-from_entries_onto name acc [] = refl
find-from_entries_onto name acc ((k, v) ∷ rest) =
    let ih = find-from_entries_onto name (set_field k v acc) rest in
    elim (Option-cases (last_value name rest)) [
      | inr (w, e) ↦ rw e (rw e at ih)
      | inl e ↦ elim (Bool-cases (str_eq k name)) [
        | inl here ↦ rw (e, here) (rw (e, find-set_field name k v acc, here) at ih)
        | inr there ↦ rw (e, there) (rw (e, find-set_field name k v acc, there) at ih)
      ]
    ]

find-blanks_to_null :
    (name : String) (fs : Fields)
    → find_field name (blanks_to_null fs) ≡ blank_to_null (find_field name fs)
find-blanks_to_null name end = refl
find-blanks_to_null name (field k v fs) = elim (Bool-cases (str_eq k name)) [
  | inl here ↦ rw here refl
  | inr there ↦ rw there (find-blanks_to_null name fs)
]

blank-sent : (v : Value) → blank_to_null v ≡ sent_value (some v)
blank-sent undef = refl
blank-sent null = refl
blank-sent (obj fs) = refl
blank-sent (arr vs) = refl
blank-sent (str s) = refl
blank-sent (num n) = refl
blank-sent (bool b) = refl

blank-later : (o : Option Value) → blank_to_null (later_or o undef) ≡ sent_value o
blank-later none = refl
blank-later (some v) = blank-sent v

pub coerce_payload-AreFormFields : (form : Form) → AreFormFields form (coerce_payload form)
unfolding coerce_payload
coerce_payload-AreFormFields form name =
    find-blanks_to_null name (from_entries_onto end form)
    ∙ ap blank_to_null (find-from_entries_onto name end form)
    ∙ blank-later (last_value name form)
