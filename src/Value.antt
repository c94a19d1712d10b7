-- ===== src/Value.antt =====
-- The values of JavaScript that cross the program's boundaries: queue payloads, request and
-- response bodies, rows. Functions, symbols and big integers do not occur in them.
use shore_sentinel_app.Base.{
  ℕ, String, Bool, true, false, not, ◌||◌, List, [], ◌∷◌, leb, ltb, ◌==◌, str_eq, if◌then◌else◌,
}

-- `negsuc n` is -(n + 1).
pub data ℤ : Type 0 where
  pos : ℕ → ℤ
  negsuc : ℕ → ℤ

-- A double: an integer, a finite number strictly between an integer and the next one (known by
-- that integer alone), an infinity (`true` for the positive one) or NaN.
pub data Num : Type 0 where
  whole : ℤ → Num
  between : ℤ → Num
  infinite : Bool → Num
  nan : Num

mutual
  pub data Value : Type 0 where
    undef null : Value
    obj : Fields → Value
    arr : Items → Value
    str : String → Value
    num : Num → Value
    bool : Bool → Value

  -- The fields of an object, each name with its value, in order.
  pub data Fields : Type 0 where
    field : String → Value → Fields → Fields
    end : Fields

  -- The elements of an array.
  pub data Items : Type 0 where
    cons : Value → Items → Items
    nil : Items

abbrev pub items : Items → List Value
items nil = []
items (cons v vs) = v ∷ items vs

-- `Array.isArray(v) ? v : []`, and `array.length`.
abbrev pub array : Value → List Value
array (arr vs) = items vs
array undef = []
array _ = []

-- `Boolean(v)`.
abbrev pub truthy : Value → Bool
truthy undef = false
truthy null = false
truthy (bool b) = b
truthy (num (whole (pos n))) = not (n == 0)
truthy (num nan) = false
truthy (num _) = true
truthy (str s) = not (str_eq s "")
truthy (arr _) = true
truthy (obj _) = true

abbrev pub nullish : Value → Bool
nullish undef = true
nullish null = true
nullish _ = false

-- `a ?? b` and `a || b`.
abbrev pub or_nullish : Value → Value → Value
or_nullish a b = if nullish a then b else a

abbrev pub or_falsy : Value → Value → Value
or_falsy a b = if truthy a then a else b

abbrev pub text_or : String → String → String
text_or a b = if str_eq a "" then b else a

abbrev pub find_field : String → Fields → Value
find_field k end = undef
find_field k (field j v fs) = if str_eq j k then v else find_field k fs

-- `v?.k` for a key `k` that strings and arrays do not have.
abbrev pub get : String → Value → Value
get k (obj fs) = find_field k fs
get k undef = undef
get k _ = undef

abbrev pub has_field : String → Fields → Bool
has_field k end = false
has_field k (field j v fs) = str_eq j k || has_field k fs

-- `Object.hasOwn(v, k)` on an object.
abbrev pub has_own : Value → String → Bool
has_own (obj fs) k = has_field k fs
has_own undef k = false
has_own _ k = false

-- `v && typeof v === 'object'`.
abbrev pub is_object : Value → Bool
is_object (obj _) = true
is_object (arr _) = true
is_object _ = false

-- `typeof v === 'string'`, and `typeof v === 'string' && v.length > 0`.
abbrev pub is_text : Value → Bool
is_text (str _) = true
is_text undef = false
is_text _ = false

abbrev pub is_filled_text : Value → Bool
is_filled_text (str s) = not (str_eq s "")
is_filled_text undef = false
is_filled_text _ = false

-- The text of a value that is known to be one.
abbrev pub text_of : Value → String
text_of (str s) = s
text_of undef = ""
text_of _ = ""

-- 2 ^ 53 - 1, `Number.MAX_SAFE_INTEGER`.
abbrev pub max_safe : ℕ
max_safe = 9007199254740991

-- `Number.isSafeInteger(v)`.
abbrev pub is_safe_integer : Value → Bool
is_safe_integer (num (whole (pos n))) = leb n max_safe
is_safe_integer (num (whole (negsuc n))) = ltb n max_safe
is_safe_integer undef = false
is_safe_integer _ = false

-- `v === n` and `v < n` for a number `v` that is a safe integer.
abbrev pub is_number : ℕ → Value → Bool
is_number n (num (whole (pos m))) = m == n
is_number n undef = false
is_number n _ = false

abbrev pub below_number : Value → ℕ → Bool
below_number (num (whole (pos m))) n = ltb m n
below_number (num (whole (negsuc _))) n = true
below_number undef n = false
below_number _ n = false

-- The natural number that a value is known to be.
abbrev pub nat_of : Value → ℕ
nat_of (num (whole (pos n))) = n
nat_of undef = 0
nat_of _ = 0

-- `n > 0`.
abbrev pub positive : Num → Bool
positive (whole (pos n)) = ltb 0 n
positive (whole (negsuc _)) = false
positive (between (pos _)) = true
positive (between (negsuc _)) = false
positive (infinite b) = b
positive nan = false
