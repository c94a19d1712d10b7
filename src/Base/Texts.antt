-- ===== src/Base/Texts.antt =====
-- Texts as lists of code points, and membership in a fixed set of texts.
use Prim.Native.Nat.{ℕ, ◌+◌, ◌*◌, ◌-◌}
use Prim.Native.Char.{Char, code}
use Prim.Native.String.{String}
use mathlib.Core.Bool.{Bool, true, false, not, ◌&&◌, ◌||◌}
use mathlib.Core.List.{List, [], ◌∷◌}
use text.Mathlib.Text.{◌==◌}
use shore_sentinel_app.Base.Tests.{leb, ◌==◌ as same, if◌then◌else◌}

-- The code points of a text. `String` has its own `[]` and `∷`.
abbrev pub codes : String → List ℕ
codes (String.◌∷◌ first rest) = code first ∷ codes rest
codes String.[] = []

-- `set.has(text)` for a set of texts, and `list.includes(text)`.
abbrev pub one_of : List String → String → Bool
one_of [] s = false
one_of (x ∷ xs) s = s == x || one_of xs s

-- `/\d/` on one character.
abbrev pub is_digit : ℕ → Bool
is_digit c = leb b'0' c && leb c b'9'

abbrev first_with : Char → List String → List String
first_with c [] = String.◌∷◌ c String.[] ∷ []
first_with c (s ∷ rest) = String.◌∷◌ c s ∷ rest

-- `text.split(separator)`, for a separator of one character given by its code.
abbrev pub split_on : ℕ → String → List String
split_on separator String.[] = "" ∷ []
split_on separator (String.◌∷◌ c s) =
    let rest = split_on separator s in
    if same (code c) separator then "" ∷ rest else first_with c rest

abbrev all_digits : String → Bool
all_digits String.[] = true
all_digits (String.◌∷◌ c s) = is_digit (code c) && all_digits s

-- `/^\d+$/.test(text)`.
abbrev pub is_digits : String → Bool
is_digits s = not (s == "") && all_digits s

abbrev digits_from : ℕ → String → ℕ
digits_from n String.[] = n
digits_from n (String.◌∷◌ c s) = digits_from (10 * n + (code c - b'0')) s

-- `Number(text)` for a text of digits.
abbrev pub digits_value : String → ℕ
digits_value s = digits_from 0 s
