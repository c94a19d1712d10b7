-- ===== src/Runtime.antt =====
-- What the program takes from the JavaScript runtime: JSON, base64, dates, and the printing and
-- reading of numbers.
use shore_sentinel_app.Base.{ℕ, String, Option}
use shore_sentinel_app.Value.{Value, Num, num, undef, str}

-- `JSON.stringify` returns a text or undefined, or throws.
pub data Serialized : Type 0 where
  text : String → Serialized
  nothing throws : Serialized

pub record Runtime : Type 0 where
  -- `JSON.parse`, `none` if it throws.
  pub parse_json : String → Option Value
  -- `JSON.stringify(v)` and `JSON.stringify(v, null, 2)`.
  pub stringify : Value → Serialized
  pub stringify_pretty : Value → Serialized
  -- `Buffer.from(s, 'utf8').toString('base64')`.
  pub base64 : String → String
  -- `String(n)`.
  pub decimal : ℕ → String
  -- The number of UTF-16 units, `s.length`.
  pub utf16_length : String → ℕ
  -- `String(v)` for a value that is no text.
  pub to_text : Value → String
  -- `s.toLowerCase()`.
  pub to_lower : String → String
  -- `s.trim()`.
  pub trim : String → String
  -- `new Date(v).getTime()`.
  pub time_of : Value → Num
  -- `encodeURIComponent(s)`.
  pub encode : String → String
  -- `Number(v)` for a value that is no number.
  pub to_number : Value → Num

-- `Number(v)`.
abbrev pub number_of : Runtime → Value → Num
number_of rt (num n) = n
number_of rt undef = rt.to_number undef
number_of rt v = rt.to_number v

-- `String(v)`.
abbrev pub text_from : Runtime → Value → String
text_from rt (str s) = s
text_from rt undef = rt.to_text undef
text_from rt v = rt.to_text v
