-- ===== src/Api/Validation.antt =====
-- api/src/validation.ts: the checks of settings and request fields.
pub mod Laws
pub mod Bodies
pub mod Decoding
use Prim.Native.String.{◌++◌}
use shore_sentinel_app.Base.{
  ℕ, ◌+◌, ◌-◌, ◌*◌, ◌/◌, ◌%◌, String, Bool, true, false, not, ◌&&◌, ◌||◌, Option, none, some, List,
  [], ◌∷◌, ◌++◌ as append, any, length, ltb, leb, ◌==◌, str_eq, starts_with, one_of, codes,
  is_digit, is_digits, digits_value, split_on, Result, fails, gives, if◌then◌else◌,
}
use shore_sentinel_app.Value.{Value, undef, str, max_safe, is_text, text_of}
use shore_sentinel_app.Runtime.{Runtime}
use shore_sentinel_app.Shared.{kind_values}
use shore_sentinel_app.Worker.Config.{Environment, hour_ms, variable_or, then_result}

abbrev pub max_scan_target_length : ℕ
max_scan_target_length = 1024

abbrev pub worker_artifact_handoffs : ℕ
worker_artifact_handoffs = 3

abbrev pub worker_lifecycle_event_calls : ℕ
worker_lifecycle_event_calls = 12

-- `WORKER_ARTIFACT_MAX_BYTES` of api/src/config.ts.
abbrev pub worker_artifact_max_bytes : ℕ
worker_artifact_max_bytes = 1024 * 1024

-- `positiveTimeBudget`.
unfoldable pub positive_time_budget : Environment → (name fallback : String) → Result ℕ
positive_time_budget env name fallback =
    let raw = variable_or env name fallback in
    if not (is_digits raw)
    then fails (name ++ " must be a positive integer milliseconds value")
    else let value = digits_value raw in
      if ltb max_safe value || ltb value 1 || ltb hour_ms value
      then fails (name ++ " must be between 1 and 3600000 milliseconds")
      else gives value

-- `WorkerExecutionTimeBudget`.
pub record WorkerExecutionTimeBudget : Type 0 where
  pub ssh_timeout_ms : ℕ
  pub parser_timeout_ms : ℕ
  pub artifact_handoff_timeout_ms : ℕ
  pub lifecycle_event_timeout_ms : ℕ
  pub grant_lifetime_ms : ℕ

abbrev pub maximum_attempt_ms : (ssh parser handoff event : ℕ) → ℕ
maximum_attempt_ms ssh parser handoff event =
    ssh + parser + worker_artifact_handoffs * handoff + worker_lifecycle_event_calls * event

-- `workerExecutionTimeBudget`.
unfoldable pub worker_execution_time_budget : Environment → Result WorkerExecutionTimeBudget
worker_execution_time_budget env =
    then_result (positive_time_budget env "SSH_EXECUTION_TIMEOUT_MS" "120000") (λ ssh.
      then_result (positive_time_budget env "PARSER_TIMEOUT_MS" "120000") (λ parser.
        then_result (positive_time_budget env "ARTIFACT_HANDOFF_TIMEOUT_MS" "30000") (λ handoff.
          then_result (positive_time_budget env "LIFECYCLE_EVENT_TIMEOUT_MS" "10000") (λ event.
            gives (record {
              ssh_timeout_ms = ssh;
              parser_timeout_ms = parser;
              artifact_handoff_timeout_ms = handoff;
              lifecycle_event_timeout_ms = event;
              grant_lifetime_ms = maximum_attempt_ms ssh parser handoff event + 1000;
            })))))

-- `/[\u0000-\u001f\u007f\\]/` on a character.
abbrev pub is_invalid_code : ℕ → Bool
is_invalid_code c = ltb c 32 || c == 127 || c == b'\\'

-- `validateScanTarget`.
unfoldable pub validate_scan_target : Runtime → Value → Result String
validate_scan_target rt undef = gives "."
validate_scan_target rt (str value) =
    if str_eq (rt.trim value) ""
    then gives "."
    else if ltb max_scan_target_length (rt.utf16_length value)
    then fails "scan_target is too long (maximum 1024 characters)"
    else if any is_invalid_code (codes value)
    then fails "scan_target contains invalid characters"
    else if one_of (split_on b'/' value) ".."
    then fails "scan_target contains a relative traversal segment"
    else if not (str_eq value ".") && not (starts_with value "/")
    then fails "scan_target must be \".\" or an absolute POSIX directory"
    else gives value
validate_scan_target rt _ = fails "scan_target must be a string"

-- `validateArtifactType`, for `ALLOWED_ARTIFACT_TYPES` of api/src/config.ts.
abbrev pub allowed_artifact_types : List String
allowed_artifact_types = append ("json" ∷ "markdown" ∷ "sarif" ∷ "pdf" ∷ []) kind_values

unfoldable pub validate_artifact_type : String → Option String
validate_artifact_type artifact_type =
    if one_of allowed_artifact_types artifact_type then some artifact_type else none

-- `[A-Za-z0-9+/]`.
abbrev pub is_base64_code : ℕ → Bool
is_base64_code c =
    (leb b'A' c && leb c b'Z') || (leb b'a' c && leb c b'z') || is_digit c || c == b'+' || c == b'/'

abbrev pub equals_sign : ℕ
equals_sign = 61

-- The pattern of a canonical text, on its characters: groups of four, of which the last may be
-- padded.
unfoldable pub is_canonical_base64 : List ℕ → Bool
is_canonical_base64 [] = true
is_canonical_base64 (a ∷ []) = false
is_canonical_base64 (a ∷ b ∷ []) = false
is_canonical_base64 (a ∷ b ∷ c ∷ []) = false
is_canonical_base64 (a ∷ b ∷ c ∷ d ∷ []) =
    is_base64_code a
    && is_base64_code b
    && ((is_base64_code c && (is_base64_code d || d == equals_sign))
        || (c == equals_sign && d == equals_sign))
is_canonical_base64 (a ∷ b ∷ c ∷ d ∷ e ∷ rest) =
    let others = is_canonical_base64 (e ∷ rest) in
    is_base64_code a && is_base64_code b && is_base64_code c && is_base64_code d && others

-- The padding at the end.
abbrev pub last_two : List ℕ → ℕ × ℕ
last_two [] = (0, 0)
last_two (c ∷ []) = (0, c)
last_two (c ∷ d ∷ []) = (c, d)
last_two (c ∷ d ∷ e ∷ rest) = last_two (d ∷ e ∷ rest)

abbrev pub padding : List ℕ → ℕ
padding cs =
    if (last_two cs).0 == equals_sign && (last_two cs).1 == equals_sign
    then 2
    else if (last_two cs).1 == equals_sign
    then 1
    else 0

-- `4 * Math.ceil(n / 3)`.
abbrev pub encoded_length : ℕ → ℕ
encoded_length n = 4 * ((n + 2) / 3)

-- `validateCanonicalWorkerArtifactBase64` on a text, by its characters. A text with characters
-- outside the pattern is refused with the same message whatever its length.
unfoldable pub validate_canonical_base64 : List ℕ → Result ℕ
validate_canonical_base64 cs =
    if length cs == 0 || not (length cs % 4 == 0)
    then fails "bodyBase64 must be canonical base64"
    else if ltb (encoded_length worker_artifact_max_bytes) (length cs)
        || not (is_canonical_base64 cs)
    then fails "bodyBase64 must be canonical base64"
    else let decoded = length cs / 4 * 3 - padding cs in
      if ltb decoded 1 || ltb worker_artifact_max_bytes decoded
      then fails "artifact body must be between 1 and 1048576 bytes"
      else gives decoded
