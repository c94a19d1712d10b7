-- ===== src/Ssh/Context.antt =====
-- workers/worker-node/src/sshExecutor.js: what a scan needs to be given, the identifiers of its
-- requests and the directory it may read.
pub mod Laws
use Prim.Native.String.{◌++◌}
use Prim.Native.Char.{code}
use shore_sentinel_app.Base.{
  ℕ, zero, suc, String, Bool, true, false, not, ◌&&◌, ◌||◌, List, [], ◌∷◌, length, all, leb, ltb,
  ◌==◌, str_eq, starts_with, codes, is_digit, Result, fails, gives, if◌then◌else◌,
}
use shore_sentinel_app.Value.{
  Value, undef, str, arr, get, num, whole, pos, array, is_object, is_text, is_filled_text, text_of,
  truthy,
}

-- `typeof v === 'string' && v.length > 0` for each of the texts, in order.
abbrev missing_text : List String → Value → Result (Unit {0}) → Result (Unit {0})
missing_text [] context rest = rest
missing_text (name ∷ names) context rest =
    let others = missing_text names context rest in
    if is_filled_text (get name context)
    then others
    else fails ("SSH execution context missing " ++ name)

-- `Number.isInteger(port) && port >= 1 && port <= 65535`.
abbrev pub is_port : Value → Bool
is_port (num (whole (pos n))) = leb 1 n && leb n 65535
is_port undef = false
is_port _ = false

-- `Array.isArray(v) && v.length !== 0`.
abbrev pub is_filled_array : Value → Bool
is_filled_array (arr vs) = not (length (array (arr vs)) == 0)
is_filled_array undef = false
is_filled_array _ = false

abbrev pub is_credential : Value → Bool
is_credential credential =
    is_object credential
    && is_text (get "username" credential)
    && (truthy (get "password" credential) || truthy (get "privateKey" credential))

abbrev pub context_texts : List String
context_texts = "host" ∷ "hostKeyPin" ∷ "enrolledRoot" ∷ "scanTarget" ∷ []

-- `requireContext`.
unfoldable pub require_context : Value → Result (Unit {0})
require_context context =
    if not (is_object context)
    then fails "SSH execution context is required"
    else missing_text context_texts context (
        if not (is_port (get "port" context))
        then fails "SSH execution context missing valid port"
        else if not (is_filled_array (get "permittedCidrs" context))
        then fails "SSH execution context missing permitted CIDR policy"
        else if not (is_credential (get "credential" context))
        then fails "SSH execution context missing credential grant"
        else gives tt)

-- `[0-9a-f]` with the flag `i`, and `-`.
abbrev pub is_hex : ℕ → Bool
is_hex c = is_digit c || (leb b'a' c && leb c b'f') || (leb b'A' c && leb c b'F')

-- The hexadecimal digits of one group, and what follows it.
abbrev pub after_group : ℕ → (List ℕ → Bool) → List ℕ → Bool
after_group zero next cs = next cs
after_group (suc n) next [] = false
after_group (suc n) next (c ∷ cs) = is_hex c && after_group n next cs

abbrev pub after_dash : (List ℕ → Bool) → List ℕ → Bool
after_dash next [] = false
after_dash next (c ∷ cs) = (c == b'-') && next cs

abbrev pub at_end : List ℕ → Bool
at_end [] = true
at_end (c ∷ cs) = false

-- `REQUEST_ID_PATTERN.test`.
unfoldable pub is_request_id : String → Bool
is_request_id s =
    after_group 8
      (after_dash (
        after_group 4 (
          after_dash
            (after_group 4 (after_dash (after_group 4 (after_dash (after_group 12 at_end))))))))
      (codes s)

-- `requireRequestId`.
unfoldable pub require_request_id : Value → Result String
require_request_id (str s) =
    if is_request_id s then gives s else fails "invalid SSH request identifier"
require_request_id undef = fails "invalid SSH request identifier"
require_request_id _ = fails "invalid SSH request identifier"

abbrev pub fixed_remote_runner : String
fixed_remote_runner = "/usr/local/lib/shore-sentinel/run-scan"

abbrev pub with_id : String → Result String → Result String
with_id option (fails e) = fails e
with_id option (gives id) = gives (fixed_remote_runner ++ option ++ id)

-- `fixedRemoteRequestCommand`, `fixedRemoteCancellationCommand` and `fixedRemoteStageCommand`.
unfoldable pub fixed_remote_request_command : Value → Result String
fixed_remote_request_command id = with_id " --request " (require_request_id id)

unfoldable pub fixed_remote_cancellation_command : Value → Result String
fixed_remote_cancellation_command id = with_id " --cancel-request " (require_request_id id)

unfoldable pub fixed_remote_stage_command : Value → Result String
fixed_remote_stage_command id = with_id " --stage-request " (require_request_id id)

-- The functions of node:path/posix that the scope is computed with.
pub record PosixPaths : Type 0 where
  pub is_absolute : String → Bool
  pub normalize : String → String
  pub join : String → String → String
  pub relative : String → String → String

pub record Scope : Type 0 where
  pub enrolled_root : String
  pub scan_target : String

-- Whether a relative path leads out of the directory it starts in.
abbrev pub leads_out : PosixPaths → String → Bool
leads_out p path = str_eq path ".." || starts_with path "../" || p.is_absolute path

-- `normalizeScanScope`.
unfoldable pub normalize_scan_scope :
    PosixPaths → (enrolled_root scan_target : String) → Result Scope
normalize_scan_scope p enrolled_root scan_target =
    if not (p.is_absolute enrolled_root)
    then fails "SSH execution context enrolled root must be absolute"
    else let root = p.normalize enrolled_root in
      let target =
        if p.is_absolute scan_target
        then p.normalize scan_target
        else p.normalize (p.join root scan_target) in
      if leads_out p (p.relative root target)
      then fails "SSH scan target is outside enrolled root"
      else gives (record { enrolled_root = root; scan_target = target })
