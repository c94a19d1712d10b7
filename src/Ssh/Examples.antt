-- ===== src/Ssh/Examples.antt =====
-- The connection to a machine at concrete inputs (workers/worker-node/src/sshExecutor.js).
use Prim.Native.String.{◌++◌}
use shore_sentinel_app.Base.{
  ℕ, String, Bool, true, ◌||◌, ◌≡◌, refl, ◌++◌ as append, Option, some, List, [], ◌∷◌, str_eq,
  gives,
}
use shore_sentinel_app.Value.{Value, num, str, obj, end, field, get, text_of, whole, pos}
use shore_sentinel_app.Ssh.Cidr.{
  resolved, resolve_permitted_ipv4, parse_permitted_cidr, parse_cidrs, permitted_ipv4_address,
  ipv4_to_uint32,
}
use shore_sentinel_app.Ssh.Cidr.Laws.{IsPermitted, resolve_permitted_ipv4-IsPermitted}
use shore_sentinel_app.Ssh.Transport.{
  Caps, RunEvent, output, closed, timed_out, is_settled, run_step, run_start, run,
}
use shore_sentinel_app.Ssh.Transport.Laws.{IsSound, run-IsSound, run_settles_once}
use shore_sentinel_app.Ssh.Staging.{late, finished, stage, stage_start}
use shore_sentinel_app.Ssh.Staging.Laws.{IsOrderly, stage-IsOrderly}
use shore_sentinel_app.Ssh.Context.{
  is_request_id, require_request_id, fixed_remote_cancellation_command,
}
use shore_sentinel_app.Ssh.Context.Laws.{
  cancellation, command_of, IsFixedCommand, fixed_remote_command-IsFixedCommand,
}

-- A test of addresses that knows two.
abbrev is_known : String → Bool
is_known s = str_eq s "10.0.3.7" || str_eq s "10.0.0.0"

abbrev looked_up : Value
looked_up = obj (field "address" (str "10.0.3.7") (field "family" (num (whole (pos 4))) end))

connected :
    resolve_permitted_ipv4 is_known (resolved looked_up) (str "10.0.0.0/16" ∷ []) ≡ gives "10.0.3.7"
unfolding resolve_permitted_ipv4 permitted_ipv4_address parse_cidrs parse_permitted_cidr
    ipv4_to_uint32
connected = refl

resolve_permitted_ipv4-IsPermitted_example :
    (is_known "10.0.3.7" ≡ true)
    × IsPermitted is_known "10.0.3.7" (str "10.0.0.0/16" ∷ [])
    × (text_of (get "address" looked_up) ≡ "10.0.3.7")
resolve_permitted_ipv4-IsPermitted_example =
    resolve_permitted_ipv4-IsPermitted is_known looked_up (str "10.0.0.0/16" ∷ []) "10.0.3.7"
      connected

abbrev caps : Caps
caps = record { max_output_bytes = 4; max_stderr_bytes = 4 }

abbrev exit_text : Option ℕ → String
exit_text code = "0"

abbrev events : List RunEvent
events = output (record { bytes = 2; decoded = some "{}" }) ∷ closed (some 0) (some ("", "")) ∷ []

run-IsSound_example : IsSound caps (run exit_text caps events run_start)
run-IsSound_example = run-IsSound exit_text caps events

settled : is_settled (run exit_text caps events run_start).settlement ≡ true
unfolding run run_step
settled = refl

run_settles_once_example :
    (run exit_text caps (append events (timed_out ∷ [])) run_start).settlement
    ≡ (run exit_text caps events run_start).settlement
run_settles_once_example = run_settles_once exit_text caps events (timed_out ∷ []) settled

abbrev id : String
id = "0f8fad5b-d9cb-469f-a165-70867728950e"

accepted :
    command_of cancellation (str id)
    ≡ gives (
        "/usr/local/lib/shore-sentinel/run-scan --cancel-request "
        ++ "0f8fad5b-d9cb-469f-a165-70867728950e")
unfolding fixed_remote_cancellation_command require_request_id is_request_id
accepted = refl

fixed_remote_command-IsFixedCommand_example : IsFixedCommand cancellation (str id) (
    "/usr/local/lib/shore-sentinel/run-scan --cancel-request "
    ++ "0f8fad5b-d9cb-469f-a165-70867728950e")
fixed_remote_command-IsFixedCommand_example =
    fixed_remote_command-IsFixedCommand cancellation (str id)
      ("/usr/local/lib/shore-sentinel/run-scan --cancel-request "
        ++ "0f8fad5b-d9cb-469f-a165-70867728950e")
      accepted

stage-IsOrderly_example : IsOrderly (stage (late ∷ finished (some 0) ∷ []) stage_start)
stage-IsOrderly_example = stage-IsOrderly (late ∷ finished (some 0) ∷ [])
