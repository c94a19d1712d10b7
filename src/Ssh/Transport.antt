-- ===== src/Ssh/Transport.antt =====
-- workers/worker-node/src/sshExecutor.js: the commands of the transport as machines that the
-- events of the connection drive: the run of a scan, the staging of a request, a cancellation.
pub mod Laws
use Prim.Native.String.{◌++◌, len}
use shore_sentinel_app.Base.{
  ℕ, ◌+◌, String, Bool, true, false, not, ◌&&◌, ◌||◌, Option, none, some, List, [], ◌∷◌, one_of,
  str_eq, ltb, ◌==◌, if◌then◌else◌,
}

-- The byte limits of the two streams.
pub record Caps : Type 0 where
  pub max_output_bytes : ℕ
  pub max_stderr_bytes : ℕ

-- What the promise of `run` has come to.
pub data Settlement : Type 0 where
  pending : Settlement
  resolved : (stdout stderr : String) → Settlement
  rejected : String → Settlement

-- The variables of `run`, and how often it ended the connection.
pub record RunState : Type 0 where
  pub stdout : String
  pub stderr : String
  pub stdout_bytes : ℕ
  pub stderr_bytes : ℕ
  pub settlement : Settlement
  pub ended : ℕ

-- A chunk: its bytes, and the text that the stream's decoder makes of it, `none` where it throws.
pub record Chunk : Type 0 where
  pub bytes : ℕ
  pub decoded : Option String

-- What may happen while a run is waited for. `closed` brings the exit code, and what the decoders
-- return when they are flushed, `none` where one throws.
pub data RunEvent : Type 0 where
  output : Chunk → RunEvent
  errors : Chunk → RunEvent
  closed : (exit_code : Option ℕ) (flushed : Option (String × String)) → RunEvent
  not_started : String → RunEvent
  timed_out aborted : RunEvent

abbrev pub is_settled : Settlement → Bool
is_settled pending = false
is_settled _ = true

-- `finish`: with an error, and with a result.
abbrev pub finish_error : String → RunState → RunState
finish_error error s =
    if is_settled s.settlement
    then s
    else record s { settlement = rejected error; ended = s.ended + 1 }

abbrev pub finish_result : RunState → RunState
finish_result s =
    if is_settled s.settlement then s else record s { settlement = resolved s.stdout s.stderr }

abbrev pub append_output : Caps → Chunk → RunState → RunState
append_output caps chunk s =
    if is_settled s.settlement
    then s
    else let counted : RunState = record s { stdout_bytes = s.stdout_bytes + chunk.bytes } in
      if ltb caps.max_output_bytes counted.stdout_bytes
      then finish_error "SSH remote stdout exceeded configured byte limit" counted
      else elim chunk.decoded [
        | none ↦ finish_error "SSH remote stdout contained invalid UTF-8" counted
        | some text ↦ record counted { stdout = counted.stdout ++ text }
      ]

abbrev pub append_errors : Caps → Chunk → RunState → RunState
append_errors caps chunk s =
    if is_settled s.settlement
    then s
    else let counted : RunState = record s { stderr_bytes = s.stderr_bytes + chunk.bytes } in
      if ltb caps.max_stderr_bytes counted.stderr_bytes
      then finish_error "SSH remote stderr exceeded configured byte limit" counted
      else elim chunk.decoded [
        | none ↦ finish_error "SSH remote stderr contained invalid UTF-8" counted
        | some text ↦ record counted { stderr = counted.stderr ++ text }
      ]

-- `exitCode === 0`, where the code may be null.
abbrev pub is_zero : Option ℕ → Bool
is_zero (some n) = n == 0
is_zero none = false

-- The handler of `close`, for the text that a template makes of the exit code; the decoders are flushed for an exit code of 0 only.
abbrev pub close_run :
    (Option ℕ → String) → Option ℕ → Option (String × String) → RunState → RunState
close_run exit_text exit_code flushed s =
    if not (is_zero exit_code)
    then finish_error ("SSH remote runner exited with " ++ exit_text exit_code) s
    else elim flushed [
      | none ↦ finish_error "SSH remote stdout contained invalid UTF-8" s
      | some (out, err) ↦
          finish_result (record s { stdout = s.stdout ++ out; stderr = s.stderr ++ err })
    ]

-- One event of `run`.
unfoldable pub run_step : (Option ℕ → String) → Caps → RunEvent → RunState → RunState
run_step exit_text caps (output chunk) s = append_output caps chunk s
run_step exit_text caps (errors chunk) s = append_errors caps chunk s
run_step exit_text caps (closed exit_code flushed) s = close_run exit_text exit_code flushed s
run_step exit_text caps (not_started error) s = finish_error error s
run_step exit_text caps timed_out s = finish_error "SSH remote runner timed out" s
run_step exit_text caps aborted s = finish_error "SSH remote runner aborted" s

abbrev pub run_start : RunState
run_start = record {
  stdout = "";
  stderr = "";
  stdout_bytes = 0;
  stderr_bytes = 0;
  settlement = pending;
  ended = 0;
}

-- `run`, over the events in their order.
unfoldable pub run : (Option ℕ → String) → Caps → List RunEvent → RunState → RunState
run exit_text caps [] s = s
run exit_text caps (e ∷ es) s = run exit_text caps es (run_step exit_text caps e s)

-- `REMOTE_CANCELLATION_STATUSES`.
abbrev pub remote_cancellation_statuses : List String
remote_cancellation_statuses = "CANCELLED" ∷ "NOT_RUNNING" ∷ "COMPLETED" ∷ []

pub record CancelState : Type 0 where
  pub stdout : String
  pub settlement : Settlement

pub data CancelEvent : Type 0 where
  answered : String → CancelEvent
  finished : (exit_code : Option ℕ) → CancelEvent
  refused expired : CancelEvent

abbrev pub finish_cancel : Settlement → CancelState → CancelState
finish_cancel r s = if is_settled s.settlement then s else record s { settlement = r }

abbrev pub unavailable : Settlement
unavailable = rejected "SSH remote cancellation unavailable"

abbrev pub answer_cancel : String → CancelState → CancelState
answer_cancel chunk s =
    if is_settled s.settlement
    then s
    else let grown : CancelState = record s { stdout = s.stdout ++ chunk } in
      if ltb 64 (len grown.stdout) then finish_cancel unavailable grown else grown

abbrev pub close_cancel : (String → String) → Option ℕ → CancelState → CancelState
close_cancel trim exit_code s =
    if is_zero exit_code && one_of remote_cancellation_statuses (trim s.stdout)
    then finish_cancel (resolved (trim s.stdout) "") s
    else finish_cancel unavailable s

-- One event of `runFixedCancellationCommand`, for the runtime's `trim`.
unfoldable pub cancel_step : (String → String) → CancelEvent → CancelState → CancelState
cancel_step trim (answered chunk) s = answer_cancel chunk s
cancel_step trim (finished exit_code) s = close_cancel trim exit_code s
cancel_step trim refused s = finish_cancel unavailable s
cancel_step trim expired s = finish_cancel (rejected "SSH remote cancellation timed out") s

abbrev pub cancel_start : CancelState
cancel_start = record { stdout = ""; settlement = pending }

unfoldable pub run_cancel : (String → String) → List CancelEvent → CancelState → CancelState
run_cancel trim [] s = s
run_cancel trim (e ∷ es) s = run_cancel trim es (cancel_step trim e s)
