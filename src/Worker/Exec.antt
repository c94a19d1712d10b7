-- ===== src/Worker/Exec.antt =====
-- Asynchronous code that calls out and may throw. Each `await` of a call is one entry of a log,
-- newest first, and what comes back is chosen by a `World` that sees the log.
pub mod Triple
use Prim.Native.String.{◌++◌}
use shore_sentinel_app.Base.{
  ℕ, String, Bool, true, false, ◌&&◌, Option, none, some, List, [], ◌∷◌, leb, if◌then◌else◌,
}
use shore_sentinel_app.Value.{Value, max_safe}
use shore_sentinel_app.Shared.{RunEvent}
use shore_sentinel_app.Runtime.{Runtime}

-- The body of an upload, as `artifactUploadPayload` returns it.
pub record Artifact : Type 0 where
  pub run_id : String
  pub attempt : ℕ
  pub kind : String
  pub content_type : String
  pub body_base64 : String
  pub metadata : Value

pub data Call : Type 0 where
  get_run_control : Value → Call
  fetch_ssh_grant : String → String → ℕ → Call
  emit_run_event : RunEvent → String → Call
  upload_artifact : Artifact → String → Call
  start_monitor : String → Call
  -- A control read of the monitor, which is not waited for by the job.
  monitor_read : String → Call
  execute : Value → Call
  parse : String → Value → String → Call
  reconcile_cleanup : String → String → Call
  sleep : ℕ → Call

pub data Settled : Type 0 where
  resolved : Value → Settled
  rejected : String → Settled

pub record World : Type 0 where
  -- How a call settles before the timer of `withTimeout`, given the calls before it; `none` if
  -- the timer is first.
  pub answer : List Call → Call → Option Settled
  -- How a call that no timer bounds settles.
  pub settle : List Call → Call → Settled
  -- How often the monitor's timer fires while the call before is pending.
  pub polls : List Call → ℕ
  -- `new Date().toISOString()`.
  pub now : List Call → String

-- What `emitManagedSshFailure` keeps of a failure between deliveries.
pub record FailureRecord : Type 0 where
  pub max_attempts : ℕ
  pub error : String

-- The object `failureState`. A capability that is not set yet is the empty text.
pub record FailureState : Type 0 where
  pub attempt : Option ℕ
  pub max_attempts : Option ℕ
  pub worker_capability : String
  pub failure : Option FailureRecord

-- `failureState` is one object that the job and the error may both refer to: it stands once, and
-- `on_job` says whether the job's property `managedSshFailure` refers to it.
pub record Session : Type 0 where
  pub log : List Call
  pub failure_state : FailureState
  pub on_job : Bool

pub data Outcome (A : Type 0) : Type 0 where
  returned : A → Session → Outcome A
  thrown : String → Session → Outcome A

abbrev pub Exec : Type 0 → Type 0
Exec A = Session → Outcome A

module _ {A : Type 0} where
  -- The state that a run ends in, either way.
  abbrev pub final : Outcome A → Session
  final (returned a s) = s
  final (thrown e s) = s

  unfoldable pub pure : A → Exec A
  pure a s = returned a s

  unfoldable pub throw : String → Exec A
  throw e s = thrown e s

module _ {A B : Type 0} where
  abbrev continue : Outcome A → (A → Exec B) → Outcome B
  continue (returned a s) f = f a s
  continue (thrown e s) f = thrown e s

  infixl 5 ◌>>=◌ ◌>>◌
  unfoldable pub ◌>>=◌ : Exec A → (A → Exec B) → Exec B
  unfolding pure throw
  ◌>>=◌ m f s = continue (m s) f

  abbrev pub ◌>>◌ : Exec A → Exec B → Exec B
  m >> k = m >>= λ _. k

-- `if (!test) throw new Error(message)`.
unfoldable pub require : Bool → String → Exec (Unit {0})
unfolding pure throw
require true message = pure tt
require false message = throw message

abbrev pub record_call : Call → Session → Session
record_call c s = record s { log = c ∷ s.log }

abbrev pub settled : Settled → Session → Outcome Value
settled (resolved v) s = returned v s
settled (rejected e) s = thrown e s

abbrev raced : String → Option Settled → Session → Outcome Value
raced message (some r) s = settled r s
raced message none s = thrown message s

abbrev pub valid_timeout : ℕ → Bool
valid_timeout n = leb n max_safe && leb 1 n

module _ (rt : Runtime) (w : World) where
  -- A call that nothing bounds.
  unfoldable pub call : Call → Exec Value
  call c s = settled (w.settle s.log c) (record_call c s)

  -- `withTimeout(call, timeoutMs, label)`: the call is made before the budget is looked at.
  unfoldable pub with_timeout : Call → ℕ → String → Exec Value
  with_timeout c timeout_ms label s =
      if valid_timeout timeout_ms
      then raced (label ++ " timed out after " ++ rt.decimal timeout_ms ++ "ms") (w.answer s.log c)
          (record_call c s)
      else thrown (label ++ " timeout must be a positive integer") (record_call c s)
