-- ===== src/Ssh/Staging.antt =====
-- workers/worker-node/src/sshExecutor.js: the staging of a request on a machine, and the bounded
-- wait for a cancellation, as machines that events drive.
pub mod Laws
use shore_sentinel_app.Base.{
  ℕ, ◌+◌, String, Bool, true, false, Option, none, some, List, [], ◌∷◌, ◌==◌, if◌then◌else◌,
}

-- What a promise has come to: nothing yet, a result of a type, or an error.
pub data Promised (A : Type 0) : Type 0 where
  waiting : Promised A
  fulfilled : A → Promised A
  refused : String → Promised A

-- The promise of `stageFixedJson`, and how often the connection was ended.
pub record StageState : Type 0 where
  pub promise : Promised (Unit {0})
  pub ended : ℕ

-- What may happen to it: the timer, an error of `exec`, one of the stream, an error thrown on
-- writing the payload, and the end of the command with its exit code.
pub data StageEvent : Type 0 where
  late unavailable broken unwritten : StageEvent
  finished : (exit_code : Option ℕ) → StageEvent

-- `finish`, with an error and without one.
abbrev pub refuse_stage : String → StageState → StageState
refuse_stage error s = elim s.promise [
  | waiting ↦ record { promise = refused error; ended = s.ended + 1 }
  | fulfilled u ↦ s
  | refused e ↦ s
]

abbrev pub accept_stage : StageState → StageState
accept_stage s = elim s.promise [
  | waiting ↦ record s { promise = fulfilled tt }
  | fulfilled u ↦ s
  | refused e ↦ s
]

abbrev pub close_stage : Option ℕ → StageState → StageState
close_stage none s = refuse_stage "SSH remote request staging rejected" s
close_stage (some code) s =
    if code == 0 then accept_stage s else refuse_stage "SSH remote request staging rejected" s

-- One event of `stageFixedJson`.
unfoldable pub stage_step : StageEvent → StageState → StageState
stage_step late s = refuse_stage "SSH remote request staging timed out" s
stage_step unavailable s = refuse_stage "SSH remote request staging unavailable" s
stage_step broken s = refuse_stage "SSH remote request staging unavailable" s
stage_step unwritten s = refuse_stage "SSH remote request staging unavailable" s
stage_step (finished exit_code) s = close_stage exit_code s

-- `stageFixedJson`, over the events in their order.
unfoldable pub stage : List StageEvent → StageState → StageState
stage [] s = s
stage (e ∷ es) s = stage es (stage_step e s)

abbrev pub stage_start : StageState
stage_start = record { promise = waiting; ended = 0 }

-- What may happen to `boundedRemoteCancellation`: its timer, and the transport's answer.
pub data BudgetEvent (A : Type 0) : Type 0 where
  over : BudgetEvent A
  told : A → BudgetEvent A
  not_told : BudgetEvent A

-- One event of `boundedRemoteCancellation`.
unfoldable pub budget_step : {A : Type 0} → BudgetEvent A → Promised A → Promised A
budget_step over waiting = refused "SSH remote cancellation timed out"
budget_step (told a) waiting = fulfilled a
budget_step not_told waiting = refused "SSH remote cancellation unavailable"
budget_step _ (fulfilled a) = fulfilled a
budget_step _ (refused e) = refused e
