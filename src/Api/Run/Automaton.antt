-- ===== src/Api/Run/Automaton.antt =====
-- The contract of a run: an automaton of its status and its attempt, which forgets the job, the
-- grants, the events and all else of the rows of api/src.
pub mod Refines
pub mod Ranked
use shore_sentinel_app.Base.{ℕ, suc, ◌+◌, ◌-◌, ◌*◌, ◌<◌, ◌≡◌, Bool, true, false}
use shore_sentinel_app.Api.Run.{
  Status, pending, queued, leased, running, completed, failed, stale, cancelled, is_started,
  is_active_run, is_pending, is_finished, Store,
}

-- What the contract sees of the rows: the status of the run, the number of its attempt, and the
-- greatest number of an attempt.
abbrev pub View : Type 0
View = Status × ℕ × ℕ

abbrev pub view : Store → View
view s = (s.run_status, suc s.retry_count, s.retry_max_attempts)

pub data Move : View → View → Type 0 where
  claim :
      (from : Status) (n max : ℕ) → is_pending from ≡ true → Move (from, n, max) (leased, n, max)
  work : (n max : ℕ) → Move (leased, n, max) (running, n, max)
  finish :
      (from to : Status) (n max : ℕ)
      → is_started from ≡ true
      → is_finished to ≡ true
      → Move (from, n, max) (to, n, max)
  retry :
      (from : Status) (n max : ℕ)
      → is_active_run from ≡ true
      → n < max
      → Move (from, n, max) (pending, suc n, max)
  withdraw :
      (from : Status) (n max : ℕ)
      → is_active_run from ≡ true
      → Move (from, n, max) (cancelled, n, max)

-- The statuses that an attempt may still go through.
abbrev pub stages_left : Status → ℕ
stages_left pending = 3
stages_left leased = 2
stages_left running = 1
stages_left _ = 0

-- How many moves a run has left.
abbrev pub moves_left : View → ℕ
moves_left (st, n, max) = elim (is_active_run st) [
  | true ↦ 4 * (max - n) + stages_left st
  | false ↦ 0
]
