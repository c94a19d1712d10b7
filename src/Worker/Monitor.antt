-- ===== src/Worker/Monitor.antt =====
-- monitorCancellation of workers/worker-node/src/managedSshProcessor.js: the control reads that go on
-- while the scan runs on the machine, and the scan itself.
pub mod Rules
use shore_sentinel_app.Base.{
  ℕ, zero, suc, String, Bool, true, false, not, ◌||◌, Option, none, some, List, if◌then◌else◌,
}
use shore_sentinel_app.Value.{Value, str, get, truthy}
use shore_sentinel_app.Worker.Exec.{
  Call, start_monitor, monitor_read, execute, Settled, resolved, rejected, World, Session, returned,
  thrown, Exec, record_call, valid_timeout, settled,
}

-- Whether `poll` aborts after its control read: a cancellation, an error, and a timeout do.
abbrev pub aborts : Option Settled → Bool
aborts (some (resolved control)) = truthy (get "cancelled" control)
aborts (some (rejected e)) = true
aborts none = true

-- The wait of the machine's scan, with the result of `execute` in the end.
module _ (w : World) (lifecycle_timeout_ms : ℕ) (run_id : String) where
  -- Whether one read aborts; `withTimeout` also throws for a timeout that it refuses.
  abbrev pub read_aborts : Session → Bool
  read_aborts s =
      not (valid_timeout lifecycle_timeout_ms) || aborts (w.answer s.log (monitor_read run_id))

  -- The reads of `poll` that follow when its timer fires so many times before it is stopped.
  unfoldable pub poll : ℕ → Session → Session
  poll zero s = s
  poll (suc n) s =
      let asked = record_call (monitor_read run_id) s in
      let rest = poll n asked in if read_aborts s then asked else rest

  -- The call of `monitorCancellation`: its check, and the first read, which is made at once. The
  -- result says whether that read aborts.
  unfoldable pub start_monitoring : ℕ → Exec Bool
  start_monitoring interval_ms s =
      if valid_timeout interval_ms
      then returned (read_aborts (record_call (start_monitor run_id) s))
          (record_call (monitor_read run_id) (record_call (start_monitor run_id) s))
      else thrown "SSH cancellation poll interval must be a positive integer" s

  -- The call of `execute`, the reads until it settles, and how it settles. It may settle in any way
  -- after an abort, and a read may still be under way when it settles.
  unfoldable pub execute_monitored : Bool → Value → Exec Value
  execute_monitored aborted grant s =
      let called = record_call (execute grant) s in
      let watched = if aborted then called else poll (w.polls called.log) called in
      settled (w.settle watched.log (execute grant)) watched
