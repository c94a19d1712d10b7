-- ===== src/Worker/Monitor/Rules.antt =====
-- The monitor of managedSshProcessor.js (workers/worker-node/src) in the progress of a job: its reads
-- report and store nothing, and none follows a read that ends it.
use shore_sentinel_app.Base.{
  ℕ, zero, suc, String, Bool, true, false, ◌||◌, ◌≡◌, refl, ◌∙◌, Option, none, some, List, ◌∷◌,
  Bool-cases, inl, inr,
}
use shore_sentinel_app.Value.{Value}
use shore_sentinel_app.Worker.Exec.{
  start_monitor, monitor_read, execute, Settled, resolved, rejected, World, FailureState, Session,
  record_call, valid_timeout,
}
use shore_sentinel_app.Worker.Exec.Triple.{Triple, settled-Post}
use shore_sentinel_app.Worker.Control.Rules.{
  Milestone, ends_monitor, has_ended, IsPartial, Reached, Ended, Reached-Ended,
  Reached-record_quiet,
}
use shore_sentinel_app.Worker.Monitor.{
  aborts, read_aborts, poll, start_monitoring, execute_monitored,
}

aborts_ends : (o : Option Settled) → ends_monitor o ≡ aborts o
aborts_ends none = refl
aborts_ends (some (resolved v)) = refl
aborts_ends (some (rejected e)) = refl

or_false_right : (a b : Bool) → (a || b) ≡ false → b ≡ false
or_false_right true b h = cc h
or_false_right false b h = h

or_false : (a b : Bool) → a ≡ false → b ≡ false → (a || b) ≡ false
or_false true b h e = cc h
or_false false b h e = e

module _ (w : World) (timeout_ms : ℕ) (run_id : String) where
  -- A read that does not abort leaves the monitor going.
  goes_on :
      (s : Session)
      → read_aborts w timeout_ms run_id s ≡ false
      → has_ended w s.log ≡ false
      → has_ended w (monitor_read run_id ∷ s.log) ≡ false
  goes_on s going h =
      or_false _ _ (aborts_ends (w.answer s.log (monitor_read run_id)) ∙ or_false_right _ _ going) h

  module _ (capability of_run : String) (attempt : ℕ) (full : List Milestone) (state : FailureState)
      (done : List Milestone) where
    abbrev At : Session → Type 0
    At = Reached w capability of_run attempt full state done

    read-At :
        (s : Session) → has_ended w s.log ≡ false → At s → At (record_call (monitor_read run_id) s)
    read-At s going h = record {
      exactly = h.exactly;
      active = (refl, h.active);
      watched = (going, h.watched);
      scoped = (tt, h.scoped);
      unchanged = h.unchanged;
    }

    poll-At :
        (n : ℕ) (s : Session) → has_ended w s.log ≡ false → At s → At (poll w timeout_ms run_id n s)
    unfolding poll
    poll-At zero s going h = h
    poll-At (suc n) s going h =
        let asked = read-At s going h in
        elim (Bool-cases (read_aborts w timeout_ms run_id s)) [
          | inl ends ↦ rw ends asked
          | inr on ↦
              rw on (poll-At n (record_call (monitor_read run_id) s) (goes_on s on going) asked)
        ]

    -- After the first read: whether it ended the monitor is known.
    abbrev pub Watching : Bool → Session → Type 0
    Watching aborted s = At s × (aborted ≡ false → has_ended w s.log ≡ false)

    pub start_monitoring-Watching :
        (interval_ms : ℕ)
        → IsPartial full done
        → Triple At
            (start_monitoring w timeout_ms run_id interval_ms)
            Watching
            (Ended w capability of_run attempt full state)
    unfolding start_monitoring
    start_monitoring-Watching interval_ms p = record {
      at = λ s h. elim (Bool-cases (valid_timeout interval_ms)) [
        | inl valid ↦
            let started = record_call (start_monitor run_id) s in
            let begun =
              Reached-record_quiet w capability of_run attempt full state (start_monitor run_id)
                done s refl h in
            rw valid (read-At started refl begun, λ on. goes_on started on refl)
        | inr invalid ↦ rw invalid (Reached-Ended w capability of_run attempt full state done s p h)
      ];
    }

    pub execute_monitored-At :
        (aborted : Bool) (grant : Value)
        → IsPartial full done
        → Triple
            (Watching aborted)
            (execute_monitored w timeout_ms run_id aborted grant)
            (λ _. At)
            (Ended w capability of_run attempt full state)
    unfolding execute_monitored
    execute_monitored-At true grant p = record {
      at = λ s h.
          let called =
            Reached-record_quiet w capability of_run attempt full state (execute grant) done s refl
              h.0 in
          settled-Post (λ _. At) (Ended w capability of_run attempt full state) _ _ (λ v _. called)
            (Reached-Ended w capability of_run attempt full state done _ p called);
    }
    execute_monitored-At false grant p = record {
      at = λ s h.
          let called =
            Reached-record_quiet w capability of_run attempt full state (execute grant) done s refl
              h.0 in
          let polled =
            poll-At (w.polls (execute grant ∷ s.log)) (record_call (execute grant) s) (h.1 refl)
              called in
          settled-Post (λ _. At) (Ended w capability of_run attempt full state) _ _ (λ v _. polled)
            (Reached-Ended w capability of_run attempt full state done _ p polled);
    }
