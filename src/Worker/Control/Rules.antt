-- ===== src/Worker/Control/Rules.antt =====
-- What the calls of a job leave in the log: the milestones they report and store, whose
-- capability they carry, and whether a cancellation was seen (managedSshProcessor.js).
use mathlib.Core.List.{append_assoc}
use shore_sentinel_app.Base.{
  ℕ, String, Bool, true, false, not, ◌&&◌, ◌||◌, ◌≡◌, refl, ◌∙◌, ap, Option, some, none, List, [],
  ◌∷◌, ◌++◌, All, arith,
}
use shore_sentinel_app.Value.{Value, str, get, truthy}
use shore_sentinel_app.Shared.{
  RunEvent, RunEventType, event_text, JobStatus, status_text, Built, built, refused,
  build_run_event,
}
use shore_sentinel_app.Runtime.{Runtime}
use shore_sentinel_app.Worker.Exec.{
  Artifact, Call, get_run_control, fetch_ssh_grant, emit_run_event, upload_artifact, start_monitor,
  monitor_read, Settled, resolved, rejected, World, FailureState, Session, Exec, throw, require,
  call, with_timeout, record_call,
}
use shore_sentinel_app.Worker.Exec.Triple.{
  Post, Triple, Triple-bind, Triple-pure, bind-Post, with_timeout-Post, call-Post,
}
use shore_sentinel_app.Worker.Control.{Job, assert_active, emit, send}

-- What the API records of a job: an event of some type, or an artifact of some kind.
pub data Milestone : Type 0 where
  reported : String → Milestone
  stored : String → Milestone

-- The milestones of a log, newest first.
abbrev pub milestones : List Call → List Milestone
milestones [] = []
milestones (emit_run_event e capability ∷ log) = reported e.type ∷ milestones log
milestones (upload_artifact a capability ∷ log) = stored a.kind ∷ milestones log
milestones (_ ∷ log) = milestones log

-- A write is made under a capability, for one attempt of one run.
abbrev pub IsScoped : String → String → ℕ → Call → Type 0
IsScoped capability run_id attempt (emit_run_event e c) =
    (c ≡ capability) × (e.run_id ≡ run_id) × (e.attempt ≡ attempt)
IsScoped capability run_id attempt (upload_artifact a c) =
    (c ≡ capability) × (a.run_id ≡ run_id) × (a.attempt ≡ attempt)
IsScoped capability run_id attempt _ = Unit

abbrev cancelled_reply : Option Settled → Bool
cancelled_reply (some (resolved v)) = truthy (get "cancelled" v)
cancelled_reply (some (rejected e)) = false
cancelled_reply none = false

abbrev reads_control : Call → Bool
reads_control (get_run_control v) = true
reads_control _ = false

-- No control read of `assertActive` in the log was answered with a cancellation.
abbrev pub IsActive : World → List Call → Type 0
IsActive w [] = Unit
IsActive w (c ∷ log) =
    ((reads_control c && cancelled_reply (w.answer log c)) ≡ false) × IsActive w log

-- None but the newest.
abbrev pub StopsAtCancel : World → List Call → Type 0
StopsAtCancel w [] = Unit
StopsAtCancel w (c ∷ log) = IsActive w log

pub StopsAtCancel-of_IsActive : (w : World) (log : List Call) → IsActive w log → StopsAtCancel w log
StopsAtCancel-of_IsActive w [] h = h
StopsAtCancel-of_IsActive w (c ∷ log) h = h.1

-- A read that ends the monitor: a cancellation, an error, or no answer in time.
abbrev pub ends_monitor : Option Settled → Bool
ends_monitor (some (resolved v)) = truthy (get "cancelled" v)
ends_monitor (some (rejected e)) = true
ends_monitor none = true

-- Whether the monitor that was started last has made such a read.
abbrev pub has_ended : World → List Call → Bool
has_ended w [] = false
has_ended w (start_monitor run ∷ log) = false
has_ended w (monitor_read run ∷ log) =
    ends_monitor (w.answer log (monitor_read run)) || has_ended w log
has_ended w (_ ∷ log) = has_ended w log

abbrev pub polls_control : Call → Bool
polls_control (monitor_read run) = true
polls_control _ = false

-- No monitor reads again after a read that ends it.
abbrev pub IsWatched : World → List Call → Type 0
IsWatched w [] = Unit
IsWatched w (c ∷ log) = ((polls_control c && has_ended w log) ≡ false) × IsWatched w log

-- A call that is neither a write nor a read of the control.
abbrev pub is_quiet : Call → Bool
is_quiet (emit_run_event e c) = false
is_quiet (upload_artifact a c) = false
is_quiet (get_run_control v) = false
is_quiet (monitor_read run) = false
is_quiet _ = true

-- What is known of the events that a job builds.
abbrev BuiltAs : String → String → ℕ → Built → Type 0
BuiltAs run_id type attempt (built e) =
    (e.run_id ≡ run_id) × (e.type ≡ type) × (e.attempt ≡ attempt)
BuiltAs run_id type attempt (refused _) = Unit

build_run_event-BuiltAs :
    (now run_id job_id type status : String) (attempt : ℕ) (message : Option String) (meta : Value)
    → BuiltAs run_id type attempt
        (build_run_event now run_id job_id type status attempt message meta)
unfolding build_run_event
build_run_event-BuiltAs now run_id job_id type status attempt message meta = ground arith

-- What can still be completed.
abbrev pub IsPartial : List Milestone → List Milestone → Type 0
IsPartial full done = (rest : List Milestone) × (rest ++ done ≡ full)

-- The progress of one attempt in one world: `done` are its milestones so far, newest first, and
-- `full` are those of an attempt that ends well.
module _ (w : World) (capability run_id : String) (attempt : ℕ) (full : List Milestone)
    (state : FailureState) where
  pub record Reached (done : List Milestone) (s : Session) : Type 0 where
    pub exactly : milestones s.log ≡ done
    pub active : IsActive w s.log
    pub watched : IsWatched w s.log
    pub scoped : All (IsScoped capability run_id attempt) s.log
    pub unchanged : s.failure_state ≡ state

  pub record Ended (s : Session) : Type 0 where
    pub partial : IsPartial full (milestones s.log)
    pub stops : StopsAtCancel w s.log
    pub watched : IsWatched w s.log
    pub scoped : All (IsScoped capability run_id attempt) s.log
    pub unchanged : s.failure_state ≡ state

  abbrev pub Progress : {A : Type 0} → List Milestone → Exec A → List Milestone → Type 0
  Progress done m done' = Triple (Reached done) m (λ _. Reached done') Ended

  pub IsPartial-tail :
      (m : Milestone) (done : List Milestone) → IsPartial full (m ∷ done) → IsPartial full done
  IsPartial-tail m done (rest, e) = (rest ++ m ∷ [], append_assoc rest (m ∷ []) done ∙ e)

  pub Reached-Ended :
      (done : List Milestone) (s : Session) → IsPartial full done → Reached done s → Ended s
  Reached-Ended done s (rest, e) h = record {
    partial = (rest, ap (λ d. rest ++ d) h.exactly ∙ e);
    stops = StopsAtCancel-of_IsActive w s.log h.active;
    watched = h.watched;
    scoped = h.scoped;
    unchanged = h.unchanged;
  }

  pub Reached-record_quiet :
      (c : Call) (done : List Milestone) (s : Session)
      → is_quiet c ≡ true
      → Reached done s
      → Reached done (record_call c s)
  Reached-record_quiet (emit_run_event e c) done s q h = cc
  Reached-record_quiet (upload_artifact a c) done s q h = cc
  Reached-record_quiet (get_run_control v) done s q h = cc
  Reached-record_quiet (monitor_read run) done s q h = cc
  Reached-record_quiet (fetch_ssh_grant r t n) done s q h = record {
    exactly = h.exactly;
    active = (refl, h.active);
    watched = (refl, h.watched);
    scoped = (tt, h.scoped);
    unchanged = h.unchanged;
  }
  Reached-record_quiet _ done s q h = record {
    exactly = h.exactly;
    active = (refl, h.active);
    watched = (refl, h.watched);
    scoped = (tt, h.scoped);
    unchanged = h.unchanged;
  }

  module _ (rt : Runtime) where
    pub Progress-quiet :
        (c : Call) (timeout_ms : ℕ) (label : String) (done : List Milestone)
        → is_quiet c ≡ true
        → IsPartial full done
        → Progress done (with_timeout rt w c timeout_ms label) done
    Progress-quiet c timeout_ms label done q p = record {
      at = λ s h.
          let after = Reached-record_quiet c done s q h in
          with_timeout-Post _ _ rt w c timeout_ms label s (λ v e. after)
            (Reached-Ended done _ p after);
    }

    pub Progress-call :
        (c : Call) (done : List Milestone)
        → is_quiet c ≡ true
        → IsPartial full done
        → Progress done (call rt w c) done
    Progress-call c done q p = record {
      at = λ s h.
          let after = Reached-record_quiet c done s q h in
          call-Post _ _ rt w c s (λ v. after) (Reached-Ended done _ p after);
    }

    pub Progress-require :
        (b : Bool) (e : String) (done : List Milestone)
        → IsPartial full done
        → Progress done (require b e) done
    unfolding require
    Progress-require true e done p = record { at = λ s h. h }
    Progress-require false e done p = record { at = λ s h. Reached-Ended done s p h }

    -- After a control read that was answered with `v`.
    record Asked (done : List Milestone) (v : Value) (s : Session) : Type 0 where
      stopped : Ended s
      exactly : milestones s.log ≡ done
      going : truthy (get "cancelled" v) ≡ false → IsActive w s.log

    ask_stopped :
        (run : String) (done : List Milestone) (s : Session)
        → IsPartial full done
        → Reached done s
        → Ended (record_call (get_run_control (str run)) s)
    ask_stopped run done s p h = record {
      partial = (Reached-Ended done s p h).partial;
      stops = h.active;
      watched = (refl, h.watched);
      scoped = (tt, h.scoped);
      unchanged = h.unchanged;
    }

    ask_Asked :
        (run : String) (done : List Milestone) (s : Session) (v : Value)
        → IsPartial full done
        → Reached done s
        → w.answer s.log (get_run_control (str run)) ≡ some (resolved v)
        → Asked done v (record_call (get_run_control (str run)) s)
    ask_Asked run done s v p h answered = record {
      stopped = ask_stopped run done s p h;
      exactly = h.exactly;
      going = λ g. (ap cancelled_reply answered ∙ g, h.active);
    }

    require_going :
        (b : Bool) (e : String) (done : List Milestone) (v : Value)
        → truthy (get "cancelled" v) ≡ b
        → Triple (Asked done v) (require (not b) e) (λ _. Reached done) Ended
    unfolding require
    require_going true e done v h = record { at = λ s a. a.stopped }
    require_going false e done v h = record {
      at = λ s a. record {
        exactly = a.exactly;
        active = a.going h;
        watched = a.stopped.watched;
        scoped = a.stopped.scoped;
        unchanged = a.stopped.unchanged;
      };
    }

    -- `assertActive` returns only if its control read shows no cancellation.
    pub Progress-active :
        (timeout_ms : ℕ) (run : String) (done : List Milestone)
        → IsPartial full done
        → Progress done (assert_active rt w timeout_ms run) done
    unfolding assert_active
    Progress-active timeout_ms run done p =
        Triple-bind _ _
          (record {
            at = λ s h.
                with_timeout-Post (Asked done) Ended rt w (get_run_control (str run)) timeout_ms _ s
                  (λ v answered. ask_Asked run done s v p h answered) (ask_stopped run done s p h);
          })
          (λ v. require_going _ _ done v refl)

    record_event :
        (e : RunEvent) (type : String) (done : List Milestone) (s : Session)
        → BuiltAs run_id type attempt (built e)
        → Reached done s
        → Reached (reported type ∷ done) (record_call (emit_run_event e capability) s)
    record_event e type done s (same_run, same_type, same_attempt) h = record {
      exactly = cc (h.exactly, same_type);
      active = (refl, h.active);
      watched = (refl, h.watched);
      scoped = ((refl, same_run, same_attempt), h.scoped);
      unchanged = h.unchanged;
    }

    send_Progress :
        (timeout_ms : ℕ) (type : String) (done : List Milestone) (b : Built) (s : Session)
        → IsPartial full done
        → IsPartial full (reported type ∷ done)
        → BuiltAs run_id type attempt b
        → Reached done s
        → Post (λ _. Reached (reported type ∷ done)) Ended (send rt w timeout_ms b capability s)
    unfolding throw
    send_Progress timeout_ms type done (built e) s p p' known h =
        let after = record_event e type done s known h in
        with_timeout-Post _ _ rt w _ timeout_ms _ s (λ v _. after) (Reached-Ended _ _ p' after)
    send_Progress timeout_ms type done (refused e) s p p' known h = Reached-Ended done s p h

    -- `emit` reports one event, or throws before or after it was reported.
    pub Progress-emit :
        (timeout_ms : ℕ) (job : Job) (type : RunEventType) (status : JobStatus) (message : String)
        (metadata : Value) (done : List Milestone)
        → IsPartial full (reported (event_text type) ∷ done)
        → Progress done
            (emit rt w timeout_ms job run_id capability attempt type status message metadata)
            (reported (event_text type) ∷ done)
    unfolding emit
    Progress-emit timeout_ms job type status message metadata done p = record {
      at = λ s h.
          bind-Post _ _ s
            (send_Progress timeout_ms (event_text type) done _ s (IsPartial-tail _ done p) p
              (build_run_event-BuiltAs _ run_id job.id (event_text type) (status_text status)
                attempt (some message) metadata)
              h)
            (λ _. Triple-pure tt);
    }

    -- An upload stores one artifact, or throws after the call.
    pub Progress-store :
        (timeout_ms : ℕ) (label : String) (a : Artifact) (done : List Milestone)
        → a.run_id ≡ run_id
        → a.attempt ≡ attempt
        → IsPartial full (stored a.kind ∷ done)
        → Progress done
            (with_timeout rt w (upload_artifact a capability) timeout_ms label)
            (stored a.kind ∷ done)
    Progress-store timeout_ms label a done same_run same_attempt p = record {
      at = λ s h.
          let after : Reached (stored a.kind ∷ done)
              (record_call (upload_artifact a capability) s) =
            record {
              exactly = ap (λ d. stored a.kind ∷ d) h.exactly;
              active = (refl, h.active);
              watched = (refl, h.watched);
              scoped = ((refl, same_run, same_attempt), h.scoped);
              unchanged = h.unchanged;
            } in
          with_timeout-Post _ _ rt w _ timeout_ms label s (λ v _. after)
            (Reached-Ended _ _ p after);
    }
