-- ===== src/Worker/Process/Guarantees.antt =====
-- What a run of processManagedSshJob (workers/worker-node/src/managedSshProcessor.js) leaves behind,
-- whatever the API, the remote machine and the parser answer.
use mathlib.Core.List.{append-nil}
use shore_sentinel_app.Base.{
  ℕ, ◌+◌, String, true, ◌≡◌, refl, sym, ap, ◌∙◌, ◌≢◌, some, none, List, [], ◌∷◌, All, arith,
}
use shore_sentinel_app.Value.{Value, str, get, text_of, nat_of, is_filled_text}
use shore_sentinel_app.Runtime.{Runtime}
use shore_sentinel_app.Worker.Exec.{
  Call, fetch_ssh_grant, emit_run_event, upload_artifact, World, FailureState, Session, Exec,
}
use shore_sentinel_app.Worker.Exec.Triple.{
  Triple, Triple-bind, Triple-pure_bind, Triple-assume, Triple-weaken, Triple-require,
}
use shore_sentinel_app.Worker.Job.{SshJob, normalize_ssh_job}
use shore_sentinel_app.Worker.Control.{Job, grant_accepted, remember_grant}
use shore_sentinel_app.Worker.Control.Rules.{
  Milestone, milestones, IsScoped, IsActive, StopsAtCancel, IsWatched, IsPartial, Reached, Ended,
  Reached-Ended, Progress-quiet, Progress-active,
}
use shore_sentinel_app.Worker.Process.{Budgets, no_failure_state, fresh, scan, process_steps}
use shore_sentinel_app.Worker.Process.Protocol.{full_protocol, At, Over}
use shore_sentinel_app.Worker.Process.Progress.{scan-Goes}

-- A log with no milestone holds no write.
IsScoped-of_no_milestone :
    (capability run_id : String) (attempt : ℕ) (log : List Call)
    → milestones log ≡ []
    → All (IsScoped capability run_id attempt) log
IsScoped-of_no_milestone capability run_id attempt [] e = tt
IsScoped-of_no_milestone capability run_id attempt (emit_run_event v c ∷ log) e = cc
IsScoped-of_no_milestone capability run_id attempt (upload_artifact a c ∷ log) e = cc
IsScoped-of_no_milestone capability run_id attempt (_ ∷ log) e =
    (tt, IsScoped-of_no_milestone capability run_id attempt log e)

none_partial : (done : List Milestone) → IsPartial [] done → done ≡ []
none_partial [] p = refl
none_partial (m ∷ done) ([], e) = cc
none_partial (m ∷ done) (_ ∷ rest, e) = cc

filled_text : (v : Value) → is_filled_text v ≡ true → text_of v ≢ ""
filled_text (str s) h = λ e. cc
filled_text _ h = cc

-- Where a run may stop.
pub record Stopped (w : World) (run_id : String) (attempt : ℕ) (s : Session) : Type 0 where
  pub partial : IsPartial full_protocol (milestones s.log)
  pub stops : StopsAtCancel w s.log
  pub watched : IsWatched w s.log
  pub scoped : All (IsScoped s.failure_state.worker_capability run_id attempt) s.log
  pub unmanaged : s.failure_state.worker_capability ≡ "" → milestones s.log ≡ []

-- Where a run that succeeds ends.
pub record Succeeded (w : World) (run_id : String) (attempt : ℕ) (s : Session) : Type 0 where
  pub every : milestones s.log ≡ full_protocol
  pub active : IsActive w s.log
  pub watched : IsWatched w s.log
  pub scoped : All (IsScoped s.failure_state.worker_capability run_id attempt) s.log

module _ (rt : Runtime) (w : World) (o : Budgets) (job : Job) (ids : SshJob) where
  abbrev pub attempt : ℕ
  attempt = job.attempts_made + 1

  -- Before the grant there are no milestones at all.
  abbrev pub Early : Session → Type 0
  Early = Reached w "" ids.run_id attempt [] no_failure_state []

  early-Stopped :
      (s : Session)
      → Ended w "" ids.run_id attempt [] no_failure_state s
      → Stopped w ids.run_id attempt s
  early-Stopped s h =
      let none_yet = none_partial _ h.partial in
      record {
        partial = (full_protocol, rw none_yet (append-nil full_protocol));
        stops = h.stops;
        watched = h.watched;
        scoped = IsScoped-of_no_milestone _ _ _ s.log none_yet;
        unmanaged = λ _. none_yet;
      }

  -- The object `failureState` once the grant is accepted.
  abbrev granted : Value → FailureState
  granted grant = record {
    attempt = some attempt;
    max_attempts = some (nat_of (get "maxAttempts" grant));
    worker_capability = text_of (get "workerCapability" grant);
    failure = none;
  }

  abbrev Granted : Value → List Milestone → Session → Type 0
  Granted grant =
      At rt w o job (text_of (get "workerCapability" grant)) ids.run_id attempt (granted grant)

  remember-Granted :
      (grant : Value)
      → Triple Early
          (remember_grant attempt grant)
          (λ _. Granted grant [])
          (Stopped w ids.run_id attempt)
  unfolding remember_grant
  remember-Granted grant = record {
    at = λ s h. record {
      exactly = h.exactly;
      active = h.active;
      watched = h.watched;
      scoped = IsScoped-of_no_milestone _ _ _ s.log h.exactly;
      unchanged =
          ap
            (λ (f : FailureState). record f {
              attempt = some attempt;
              max_attempts = some (nat_of (get "maxAttempts" grant));
              worker_capability = text_of (get "workerCapability" grant);
            })
            h.unchanged;
    };
  }

  filled_capability :
      (grant : Value)
      → grant_accepted attempt grant ≡ true
      → text_of (get "workerCapability" grant) ≢ ""
  filled_capability grant h = filled_text (get "workerCapability" grant) (ground arith)

  granted-Stopped :
      (grant : Value) (s : Session)
      → grant_accepted attempt grant ≡ true
      → Over rt w o job
          (text_of (get "workerCapability" grant))
          ids.run_id
          attempt
          (granted grant)
          s
      → Stopped w ids.run_id attempt s
  granted-Stopped grant s accepted h = record {
    partial = h.partial;
    stops = h.stops;
    watched = h.watched;
    scoped = rw h.unchanged h.scoped;
    unmanaged = λ e. absurd (
        filled_capability grant accepted
          (sym (ap (λ (f : FailureState). f.worker_capability) h.unchanged) ∙ e));
  }

  rest-Stopped :
      (grant : Value)
      → grant_accepted attempt grant ≡ true
      → Triple
          (Granted grant [])
          (scan rt w o job ids.run_id (text_of (get "workerCapability" grant)) attempt grant)
          (λ summary s. Succeeded w ids.run_id attempt s × (summary.artifacts ≡ 3))
          (Stopped w ids.run_id attempt)
  rest-Stopped grant accepted =
      Triple-weaken _ (λ s h. h)
        (λ summary s h. (
          record {
            every = h.0.exactly;
            active = h.0.active;
            watched = h.0.watched;
            scoped = rw h.0.unchanged h.0.scoped;
          },
          h.1,
        ))
        (λ s h. granted-Stopped grant s accepted h)
        (scan-Goes rt w o job (text_of (get "workerCapability" grant)) ids.run_id attempt
          (granted grant) grant)

  early :
      {A : Type 0} (m : Exec A)
      → Triple Early m (λ _. Early) (Ended w "" ids.run_id attempt [] no_failure_state)
      → Triple Early m (λ _. Early) (Stopped w ids.run_id attempt)
  early m h = Triple-weaken m (λ s p. p) (λ a s p. p) early-Stopped h

  Early-Stopped : (s : Session) → Early s → Stopped w ids.run_id attempt s
  Early-Stopped s h =
      early-Stopped s (Reached-Ended w "" ids.run_id attempt [] no_failure_state [] s ([], refl) h)

  -- The state after any run from the empty log.
  pub process_steps-Stopped :
      normalize_ssh_job job.payload ≡ some ids
      → Triple Early
          (process_steps rt w o job)
          (λ summary s. Succeeded w ids.run_id attempt s × (summary.artifacts ≡ 3))
          (Stopped w ids.run_id attempt)
  unfolding process_steps
  process_steps-Stopped valid = rw valid (
      Triple-pure_bind ids _ (
        Triple-bind _ _
          (early _ (
            Progress-active w "" ids.run_id attempt [] no_failure_state rt _ ids.run_id []
              ([], refl)))
          λ _.
            Triple-bind _ _
              (early _ (
                Progress-quiet w "" ids.run_id attempt [] no_failure_state rt
                  (fetch_ssh_grant ids.run_id ids.target_id attempt) _ _ [] refl ([], refl)))
              λ grant. Triple-bind _ _ (Triple-require _ _ Early-Stopped) λ _.
                Triple-assume _ λ accepted.
                  Triple-bind _ _ (remember-Granted grant) λ _. rest-Stopped grant accepted))

  pub fresh-Early : Early (fresh [])
  fresh-Early = record { exactly = refl; active = tt; watched = tt; scoped = tt; unchanged = refl }
