-- ===== src/Worker/Failure/Delivery.antt =====
-- How a failure is delivered (emitManagedSshFailure of
-- workers/worker-node/src/managedSshProcessor.js and failureHandling.js).
use shore_sentinel_app.Base.{
  ℕ, String, Bool, true, false, ◌||◌, ◌≡◌, refl, ap, ◌∙◌, some, none, List, ◌∷◌, str_eq,
}
use shore_sentinel_app.Shared.{
  RunEvent, RunEventType, event_text, JobStatus, status_text, built, build_run_event, job_id_text,
  message_or,
}
use shore_sentinel_app.Runtime.{Runtime}
use shore_sentinel_app.Worker.Exec.{
  Call, emit_run_event, World, FailureRecord, FailureState, Session, final, ◌>>=◌, record_call,
}
use shore_sentinel_app.Worker.Exec.Triple.{Post, final-Post, bind-Post, with_timeout-Post, Triple}
use shore_sentinel_app.Worker.Lifecycle.{retry_decision}
use shore_sentinel_app.Worker.Job.{SshJob, normalize_ssh_job}
use shore_sentinel_app.Worker.Job.Laws.{normalize_ssh_job_iff, differs_from_empty}
use shore_sentinel_app.Worker.Control.{Job}
use shore_sentinel_app.Worker.Failure.{
  keep_failure, forget_on_job, failure_event, report_failure, emit_managed_ssh_failure,
}

-- The texts of types and statuses are not empty.
event_text-filled : (t : RunEventType) → str_eq (event_text t) "" ≡ false
unfolding event_text
event_text-filled RunEventType.job_queued = refl
event_text-filled _ = refl

status_text-filled : (t : JobStatus) → str_eq (status_text t) "" ≡ false
unfolding status_text
status_text-filled JobStatus.queued = refl
status_text-filled _ = refl

ap₃ :
    (f : RunEvent → String → List Call → List Call) {e e' : RunEvent} {c c' : String}
    {l l' : List Call}
    → e ≡ e'
    → c ≡ c'
    → l ≡ l'
    → f e c l ≡ f e' c' l'
ap₃ f p q r = λ i. f (p i) (q i) (r i)

module _ (rt : Runtime) (w : World) (timeout_ms : ℕ) where
  -- The event that reports a failure kept as `f`.
  abbrev pub failure_report : Job → String → FailureRecord → Session → RunEvent
  failure_report job run_id f s =
      let d = retry_decision rt s.failure_state.attempt none f.max_attempts f.error in
      record {
        run_id = run_id;
        job_id = job_id_text job.id;
        type = event_text d.event_type;
        status = status_text d.status;
        attempt = d.attempt;
        message = message_or (some d.message) (event_text d.event_type);
        metadata = d.metadata;
        occurred_at = w.now s.log;
      }

  failure_event-built :
      (job : Job) (run_id : String) (f : FailureRecord) (s : Session)
      → str_eq run_id "" ≡ false
      → failure_event rt w timeout_ms job run_id
          (retry_decision rt s.failure_state.attempt none f.max_attempts f.error)
          s
        ≡ built (failure_report job run_id f s)
  unfolding build_run_event
  failure_event-built job run_id f s filled = rw (filled, event_text-filled _, status_text-filled _)

  -- What a delivery leaves behind, whether it returns or throws.
  pub record Delivered (job : Job) (run_id : String) (f : FailureRecord) (s s' : Session)
      : Type 0 where
    pub one_event :
        s'.log
        ≡ emit_run_event (failure_report job run_id f s) s.failure_state.worker_capability ∷ s.log
    pub kept : s'.failure_state ≡ record s.failure_state { failure = some f }

  forget-Triple :
      (P : Session → Type 0)
      → ((s : Session) → P s → P (record s { on_job = false }))
      → Triple P forget_on_job (λ _. P) P
  forget-Triple P h = record { at = h }

  report-Delivered :
      (job : Job) (run_id : String) (f : FailureRecord) (s : Session)
      → str_eq run_id "" ≡ false
      → let s1 = record s { failure_state = record s.failure_state { failure = some f } } in
        Post
          (λ _. Delivered job run_id f s)
          (Delivered job run_id f s)
          (report_failure rt w timeout_ms job run_id f s1)
  unfolding report_failure
  report-Delivered job run_id f s filled =
      let s1 : Session = record s { failure_state = record s.failure_state { failure = some f } } in
      let sent : Delivered job run_id f s (
          record_call
            (emit_run_event (failure_report job run_id f s) s.failure_state.worker_capability) s1) =
        record { one_event = refl; kept = refl } in
      rw (failure_event-built job run_id f s1 filled) (
        with_timeout-Post (λ _. Delivered job run_id f s) (Delivered job run_id f s) rt w _
          timeout_ms _ s1 (λ v _. sent) sent)

  -- With a state to report, a delivery makes exactly one call, the event for the failure that was
  -- kept first, and keeps that failure.
  pub emit-Delivered :
      (job : Job) (ids : SshJob) (max_attempts : ℕ) (message : String) (managed : Bool)
      (s : Session)
      → normalize_ssh_job job.payload ≡ some ids
      → (managed || s.on_job) ≡ true
      → Delivered job ids.run_id
          (keep_failure s.failure_state max_attempts message s.failure_state.failure)
          s
          (final (emit_managed_ssh_failure rt w timeout_ms job max_attempts message managed s))
  unfolding emit_managed_ssh_failure ◌>>=◌
  emit-Delivered job ids max_attempts message managed s valid referred =
      let f = keep_failure s.failure_state max_attempts message s.failure_state.failure in
      let filled = differs_from_empty _ ((normalize_ssh_job_iff job.payload ids).0 valid).run.1 in
      rw (referred, valid)
        (final-Post (Delivered job ids.run_id f s) _ (
          bind-Post (report_failure rt w timeout_ms job ids.run_id f) (λ _. forget_on_job) _
            (report-Delivered job ids.run_id f s filled)
            (λ _.
              forget-Triple (Delivered job ids.run_id f s)
                (λ s' h. record { one_event = h.one_event; kept = h.kept }))))

  same_report :
      (job : Job) (run_id : String) (m : ℕ) (message : String) (f : FailureRecord) (s s1 : Session)
      → s1.failure_state ≡ record s.failure_state { failure = some f }
      → failure_report job run_id
          (keep_failure s1.failure_state m message s1.failure_state.failure)
          s1
        ≡ record (failure_report job run_id f s) { occurred_at = w.now s1.log }
  same_report job run_id m message f s s1 e = rw e

  same_calls :
      (job : Job) (run_id : String) (m : ℕ) (message : String) (f : FailureRecord) (s s1 : Session)
      (log : List Call)
      → Delivered job run_id f s s1
      → log
        ≡ emit_run_event
            (failure_report job run_id
              (keep_failure s1.failure_state m message s1.failure_state.failure)
              s1)
            s1.failure_state.worker_capability
          ∷ s1.log
      → log
        ≡ emit_run_event
            (record (failure_report job run_id f s) { occurred_at = w.now s1.log })
            s.failure_state.worker_capability
          ∷ emit_run_event (failure_report job run_id f s) s.failure_state.worker_capability
          ∷ s.log
  same_calls job run_id m message f s s1 log first second =
      second
      ∙ ap₃ (λ e c l. emit_run_event e c ∷ l) (same_report job run_id m message f s s1 first.kept)
          (ap (λ (st : FailureState). st.worker_capability) first.kept) first.one_event

  -- However often a failure is delivered, with whatever error text and number of attempts the
  -- later calls pass, the API gets the same event again; only its time stamp differs.
  pub emit_again :
      (job : Job) (ids : SshJob) (m m' : ℕ) (message message' : String) (managed managed' : Bool)
      (s : Session)
      → normalize_ssh_job job.payload ≡ some ids
      → (managed || s.on_job) ≡ true
      → let s1 = final (emit_managed_ssh_failure rt w timeout_ms job m message managed s) in
        let s2 = final (emit_managed_ssh_failure rt w timeout_ms job m' message' managed' s1) in
        (managed' || s1.on_job) ≡ true
        → (e : RunEvent) × (s2.log
            ≡ emit_run_event
                (record e { occurred_at = w.now s1.log })
                s.failure_state.worker_capability
              ∷ emit_run_event e s.failure_state.worker_capability
              ∷ s.log)
  emit_again job ids m m' message message' managed managed' s valid referred referred' =
      let f = keep_failure s.failure_state m message s.failure_state.failure in
      let s1 = final (emit_managed_ssh_failure rt w timeout_ms job m message managed s) in
      let first = emit-Delivered job ids m message managed s valid referred in
      let second = emit-Delivered job ids m' message' managed' s1 valid referred' in
      (
        failure_report job ids.run_id f s,
        same_calls job ids.run_id m' message' f s s1 _ first second.one_event,
      )
