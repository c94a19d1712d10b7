-- ===== src/Worker/Process/Outcomes.antt =====
-- What holds of every run of processManagedSshJob
-- (workers/worker-node/src/managedSshProcessor.js) on a valid payload.
use shore_sentinel_app.Base.{
  ℕ, ◌+◌, Bool, true, false, not, ◌≡◌, refl, sym, ap, ◌∙◌, some, [], All, eq_iff,
}
use shore_sentinel_app.Runtime.{Runtime}
use shore_sentinel_app.Worker.Exec.{World, Session, Outcome, returned, thrown}
use shore_sentinel_app.Worker.Exec.Triple.{Post}
use shore_sentinel_app.Worker.Job.{SshJob, normalize_ssh_job}
use shore_sentinel_app.Worker.Control.{Job}
use shore_sentinel_app.Worker.Control.Rules.{
  milestones, IsScoped, IsActive, StopsAtCancel, StopsAtCancel-of_IsActive, IsWatched, IsPartial,
}
use shore_sentinel_app.Worker.Process.{
  Budgets, Summary, Thrown, Processed, completed, failed_with, fresh, caught, session_of,
  process_steps, process_managed_ssh_job,
}
use shore_sentinel_app.Worker.Process.Protocol.{full_protocol}
use shore_sentinel_app.Worker.Process.Guarantees.{
  Stopped, Succeeded, process_steps-Stopped, fresh-Early,
}

abbrev artifacts_of : Processed → ℕ
artifacts_of (completed summary s) = summary.artifacts
artifacts_of (failed_with e s) = 0

abbrev managed_of : Processed → Bool
managed_of (completed summary s) = false
managed_of (failed_with e s) = e.managed

false_of_not : (b : Bool) → not b ≡ false → b ≡ true
false_of_not true h = refl
false_of_not false h = cc

module _ (rt : Runtime) (w : World) (o : Budgets) (job : Job) (ids : SshJob)
    (valid : normalize_ssh_job job.payload ≡ some ids) where
  abbrev Ends : Outcome Summary → Type 0
  Ends =
      Post (λ summary s. Succeeded w ids.run_id (job.attempts_made + 1) s × (summary.artifacts ≡ 3))
        (Stopped w ids.run_id (job.attempts_made + 1))

  run_Ends : Ends (process_steps rt w o job (fresh []))
  run_Ends = (process_steps-Stopped rt w o job ids valid).at (fresh []) (fresh-Early rt w o job ids)

  order_of :
      (r : Outcome Summary)
      → Ends r
      → IsPartial full_protocol (milestones (session_of (caught r)).log)
  order_of (returned summary s) h = ([], h.0.every)
  order_of (thrown e s) h = h.partial

  -- Whatever happens, what the job reported and stored is an initial part of the full protocol:
  -- claimed, running, parse started, parse succeeded, for each of the three artifacts requested,
  -- stored and succeeded, and then job succeeded. So nothing is reported or stored out of order,
  -- twice, or before what it depends on. (Logs are newest first.)
  pub process_order :
      IsPartial full_protocol (milestones (session_of (process_managed_ssh_job rt w o job [])).log)
  unfolding process_managed_ssh_job
  process_order = order_of (process_steps rt w o job (fresh [])) run_Ends

  stops_of :
      (r : Outcome Summary)
      → Ends r
      → let log = (session_of (caught r)).log in StopsAtCancel w log × IsWatched w log
  stops_of (returned summary s) h = (StopsAtCancel-of_IsActive w s.log h.0.active, h.0.watched)
  stops_of (thrown e s) h = (h.stops, h.watched)

  -- A control read of the job itself (`assertActive`) that answers that the run was cancelled is the
  -- last call of the job: nothing is reported, stored, executed or parsed after it. A control read
  -- of the monitor that answers so, or fails, or is not answered in time, is the last read of the
  -- monitor; what `execute` does about the abort is its own, and if it returns all the same, the job
  -- goes on to its next control read.
  pub process-StopsAtCancel :
      let log = (session_of (process_managed_ssh_job rt w o job [])).log in
      StopsAtCancel w log × IsWatched w log
  unfolding process_managed_ssh_job
  process-StopsAtCancel = stops_of (process_steps rt w o job (fresh [])) run_Ends

  caught-IsScoped :
      (r : Outcome Summary)
      → Ends r
      → let s = session_of (caught r) in
        All (IsScoped s.failure_state.worker_capability ids.run_id (job.attempts_made + 1)) s.log
  caught-IsScoped (returned summary s) h = h.0.scoped
  caught-IsScoped (thrown e s) h = h.scoped

  -- Every event and every artifact is sent under the capability that the grant gave, for the
  -- payload's run and for the attempt that the grant was asked for.
  pub process-IsScoped :
      let s = session_of (process_managed_ssh_job rt w o job []) in
      All (IsScoped s.failure_state.worker_capability ids.run_id (job.attempts_made + 1)) s.log
  unfolding process_managed_ssh_job
  process-IsScoped = caught-IsScoped (process_steps rt w o job (fresh [])) run_Ends

  complete_of :
      (r : Outcome Summary) {summary : Summary} {s : Session}
      → Ends r
      → caught r ≡ completed summary s
      → (milestones s.log ≡ full_protocol) × (summary.artifacts ≡ 3) × IsActive w s.log
  complete_of (returned summary s) h e =
      let same : s ≡ _ = ap session_of e in
      (rw (← same) h.0.every, sym (ap artifacts_of e) ∙ h.1, rw (← same) h.0.active)
  complete_of (thrown m s) h e = cc

  -- A job that completes has reported and stored everything of the protocol, counts three
  -- artifacts, and had no cancellation for an answer in its own control reads (`assertActive`).
  pub process_complete :
      {summary : Summary} {s : Session}
      → process_managed_ssh_job rt w o job [] ≡ completed summary s
      → (milestones s.log ≡ full_protocol) × (summary.artifacts ≡ 3) × IsActive w s.log
  unfolding process_managed_ssh_job
  process_complete e = complete_of (process_steps rt w o job (fresh [])) run_Ends e

  unmanaged_of :
      (r : Outcome Summary) {e : Thrown} {s : Session}
      → Ends r
      → caught r ≡ failed_with e s
      → e.managed ≡ false
      → milestones s.log ≡ []
  unmanaged_of (returned summary s) h e u = cc
  unmanaged_of (thrown m s) h e u =
      let same : s ≡ _ = ap session_of e in
      rw (← same) (
        h.unmanaged
          ((eq_iff s.failure_state.worker_capability "").0 (false_of_not _ (ap managed_of e ∙ u))))

  -- An error that does not carry the state of a failure was thrown before anything was reported
  -- or stored, so no failure after the first write escapes the failure handling.
  pub process_unmanaged :
      {e : Thrown} {s : Session}
      → process_managed_ssh_job rt w o job [] ≡ failed_with e s
      → e.managed ≡ false
      → milestones s.log ≡ []
  unfolding process_managed_ssh_job
  process_unmanaged eq u = unmanaged_of (process_steps rt w o job (fresh [])) run_Ends eq u
