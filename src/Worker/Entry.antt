-- ===== src/Worker/Entry.antt =====
-- workers/worker-node/src/index.js: the handlers that the worker registers with its queues.
use shore_sentinel_app.Base.{Bool, not, ◌&&◌, List, if◌then◌else◌, str_eq}
use shore_sentinel_app.Value.{Value, get, is_text, text_of, positive}
use shore_sentinel_app.Runtime.{Runtime, number_of}
use shore_sentinel_app.Worker.Exec.{
  Call, reconcile_cleanup, World, Session, Outcome, Exec, pure, throw, require, ◌>>=◌, ◌>>◌, call,
}
use shore_sentinel_app.Worker.Output.{read}
use shore_sentinel_app.Worker.Control.{Job}
use shore_sentinel_app.Worker.Process.{
  Budgets, Summary, Thrown, Processed, completed, failed_with, process_managed_ssh_job,
}
use shore_sentinel_app.Worker.Failure.{
  Handled, handle_managed_ssh_failure, emit_managed_ssh_failure, lifecycle_delivery_attempts,
}

-- What the scan worker's processor gives back to BullMQ.
pub data Processing : Type 0 where
  done : Summary → Processing
  cancelled : Processing
  failed : Thrown → Processing

module _ (rt : Runtime) (w : World) (o : Budgets) where
  abbrev after_handling : Thrown → Handled × Session → Processing × Session
  after_handling e (h, s) = if h.cancelled then (cancelled, s) else (failed e, s)

  abbrev handle_processed : Job → Processed → Processing × Session
  handle_processed job (completed summary s) = (done summary, s)
  handle_processed job (failed_with e s) = after_handling e (
      handle_managed_ssh_failure rt w o.lifecycle_event_timeout_ms job 3 lifecycle_delivery_attempts
        e.message e.managed s)

  -- The processor of the scan queue.
  unfoldable pub process_job : Job → List Call → Processing × Session
  process_job job log = handle_processed job (process_managed_ssh_job rt w o job log)

  -- The listener for BullMQ's `failed`: an error of its own is only printed.
  unfoldable pub on_failed : Job → Thrown → Session → Outcome Bool
  on_failed job e s =
      emit_managed_ssh_failure rt w o.lifecycle_event_timeout_ms job 3 e.message e.managed s

-- `processArtifactCleanupJob`.
unfoldable pub process_artifact_cleanup_job : Runtime → World → Value → Exec Value
unfolding pure throw require ◌>>=◌ call read
process_artifact_cleanup_job rt w payload = do
  require
      (str_eq (text_of (get "type" payload)) "artifact.cleanup"
        && (is_text (get "tenantId" payload) && is_text (get "runId" payload)))
      "Invalid artifact cleanup job"
  result ←
      call rt w
        (reconcile_cleanup (text_of (get "tenantId" payload)) (text_of (get "runId" payload)))
  failed_count ← read "failed" result
  require (not (positive (number_of rt failed_count))) "Artifact cleanup reconciliation incomplete"
  pure result
