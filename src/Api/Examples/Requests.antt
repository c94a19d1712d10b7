-- ===== src/Api/Examples/Requests.antt =====
-- The requests of workers and users at concrete rows.
use shore_sentinel_app.Base.{◌≡◌, refl, String, true, false, none, some, length, codes}
use shore_sentinel_app.Value.{Value, str, num, whole, pos, obj, field, end}
use shore_sentinel_app.Worker.Examples.{plain}
use shore_sentinel_app.Runtime.{Runtime}
use shore_sentinel_app.Shared.{event_text}
use shore_sentinel_app.Api.Queue.{scan_retry_policy, scan_dispatch_retry_delay_ms}
use shore_sentinel_app.Api.Run.{leased, create_job}
use shore_sentinel_app.Api.Run.Events.{worker_event_transition, worker_event_statement}
use shore_sentinel_app.Api.Run.Grants.{ssh_grant_statement}
use shore_sentinel_app.Api.Run.Cancel.{cancel_statement}
use shore_sentinel_app.Api.Run.Artifacts.{reserve_statement, finalize_statement, discard_statement}
use shore_sentinel_app.Api.Run.Dispatch.{
  deliver_scan_dispatch, mark_published, mark_failed, mark_retry, queued, not_queued, queued_as,
  delivery_failed, not_pending,
}
use shore_sentinel_app.Api.Run.Requests.{
  WorkerRequest, is_internal_worker, worker_capability, require_worker_capability,
  require_worker_attempt, require_string, event_type_of, record_event, worker_event,
  worker_run_control, worker_artifact, accepted, forbidden, bad_request, denied,
}
use shore_sentinel_app.Api.Examples.{created, granted, claimed, dropped, secrets}

-- The capability is the text that is hashed, since the example's function returns it.
abbrev worker : WorkerRequest
worker = record { bearer = some "token"; capability = some "run:g1" }

abbrev runtime : Runtime
runtime = record plain { utf16_length = λ s. length (codes s) }

abbrev event_body : String → Value
event_body type = obj (field "type" (str type) (field "attempt" (num (whole (pos 1))) end))

-- A claim moves the run; without the capability, for an unknown type or without a type it is refused.
events :
    ((worker_event runtime secrets worker "run" "g2" 20 (event_body "job.claimed") granted).0
      ≡ accepted)
    × ((worker_event runtime secrets worker "run" "g2" 20
          (event_body "job.claimed")
          granted).1.run_status
        ≡ leased)
    × ((worker_event runtime secrets
          (record worker { capability = some "run:g9" })
          "run"
          "g2"
          20
          (event_body "job.claimed")
          granted).0
        ≡ forbidden)
    × ((worker_event runtime secrets
          (record worker { bearer = none })
          "run"
          "g2"
          20
          (event_body "job.claimed")
          granted).0
        ≡ forbidden)
    × ((worker_event runtime secrets worker "run" "g2" 20 (event_body "job.lost") granted).0
        ≡ bad_request)
    × ((worker_event runtime secrets worker "run" "g2" 20 (event_body "job.queued") granted).0
        ≡ bad_request)
    × ((worker_event runtime secrets worker "run" "g2" 20 (event_body "") granted).0 ≡ bad_request)
    × ((worker_event runtime secrets worker "run" "g2" 20
          (event_body "job.retry_scheduled")
          claimed).0
        ≡ forbidden)
unfolding create_job ssh_grant_statement worker_event record_event is_internal_worker
    worker_capability require_worker_capability require_worker_attempt require_string event_type_of
    event_text worker_event_transition worker_event_statement
events = (refl, refl, refl, refl, refl, refl, refl, refl)

controls :
    (worker_run_control secrets worker (some claimed) ≡ some false)
    × (worker_run_control secrets worker (some dropped) ≡ some true)
    × (worker_run_control secrets worker none ≡ none)
unfolding create_job ssh_grant_statement worker_event_transition worker_event_statement
    cancel_statement worker_run_control is_internal_worker
controls = (refl, refl, refl)

-- An artifact is stored, is given up where the store fails, and is refused once the run is cancelled.
artifacts :
    (length (worker_artifact true 30 1 "a1" "json" "ff" "s3://b/k" claimed).1.artifacts ≡ 1)
    × (length (worker_artifact true 30 1 "a1" "json" "ff" "s3://b/k" claimed).1.cleanup ≡ 0)
    × (length (worker_artifact false 30 1 "a1" "json" "ff" "s3://b/k" claimed).1.cleanup ≡ 1)
    × (worker_artifact true 40 1 "a1" "json" "ff" "s3://b/k" dropped ≡ (denied, dropped))
unfolding create_job ssh_grant_statement worker_event_transition worker_event_statement
    cancel_statement worker_artifact reserve_statement finalize_statement discard_statement
artifacts = (refl, refl, refl, refl)

-- A delivery publishes once, and is tried again after a failure.
deliveries :
    ((deliver_scan_dispatch (λ policy. queued) 10 created).0 ≡ queued_as true)
    × ((deliver_scan_dispatch
          (λ policy. queued)
          20
          (deliver_scan_dispatch (λ policy. queued) 10 created).1).0
        ≡ not_pending)
    × ((deliver_scan_dispatch (λ policy. not_queued) 10 created).0 ≡ delivery_failed)
    × ((deliver_scan_dispatch
          (λ policy. queued)
          30009
          (deliver_scan_dispatch (λ policy. not_queued) 10 created).1).0
        ≡ not_pending)
    × ((deliver_scan_dispatch
          (λ policy. queued)
          30010
          (deliver_scan_dispatch (λ policy. not_queued) 10 created).1).0
        ≡ queued_as true)
unfolding create_job deliver_scan_dispatch scan_retry_policy scan_dispatch_retry_delay_ms
    mark_published mark_failed mark_retry
deliveries = (refl, refl, refl, refl, refl)
