-- ===== src/Api/Run/Dispatch.antt =====
-- `deliverScanDispatch` of api/src/queue.service.ts: a created run is put on the queue.
use shore_sentinel_app.Base.{
  ℕ, ◌+◌, Bool, true, false, not, ◌&&◌, Option, none, some, ◌∷◌, leb, fails, gives, if◌then◌else◌,
}
use shore_sentinel_app.Api.Queue.{
  safe_outbox_delivery_attempts, scan_dispatch_retry_delay_ms, ScanRetryPolicy, scan_retry_policy,
}
use shore_sentinel_app.Api.Run.{is_pending, is_queued, DispatchRow, Store}

-- `published_at IS NULL AND failed_at IS NULL`.
abbrev pub is_outstanding : DispatchRow → Bool
is_outstanding d = not d.published && not d.failed

-- `COALESCE(o.next_attempt_at,o.created_at) <= now()`.
abbrev pub is_due : ℕ → DispatchRow → Bool
is_due now d = elim d.next_attempt_at [ none ↦ leb d.created_at now | some t ↦ leb t now ]

-- The row that a delivery starts from.
abbrev pub pending_dispatch : ℕ → Store → Option DispatchRow
pending_dispatch now s = elim s.dispatch [
  | none ↦ none
  | some d ↦
      if is_outstanding d
        && is_due now d
        && (is_pending s.run_status && not s.cancellation_requested && is_queued s.job_status)
      then some d
      else none
]

-- The updates of the row, which change an outstanding row only.
abbrev pub update_outstanding : (DispatchRow → DispatchRow) → Store → Store
update_outstanding f s = elim s.dispatch [
  | none ↦ s
  | some d ↦ if is_outstanding d then record s { dispatch = some (f d) } else s
]

abbrev pub has_outstanding : Store → Bool
has_outstanding s = elim s.dispatch [ none ↦ false | some d ↦ is_outstanding d ]

unfoldable pub mark_published : Store → Store
mark_published = update_outstanding (λ d. record d {
  published = true;
  attempt_count = d.attempt_count + 1;
  next_attempt_at = none;
})

-- With the event `scan.dispatch_failed`.
unfoldable pub mark_failed : Store → Store
mark_failed s = elim s.dispatch [
  | none ↦ s
  | some d ↦
      if is_outstanding d
      then record s {
        dispatch = some (record d {
          failed = true;
          attempt_count = d.attempt_count + 1;
          next_attempt_at = none;
        });
        alerts = (d.attempt_count + 1) ∷ s.alerts;
      }
      else s
]

unfoldable pub mark_retry : (now attempt_count : ℕ) → Store → Store
mark_retry now attempt_count = update_outstanding (λ d. record d {
  attempt_count = d.attempt_count + 1;
  next_attempt_at = some (now + scan_dispatch_retry_delay_ms attempt_count);
})

-- What `enqueue` does with a policy, for which the queue is a parameter: it returns whether the job
-- is queued, or throws.
pub data Enqueued : Type 0 where
  queued not_queued threw : Enqueued

-- What a delivery returns: its reason, whether it published, or the error it throws again.
pub data Delivery : Type 0 where
  not_pending delivery_failed rethrown : Delivery
  queued_as : Bool → Delivery

-- The `catch` of `deliverScanDispatch`.
abbrev pub undelivered : (now : ℕ) → DispatchRow → Store → Store
undelivered now d s =
    if leb safe_outbox_delivery_attempts (d.attempt_count + 1)
    then mark_failed s
    else mark_retry now (d.attempt_count + 1) s

-- `deliverScanDispatch`, without other statements in between.
unfoldable pub deliver_scan_dispatch :
    (ScanRetryPolicy → Enqueued) → (now : ℕ) → Store → Delivery × Store
deliver_scan_dispatch enqueue now s = elim (pending_dispatch now s) [
  | none ↦ (not_pending, s)
  | some d ↦ elim (scan_retry_policy s.retry_max_attempts s.retry_backoff_ms) [
    | fails e ↦ (rethrown, undelivered now d s)
    | gives policy ↦ elim (enqueue policy) [
      | queued ↦ (queued_as (has_outstanding s), mark_published s)
      | not_queued ↦ (delivery_failed, undelivered now d s)
      | threw ↦ (rethrown, undelivered now d s)
    ]
  ]
]
