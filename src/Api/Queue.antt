-- ===== src/Api/Queue.antt =====
-- api/src/queue.service.ts: the retry policy of a scan, and the delays of its delivery.

use shore_sentinel_app.Base.{
  ℕ, ◌-◌, ◌*◌, ◌^◌, min, Bool, ◌||◌, ltb, Result, fails, gives, if◌then◌else◌,
}
use shore_sentinel_app.Value.{max_safe}
use shore_sentinel_app.Worker.Config.{Environment, positive_integer, then_result}

abbrev pub safe_worker_max_attempts : ℕ
safe_worker_max_attempts = 10

abbrev pub safe_worker_backoff_ms : ℕ
safe_worker_backoff_ms = 60 * 60 * 1000

abbrev pub safe_outbox_delivery_attempts : ℕ
safe_outbox_delivery_attempts = 5

abbrev pub outbox_retry_base_ms : ℕ
outbox_retry_base_ms = 30000

abbrev pub outbox_retry_max_delay_ms : ℕ
outbox_retry_max_delay_ms = 30 * 60 * 1000

-- `scanDispatchRetryDelayMs`: a count of 0 has the exponent 0, as on ℕ.
unfoldable pub scan_dispatch_retry_delay_ms : ℕ → ℕ
scan_dispatch_retry_delay_ms attempt_count =
    min (outbox_retry_base_ms * 2 ^ min (attempt_count - 1) 16) outbox_retry_max_delay_ms

-- `ScanRetryPolicy`, whose back-off is always exponential.
pub record ScanRetryPolicy : Type 0 where
  pub attempts : ℕ
  pub delay : ℕ

abbrev pub is_out_of_bounds : (value maximum : ℕ) → Bool
is_out_of_bounds value maximum = ltb max_safe value || ltb value 1 || ltb maximum value

-- `scanRetryPolicy`, on numbers.
unfoldable pub scan_retry_policy : (attempts backoff_ms : ℕ) → Result ScanRetryPolicy
scan_retry_policy attempts backoff_ms =
    if is_out_of_bounds attempts safe_worker_max_attempts
    then fails "retry_max_attempts must be a positive bounded integer"
    else if is_out_of_bounds backoff_ms safe_worker_backoff_ms
    then fails "retry_backoff_ms must be a positive bounded integer"
    else gives (record { attempts = attempts; delay = backoff_ms })

-- `positiveInteger` is the function of that name of the worker.
-- `workerRetryPolicyFromEnv`.
unfoldable pub worker_retry_policy_from_env : Environment → Result ScanRetryPolicy
worker_retry_policy_from_env env =
    then_result (positive_integer env "WORKER_MAX_ATTEMPTS" "3" "10" safe_worker_max_attempts)
      (λ attempts.
        then_result
          (positive_integer env "WORKER_BACKOFF_MS" "5000" "3600000" safe_worker_backoff_ms)
          (λ backoff. scan_retry_policy attempts backoff))
