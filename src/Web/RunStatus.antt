-- ===== src/Web/RunStatus.antt =====
-- web/lib/machine-run-status.js and machine-detail-data.js: what a run's row says of its state.
pub mod Laws
use shore_sentinel_app.Base.{
  ℕ, String, Bool, true, false, not, ◌&&◌, ◌||◌, Option, none, some, List, [], ◌∷◌, any, filter,
  length, one_of, str_eq, leb, if◌then◌else◌,
}
use shore_sentinel_app.Value.{
  ℤ, pos, negsuc, Num, whole, between, infinite, nan, Value, undef, null, num, str, bool, arr,
  items, obj, array, truthy, nullish, or_nullish, or_falsy, get, text_of,
}
use shore_sentinel_app.Runtime.{Runtime, number_of, text_from}

abbrev pub success_statuses : List String
success_statuses = "succeeded" ∷ "completed" ∷ []

abbrev pub terminal_statuses : List String
terminal_statuses = "succeeded" ∷ "completed" ∷ "failed" ∷ "cancelled" ∷ "stale" ∷ []

abbrev pub terminal_events : List String
terminal_events =
    "job.succeeded" ∷ "job.failed" ∷ "job.cancelled" ∷ "scan.cancelled" ∷ "job.stale" ∷ []

-- `STATUS_PROGRESS[status] ?? 0`, for a status that is no name of `Object.prototype`.
abbrev status_progress : String → ℕ
status_progress s =
    if one_of ("claimed" ∷ "leased" ∷ []) s
    then 10
    else if str_eq s "running"
    then 25
    else if str_eq s "parsing"
    then 55
    else if str_eq s "artifact_uploading"
    then 80
    else if str_eq s "retrying"
    then 90
    else 0

-- `text === s` and `set.has(v)`.
abbrev pub is_str : String → Value → Bool
is_str s (str t) = str_eq t s
is_str s undef = false
is_str s _ = false

abbrev pub is_one_of : List String → Value → Bool
is_one_of set (str t) = one_of set t
is_one_of set undef = false
is_one_of set _ = false

-- `Math.min(100, Math.max(0, n))`, `none` for what is not finite.
abbrev clamp : Num → Option Num
clamp (whole (pos n)) = some (if leb n 100 then whole (pos n) else whole (pos 100))
clamp (whole (negsuc n)) = some (whole (pos 0))
clamp (between (pos n)) = some (if leb 100 n then whole (pos 100) else between (pos n))
clamp (between (negsuc n)) = some (whole (pos 0))
clamp (infinite b) = none
clamp nan = none

abbrev progress_or : Option Num → Num → Num
progress_or (some n) m = n
progress_or none m = m

module _ (rt : Runtime) where
  -- `normalizedStatus`.
  pub normalized_status : Value → String
  normalized_status run = rt.to_lower (text_from rt (or_falsy (get "status" run) (str "")))

  -- `clampProgress`.
  pub clamp_progress : Value → Option Num
  clamp_progress v = clamp (number_of rt v)

  -- `isSuccessfulRun` and `isTerminalRun`.
  unfoldable pub is_successful_run : Value → Bool
  unfolding normalized_status
  is_successful_run run =
      one_of success_statuses (normalized_status run)
      || is_str "job.succeeded" (get "latest_event_type" run)

  unfoldable pub is_terminal_run : Value → Bool
  unfolding normalized_status
  is_terminal_run run =
      one_of terminal_statuses (normalized_status run)
      || is_one_of terminal_events (get "latest_event_type" run)

  -- `progressForRun`.
  unfoldable pub progress_for_run : Value → Num
  unfolding clamp_progress
  progress_for_run run =
      if not (truthy run)
      then whole (pos 0)
      else progress_or
          (clamp_progress
            (or_nullish (get "latest_progress_percent" run) (get "progress_percent" run)))
          (if is_successful_run run
            then whole (pos 100)
            else whole (pos (status_progress (normalized_status run))))

  -- `toneForRun`.
  unfoldable pub tone_for_run : Value → String
  tone_for_run run =
      if is_successful_run run
      then "green"
      else if str_eq (normalized_status run) "failed"
          || is_str "job.failed" (get "latest_event_type" run)
      then "red"
      else "amber"

  abbrev open_statuses : List String
  open_statuses = "open" ∷ "accepted" ∷ []

  -- `selectInitialRuns`.
  unfoldable pub select_initial_runs : Value → Value → List Value
  select_initial_runs payload fallback = select (get "runs" payload)
    where
      select : Value → List Value
      select (arr vs) = items vs
      select _ = array fallback

  -- `openRemediationItems`.
  unfoldable pub open_remediation_items : Value → List Value
  open_remediation_items v =
      filter
        (λ item.
          one_of open_statuses
            (rt.to_lower (text_from rt (or_falsy (get "status" item) (str "open")))))
        (array v)

  -- The count that the server gave, `Math.max(0, Number(count))`.
  abbrev at_least_zero : Num → Num
  at_least_zero (whole (negsuc n)) = whole (pos 0)
  at_least_zero (between (negsuc n)) = whole (pos 0)
  at_least_zero n = n

  abbrev is_finite : Num → Bool
  is_finite (infinite b) = false
  is_finite nan = false
  is_finite _ = true

  -- `openRemediationCount`.
  unfoldable pub open_remediation_count : Value → Value → Num
  open_remediation_count count v =
      if not (nullish count) && is_finite (number_of rt count)
      then at_least_zero (number_of rt count)
      else whole (pos (length (open_remediation_items v)))

  -- `scanLaunchBlocked`.
  unfoldable pub scan_launch_blocked : Value → Bool → Bool
  scan_launch_blocked runs history_unavailable =
      history_unavailable || any (λ run. not (is_terminal_run run)) (array runs)
