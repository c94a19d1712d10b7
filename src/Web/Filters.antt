-- ===== src/Web/Filters.antt =====
-- web/lib/filters.js: the filters of the lists and the summary of the runs. The rows of a list are
-- objects.
pub mod Laws
use Prim.Native.String.{◌++◌}
use shore_sentinel_app.Base.{
  ℕ, ◌+◌, ◌*◌, String, Bool, true, false, not, ◌&&◌, ◌||◌, Option, none, some, List, [], ◌∷◌,
  filter, length, one_of, str_eq, leb, ltb, ◌==◌, if◌then◌else◌,
}
use shore_sentinel_app.Value.{
  ℤ, pos, negsuc, Num, whole, between, infinite, nan, Value, undef, null, num, str, truthy,
  or_falsy, get, is_number,
}
use shore_sentinel_app.Runtime.{Runtime, text_from}
use shore_sentinel_app.Web.RunStatus.{is_str}

-- `SEVERITY_LEVELS`.
abbrev pub severity_levels : List String
severity_levels = "critical" ∷ "high" ∷ "medium" ∷ "low" ∷ "informational" ∷ []

-- The position of a level among them; past the end for what is none.
abbrev pub index_of : List String → String → ℕ
index_of [] s = 0
index_of (x ∷ xs) s = let rest = 1 + index_of xs s in if str_eq x s then 0 else rest

-- `parseTimeRangeParam`, in hours.
unfoldable pub parse_time_range_param : Value → Option ℕ
parse_time_range_param (str time_range) =
    if str_eq time_range "Last 24 hours"
    then some 24
    else if str_eq time_range "Last 7 days"
    then some (24 * 7)
    else if str_eq time_range "Last 30 days"
    then some (24 * 30)
    else none
parse_time_range_param undef = none
parse_time_range_param _ = none

-- Whether `ref < now - hours * 60 * 60 * 1000` for a time in milliseconds; `NaN` is never less.
abbrev pub before_cutoff : Num → ℕ → ℕ → Bool
before_cutoff (whole (pos t)) now hours = ltb (t + hours * 3600000) now
before_cutoff (between (pos t)) now hours = ltb (t + hours * 3600000) now
before_cutoff (whole (negsuc t)) now hours = ltb (hours * 3600000) (now + t + 1)
before_cutoff (between (negsuc t)) now hours = ltb (hours * 3600000) (now + t + 1)
before_cutoff (infinite b) now hours = not b
before_cutoff nan now hours = false

-- Whether a filter is set to something else than its `All …` entry.
abbrev pub is_set : Value → String → Bool
is_set option every = truthy option && not (is_str every option)

-- `value === option`, for an option from the query: a text, an array or undefined.
abbrev pub same_text : Value → Value → Bool
same_text (str s) value = is_str s value
same_text undef value = false
same_text _ value = false

-- `option && option !== every && value !== option`.
abbrev pub excludes : Value → String → Value → Bool
excludes option every value = is_set option every && not (same_text option value)

abbrev pub or_text : Value → String → Value
or_text v s = or_falsy v (str s)

module _ (rt : Runtime) where
  -- `normalizeSeverity`, with its default fallback.
  unfoldable pub normalize_severity : Value → String
  normalize_severity value =
      let v = rt.to_lower (text_from rt (or_text value "")) in
      if one_of severity_levels v then v else "informational"

  -- The time of a row in a list, `new Date(a || b || 0).getTime()`, at `Date.now()`.
  abbrev pub too_old : ℕ → Option ℕ → Value → Value → Bool
  too_old now none a b = false
  too_old now (some hours) a b =
      before_cutoff (rt.time_of (or_falsy a (or_falsy b (num (whole (pos 0)))))) now hours

  -- The test of `filterTargets`.
  unfoldable pub keeps_target : (env status platform : Value) → Value → Bool
  keeps_target env status platform target =
      let target_status =
        if is_str "unknown" (get "status" target) then str "Online" else get "status" target in
      not (excludes env "All environments" (or_text (get "env" target) "Unassigned"))
      && not (excludes status "All statuses" (str (text_from rt target_status)))
      && not (excludes platform "All platforms" (or_text (get "platform" target) "Unspecified"))

  -- `filterTargets`.
  unfoldable pub filter_targets : (env status platform : Value) → List Value → List Value
  filter_targets env status platform targets = filter (keeps_target env status platform) targets

  -- The test of `filterAudits`.
  unfoldable pub keeps_audit : (now : ℕ) (severity time_range env : Value) → Value → Bool
  keeps_audit now severity time_range env audit =
      not (excludes env "All environments" (or_text (get "env" audit) "Unassigned"))
      && not (
          is_set severity "All severities"
          && not (str_eq (normalize_severity (get "severity" audit)) (normalize_severity severity)))
      && not (
          too_old now (parse_time_range_param time_range) (get "updated_at" audit)
            (get "created_at" audit))

  -- `filterAudits`, at `Date.now()`.
  unfoldable pub filter_audits :
      (now : ℕ) (severity time_range env : Value) → List Value → List Value
  filter_audits now severity time_range env audits =
      filter (keeps_audit now severity time_range env) audits

  unfoldable pub environment_of : Value → Value
  environment_of row = or_falsy (get "environment" row) (or_text (get "env" row) "Unassigned")

  -- The severity that a run counts under.
  unfoldable pub run_severity : Value → String
  run_severity run = normalize_severity (or_falsy (get "highest_severity" run) (get "severity" run))

  -- The test of `filterRuns`.
  unfoldable pub keeps_run : (now : ℕ) (run_status severity env time_range : Value) → Value → Bool
  keeps_run now run_status severity env time_range run =
      not (excludes run_status "All statuses" (str (text_from rt (get "status" run))))
      && not (excludes env "All environments" (environment_of run))
      && not (
          is_set severity "All severities"
          && ltb (index_of severity_levels (normalize_severity severity))
              (index_of severity_levels (run_severity run)))
      && not (
          too_old now (parse_time_range_param time_range) (get "completed_at" run)
            (get "created_at" run))

  -- `filterRuns`, at `Date.now()`.
  unfoldable pub filter_runs :
      (now : ℕ) (run_status severity env time_range : Value) → List Value → List Value
  filter_runs now run_status severity env time_range runs =
      filter (keeps_run now run_status severity env time_range) runs

  -- The test of `filterFindings`.
  unfoldable pub keeps_finding : (severity status env owner : Value) → Value → Bool
  keeps_finding severity status env owner finding =
      not (
        is_set severity "All severities"
        && not (str_eq (normalize_severity (get "severity" finding)) (normalize_severity severity)))
      && not (
          excludes status "All statuses"
            (str (text_from rt (or_text (get "remediation_status" finding) "open"))))
      && not (excludes env "All environments" (environment_of finding))
      && not (
          excludes owner "All owners"
            (or_falsy (get "owner" finding) (or_text (get "team" finding) "Unassigned")))

  -- `filterFindings`.
  unfoldable pub filter_findings : (severity status env owner : Value) → List Value → List Value
  filter_findings severity status env owner findings =
      filter (keeps_finding severity status env owner) findings

-- `severityCounts` of `summarizeRuns`.
pub record SeverityCounts : Type 0 where
  pub critical : ℕ
  pub high : ℕ
  pub medium : ℕ
  pub low : ℕ
  pub informational : ℕ

-- `statusCounts` of `summarizeRuns`.
pub record StatusCounts : Type 0 where
  pub completed : ℕ
  pub running : ℕ
  pub leased : ℕ
  pub pending : ℕ

abbrev pub counted : String → String → ℕ → ℕ
counted s t n = if str_eq s t then n + 1 else n

-- `severityCounts[sev] = (severityCounts[sev] || 0) + 1`, for one of the levels.
abbrev pub count_severity : String → SeverityCounts → SeverityCounts
count_severity sev c = record {
  critical = counted sev "critical" c.critical;
  high = counted sev "high" c.high;
  medium = counted sev "medium" c.medium;
  low = counted sev "low" c.low;
  informational = counted sev "informational" c.informational;
}

-- `if (st in statusCounts) statusCounts[st] += 1`, for a text that is no name of `Object.prototype`.
abbrev pub count_status : String → StatusCounts → StatusCounts
count_status st c = record {
  completed = counted st "completed" c.completed;
  running = counted st "running" c.running;
  leased = counted st "leased" c.leased;
  pending = counted st "pending" c.pending;
}

module _ (rt : Runtime) where
  -- The loop of `summarizeRuns`, from the counts so far.
  unfoldable pub count_severities : List Value → SeverityCounts → SeverityCounts
  count_severities [] c = c
  count_severities (run ∷ runs) c = count_severities runs (count_severity (run_severity rt run) c)

  unfoldable pub count_statuses : List Value → StatusCounts → StatusCounts
  count_statuses [] c = c
  count_statuses (run ∷ runs) c =
      count_statuses runs (count_status (text_from rt (get "status" run)) c)

  -- `parts.join(', ')`.
  abbrev pub joined_parts : List String → String
  joined_parts [] = ""
  joined_parts (p ∷ []) = p
  joined_parts (p ∷ (q ∷ rest)) = p ++ ", " ++ joined_parts (q ∷ rest)

  abbrev pub part : Value → String → List String → List String
  part n label parts = if truthy n then (text_from rt n ++ label) ∷ parts else parts

  -- `summary` of `summarizeRuns`.
  unfoldable pub summary_text : List Value → Value → String
  summary_text runs counts =
      if not (truthy counts) || is_number 0 (get "active" counts)
      then if length runs == 0 then "No scans yet" else "No scans match filters"
      else let parts = part (get "critical" counts) " critical" (
          part (get "high" counts) " high"
            (part (get "medium" counts) " medium" (part (get "low" counts) " low" []))) in
        if length parts == 0
        then "all " ++ rt.decimal (length runs) ++ " within range"
        else joined_parts parts

abbrev pub no_severities : SeverityCounts
no_severities = record { critical = 0; high = 0; medium = 0; low = 0; informational = 0 }

abbrev pub no_statuses : StatusCounts
no_statuses = record { completed = 0; running = 0; leased = 0; pending = 0 }

pub record RunSummary : Type 0 where
  pub severity_counts : SeverityCounts
  pub status_counts : StatusCounts
  pub summary : String

-- `summarizeRuns`.
unfoldable pub summarize_runs : Runtime → List Value → Value → RunSummary
summarize_runs rt runs counts = record {
  severity_counts = count_severities rt runs no_severities;
  status_counts = count_statuses rt runs no_statuses;
  summary = summary_text rt runs counts;
}
