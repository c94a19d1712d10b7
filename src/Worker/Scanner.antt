-- ===== src/Worker/Scanner.antt =====
-- workers/worker-node/src/scannerRunner.js: the report of the bundled scanner in the contract's
-- form, and the kinds of its files. Running the scanner and reading its files are not modelled.
use Prim.Native.String.{◌++◌}
use text.Mathlib.Text.{find?}
use shore_sentinel_app.Base.{
  ℕ, ◌+◌, String, Bool, true, false, ◌||◌, none, some, str_eq, if◌then◌else◌,
}
use shore_sentinel_app.Value.{
  Value, undef, null, str, arr, obj, Items, nil, cons, end, field, get, truthy, or_falsy,
}
use shore_sentinel_app.Runtime.{Runtime, text_from}
use shore_sentinel_app.Shared.{scanner_bundle_contract_version}

-- `text.includes(part)`.
abbrev includes : String → String → Bool
includes text part = elim (find? text part) [ none ↦ false | some n ↦ true ]

abbrev or_str : Value → String → Value
or_str v s = or_falsy v (str s)

module _ (rt : Runtime) where
  -- `severityFromRisk`.
  unfoldable pub severity_from_risk : Value → String
  severity_from_risk risk =
      let normalized = rt.to_lower (text_from rt (or_str risk "")) in
      if includes normalized "critical"
      then "critical"
      else if includes normalized "high"
      then "high"
      else if includes normalized "medium" || includes normalized "moderate"
      then "moderate"
      else if includes normalized "low"
      then "low"
      else "informational"

  -- One finding of `toContract`, with its number counted from 1. A finding is an object.
  unfoldable pub contract_finding : Value → ℕ → Value
  contract_finding finding n = obj (
      field "id"
        (or_falsy (get "id" finding) (or_str (get "check_id" finding) ("finding-" ++ rt.decimal n)))
        (field "title"
          (or_falsy (get "title" finding)
            (or_str (get "check" finding) ("Finding " ++ rt.decimal n)))
          (field "severity" (str (severity_from_risk (get "risk" finding))) (
            field "category"
              (or_falsy (get "category" finding)
                (or_str (get "section" finding) "agent-security-selfcheck"))
              (field "description"
                (or_falsy (get "description" finding)
                  (or_falsy (get "detail" finding) (or_str (get "summary" finding) "")))
                (field "evidence"
                  (if truthy (get "evidence" finding)
                    then arr (cons (str (text_from rt (get "evidence" finding))) nil)
                    else arr nil)
                  (field "remediation"
                    (or_falsy (get "remediation_task" finding) (
                      or_falsy (get "remediation" finding)
                        (or_falsy (get "recommendation" finding) null)))
                    (field "source" (str "Agent_Security_Selfcheck_v3.4.0.py") (
                      field "status" (get "status" finding)
                        (field "risk" (get "risk" finding) end))))))))))

  abbrev contract_findings : Items → ℕ → Items
  contract_findings nil n = nil
  contract_findings (cons v vs) n = cons (contract_finding v n) (contract_findings vs (n + 1))

  abbrev findings_of : Value → Items
  findings_of (arr vs) = contract_findings vs 1
  findings_of undef = nil
  findings_of _ = nil

  -- `toContract`, for a report and a job's data that are objects, at the time `now`.
  unfoldable pub to_contract : (scanner_target now : String) → (raw data' : Value) → Value
  to_contract scanner_target now raw data' =
      let metadata = or_falsy (get "metadata" raw) (obj end) in
      obj (
        field "contractVersion" (str scanner_bundle_contract_version) (
          field "scanner"
            (obj (
              field "name" (str "Agent Security Selfcheck") (
                field "version" (or_str (get "script_version" metadata) "3.4.0")
                  (field "scriptSha256" (get "script_sha256" metadata) end))))
            (field "target"
              (obj (
                field "assetId"
                  (or_falsy (get "targetId" data')
                    (or_falsy (get "oneTimeAuditId" data') (get "runId" data')))
                  (field "subjectType" (get "subjectType" data')
                    (field "hostname" (or_str (get "target_root" metadata) scanner_target) end))))
              (field "score" (get "score" raw) (
                field "executiveSummary" (get "executive_summary" raw) (
                  field "findings" (arr (findings_of (get "findings" raw)))
                    (field "collectedAt" (or_str (get "generated_utc" metadata) now) end)))))))

  -- `artifactTypeFor` and `contentTypeFor`, for what `extname` makes of the path.
  unfoldable pub artifact_type_for : String → String
  artifact_type_for extension =
      let ext = rt.to_lower extension in
      if str_eq ext ".json"
      then "scanner.raw_output"
      else if str_eq ext ".md"
      then "markdown"
      else if str_eq ext ".sarif"
      then "sarif"
      else if str_eq ext ".pdf"
      then "pdf"
      else "json"

  unfoldable pub content_type_for : String → String
  content_type_for extension =
      let ext = rt.to_lower extension in
      if str_eq ext ".json"
      then "application/json"
      else if str_eq ext ".md"
      then "text/markdown; charset=utf-8"
      else if str_eq ext ".sarif"
      then "application/sarif+json"
      else if str_eq ext ".pdf"
      then "application/pdf"
      else "application/octet-stream"
