-- ===== src/Web/Proxy/ScanRuns.antt =====
-- web/app/api/scan-runs/[...path]/route.js: the progress of a run.
use Prim.Native.String.{◌++◌}
use shore_sentinel_app.Base.{
  String, Bool, true, false, not, none, List, [], ◌∷◌, one_of, str_eq, if◌then◌else◌,
}
use shore_sentinel_app.Runtime.{Runtime}
use shore_sentinel_app.Web.Proxy.{
  Incoming, Call, Answer, Reply, message, Outcome, at_once, authorize, read_refusal, forward,
}
use shore_sentinel_app.Web.Proxy.Targets.{encoded_path}

abbrev pub read_roles : List String
read_roles = "admin" ∷ "operator" ∷ "analyst" ∷ "viewer" ∷ []

abbrev pub read_subresources : List String
read_subresources = "events" ∷ "artifacts" ∷ []

-- `allowedPath`.
unfoldable pub allowed_path : List String → Bool
allowed_path (a ∷ []) = true
allowed_path (a ∷ (b ∷ [])) = one_of read_subresources b
allowed_path _ = false

abbrev pub run_call : String → Incoming → String → Call
run_call base request path = record {
  method = "GET";
  url = base ++ "/scan-runs/" ++ path;
  cookie = request.cookie;
  authorization = request.authorization;
  content_type = "";
  body = none;
}

abbrev pub progress_unavailable : Reply
progress_unavailable = message 503 "Scan progress service unavailable"

-- `GET`. One `try` holds both calls, so every failure is reported as that of the progress service.
unfoldable pub get_scan_run : Runtime → (Call → Answer) → String → Incoming → List String → Outcome
get_scan_run rt fetch base request segments =
    let path = encoded_path rt segments in
    if str_eq path ""
    then at_once (message 400 "Scan run path is required")
    else if not (allowed_path segments)
    then at_once (message 405 "Scan run operation is not allowed")
    else authorize rt fetch base read_refusal progress_unavailable read_roles request
        (forward fetch progress_unavailable (run_call base request path))
