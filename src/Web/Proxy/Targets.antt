-- ===== src/Web/Proxy/Targets.antt =====
-- web/app/api/targets/[...path]/route.js: the managed machines.
use Prim.Native.String.{◌++◌}
use shore_sentinel_app.Base.{
  String, Bool, false, ◌&&◌, Option, none, some, List, [], ◌∷◌, map, length, one_of, str_eq, leb,
  ◌==◌, if◌then◌else◌,
}
use shore_sentinel_app.Runtime.{Runtime}
use shore_sentinel_app.Web.Proxy.{
  Incoming, Call, Answer, Reply, message, rejected, Outcome, at_once, authorize, read_refusal,
  forward,
}

abbrev pub authenticated_roles : List String
authenticated_roles = "admin" ∷ "operator" ∷ "analyst" ∷ "viewer" ∷ []

-- `segments.map(encodeURIComponent).join('/')`.
abbrev pub joined : List String → String
joined [] = ""
joined (s ∷ []) = s
joined (s ∷ (t ∷ rest)) = s ++ "/" ++ joined (t ∷ rest)

abbrev pub encoded_path : Runtime → List String → String
encoded_path rt segments = joined (map (λ s. rt.encode s) segments)

abbrev pub second_is : String → List String → Bool
second_is s (a ∷ (b ∷ [])) = str_eq b s
second_is s _ = false

-- `allowedRoles`.
unfoldable pub allowed_roles : String → List String → Option (List String)
allowed_roles method segments =
    if str_eq method "GET" && leb 1 (length segments)
    then some authenticated_roles
    else if str_eq method "POST" && second_is "scan-jobs" segments
    then some ("admin" ∷ "operator" ∷ "analyst" ∷ [])
    else if str_eq method "PATCH" && (length segments == 1)
    then some ("admin" ∷ "operator" ∷ [])
    else if str_eq method "DELETE" && (length segments == 1)
    then some ("admin" ∷ [])
    else none

-- The call of `proxyTargetRequest`, with the body that was read.
abbrev pub target_call : String → Incoming → String → Option String → Call
target_call base request path body = record {
  method = request.method;
  url = base ++ "/targets/" ++ path;
  cookie = request.cookie;
  authorization = request.authorization;
  content_type = request.content_type;
  body = body;
}

abbrev pub machine_unavailable : Reply
machine_unavailable = message 503 "Managed machine service unavailable"

-- From the reading of the body on. Reading it stands before the `try`.
abbrev pub send_target : (Call → Answer) → String → Incoming → String → Outcome
send_target fetch base request path =
    if one_of ("GET" ∷ "HEAD" ∷ []) request.method
    then forward fetch machine_unavailable (target_call base request path none)
    else elim request.body [
      | none ↦ at_once rejected
      | some body ↦ forward fetch machine_unavailable (target_call base request path (some body))
    ]

-- `proxyTargetRequest`.
unfoldable pub proxy_target_request :
    Runtime → (Call → Answer) → String → Incoming → List String → Outcome
proxy_target_request rt fetch base request segments =
    let path = encoded_path rt segments in
    if str_eq path ""
    then at_once (message 400 "Target path is required")
    else elim (allowed_roles request.method segments) [
      | none ↦ at_once (message 405 "Target operation is not allowed")
      | some roles ↦
          authorize rt fetch base read_refusal (message 503 "Authorization service unavailable")
            roles request (send_target fetch base request path)
    ]
