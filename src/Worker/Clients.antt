-- ===== src/Worker/Clients.antt =====
-- workers/worker-node/src/apiClient.js and parserClient.js: the requests that the worker sends.
pub mod Laws
use Prim.Native.String.{◌++◌}
use shore_sentinel_app.Base.{
  ℕ, String, Bool, true, false, not, ◌&&◌, Option, none, some, List, [], ◌∷◌, ◌++◌ as ◌++ᴸ◌, ltb,
  leb, str_eq, Result, fails, gives, if◌then◌else◌,
}
use shore_sentinel_app.Value.{Value, str, obj, end, field, get, is_filled_text, text_of}
use shore_sentinel_app.Runtime.{Runtime, text_from, Serialized, text, nothing, throws}

-- A request, with its headers in order.
pub record Request : Type 0 where
  pub method : String
  pub url : String
  pub headers : List (String × String)
  pub body : Option String

-- What a request brings: an error of the network, or a response, of which the text may be
-- unreadable or no JSON.
pub data Response : Type 0 where
  failed : String → Response
  responded : (status : ℕ) (body : Result String) (json : Result Value) → Response

-- `internalHeaders`.
unfoldable pub internal_headers : String → Result (List (String × String))
internal_headers token =
    if str_eq token ""
    then fails "INTERNAL_WORKER_TOKEN is required for managed SSH execution"
    else gives (("authorization", "Bearer " ++ token) ∷ [])

-- `capabilityHeaders`.
unfoldable pub capability_headers : Value → Result (List (String × String))
capability_headers capability =
    if is_filled_text capability
    then gives (("x-worker-capability", text_of capability) ∷ [])
    else fails "worker capability is required for managed SSH lifecycle writes"

-- The request of `postJson`, for the headers that follow the content type. Where the payload cannot
-- be serialised the error is the runtime's.
abbrev pub post_request : String → List (String × String) → Serialized → Result Request
post_request url headers (text body) = gives (record {
  method = "POST";
  url = url;
  headers = ("content-type", "application/json") ∷ headers;
  body = some body;
})
post_request url headers nothing = gives (record {
  method = "POST";
  url = url;
  headers = ("content-type", "application/json") ∷ headers;
  body = none;
})
post_request url headers throws = fails "the payload cannot be serialised"

-- What `postJson` and `getJson` return for a response.
abbrev pub read_response : Runtime → String → String → Response → Result Value
read_response rt method url (failed e) = fails e
read_response rt method url (responded status body json) =
    if leb 200 status && ltb status 300 then json else elim body [
      | fails e ↦ fails e
      | gives s ↦ fails (method ++ " " ++ url ++ " failed: " ++ rt.decimal status ++ " " ++ s)
    ]

-- A post with the worker's token.
abbrev pub internal_post : Runtime → String → String → Value → Result Request
internal_post rt token url payload = elim (internal_headers token) [
  | fails e ↦ fails e
  | gives headers ↦ post_request url headers (rt.stringify payload)
]

-- A post with the worker's token and a capability.
unfoldable pub capability_post : Runtime → String → String → Value → Value → Result Request
capability_post rt token url capability payload = elim (internal_headers token) [
  | fails e ↦ fails e
  | gives headers ↦ elim (capability_headers capability) [
    | fails e ↦ fails e
    | gives more ↦ post_request url (headers ++ᴸ more) (rt.stringify payload)
  ]
]

-- The five calls of `createApiClient`.
unfoldable pub emit_run_event_request :
    Runtime → (api_url token : String) → (event capability : Value) → Result Request
emit_run_event_request rt api_url token event capability =
    capability_post rt token
      (api_url ++ "/runs/" ++ rt.encode (text_from rt (get "runId" event)) ++ "/events") capability
      event

unfoldable pub upload_artifact_request :
    Runtime → (api_url token : String) → (payload capability : Value) → Result Request
upload_artifact_request rt api_url token payload capability =
    capability_post rt token (api_url ++ "/artifacts") capability payload

unfoldable pub fetch_ssh_grant_request :
    Runtime → (api_url token run_id : String) → (target_id attempt : Value) → Result Request
fetch_ssh_grant_request rt api_url token run_id target_id attempt =
    internal_post rt token (api_url ++ "/internal/worker/runs/" ++ rt.encode run_id ++ "/ssh-grant")
      (obj (field "targetId" target_id (field "attempt" attempt end)))

unfoldable pub get_run_control_request : Runtime → (api_url token run_id : String) → Result Request
get_run_control_request rt api_url token run_id = elim (internal_headers token) [
  | fails e ↦ fails e
  | gives headers ↦ gives (record {
    method = "GET";
    url = api_url ++ "/internal/worker/runs/" ++ rt.encode run_id ++ "/control";
    headers = headers;
    body = none;
  })
]

unfoldable pub reconcile_artifact_cleanup_request :
    Runtime → (api_url token : String) → (tenant_id run_id : Value) → Result Request
reconcile_artifact_cleanup_request rt api_url token tenant_id run_id =
    internal_post rt token (api_url ++ "/internal/worker/artifact-cleanup/reconcile")
      (obj (field "tenantId" tenant_id (field "runId" run_id end)))

-- The request of `parseWithPython`, for the body that `serializeParserRequest` made.
unfoldable pub parser_request : (python_worker_url token : String) → Result String → Result Request
parser_request python_worker_url token (fails e) = fails e
parser_request python_worker_url token (gives body) = gives (record {
  method = "POST";
  url = python_worker_url ++ "/parse";
  headers = ("content-type", "application/json") ∷ ("authorization", "Bearer " ++ token) ∷ [];
  body = some body;
})

-- What `parseWithPython` returns for a response.
unfoldable pub read_parsed : Response → Result Value
read_parsed (failed e) = fails e
read_parsed (responded status body json) =
    if leb 200 status && ltb status 300 then json else fails "Python parser request failed"
