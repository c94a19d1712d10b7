-- ===== src/Web/Proxy.antt =====
-- web/app/api: the routes that pass requests on to the API, with what they share: the calls they
-- make, the replies they give and the check of the caller's role.
pub mod Targets
pub mod ScanRuns
pub mod Mutations
pub mod Accounts
pub mod Forms
pub mod Contract
pub mod Authorized
pub mod Laws
pub mod Roles
use Prim.Native.String.{◌++◌}
use shore_sentinel_app.Base.{
  ℕ, String, Bool, true, false, not, ◌&&◌, ◌||◌, Option, none, some, List, [], ◌∷◌, map, any,
  one_of, str_eq, leb, ltb, ◌==◌, if◌then◌else◌,
}
use shore_sentinel_app.Value.{Value, array, get, text_or}
use shore_sentinel_app.Runtime.{Runtime, text_from}
use shore_sentinel_app.Web.Paths.{drop_final_slash}

-- A request to a route. A header that is missing is the empty text: the code treats both alike.
-- The body is `none` where reading it throws.
pub record Incoming : Type 0 where
  pub method : String
  pub cookie : String
  pub authorization : String
  pub content_type : String
  pub body : Option String

-- A call of `fetch`; whether it follows redirects is not recorded.
pub record Call : Type 0 where
  pub method : String
  pub url : String
  pub cookie : String
  pub authorization : String
  pub content_type : String
  pub body : Option String

-- What a call brings: an error, or a response, of which the body may be unreadable as a text or
-- as JSON.
pub data Answer : Type 0 where
  unreachable : Answer
  answered :
      (status : ℕ) (content_type set_cookie : String) (body : Option String) (json : Option Value)
      → Answer

-- What a route returns: a message as JSON, the API's response passed on, a redirection to a path
-- with cookies to set, or a rejection of the handler itself.
pub data Reply : Type 0 where
  message : (status : ℕ) → String → Reply
  passed_on : (status : ℕ) (content_type body : String) → Reply
  redirected : (location set_cookie : String) → Reply
  rejected : Reply

-- A reply and the calls that were made for it, in order.
pub record Outcome : Type 0 where
  pub reply : Reply
  pub calls : List Call

abbrev pub at_once : Reply → Outcome
at_once r = record { reply = r; calls = [] }

abbrev pub after : Call → Outcome → Outcome
after c o = record { reply = o.reply; calls = c ∷ o.calls }

-- The environment variables that name the API, empty where they are not set.
pub record Addresses : Type 0 where
  pub internal_api_url : String
  pub api_url : String
  pub public_sentinel_api_url : String
  pub public_api_url : String

-- `serverApiBase`.
unfoldable pub server_api_base : Addresses → String
server_api_base env = drop_final_slash (
    text_or env.internal_api_url (
      text_or env.api_url
        (text_or env.public_sentinel_api_url (text_or env.public_api_url "http://api:4000"))))

-- `response.ok`.
abbrev pub is_ok : ℕ → Bool
is_ok status = leb 200 status && ltb status 300

-- The call that asks the API who is calling.
abbrev pub identity_call : String → Incoming → Call
identity_call base request = record {
  method = "GET";
  url = base ++ "/auth/me";
  cookie = request.cookie;
  authorization = request.authorization;
  content_type = "";
  body = none;
}

-- `roles` of the user as the routes read them, in lower case.
abbrev pub user_roles : Runtime → Value → List String
user_roles rt user = map (λ role. rt.to_lower (text_from rt role)) (array (get "roles" user))

-- `roles.some((role) => userRoles.includes(role))`.
abbrev pub shares_role : List String → List String → Bool
shares_role allowed held = any (one_of held) allowed

-- Whether the request names its caller at all.
abbrev pub has_credentials : Incoming → Bool
has_credentials request = not (str_eq request.cookie "") || not (str_eq request.authorization "")

-- The refusals of the routes under targets and scan-runs, and of the routes that change data.
abbrev pub read_refusal : ℕ → Reply
read_refusal status =
    if status == 401
    then message 401 "Authentication required"
    else if status == 403
    then message 403 "Access denied"
    else message 503 "Authorization service unavailable"

abbrev pub edit_refusal : ℕ → Reply
edit_refusal status =
    if status == 401
    then message 401 "Authentication required"
    else message 503 "Authorization service unavailable"

-- What comes of the API's answer to the identity call: a reply that refuses, or none.
abbrev pub refusal : Runtime → (ℕ → Reply) → Reply → List String → Answer → Option Reply
refusal rt refuse unavailable roles unreachable = some unavailable
refusal rt refuse unavailable roles (answered status content_type set_cookie body json) =
    if not (is_ok status) then some (refuse status) else elim json [
      | none ↦ some unavailable
      | some user ↦
          if shares_role roles (user_roles rt user)
          then none
          else some (message 403 "Insufficient permissions")
    ]

-- The check of the caller that the routes have in common, before what they do for a caller who
-- passes it.
unfoldable pub authorize :
    Runtime
    → (Call → Answer)
    → String
    → (ℕ → Reply)
    → Reply
    → List String
    → Incoming
    → Outcome
    → Outcome
authorize rt fetch base refuse unavailable roles request next =
    if not (has_credentials request)
    then at_once (message 401 "Authentication required")
    else let call = identity_call base request in
      after call (elim (refusal rt refuse unavailable roles (fetch call)) [
        | some reply ↦ at_once reply
        | none ↦ next
      ])

-- The response to a call that is passed on as it is.
abbrev pub pass_on : Reply → Answer → Reply
pass_on unavailable unreachable = unavailable
pass_on unavailable (answered status content_type set_cookie (some body) json) =
    passed_on status content_type body
pass_on unavailable (answered status content_type set_cookie none json) = unavailable

abbrev pub forward : (Call → Answer) → Reply → Call → Outcome
forward fetch unavailable call = after call (at_once (pass_on unavailable (fetch call)))
