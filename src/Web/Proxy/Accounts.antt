-- ===== src/Web/Proxy/Accounts.antt =====
-- web/app/api/users and app/api/auth: the routes that leave every check to the API.
use Prim.Native.Char.{code}
use Prim.Native.String.{◌++◌}
use shore_sentinel_app.Base.{
  ℕ, ◌+◌, ◌==◌, leb, ◌&&◌, codes, split_on, String, Bool, true, false, not, Option, none, some,
  List, [], ◌∷◌, ◌++◌ as append, one_of, str_eq, filter, map, if◌then◌else◌,
}
use shore_sentinel_app.Value.{obj, end, text_or}
use shore_sentinel_app.Runtime.{Runtime}
use shore_sentinel_app.Web.Proxy.{
  Incoming, Call, Answer, unreachable, answered, Reply, message, passed_on, redirected, rejected,
  Outcome, at_once, after, is_ok, forward,
}
use shore_sentinel_app.Web.Proxy.Targets.{encoded_path}
use shore_sentinel_app.Web.Proxy.Mutations.{Form, from_entries_onto, send_json}
use shore_sentinel_app.Web.Paths.{app_path}

abbrev pub users_suffix : Runtime → List String → String
users_suffix rt [] = ""
users_suffix rt (s ∷ rest) = "/" ++ encoded_path rt (s ∷ rest)

abbrev pub users_call : Runtime → String → Incoming → List String → Option String → Call
users_call rt base request segments body = record {
  method = request.method;
  url = base ++ "/users" ++ users_suffix rt segments;
  cookie = request.cookie;
  authorization = request.authorization;
  content_type = request.content_type;
  body = body;
}

abbrev pub users_unavailable : Reply
users_unavailable = message 503 "Users service unavailable"

-- `proxyUsers`.
unfoldable pub proxy_users : Runtime → (Call → Answer) → String → Incoming → List String → Outcome
proxy_users rt fetch base request segments =
    if one_of ("GET" ∷ "HEAD" ∷ []) request.method
    then forward fetch users_unavailable (users_call rt base request segments none)
    else elim request.body [
      | none ↦ at_once rejected
      | some body ↦
          forward fetch users_unavailable (users_call rt base request segments (some body))
    ]

-- `GET` of app/api/auth/me.
abbrev pub me_reply : Answer → Reply
me_reply unreachable = message 503 "Auth service unavailable"
me_reply (answered status content_type set_cookie (some body) json) =
    passed_on status (text_or content_type "application/json") body
me_reply (answered status content_type set_cookie none json) =
    message 503 "Auth service unavailable"

unfoldable pub get_me : (Call → Answer) → String → Incoming → Outcome
get_me fetch base request =
    let call : Call = record {
      method = "GET";
      url = base ++ "/auth/me";
      cookie = request.cookie;
      authorization = "";
      content_type = "";
      body = none;
    } in
    after call (at_once (me_reply (fetch call)))

-- `/^path=/i.test(part)`.
abbrev pub lower_code : ℕ → ℕ
lower_code c = if leb b'A' c && leb c b'Z' then c + 32 else c

abbrev pub begins_any_case : List ℕ → String → Bool
begins_any_case [] s = true
begins_any_case (p ∷ ps) String.[] = false
begins_any_case (p ∷ ps) (String.◌∷◌ c s) = (lower_code (code c) == p) && begins_any_case ps s

abbrev pub is_path_part : String → Bool
is_path_part part = begins_any_case (codes "path=") part

-- `parts.join('; ')`.
abbrev pub joined_parts : List String → String
joined_parts [] = ""
joined_parts (p ∷ []) = p
joined_parts (p ∷ (q ∷ rest)) = p ++ "; " ++ joined_parts (q ∷ rest)

abbrev pub kept_parts : Runtime → String → List String
kept_parts rt cookie =
    filter (λ part. not (is_path_part part)) (map (λ part. rt.trim part) (split_on b';' cookie))

-- `normalizeAuthCookie`: the empty text where there is no cookie.
unfoldable pub normalize_auth_cookie : Runtime → String → String
normalize_auth_cookie rt cookie =
    if str_eq cookie "" then "" else joined_parts (append (kept_parts rt cookie) ("Path=/" ∷ []))

-- `redirectTo` of the routes under app/api/auth.
abbrev pub redirect_to : Runtime → String → String → String → Reply
redirect_to rt web_base path cookie =
    redirected (app_path web_base path) (normalize_auth_cookie rt cookie)

-- The call of `forwardAuth`; it carries no credentials.
abbrev pub auth_call : String → String → Option String → Call
auth_call base path body = record {
  method = "POST";
  url = base ++ path;
  cookie = "";
  authorization = "";
  content_type = "application/json";
  body = body;
}

abbrev pub auth_reply : Runtime → String → String → Answer → Reply
auth_reply rt web_base path unreachable = redirect_to rt web_base (path ++ "?auth=unavailable") ""
auth_reply rt web_base path (answered status content_type set_cookie body json) =
    if is_ok status
    then redirect_to rt web_base "/dashboard" set_cookie
    else redirect_to rt web_base (path ++ "?auth=failed") ""

-- `POST` of app/api/auth/login and app/api/auth/register; the path names the one or the other.
unfoldable pub post_auth :
    Runtime → (Call → Answer) → String → String → String → Option Form → Outcome
post_auth rt fetch base web_base path none = at_once rejected
post_auth rt fetch base web_base path (some form) =
    send_json fetch (auth_reply rt web_base path) (auth_call base path)
      (rt.stringify (obj (from_entries_onto end form)))
