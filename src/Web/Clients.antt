-- ===== src/Web/Clients.antt =====
-- web/lib/session.js and users-api.js: the requests of the pages and
-- what is made of the responses.
use Prim.Native.String.{◌++◌}
use shore_sentinel_app.Base.{
  ℕ, String, Bool, not, ◌&&◌, Option, none, some, str_eq, leb, ltb, Result, fails, gives,
  if◌then◌else◌,
}
use shore_sentinel_app.Value.{Value, null, str, obj, end, field, get, or_falsy}
use shore_sentinel_app.Runtime.{Runtime, text_from, Serialized, text, nothing, throws}
use shore_sentinel_app.Web.Paths.{app_path}
use shore_sentinel_app.Web.Proxy.{Addresses, server_api_base}

-- A request, with its body where it has one.
pub record PageCall : Type 0 where
  pub method : String
  pub url : String
  pub cookie : String
  pub content_type : String
  pub body : Option String

-- What a call brings; `json` is an error where the body cannot be read as JSON.
pub data PageAnswer : Type 0 where
  down : String → PageAnswer
  given : (status : ℕ) (json : Result Value) → PageAnswer

abbrev is_fine : ℕ → Bool
is_fine status = leb 200 status && ltb status 300

-- `parseError` of users-api.js: a body that is no JSON counts as an empty object, and reading a
-- field of null throws.
abbrev error_message : Runtime → Result Value → String → String
error_message rt (fails e) fallback = fallback
error_message rt (gives null) fallback = "Cannot read properties of null (reading 'message')"
error_message rt (gives body) fallback = text_from rt (or_falsy (get "message" body) (str fallback))

-- The end of each function of users-api.js.
abbrev pub read_users : Runtime → String → PageAnswer → Result Value
read_users rt fallback (down e) = fails e
read_users rt fallback (given status json) =
    if is_fine status then json else fails (error_message rt json fallback)

-- `getAuthenticatedUser`: `none` stands for null. The user is asked for only with a session.
unfoldable pub get_authenticated_user : Addresses → (PageCall → PageAnswer) → String → Option Value
get_authenticated_user env fetch token =
    if str_eq token ""
    then none
    else elim (fetch (record {
      method = "GET";
      url = server_api_base env ++ "/auth/me";
      cookie = "shore_session=" ++ token;
      content_type = "";
      body = none;
    })) [
      | down e ↦ none
      | given status json ↦
          if not (is_fine status)
          then none
          else elim json [ fails e ↦ none | gives user ↦ some user ]
    ]

-- A body that is made of a value; where this throws nothing is sent, and the error is the runtime's.
abbrev with_body : Serialized → (Option String → Result Value) → Result Value
with_body (text body) send = send (some body)
with_body nothing send = send none
with_body throws send = fails "the value cannot be serialised"

abbrev plain_call : String → String → String → PageCall
plain_call method base path = record {
  method = method;
  url = app_path base "/api" ++ "/users" ++ path;
  cookie = "";
  content_type = "";
  body = none;
}

abbrev json_call : String → String → String → Option String → PageCall
json_call method base path body = record (plain_call method base path) {
  content_type = "application/json";
  body = body;
}

module _ (rt : Runtime) (base : String) (fetch : PageCall → PageAnswer) where
  unfoldable pub fetch_users : Result Value
  fetch_users = read_users rt "Failed to fetch users" (fetch (plain_call "GET" base ""))

  unfoldable pub fetch_roles : Result Value
  fetch_roles = read_users rt "Failed to fetch roles" (fetch (plain_call "GET" base "/roles"))

  unfoldable pub create_user : Value → Result Value
  create_user user =
      with_body (rt.stringify user)
        (λ body. read_users rt "Failed to create user" (fetch (json_call "POST" base "" body)))

  unfoldable pub update_user : String → Value → Result Value
  update_user id user = with_body (rt.stringify user) (λ body.
      read_users rt "Failed to update user" (fetch (json_call "PATCH" base ("/" ++ id) body)))

  unfoldable pub reset_password : String → Value → Result Value
  reset_password id password =
      with_body (rt.stringify (obj (field "password" password end))) (λ body.
        read_users rt "Failed to reset password"
          (fetch (json_call "POST" base ("/" ++ id ++ "/reset-password") body)))

  abbrev delete_message : PageAnswer → String
  delete_message (down e) = ""
  delete_message (given status json) = "Failed to delete user (" ++ rt.decimal status ++ ")"

  unfoldable pub delete_user : String → Result Value
  delete_user id =
      let answer = fetch (plain_call "DELETE" base ("/" ++ id)) in
      read_users rt (delete_message answer) answer

  unfoldable pub disable_user : String → Result Value
  disable_user id =
      read_users rt "Failed to disable user"
        (fetch (plain_call "POST" base ("/" ++ id ++ "/disable")))

  unfoldable pub enable_user : String → Result Value
  enable_user id =
      read_users rt "Failed to enable user"
        (fetch (plain_call "POST" base ("/" ++ id ++ "/enable")))
