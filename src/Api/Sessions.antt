-- ===== src/Api/Sessions.antt =====
-- api/src/auth.service.ts, request-principal.ts, internal-worker-route.ts and main.ts: sessions, and
-- the gate before every request that needs one.
pub mod Laws
use shore_sentinel_app.Base.{
  ℕ, ◌+◌, ◌*◌, String, Bool, true, false, not, ◌&&◌, ◌||◌, Option, none, some, List, [], ◌∷◌, any,
  filter, leb, str_eq, one_of, split_on, if◌then◌else◌,
}
use shore_sentinel_app.Api.Accounts.{User, AuditEntry, Accounts, Principal, is_user}

abbrev pub thirty_days_ms : ℕ
thirty_days_ms = 1000 * 60 * 60 * 24 * 30

abbrev pub default_session_ms : ℕ
default_session_ms = 1000 * 60 * 60 * 12

pub record Session : Type 0 where
  pub user_id : String
  pub tenant_id : String
  pub created_at : ℕ
  pub expires_at : ℕ

-- The map of the sessions by their tokens: an entry that is set hides those behind it.
abbrev pub Sessions : Type 0
Sessions = List (String × Session)

abbrev pub get_session : String → Sessions → Option Session
get_session token [] = none
get_session token (entry ∷ sessions) =
    let rest = get_session token sessions in if str_eq entry.0 token then some entry.1 else rest

abbrev pub delete_session : String → Sessions → Sessions
delete_session token sessions = filter (λ entry. not (str_eq entry.0 token)) sessions

-- `createSession`, for the token of `randomUUID()`.
unfoldable pub create_session :
    (now : ℕ) (token user_id tenant_id : String) (remember_me : Bool) → Sessions → Sessions
create_session now token user_id tenant_id remember_me sessions =
    (
      token,
      record {
        user_id = user_id;
        tenant_id = tenant_id;
        created_at = now;
        expires_at = now + (if remember_me then thirty_days_ms else default_session_ms);
      },
    )
    ∷ sessions

-- `logout`.
unfoldable pub logout : Option String → Sessions → Sessions
logout none sessions = sessions
logout (some token) sessions = if str_eq token "" then sessions else delete_session token sessions

-- The first of the rows that a condition selects.
abbrev pub find_user : (User → Bool) → List User → Option User
find_user p [] = none
find_user p (u ∷ users) = let rest = find_user p users in if p u then some u else rest

abbrev pub has_role : User → Bool
has_role u = any (λ role. true) u.roles

-- The query of `me`: its joins bring no row for a user without a role.
abbrev pub is_current : Session → User → Bool
is_current session u = is_user session.tenant_id session.user_id u && not u.disabled && has_role u

abbrev pub principal_of : User → Principal
principal_of u = record { user_id = u.id; tenant_id = u.tenant_id; roles = u.roles }

-- A session is deleted when its user is not found.
abbrev pub found_session : (token : String) → Sessions → Option User → Option Principal × Sessions
found_session token sessions none = (none, delete_session token sessions)
found_session token sessions (some u) = (some (principal_of u), sessions)

-- `me` for a token that is no empty text: the user's row as a principal, none where it throws.
abbrev pub session_user :
    (now : ℕ) (token : String) → List User → Sessions → Option Session → Option Principal × Sessions
session_user now token users sessions none = (none, sessions)
session_user now token users sessions (some session) =
    if leb session.expires_at now
    then (none, delete_session token sessions)
    else found_session token sessions (find_user (is_current session) users)

unfoldable pub me : (now : ℕ) → Option String → List User → Sessions → Option Principal × Sessions
me now none users sessions = (none, sessions)
me now (some token) users sessions =
    if str_eq token ""
    then (none, sessions)
    else session_user now token users sessions (get_session token sessions)

-- What `login` and `register` return: a token, or an error.
pub data SignIn : Type 0 where
  signed_in : (token : String) → SignIn
  invalid_credentials email_exists : SignIn

abbrev pub note : (tenant_id : String) → Option String → (action : String) → Accounts → Accounts
note tenant_id user action a = record a {
  audits =
      record { tenant_id = tenant_id; actor = user; action = action; resource_id = user }
      ∷ a.audits;
}

-- `login`, for `bcrypt.compare`, the default tenant and a new token.
unfoldable pub login :
    (compare : String → String → Bool) (now : ℕ) (default_tenant token email password : String)
    (remember_me : Bool)
    → Accounts × Sessions
    → SignIn × Accounts × Sessions
login compare now default_tenant token email password remember_me (a, sessions) =
    elim (find_user (λ u. str_eq u.email email && not u.disabled) a.users) [
      | none ↦ (invalid_credentials, note default_tenant none "auth.login_failure" a, sessions)
      | some u ↦
          if not (compare password u.password_hash)
          then (invalid_credentials, note default_tenant none "auth.login_failure" a, sessions)
          else (
            signed_in token,
            note default_tenant (some u.id) "auth.login_success" a,
            create_session now token u.id u.tenant_id remember_me sessions,
          )
    ]

-- `register`, for `bcrypt.hash` and a new identifier.
unfoldable pub register :
    (hash : String → String) (now : ℕ) (default_tenant new_id token name email password : String)
    (remember_me : Bool)
    → Accounts × Sessions
    → SignIn × Accounts × Sessions
register hash now default_tenant new_id token name email password remember_me (a, sessions) =
    if any (λ u. str_eq u.email email) a.users
    then (email_exists, a, sessions)
    else let u : User = record {
      id = new_id;
      tenant_id = default_tenant;
      email = email;
      display_name = name;
      password_hash = hash password;
      disabled = false;
      roles = "operator" ∷ [];
    } in
      (
        signed_in token,
        note default_tenant (some new_id) "auth.register_success"
            (record a { users = u ∷ a.users }),
        create_session now token new_id default_tenant remember_me sessions,
      )

-- `WORKER_SERVICE_ROUTES`, by the parts of the path.
abbrev pub is_run_events : List String → Bool
is_run_events (a ∷ runs ∷ id ∷ events ∷ []) =
    str_eq a "" && str_eq runs "runs" && not (str_eq id "") && str_eq events "events"
is_run_events _ = false

abbrev pub is_worker_run : (last : String) → List String → Bool
is_worker_run last (a ∷ internal ∷ worker ∷ runs ∷ id ∷ final ∷ []) =
    str_eq a ""
    && str_eq internal "internal"
    && str_eq worker "worker"
    && str_eq runs "runs"
    && not (str_eq id "")
    && str_eq final last
is_worker_run last _ = false

-- `isInternalWorkerServiceRoute`.
unfoldable pub is_internal_worker_service_route : (method path : String) → Bool
is_internal_worker_service_route method path =
    (str_eq method "POST"
      && (is_run_events (split_on b'/' path)
          || str_eq path "/artifacts"
          || is_worker_run "ssh-grant" (split_on b'/' path)
          || str_eq path "/internal/worker/artifact-cleanup/reconcile"))
    || (str_eq method "GET" && is_worker_run "control" (split_on b'/' path))

-- `PUBLIC_PATHS`.
abbrev pub public_paths : List String
public_paths = "/health" ∷ "/ready" ∷ "/auth/login" ∷ "/auth/register" ∷ []

abbrev pub needs_session : (method path : String) → Bool
needs_session method path = not (
    str_eq method "OPTIONS"
    || one_of public_paths path
    || is_internal_worker_service_route method path)

-- What the gate does with a request: it goes on, with a principal or without, or is answered 401.
pub data Gate : Type 0 where
  goes_on : Option Principal → Gate
  unauthorized : Gate

-- `principalFrom`, on the row of `me`.
abbrev pub is_principal : Principal → Bool
is_principal p = not (str_eq p.user_id "") && not (str_eq p.tenant_id "")

abbrev pub admit : Option Principal → Gate
admit none = unauthorized
admit (some p) = if is_principal p then goes_on (some p) else unauthorized

-- The middleware of `bootstrap` with `attachSessionPrincipal`, for the token of the cookie or the
-- `authorization` header.
unfoldable pub gate :
    (now : ℕ) (method path : String) → Option String → List User → Sessions → Gate × Sessions
gate now method path token users sessions =
    if not (needs_session method path)
    then (goes_on none, sessions)
    else let result = me now token users sessions in (admit result.0, result.1)
