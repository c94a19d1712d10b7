-- ===== src/Api/Accounts.antt =====
-- api/src/app.controller.ts: the management of users by an administrator. The rows of other tables
-- that refer to a user are left out, and so are the rows and times that a request only returns.
pub mod Laws
use shore_sentinel_app.Base.{
  ℕ, String, Bool, true, false, not, ◌&&◌, ◌||◌, Option, none, some, List, [], ◌∷◌, any, map,
  filter, str_eq, one_of, if◌then◌else◌,
}
use shore_sentinel_app.Value.{Value, undef, arr, items, str, is_text, text_of, get}
use shore_sentinel_app.Runtime.{Runtime, text_from}
use shore_sentinel_app.Api.Permissions.{is_admin}
use shore_sentinel_app.Api.Run.Requests.{require_string}

-- A row of `users`, with the names of its rows of `user_roles`.
pub record User : Type 0 where
  pub id : String
  pub tenant_id : String
  pub email : String
  pub display_name : String
  pub password_hash : String
  pub disabled : Bool
  pub roles : List String

-- A row of `audit_log`; the actor is null once that user has been deleted.
pub record AuditEntry : Type 0 where
  pub tenant_id : String
  pub actor : Option String
  pub action : String
  pub resource_id : Option String

pub record Accounts : Type 0 where
  pub users : List User
  pub audits : List AuditEntry

-- `RequestPrincipal`.
pub record Principal : Type 0 where
  pub user_id : String
  pub tenant_id : String
  pub roles : List String

-- What a request comes to.
pub data Answer : Type 0 where
  done forbidden bad_request conflict database_error : Answer

-- The names of the enumeration `role_name`; the database has a row of each.
abbrev pub role_names : List String
role_names = "admin" ∷ "operator" ∷ "analyst" ∷ "viewer" ∷ []

-- `WHERE tenant_id = $1 AND id = $2`.
abbrev pub is_user : (tenant id : String) → User → Bool
is_user tenant id u = str_eq u.tenant_id tenant && str_eq u.id id

abbrev pub change_user : (tenant id : String) → (User → User) → List User → List User
change_user tenant id f users = map (λ u. if is_user tenant id u then f u else u) users

abbrev pub audit : Principal → (action resource_id : String) → AuditEntry
audit p action resource_id = record {
  tenant_id = p.tenant_id;
  actor = some p.user_id;
  action = action;
  resource_id = some resource_id;
}

abbrev pub record_audit : Principal → (action resource_id : String) → Accounts → Accounts
record_audit p action resource_id a = record a { audits = audit p action resource_id ∷ a.audits }

abbrev pub give_role : String → User → User
give_role role u = if one_of u.roles role then u else record u { roles = role ∷ u.roles }

-- The loop over the roles: a text that is no role name is an error of the database, which ends the
-- loop and leaves the roles that were given before.
abbrev pub give_roles : (tenant id : String) → List String → List User → Bool × List User
give_roles tenant id [] users = (true, users)
give_roles tenant id (role ∷ roles) users =
    let rest = give_roles tenant id roles (change_user tenant id (give_role role) users) in
    if one_of role_names role then rest else (false, users)

-- `Array.isArray(v)`, with the texts of its elements.
abbrev pub role_list : Runtime → Value → Option (List String)
role_list rt (arr vs) = some (map (text_from rt) (items vs))
role_list rt undef = none
role_list rt _ = none

abbrev pub roles_or_operator : Option (List String) → List String
roles_or_operator none = "operator" ∷ []
roles_or_operator (some roles) = roles

-- The end of a request that gives roles.
abbrev pub after_roles :
    Principal → (action id : String) → List AuditEntry → Bool × List User → Answer × Accounts
after_roles p action id audits (ok, users) =
    if ok
    then (done, record_audit p action id (record { users = users; audits = audits }))
    else (database_error, record { users = users; audits = audits })

-- `createUser` after its checks, for `bcrypt.hash` of the password and the identifier of the new row.
abbrev pub add_user :
    Principal
    → (new_id email display_name hash : String) → List String
    → Accounts
    → Answer × Accounts
add_user p new_id email display_name hash roles a =
    if any (λ u. str_eq u.email email) a.users
    then (conflict, a)
    else let u : User = record {
      id = new_id;
      tenant_id = p.tenant_id;
      email = email;
      display_name = display_name;
      password_hash = hash;
      disabled = false;
      roles = [];
    } in
      after_roles p "user.created" new_id a.audits
        (give_roles p.tenant_id new_id roles (u ∷ a.users))

-- The requests, each with its body where it has one.
pub data AccountRequest : Type 0 where
  create : (new_id : String) → (body : Value) → AccountRequest
  update reset : (id : String) → (body : Value) → AccountRequest
  delete disable enable : (id : String) → AccountRequest

-- `createUser`.
unfoldable pub create_user :
    Runtime
    → (hash : String → String) → Principal
    → (new_id : String) → Value
    → Accounts
    → Answer × Accounts
create_user rt hash p new_id body a = elim (require_string rt body "email") [
  | none ↦ (bad_request, a)
  | some email ↦ elim (require_string rt body "display_name") [
    | none ↦ (bad_request, a)
    | some display_name ↦ elim (require_string rt body "password") [
      | none ↦ (bad_request, a)
      | some password ↦
          add_user p new_id email display_name (hash password)
            (roles_or_operator (role_list rt (get "roles" body))) a
    ]
  ]
]

-- The fields that `updateUser` sets.
abbrev pub set_fields : Value → User → User
set_fields body u = record u {
  email = if is_text (get "email" body) then text_of (get "email" body) else u.email;
  display_name =
      if is_text (get "display_name" body)
      then text_of (get "display_name" body)
      else u.display_name;
}

-- Another user with the address that is set: the addresses are unique.
abbrev pub takes_email : (id : String) → Value → List User → Bool
takes_email id body users =
    is_text (get "email" body)
    && any (λ u. str_eq u.email (text_of (get "email" body)) && not (str_eq u.id id)) users

-- The roles that replace those of a user, where there are any in the body.
abbrev pub replace_roles :
    Principal → (id : String) → List User → Option (List String) → Bool × List User
replace_roles p id users none = (true, users)
replace_roles p id users (some roles) =
    give_roles p.tenant_id id roles
      (change_user p.tenant_id id (λ u. record u { roles = [] }) users)

-- `updateUser`.
unfoldable pub update_user :
    Runtime → Principal → (id : String) → Value → Accounts → Answer × Accounts
update_user rt p id body a =
    if takes_email id body a.users
    then (database_error, a)
    else after_roles p "user.updated" id a.audits (
        replace_roles p id (change_user p.tenant_id id (set_fields body) a.users)
          (role_list rt (get "roles" body)))

-- `resetPassword`.
unfoldable pub reset_password :
    Runtime
    → (hash : String → String) → Principal
    → (id : String) → Value
    → Accounts
    → Answer × Accounts
reset_password rt hash p id body a = elim (require_string rt body "password") [
  | none ↦ (bad_request, a)
  | some password ↦ (
    done,
    record_audit p "user.password_reset" id (record a {
      users = change_user p.tenant_id id (λ u. record u { password_hash = hash password }) a.users;
    }),
  )
]

abbrev pub detach : (tenant id : String) → AuditEntry → AuditEntry
detach tenant id e =
    if str_eq e.tenant_id tenant && elim e.actor [ none ↦ false | some actor ↦ str_eq actor id ]
    then record e { actor = none }
    else e

-- `deleteUser`.
unfoldable pub delete_user : Principal → (id : String) → Accounts → Answer × Accounts
delete_user p id a = (
  done,
  record {
    users = filter (λ u. not (is_user p.tenant_id id u)) a.users;
    audits = map (detach p.tenant_id id) (audit p "user.deleted" id ∷ a.audits);
  },
)

-- `disableUser` and `enableUser`.
unfoldable pub set_disabled :
    (disabled : Bool) (action : String) → Principal → (id : String) → Accounts → Answer × Accounts
set_disabled disabled action p id a = (
  done,
  record_audit p action id (record a {
    users = change_user p.tenant_id id (λ u. record u { disabled = disabled }) a.users;
  }),
)

-- `requireTenantUser`.
abbrev pub within_tenant :
    Principal → (id : String) → Accounts → Answer × Accounts → Answer × Accounts
within_tenant p id a result =
    if any (is_user p.tenant_id id) a.users then result else (bad_request, a)

-- A request of the principal, which has to be an administrator.
unfoldable pub handle_account :
    Runtime → (hash : String → String) → Principal → AccountRequest → Accounts → Answer × Accounts
handle_account rt hash p request a =
    if not (is_admin p.roles) then (forbidden, a) else elim request [
      | create new_id body ↦ create_user rt hash p new_id body a
      | update id body ↦ within_tenant p id a (update_user rt p id body a)
      | reset id body ↦ within_tenant p id a (reset_password rt hash p id body a)
      | delete id ↦ within_tenant p id a (delete_user p id a)
      | disable id ↦ within_tenant p id a (set_disabled true "user.disabled" p id a)
      | enable id ↦ within_tenant p id a (set_disabled false "user.enabled" p id a)
    ]
