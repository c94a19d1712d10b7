-- ===== src/Api/Accounts/Laws.antt =====
-- The requests on users (api/src/app.controller.ts) and the users of other tenants.
use shore_sentinel_app.Base.{
  ◌≡◌, refl, ◌∙◌, ap, ◌⊎◌, String, Bool, true, false, not, Option, none, some, List, [], ◌∷◌, any,
  filter, str_eq, eq_iff, one_of, Bool-cases, inl, inr,
}
use shore_sentinel_app.Value.{Value, get}
use shore_sentinel_app.Runtime.{Runtime}
use shore_sentinel_app.Api.Permissions.{is_admin}
use shore_sentinel_app.Api.Run.Requests.{require_string}
use shore_sentinel_app.Api.Accounts.{
  User, Accounts, Principal, Answer, forbidden, bad_request, role_names, is_user, change_user,
  give_role, give_roles, role_list, roles_or_operator, after_roles, add_user, AccountRequest,
  create, update, reset, delete, disable, enable, create_user, set_fields, takes_email,
  replace_roles, update_user, reset_password, delete_user, set_disabled, within_tenant,
  handle_account,
}

-- The users of the other tenants.
abbrev pub foreign : String → List User → List User
foreign tenant users = filter (λ u. not (str_eq u.tenant_id tenant)) users

pub record KeepsTenant (f : User → User) : Type 0 where
  pub same : (u : User) → (f u).tenant_id ≡ u.tenant_id

foreign-change_user :
    (tenant id : String) (f : User → User)
    → KeepsTenant f
    → (users : List User) → foreign tenant (change_user tenant id f users) ≡ foreign tenant users
foreign-change_user tenant id f k [] = refl
foreign-change_user tenant id f k (u ∷ users) =
    let rest = foreign-change_user tenant id f k users in
    elim (Bool-cases (str_eq u.tenant_id tenant)) [
      | inr theirs ↦ simp (theirs, rest) refl
      | inl ours ↦ elim (Bool-cases (str_eq u.id id)) [
        | inr other ↦ simp (ours, other, rest) refl
        | inl named ↦
            let still : str_eq (f u).tenant_id tenant ≡ true =
              ap (λ t. str_eq t tenant) (k.same u) ∙ ours in
            simp (ours, named, still, rest) refl
      ]
    ]

foreign-remove :
    (tenant id : String) (users : List User)
    → foreign tenant (filter (λ u. not (is_user tenant id u)) users) ≡ foreign tenant users
foreign-remove tenant id [] = refl
foreign-remove tenant id (u ∷ users) =
    let rest = foreign-remove tenant id users in
    elim (Bool-cases (str_eq u.tenant_id tenant)) [
      | inr theirs ↦ simp (theirs, rest) refl
      | inl ours ↦ elim (Bool-cases (str_eq u.id id)) [
        | inr other ↦ simp (ours, other, rest) refl
        | inl named ↦ simp (ours, named, rest) refl
      ]
    ]

foreign-own :
    (tenant : String) (u : User) (users : List User)
    → u.tenant_id ≡ tenant
    → foreign tenant (u ∷ users) ≡ foreign tenant users
foreign-own tenant u users e =
    let ours : str_eq u.tenant_id tenant ≡ true = (eq_iff u.tenant_id tenant).1 e in
    simp (ours) refl

give_role-KeepsTenant : (role : String) → KeepsTenant (give_role role)
give_role-KeepsTenant role = record {
  same = λ u. elim (Bool-cases (one_of u.roles role)) [ inl e ↦ rw e refl | inr e ↦ rw e refl ];
}

foreign-give_roles :
    (tenant id : String) (roles : List String) (users : List User)
    → foreign tenant (give_roles tenant id roles users).1 ≡ foreign tenant users
foreign-give_roles tenant id [] users = refl
foreign-give_roles tenant id (role ∷ roles) users = elim (Bool-cases (one_of role_names role)) [
  | inr e ↦ rw e refl
  | inl e ↦ rw e (
      foreign-give_roles tenant id roles (change_user tenant id (give_role role) users)
      ∙ foreign-change_user tenant id (give_role role) (give_role-KeepsTenant role) users)
]

-- The other tenants' users after a request that came to something.
abbrev pub IsIsolated : String → Accounts → Answer × Accounts → Type 0
IsIsolated tenant a result = foreign tenant (result.1).users ≡ foreign tenant a.users

after_roles-IsIsolated :
    (p : Principal) (action id : String) (a : Accounts) (result : Bool × List User)
    → foreign p.tenant_id result.1 ≡ foreign p.tenant_id a.users
    → IsIsolated p.tenant_id a (after_roles p action id a.audits result)
after_roles-IsIsolated p action id a (true, users) h = h
after_roles-IsIsolated p action id a (false, users) h = h

add_user-IsIsolated :
    (p : Principal) (new_id email display_name hash : String) (roles : List String) (a : Accounts)
    → IsIsolated p.tenant_id a (add_user p new_id email display_name hash roles a)
add_user-IsIsolated p new_id email display_name hash roles a =
    elim (Bool-cases (any (λ u. str_eq u.email email) a.users)) [
      | inl e ↦ rw e refl
      | inr e ↦ rw e (
          after_roles-IsIsolated p "user.created" new_id a _ (
            foreign-give_roles p.tenant_id new_id roles _ ∙ foreign-own p.tenant_id _ a.users refl))
    ]

-- A check that a request may fail.
option-IsIsolated :
    (tenant : String) (a : Accounts) (o : Option String) (f : String → Answer × Accounts)
    → ((text : String) → IsIsolated tenant a (f text))
    → IsIsolated tenant a
        (elim o as (λ o. Answer × Accounts) [ none ↦ (bad_request, a) | some text ↦ f text ])
option-IsIsolated tenant a none f h = refl
option-IsIsolated tenant a (some text) f h = h text

create_user-IsIsolated :
    (rt : Runtime) (hash : String → String) (p : Principal) (new_id : String) (body : Value)
    (a : Accounts)
    → IsIsolated p.tenant_id a (create_user rt hash p new_id body a)
unfolding create_user
create_user-IsIsolated rt hash p new_id body a =
    option-IsIsolated p.tenant_id a (require_string rt body "email") _ (λ email.
      option-IsIsolated p.tenant_id a (require_string rt body "display_name") _ (λ name.
        option-IsIsolated p.tenant_id a (require_string rt body "password") _ (λ password.
          add_user-IsIsolated p new_id email name (hash password)
            (roles_or_operator (role_list rt (get "roles" body))) a)))

foreign-replace_roles :
    (p : Principal) (id : String) (users : List User) (roles : Option (List String))
    → foreign p.tenant_id (replace_roles p id users roles).1 ≡ foreign p.tenant_id users
foreign-replace_roles p id users none = refl
foreign-replace_roles p id users (some roles) =
    foreign-give_roles p.tenant_id id roles _
    ∙ foreign-change_user p.tenant_id id _ (record { same = λ u. refl }) users

update_user-IsIsolated :
    (rt : Runtime) (p : Principal) (id : String) (body : Value) (a : Accounts)
    → IsIsolated p.tenant_id a (update_user rt p id body a)
unfolding update_user
update_user-IsIsolated rt p id body a = elim (Bool-cases (takes_email id body a.users)) [
  | inl e ↦ rw e refl
  | inr e ↦ rw e (
      after_roles-IsIsolated p "user.updated" id a _ (
        foreign-replace_roles p id _ (role_list rt (get "roles" body))
        ∙ foreign-change_user p.tenant_id id (set_fields body) (record { same = λ u. refl })
            a.users))
]

reset_password-IsIsolated :
    (rt : Runtime) (hash : String → String) (p : Principal) (id : String) (body : Value)
    (a : Accounts)
    → IsIsolated p.tenant_id a (reset_password rt hash p id body a)
unfolding reset_password
reset_password-IsIsolated rt hash p id body a =
    option-IsIsolated p.tenant_id a (require_string rt body "password") _
      (λ password. foreign-change_user p.tenant_id id _ (record { same = λ u. refl }) a.users)

within_tenant-IsIsolated :
    (p : Principal) (id : String) (a : Accounts) (result : Answer × Accounts)
    → IsIsolated p.tenant_id a result
    → IsIsolated p.tenant_id a (within_tenant p id a result)
within_tenant-IsIsolated p id a result h =
    elim (Bool-cases (any (is_user p.tenant_id id) a.users)) [ inl e ↦ rw e h | inr e ↦ rw e refl ]

requests-IsIsolated :
    (rt : Runtime) (hash : String → String) (p : Principal) (request : AccountRequest)
    (a : Accounts)
    → is_admin p.roles ≡ true
    → IsIsolated p.tenant_id a (handle_account rt hash p request a)
unfolding handle_account delete_user set_disabled
requests-IsIsolated rt hash p (create new_id body) a h =
    rw h (create_user-IsIsolated rt hash p new_id body a)
requests-IsIsolated rt hash p (update id body) a h =
    rw h (within_tenant-IsIsolated p id a _ (update_user-IsIsolated rt p id body a))
requests-IsIsolated rt hash p (reset id body) a h =
    rw h (within_tenant-IsIsolated p id a _ (reset_password-IsIsolated rt hash p id body a))
requests-IsIsolated rt hash p (delete id) a h =
    rw h (within_tenant-IsIsolated p id a _ (foreign-remove p.tenant_id id a.users))
requests-IsIsolated rt hash p (disable id) a h = rw h (
    within_tenant-IsIsolated p id a _
      (foreign-change_user p.tenant_id id _ (record { same = λ u. refl }) a.users))
requests-IsIsolated rt hash p (enable id) a h = rw h (
    within_tenant-IsIsolated p id a _
      (foreign-change_user p.tenant_id id _ (record { same = λ u. refl }) a.users))

-- Whatever a principal asks for, the users of other tenants stay as they are, and a principal who is
-- no administrator is refused and changes nothing.
pub handle_account-IsIsolated :
    (rt : Runtime) (hash : String → String) (p : Principal) (request : AccountRequest)
    (a : Accounts)
    → IsIsolated p.tenant_id a (handle_account rt hash p request a)
      × ((is_admin p.roles ≡ true) ⊎ (handle_account rt hash p request a ≡ (forbidden, a)))
unfolding handle_account
handle_account-IsIsolated rt hash p request a = elim (Bool-cases (is_admin p.roles)) [
  | inl h ↦ (requests-IsIsolated rt hash p request a h, inl h)
  | inr h ↦ rw h (refl, inr refl)
]
