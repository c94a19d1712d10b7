-- ===== src/Api/Examples/Users.antt =====
-- Users and sessions at concrete rows.
use shore_sentinel_app.Base.{◌≡◌, refl, ◌⊎◌, true, false, some, [], ◌∷◌}
use shore_sentinel_app.Worker.Examples.{plain}
use shore_sentinel_app.Api.Permissions.{is_admin}
use shore_sentinel_app.Api.Accounts.{User, Accounts, Principal, forbidden, delete, handle_account}
use shore_sentinel_app.Api.Accounts.Laws.{IsIsolated, handle_account-IsIsolated}
use shore_sentinel_app.Api.Sessions.{
  Sessions, create_session, principal_of, me, is_internal_worker_service_route, gate,
}
use shore_sentinel_app.Api.Sessions.Laws.{IsSignedIn, gate-IsSignedIn}

abbrev ann : User
ann = record {
  id = "u1";
  tenant_id = "t1";
  email = "ann@shore.example";
  display_name = "Ann";
  password_hash = "h1";
  disabled = false;
  roles = "admin" ∷ [];
}

abbrev bob : User
bob = record ann { id = "u2"; tenant_id = "t2"; email = "bob@shore.example" }

abbrev accounts : Accounts
accounts = record { users = ann ∷ bob ∷ []; audits = [] }

handle_account-IsIsolated_example :
    IsIsolated "t1" accounts
      (handle_account plain (λ text. text) (principal_of ann) (delete "u2") accounts)
    × ((is_admin ("admin" ∷ []) ≡ true)
        ⊎ (handle_account plain (λ text. text) (principal_of ann) (delete "u2") accounts
            ≡ (forbidden, accounts)))
handle_account-IsIsolated_example =
    handle_account-IsIsolated plain (λ text. text) (principal_of ann) (delete "u2") accounts

abbrev sessions : Sessions
sessions = create_session 100 "token" "u1" "t1" false []

gate-IsSignedIn_example :
    (p : Principal) × (some (principal_of ann) ≡ some p)
    × IsSignedIn 200 (some "token") (ann ∷ bob ∷ []) sessions p
unfolding create_session gate me is_internal_worker_service_route
gate-IsSignedIn_example =
    gate-IsSignedIn 200 "GET" "/targets" (some "token") (ann ∷ bob ∷ []) sessions
      (some (principal_of ann)) refl refl
