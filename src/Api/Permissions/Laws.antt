-- ===== src/Api/Permissions/Laws.antt =====
-- The roles of the web application's proxies (web/app/api) and those of api/src/config.ts.
use shore_sentinel_app.Base.{
  ◌≡◌, refl, ◌∙◌, String, Bool, true, false, ◌||◌, List, [], one_of, str_eq, if◌then◌else◌,
}
use shore_sentinel_app.Web.Proxy.ScanRuns.{read_roles}
use shore_sentinel_app.Web.Proxy.Mutations.{edit_roles, create_roles, status_roles}
use shore_sentinel_app.Api.Permissions.{role_matrix}

-- An action in the row that the first matching name chooses.
chosen :
    (a b c d : Bool) (admin operator analyst viewer : List String) (action : String)
    → (if a
        then one_of admin action
        else if b
        then one_of operator action
        else if c
        then one_of analyst action
        else if d
        then one_of viewer action
        else false)
      ≡ one_of
          (if a
            then admin
            else if b
            then operator
            else if c
            then analyst
            else if d
            then viewer
            else [])
          action
chosen true b c d admin operator analyst viewer action = refl
chosen false true c d admin operator analyst viewer action = refl
chosen false false true d admin operator analyst viewer action = refl
chosen false false false true admin operator analyst viewer action = refl
chosen false false false false admin operator analyst viewer action = refl

two_roles :
    (a b c d : Bool)
    → (a || (b || false))
      ≡ (if a then true else if b then true else if c then false else if d then false else false)
two_roles true b c d = refl
two_roles false true c d = refl
two_roles false false true d = refl
two_roles false false false true = refl
two_roles false false false false = refl

three_roles :
    (a b c d : Bool)
    → (a || (b || (c || false)))
      ≡ (if a then true else if b then true else if c then true else if d then false else false)
three_roles true b c d = refl
three_roles false true c d = refl
three_roles false false true d = refl
three_roles false false false true = refl
three_roles false false false false = refl

four_roles :
    (a b c d : Bool)
    → (a || (b || (c || (d || false))))
      ≡ (if a then true else if b then true else if c then true else if d then true else false)
four_roles true b c d = refl
four_roles false true c d = refl
four_roles false false true d = refl
four_roles false false false true = refl
four_roles false false false false = refl

-- The proxies and the server agree, for every role: those that may cancel a run or enrol a machine
-- at the proxies may edit runs and machines at the server, those that may change a remediation may
-- edit remediations, and those that may read the progress of a run may read runs.
pub proxy_roles_agree :
    (role : String)
    → (one_of edit_roles role ≡ one_of (role_matrix role "scan_jobs_live_progress") "edit")
      × (one_of edit_roles role ≡ one_of (role_matrix role "inventory_managed_machines") "edit")
      × (one_of create_roles role ≡ one_of (role_matrix role "inventory_managed_machines") "add")
      × (one_of status_roles role ≡ one_of (role_matrix role "remediation_workflows") "edit")
      × (one_of read_roles role ≡ one_of (role_matrix role "scan_jobs_live_progress") "read")
unfolding role_matrix
proxy_roles_agree role =
    let a = str_eq role "admin" in
    let b = str_eq role "operator" in
    let c = str_eq role "analyst" in
    let d = str_eq role "viewer" in
    let row = chosen a b c d in
    (
      two_roles a b c d ∙ row _ _ _ _ "edit",
      two_roles a b c d ∙ row _ _ _ _ "edit",
      two_roles a b c d ∙ row _ _ _ _ "add",
      three_roles a b c d ∙ row _ _ _ _ "edit",
      four_roles a b c d ∙ row _ _ _ _ "read",
    )
