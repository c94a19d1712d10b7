-- ===== src/Api/Permissions.antt =====
-- api/src/config.ts and app.controller.ts: what the roles of a user permit.
pub mod Laws
use shore_sentinel_app.Base.{
  String, Bool, true, false, not, ◌&&◌, ◌||◌, Option, none, some, List, [], ◌∷◌, any, map, one_of,
  str_eq, if◌then◌else◌,
}

-- `FEATURE_AREAS`.
abbrev pub feature_areas : List String
feature_areas =
    "central_dashboard" ∷ "inventory_managed_machines" ∷ "environments_grouping"
    ∷ "managed_machine_schedules" ∷ "scan_jobs_live_progress" ∷ "reports_artifacts"
    ∷ "import_export_reports" ∷ "comparison_analytics" ∷ "remediation_workflows" ∷ "knowledgebase"
    ∷ "logs_page" ∷ "alert_rules" ∷ "email_templates" ∷ "smtp_settings" ∷ "retention_policy"
    ∷ "role_configuration" ∷ "system_health_release_status" ∷ []

abbrev pub read_add_edit : List String
read_add_edit = "read" ∷ "add" ∷ "edit" ∷ []

-- The actions of each role on a feature, and none on a name that is no feature.
abbrev pub operator_actions : String → List String
operator_actions feature =
    if one_of
      ("inventory_managed_machines" ∷ "environments_grouping" ∷ "managed_machine_schedules"
        ∷ "scan_jobs_live_progress" ∷ "reports_artifacts" ∷ "remediation_workflows"
        ∷ "knowledgebase" ∷ [])
      feature
    then read_add_edit
    else if str_eq feature "import_export_reports"
    then "read" ∷ "add" ∷ []
    else if one_of ("alert_rules" ∷ "email_templates" ∷ []) feature
    then "read" ∷ "edit" ∷ []
    else if one_of
        ("central_dashboard" ∷ "comparison_analytics" ∷ "logs_page" ∷ "retention_policy"
          ∷ "system_health_release_status" ∷ [])
        feature
    then "read" ∷ []
    else []

abbrev pub analyst_actions : String → List String
analyst_actions feature =
    if one_of ("remediation_workflows" ∷ "knowledgebase" ∷ []) feature
    then read_add_edit
    else if str_eq feature "scan_jobs_live_progress"
    then "read" ∷ "add" ∷ []
    else if one_of ("smtp_settings" ∷ "role_configuration" ∷ []) feature
    then []
    else if one_of feature_areas feature
    then "read" ∷ []
    else []

abbrev pub viewer_actions : String → List String
viewer_actions feature =
    if one_of
      ("alert_rules" ∷ "email_templates" ∷ "smtp_settings" ∷ "retention_policy"
        ∷ "role_configuration" ∷ [])
      feature
    then []
    else if one_of feature_areas feature
    then "read" ∷ []
    else []

-- `ROLE_MATRIX[role]?.[feature]`, with no action for an unknown role or feature.
unfoldable pub role_matrix : (role feature : String) → List String
role_matrix role feature =
    if str_eq role "admin"
    then (if one_of feature_areas feature then "read" ∷ "add" ∷ "edit" ∷ "delete" ∷ [] else [])
    else if str_eq role "operator"
    then operator_actions feature
    else if str_eq role "analyst"
    then analyst_actions feature
    else if str_eq role "viewer"
    then viewer_actions feature
    else []

-- The test of `requirePermission`, for the roles of the principal and `role.toLowerCase()`.
unfoldable pub permits :
    (to_lower : String → String) → List String → (feature action : String) → Bool
permits to_lower roles feature action =
    any (λ role. one_of (role_matrix (to_lower role) feature) action) roles

-- The test of `requireAdmin`, which does not lower the case.
unfoldable pub is_admin : List String → Bool
is_admin roles = one_of roles "admin"
