-- ===== src/Api/Examples/Checks.antt =====
-- The server's checks at concrete values.
use shore_sentinel_app.Base.{
  ◌+◌, ◌≡◌, refl, true, false, none, some, if◌then◌else◌, str_eq, arith, one_of,
}
use shore_sentinel_app.Worker.Config.{Environment, Config}
use shore_sentinel_app.Web.Proxy.ScanRuns.{read_roles}
use shore_sentinel_app.Web.Proxy.Mutations.{edit_roles, create_roles, status_roles}
use shore_sentinel_app.Api.Cleanup.{CleanupWork, pending, processing, claim_work, may_claim}
use shore_sentinel_app.Api.Cleanup.Laws.{claim_work-excludes}
use shore_sentinel_app.Api.Permissions.{role_matrix}
use shore_sentinel_app.Api.Permissions.Laws.{proxy_roles_agree}

abbrev environment : Environment
environment name = if str_eq name "PARSER_TIMEOUT_MS" then some "60000" else none

abbrev settings : Config
settings = record {
  redis_url = "redis://redis:6379/0";
  api_url = "http://api:4000";
  python_worker_url = "http://worker-python:4100";
  internal_worker_token = "";
  ssh_timeout_ms = 120000;
  parser_timeout_ms = 60000;
  artifact_handoff_timeout_ms = 30000;
  lifecycle_event_timeout_ms = 10000;
  concurrency = 1;
}

proxy_roles_agree_example :
    (one_of edit_roles "analyst" ≡ one_of (role_matrix "analyst" "scan_jobs_live_progress") "edit")
    × (one_of edit_roles "analyst"
        ≡ one_of (role_matrix "analyst" "inventory_managed_machines") "edit")
    × (one_of create_roles "analyst"
        ≡ one_of (role_matrix "analyst" "inventory_managed_machines") "add")
    × (one_of status_roles "analyst"
        ≡ one_of (role_matrix "analyst" "remediation_workflows") "edit")
    × (one_of read_roles "analyst"
        ≡ one_of (role_matrix "analyst" "scan_jobs_live_progress") "read")
proxy_roles_agree_example = proxy_roles_agree "analyst"

abbrev waiting : CleanupWork
waiting = record {
  artifact_id = some "a1";
  storage_uri = "s3://bucket/runs/r1/a1.json";
  status = pending;
  attempt_count = 0;
  updated_at = 0;
}

abbrev claimed : CleanupWork
claimed = record waiting { status = processing; attempt_count = 1; updated_at = 10 }

claims : claim_work false 10 waiting ≡ some claimed
unfolding claim_work may_claim
claims = refl

claim_work-excludes_example : (claim_work true 5000 claimed ≡ none) × (1 ≡ 0 + 1)
claim_work-excludes_example =
    claim_work-excludes false true 10 5000 waiting claimed claims (omega arith)
