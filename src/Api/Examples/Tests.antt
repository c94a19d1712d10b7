-- ===== src/Api/Examples/Tests.antt =====
-- The definitions of the server at concrete inputs.
use shore_sentinel_app.Base.{◌≡◌, refl, true, false, none, some, [], ◌∷◌, gives}
use shore_sentinel_app.Value.{undef, str, num, whole, pos, bool, obj, field, end}
use shore_sentinel_app.Worker.Examples.{plain}
use shore_sentinel_app.Worker.Config.{Environment, positive_integer}
use shore_sentinel_app.Api.Cleanup.{
  CleanupWork, failed, missing, unavailable, quarantined_row, other_row, claim_work, may_claim,
  finish_work, process_cleanup_work, CleanupSummary,
}
use shore_sentinel_app.Api.Queue.{
  scan_dispatch_retry_delay_ms, scan_retry_policy, worker_retry_policy_from_env,
}
use shore_sentinel_app.Api.Validation.{validate_scan_target, validate_artifact_type}
use shore_sentinel_app.Api.Storage.{prepare, object_key, is_already_missing}
use shore_sentinel_app.Api.Launch.{
  valid_ipv4, canonical_host, valid_cidr, valid_root, LaunchInput, assert_ssh_launch_requirements,
}
use shore_sentinel_app.Api.Permissions.{role_matrix, permits, is_admin}

-- `scanDispatchRetryDelayMs` for the attempts from 0.
delays :
    (scan_dispatch_retry_delay_ms 0 ≡ 30000)
    × (scan_dispatch_retry_delay_ms 1 ≡ 30000)
    × (scan_dispatch_retry_delay_ms 3 ≡ 120000)
    × (scan_dispatch_retry_delay_ms 40 ≡ 1800000)
unfolding scan_dispatch_retry_delay_ms
delays = (refl, refl, refl, refl)

abbrev empty : Environment
empty name = none

default_policy : worker_retry_policy_from_env empty ≡ gives (record { attempts = 3; delay = 5000 })
unfolding worker_retry_policy_from_env positive_integer scan_retry_policy
default_policy = refl

scan_targets :
    (validate_scan_target plain undef ≡ gives ".")
    × (validate_scan_target plain (str "/srv/app") ≡ gives "/srv/app")
unfolding validate_scan_target
scan_targets = (refl, refl)

artifact_types :
    (validate_artifact_type "scanner.raw_output" ≡ some "scanner.raw_output")
    × (validate_artifact_type "html" ≡ none)
unfolding validate_artifact_type
artifact_types = (refl, refl)

keys :
    ((prepare "b" "r1" "markdown" "u").0 ≡ "runs/r1/u.md")
    × (object_key "b" "s3://b/runs/r1/u.md" ≡ some "runs/r1/u.md")
    × (object_key "b" "s3://b/runs/../u.md" ≡ none)
    × (object_key "b" "s3://c/runs/r1/u.md" ≡ none)
    × (is_already_missing (obj (field "name" (str "NoSuchKey") end)) ≡ true)
unfolding prepare object_key is_already_missing
keys = (refl, refl, refl, refl, refl)

hosts :
    (canonical_host (str "10.0.0.7") ≡ some "10.0.0.7")
    × (canonical_host (str "scan-1.shore.example") ≡ some "scan-1.shore.example")
    × (canonical_host (str "localhost") ≡ none)
    × (canonical_host (str "-a.example") ≡ none)
    × (canonical_host (str "256.0.0.1") ≡ none)
unfolding canonical_host valid_ipv4
hosts = (refl, refl, refl, refl, refl)

networks :
    (valid_cidr (str "10.0.0.0/8") ≡ true)
    × (valid_cidr (str "10.0.0.0/08") ≡ false)
    × (valid_cidr (str "10.0.0.0/33") ≡ false)
    × (valid_cidr (str "10.0.0.0") ≡ false)
unfolding valid_cidr valid_ipv4
networks = (refl, refl, refl, refl)

roots :
    (valid_root (str "/srv/app") ≡ true)
    × (valid_root (str "/") ≡ false)
    × (valid_root (str "/srv/") ≡ false)
    × (valid_root (str "//srv") ≡ false)
    × (valid_root (str "/srv/..") ≡ false)
    × (valid_root (str "srv") ≡ false)
unfolding valid_root
roots = (refl, refl, refl, refl, refl, refl)

abbrev input : LaunchInput
input = record {
  target = obj (
      field "hostname" (str "10.0.0.7")
        (field "ssh_port" (num (whole (pos 22))) (field "ssh_credential_id" (str "c1") end)));
  host_key_pin =
      obj (field "algorithm" (str "ssh-ed25519") (field "fingerprint" (str "SHA256:abc") end));
  egress_policy = obj (
      field "enabled" (bool true)
        (field "ssh_port" (num (whole (pos 22))) (field "cidr" (str "10.0.0.0/8") end)));
  root_policy = obj (field "enabled" (bool true) (field "root_path" (str "/srv") end));
  worker_grant = obj (field "id" (str "g1") (field "expires_at" (str "later") end));
}

launches :
    assert_ssh_launch_requirements plain (λ v. some 100) 50 input
    ≡ some (record {
      host = "10.0.0.7";
      port = 22;
      pinned_key = "SHA256:abc";
      permitted_cidr = "10.0.0.0/8";
      enrolled_root = "/srv";
      grant_id = "g1";
    })
unfolding assert_ssh_launch_requirements canonical_host valid_ipv4 valid_cidr valid_root
launches = refl

too_late : assert_ssh_launch_requirements plain (λ v. some 100) 100 input ≡ none
unfolding assert_ssh_launch_requirements canonical_host valid_ipv4 valid_cidr valid_root
too_late = refl

permissions :
    (permits (λ role. role) ("viewer" ∷ "operator" ∷ []) "scan_jobs_live_progress" "edit" ≡ true)
    × (permits (λ role. role) ("analyst" ∷ []) "scan_jobs_live_progress" "edit" ≡ false)
    × (permits (λ role. role) ("viewer" ∷ []) "alert_rules" "read" ≡ false)
    × (is_admin ("operator" ∷ []) ≡ false)
unfolding permits role_matrix is_admin
permissions = (refl, refl, refl, refl)

abbrev work : CleanupWork
work = record {
  artifact_id = some "a1";
  storage_uri = "s3://b/runs/r1/a1.json";
  status = failed;
  attempt_count = 2;
  updated_at = 1000;
}

abbrev nothing : CleanupSummary
nothing = record { attempted = 0; completions = 0; failures = 0 }

-- The timer waits four seconds after a second failure; then the artifact is deleted.
cleanups :
    ((process_cleanup_work false 4999 (λ w. missing) (λ w. quarantined_row) (work ∷ []) nothing).0
      ≡ work ∷ [])
    × ((process_cleanup_work false 5000 (λ w. missing) (λ w. quarantined_row) (work ∷ []) nothing).1
        ≡ record { attempted = 1; completions = 1; failures = 0 })
    × ((process_cleanup_work true 4999
          (λ w. unavailable)
          (λ w. quarantined_row)
          (work ∷ [])
          nothing).1
        ≡ record { attempted = 1; completions = 0; failures = 1 })
    × ((process_cleanup_work true 4999 (λ w. missing) (λ w. other_row) (work ∷ []) nothing).1
        ≡ record { attempted = 1; completions = 0; failures = 1 })
unfolding process_cleanup_work claim_work may_claim finish_work
cleanups = (refl, refl, refl, refl)
