-- ===== src/Worker/Job.antt =====
-- normalizeSshJob of workers/worker-node/src/sshExecutor.js and normalizeJobData of payload.js:
-- what a queue payload may hold, and how its identifiers are spelled.
pub mod Laws
use shore_sentinel_app.Base.{
  String, Bool, true, false, not, ◌&&◌, Option, none, some, List, [], ◌∷◌, any, if◌then◌else◌,
}
use shore_sentinel_app.Value.{
  Value, undef, null, str, arr, nil, obj, end, field, truthy, or_nullish, get, has_own, is_object,
  is_filled_text, text_of,
}
use shore_sentinel_app.Shared.{scanner_bundle_contract_version}

abbrev pub forbidden_queue_fields : List String
forbidden_queue_fields =
    "scanTarget" ∷ "scan_target" ∷ "scannerOutput" ∷ "command" ∷ "credential" ∷ "executionContext"
    ∷ []

pub record SshJob : Type 0 where
  pub run_id : String
  pub job_id : String
  pub target_id : String

abbrev opaque_ids : Value → Value → Value → Option SshJob
opaque_ids run_id job_id target_id =
    if is_filled_text run_id && (is_filled_text job_id && is_filled_text target_id)
    then some
        (record { run_id = text_of run_id; job_id = text_of job_id; target_id = text_of target_id })
    else none

-- `normalizeSshJob`; `none` is its only error, "SSH queue payload must contain opaque
-- identifiers only".
unfoldable pub normalize_ssh_job : Value → Option SshJob
normalize_ssh_job data' =
    if not (is_object data')
    then none
    else if any (has_own data') forbidden_queue_fields
    then none
    else opaque_ids (or_nullish (get "runId" data') (get "run_id" data'))
        (or_nullish (get "jobId" data') (or_nullish (get "job_id" data') (get "id" data')))
        (or_nullish (get "targetId" data') (get "target_id" data'))

-- What `normalizeJobData` adds to the payload.
pub record JobData : Type 0 where
  pub run_id : Value
  pub job_id : Value
  pub subject_type : Value
  pub target_id : Value
  pub one_time_audit_id : Value
  pub scanner_output : Value

abbrev placeholder : String → Value → Value → Value → Value → Value → Value → Value
placeholder now data' target_id one_time_audit_id job_id run_id subject_type = obj (
    field "contractVersion" (str scanner_bundle_contract_version) (
      field "scanner"
        (obj (
          field "name" (str "shore-sentinel-worker-placeholder") (
            field "version"
              (or_nullish (get "scannerVersion" data')
                (or_nullish (get "scanner_version" data') (str "0.1.0")))
              end)))
        (field "target"
          (obj (
            field "assetId"
              (or_nullish target_id (or_nullish one_time_audit_id (or_nullish job_id run_id)))
              (field "subjectType" subject_type end)))
          (field "findings" (arr nil) (field "collectedAt" (str now) end)))))

-- `normalizeJobData`; `none` is "scan job payload missing runId/run_id".
unfoldable pub normalize_job_data : String → Value → Option JobData
normalize_job_data now data' =
    let run_id = or_nullish (get "runId" data') (get "run_id" data') in
    let job_id =
      or_nullish (get "jobId" data') (or_nullish (get "job_id" data') (get "id" data')) in
    let subject_type = or_nullish (get "subjectType" data') (get "subject_type" data') in
    let target_id = or_nullish (get "targetId" data') (or_nullish (get "target_id" data') null) in
    let audit_id =
      or_nullish (get "oneTimeAuditId" data') (or_nullish (get "one_time_audit_id" data') null) in
    if truthy run_id
    then some (record {
      run_id = run_id;
      job_id = job_id;
      subject_type = subject_type;
      target_id = target_id;
      one_time_audit_id = audit_id;
      scanner_output =
          or_nullish (get "scannerOutput" data')
            (placeholder now data' target_id audit_id job_id run_id subject_type);
    })
    else none
