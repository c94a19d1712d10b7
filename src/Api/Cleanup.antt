-- ===== src/Api/Cleanup.antt =====
-- api/src/artifact.service.ts: the rows of `artifact_cleanup_work`, the artifacts whose object is
-- still to be deleted.
pub mod Laws
use shore_sentinel_app.Base.{
  ◌+◌, ◌*◌, ◌^◌, min, ◌||◌, leb, ltb, true, [], ℕ, String, Bool, false, Option, none, some, List,
  ◌∷◌, any, map, str_eq, if◌then◌else◌,
}

-- The states of a row.
pub data CleanupStatus : Type 0 where
  pending processing failed completed : CleanupStatus

-- A row; the artifact is null once its row has been deleted.
pub record CleanupWork : Type 0 where
  pub artifact_id : Option String
  pub storage_uri : String
  pub status : CleanupStatus
  pub attempt_count : ℕ
  pub updated_at : ℕ

abbrev pub is_about : String → CleanupWork → Bool
is_about id work = elim work.artifact_id [ none ↦ false | some other ↦ str_eq other id ]

abbrev pub retarget : (now : ℕ) (id uri : String) → CleanupWork → CleanupWork
retarget now id uri work =
    if is_about id work then record work { storage_uri = uri; updated_at = now } else work

-- `INSERT ... ON CONFLICT (tenant_id,artifact_id) DO UPDATE`, of a row that is pending.
abbrev pub request_cleanup : (now : ℕ) (id uri : String) → List CleanupWork → List CleanupWork
request_cleanup now id uri works =
    if any (is_about id) works
    then map (retarget now id uri) works
    else record {
      artifact_id = some id;
      storage_uri = uri;
      status = pending;
      attempt_count = 0;
      updated_at = now;
    }
      ∷ works

-- The rows that `processCleanupWork` takes up, of a run whose requests may retry at once and of the
-- timer, which waits; times are milliseconds.
abbrev pub retry_delay_ms : ℕ → ℕ
retry_delay_ms attempt_count = 1000 * min 300 (2 ^ min attempt_count 8)

abbrev pub stale_after_ms : ℕ
stale_after_ms = 5 * 60 * 1000

-- The condition of the claim.
unfoldable pub may_claim : (allow_immediate_retry : Bool) (now : ℕ) → CleanupWork → Bool
may_claim allow_immediate_retry now work = elim work.status [
  | pending ↦ true
  | failed ↦ allow_immediate_retry || leb (work.updated_at + retry_delay_ms work.attempt_count) now
  | processing ↦ ltb (work.updated_at + stale_after_ms) now
  | completed ↦ false
]

-- The claim, which takes effect only on a row that may be claimed.
unfoldable pub claim_work :
    (allow_immediate_retry : Bool) (now : ℕ) → CleanupWork → Option CleanupWork
claim_work allow_immediate_retry now work =
    if may_claim allow_immediate_retry now work
    then some (record work {
      status = processing;
      attempt_count = work.attempt_count + 1;
      updated_at = now;
    })
    else none

-- What the deletion of the object comes to: it is deleted, is already missing, or fails.
pub data Deletion : Type 0 where
  deleted missing unavailable : Deletion

-- The state of the artifact's row, if it is there: whether it is quarantined.
pub data ArtifactRow : Type 0 where
  absent quarantined_row other_row : ArtifactRow

abbrev pub may_complete : ArtifactRow → Bool
may_complete other_row = false
may_complete _ = true

-- The rest of `processCleanupWork` on a row that was claimed: the row afterwards, and what is left
-- of the artifact's row.
abbrev pub fail_work : (now : ℕ) → CleanupWork → CleanupWork
fail_work now work = record work { status = failed; updated_at = now }

unfoldable pub finish_work :
    (now : ℕ) → Deletion → ArtifactRow → CleanupWork → CleanupWork × ArtifactRow
finish_work now unavailable row work = (fail_work now work, row)
finish_work now deletion row work =
    if may_complete row
    then (record work { status = completed; artifact_id = none; updated_at = now }, absent)
    else (fail_work now work, row)

-- `processCleanupWork` on one candidate: the row, the artifact's row, and what the summary counts
-- as attempted, completed and failed.
pub record CleanupSummary : Type 0 where
  pub attempted : ℕ
  pub completions : ℕ
  pub failures : ℕ

abbrev pub is_completed : CleanupWork → Bool
is_completed work = elim work.status [
  | completed ↦ true
  | pending ↦ false
  | processing ↦ false
  | failed ↦ false
]

abbrev pub count_work : CleanupWork → CleanupSummary → CleanupSummary
count_work work summary =
    if is_completed work
    then record summary { attempted = summary.attempted + 1; completions = summary.completions + 1 }
    else record summary { attempted = summary.attempted + 1; failures = summary.failures + 1 }

-- `processCleanupWork`, for the object store's answer to each deletion and the rows of the artifacts.
unfoldable pub process_cleanup_work :
    (allow_immediate_retry : Bool) (now : ℕ)
    → (CleanupWork → Deletion)
    → (CleanupWork → ArtifactRow)
    → List CleanupWork
    → CleanupSummary
    → List CleanupWork × CleanupSummary
process_cleanup_work allow_immediate_retry now delete row_of [] summary = ([], summary)
process_cleanup_work allow_immediate_retry now delete row_of (work ∷ works) summary =
    elim (claim_work allow_immediate_retry now work) [
      | none ↦
          let rest = process_cleanup_work allow_immediate_retry now delete row_of works summary in
          (work ∷ rest.0, rest.1)
      | some claimed ↦
          let result = (finish_work now (delete claimed) (row_of claimed) claimed).0 in
          let rest =
            process_cleanup_work allow_immediate_retry now delete row_of works
              (count_work result summary) in
          (result ∷ rest.0, rest.1)
    ]
