-- ===== src/Api/Run/Artifacts.antt =====
-- `workerArtifact` and `discardReservedArtifact` of api/src/app.controller.ts: the statements that
-- reserve the row of an artifact, finish it once its object is stored, and give it up; and the
-- deletion of a row in `processCleanupWork` of api/src/artifact.service.ts.
use shore_sentinel_app.Base.{
  filter, ℕ, String, Bool, true, false, not, ◌&&◌, Option, none, some, List, [], ◌∷◌, any, map,
  ◌==◌, str_eq, if◌then◌else◌,
}
use shore_sentinel_app.Api.Cleanup.{CleanupWork, request_cleanup}
use shore_sentinel_app.Api.Run.{
  is_active_run, artifact_uploaded, ParseStatus, processing, uploaded, quarantined, StoredArtifact,
  Store, is_live,
}
use shore_sentinel_app.Api.Run.Cancel.{quarantine}

-- The conditions on the run and its grant that both statements share.
abbrev pub may_upload : (now attempt : ℕ) → Store → Bool
may_upload now attempt s =
    is_active_run s.run_status
    && not s.cancellation_requested
    && any (λ g. (g.attempt == attempt) && is_live now g) s.grants

abbrev pub is_same_content : (kind sha256 : String) → StoredArtifact → Bool
is_same_content kind sha256 a = str_eq a.artifact_type kind && str_eq a.sha256 sha256

abbrev pub first_artifact : (StoredArtifact → Bool) → List StoredArtifact → Option StoredArtifact
first_artifact p [] = none
first_artifact p (a ∷ artifacts) =
    let rest = first_artifact p artifacts in if p a then some a else rest

-- The reservation: an artifact with the same content keeps its row.
unfoldable pub reserve_statement :
    (now attempt : ℕ) (id kind sha256 uri : String) → Store → Option StoredArtifact × Store
reserve_statement now attempt id kind sha256 uri s =
    if not (may_upload now attempt s)
    then (none, s)
    else elim (first_artifact (is_same_content kind sha256) s.artifacts) [
      | some a ↦ (some a, s)
      | none ↦
          let a : StoredArtifact = record {
            id = id;
            artifact_type = kind;
            sha256 = sha256;
            storage_uri = uri;
            parse_status = processing;
          } in
          (some a, record s { artifacts = a ∷ s.artifacts })
    ]

abbrev pub is_processing : ParseStatus → Bool
is_processing processing = true
is_processing _ = false

-- The artifact that a request has reserved, by its identifier and its object.
abbrev pub is_reserved : (id uri : String) → StoredArtifact → Bool
is_reserved id uri a = str_eq a.id id && str_eq a.storage_uri uri

abbrev pub is_unfinished : (id uri : String) → StoredArtifact → Bool
is_unfinished id uri a = is_reserved id uri a && is_processing a.parse_status

abbrev pub finish : (id uri : String) → StoredArtifact → StoredArtifact
finish id uri a = if is_unfinished id uri a then record a { parse_status = uploaded } else a

-- The finalization, with the event of the upload.
unfoldable pub finalize_statement :
    (now attempt : ℕ) (id uri : String) → Store → Option StoredArtifact × Store
finalize_statement now attempt id uri s =
    if not (may_upload now attempt s)
    then (none, s)
    else elim (first_artifact (is_unfinished id uri) s.artifacts) [
      | none ↦ (none, s)
      | some a ↦ (
        some (record a { parse_status = uploaded }),
        record s {
          artifacts = map (finish id uri) s.artifacts;
          events = record { type = artifact_uploaded; attempt = none } ∷ s.events;
        },
      )
    ]

abbrev pub give_up : (id uri : String) → StoredArtifact → StoredArtifact
give_up id uri a = if is_reserved id uri a then quarantine a else a

-- The compensation of a request whose artifact could not be stored or finished.
unfoldable pub discard_statement : (now : ℕ) (id uri : String) → Store → Store
discard_statement now id uri s = record s {
  artifacts = map (give_up id uri) s.artifacts;
  cleanup =
      if any (is_reserved id uri) s.artifacts
      then request_cleanup now id uri s.cleanup
      else s.cleanup;
}

-- The artifact's row that `processCleanupWork` of api/src/artifact.service.ts deletes.
abbrev pub is_deletable : (id : String) → StoredArtifact → Bool
is_deletable id a =
    str_eq a.id id
    && elim a.parse_status [ quarantined ↦ true | processing ↦ false | uploaded ↦ false ]

-- Its deletion, with whatever it writes to the cleanup work of the run.
unfoldable pub delete_statement : (id : String) → List CleanupWork → Store → Store
delete_statement id works s = record s {
  artifacts = filter (λ a. not (is_deletable id a)) s.artifacts;
  cleanup = works;
}
