-- ===== src/Api/Run/Requests.antt =====
-- api/src/app.controller.ts: the requests of workers, each without other statements in between.
pub mod Laws
use Prim.Native.String.{◌++◌}
use shore_sentinel_app.Base.{
  ℕ, String, Bool, true, false, not, ◌&&◌, ◌||◌, Option, none, some, List, [], ◌∷◌, any, ltb, leb,
  ◌==◌, str_eq, one_of, Result, fails, gives, if◌then◌else◌,
}
use shore_sentinel_app.Value.{
  Value, Num, ℤ, whole, pos, num, str, undef, max_safe, is_text, get, text_of, or_nullish,
}
use shore_sentinel_app.Runtime.{Runtime, number_of}
use shore_sentinel_app.Shared.{
  RunEventType, job_queued, job_claimed, job_running, parse_started, parse_succeeded,
  artifact_upload_requested, artifact_upload_succeeded, job_retry_scheduled, job_succeeded,
  job_failed, event_text,
}
use shore_sentinel_app.Api.Run.{
  is_active_run, is_open_job, is_pending, is_queued, is_cancelled, Grant, StoredArtifact, Store,
  is_live, has_event,
}
use shore_sentinel_app.Api.Run.Events.{
  is_retry, worker_event_transition, Written, refused, written, duplicate, worker_event_statement,
}
use shore_sentinel_app.Api.Run.Grants.{first_grant}
use shore_sentinel_app.Api.Run.Artifacts.{reserve_statement, finalize_statement, discard_statement}

-- The secrets of the environment, and `createHmac('sha256', key).update(text).digest('base64url')`.
pub record Secrets : Type 0 where
  pub internal_worker_token : Option String
  pub secret_key : Option String
  pub hmac : String → String → String

-- What a request carries: the text of its `authorization` header after `Bearer`, and its header
-- `x-worker-capability`.
pub record WorkerRequest : Type 0 where
  pub bearer : Option String
  pub capability : Option String

-- `requireInternalWorker`: an empty text is refused on either side. Texts of the same length whose
-- bytes differ in number make `timingSafeEqual` throw, which refuses the request as well.
unfoldable pub is_internal_worker : Secrets → WorkerRequest → Bool
is_internal_worker secrets req = elim secrets.internal_worker_token [
  | none ↦ false
  | some expected ↦ elim req.bearer [
    | none ↦ false
    | some supplied ↦
        not (str_eq expected "") && not (str_eq supplied "") && str_eq expected supplied
  ]
]

-- `workerCapability`, none where it throws.
unfoldable pub worker_capability : Runtime → Secrets → (run_id grant_id : String) → Option String
worker_capability rt secrets run_id grant_id = elim secrets.secret_key [
  | none ↦ none
  | some secret ↦
      if ltb (rt.utf16_length secret) 32
      then none
      else some (secrets.hmac secret (run_id ++ ":" ++ grant_id))
]

-- The two queries of `requireWorkerCapability`: of a repeated retry, and of any other request.
abbrev pub replayed_grant : ℕ → Store → Option Grant
replayed_grant attempt s =
    if is_pending s.run_status
      && not s.cancellation_requested
      && is_queued s.job_status
      && has_event job_retry_scheduled attempt s.events
    then first_grant (λ g. (g.attempt == attempt) && g.consumed) s.grants
    else none

abbrev pub active_grant : (now attempt : ℕ) → Store → Option Grant
active_grant now attempt s =
    if is_active_run s.run_status && not s.cancellation_requested && is_open_job s.job_status
    then first_grant (λ g. (g.attempt == attempt) && is_live now g) s.grants
    else none

-- The capability that is sent has to be that of the grant.
abbrev pub matching_grant :
    Runtime → Secrets → (run_id : String) → Option String → Option Grant → Option String
matching_grant rt secrets run_id none found = none
matching_grant rt secrets run_id (some supplied) none = none
matching_grant rt secrets run_id (some supplied) (some g) =
    elim (worker_capability rt secrets run_id g.id) [
      | none ↦ none
      | some expected ↦
          if not (str_eq supplied "") && str_eq expected supplied then some g.id else none
    ]

-- `requireWorkerCapability`: the identifier of the grant, none where it throws.
unfoldable pub require_worker_capability :
    Runtime
    → Secrets
    → WorkerRequest
    → (run_id : String) (now attempt : ℕ) → (retry_replay : Bool) → Store
    → Option String
require_worker_capability rt secrets req run_id now attempt retry_replay s =
    matching_grant rt secrets run_id req.capability
      (if retry_replay then replayed_grant attempt s else active_grant now attempt s)

-- `requireWorkerAttempt` of api/src/validation.ts.
abbrev pub bounded_attempt : Num → Option ℕ
bounded_attempt (whole (pos n)) = if leb 1 n && leb n 100 then some n else none
bounded_attempt _ = none

unfoldable pub require_worker_attempt : Runtime → Value → Option ℕ
require_worker_attempt rt v = bounded_attempt (number_of rt v)

-- `requireString` of api/src/validation.ts.
unfoldable pub require_string : Runtime → Value → (field : String) → Option String
require_string rt body field =
    if is_text (get field body) && not (str_eq (rt.trim (text_of (get field body))) "")
    then some (rt.trim (text_of (get field body)))
    else none

abbrev pub event_types : List RunEventType
event_types =
    job_queued ∷ job_claimed ∷ job_running ∷ parse_started ∷ parse_succeeded
    ∷ artifact_upload_requested ∷ artifact_upload_succeeded ∷ job_retry_scheduled ∷ job_succeeded
    ∷ job_failed ∷ []

-- The event type that a text names.
abbrev pub named_among : List RunEventType → String → Option RunEventType
named_among [] text = none
named_among (t ∷ types) text =
    let rest = named_among types text in if str_eq (event_text t) text then some t else rest

unfoldable pub event_type_of : String → Option RunEventType
event_type_of text = named_among event_types text

-- What a request for an event comes to.
pub data Response : Type 0 where
  accepted forbidden bad_request : Response
  database_error : Response

abbrev pub respond : Written → Response
respond refused = forbidden
respond written = accepted
respond duplicate = database_error

-- The request with the grant that its capability is for.
abbrev pub authorized_event :
    (next_id : String) (now attempt : ℕ) → RunEventType → Store → Option String → Response × Store
authorized_event next_id now attempt type s none = (forbidden, s)
authorized_event next_id now attempt type s (some grant_id) = elim (worker_event_transition type) [
  | none ↦ (bad_request, s)
  | some statuses ↦
      if has_event type attempt s.events
      then (accepted, s)
      else let result = worker_event_statement now grant_id next_id attempt type s in
        (respond result.0, result.1)
]

-- `workerEvent` after its checks of the request.
unfoldable pub record_event :
    Runtime
    → Secrets
    → WorkerRequest
    → (run_id next_id : String) (now attempt : ℕ) → RunEventType
    → Store
    → Response × Store
record_event rt secrets req run_id next_id now attempt type s =
    authorized_event next_id now attempt type s
      (require_worker_capability rt secrets req run_id now attempt (is_retry type) s)

-- A text that names no event type is refused, after the check of the capability.
unfoldable pub worker_event :
    Runtime
    → Secrets
    → WorkerRequest
    → (run_id next_id : String) (now : ℕ) → (body : Value) → Store
    → Response × Store
worker_event rt secrets req run_id next_id now body s =
    if not (is_internal_worker secrets req)
    then (forbidden, s)
    else elim (require_string rt body "type") [
      | none ↦ (bad_request, s)
      | some text ↦ elim (require_worker_attempt rt (get "attempt" body)) [
        | none ↦ (bad_request, s)
        | some attempt ↦ elim (event_type_of text) [
          | some type ↦ record_event rt secrets req run_id next_id now attempt type s
          | none ↦ elim (require_worker_capability rt secrets req run_id now attempt false s) [
            | none ↦ (forbidden, s)
            | some grant_id ↦ (bad_request, s)
          ]
        ]
      ]
    ]

-- `workerRunControl`, for the row of the run if there is one: whether it is cancelled.
unfoldable pub worker_run_control : Secrets → WorkerRequest → Option Store → Option Bool
worker_run_control secrets req row =
    if not (is_internal_worker secrets req) then none else elim row [
      | none ↦ none
      | some s ↦ some (is_cancelled s.run_status || s.cancellation_requested)
    ]

-- What a request for an artifact comes to after its checks: its row, a refusal, or the error of a
-- store that fails.
pub data Upload : Type 0 where
  stored_row : StoredArtifact → Upload
  denied storage_failed : Upload

-- `workerArtifact` after its checks: `id` and `uri` are those of a new row, `stored` says whether
-- the object store takes the body.
unfoldable pub worker_artifact :
    (stored : Bool) (now attempt : ℕ) (id kind sha256 uri : String) → Store → Upload × Store
worker_artifact stored now attempt id kind sha256 uri s =
    let reserved = reserve_statement now attempt id kind sha256 uri s in
    elim reserved.0 [
      | none ↦ (denied, reserved.1)
      | some a ↦
          if not (str_eq a.storage_uri uri)
          then (stored_row a, reserved.1)
          else if not stored
          then (storage_failed, discard_statement now a.id uri reserved.1)
          else let finished = finalize_statement now attempt a.id uri reserved.1 in
            elim finished.0 [
              | some row ↦ (stored_row row, finished.1)
              | none ↦ (denied, discard_statement now a.id uri finished.1)
            ]
    ]
