-- ===== src/Worker/Lifecycle/Laws.antt =====
-- The retry decision and the bounds of an upload (workers/worker-node/src/lifecycle.js).
use Prim.Native.String.{len}
use shore_sentinel_app.Base.{
  ltb, if◌then◌else◌, ℕ, ◌+◌, ◌≤◌, String, ◌&&◌, ◌≡◌, refl, Option, some, none, arith, leb, leb→le,
  Bool-cases, inl, inr,
}
use shore_sentinel_app.Value.{Value, max_safe}
use shore_sentinel_app.Shared.{
  ArtifactKind, kind_text, retrying, failed, job_retry_scheduled, job_failed,
}
use shore_sentinel_app.Runtime.{Runtime, Serialized, text, nothing, throws}
use shore_sentinel_app.Worker.Exec.{Artifact, Session, require, ◌>>=◌}
use shore_sentinel_app.Worker.Exec.Triple.{Post}
use shore_sentinel_app.Worker.Lifecycle.{
  serialized_body, bounded_upload, artifact_upload_payload, retry_decision,
}

-- An upload of a run and an attempt, whose decoded body keeps within a bound.
pub record IsUpload (rt : Runtime) (run_id : String) (attempt : ℕ) (kind : ArtifactKind)
    (body : Value) (max_bytes : ℕ) (a : Artifact) : Type 0 where
  pub same_run : a.run_id ≡ run_id
  pub same_attempt : a.attempt ≡ attempt
  pub same_kind : a.kind ≡ kind_text kind
  pub content : String
  pub written : serialized_body rt body ≡ text content
  pub encoded : a.body_base64 ≡ rt.base64 content
  pub bounded : len content ≤ max_bytes

module _ (rt : Runtime) (run_id : String) (attempt : ℕ) (kind : ArtifactKind)
    (content_type : String) (body metadata : Value) (max_bytes : ℕ) where
  bounded_upload-Post :
      (r : Serialized) (s : Session)
      → serialized_body rt body ≡ r
      → Post
          (λ a s'. (s' ≡ s) × IsUpload rt run_id attempt kind body max_bytes a)
          (λ s'. s' ≡ s)
          (bounded_upload rt run_id attempt kind content_type metadata max_bytes r s)
  unfolding ◌>>=◌ require
  bounded_upload-Post (text t) s e = elim (Bool-cases (leb (len t) max_bytes)) [
    | inl fits ↦ rw fits (
      refl,
      record {
        same_run = refl;
        same_attempt = refl;
        same_kind = refl;
        content = t;
        written = e;
        encoded = refl;
        bounded = leb→le _ _ fits;
      },
    )
    | inr long ↦ rw long refl
  ]
  bounded_upload-Post nothing s e = refl
  bounded_upload-Post throws s e = refl

  -- An upload is for the given run, attempt and kind, and its body is the base64 of a text of at
  -- most `max_bytes` bytes, or else an error is thrown; the state is not touched either way.
  pub artifact_upload_payload-Post :
      (s : Session)
      → Post
          (λ a s'. (s' ≡ s) × IsUpload rt run_id attempt kind body max_bytes a)
          (λ s'. s' ≡ s)
          (artifact_upload_payload rt run_id attempt kind content_type body metadata max_bytes s)
  unfolding artifact_upload_payload
  artifact_upload_payload-Post s = elim (Bool-cases (leb max_bytes max_safe && leb 1 max_bytes)) [
    | inl valid ↦ rw valid (bounded_upload-Post (serialized_body rt body) s refl)
    | inr invalid ↦ rw invalid refl
  ]

-- Within the attempts a retry is announced with the attempt that follows, and on the last one the
-- failure is final; the decision keeps the attempt of the grant in both cases.
pub retry_decision_exact :
    (rt : Runtime) (attempt : ℕ) (made : Option ℕ) (max_attempts : ℕ) (error : String)
    → let d = retry_decision rt (some attempt) made max_attempts error in
      (d.attempt ≡ attempt)
      × (let again = ltb attempt max_attempts in
          (d.status ≡ (if again then retrying else failed))
          × (d.event_type ≡ (if again then job_retry_scheduled else job_failed))
          × (d.next_attempt ≡ (if again then some (attempt + 1) else none)))
unfolding retry_decision
retry_decision_exact rt attempt made max_attempts error =
    (refl, (ground arith, ground arith, ground arith))
