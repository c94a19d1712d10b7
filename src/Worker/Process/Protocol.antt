-- ===== src/Worker/Process/Protocol.antt =====
-- The progress of processManagedSshJobSteps (workers/worker-node/src/managedSshProcessor.js), from
-- the accepted grant to its end, in any world.

use shore_sentinel_app.Base.{
  ℕ, String, ◌≡◌, refl, subst, List, [], ◌∷◌, take, drop, take-append-drop, length,
}
use shore_sentinel_app.Value.{Value}
use shore_sentinel_app.Shared.{
  JobStatus, RunEventType, event_text, job_claimed, job_running, parse_started, parse_succeeded,
  artifact_upload_requested, artifact_upload_succeeded, job_succeeded, ArtifactKind, kind_text,
  scanner_raw_output, normalized_findings, enrichment_summary,
}
use shore_sentinel_app.Runtime.{Runtime}
use shore_sentinel_app.Worker.Exec.{Artifact, World, FailureState, Session, Exec}
use shore_sentinel_app.Worker.Exec.Triple.{
  Triple, Triple-bind, Triple-pure, Triple-still, Triple-known, Triple-assume, Triple-weaken, Still,
}
use shore_sentinel_app.Worker.Control.{Job, assert_active, emit}
use shore_sentinel_app.Worker.Control.Rules.{
  Milestone, reported, stored, Reached, Ended, Progress, IsPartial, Reached-Ended, IsPartial-tail,
  Progress-active, Progress-emit, Progress-store,
}
use shore_sentinel_app.Worker.Lifecycle.{artifact_upload_payload}
use shore_sentinel_app.Worker.Lifecycle.Laws.{IsUpload, artifact_upload_payload-Post}
use shore_sentinel_app.Worker.Process.{Budgets, build_uploads, upload_one, upload_all}

-- The milestones of one upload, and of an attempt that ends well, newest first.
abbrev pub upload_milestones : String → List Milestone → List Milestone
upload_milestones kind done =
    reported (event_text artifact_upload_succeeded)
    ∷ stored kind
    ∷ reported (event_text artifact_upload_requested)
    ∷ done

abbrev pub before_uploads : List Milestone
before_uploads =
    reported (event_text parse_succeeded)
    ∷ reported (event_text parse_started)
    ∷ reported (event_text job_running)
    ∷ reported (event_text job_claimed)
    ∷ []

abbrev pub after_uploads : List Milestone
after_uploads = upload_milestones (kind_text enrichment_summary) (
    upload_milestones (kind_text normalized_findings)
      (upload_milestones (kind_text scanner_raw_output) before_uploads))

abbrev pub full_protocol : List Milestone
full_protocol = reported (event_text job_succeeded) ∷ after_uploads

-- Every state of `full_protocol` on the way can still be completed.
abbrev pub Completes : List Milestone → Type 0
Completes done = IsPartial full_protocol done

pub stage : (n : ℕ) → Completes (drop n full_protocol)
stage n = (take n full_protocol, take-append-drop n full_protocol)

abbrev pub IsFor : String → ℕ → Artifact → Type 0
IsFor run_id attempt a = (a.run_id ≡ run_id) × (a.attempt ≡ attempt)

-- The artifacts that a job builds: three, in this order, for its run and attempt.
abbrev pub AreUploads : String → ℕ → List Artifact → Type 0
AreUploads run_id attempt (a ∷ b ∷ c ∷ []) =
    (a.kind ≡ kind_text scanner_raw_output)
    × (b.kind ≡ kind_text normalized_findings)
    × (c.kind ≡ kind_text enrichment_summary)
    × IsFor run_id attempt a
    × IsFor run_id attempt b
    × IsFor run_id attempt c
AreUploads run_id attempt [] = ⊥
AreUploads run_id attempt _ = ⊥

pub AreUploads-length :
    (run_id : String) (attempt : ℕ) (l : List Artifact) → AreUploads run_id attempt l → length l ≡ 3
AreUploads-length run_id attempt (a ∷ b ∷ c ∷ []) h = refl
AreUploads-length run_id attempt [] h = absurd h
AreUploads-length run_id attempt (a ∷ []) h = absurd h
AreUploads-length run_id attempt (a ∷ b ∷ []) h = absurd h
AreUploads-length run_id attempt (a ∷ b ∷ c ∷ d ∷ l) h = absurd h

module _ (rt : Runtime) (w : World) (o : Budgets) (job : Job) (capability run_id : String)
    (attempt : ℕ) (state : FailureState) where
  abbrev pub Goes : {A : Type 0} → List Milestone → Exec A → List Milestone → Type 0
  Goes done m done' = Progress w capability run_id attempt full_protocol state done m done'

  abbrev pub At : List Milestone → Session → Type 0
  At done = Reached w capability run_id attempt full_protocol state done

  abbrev pub Over : Session → Type 0
  Over = Ended w capability run_id attempt full_protocol state

  pub active :
      (done : List Milestone)
      → Completes done
      → Goes done (assert_active rt w o.lifecycle_event_timeout_ms run_id) done
  active =
      Progress-active w capability run_id attempt full_protocol state rt
        o.lifecycle_event_timeout_ms run_id

  pub over : (done : List Milestone) → Completes done → (s : Session) → At done s → Over s
  over done p s h = Reached-Ended w capability run_id attempt full_protocol state done s p h

  pub still :
      {A : Type 0} (m : Exec A) (done : List Milestone)
      → Completes done
      → Still m
      → Goes done m done
  still m done p h = Triple-still (At done) Over m h (over done p)

  pub report :
      (type : RunEventType) (status : JobStatus) (message : String) (metadata : Value)
      (done : List Milestone)
      → Completes (reported (event_text type) ∷ done)
      → Goes done
          (emit rt w o.lifecycle_event_timeout_ms job run_id capability attempt type status message
            metadata)
          (reported (event_text type) ∷ done)
  report type status message metadata done p =
      Progress-emit w capability run_id attempt full_protocol state rt o.lifecycle_event_timeout_ms
        job type status message metadata done p

  upload_one-Goes :
      (a : Artifact) (done : List Milestone)
      → a.run_id ≡ run_id
      → a.attempt ≡ attempt
      → Completes (upload_milestones a.kind done)
      → Goes done
          (upload_one rt w o job run_id capability attempt a)
          (upload_milestones a.kind done)
  unfolding upload_one
  upload_one-Goes a done r n p =
      let stored_p = IsPartial-tail w capability run_id attempt full_protocol state _ _ p in
      let asked_p = IsPartial-tail w capability run_id attempt full_protocol state _ _ stored_p in
      let done_p = IsPartial-tail w capability run_id attempt full_protocol state _ _ asked_p in
      Triple-bind _ _ (active done done_p) λ _.
        Triple-bind _ _ (report artifact_upload_requested _ _ _ done asked_p) λ _.
          Triple-bind _ _
            (Progress-store w capability run_id attempt full_protocol state rt _ _ a _ r n stored_p)
            λ _. report artifact_upload_succeeded _ _ _ _ p

  uploaded :
      (kind : ArtifactKind) (content_type : String) (body metadata : Value) (max_bytes : ℕ)
      (done : List Milestone)
      → Completes done
      → Triple
          (At done)
          (artifact_upload_payload rt run_id attempt kind content_type body metadata max_bytes)
          (λ a s. At done s × IsUpload rt run_id attempt kind body max_bytes a)
          Over
  uploaded kind content_type body metadata max_bytes done p =
      Triple-known (IsUpload rt run_id attempt kind body max_bytes) (At done) Over _
        (artifact_upload_payload-Post rt run_id attempt kind content_type body metadata max_bytes)
        (over done p)

  pub build_uploads-Goes :
      (raw : String) (parsed : Value) (done : List Milestone)
      → Completes done
      → Triple
          (At done)
          (build_uploads rt w o run_id attempt raw parsed)
          (λ l s. At done s × AreUploads run_id attempt l)
          Over
  unfolding build_uploads
  build_uploads-Goes raw parsed done p =
      Triple-bind _ _ (uploaded scanner_raw_output _ _ _ _ done p) λ a. Triple-assume _ λ ha.
        Triple-bind _ _ (uploaded normalized_findings _ _ _ _ done p) λ b. Triple-assume _ λ hb.
          Triple-bind _ _ (uploaded enrichment_summary _ _ _ _ done p) λ c. Triple-assume _ λ hc.
            Triple-weaken _
              (λ s h. (
                h,
                (
                  ha.same_kind,
                  hb.same_kind,
                  hc.same_kind,
                  (ha.same_run, ha.same_attempt),
                  (hb.same_run, hb.same_attempt),
                  (hc.same_run, hc.same_attempt),
                ),
              ))
              (λ a s h. h) (λ s h. h) (Triple-pure (a ∷ b ∷ c ∷ []))

  -- `upload_one-Goes` where the kind is known.
  upload_kind-Goes :
      (a : Artifact) (kind : String) (done : List Milestone)
      → a.kind ≡ kind
      → IsFor run_id attempt a
      → Completes (upload_milestones kind done)
      → Goes done (upload_one rt w o job run_id capability attempt a) (upload_milestones kind done)
  upload_kind-Goes a kind done e f p =
      subst
        (λ k.
          Completes (upload_milestones k done)
          → Goes done (upload_one rt w o job run_id capability attempt a)
              (upload_milestones k done))
        e (λ q. upload_one-Goes a done f.0 f.1 q) p

  pub upload_all-Goes :
      (l : List Artifact)
      → AreUploads run_id attempt l
      → Goes before_uploads (upload_all rt w o job run_id capability attempt l) after_uploads
  unfolding upload_all
  upload_all-Goes (a ∷ b ∷ c ∷ []) (ka, kb, kc, fa, fb, fc) =
      Triple-bind _ _ (upload_kind-Goes a _ before_uploads ka fa (stage 7)) λ _.
        Triple-bind _ _ (upload_kind-Goes b _ _ kb fb (stage 4))
          λ _. Triple-bind _ _ (upload_kind-Goes c _ _ kc fc (stage 1)) λ _. Triple-pure tt
  upload_all-Goes [] h = absurd h
  upload_all-Goes (a ∷ []) h = absurd h
  upload_all-Goes (a ∷ b ∷ []) h = absurd h
  upload_all-Goes (a ∷ b ∷ c ∷ d ∷ l) h = absurd h
