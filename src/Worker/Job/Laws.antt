-- ===== src/Worker/Job/Laws.antt =====
-- What a queue payload must be to be accepted (normalizeSshJob of
-- workers/worker-node/src/sshExecutor.js).
use shore_sentinel_app.Base.{
  String, Bool, true, false, not, ◌&&◌, ◌||◌, subst, ◌≡◌, refl, ap, ◌∙◌, sym, ◌≢◌, ◌↔◌, some, none,
  List, [], ◌∷◌, any, arith, str_eq, eq_iff, Bool-cases, inl, inr, All,
}
use shore_sentinel_app.Value.{
  Value, str, or_nullish, get, has_own, is_object, is_filled_text, text_of,
}
use shore_sentinel_app.Worker.Job.{SshJob, forbidden_queue_fields, opaque_ids, normalize_ssh_job}

-- A value is a text that is not empty.
abbrev pub IsFilled : Value → String → Type 0
IsFilled v s = (v ≡ str s) × (s ≢ "")

pub differs_from_empty : (s : String) → s ≢ "" → str_eq s "" ≡ false
differs_from_empty s h = elim (Bool-cases (str_eq s "")) [
  | inl same ↦ absurd (h ((eq_iff s "").0 same))
  | inr other ↦ other
]

filled_sound : (v : Value) → is_filled_text v ≡ true → IsFilled v (text_of v)
filled_sound (str s) h = (refl, λ e. cc)
filled_sound _ h = cc

filled_complete :
    (v : Value) (s : String) → IsFilled v s → (is_filled_text v ≡ true) × (text_of v ≡ s)
filled_complete v s (e, filled) = rw e (ap not (differs_from_empty s filled), refl)

-- The payload names the three identifiers, in one of their spellings, and has no field of the
-- forbidden ones.
pub record IsOpaque (p : Value) (ids : SshJob) : Type 0 where
  pub is_obj : is_object p ≡ true
  pub nothing_forbidden : All (λ name. has_own p name ≡ false) forbidden_queue_fields
  pub run : IsFilled (or_nullish (get "runId" p) (get "run_id" p)) ids.run_id
  pub job :
      IsFilled (or_nullish (get "jobId" p) (or_nullish (get "job_id" p) (get "id" p))) ids.job_id
  pub target : IsFilled (or_nullish (get "targetId" p) (get "target_id" p)) ids.target_id

and_three : (a b c : Bool) → (a && (b && c)) ≡ true → (a ≡ true) × (b ≡ true) × (c ≡ true)
and_three a b c h = ground arith

some_job : {i j : SshJob} → some i ≡ some j → i ≡ j
some_job h = cc

none_not_some : {i : SshJob} → none ≡ some i → ⊥
none_not_some h = cc

opaque_ids_sound :
    (r j t : Value) (ids : SshJob)
    → opaque_ids r j t ≡ some ids
    → IsFilled r ids.run_id × IsFilled j ids.job_id × IsFilled t ids.target_id
opaque_ids_sound r j t ids h =
    elim (Bool-cases (is_filled_text r && (is_filled_text j && is_filled_text t))) [
      | inl fits ↦
          let (hr, hj, ht) = and_three _ _ _ fits in
          subst (λ (i : SshJob). IsFilled r i.run_id × IsFilled j i.job_id × IsFilled t i.target_id)
            (some_job (rw fits at h)) (filled_sound r hr, filled_sound j hj, filled_sound t ht)
      | inr unfit ↦ absurd (none_not_some (rw unfit at h))
    ]

opaque_ids_complete :
    (r j t : Value) (ids : SshJob)
    → IsFilled r ids.run_id
    → IsFilled j ids.job_id
    → IsFilled t ids.target_id
    → opaque_ids r j t ≡ some ids
opaque_ids_complete r j t ids hr hj ht =
    let (fr, tr) = filled_complete r ids.run_id hr in
    let (fj, tj) = filled_complete j ids.job_id hj in
    let (ft, tt') = filled_complete t ids.target_id ht in rw (fr, fj, ft) (rw (tr, tj, tt'))

or_false : (a b : Bool) → (a || b) ≡ false → (a ≡ false) × (b ≡ false)
or_false a b h = ground arith

any-false {ℓ} :
    {A : Type ℓ} (p : A → Bool) (xs : List A) → any p xs ≡ false → All (λ x. p x ≡ false) xs
any-false p [] h = tt
any-false p (x ∷ xs) h =
    let (here, later) = or_false (p x) (any p xs) h in (here, any-false p xs later)

any_of_false {ℓ} :
    {A : Type ℓ} (p : A → Bool) (xs : List A) → All (λ x. p x ≡ false) xs → any p xs ≡ false
any_of_false p [] h = refl
any_of_false p (x ∷ xs) h = rw h.0 (any_of_false p xs h.1)

true_not_false : true ≡ false → ⊥
true_not_false h = cc

-- A payload is accepted, with these identifiers, exactly when it is opaque.
pub normalize_ssh_job_iff :
    (p : Value) (ids : SshJob) → (normalize_ssh_job p ≡ some ids) ↔ IsOpaque p ids
unfolding normalize_ssh_job
normalize_ssh_job_iff p ids = elim (Bool-cases (is_object p)) [
  | inl object ↦ elim (Bool-cases (any (has_own p) forbidden_queue_fields)) [
    | inl forbidden ↦ (
      λ h. absurd (none_not_some (rw (object, forbidden) at h)),
      λ h. absurd (
          true_not_false
            (sym forbidden ∙ any_of_false (has_own p) forbidden_queue_fields h.nothing_forbidden)),
    )
    | inr allowed ↦ (
      λ h.
          let (r, j, t) = opaque_ids_sound _ _ _ ids (rw (object, allowed) at h) in
          record {
            is_obj = object;
            nothing_forbidden = any-false (has_own p) forbidden_queue_fields allowed;
            run = r;
            job = j;
            target = t;
          },
      λ h. rw (object, allowed) (opaque_ids_complete _ _ _ ids h.run h.job h.target),
    )
  ]
  | inr other ↦ (
    λ h. absurd (none_not_some (rw other at h)),
    λ h. absurd (true_not_false (sym h.is_obj ∙ other)),
  )
]
