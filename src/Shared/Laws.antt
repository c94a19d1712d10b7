-- ===== src/Shared/Laws.antt =====
-- The exact condition under which an artifact upload passes (packages/shared/src/index.js).
use shore_sentinel_app.Base.{
  String, Bool, true, not, ◌&&◌, ◌||◌, ◌≡◌, refl, ap, ◌↔◌, ◌++◌, arith, eq_iff, one_of,
}
use shore_sentinel_app.Value.{Value, str, truthy, get, is_object}
use shore_sentinel_app.Shared.{
  ArtifactKind, scanner_raw_output, normalized_findings, enrichment_summary, kind_text, kind_values,
  known_kind, report, none_left, payload_not_object, run_id_missing, kind_invalid,
  content_type_missing, body_missing, body_not_base64, validate_artifact_upload,
}

-- A value is one of the three kinds' texts.
abbrev pub IsKind : Value → Type 0
IsKind v = (k : ArtifactKind) × (v ≡ str (kind_text k))

known_kind_text :
    (s : String) → one_of kind_values s ≡ true → (k : ArtifactKind) × (s ≡ kind_text k)
unfolding kind_text
known_kind_text s h = grind (
  arith,
  eq_iff s "scanner.raw_output",
  eq_iff s "scanner.normalized_findings",
  eq_iff s "scanner.enrichment_summary",
)

known_kind-IsKind : (v : Value) → known_kind v ≡ true → IsKind v
known_kind-IsKind (str s) h = let (k, e) = known_kind_text s h in (k, ap str e)
known_kind-IsKind _ h = cc

IsKind-known_kind : (v : Value) → IsKind v → (truthy v && known_kind v) ≡ true
unfolding kind_text
IsKind-known_kind v (scanner_raw_output, e) = rw e
IsKind-known_kind v (normalized_findings, e) = rw e
IsKind-known_kind v (enrichment_summary, e) = rw e

abbrev verdict : Bool → Bool → Bool → Bool → Bool → Bool → Bool → Bool
verdict o r k n c b f = none_left (
    report (not o) payload_not_object
    ++ (report (not r) run_id_missing
        ++ (report (not k || not n) kind_invalid
            ++ (report (not c) content_type_missing
                ++ (report (not b) body_missing ++ report (b && not f) body_not_base64)))))

verdict_sound :
    (o r k n c b f : Bool)
    → verdict o r k n c b f ≡ true
    → (o ≡ true) × (r ≡ true) × (n ≡ true) × (c ≡ true) × (b ≡ true) × (f ≡ true)
verdict_sound true true true true true true true h = (refl, refl, refl, refl, refl, refl)
verdict_sound o r k n c b f h = ground arith

verdict_complete :
    (k n f : Bool) → (k && n) ≡ true → f ≡ true → verdict true true k n true true f ≡ true
verdict_complete k n f h e = ground arith

-- An upload is valid exactly when the payload is an object whose run and content type are
-- present, whose kind is one of the three, and whose body is present and can be decoded.
pub validate_artifact_upload_iff :
    (buffer_from : Value → Bool) (payload : Value)
    → ((validate_artifact_upload buffer_from payload).0 ≡ true) ↔ (
        (is_object payload ≡ true)
        × (truthy (get "runId" payload) ≡ true)
        × IsKind (get "kind" payload)
        × (truthy (get "contentType" payload) ≡ true)
        × (truthy (get "bodyBase64" payload) ≡ true)
        × (buffer_from (get "bodyBase64" payload) ≡ true))
unfolding validate_artifact_upload
validate_artifact_upload_iff buffer_from payload = (
  λ h.
      let (o, r, n, c, b, f) = verdict_sound _ _ (truthy (get "kind" payload)) _ _ _ _ h in
      (o, r, known_kind-IsKind _ n, c, b, f),
  λ (o, r, n, c, b, f). rw (o, r, c, b) (verdict_complete _ _ _ (IsKind-known_kind _ n) f),
)
