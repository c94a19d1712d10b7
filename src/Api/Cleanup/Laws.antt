-- ===== src/Api/Cleanup/Laws.antt =====
-- The claims of cleanup work (api/src/artifact.service.ts).
use shore_sentinel_app.Base.{
  ℕ, ◌+◌, ◌≤◌, ◌≡◌, refl, Bool, false, none, some, Bool-cases, inl, inr, ltb, arith,
}
use shore_sentinel_app.Api.Cleanup.{CleanupWork, stale_after_ms, may_claim, claim_work}

some_work : {a b : CleanupWork} → some a ≡ some b → a ≡ b
some_work h = cc h

-- A row that was claimed is refused to every further claim for five minutes, whether by the timer
-- or by a request that may retry at once, and its attempts are one more.
pub claim_work-excludes :
    (immediate other : Bool) (now later : ℕ) (work claimed : CleanupWork)
    → claim_work immediate now work ≡ some claimed
    → later ≤ now + stale_after_ms
    → (claim_work other later claimed ≡ none) × (claimed.attempt_count ≡ work.attempt_count + 1)
unfolding claim_work may_claim
claim_work-excludes immediate other now later work claimed h soon =
    elim (Bool-cases (may_claim immediate now work)) [
      | inr e ↦ cc (rw (claim_work, e) at h)
      | inl e ↦
          let claim = some_work (rw (claim_work, e) at h) in
          let early : ltb (now + stale_after_ms) later ≡ false = ground arith in
          rw⁻¹ claim (rw early refl, refl)
    ]
