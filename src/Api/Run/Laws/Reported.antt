-- ===== src/Api/Run/Laws/Reported.antt =====
-- The grants of a run (api/src), by number.
use shore_sentinel_app.Base.{
  ℕ, suc, ◌-◌, ◌≤◌, ◌≡◌, sym, String, true, List, [], ◌∷◌, any, length, and_left, and_right, ==_iff,
  arith,
}
use shore_sentinel_app.Api.Run.{Grant, Store}
use shore_sentinel_app.Api.Run.Events.{is_granted}
use shore_sentinel_app.Api.Run.Ladder.{Superseded, Ladder, Ladder-usable, granted_unrevoked}
use shore_sentinel_app.Api.Run.Steps.{IsReachable}
use shore_sentinel_app.Api.Run.Sound.Histories.{reachable-IsSound}

length-Superseded : (n : ℕ) (gs : List Grant) → Superseded n gs → length gs ≡ n
length-Superseded n [] h = sym h
length-Superseded n (g ∷ gs) (pos, at_n, gone, rest) =
    let ih = length-Superseded (n - 1) gs rest in omega (arith, ih, pos)

length-Ladder : (n : ℕ) (gs : List Grant) → Ladder n gs → length gs ≡ n
length-Ladder n [] h = sym h
length-Ladder n (g ∷ gs) (pos, at_n, rest) =
    let ih = length-Superseded (n - 1) gs rest in omega (arith, ih, pos)

-- A reachable run has at most as many grants as its job has attempts, and the grant that an event
-- of a worker is authorised by is that of the newest attempt.
grants_within_attempts :
    (now : ℕ) (grant_id : String) (attempt : ℕ) (t : Store)
    → IsReachable t
    → any (is_granted now grant_id attempt) t.grants ≡ true
    → (length t.grants ≤ t.retry_max_attempts) × (attempt ≡ length t.grants)
grants_within_attempts now grant_id attempt t r h =
    let sound = reachable-IsSound t r in
    let count = length-Ladder (suc t.retry_count) t.grants sound.grants_in_order in
    let (g, older, e, usable, at_n) =
      Ladder-usable (is_granted now grant_id attempt) (granted_unrevoked now grant_id attempt)
        (suc t.retry_count) t.grants sound.grants_in_order h in
    let same : g.attempt ≡ attempt =
      (==_iff g.attempt attempt).0 (and_right _ _ (and_left _ _ usable)) in
    (omega (arith, count, sound.attempts_left), omega (arith, count, same, at_n))
