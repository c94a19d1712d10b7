-- ===== src/Api/Run/Automaton/Ranked.antt =====
-- The moves that the automaton of a run of api/src has left.
use shore_sentinel_app.Base.{
  ℕ, suc, ◌+◌, ◌-◌, ◌*◌, ◌≤◌, ◌<◌, ◌≡◌, ◌≢◌, refl, ap, String, Bool, true, inl, inr, arith,
}
use shore_sentinel_app.Api.Run.{
  Status, pending, queued, leased, running, completed, failed, stale, cancelled, is_pending,
  is_started, is_finished, is_active_run, Store, create_job,
}
use shore_sentinel_app.Api.Run.Steps.{Step}
use shore_sentinel_app.Api.Run.Sound.{IsSound}
use shore_sentinel_app.Api.Run.Sound.Statements.{create_job-IsSound}
use shore_sentinel_app.Api.Run.Sound.Histories.{Step-IsSound}
use shore_sentinel_app.Api.Run.Automaton.{
  View, view, Move, claim, work, finish, retry, withdraw, moves_left,
}
use shore_sentinel_app.Api.Run.Automaton.Refines.{Step-refines}

finished_end : (st : Status) (n max : ℕ) → is_finished st ≡ true → moves_left (st, n, max) ≡ 0
finished_end completed n max h = refl
finished_end failed n max h = refl
finished_end pending n max h = cc h
finished_end queued n max h = cc h
finished_end leased n max h = cc h
finished_end running n max h = cc h
finished_end stale n max h = cc h
finished_end cancelled n max h = cc h

-- An active run has at least the move into its end.
active_moves :
    (st : Status) (n max : ℕ) → is_active_run st ≡ true → 4 * (max - n) < moves_left (st, n, max)
active_moves pending n max h = omega arith
active_moves leased n max h = omega arith
active_moves running n max h = omega arith
active_moves queued n max h = cc h
active_moves completed n max h = cc h
active_moves failed n max h = cc h
active_moves stale n max h = cc h
active_moves cancelled n max h = cc h

started_moves : (st : Status) (n max : ℕ) → is_started st ≡ true → 0 < moves_left (st, n, max)
started_moves leased n max h = omega arith
started_moves running n max h = omega arith
started_moves pending n max h = cc h
started_moves queued n max h = cc h
started_moves completed n max h = cc h
started_moves failed n max h = cc h
started_moves stale n max h = cc h
started_moves cancelled n max h = cc h

claim_moves :
    (st : Status) (n max : ℕ)
    → is_pending st ≡ true
    → moves_left (leased, n, max) < moves_left (st, n, max)
claim_moves pending n max h = omega arith
claim_moves queued n max h = cc h
claim_moves leased n max h = cc h
claim_moves running n max h = cc h
claim_moves completed n max h = cc h
claim_moves failed n max h = cc h
claim_moves stale n max h = cc h
claim_moves cancelled n max h = cc h

pub Move-descends : {u v : View} → Move u v → moves_left v < moves_left u
Move-descends (claim from n max h) = claim_moves from n max h
Move-descends (work n max) = omega arith
Move-descends (finish from to n max h e) = rw (finished_end to n max e) (started_moves from n max h)
Move-descends (retry from n max h left) =
    let most = active_moves from n max h in omega (arith, most, left)
Move-descends (withdraw from n max h) = let most = active_moves from n max h in omega (arith, most)

-- A history with the number of its statements that change the status or the attempt.
pub data Evolution (s : Store) : ℕ → Store → Type 0 where
  begin : Evolution s 0 s
  stays : {n : ℕ} {t u : Store} → Evolution s n t → Step t u → view u ≡ view t → Evolution s n u
  moves :
      {n : ℕ} {t u : Store} → Evolution s n t → Step t u → view u ≢ view t → Evolution s (suc n) u

Evolution-IsSound : {s : Store} {n : ℕ} {t : Store} → Evolution s n t → IsSound s → IsSound t
Evolution-IsSound begin h = h
Evolution-IsSound (stays earlier st e) h = Step-IsSound st (Evolution-IsSound earlier h)
Evolution-IsSound (moves earlier st e) h = Step-IsSound st (Evolution-IsSound earlier h)

Evolution-descends :
    {s : Store} {n : ℕ} {t : Store}
    → Evolution s n t
    → IsSound s
    → n + moves_left (view t) ≤ moves_left (view s)
Evolution-descends begin h = omega arith
Evolution-descends (stays earlier st e) h =
    let before = Evolution-descends earlier h in omega (arith, before, ap moves_left e)
Evolution-descends (moves earlier st differs) h =
    let before = Evolution-descends earlier h in
    elim (Step-refines st (Evolution-IsSound earlier h)) [
      | inl same ↦ absurd (differs same)
      | inr move ↦ omega (arith, before, Move-descends move)
    ]

-- A run that is created with at most `max` attempts changes its status or its attempt less than
-- `4 * max` times, whatever statements follow: retries and recoveries come to an end.
pub create_job-ends :
    (grant_id : String) (now max backoff : ℕ) (enrolled : Bool) (n : ℕ) (t : Store)
    → 1 ≤ max
    → Evolution (create_job grant_id now max backoff enrolled) n t
    → n < 4 * max
unfolding create_job
create_job-ends grant_id now max backoff enrolled n t h history =
    let most =
      Evolution-descends history (create_job-IsSound grant_id now max backoff enrolled h) in
    omega (arith, most, h)
