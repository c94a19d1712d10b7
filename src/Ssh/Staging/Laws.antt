-- ===== src/Ssh/Staging/Laws.antt =====
-- What the staging of a request comes to (workers/worker-node/src/sshExecutor.js).
use shore_sentinel_app.Base.{
  ℕ, String, ◌≡◌, refl, Option, none, some, List, [], ◌∷◌, ◌==◌, Bool-cases, inl, inr, arith,
}
use shore_sentinel_app.Ssh.Staging.{
  Promised, waiting, fulfilled, refused, StageState, StageEvent, late, unavailable, broken,
  unwritten, finished, refuse_stage, accept_stage, close_stage, stage_step, stage, stage_start,
}

-- How often a connection has to be ended for what a promise has come to.
abbrev pub endings : Promised (Unit {0}) → ℕ
endings (refused e) = 1
endings waiting = 0
endings _ = 0

-- The connection was ended as often as the promise says.
abbrev pub IsOrderly : StageState → Type 0
IsOrderly s = s.ended ≡ endings s.promise

refuse-IsOrderly :
    (e : String) (p : Promised (Unit {0})) (n : ℕ)
    → n ≡ endings p
    → IsOrderly (refuse_stage e (record { promise = p; ended = n }))
refuse-IsOrderly e waiting n h = omega (arith, h)
refuse-IsOrderly e (fulfilled u) n h = h
refuse-IsOrderly e (refused x) n h = h

accept-IsOrderly :
    (p : Promised (Unit {0})) (n : ℕ)
    → n ≡ endings p
    → IsOrderly (accept_stage (record { promise = p; ended = n }))
accept-IsOrderly waiting n h = h
accept-IsOrderly (fulfilled u) n h = h
accept-IsOrderly (refused x) n h = h

close-IsOrderly : (c : Option ℕ) (s : StageState) → IsOrderly s → IsOrderly (close_stage c s)
close-IsOrderly none s h =
    refuse-IsOrderly "SSH remote request staging rejected" s.promise s.ended h
close-IsOrderly (some code) s h = elim (Bool-cases (code == 0)) [
  | inl good ↦ rw good (accept-IsOrderly s.promise s.ended h)
  | inr bad ↦ rw bad (refuse-IsOrderly "SSH remote request staging rejected" s.promise s.ended h)
]

stage_step-IsOrderly : (e : StageEvent) (s : StageState) → IsOrderly s → IsOrderly (stage_step e s)
unfolding stage_step
stage_step-IsOrderly late s h =
    refuse-IsOrderly "SSH remote request staging timed out" s.promise s.ended h
stage_step-IsOrderly unavailable s h =
    refuse-IsOrderly "SSH remote request staging unavailable" s.promise s.ended h
stage_step-IsOrderly broken s h =
    refuse-IsOrderly "SSH remote request staging unavailable" s.promise s.ended h
stage_step-IsOrderly unwritten s h =
    refuse-IsOrderly "SSH remote request staging unavailable" s.promise s.ended h
stage_step-IsOrderly (finished c) s h = close-IsOrderly c s h

stage-keeps-IsOrderly :
    (es : List StageEvent) (s : StageState) → IsOrderly s → IsOrderly (stage es s)
unfolding stage
stage-keeps-IsOrderly [] s h = h
stage-keeps-IsOrderly (e ∷ es) s h =
    stage-keeps-IsOrderly es (stage_step e s) (stage_step-IsOrderly e s h)

-- Whatever happens while a request is staged, in whatever order, the connection is ended once if
-- the staging is refused, and never if it succeeds or is still waited for.
pub stage-IsOrderly : (events : List StageEvent) → IsOrderly (stage events stage_start)
stage-IsOrderly events = stage-keeps-IsOrderly events stage_start refl
