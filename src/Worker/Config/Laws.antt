-- ===== src/Worker/Config/Laws.antt =====
-- The bounds of a configuration that is accepted (workers/worker-node/src/config.js).
use shore_sentinel_app.Base.{
  ℕ, ◌≤◌, String, ◌||◌, ◌≡◌, refl, sym, subst, ltb, is_digits, digits_value, str_eq, Result, fails,
  gives, Bool-cases, inl, inr, arith,
}
use shore_sentinel_app.Value.{max_safe}
use shore_sentinel_app.Worker.Config.{
  Environment, hour_ms, variable_or, positive_integer, ssh_worker_concurrency, Config, then_result,
  timeout_variable, read_config,
}

-- A timeout that timers accept.
abbrev pub IsTimeout : ℕ → Type 0
IsTimeout n = (1 ≤ n) × (n ≤ 3600000)

pub gives_inj {ℓ} : {A : Type ℓ} {a b : A} → gives a ≡ gives b → a ≡ b
gives_inj h = cc h

IsTimeout-bounds :
    (env : Environment) (name fallback : String) (n : ℕ)
    → timeout_variable env name fallback ≡ gives n
    → IsTimeout n
unfolding positive_integer
IsTimeout-bounds env name fallback n h =
    let raw = variable_or env name fallback in
    elim (Bool-cases (is_digits raw)) [
      | inr wrong ↦ cc (rw (positive_integer, wrong) at h)
      | inl digits ↦
          elim (Bool-cases (
            ltb max_safe (digits_value raw)
            || ltb (digits_value raw) 1
            || ltb hour_ms (digits_value raw))) [
              | inl outside ↦ cc (rw (positive_integer, digits, outside) at h)
              | inr inside ↦
                  subst IsTimeout (gives_inj (rw (positive_integer, digits, inside) at h))
                    (ground arith, ground arith)
            ]
    ]

-- What a configuration keeps to: its timeouts lie between a millisecond and an hour, and one job is
-- processed at a time.
pub record IsBounded (c : Config) : Type 0 where
  pub ssh : IsTimeout c.ssh_timeout_ms
  pub parser : IsTimeout c.parser_timeout_ms
  pub handoff : IsTimeout c.artifact_handoff_timeout_ms
  pub event : IsTimeout c.lifecycle_event_timeout_ms
  pub alone : c.concurrency ≡ 1

concurrency_one : (env : Environment) (n : ℕ) → ssh_worker_concurrency env ≡ gives n → n ≡ 1
unfolding ssh_worker_concurrency
concurrency_one env n h =
    elim (Bool-cases (str_eq (variable_or env "WORKER_CONCURRENCY" "1") "1")) [
      | inl one ↦ sym (gives_inj (rw (ssh_worker_concurrency, one) at h))
      | inr other ↦ cc (rw (ssh_worker_concurrency, other) at h)
    ]

-- Where a chain of results gives one, its first part gave one that the rest was applied to.
pub then_gives {ℓ κ} :
    {A : Type ℓ} {B : Type κ} (r : Result A) (f : A → Result B) (b : B)
    → then_result r f ≡ gives b
    → (a : A) × (r ≡ gives a) × (f a ≡ gives b)
then_gives (fails e) f b h = cc h
then_gives (gives a) f b h = (a, refl, h)

-- A configuration that is accepted keeps to its bounds, whatever the environment is.
pub read_config-IsBounded :
    (env : Environment) (c : Config) (accepted : read_config env ≡ gives c) → IsBounded c
unfolding read_config
read_config-IsBounded env c accepted =
    let (ssh, e1, h1) =
      then_gives (timeout_variable env "SSH_EXECUTION_TIMEOUT_MS" "120000") _ c accepted in
    let (parser, e2, h2) = then_gives (timeout_variable env "PARSER_TIMEOUT_MS" "120000") _ c h1 in
    let (handoff, e3, h3) =
      then_gives (timeout_variable env "ARTIFACT_HANDOFF_TIMEOUT_MS" "30000") _ c h2 in
    let (event, e4, h4) =
      then_gives (timeout_variable env "LIFECYCLE_EVENT_TIMEOUT_MS" "10000") _ c h3 in
    let (one, e5, h5) = then_gives (ssh_worker_concurrency env) _ c h4 in
    subst IsBounded (gives_inj h5) (record {
      ssh = IsTimeout-bounds env "SSH_EXECUTION_TIMEOUT_MS" "120000" ssh e1;
      parser = IsTimeout-bounds env "PARSER_TIMEOUT_MS" "120000" parser e2;
      handoff = IsTimeout-bounds env "ARTIFACT_HANDOFF_TIMEOUT_MS" "30000" handoff e3;
      event = IsTimeout-bounds env "LIFECYCLE_EVENT_TIMEOUT_MS" "10000" event e4;
      alone = concurrency_one env one e5;
    })
