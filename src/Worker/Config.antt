-- ===== src/Worker/Config.antt =====
-- workers/worker-node/src/config.js: the configuration from the environment.
pub mod Laws
use Prim.Native.String.{◌++◌}
use shore_sentinel_app.Base.{
  ℕ, ◌*◌, String, Bool, true, false, not, ◌&&◌, ◌||◌, Option, none, some, ltb, leb, str_eq,
  is_digits, digits_value, Result, fails, gives, if◌then◌else◌,
}
use shore_sentinel_app.Value.{max_safe, text_or}
use shore_sentinel_app.Web.Paths.{drop_final_slash}

-- The environment: `none` for a variable that is not set.
abbrev pub Environment : Type 0
Environment = String → Option String

-- The default of `maximum`.
abbrev pub hour_ms : ℕ
hour_ms = 60 * 60 * 1000

abbrev pub variable_or : Environment → String → String → String
variable_or env name fallback = elim (env name) [ none ↦ fallback | some raw ↦ raw ]

-- `positiveInteger`, for the decimal text of its fallback and of its maximum. A text of digits
-- above 2 ^ 53 - 1 is read as a number that is no safe integer.
unfoldable pub positive_integer : Environment → (name fallback maximum_text : String) → ℕ → Result ℕ
positive_integer env name fallback maximum_text maximum =
    let raw = variable_or env name fallback in
    if not (is_digits raw)
    then fails (name ++ " must be a positive integer")
    else let value = digits_value raw in
      if ltb max_safe value || ltb value 1 || ltb maximum value
      then fails (name ++ " must be between 1 and " ++ maximum_text)
      else gives value

-- `sshWorkerConcurrency`.
unfoldable pub ssh_worker_concurrency : Environment → Result ℕ
ssh_worker_concurrency env =
    if str_eq (variable_or env "WORKER_CONCURRENCY" "1") "1"
    then gives 1
    else fails "WORKER_CONCURRENCY must be exactly 1"

pub record Config : Type 0 where
  pub redis_url : String
  pub api_url : String
  pub python_worker_url : String
  pub internal_worker_token : String
  pub ssh_timeout_ms : ℕ
  pub parser_timeout_ms : ℕ
  pub artifact_handoff_timeout_ms : ℕ
  pub lifecycle_event_timeout_ms : ℕ
  pub concurrency : ℕ

abbrev pub then_result {ℓ κ} : {A : Type ℓ} {B : Type κ} → Result A → (A → Result B) → Result B
then_result (fails e) f = fails e
then_result (gives a) f = f a

abbrev pub timeout_variable : Environment → String → String → Result ℕ
timeout_variable env name fallback = positive_integer env name fallback "3600000" hour_ms

abbrev pub set_or : Environment → String → String → String
set_or env name fallback = text_or (variable_or env name "") fallback

-- `readConfig`.
unfoldable pub read_config : Environment → Result Config
read_config env = then_result (timeout_variable env "SSH_EXECUTION_TIMEOUT_MS" "120000") (λ ssh.
    then_result (timeout_variable env "PARSER_TIMEOUT_MS" "120000") (λ parser.
      then_result (timeout_variable env "ARTIFACT_HANDOFF_TIMEOUT_MS" "30000") (λ handoff.
        then_result (timeout_variable env "LIFECYCLE_EVENT_TIMEOUT_MS" "10000") (λ event.
          then_result (ssh_worker_concurrency env) (λ concurrency. gives (record {
            redis_url = set_or env "REDIS_URL" "redis://redis:6379/0";
            api_url = drop_final_slash (set_or env "API_URL" "http://api:4000");
            python_worker_url =
                drop_final_slash (set_or env "PYTHON_WORKER_URL" "http://worker-python:4100");
            internal_worker_token = set_or env "INTERNAL_WORKER_TOKEN" "";
            ssh_timeout_ms = ssh;
            parser_timeout_ms = parser;
            artifact_handoff_timeout_ms = handoff;
            lifecycle_event_timeout_ms = event;
            concurrency = concurrency;
          }))))))
