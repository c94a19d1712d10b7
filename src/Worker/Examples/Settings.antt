-- ===== src/Worker/Examples/Settings.antt =====
-- The configuration at a concrete environment (workers/worker-node/src/config.js).
use shore_sentinel_app.Base.{none, some, ◌≡◌, refl, str_eq, gives, if◌then◌else◌}
use shore_sentinel_app.Worker.Config.{
  Environment, positive_integer, ssh_worker_concurrency, Config, read_config,
}
use shore_sentinel_app.Worker.Config.Laws.{IsBounded, read_config-IsBounded}

abbrev environment : Environment
environment name = if str_eq name "PARSER_TIMEOUT_MS" then some "3600000" else none

abbrev settings : Config
settings = record {
  redis_url = "redis://redis:6379/0";
  api_url = "http://api:4000";
  python_worker_url = "http://worker-python:4100";
  internal_worker_token = "";
  ssh_timeout_ms = 120000;
  parser_timeout_ms = 3600000;
  artifact_handoff_timeout_ms = 30000;
  lifecycle_event_timeout_ms = 10000;
  concurrency = 1;
}

accepted : read_config environment ≡ gives settings
unfolding read_config positive_integer ssh_worker_concurrency
accepted = refl

read_config-IsBounded_example : IsBounded settings
read_config-IsBounded_example = read_config-IsBounded environment settings accepted
