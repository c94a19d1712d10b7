-- ===== src/Api/Validation/Laws.antt =====
-- The lease of a grant (api/src/validation.ts) and the timeouts of the worker.
use shore_sentinel_app.Base.{ℕ, ◌+◌, ◌*◌, ◌<◌, ◌≡◌, List, [], ◌∷◌}
use shore_sentinel_app.Worker.Control.Rules.{Milestone, reported, stored}
use shore_sentinel_app.Worker.Process.Protocol.{full_protocol}
use shore_sentinel_app.Worker.Config.{Config}
use shore_sentinel_app.Api.Validation.{WorkerExecutionTimeBudget, maximum_attempt_ms}

-- The budget of the server for the timeouts of a configuration of the worker.
abbrev pub budget_of : Config → WorkerExecutionTimeBudget
budget_of c = record {
  ssh_timeout_ms = c.ssh_timeout_ms;
  parser_timeout_ms = c.parser_timeout_ms;
  artifact_handoff_timeout_ms = c.artifact_handoff_timeout_ms;
  lifecycle_event_timeout_ms = c.lifecycle_event_timeout_ms;
  grant_lifetime_ms =
      maximum_attempt_ms c.ssh_timeout_ms c.parser_timeout_ms c.artifact_handoff_timeout_ms
        c.lifecycle_event_timeout_ms
      + 1000;
}

-- The events and the artifacts among the milestones of an attempt.
abbrev pub reports : List Milestone → ℕ
reports [] = 0
reports (reported type ∷ rest) = 1 + reports rest
reports (stored kind ∷ rest) = reports rest

abbrev pub stores : List Milestone → ℕ
stores [] = 0
stores (reported type ∷ rest) = stores rest
stores (stored kind ∷ rest) = 1 + stores rest

-- The budget of the server beside the configuration of the worker.
pub record IsLeased (c : Config) (b : WorkerExecutionTimeBudget) : Type 0 where
  pub same_ssh : b.ssh_timeout_ms ≡ c.ssh_timeout_ms
  pub same_parser : b.parser_timeout_ms ≡ c.parser_timeout_ms
  pub same_handoff : b.artifact_handoff_timeout_ms ≡ c.artifact_handoff_timeout_ms
  pub same_event : b.lifecycle_event_timeout_ms ≡ c.lifecycle_event_timeout_ms
  pub covers :
      c.ssh_timeout_ms
        + c.parser_timeout_ms
        + stores full_protocol * c.artifact_handoff_timeout_ms
        + reports full_protocol * c.lifecycle_event_timeout_ms
      < b.grant_lifetime_ms
