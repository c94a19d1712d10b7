-- ===== src/Api/Examples.antt =====
-- Runs of the server's rows, and the theorems on them.
mod Checks
mod Users
mod Tests
mod Requests
use shore_sentinel_app.Base.{◌*◌, ◌<◌, ◌≡◌, ◌≢◌, refl, ap, ◌⊎◌, true, none, some, arith}
use shore_sentinel_app.Shared.{job_claimed, job_running, job_retry_scheduled}
use shore_sentinel_app.Worker.Examples.{plain}
use shore_sentinel_app.Api.Run.{completed, is_pending, Store, create_job, has_event}
use shore_sentinel_app.Api.Run.Events.{worker_event_transition, worker_event_statement}
use shore_sentinel_app.Api.Run.Grants.{recovered, ssh_grant_statement}
use shore_sentinel_app.Api.Run.Cancel.{cancel_statement}
use shore_sentinel_app.Api.Run.Steps.{report, hand_out, cancel, Run, start, then_step, IsReachable}
use shore_sentinel_app.Api.Run.Sound.{IsSound}
use shore_sentinel_app.Api.Run.Sound.Histories.{reachable-IsSound}
use shore_sentinel_app.Api.Run.Automaton.{view}
use shore_sentinel_app.Api.Run.Automaton.Refines.{IsMove, Step-refines}
use shore_sentinel_app.Api.Run.Automaton.Ranked.{begin, stays, moves, create_job-ends}
use shore_sentinel_app.Api.Run.Laws.Ends.{terminal_forever, IsInert, cancelled-IsInert}
use shore_sentinel_app.Api.Run.Laws.Attempts.{finish_run, finish_run-completes}
use shore_sentinel_app.Api.Run.Laws.Lost.{
  recovery_unanswered, IsStuck, expired_before_claim-IsStuck,
}
use shore_sentinel_app.Api.Run.Requests.{Secrets, accepted, forbidden, record_event}
use shore_sentinel_app.Api.Run.Requests.Laws.{retry_unrecorded}

-- A run that is created, whose grant is consumed at 10 for 1000 milliseconds, and which is claimed.
abbrev created : Store
created = create_job "g1" 0 3 5000 true

abbrev granted : Store
granted = (ssh_grant_statement "g2" 10 1000 1 created).1

abbrev claimed : Store
claimed = (worker_event_statement 20 "g1" "g2" 1 job_claimed granted).1

abbrev dropped : Store
dropped = (cancel_statement 30 claimed).1

to_granted : Run created granted
to_granted = then_step start (hand_out "g2" 10 1000 1 created)

to_claimed : Run created claimed
to_claimed = then_step to_granted (report 20 "g1" "g2" 1 job_claimed granted)

to_dropped : Run created dropped
to_dropped = then_step to_claimed (cancel 30 claimed)

reached : (t : Store) → Run created t → IsReachable t
reached t history = record {
  grant_id = "g1";
  created_at = 0;
  max_attempts = 3;
  backoff_ms = 5000;
  enrolled_at_first = true;
  has_attempt = omega arith;
  history = history;
}

reachable-IsSound_example : IsSound claimed
reachable-IsSound_example = reachable-IsSound claimed (reached claimed to_claimed)

granted-IsSound : IsSound granted
granted-IsSound = reachable-IsSound granted (reached granted to_granted)

Step-refines_example : IsMove (view granted) (view claimed)
Step-refines_example = Step-refines (report 20 "g1" "g2" 1 job_claimed granted) granted-IsSound

claimed_moves : view claimed ≢ view granted
unfolding create_job ssh_grant_statement worker_event_statement worker_event_transition
claimed_moves e = cc (ap (λ v. is_pending v.0) e)

granted_stays : view granted ≡ view created
unfolding create_job ssh_grant_statement
granted_stays = refl

create_job-ends_example : 1 < 4 * 3
create_job-ends_example = create_job-ends "g1" 0 3 5000 true 1 claimed (omega arith) (
    moves (stays begin (hand_out "g2" 10 1000 1 created) granted_stays)
      (report 20 "g1" "g2" 1 job_claimed granted) claimed_moves)

finish_run-completes_example :
    ((finish_run 20 30 40 "g1" 1 granted).run_status ≡ completed)
    × ((finish_run 20 30 40 "g1" 1 granted).job_status ≡ completed)
unfolding create_job ssh_grant_statement
finish_run-completes_example =
    finish_run-completes 20 30 40 "g1" 1 granted (reached granted to_granted) refl refl refl refl

terminal_forever_example :
    view (worker_event_statement 40 "g1" "g2" 1 job_running dropped).1 ≡ view dropped
unfolding create_job ssh_grant_statement worker_event_statement worker_event_transition
    cancel_statement
terminal_forever_example =
    terminal_forever (then_step start (report 40 "g1" "g2" 1 job_running dropped))
      (reachable-IsSound dropped (reached dropped to_dropped)) refl

cancelled-IsInert_example : IsInert 50 dropped
unfolding create_job ssh_grant_statement worker_event_statement worker_event_transition
    cancel_statement
cancelled-IsInert_example =
    cancelled-IsInert 50 dropped (reachable-IsSound dropped (reached dropped to_dropped)) refl

recovery_unanswered_example :
    ssh_grant_statement "g3" 2000 1000 2 claimed ≡ (none, recovered "g3" 2000 1000 2 claimed)
unfolding create_job ssh_grant_statement worker_event_statement worker_event_transition
recovery_unanswered_example =
    recovery_unanswered "g3" 2000 1000 2 claimed (reached claimed to_claimed) refl

expired_before_claim-IsStuck_example : IsStuck 3000 granted
unfolding create_job ssh_grant_statement
expired_before_claim-IsStuck_example =
    expired_before_claim-IsStuck 2000 3000 (omega arith) granted (reached granted to_granted) refl
      refl

abbrev secrets : Secrets
secrets = record {
  internal_worker_token = some "token";
  secret_key = some "0123456789abcdef0123456789abcdef";
  hmac = λ key text. text;
}

retry_unrecorded_example :
    (record_event plain secrets
        (record { bearer = some "token"; capability = some "run:g1" })
        "run"
        "g2"
        30
        1
        job_retry_scheduled
        claimed
      ≡ (forbidden, claimed))
    ⊎ ((record_event plain secrets
            (record { bearer = some "token"; capability = some "run:g1" })
            "run"
            "g2"
            30
            1
            job_retry_scheduled
            claimed
          ≡ (accepted, claimed))
        × (has_event job_retry_scheduled 1 claimed.events ≡ true))
retry_unrecorded_example =
    retry_unrecorded plain secrets (record { bearer = some "token"; capability = some "run:g1" })
      "run" "g2" 30 1 claimed
