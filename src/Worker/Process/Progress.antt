-- ===== src/Worker/Process/Progress.antt =====
-- The milestones of a whole attempt of processManagedSshJobSteps
-- (workers/worker-node/src/managedSshProcessor.js), whatever the world answers.
use shore_sentinel_app.Base.{ℕ, String, ◌≡◌, refl, List, [], drop, length}
use shore_sentinel_app.Value.{Value}
use shore_sentinel_app.Shared.{
  job_claimed, job_running, parse_started, parse_succeeded, job_succeeded,
}
use shore_sentinel_app.Runtime.{Runtime}
use shore_sentinel_app.Worker.Exec.{World, FailureState, Exec, parse}
use shore_sentinel_app.Worker.Exec.Triple.{
  Triple, Triple-bind, Triple-pure, Triple-assume, Triple-weaken,
}
use shore_sentinel_app.Worker.Control.{Job}
use shore_sentinel_app.Worker.Control.Rules.{Milestone, Progress-quiet}
use shore_sentinel_app.Worker.Monitor.Rules.{start_monitoring-Watching, execute_monitored-At}
use shore_sentinel_app.Worker.Output.Laws.{
  read-Still, read_length-Still, scanner_output_from_ssh-Still,
}
use shore_sentinel_app.Worker.Process.{Budgets, Summary, hand_off, scan}
use shore_sentinel_app.Worker.Process.Protocol.{
  before_uploads, full_protocol, stage, At, Over, AreUploads-length, active, still, report,
  build_uploads-Goes, upload_all-Goes,
}

module _ (rt : Runtime) (w : World) (o : Budgets) (job : Job) (capability run_id : String)
    (attempt : ℕ) (state : FailureState) where
  -- The attempt ends with every milestone and with three artifacts.
  abbrev pub Finishes : List Milestone → Exec Summary → Type 0
  Finishes done m =
      Triple (At rt w o job capability run_id attempt state done) m
        (λ summary s.
          At rt w o job capability run_id attempt state full_protocol s × (summary.artifacts ≡ 3))
        (Over rt w o job capability run_id attempt state)

  hand_off-Goes :
      (raw : String) (parsed : Value)
      → Finishes (drop 11 full_protocol) (hand_off rt w o job run_id capability attempt raw parsed)
  unfolding hand_off
  hand_off-Goes raw parsed =
      Triple-bind _ _ (active rt w o job capability run_id attempt state _ (stage 11)) λ _.
        Triple-bind _ _
          (still rt w o job capability run_id attempt state _ _ (stage 11) (read-Still _ parsed))
          λ list.
            Triple-bind _ _
              (still rt w o job capability run_id attempt state _ _ (stage 11)
                (read_length-Still rt list))
              λ count.
                Triple-bind _ _
                  (report rt w o job capability run_id attempt state parse_succeeded _ _ _ _
                    (stage 10))
                  λ _.
                    Triple-bind _ _
                      (build_uploads-Goes rt w o job capability run_id attempt state raw parsed
                        before_uploads (stage 10))
                      λ uploads. Triple-assume _ λ fit.
                        Triple-bind _ _
                          (upload_all-Goes rt w o job capability run_id attempt state uploads fit)
                          λ _.
                            Triple-bind _ _
                              (active rt w o job capability run_id attempt state _ (stage 1))
                              λ _.
                                Triple-bind _ _
                                  (report rt w o job capability run_id attempt state job_succeeded _
                                    _ _ _ (stage 0))
                                  λ _.
                                    Triple-weaken _
                                      (λ s h. (h, AreUploads-length run_id attempt uploads fit))
                                      (λ a s h. h) (λ s h. h)
                                      (Triple-pure
                                        (record { artifacts = length uploads; findings = count }))

  pub scan-Goes : (grant : Value) → Finishes [] (scan rt w o job run_id capability attempt grant)
  unfolding scan
  scan-Goes grant =
      Triple-bind _ _ (active rt w o job capability run_id attempt state _ (stage 14)) λ _.
        Triple-bind _ _
          (report rt w o job capability run_id attempt state job_claimed _ _ _ _ (stage 13))
          λ _.
            Triple-bind _ _
              (report rt w o job capability run_id attempt state job_running _ _ _ _ (stage 12))
              λ _.
                Triple-bind _ _
                  (start_monitoring-Watching w _ _ capability run_id attempt full_protocol state _ _
                    (stage 12))
                  λ aborted.
                    Triple-bind _ _
                      (execute_monitored-At w _ _ capability run_id attempt full_protocol state _
                        aborted grant (stage 12))
                      λ result.
                        Triple-bind _ _
                          (active rt w o job capability run_id attempt state _ (stage 12))
                          λ _.
                            Triple-bind _ _
                              (still rt w o job capability run_id attempt state _ _ (stage 12)
                                (scanner_output_from_ssh-Still rt result))
                              λ output.
                                Triple-bind _ _
                                  (report rt w o job capability run_id attempt state parse_started _
                                    _ _ _ (stage 11))
                                  λ _.
                                    Triple-bind _ _
                                      (Progress-quiet w capability run_id attempt full_protocol
                                        state rt
                                        (parse run_id output.scanner_output o.contract_version) _ _
                                        _ refl (stage 11))
                                      λ parsed. hand_off-Goes output.raw parsed
