-- ===== src/Api/Run/Automaton/Refines.antt =====
-- The statements of api/src, seen as moves of the automaton of a run.
use shore_sentinel_app.Base.{
  ℕ, suc, ◌+◌, ◌<◌, ◌≡◌, refl, sym, ap, subst, ◌⊎◌, String, true, false, not, ◌||◌, Option, none,
  some, ◌==◌, Bool-cases, Option-cases, and_right, ltb→lt, inl, inr, if◌then◌else◌, arith,
}
use shore_sentinel_app.Shared.{
  RunEventType, job_queued, job_claimed, job_running, parse_started, parse_succeeded,
  artifact_upload_requested, artifact_upload_succeeded, job_retry_scheduled, job_succeeded,
  job_failed,
}
use shore_sentinel_app.Api.Run.{
  Status, pending, queued, leased, running, completed, failed, stale, cancelled, is_cancelled,
  is_started, is_terminal, is_active_run, DispatchRow, Store,
}
use shore_sentinel_app.Api.Run.Events.{
  worker_event_transition, is_retry, applies_to, applied, worker_event_statement,
}
use shore_sentinel_app.Api.Run.Grants.{recovers, recovered, is_waiting, ssh_grant_statement}
use shore_sentinel_app.Api.Run.Cancel.{cancels, cancel_statement}
use shore_sentinel_app.Api.Run.Artifacts.{
  may_upload, first_artifact, is_same_content, is_unfinished, reserve_statement, finalize_statement,
  discard_statement, delete_statement,
}
use shore_sentinel_app.Api.Run.Dispatch.{is_outstanding, mark_published, mark_failed, mark_retry}
use shore_sentinel_app.Api.Run.Steps.{
  Step, report, hand_out, cancel, reserve, finalize, discard, purge, publish, abandon, delay, enrol,
}
use shore_sentinel_app.Api.Run.Sound.{is_reachable_status, IsSound}
use shore_sentinel_app.Api.Run.Sound.Reports.{IsAccepted, worker_event_cases, newest_attempt}
use shore_sentinel_app.Api.Run.Sound.Handouts.{IsRecovery, recovers-IsRecovery, started_job}
use shore_sentinel_app.Api.Run.Automaton.{View, view, Move, claim, work, finish, retry, withdraw}

abbrev pub IsMove : View → View → Type 0
IsMove u v = (v ≡ u) ⊎ Move u v

work-IsMove :
    (max n : ℕ) (st : Status) → is_started st ≡ true → IsMove (st, n, max) (running, n, max)
work-IsMove max n leased h = inr (work n max)
work-IsMove max n running h = inl refl
work-IsMove max n pending h = cc h
work-IsMove max n queued h = cc h
work-IsMove max n completed h = cc h
work-IsMove max n failed h = cc h
work-IsMove max n stale h = cc h
work-IsMove max n cancelled h = cc h

-- The move of an event to an attempt, by its transition.
abbrev IsProgress : (max n next : ℕ) → Status → Option (Status × Status) → Type 0
IsProgress max n next st none = Unit
IsProgress max n next st (some (run, job)) = IsMove (st, n, max) (run, next, max)

IsProgress-of_event :
    (max n : ℕ) (type : RunEventType) (st : Status)
    → is_retry type ≡ false
    → applies_to type st ≡ true
    → IsProgress max n n st (worker_event_transition type)
unfolding worker_event_transition
IsProgress-of_event max n job_queued st r h = tt
IsProgress-of_event max n job_claimed st r h = inr (claim st n max h)
IsProgress-of_event max n job_running st r h = work-IsMove max n st h
IsProgress-of_event max n parse_started st r h = work-IsMove max n st h
IsProgress-of_event max n parse_succeeded st r h = work-IsMove max n st h
IsProgress-of_event max n artifact_upload_requested st r h = work-IsMove max n st h
IsProgress-of_event max n artifact_upload_succeeded st r h = work-IsMove max n st h
IsProgress-of_event max n job_succeeded st r h = inr (finish st completed n max h refl)
IsProgress-of_event max n job_failed st r h = inr (finish st failed n max h refl)
IsProgress-of_event max n job_retry_scheduled st r h = cc r

IsProgress-of_retry :
    (max n : ℕ) (type : RunEventType) (st : Status)
    → is_retry type ≡ true
    → n < max
    → applies_to type st ≡ true
    → IsProgress max n (suc n) st (worker_event_transition type)
unfolding worker_event_transition
IsProgress-of_retry max n job_retry_scheduled st r left h = inr (retry st n max h left)
IsProgress-of_retry max n job_queued st r left h = cc r
IsProgress-of_retry max n job_claimed st r left h = cc r
IsProgress-of_retry max n job_running st r left h = cc r
IsProgress-of_retry max n parse_started st r left h = cc r
IsProgress-of_retry max n parse_succeeded st r left h = cc r
IsProgress-of_retry max n artifact_upload_requested st r left h = cc r
IsProgress-of_retry max n artifact_upload_succeeded st r left h = cc r
IsProgress-of_retry max n job_succeeded st r left h = cc r
IsProgress-of_retry max n job_failed st r left h = cc r

-- The number of the attempt after an accepted event.
applied-IsMove :
    (now : ℕ) (grant_id next_id : String) (attempt : ℕ) (type : RunEventType)
    (statuses : Status × Status) (s : Store)
    → worker_event_transition type ≡ some statuses
    → IsAccepted now grant_id attempt type s
    → IsSound s
    → IsMove (view s) (view (applied grant_id next_id attempt type statuses s))
applied-IsMove now grant_id next_id attempt type statuses s e ok sound =
    elim (Bool-cases (is_retry type)) [
      | inl r ↦
          let newest = newest_attempt now grant_id attempt type s ok sound in
          let turn = and_right (s.retry_count + 1 == attempt) _ (rw r at ok.in_turn) in
          let left : suc s.retry_count < s.retry_max_attempts =
            omega (arith, newest, ltb→lt attempt s.retry_max_attempts turn) in
          let up : suc (suc s.retry_count) ≡ suc (s.retry_count + 1) = omega arith in
          let move =
            subst
              (IsProgress s.retry_max_attempts (suc s.retry_count) (suc (suc s.retry_count))
                s.run_status)
              e
              (IsProgress-of_retry s.retry_max_attempts (suc s.retry_count) type s.run_status r left
                ok.applicable) in
          rw r (subst (λ n. IsMove (view s) (statuses.0, n, s.retry_max_attempts)) up move)
      | inr r ↦ rw r (
          subst
            (IsProgress s.retry_max_attempts (suc s.retry_count) (suc s.retry_count) s.run_status) e
            (IsProgress-of_event s.retry_max_attempts (suc s.retry_count) type s.run_status r
              ok.applicable))
    ]

report-IsMove :
    (now : ℕ) (grant_id next_id : String) (attempt : ℕ) (type : RunEventType) (s : Store)
    → IsSound s
    → IsMove (view s) (view (worker_event_statement now grant_id next_id attempt type s).1)
report-IsMove now grant_id next_id attempt type s sound =
    elim (worker_event_cases now grant_id next_id attempt type s) [
      | inl same ↦ inl (ap view same)
      | inr (statuses, e, ok, changed) ↦
          subst (λ r. IsMove (view s) (view r.1)) (sym changed)
            (applied-IsMove now grant_id next_id attempt type statuses s e ok sound)
    ]

started_active : (st : Status) → is_started st ≡ true → is_active_run st ≡ true
started_active leased h = refl
started_active running h = refl
started_active pending h = refl
started_active queued h = cc h
started_active completed h = cc h
started_active failed h = cc h
started_active stale h = cc h
started_active cancelled h = cc h

recovered-IsMove :
    (id : String) (now lifetime_ms attempt : ℕ) (s : Store)
    → IsRecovery now attempt s
    → IsSound s
    → IsMove (view s) (view (recovered id now lifetime_ms attempt s))
recovered-IsMove id now lifetime_ms attempt s ok sound =
    let job : is_started s.job_status ≡ true =
      subst (λ st. is_started st ≡ true) (sym sound.statuses_match)
        (started_job s.run_status ok.started) in
    let up : suc (suc s.retry_count) ≡ suc (s.retry_count + 1) = omega arith in
    let left : suc s.retry_count < s.retry_max_attempts = omega (arith, ok.in_turn, ok.within) in
    rw job (
      subst (λ n. IsMove (view s) (pending, n, s.retry_max_attempts)) up
        (inr (
          retry s.run_status (suc s.retry_count) s.retry_max_attempts
            (started_active s.run_status ok.started) left)))

hand_out-IsMove :
    (id : String) (now lifetime_ms attempt : ℕ) (s : Store)
    → IsSound s
    → IsMove (view s) (view (ssh_grant_statement id now lifetime_ms attempt s).1)
unfolding ssh_grant_statement
hand_out-IsMove id now lifetime_ms attempt s sound = elim (Bool-cases (recovers now attempt s)) [
  | inl e ↦
      rw e
        (recovered-IsMove id now lifetime_ms attempt s (recovers-IsRecovery now attempt s e) sound)
  | inr e ↦ elim (Bool-cases (is_waiting attempt s)) [
    | inl w ↦ rw (e, w) (inl refl)
    | inr w ↦ rw (e, w) (inl refl)
  ]
]

cancelled-IsMove :
    (max n : ℕ) (st : Status)
    → is_reachable_status st ≡ true
    → (not (is_terminal st) || is_cancelled st) ≡ true
    → IsMove (st, n, max) (cancelled, n, max)
cancelled-IsMove max n pending r h = inr (withdraw pending n max refl)
cancelled-IsMove max n leased r h = inr (withdraw leased n max refl)
cancelled-IsMove max n running r h = inr (withdraw running n max refl)
cancelled-IsMove max n cancelled r h = inl refl
cancelled-IsMove max n completed r h = cc h
cancelled-IsMove max n failed r h = cc h
cancelled-IsMove max n queued r h = cc r
cancelled-IsMove max n stale r h = cc r

cancel-IsMove :
    (now : ℕ) (s : Store) → IsSound s → IsMove (view s) (view (cancel_statement now s).1)
unfolding cancel_statement
cancel-IsMove now s sound = elim (Bool-cases (cancels s || is_cancelled s.run_status)) [
  | inl e ↦ rw e (cancelled-IsMove s.retry_max_attempts _ s.run_status sound.run_reachable e)
  | inr e ↦ rw e (inl refl)
]

reserve_view :
    (now attempt : ℕ) (id kind sha256 uri : String) (s : Store)
    → view (reserve_statement now attempt id kind sha256 uri s).1 ≡ view s
unfolding reserve_statement
reserve_view now attempt id kind sha256 uri s = elim (Bool-cases (may_upload now attempt s)) [
  | inr e ↦ rw e refl
  | inl e ↦ elim (Option-cases (first_artifact (is_same_content kind sha256) s.artifacts)) [
    | inl f ↦ rw (e, f) refl
    | inr (a, f) ↦ rw (e, f) refl
  ]
]

finalize_view :
    (now attempt : ℕ) (id uri : String) (s : Store)
    → view (finalize_statement now attempt id uri s).1 ≡ view s
unfolding finalize_statement
finalize_view now attempt id uri s = elim (Bool-cases (may_upload now attempt s)) [
  | inr e ↦ rw e refl
  | inl e ↦ elim (Option-cases (first_artifact (is_unfinished id uri) s.artifacts)) [
    | inl f ↦ rw (e, f) refl
    | inr (a, f) ↦ rw (e, f) refl
  ]
]

outstanding_view :
    (s : Store) (updated : DispatchRow → Store)
    → ((d : DispatchRow) → view (updated d) ≡ view s)
    → (o : Option DispatchRow)
    → view
        (elim o as (λ o. Store) [ none ↦ s | some d ↦ if is_outstanding d then updated d else s ])
      ≡ view s
outstanding_view s updated f none = refl
outstanding_view s updated f (some d) = elim (Bool-cases (is_outstanding d)) [
  | inl h ↦ rw h (f d)
  | inr h ↦ rw h refl
]

-- Every statement of the server is a move of the automaton, or leaves the status and the attempt as
-- they are, in a store in which the invariant of the runs holds.
pub Step-refines : {s t : Store} → Step s t → IsSound s → IsMove (view s) (view t)
unfolding discard_statement delete_statement mark_published mark_failed mark_retry
Step-refines (report now grant_id next_id attempt type s) h =
    report-IsMove now grant_id next_id attempt type s h
Step-refines (hand_out id now lifetime_ms attempt s) h =
    hand_out-IsMove id now lifetime_ms attempt s h
Step-refines (cancel now s) h = cancel-IsMove now s h
Step-refines (reserve now attempt id kind sha256 uri s) h =
    inl (reserve_view now attempt id kind sha256 uri s)
Step-refines (finalize now attempt id uri s) h = inl (finalize_view now attempt id uri s)
Step-refines (discard now id uri s) h = inl refl
Step-refines (purge id works s) h = inl refl
Step-refines (publish s) h = inl (outstanding_view s _ (λ d. refl) s.dispatch)
Step-refines (abandon s) h = inl (outstanding_view s _ (λ d. refl) s.dispatch)
Step-refines (delay now attempt_count s) h = inl (outstanding_view s _ (λ d. refl) s.dispatch)
Step-refines (enrol b s) h = inl refl
