-- ===== src/Api/Run/Laws/Ends.antt =====
-- A run that has come to its end.
use shore_sentinel_app.Base.{
  ℕ, ◌≡◌, refl, ap, ◌∙◌, String, true, false, not, ◌&&◌, Option, none, some, Bool-cases, and_left,
  and_right, not-true, inl, inr, if◌then◌else◌,
}
use shore_sentinel_app.Shared.{RunEventType}
use shore_sentinel_app.Api.Run.{
  Status, pending, queued, leased, running, completed, failed, stale, cancelled, is_pending,
  is_cancelled, is_started, is_terminal, is_active_run, is_queued, DispatchRow, Store,
}
use shore_sentinel_app.Api.Run.Events.{
  authorizes, applies_to, worker_event_transition, refused, write_event, worker_event_statement,
}
use shore_sentinel_app.Api.Run.Grants.{is_locked, recovers, is_waiting, ssh_grant_statement}
use shore_sentinel_app.Api.Run.Artifacts.{may_upload, reserve_statement, finalize_statement}
use shore_sentinel_app.Api.Run.Dispatch.{is_outstanding, is_due, pending_dispatch}
use shore_sentinel_app.Api.Run.Steps.{Run, start, then_step}
use shore_sentinel_app.Api.Run.Sound.{IsSound}
use shore_sentinel_app.Api.Run.Sound.Histories.{Run-IsSound}
use shore_sentinel_app.Api.Run.Automaton.{View, view, Move, claim, work, finish, retry, withdraw}
use shore_sentinel_app.Api.Run.Automaton.Refines.{Step-refines}

pending_open : (st : Status) → is_pending st ≡ true → is_terminal st ≡ false
pending_open pending h = refl
pending_open leased h = cc h
pending_open running h = cc h
pending_open queued h = cc h
pending_open completed h = cc h
pending_open failed h = cc h
pending_open stale h = cc h
pending_open cancelled h = cc h

active_open : (st : Status) → is_active_run st ≡ true → is_terminal st ≡ false
active_open pending h = refl
active_open leased h = refl
active_open running h = refl
active_open queued h = refl
active_open completed h = cc h
active_open failed h = cc h
active_open stale h = refl
active_open cancelled h = cc h

started_open : (st : Status) → is_started st ≡ true → is_terminal st ≡ false
started_open leased h = refl
started_open running h = refl
started_open pending h = refl
started_open queued h = refl
started_open completed h = cc h
started_open failed h = cc h
started_open stale h = refl
started_open cancelled h = cc h

-- The automaton has no move out of an end.
moved_open : {u v : View} → Move u v → is_terminal u.0 ≡ false
moved_open (claim from n max h) = pending_open from h
moved_open (work n max) = refl
moved_open (finish from to n max h e) = started_open from h
moved_open (retry from n max h left) = active_open from h
moved_open (withdraw from n max h) = active_open from h

-- From a sound store whose run is completed, failed or cancelled, no history of statements changes
-- the status of the run or the number of its attempt.
pub terminal_forever :
    {s t : Store} → Run s t → IsSound s → is_terminal s.run_status ≡ true → view t ≡ view s
terminal_forever start sound h = refl
terminal_forever (then_step earlier st) sound h =
    let before = terminal_forever earlier sound h in
    elim (Step-refines st (Run-IsSound earlier sound)) [
      | inl same ↦ same ∙ before
      | inr move ↦ cc (moved_open move, ap (λ v. is_terminal v.0) before, h)
    ]

-- The answers of the statements to the worker, and the dispatch that a delivery starts from.
pub record IsInert (now : ℕ) (s : Store) : Type 0 where
  pub no_event :
      (grant_id next_id : String) (attempt : ℕ) (type : RunEventType)
      → worker_event_statement now grant_id next_id attempt type s ≡ (refused, s)
  pub no_grant :
      (id : String) (lifetime_ms attempt : ℕ)
      → ssh_grant_statement id now lifetime_ms attempt s ≡ (none, s)
  pub no_reservation :
      (attempt : ℕ) (id kind sha256 uri : String)
      → reserve_statement now attempt id kind sha256 uri s ≡ (none, s)
  pub no_upload :
      (attempt : ℕ) (id uri : String) → finalize_statement now attempt id uri s ≡ (none, s)
  pub no_dispatch : pending_dispatch now s ≡ none

authorized_open :
    (now : ℕ) (grant_id : String) (attempt : ℕ) (type : RunEventType) (s : Store)
    → (authorizes now grant_id attempt type s && applies_to type s.run_status) ≡ true
    → s.cancellation_requested ≡ false
authorized_open now grant_id attempt type s h =
    let authorized = and_left (authorizes now grant_id attempt type s) _ h in
    not-true _ (and_right _ _ (and_left _ _ (and_left _ _ authorized)))

written_open :
    (now : ℕ) (grant_id next_id : String) (attempt : ℕ) (type : RunEventType) (s : Store)
    (o : Option (Status × Status))
    → s.cancellation_requested ≡ true
    → write_event now grant_id next_id attempt type s o ≡ (refused, s)
written_open now grant_id next_id attempt type s none c = refl
written_open now grant_id next_id attempt type s (some statuses) c =
    elim (Bool-cases (authorizes now grant_id attempt type s && applies_to type s.run_status)) [
      | inl h ↦ cc (c, authorized_open now grant_id attempt type s h)
      | inr h ↦ rw h refl
    ]

locked_open : (s : Store) → is_locked s ≡ true → s.cancellation_requested ≡ false
locked_open s h = not-true _ (and_left _ _ h)

no_grant_lem :
    (id : String) (now lifetime_ms attempt : ℕ) (s : Store)
    → s.cancellation_requested ≡ true
    → ssh_grant_statement id now lifetime_ms attempt s ≡ (none, s)
unfolding ssh_grant_statement
no_grant_lem id now lifetime_ms attempt s c = elim (Bool-cases (recovers now attempt s)) [
  | inl e ↦
      let locked = and_left (is_locked s) _ (and_left _ _ (and_left _ _ (and_left _ _ e))) in
      cc (c, locked_open s locked)
  | inr e ↦ elim (Bool-cases (is_waiting attempt s)) [
    | inl w ↦
        let locked = and_left (is_locked s) _ (and_left _ _ (and_left _ _ w)) in
        cc (c, locked_open s locked)
    | inr w ↦ rw (e, w) refl
  ]
]

may_upload_open :
    (now attempt : ℕ) (s : Store)
    → may_upload now attempt s ≡ true
    → s.cancellation_requested ≡ false
may_upload_open now attempt s h = not-true _ (and_right _ _ (and_left _ _ h))

upload_open :
    (now attempt : ℕ) (s : Store)
    → s.cancellation_requested ≡ true
    → may_upload now attempt s ≡ false
upload_open now attempt s c = elim (Bool-cases (may_upload now attempt s)) [
  | inr e ↦ e
  | inl e ↦ cc (c, may_upload_open now attempt s e)
]

no_reservation_lem :
    (now attempt : ℕ) (id kind sha256 uri : String) (s : Store)
    → s.cancellation_requested ≡ true
    → reserve_statement now attempt id kind sha256 uri s ≡ (none, s)
unfolding reserve_statement
no_reservation_lem now attempt id kind sha256 uri s c = rw (upload_open now attempt s c) refl

no_upload_lem :
    (now attempt : ℕ) (id uri : String) (s : Store)
    → s.cancellation_requested ≡ true
    → finalize_statement now attempt id uri s ≡ (none, s)
unfolding finalize_statement
no_upload_lem now attempt id uri s c = rw (upload_open now attempt s c) refl

due_open :
    (now : ℕ) (s : Store) (d : DispatchRow)
    → (is_outstanding d
        && is_due now d
        && (is_pending s.run_status && not s.cancellation_requested && is_queued s.job_status))
      ≡ true
    → s.cancellation_requested ≡ false
due_open now s d h = not-true _ (and_right _ _ (and_left _ _ (and_right _ _ h)))

no_dispatch_lem :
    (now : ℕ) (s : Store) (o : Option DispatchRow)
    → s.cancellation_requested ≡ true
    → elim o as (λ o. Option DispatchRow) [
      | none ↦ none
      | some d ↦
          if is_outstanding d
            && is_due now d
            && (is_pending s.run_status && not s.cancellation_requested && is_queued s.job_status)
          then some d
          else none
    ]
      ≡ none
no_dispatch_lem now s none c = refl
no_dispatch_lem now s (some d) c =
    elim (Bool-cases (
      is_outstanding d
      && is_due now d
      && (is_pending s.run_status && not s.cancellation_requested && is_queued s.job_status))) [
        | inr e ↦ rw e refl
        | inl e ↦ cc (c, due_open now s d e)
      ]

-- Once a run is cancelled, in a sound store, no worker gets a grant, reports an event, reserves or
-- finishes an artifact, whatever it sends and whenever, its requests leave the rows as they are, and
-- nothing is delivered.
pub cancelled-IsInert :
    (now : ℕ) (s : Store) → IsSound s → is_cancelled s.run_status ≡ true → IsInert now s
unfolding worker_event_statement
cancelled-IsInert now s sound h =
    let c : s.cancellation_requested ≡ true = sound.cancellation_known ∙ h in
    record {
      no_event = λ grant_id next_id attempt type.
          written_open now grant_id next_id attempt type s (worker_event_transition type) c;
      no_grant = λ id lifetime_ms attempt. no_grant_lem id now lifetime_ms attempt s c;
      no_reservation =
          λ attempt id kind sha256 uri. no_reservation_lem now attempt id kind sha256 uri s c;
      no_upload = λ attempt id uri. no_upload_lem now attempt id uri s c;
      no_dispatch = no_dispatch_lem now s s.dispatch c;
    }
