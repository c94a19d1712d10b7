-- ===== src/Api/Run/Sound/Files.antt =====
-- The statements of api/src on artifacts and on the dispatch, for the invariant.
use shore_sentinel_app.Base.{
  ℕ, ◌≡◌, refl, String, Bool, true, false, not, Option, none, some, List, [], ◌∷◌, all, map,
  Bool-cases, Option-cases, and_left, and_right, and_intro, not-true, inl, inr, if◌then◌else◌,
}
use shore_sentinel_app.Api.Cleanup.{CleanupWork}
use shore_sentinel_app.Api.Run.{
  Status, pending, queued, leased, running, completed, failed, stale, cancelled, is_cancelled,
  is_active_run, Event, StoredArtifact, DispatchRow, Store,
}
use shore_sentinel_app.Api.Run.Artifacts.{
  may_upload, is_same_content, first_artifact, reserve_statement, is_reserved, is_unfinished,
  finalize_statement, give_up, discard_statement, is_deletable, delete_statement,
}
use shore_sentinel_app.Api.Run.Dispatch.{is_outstanding, mark_published, mark_failed, mark_retry}
use shore_sentinel_app.Api.Run.Sound.{
  reported_attempts, is_bounded, is_quarantined, is_withdrawn, when_cancelled, IsSound,
}
use shore_sentinel_app.Api.Run.Sound.Statements.{all-filter_other}

active_open : (st : Status) → is_active_run st ≡ true → is_cancelled st ≡ false
active_open pending h = refl
active_open leased h = refl
active_open running h = refl
active_open queued h = refl
active_open completed h = refl
active_open failed h = refl
active_open stale h = refl
active_open cancelled h = cc h

open_cleared : (st : Status) (b : Bool) → is_active_run st ≡ true → when_cancelled st b ≡ true
open_cleared st b h = rw (active_open st h) refl

module _ (s : Store) (sound : IsSound s) where
  -- New artifacts and events of a run that is active.
  files-IsSound :
      (artifacts : List StoredArtifact) (events : List Event)
      → is_active_run s.run_status ≡ true
      → all (is_bounded (reported_attempts s)) events ≡ true
      → IsSound (record s { artifacts = artifacts; events = events })
  files-IsSound artifacts events active bounded = record {
    run_reachable = sound.run_reachable;
    statuses_match = sound.statuses_match;
    cancellation_known = sound.cancellation_known;
    attempts_left = sound.attempts_left;
    grants_in_order = sound.grants_in_order;
    events_bounded = bounded;
    grants_cleared = sound.grants_cleared;
    artifacts_cleared = open_cleared s.run_status _ active;
    events_cleared = open_cleared s.run_status _ active;
    dispatch_cleared = sound.dispatch_cleared;
  }

  pub reserve_statement-IsSound :
      (now attempt : ℕ) (id kind sha256 uri : String)
      → IsSound (reserve_statement now attempt id kind sha256 uri s).1
  unfolding reserve_statement
  reserve_statement-IsSound now attempt id kind sha256 uri =
      elim (Bool-cases (may_upload now attempt s)) [
        | inr e ↦ rw e sound
        | inl e ↦ elim (Option-cases (first_artifact (is_same_content kind sha256) s.artifacts)) [
          | inl f ↦
              rw (e, f)
                (files-IsSound _ s.events (and_left _ _ (and_left _ _ e)) sound.events_bounded)
          | inr f ↦ rw (e, f.1) sound
        ]
      ]

  pub finalize_statement-IsSound :
      (now attempt : ℕ) (id uri : String) → IsSound (finalize_statement now attempt id uri s).1
  unfolding finalize_statement
  finalize_statement-IsSound now attempt id uri = elim (Bool-cases (may_upload now attempt s)) [
    | inr e ↦ rw e sound
    | inl e ↦ elim (Option-cases (first_artifact (is_unfinished id uri) s.artifacts)) [
      | inl f ↦ rw (e, f) sound
      | inr f ↦ rw (e, f.1) (files-IsSound _ _ (and_left _ _ (and_left _ _ e)) sound.events_bounded)
    ]
  ]

all-give_up :
    (id uri : String) (xs : List StoredArtifact)
    → all is_quarantined xs ≡ true
    → all is_quarantined (map (give_up id uri) xs) ≡ true
all-give_up id uri [] h = refl
all-give_up id uri (a ∷ xs) h =
    let rest = all-give_up id uri xs (and_right _ _ h) in
    elim (Bool-cases (is_reserved id uri a)) [
      | inl e ↦ simp (e) rest
      | inr e ↦ simp (e) (and_intro _ _ (and_left _ _ h) rest)
    ]

still_cleared :
    (st : Status) (before after : Bool)
    → (before ≡ true → after ≡ true)
    → when_cancelled st before ≡ true
    → when_cancelled st after ≡ true
still_cleared st before after f h = elim (Bool-cases (is_cancelled st)) [
  | inl e ↦ rw e (f (rw e at h))
  | inr e ↦ rw e refl
]

pub discard_statement-IsSound :
    (now : ℕ) (id uri : String) (s : Store) → IsSound s → IsSound (discard_statement now id uri s)
unfolding discard_statement
discard_statement-IsSound now id uri s sound = record {
  run_reachable = sound.run_reachable;
  statuses_match = sound.statuses_match;
  cancellation_known = sound.cancellation_known;
  attempts_left = sound.attempts_left;
  grants_in_order = sound.grants_in_order;
  events_bounded = sound.events_bounded;
  grants_cleared = sound.grants_cleared;
  artifacts_cleared =
      still_cleared s.run_status (all is_quarantined s.artifacts) _ (all-give_up id uri s.artifacts)
        sound.artifacts_cleared;
  events_cleared = sound.events_cleared;
  dispatch_cleared = sound.dispatch_cleared;
}

pub delete_statement-IsSound :
    (id : String) (works : List CleanupWork) (s : Store)
    → IsSound s
    → IsSound (delete_statement id works s)
unfolding delete_statement
delete_statement-IsSound id works s sound = record {
  run_reachable = sound.run_reachable;
  statuses_match = sound.statuses_match;
  cancellation_known = sound.cancellation_known;
  attempts_left = sound.attempts_left;
  grants_in_order = sound.grants_in_order;
  events_bounded = sound.events_bounded;
  grants_cleared = sound.grants_cleared;
  artifacts_cleared =
      still_cleared s.run_status (all is_quarantined s.artifacts) _
        (all-filter_other is_quarantined (λ a. not (is_deletable id a)) s.artifacts)
        sound.artifacts_cleared;
  events_cleared = sound.events_cleared;
  dispatch_cleared = sound.dispatch_cleared;
}

-- A row that is outstanding belongs to a run that is not cancelled.
outstanding_open :
    (s : Store) (d : DispatchRow)
    → s.dispatch ≡ some d
    → is_outstanding d ≡ true
    → IsSound s
    → is_cancelled s.run_status ≡ false
outstanding_open s d e h sound = elim (Bool-cases (is_cancelled s.run_status)) [
  | inr open_run ↦ open_run
  | inl gone ↦
      let unpublished = not-true d.published (and_left _ (not d.failed) h) in
      let withdrawn_row : is_withdrawn s.dispatch ≡ true = rw gone at sound.dispatch_cleared in
      cc (unpublished, rw e at withdrawn_row)
]

dispatch-IsSound :
    (s : Store) (d : DispatchRow) (alerts : List ℕ) (changed : Option DispatchRow)
    → s.dispatch ≡ some d
    → is_outstanding d ≡ true
    → IsSound s
    → IsSound (record s { dispatch = changed; alerts = alerts })
dispatch-IsSound s d alerts changed e h sound = record {
  run_reachable = sound.run_reachable;
  statuses_match = sound.statuses_match;
  cancellation_known = sound.cancellation_known;
  attempts_left = sound.attempts_left;
  grants_in_order = sound.grants_in_order;
  events_bounded = sound.events_bounded;
  grants_cleared = sound.grants_cleared;
  artifacts_cleared = sound.artifacts_cleared;
  events_cleared = sound.events_cleared;
  dispatch_cleared = rw (outstanding_open s d e h sound) refl;
}

-- The update of an outstanding row, whatever else it writes.
updated-IsSound :
    (s : Store) (updated : DispatchRow → Store)
    → IsSound s
    → ((d : DispatchRow) → s.dispatch ≡ some d → is_outstanding d ≡ true → IsSound (updated d))
    → (o : Option DispatchRow) → s.dispatch ≡ o
    → IsSound
        (elim o as (λ o. Store) [ none ↦ s | some d ↦ if is_outstanding d then updated d else s ])
updated-IsSound s updated sound f none e = sound
updated-IsSound s updated sound f (some d) e = elim (Bool-cases (is_outstanding d)) [
  | inl h ↦ rw h (f d e h)
  | inr h ↦ rw h sound
]

pub mark_published-IsSound : (s : Store) → IsSound s → IsSound (mark_published s)
unfolding mark_published
mark_published-IsSound s sound =
    updated-IsSound s _ sound (λ d e h. dispatch-IsSound s d _ _ e h sound) s.dispatch refl

pub mark_retry-IsSound :
    (now attempt_count : ℕ) (s : Store) → IsSound s → IsSound (mark_retry now attempt_count s)
unfolding mark_retry
mark_retry-IsSound now attempt_count s sound =
    updated-IsSound s _ sound (λ d e h. dispatch-IsSound s d _ _ e h sound) s.dispatch refl

pub mark_failed-IsSound : (s : Store) → IsSound s → IsSound (mark_failed s)
unfolding mark_failed
mark_failed-IsSound s sound =
    updated-IsSound s _ sound (λ d e h. dispatch-IsSound s d _ _ e h sound) s.dispatch refl
