-- ===== src/Runtime/Quiet/Observing.antt =====
-- src/core/runtime.ts: what looks at an attempt again, `recoverReservedAttempt` and `reObserve`,
-- and the calls for an operation that leave it at that.
use corrobo.Base.{
  arith, ℕ, String, ◌≡◌, refl, Bool, true, false, List, [], push, Option, none, some, get_last?,
}
use corrobo.Value.{Value}
use corrobo.Types.{
  OperationIdentity, OperationStatus, opened, awaiting_review, closed, TransportOutcome,
  AttemptRecord, reserved, resolved, ReservedAttempt, ResolvedAttempt, ReservedAttemptInput,
  OperationRecord, ReviewEpisode, RecordedReview, EffectContract, ObserveInput, ReconcileInput,
  HookResult, throws, returns, pending,
}
use corrobo.Runtime.Monad.{Host, World, observing, reconciling}
use corrobo.Runtime.Frame.{Frame, pure_does, bind_does, then_does, guard_does, weaken}
use corrobo.Runtime.Hooks.{concluded, safe_observe, safe_reconcile}
use corrobo.Runtime.Report.{status_after}
use corrobo.Runtime.Review.{open_review, open_review_episode, review_patch}
use corrobo.Store.{OperationUpdate, keep, put}
use corrobo.Runtime.Attempt.{
  observe_and_resolve, recover_reserved_attempt, re_observe, base_of_reserved, base_of_resolved,
  unknown_transport, resolve_attempt, bounded_observations,
}
use corrobo.Runtime.Check.{ResolvedRequest}
use corrobo.Runtime.Continue.{next_for, take_next, continue_from, continue_open}
use corrobo.Runtime.Effect.{reopen_review, await_review, resume_at, resume}
use corrobo.Runtime.Quiet.Once.{Quiet}
use corrobo.Runtime.Quiet.{
  executions, leaving, on_store_leaves, now_iso_leaves, random_nonce_leaves, safety_now_leaves,
  ask_fingerprint_leaves, await_hook_leaves, call_hook_leaves,
}

-- Nothing is to be executed for the record: it is closed, it awaits a review, or its latest attempt
-- is reserved or pending.
abbrev latest_IsUnresolved : Option AttemptRecord → Bool
latest_IsUnresolved none = false
latest_IsUnresolved (some (reserved _)) = true
latest_IsUnresolved (some (resolved a)) = elim a.evidence_state [ pending ↦ true | _ ↦ false ]

abbrev only_looks : OperationStatus → Option AttemptRecord → Bool
only_looks opened a = latest_IsUnresolved a
only_looks _ a = true

abbrev renewal : ReviewEpisode → OperationUpdate
renewal episode = record {
  status = none;
  review_reason = keep;
  blocked_by = keep;
  review = review_patch episode;
  review_episode = put episode;
}

module _ {S : Type 0} (h : Host S) (c : EffectContract) where
  abbrev fr : Frame S
  fr = leaving executions

  concluded-Quiet : (v : Value) (r : HookResult) → Quiet (concluded h c v r)
  unfolding concluded
  concluded-Quiet v (returns s) = pure_does fr _ (λ w q. tt)
  concluded-Quiet v (throws e) =
      bind_does fr (now_iso_leaves h executions) (λ now. pure_does fr _ (λ w q. tt))

  safe_observe-Quiet : (i : ObserveInput) → Quiet (safe_observe h c i)
  unfolding safe_observe
  safe_observe-Quiet i =
      bind_does fr (await_hook_leaves h executions (observing i) (λ n. c.observe n i) (λ cs. refl))
        (λ answer. concluded-Quiet _ _)

  safe_reconcile-Quiet : (i : ReconcileInput) → Quiet (safe_reconcile h c i)
  unfolding safe_reconcile
  safe_reconcile-Quiet i =
      bind_does fr
        (call_hook_leaves h executions (reconciling i) (λ n. c.reconcile n i) (λ cs. refl))
        (λ answer. pure_does fr _ (λ w q. tt))

  pub observe_and_resolve-Quiet :
      (identity : OperationIdentity) (intent : Value) (base : ReservedAttemptInput)
      (transport : TransportOutcome) (earlier : List Value) (version : ℕ)
      → Quiet (observe_and_resolve h c identity intent base transport earlier version)
  unfolding observe_and_resolve
  observe_and_resolve-Quiet identity intent base transport earlier version =
      bind_does fr (safe_observe-Quiet _) (λ seen.
        bind_does fr (safe_reconcile-Quiet _) (λ reconciliation.
          bind_does fr (safety_now_leaves h executions) (λ now.
            bind_does fr (now_iso_leaves h executions) (λ updated_at.
              let attempt : ResolvedAttempt =
                resolve_attempt c base transport (bounded_observations (push earlier seen.stored))
                  reconciliation now updated_at in
              then_does fr (weaken fr (λ w p. p) (guard_does fr _ _) (λ u w q. tt)) (λ u.
                on_store_leaves h executions (λ n.
                  h.store.update_latest_attempt n identity.id (resolved attempt)
                    (status_after attempt.evidence_state attempt.disposition) version))))))

  pub recover_reserved_attempt-Quiet :
      (r : OperationRecord) (intent : Value) (a : ReservedAttempt)
      → Quiet (recover_reserved_attempt h c r intent a)
  unfolding recover_reserved_attempt
  recover_reserved_attempt-Quiet r intent a =
      bind_does fr
        (observe_and_resolve-Quiet r.identity intent (base_of_reserved a) unknown_transport []
          r.version)
        (λ updated. pure_does fr _ (λ w q. tt))

  pub re_observe-Quiet :
      (r : OperationRecord) (intent : Value) (a : ResolvedAttempt)
      → Quiet (re_observe h c r intent a)
  unfolding re_observe
  re_observe-Quiet r intent a =
      observe_and_resolve-Quiet r.identity intent (base_of_resolved a) a.transport a.observations
        r.version

  take_next-Quiet :
      (r : OperationRecord) (request : ResolvedRequest) (a : ResolvedAttempt)
      → latest_IsUnresolved (some (resolved a)) ≡ true
      → Quiet (take_next h c r request a (next_for r a))
  unfolding take_next next_for
  take_next-Quiet r request a looks =
      rw (pending_of a looks)
        (bind_does fr (re_observe-Quiet r request.intent a) (λ updated. pure_does fr _ (λ w q. tt)))
    where
      pending_of :
          (a : ResolvedAttempt)
          → latest_IsUnresolved (some (resolved a)) ≡ true
          → a.evidence_state ≡ pending
      pending_of a h = ground arith

  continue_from-Quiet :
      (r : OperationRecord) (request : ResolvedRequest) (latest : Option AttemptRecord)
      → latest_IsUnresolved latest ≡ true
      → Quiet (continue_from h c r request latest)
  unfolding continue_from
  continue_from-Quiet r request none looks = absurd (ground arith)
  continue_from-Quiet r request (some (reserved a)) looks =
      recover_reserved_attempt-Quiet r request.intent a
  continue_from-Quiet r request (some (resolved a)) looks = take_next-Quiet r request a looks

  pub open_review_episode-Quiet :
      (i : OperationIdentity) (f : String) (e : Option ReviewEpisode) (d : Option RecordedReview)
      → Quiet (open_review_episode h i f e d)
  unfolding open_review_episode
  open_review_episode-Quiet i f e d = bind_does fr (safety_now_leaves h executions) (λ opened_at.
      bind_does fr (random_nonce_leaves h executions) (λ nonce. pure_does fr _ (λ w q. tt)))

  pub await_review-Quiet :
      (r : OperationRecord) (e : Option ReviewEpisode) → Quiet (await_review h c r e)
  unfolding await_review reopen_review
  await_review-Quiet r (some e) = pure_does fr _ (λ w q. tt)
  await_review-Quiet r none =
      bind_does fr (ask_fingerprint_leaves h executions c r.intent (λ j cs. refl)) (λ fingerprint.
        bind_does fr (open_review_episode-Quiet _ _ _ _) (λ episode.
          bind_does fr
            (on_store_leaves h executions
              (λ n. h.store.update_operation n r.identity.id (renewal episode) r.version))
            (λ updated. pure_does fr _ (λ w q. tt))))

  resume_at-Quiet :
      (status : OperationStatus) (r : OperationRecord) (request : ResolvedRequest)
      → only_looks status (get_last? r.attempts) ≡ true
      → Quiet (resume_at h c status r request)
  unfolding resume_at continue_open
  resume_at-Quiet closed r request looks = pure_does fr _ (λ w q. tt)
  resume_at-Quiet awaiting_review r request looks = await_review-Quiet r (open_review r)
  resume_at-Quiet opened r request looks = continue_from-Quiet r _ (get_last? r.attempts) looks

  -- A call for an operation on record that is closed or awaits a review, or whose latest attempt is
  -- reserved but unresolved, or has pending evidence, does not execute anything, however
  -- it ends.
  pub resume_executes_nothing :
      (r : OperationRecord) (request : ResolvedRequest) (w : World S)
      → only_looks r.status (get_last? r.attempts) ≡ true
      → executions (resume h c r request w).1.calls ≡ executions w.calls
  unfolding resume
  resume_executes_nothing r request w looks = ((resume_at-Quiet r.status r request looks).at w tt).0
