-- ===== src/Refinement/Effects.antt =====
-- src/core/runtime.ts `runEffect`, as steps of the protocol.
use corrobo.Base.{
  String, ◌≡◌, refl, sym, ap, ◌∙◌, subst, inl, Bool, true, false, Option, none, some,
}
use corrobo.Types.{
  OperationStatus, opened, awaiting_review, closed, ReviewEpisode, OperationRecord, EffectContract,
  EffectResult, EffectRequest,
}
use corrobo.Fault.{Fault, store_conflict}
use corrobo.Store.{operation_change}
use corrobo.Store.{OperationUpdate, keep, put}
use corrobo.Runtime.Review.{review_patch}
use corrobo.Store.Kept.{kept_update}
use corrobo.Store.Laws.{StoreLaws}
use corrobo.Runtime.Monad.{Host, World, Action}
use corrobo.Runtime.Frame.{
  Frame, Gives-Anything, Does, Stable, Anything, pure_does, raise_does, bind_does, then_does,
  guard_does, catching_does, weaken,
}
use corrobo.Runtime.Check.{ResolvedRequest}
use corrobo.Runtime.Review.{open_review}
use corrobo.Runtime.Entry.{PreparedIntent, acting_intent}
use corrobo.Runtime.Effect.{
  reopen_review, await_review, resume_at, resume, run_found, run_coordinated, reported,
  report_current, on_conflict, releasing, run_locked, run_effect,
}
use corrobo.Protocol.{Steps, Evolved, NamedBy, renew}
use corrobo.Refinement.Clock.{IsReading}
use corrobo.Refinement.Setting.{
  AreLawful, protocol, Knows, Knows-Stable, AllNamed, AllNamed-Stable, record_at, quiet_does,
  writes_does, reads_does,
}
use corrobo.Refinement.Checks.{
  ask_fingerprint_does, review_patch-RecordsNoDecision, open_review_episode_does, lift_keeps,
}
use corrobo.Refinement.Passes.{continue_open_does}
use corrobo.Refinement.Openings.{assert_same_does, begin_does}

-- What a new episode changes.
abbrev renewal : ReviewEpisode → OperationUpdate
renewal e = record {
  status = none;
  review_reason = keep;
  blocked_by = keep;
  review = review_patch e;
  review_episode = put e;
}

module _ {S : Type 0} (h : Host S) (laws : StoreLaws h.store) (c : EffectContract)
    (lawful : AreLawful h laws c) where
  reopen_review_does :
      (r : OperationRecord)
      → r.status ≡ awaiting_review
      → open_review r ≡ none
      → Does (protocol h laws c) (Knows h laws c r) (reopen_review h c r) Anything
  unfolding reopen_review
  reopen_review_does r waiting answered =
      bind_does (protocol h laws c)
        (ask_fingerprint_does h laws c lawful (Knows-Stable h laws c r) r.intent)
        (λ f.
          bind_does (protocol h laws c)
            (open_review_episode_does h laws c lawful (Knows-Stable h laws c r) _ f r.review_episode
              r.review)
            (λ e.
              bind_does (protocol h laws c)
                (writes_does h laws c lawful r
                  (operation_change (kept_update laws.kept (renewal e))) _
                  (λ n s. laws.update_operation_lem n r.identity.id (renewal e) r.version s)
                  (λ n.
                    renew n (kept_update laws.kept (renewal e)) r waiting answered refl
                      (review_patch-RecordsNoDecision laws.kept e)))
                (λ r'. pure_does (protocol h laws c) _ (λ w q. tt))))

  await_review_does :
      (r : OperationRecord) (e : Option ReviewEpisode)
      → r.status ≡ awaiting_review
      → open_review r ≡ e
      → Does (protocol h laws c) (Knows h laws c r) (await_review h c r e) Anything
  unfolding await_review
  await_review_does r (some e) waiting at_hand = pure_does (protocol h laws c) _ (λ w q. tt)
  await_review_does r none waiting answered = reopen_review_does r waiting answered

  resume_at_does :
      (st : OperationStatus) (r : OperationRecord) (request : ResolvedRequest)
      → r.status ≡ st
      → Does (protocol h laws c) (Knows h laws c r) (resume_at h c st r request) Anything
  unfolding resume_at
  resume_at_does closed r request e = pure_does (protocol h laws c) _ (λ w q. tt)
  resume_at_does awaiting_review r request e = await_review_does r (open_review r) e refl
  resume_at_does opened r request e = continue_open_does h laws c lawful r _ e

  pub resume_does :
      (r : OperationRecord) (request : ResolvedRequest)
      → Does (protocol h laws c) (Knows h laws c r) (resume h c r request) Anything
  unfolding resume
  resume_does r request = resume_at_does r.status r request refl

  abbrev Found : String → Option OperationRecord → World S → Type 0
  Found id found w = AllNamed h laws c w × (found ≡ record_at h laws c w id)

  pub lookup-Knows :
      (id : String) (r : OperationRecord) (w : World S) → Found id (some r) w → Knows h laws c r w
  lookup-Knows id r w (named, found) =
      let same : r.identity.id ≡ id = subst (NamedBy id) (sym found) (named id) in
      subst (Evolved r) (found ∙ ap (record_at h laws c w) (sym same)) (inl refl)

  run_found_does :
      (request : ResolvedRequest) (prepared : PreparedIntent) (found : Option OperationRecord)
      → Does
          (protocol h laws c)
          (Found request.identity.id found)
          (run_found h c request prepared found)
          Anything
  unfolding run_found
  run_found_does request prepared none =
      weaken (protocol h laws c) (λ w q. q.0)
        (begin_does h laws c lawful (AllNamed-Stable h laws c) request prepared) (λ b w q. tt)
  run_found_does request prepared (some r) =
      weaken (protocol h laws c) (λ w q. lookup-Knows request.identity.id r w q)
        (then_does (protocol h laws c)
          (assert_same_does h laws c lawful (Knows-Stable h laws c r) request prepared r)
          (λ u. resume_does r request))
        (λ b w q. tt)

  run_coordinated_does :
      (request : ResolvedRequest) (prepared : PreparedIntent)
      → Does (protocol h laws c) (AllNamed h laws c) (run_coordinated h c request prepared) Anything
  unfolding run_coordinated
  run_coordinated_does request prepared =
      bind_does (protocol h laws c)
        (reads_does h laws c lawful (AllNamed-Stable h laws c) request.identity.id)
        (λ found. run_found_does request prepared found)

  reported_does :
      (request : ResolvedRequest) (prepared : PreparedIntent) (found : Option OperationRecord)
      (otherwise : Action S EffectResult)
      → Does (protocol h laws c) (λ w. Unit) otherwise Anything
      → Does
          (protocol h laws c)
          (λ w. Unit)
          (reported h c request prepared otherwise found)
          Anything
  unfolding reported
  reported_does request prepared none otherwise ho = ho
  reported_does request prepared (some r) otherwise ho =
      then_does (protocol h laws c)
        (assert_same_does h laws c lawful (λ v w a p. tt) request prepared r)
        (λ u. pure_does (protocol h laws c) _ (λ w q. tt))

  report_current_does :
      (request : ResolvedRequest) (prepared : PreparedIntent) (otherwise : Action S EffectResult)
      → Does (protocol h laws c) (λ w. Unit) otherwise Anything
      → Does
          (protocol h laws c)
          (λ w. Unit)
          (report_current h c request prepared otherwise)
          Anything
  unfolding report_current
  report_current_does request prepared otherwise ho =
      bind_does (protocol h laws c) (reads_does h laws c lawful (λ v w a p. tt) request.identity.id)
        (λ found.
          weaken (protocol h laws c) (λ w q. tt) (reported_does request prepared found otherwise ho)
            (λ b w q. tt))

  on_conflict_does :
      (request : ResolvedRequest) (prepared : PreparedIntent) (f : Fault)
      → Does (protocol h laws c) (λ w. Unit) (on_conflict h c request prepared f) Anything
  unfolding on_conflict
  on_conflict_does request prepared (store_conflict id e a) =
      report_current_does request prepared _ (raise_does (protocol h laws c) _)
  on_conflict_does request prepared f = raise_does (protocol h laws c) _

  pub releasing_does :
      {A : Type 0} {P : World S → Type 0} (id : String) (m : Action S A)
      → Does (protocol h laws c) P m Anything
      → Does (protocol h laws c) P (releasing h c id m) Anything
  unfolding releasing
  releasing_does id m hm = record {
    at = λ w p. (λ k. rw (laws.release_lem id (m w).1.state) ((hm.at w p).0 k), Gives-Anything _);
  }

  run_locked_does :
      (request : ResolvedRequest) (prepared : PreparedIntent) (held : Bool)
      → Does (protocol h laws c) (AllNamed h laws c) (run_locked h c request prepared held) Anything
  unfolding run_locked
  run_locked_does request prepared false =
      weaken (protocol h laws c) (λ w p. tt)
        (report_current_does request prepared _ (pure_does (protocol h laws c) _ (λ w q. tt)))
        (λ b w q. tt)
  run_locked_does request prepared true = releasing_does request.identity.id _ (
      catching_does (protocol h laws c) (run_coordinated_does request prepared)
        (λ f. on_conflict_does request prepared f))

  run_effect_does :
      (input : EffectRequest)
      → Does (protocol h laws c) (AllNamed h laws c) (run_effect h c input) Anything
  unfolding run_effect
  run_effect_does input = then_does fr (guard_does fr _ _) (λ u.
      bind_does fr (weaken fr (λ w p. p.0) (lift_keeps h laws c lawful named _) (λ b w q. q))
        (λ identity. bind_does fr (lift_keeps h laws c lawful named _) (λ prepared.
          bind_does fr
            (quiet_does h laws c lawful named (λ n. h.store.try_acquire_lock identity.id)
              (λ n s. laws.try_acquire_lock_lem identity.id s))
            (λ held.
              run_locked_does
                (record {
                  identity = identity;
                  intent = acting_intent c prepared.stored input.intent;
                  context = input.context;
                })
                prepared held))))
    where
      fr : Frame S
      fr = protocol h laws c

      named : Stable (protocol h laws c) (AllNamed h laws c)
      named = AllNamed-Stable h laws c

  -- A pass of `runEffect` for a contract moves every record by steps of the protocol only, however it
  -- ends, if the store keeps the promises of its interface, every record carries the identity that it
  -- is stored under, and what other callers do to the store meanwhile are steps of the protocol too.
  pub run_effect_refines :
      (input : EffectRequest) (w : World S)
      → AllNamed h laws c w
      → (id : String)
      → Steps c
          (IsReading h)
          id
          (laws.view w.state id)
          (laws.view (run_effect h c input w).1.state id)
  run_effect_refines input w named = ((run_effect_does input).at w named).0
