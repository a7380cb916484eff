-- ===== src/Runtime/Quiet/Reviewing.antt =====
-- src/core/runtime.ts `reviewEffect`: which hooks a review calls.
use corrobo.Base.{String, ◌≡◌, Bool, true, false, Option, none, some, List, [], ◌∷◌, str_eq, refl}
use corrobo.Types.{
  OperationIdentity, RecordedReview, ReviewDecision, OperationRecord, EffectContract,
  RequestIdentity,
}
use corrobo.Fault.{Fault, store_conflict, ReviewRefusal}
use corrobo.Runtime.Monad.{
  Host, World, Action, Call, authorizing, revalidating, executing, observing, reconciling,
  fingerprinting,
}
use corrobo.Runtime.Frame.{
  Frame, Gives-Anything, Does, Anything, pure_does, raise_does, bind_does, then_does, guard_does,
  if_does, catching_does, weaken,
}
use corrobo.Runtime.Effect.{releasing}
use corrobo.Runtime.Decision.{
  matches, recorded, refusal_of, refuse, accept, record_review, store_review, review_update,
  review_found, review_coordinated, busy_on_conflict, review_locked, review_effect,
}
use corrobo.Runtime.Quiet.{
  leaving, Always, on_store_leaves, safety_now_leaves, lift_leaves, ask_fingerprint_leaves,
}

-- The calls of hooks but fingerprintIntent(), newest first.
abbrev pub other_calls : List Call → List Call
other_calls [] = []
other_calls (fingerprinting _ ∷ cs) = other_calls cs
other_calls (authorizing i ∷ cs) = authorizing i ∷ other_calls cs
other_calls (revalidating i ∷ cs) = revalidating i ∷ other_calls cs
other_calls (executing i ∷ cs) = executing i ∷ other_calls cs
other_calls (observing i ∷ cs) = observing i ∷ other_calls cs
other_calls (reconciling i ∷ cs) = reconciling i ∷ other_calls cs

module _ {S : Type 0} (h : Host S) (c : EffectContract) where
  abbrev fr : Frame S
  fr = leaving other_calls

  abbrev CallsNothing : {A : Type 0} → Action S A → Type 0
  CallsNothing m = Does fr Always m Anything

  record_review_quiet :
      (id : String) (r : OperationRecord) (d : ReviewDecision)
      → CallsNothing (record_review h c id r d)
  unfolding record_review refuse
  record_review_quiet id r d =
      bind_does fr (ask_fingerprint_leaves h other_calls c r.intent (λ j cs. refl)) (λ f.
        if_does fr (matches d.intent_fingerprint f)
          (λ e. bind_does fr (safety_now_leaves h other_calls) (λ now.
            bind_does fr (lift_leaves h other_calls _) (λ expired.
              if_does fr expired (λ e. raise_does fr _)
                (λ e. pure_does fr (recorded r d f now) (λ w k. tt)))))
          (λ e. raise_does fr _))

  store_review_quiet :
      (i : OperationIdentity) (r : OperationRecord) (review : RecordedReview)
      → CallsNothing (store_review h c i r review)
  unfolding store_review
  store_review_quiet i r review =
      bind_does fr
        (on_store_leaves h other_calls
          (λ n. h.store.update_operation n i.id (review_update review) r.version))
        (λ r'. pure_does fr _ (λ w q. tt))

  accept_quiet :
      {A : Type 0} (r : OperationRecord) (id : String) (refusal : Option ReviewRefusal)
      (m : Action S A)
      → CallsNothing m
      → CallsNothing (accept h c r id refusal m)
  unfolding accept refuse
  accept_quiet r id none m hm = hm
  accept_quiet r id (some code) m hm = raise_does fr _

  review_found_quiet :
      (i : OperationIdentity) (d : ReviewDecision) (found : Option OperationRecord)
      → CallsNothing (review_found h c i d found)
  unfolding review_found
  review_found_quiet i d none = raise_does fr _
  review_found_quiet i d (some r) =
      if_does fr (str_eq r.identity.operation_type c.operation_type)
        (λ e.
          accept_quiet r i.id (refusal_of r d) _
            (bind_does fr (record_review_quiet i.id r d) (λ review. store_review_quiet i r review)))
        (λ e. raise_does fr _)

  busy_quiet : (id : String) (f : Fault) → CallsNothing (busy_on_conflict h c id f)
  unfolding busy_on_conflict
  busy_quiet id (store_conflict _ _ _) = raise_does fr _
  busy_quiet id f = raise_does fr _

  review_locked_quiet :
      (i : OperationIdentity) (d : ReviewDecision) (held : Bool)
      → CallsNothing (review_locked h c i d held)
  unfolding review_locked releasing review_coordinated
  review_locked_quiet i d false = raise_does fr _
  review_locked_quiet i d true =
      let m : CallsNothing _ =
        catching_does fr
          (bind_does fr (on_store_leaves h other_calls (λ n. h.store.get_operation i.id))
            (λ found. review_found_quiet i d found))
          (λ f. busy_quiet i.id f) in
      record { at = λ w p. ((m.at w p).0, Gives-Anything _) }

  review_effect_quiet :
      (requested : RequestIdentity) (d : ReviewDecision)
      → CallsNothing (review_effect h c requested d)
  unfolding review_effect
  review_effect_quiet requested d =
      then_does fr (weaken fr (λ w p. p) (guard_does fr _ _) (λ u w q. tt)) (λ u.
        bind_does fr (lift_leaves h other_calls _) (λ i.
          bind_does fr (lift_leaves h other_calls _) (λ d'.
            bind_does fr (on_store_leaves h other_calls (λ n. h.store.try_acquire_lock i.id))
              (λ held. review_locked_quiet i d' held))))

  -- Recording a decision calls none of the contract's hooks but fingerprintIntent(), however the call
  -- ends.
  pub review_effect_leaves_calls :
      (requested : RequestIdentity) (d : ReviewDecision) (w : World S)
      → other_calls (review_effect h c requested d w).1.calls ≡ other_calls w.calls
  review_effect_leaves_calls requested d w = ((review_effect_quiet requested d).at w tt).0
