-- ===== src/Refinement/Reviews.antt =====
-- src/core/runtime.ts `reviewEffect`, as steps of the protocol.
use corrobo.Base.{
  String, ◌≡◌, refl, sym, ap, ◌∙◌, subst, Bool, true, false, Option, none, some, str_eq, eq_iff,
  arith, Bool-cases, inl, inr,
}
use corrobo.Types.{
  OperationStatus, opened, closed, awaiting_review, OperationIdentity, RecordedReview,
  ReviewEpisode, ReviewDecision, OperationRecord, EffectContract, RequestIdentity,
}
use corrobo.Fault.{Fault, store_conflict, ReviewRefusal, approval_already_expired, intent_mismatch}
use corrobo.Store.{operation_change}
use corrobo.Store.Kept.{Kept, kept_update}
use corrobo.Store.Laws.{StoreLaws}
use corrobo.Runtime.Monad.{Host, World, Action, on_store, ◌>>=◌}
use corrobo.Runtime.Frame.{
  Frame, Does, Stable, Anything, pure_does, raise_does, bind_does, then_does, guard_does, if_does,
  catching_does, assuming, weaken,
}
use corrobo.Runtime.Review.{open_review}
use corrobo.Runtime.Decision.{
  matches, review_update, refusal_of_review, refusal_at, refusal_of, recorded, refuse, accept,
  record_review, store_review, review_found, review_coordinated, busy_on_conflict, review_locked,
  review_effect,
}
use corrobo.Protocol.{Steps, NamedBy, answer}
use corrobo.Refinement.Clock.{IsReading}
use corrobo.Refinement.Setting.{
  AreLawful, protocol, Knows, Knows-Stable, AllNamed, AllNamed-Stable, record_at, quiet_does,
  safety_now_does, writes_does, reads_does,
}
use corrobo.Refinement.Checks.{ask_fingerprint_does, lift_keeps}
use corrobo.Refinement.Effects.{lookup-Knows, releasing_does}

refusal_of_review-none :
    (o : Option ReviewEpisode) (d : ReviewDecision)
    → refusal_of_review o d ≡ none
    → (e : ReviewEpisode) × (o ≡ some e) × (d.review_token ≡ e.token)
refusal_of_review-none none d h = cc
refusal_of_review-none (some e) d h = elim (Bool-cases (str_eq d.review_token e.token)) [
  | inl same ↦ (e, refl, (eq_iff d.review_token e.token).0 same)
  | inr other ↦ ground arith
]

refusal_at-none :
    (st : OperationStatus) (o : Option ReviewEpisode) (d : ReviewDecision)
    → refusal_at st o d ≡ none
    → (st ≡ awaiting_review) × (refusal_of_review o d ≡ none)
refusal_at-none awaiting_review o d h = (refl, h)
refusal_at-none opened o d h = cc
refusal_at-none closed o d h = cc

-- A decision that is not refused answers the open review.
pub refusal_of-none :
    (r : OperationRecord) (d : ReviewDecision)
    → refusal_of r d ≡ none
    → (r.status ≡ awaiting_review)
      × (e : ReviewEpisode) × (open_review r ≡ some e)
      × (d.review_token ≡ e.token)
unfolding refusal_of
refusal_of-none r d h =
    let (waiting, open_now) = refusal_at-none r.status (open_review r) d h in
    let (e, at_hand, same) = refusal_of_review-none (open_review r) d open_now in
    (waiting, e, at_hand, same)

-- A store that keeps a review's decision records the decision.
kept_review :
    (k : Kept) (review : RecordedReview)
    → review_update (k.review review) ≡ kept_update k (review_update review)
kept_review k review = rw (k.same_decision review) refl

module _ {S : Type 0} (h : Host S) (laws : StoreLaws h.store) (c : EffectContract)
    (lawful : AreLawful h laws c) where
  refuse_does :
      {A : Type 0} {P : World S → Type 0} {Q : A → World S → Type 0} (r : OperationRecord)
      (id : String) (code : ReviewRefusal)
      → Does (protocol h laws c) P (refuse h c r id code) Q
  unfolding refuse
  refuse_does r id code = raise_does (protocol h laws c) _

  record_review_does :
      (id : String) (r : OperationRecord) (d : ReviewDecision)
      → Does
          (protocol h laws c)
          (Knows h laws c r)
          (record_review h c id r d)
          (λ review w. Knows h laws c r w × (review.review_token ≡ some d.review_token))
  unfolding record_review
  record_review_does id r d =
      bind_does (protocol h laws c)
        (ask_fingerprint_does h laws c lawful (Knows-Stable h laws c r) r.intent)
        (λ f.
          if_does (protocol h laws c) (matches d.intent_fingerprint f)
            (λ e.
              bind_does (protocol h laws c)
                (safety_now_does h laws c lawful (Knows-Stable h laws c r))
                (λ now.
                  bind_does (protocol h laws c)
                    (lift_keeps h laws c lawful (Knows-Stable h laws c r) _)
                    (λ expired.
                      if_does (protocol h laws c) expired
                        (λ e. refuse_does r id approval_already_expired)
                        (λ e.
                          pure_does (protocol h laws c) (recorded r d f now) (λ w k. (k, refl))))))
            (λ e. refuse_does r id intent_mismatch))

  store_review_does :
      (identity : OperationIdentity) (r : OperationRecord) (review : RecordedReview)
      (e : ReviewEpisode)
      → r.identity.id ≡ identity.id
      → r.status ≡ awaiting_review
      → open_review r ≡ some e
      → review.review_token ≡ some e.token
      → Does (protocol h laws c) (Knows h laws c r) (store_review h c identity r review) Anything
  unfolding store_review
  store_review_does identity r review e same waiting at_hand token =
      bind_does (protocol h laws c)
        (subst
          (λ id.
            Does (protocol h laws c) (Knows h laws c r)
              (on_store h (λ n. h.store.update_operation n id (review_update review) r.version))
              Anything)
          same
          (weaken (protocol h laws c) (λ w k. k)
            (writes_does h laws c lawful r
              (operation_change (review_update (laws.kept.review review)))
              (λ n. h.store.update_operation n r.identity.id (review_update review) r.version)
              (λ n s.
                rw (kept_review laws.kept review)
                  (laws.update_operation_lem n r.identity.id (review_update review) r.version s))
              (λ n.
                answer n (laws.kept.review review) e r waiting at_hand
                  (laws.kept.same_token review ∙ token)))
            (λ r' w q. tt)))
        (λ r'. pure_does (protocol h laws c) _ (λ w q. tt))

  accept_does :
      {A : Type 0} {P : World S → Type 0} {Q : A → World S → Type 0} (r : OperationRecord)
      (id : String) (refusal : Option ReviewRefusal) (m : Action S A)
      → (refusal ≡ none → Does (protocol h laws c) P m Q)
      → Does (protocol h laws c) P (accept h c r id refusal m) Q
  unfolding accept
  accept_does r id none m hm = hm refl
  accept_does r id (some code) m hm = refuse_does r id code

  decide_does :
      (identity : OperationIdentity) (r : OperationRecord) (d : ReviewDecision)
      → r.identity.id ≡ identity.id
      → Does
          (protocol h laws c)
          (Knows h laws c r)
          (accept h c r identity.id
            (refusal_of r d)
            (record_review h c identity.id r d >>= store_review h c identity r))
          Anything
  decide_does identity r d same = accept_does r identity.id (refusal_of r d) _ (λ not_refused.
      let (waiting, e, at_hand, token) = refusal_of-none r d not_refused in
      bind_does (protocol h laws c) (record_review_does identity.id r d) (λ review.
        assuming (protocol h laws c) (λ w q. q.1)
          (λ carried.
            weaken (protocol h laws c) (λ w q. q.0)
              (store_review_does identity r review e same waiting at_hand (carried ∙ ap some token))
              (λ b w q. tt))))

  review_found_does :
      (identity : OperationIdentity) (d : ReviewDecision) (found : Option OperationRecord)
      → Does
          (protocol h laws c)
          (λ w. AllNamed h laws c w × (found ≡ record_at h laws c w identity.id))
          (review_found h c identity d found)
          Anything
  unfolding review_found
  review_found_does identity d none = raise_does (protocol h laws c) _
  review_found_does identity d (some r) =
      assuming (protocol h laws c)
        (λ w (named, found). subst (NamedBy identity.id) (sym found) (named identity.id))
        (λ same.
          weaken (protocol h laws c) (λ w q. lookup-Knows h laws c lawful identity.id r w q)
            (if_does (protocol h laws c) (str_eq r.identity.operation_type c.operation_type)
              (λ e. decide_does identity r d same) (λ e. raise_does (protocol h laws c) _))
            (λ b w q. tt))

  review_coordinated_does :
      (identity : OperationIdentity) (d : ReviewDecision)
      → Does (protocol h laws c) (AllNamed h laws c) (review_coordinated h c identity d) Anything
  unfolding review_coordinated
  review_coordinated_does identity d =
      bind_does (protocol h laws c)
        (reads_does h laws c lawful (AllNamed-Stable h laws c) identity.id)
        (λ found. review_found_does identity d found)

  busy_on_conflict_does :
      (id : String) (f : Fault)
      → Does (protocol h laws c) (λ w. Unit) (busy_on_conflict h c id f) Anything
  unfolding busy_on_conflict
  busy_on_conflict_does id (store_conflict _ _ _) = raise_does (protocol h laws c) _
  busy_on_conflict_does id f = raise_does (protocol h laws c) _

  review_locked_does :
      (identity : OperationIdentity) (d : ReviewDecision) (held : Bool)
      → Does (protocol h laws c) (AllNamed h laws c) (review_locked h c identity d held) Anything
  unfolding review_locked
  review_locked_does identity d false = raise_does (protocol h laws c) _
  review_locked_does identity d true = releasing_does h laws c lawful identity.id _ (
      catching_does (protocol h laws c) (review_coordinated_does identity d)
        (λ f. busy_on_conflict_does identity.id f))

  review_effect_does :
      (requested : RequestIdentity) (decision : ReviewDecision)
      → Does (protocol h laws c) (AllNamed h laws c) (review_effect h c requested decision) Anything
  unfolding review_effect
  review_effect_does requested decision = then_does fr (guard_does fr _ _) (λ u.
      bind_does fr (weaken fr (λ w p. p.0) (lift_keeps h laws c lawful named _) (λ b w q. q))
        (λ identity. bind_does fr (lift_keeps h laws c lawful named _) (λ d.
          bind_does fr
            (quiet_does h laws c lawful named (λ n. h.store.try_acquire_lock identity.id)
              (λ n s. laws.try_acquire_lock_lem identity.id s))
            (λ held. review_locked_does identity d held))))
    where
      fr : Frame S
      fr = protocol h laws c

      named : Stable (protocol h laws c) (AllNamed h laws c)
      named = AllNamed-Stable h laws c

  -- `reviewEffect` moves every record by steps of the protocol only, however it ends, under the same
  -- conditions as `runEffect`: the store keeps its promises, every record carries the identity that it
  -- is stored under, and other callers take steps of the protocol too.
  pub review_effect_refines :
      (requested : RequestIdentity) (decision : ReviewDecision) (w : World S)
      → AllNamed h laws c w
      → (id : String)
      → Steps c
          (IsReading h)
          id
          (laws.view w.state id)
          (laws.view (review_effect h c requested decision w).1.state id)
  review_effect_refines requested decision w named =
      ((review_effect_does requested decision).at w named).0
