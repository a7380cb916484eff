-- ===== src/Refinement/Promises.antt =====
-- What the refinement gives a caller of src/core/runtime.ts `runEffect`: the promises of the protocol,
-- for the records that are in the store after a pass.
use corrobo.Base.{ℕ, String, ◌<◌, ◌≤◌, ◌≡◌, subst, Option, none, some, length}
use corrobo.Types.{
  OperationRecord, closed, EffectContract, limit, EffectRequest, RequestIdentity, ReviewDecision,
}
use corrobo.Store.Laws.{StoreLaws}
use corrobo.Runtime.Monad.{Host, World}
use corrobo.Runtime.Effect.{run_effect}
use corrobo.Runtime.Decision.{review_effect}
use corrobo.Protocol.{Steps, Steps-trans}
use corrobo.Protocol.History.{Steps-bounded, Steps-closed}
use corrobo.Refinement.Clock.{IsReading}
use corrobo.Refinement.Setting.{AreLawful, AllNamed}
use corrobo.Refinement.Effects.{run_effect_refines}
use corrobo.Refinement.Reviews.{review_effect_refines}

module _ {S : Type 0} (h : Host S) (laws : StoreLaws h.store) (c : EffectContract)
    (lawful : AreLawful h laws c) where
  -- Under the conditions of the refinement, if an operation has come about by steps of the protocol
  -- from nothing, then after a pass too it has no more attempts than its contract allows, if that is
  -- at least one.
  pub run_effect_bounded :
      (input : EffectRequest) (w : World S) (m : ℕ)
      → AllNamed h laws c w
      → c.retry_policy.max_attempts ≡ limit m
      → 0 < m
      → (id : String) (r : OperationRecord) → Steps c (IsReading h) id none (laws.view w.state id)
      → laws.view (run_effect h c input w).1.state id ≡ some r
      → length r.attempts ≤ m
  run_effect_bounded input w m named e pos id r before after = Steps-bounded m e pos (
      subst (Steps c (IsReading h) id none) after
        (Steps-trans before (run_effect_refines h laws c lawful input w named id)))

  -- Under the conditions of the refinement, an operation that is closed is left as it is by a pass and
  -- by a review, whatever they are called with.
  pub closed_for_good :
      (input : EffectRequest) (requested : RequestIdentity) (decision : ReviewDecision)
      (w : World S)
      → AllNamed h laws c w
      → (id : String) (r : OperationRecord) → laws.view w.state id ≡ some r
      → r.status ≡ closed
      → (laws.view (run_effect h c input w).1.state id ≡ some r)
        × (laws.view (review_effect h c requested decision w).1.state id ≡ some r)
  closed_for_good input requested decision w named id r found shut = (
    Steps-closed r shut (
        from_found id r (laws.view (run_effect h c input w).1.state id) found
          (run_effect_refines h laws c lawful input w named id)),
    Steps-closed r shut (
        from_found id r (laws.view (review_effect h c requested decision w).1.state id) found
          (review_effect_refines h laws c lawful requested decision w named id)),
  )
    where
      from_found :
          (id : String) (r : OperationRecord) (o : Option OperationRecord)
          → laws.view w.state id ≡ some r
          → Steps c (IsReading h) id (laws.view w.state id) o
          → Steps c (IsReading h) id (some r) o
      from_found id r o e ss = subst (λ p. Steps c (IsReading h) id p o) e ss
