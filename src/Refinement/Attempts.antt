-- ===== src/Refinement/Attempts.antt =====
-- src/core/runtime.ts: reserving and executing attempts, as steps of the protocol.
use corrobo.Base.{
  ℕ, suc, ◌≡◌, refl, sym, ap, ◌∙◌, subst, inl, Option, none, some, [], arith, get_last?, length,
  get_last?-push,
}
use corrobo.Value.{Value}
use corrobo.Types.{
  opened, TransportOutcome, PreExecuteCheck, ReservedAttemptInput, OperationRecord, EffectContract,
  ExecuteInput,
}
use corrobo.Store.{stamped, reserve_change}
use corrobo.Store.Kept.{outline}
use corrobo.Store.Laws.{StoreLaws}
use corrobo.Runtime.Monad.{Host, World, on_store}
use corrobo.Runtime.Hooks.{safe_execute}
use corrobo.Runtime.Attempt.{observe_and_resolve, perform_attempt, started}
use corrobo.Runtime.Frame.{Frame, Does, Stable, Anything, pure_does, bind_does, assuming, weaken}
use corrobo.Runtime.Check.{attempt_base}
use corrobo.Protocol.{reserve, AwaitsResolution, AllowsAttempt, Evolved}
use corrobo.Refinement.Setting.{
  AreLawful, protocol, Knows, Knows-Stable, record_at, await_hook_does, safety_now_does,
  writes_does,
}
use corrobo.Refinement.Resolutions.{observe_and_resolve_does}

module _ {S : Type 0} (h : Host S) (laws : StoreLaws h.store) (c : EffectContract)
    (lawful : AreLawful h laws c) where
  module _ {P : World S → Type 0} (stable : Stable (protocol h laws c) P) where
    safe_execute_does :
        (i : ExecuteInput) → Does (protocol h laws c) P (safe_execute h c i) (λ t w. P w)
    unfolding safe_execute
    safe_execute_does i =
        bind_does (protocol h laws c) (await_hook_does h laws c lawful stable _ _)
          (λ a. pure_does (protocol h laws c) _ (λ w p. p))

    started_does :
        (check : Option PreExecuteCheck)
        → Does (protocol h laws c) P (started h c check) (λ t w. P w)
    unfolding started
    started_does (some check) = pure_does (protocol h laws c) _ (λ w p. p)
    started_does none = safety_now_does h laws c lawful stable

  -- The record as a reservation leaves it.
  reserved_from :
      (r r' : OperationRecord) (a k : ReservedAttemptInput) (n : ℕ) (w : World S)
      → outline k ≡ outline a
      → r.status ≡ opened
      → record_at h laws c w r.identity.id ≡ some r'
      → r' ≡ stamped n (reserve_change k r)
      → Knows h laws c r' w
        × (r'.identity ≡ r.identity)
        × (r'.status ≡ opened)
        × AwaitsResolution (get_last? r'.attempts) a
  unfolding stamped reserve_change
  reserved_from r r' a k n w kept open_now found made =
      let same : r'.identity ≡ r.identity = ap (λ (x : OperationRecord). x.identity) made in
      let latest : get_last? r'.attempts ≡ get_last? (reserve_change k r).attempts =
        ap (λ (x : OperationRecord). get_last? x.attempts) made in
      (
        subst (λ i. Evolved r' (record_at h laws c w i.id)) (sym same) (rw found (inl refl)),
        same,
        ap (λ (x : OperationRecord). x.status) made ∙ open_now,
        subst (λ o. AwaitsResolution o a) (sym (latest ∙ get_last?-push r.attempts _)) (sym kept),
      )

  -- What follows the reservation, from the record that the store gave back.
  abbrev IsReserved : OperationRecord → ReservedAttemptInput → OperationRecord → World S → Type 0
  IsReserved r a r' w =
      Knows h laws c r' w
      × (r'.identity ≡ r.identity)
      × (r'.status ≡ opened)
      × AwaitsResolution (get_last? r'.attempts) a

  IsReserved-Stable :
      (r : OperationRecord) (a : ReservedAttemptInput) (r' : OperationRecord)
      → Stable (protocol h laws c) (IsReserved r a r')
  IsReserved-Stable r a r' v w al (k, same, st, latest) =
      (Knows-Stable h laws c r' v w al k, same, st, latest)

  reserve_does :
      (r : OperationRecord) (a : ReservedAttemptInput)
      → r.status ≡ opened
      → AllowsAttempt (get_last? r.attempts)
      → a.attempt_number ≡ suc (length r.attempts)
      → Does
          (protocol h laws c)
          (Knows h laws c r)
          (on_store h (λ n. h.store.reserve_attempt n r.identity.id a r.version))
          (IsReserved r a)
  reserve_does r a open_now allows number =
      let k : ReservedAttemptInput = laws.kept.reservation a in
      let same : outline k ≡ outline a = laws.kept.same_reservation a in
      weaken (protocol h laws c) (λ w k. k)
        (writes_does h laws c lawful r (reserve_change k) _
          (λ n s. laws.reserve_attempt_lem n r.identity.id a r.version s)
          (λ n. reserve n k r open_now allows (ap (λ o. o.0) same ∙ number)))
        (λ r' w (found, n, made). reserved_from r r' a k n w same open_now found made)

  first_resolution_does :
      (r : OperationRecord) (intent : Value) (a : ReservedAttemptInput) (r' : OperationRecord)
      (t : TransportOutcome)
      → Does
          (protocol h laws c)
          (IsReserved r a r')
          (observe_and_resolve h c r.identity intent a t [] r'.version)
          Anything
  first_resolution_does r intent a r' t =
      assuming (protocol h laws c) (λ w q. (q.1, q.2, q.3))
        (λ (same, open_now, awaits).
          subst
            (λ i.
              Does (protocol h laws c) (IsReserved r a r')
                (observe_and_resolve h c i intent a t [] r'.version) Anything)
            same
            (weaken (protocol h laws c) (λ w q. q.0)
              (observe_and_resolve_does h laws c lawful r' intent a t [] open_now awaits)
              (λ b w q. tt)))

  pub perform_attempt_does :
      (r : OperationRecord) (intent : Value) (check : Option PreExecuteCheck)
      → r.status ≡ opened
      → AllowsAttempt (get_last? r.attempts)
      → Does
          (protocol h laws c)
          (Knows h laws c r)
          (perform_attempt h c (attempt_base r) intent check)
          Anything
  unfolding perform_attempt
  perform_attempt_does r intent check open_now allows =
      bind_does fr (started_does (Knows-Stable h laws c r) check) (λ t.
        bind_does fr (reserve_does r _ open_now allows (omega arith)) (λ r'.
          bind_does fr (safe_execute_does (IsReserved-Stable r _ r') _) (λ transport.
            bind_does fr (first_resolution_does r intent _ r' transport)
              (λ done. pure_does fr _ (λ w q. tt)))))
    where
      fr : Frame S
      fr = protocol h laws c
