-- ===== src/Refinement/Resolutions.antt =====
-- src/core/runtime.ts: observing, reconciling and resolving attempts, as steps of the protocol.
use corrobo.Base.{ℕ, ◌≡◌, refl, ap, ◌∙◌, Option, none, some, List, [], push, get_last?}
use corrobo.Value.{Value}
use corrobo.Types.{
  opened, HookResult, throws, returns, TransportOutcome, ReservedAttemptInput, ReservedAttempt,
  AttemptRecord, ResolvedAttempt, reserved, resolved, OperationRecord, EffectContract, ObserveInput,
  ReconcileInput,
}
use corrobo.Store.{stamped, latest_change}
use corrobo.Store.Kept.{outline, KeepsCourse}
use corrobo.Store.Laws.{StoreLaws}
use corrobo.Disposition.{DecideDispositionResult}
use corrobo.Runtime.Monad.{Host, World, on_store}
use corrobo.Runtime.Answers.{Reconciliation}
use corrobo.Runtime.Hooks.{concluded, safe_observe, safe_reconcile}
use corrobo.Runtime.Report.{status_after}
use corrobo.Runtime.Attempt.{
  decide, unknown_transport, base_of_reserved, base_of_resolved, bounded_observations,
  resolve_attempt, observe_and_resolve, recover_reserved_attempt, re_observe,
}
use corrobo.Runtime.Frame.{
  Frame, Does, Stable, Anything, pure_does, bind_does, then_does, guard_does, assuming, weaken,
}
use corrobo.Protocol.{resolve, AwaitsResolution, IsDecided}
use corrobo.Refinement.Clock.{IsReading}
use corrobo.Refinement.Setting.{
  AreLawful, IsReading-does, protocol, Knows, Knows-Stable, record_at, now_iso_does,
  await_hook_does, call_hook_does, writes_does,
}

-- An attempt that is built from a base keeps the base, and is decided by the contract.
resolve_attempt-IsDecided :
    (c : EffectContract) (base : ReservedAttemptInput) (t : TransportOutcome) (os : List Value)
    (rec : Reconciliation) (now updated_at : ℕ) (Reading : ℕ → Type 0)
    → Reading now
    → IsDecided c Reading (resolve_attempt c base t os rec now updated_at)
unfolding resolve_attempt
resolve_attempt-IsDecided c base t os rec now updated_at Reading reading =
    (now, reading, refl, refl)

resolve_attempt_base :
    (c : EffectContract) (base : ReservedAttemptInput) (t : TransportOutcome) (os : List Value)
    (rec : Reconciliation) (now updated_at : ℕ)
    → base_of_resolved (resolve_attempt c base t os rec now updated_at) ≡ base
unfolding resolve_attempt
resolve_attempt_base c base t os rec now updated_at = refl

decide_outline :
    (c : EffectContract) (a b : ResolvedAttempt) (now : ℕ)
    → KeepsCourse a b
    → decide c a.evidence_state (base_of_resolved a) a.transport now
      ≡ decide c b.evidence_state (base_of_resolved b) b.transport now
unfolding decide
decide_outline c a b now keeps = cc (keeps.same_outline, keeps.same_transport, keeps.same_evidence)

AwaitsResolution-outline :
    (latest : Option AttemptRecord) (i j : ReservedAttemptInput)
    → outline j ≡ outline i
    → AwaitsResolution latest i
    → AwaitsResolution latest j
AwaitsResolution-outline none i j e h = h
AwaitsResolution-outline (some (reserved a)) i j e h = e ∙ h
AwaitsResolution-outline (some (resolved a)) i j e (h, open_now) = (e ∙ h, open_now)

-- The decision on an attempt rests on what a store keeps of it.
KeepsCourse-IsDecided :
    (c : EffectContract) (Reading : ℕ → Type 0) (a b : ResolvedAttempt)
    → KeepsCourse a b
    → IsDecided c Reading a
    → IsDecided c Reading b
KeepsCourse-IsDecided c Reading a b keeps (now, reading, decided, wait) = (
  now,
  reading,
  keeps.same_disposition ∙ decided ∙ ap (λ (d : DecideDispositionResult). d.disposition) same,
  keeps.same_wait ∙ wait ∙ ap (λ (d : DecideDispositionResult). d.retry_not_before) same,
)
  where
    same :
        decide c a.evidence_state (base_of_resolved a) a.transport now
        ≡ decide c b.evidence_state (base_of_resolved b) b.transport now
    same = decide_outline c a b now keeps

module _ {S : Type 0} (h : Host S) (laws : StoreLaws h.store) (c : EffectContract)
    (lawful : AreLawful h laws c) where
  module _ {P : World S → Type 0} (stable : Stable (protocol h laws c) P) where
    safe_reconcile_does :
        (i : ReconcileInput) → Does (protocol h laws c) P (safe_reconcile h c i) (λ t w. P w)
    unfolding safe_reconcile
    safe_reconcile_does i =
        bind_does (protocol h laws c) (call_hook_does h laws c lawful stable _ _)
          (λ a. pure_does (protocol h laws c) _ (λ w p. p))

    concluded_does :
        (v : Value) (checked : HookResult)
        → Does (protocol h laws c) P (concluded h c v checked) (λ t w. P w)
    unfolding concluded
    concluded_does v (returns stored) = pure_does (protocol h laws c) _ (λ w p. p)
    concluded_does v (throws e) =
        bind_does (protocol h laws c) (now_iso_does h laws c lawful stable)
          (λ now. pure_does (protocol h laws c) _ (λ w p. p))

    safe_observe_does :
        (i : ObserveInput) → Does (protocol h laws c) P (safe_observe h c i) (λ t w. P w)
    unfolding safe_observe
    safe_observe_does i =
        bind_does (protocol h laws c) (await_hook_does h laws c lawful stable _ _)
          (λ a. concluded_does _ _)

  -- The record as an attempt with the outline of `base` leaves it, resolved from `r`.
  abbrev pub ResolvedFrom : OperationRecord → ReservedAttemptInput → OperationRecord → Type 0
  ResolvedFrom r base r' =
      (a : ResolvedAttempt) × (n : ℕ) × (outline (base_of_resolved a) ≡ outline base)
      × IsDecided c (IsReading h) a
      × (r'
          ≡ stamped n (latest_change (resolved a) (status_after a.evidence_state a.disposition) r))

  resolve_write_does :
      (r : OperationRecord) (base : ReservedAttemptInput) (a : ResolvedAttempt)
      → r.status ≡ opened
      → AwaitsResolution (get_last? r.attempts) base
      → base_of_resolved a ≡ base
      → IsDecided c (IsReading h) a
      → Does
          (protocol h laws c)
          (Knows h laws c r)
          (on_store h (λ n.
            h.store.update_latest_attempt n r.identity.id
              (resolved a)
              (status_after a.evidence_state a.disposition)
              r.version))
          (λ r' w. (record_at h laws c w r.identity.id ≡ some r') × ResolvedFrom r base r')
  resolve_write_does r base a open_now awaits same decided =
      let b : ResolvedAttempt = laws.kept.resolution a in
      let keeps : KeepsCourse a b = laws.kept.same_course a in
      let outlined : outline (base_of_resolved b) ≡ outline base =
        keeps.same_outline ∙ ap outline same in
      let status : status_after b.evidence_state b.disposition
          ≡ status_after a.evidence_state a.disposition =
        rw (keeps.same_evidence, keeps.same_disposition) refl in
      weaken (protocol h laws c) (λ w k. k)
        (writes_does h laws c lawful r
          (latest_change (resolved b) (status_after b.evidence_state b.disposition)) _
          (λ n s.
            rw (status, ← laws.kept.attempt_resolved a)
              (laws.update_latest_attempt_lem n r.identity.id (resolved a) _ r.version s))
          (λ n.
            resolve n b r open_now
              (AwaitsResolution-outline (get_last? r.attempts) base (base_of_resolved b) outlined
                awaits)
              (KeepsCourse-IsDecided c (IsReading h) a b keeps decided)))
        (λ r' w q.
          (q.0, (b, q.1, outlined, KeepsCourse-IsDecided c (IsReading h) a b keeps decided, q.2)))

  pub observe_and_resolve_does :
      (r : OperationRecord) (intent : Value) (base : ReservedAttemptInput) (t : TransportOutcome)
      (earlier : List Value)
      → r.status ≡ opened
      → AwaitsResolution (get_last? r.attempts) base
      → Does
          (protocol h laws c)
          (Knows h laws c r)
          (observe_and_resolve h c r.identity intent base t earlier r.version)
          (λ r' w. (record_at h laws c w r.identity.id ≡ some r') × ResolvedFrom r base r')
  unfolding observe_and_resolve
  observe_and_resolve_does r intent base t earlier open_now awaits =
      bind_does fr (safe_observe_does known _) (λ seen.
        bind_does fr (safe_reconcile_does known _) (λ rec.
          bind_does fr (IsReading-does h laws c lawful known) (λ now.
            assuming fr (λ w q. q.1)
              (λ reading.
                bind_does fr
                  (weaken fr (λ w q. q.0) (now_iso_does h laws c lawful known) (λ u w k. k))
                  (λ updated_at.
                    then_does fr (weaken fr (λ w k. k) (guard_does fr _ _) (λ u w q. q.0)) (λ u.
                      resolve_write_does r base _ open_now awaits
                        (resolve_attempt_base c base t
                          (bounded_observations (push earlier seen.stored)) rec now updated_at)
                        (resolve_attempt-IsDecided c base t
                          (bounded_observations (push earlier seen.stored)) rec now updated_at
                          (IsReading h) reading)))))))
    where
      fr : Frame S
      fr = protocol h laws c

      known : Stable (protocol h laws c) (Knows h laws c r)
      known = Knows-Stable h laws c r

  pub re_observe_does :
      (r : OperationRecord) (intent : Value) (a : ResolvedAttempt)
      → r.status ≡ opened
      → AwaitsResolution (get_last? r.attempts) (base_of_resolved a)
      → Does (protocol h laws c) (Knows h laws c r) (re_observe h c r intent a) (λ r' w.
        (record_at h laws c w r.identity.id ≡ some r') × ResolvedFrom r (base_of_resolved a) r')
  unfolding re_observe
  re_observe_does r intent a =
      observe_and_resolve_does r intent (base_of_resolved a) a.transport a.observations

  pub recover_reserved_attempt_does :
      (r : OperationRecord) (intent : Value) (a : ReservedAttempt)
      → r.status ≡ opened
      → get_last? r.attempts ≡ some (reserved a)
      → Does
          (protocol h laws c)
          (Knows h laws c r)
          (recover_reserved_attempt h c r intent a)
          Anything
  unfolding recover_reserved_attempt
  recover_reserved_attempt_does r intent a open_now latest =
      bind_does (protocol h laws c)
        (observe_and_resolve_does r intent (base_of_reserved a) unknown_transport [] open_now
          (rw latest refl))
        (λ r'. pure_does (protocol h laws c) _ (λ w q. tt))
