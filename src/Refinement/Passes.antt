-- ===== src/Refinement/Passes.antt =====
-- src/core/runtime.ts `continueOpen`: the way on for an open operation, as steps of the protocol.
use corrobo.Base.{
  ℕ, ◌≡◌, refl, sym, ap, subst, inl, inr, true, Option, none, some, get_last?, arith, ltb,
}
use corrobo.Types.{
  opened, retry, pending, AttemptRecord, reserved, resolved, ResolvedAttempt, OperationRecord,
  EffectContract,
}
use corrobo.Store.{stamped, latest_change}
use corrobo.Store.Laws.{StoreLaws}
use corrobo.Runtime.Monad.{Host, World}
use corrobo.Runtime.Attempt.{transport_ok, base_of_resolved}
use corrobo.Runtime.Frame.{Does, Anything, pure_does, bind_does, if_does, weaken}
use corrobo.Runtime.Check.{ResolvedRequest}
use corrobo.Runtime.Continue.{
  Next, attempt_now, look_again, settle_first, next_for, is_settled, settle_then_attempt,
  wait_or_settle, take_next, continue_from, continue_open,
}
use corrobo.Protocol.{Evolved, AllowsAttempt}
use corrobo.Refinement.Setting.{
  AreLawful, protocol, Knows, Knows-Stable, record_at, safety_now_does,
}
use corrobo.Refinement.Resolutions.{ResolvedFrom, re_observe_does, recover_reserved_attempt_does}
use corrobo.Refinement.Checks.{check_then_attempt_does}

-- What the choice of the next move says of the latest attempt.
abbrev Chosen : ResolvedAttempt → Next → Type 0
Chosen a attempt_now = (a.disposition ≡ some retry) × (transport_ok a.transport ≡ true)
Chosen a look_again = a.evidence_state ≡ pending
Chosen a settle_first = a.disposition ≡ some retry
Chosen a _ = Unit

next_for-Chosen : (r : OperationRecord) (a : ResolvedAttempt) → Chosen a (next_for r a)
unfolding next_for
next_for-Chosen r a = ground arith

is_settled-AllowsAttempt :
    (r : OperationRecord)
    → is_settled r ≡ true
    → (r.status ≡ opened) × AllowsAttempt (get_last? r.attempts)
unfolding is_settled
is_settled-AllowsAttempt r e = ground arith

module _ {S : Type 0} (h : Host S) (laws : StoreLaws h.store) (c : EffectContract)
    (lawful : AreLawful h laws c) where
  -- A record that a write gave back is known, under the same identity.
  pub written-Knows :
      (r r' : OperationRecord) (w : World S)
      → r'.identity ≡ r.identity
      → record_at h laws c w r.identity.id ≡ some r'
      → Knows h laws c r' w
  written-Knows r r' w same found =
      subst (λ i. Evolved r' (record_at h laws c w i.id)) (sym same) (rw found (inl refl))

  ResolvedFrom-identity :
      (r r' : OperationRecord) (a : ResolvedAttempt)
      → ResolvedFrom h laws c lawful r (base_of_resolved a) r'
      → r'.identity ≡ r.identity
  unfolding stamped latest_change
  ResolvedFrom-identity r r' a (b, n, same, decided, made) =
      ap (λ (x : OperationRecord). x.identity) made

  settle_then_attempt_does :
      (r : OperationRecord) (request : ResolvedRequest) (a : ResolvedAttempt)
      → r.status ≡ opened
      → get_last? r.attempts ≡ some (resolved a)
      → a.disposition ≡ some retry
      → Does (protocol h laws c) (Knows h laws c r) (settle_then_attempt h c r request a) Anything
  unfolding settle_then_attempt
  settle_then_attempt_does r request a open_now latest again =
      bind_does (protocol h laws c)
        (re_observe_does h laws c lawful r request.intent a open_now (rw latest (refl, inr again)))
        (λ r'.
          if_does (protocol h laws c) (is_settled r')
            (λ e.
              let (open', allows) = is_settled-AllowsAttempt r' e in
              weaken (protocol h laws c)
                (λ w q. written-Knows r r' w (ResolvedFrom-identity r r' a q.1) q.0)
                (check_then_attempt_does h laws c lawful r' open' allows request) (λ b w q. tt))
            (λ e. pure_does (protocol h laws c) _ (λ w q. tt)))

  wait_or_settle_does :
      (r : OperationRecord) (request : ResolvedRequest) (a : ResolvedAttempt) (until : Option ℕ)
      → r.status ≡ opened
      → get_last? r.attempts ≡ some (resolved a)
      → a.disposition ≡ some retry
      → Does (protocol h laws c) (Knows h laws c r) (wait_or_settle h c r request a until) Anything
  unfolding wait_or_settle
  wait_or_settle_does r request a none open_now latest again =
      settle_then_attempt_does r request a open_now latest again
  wait_or_settle_does r request a (some t) open_now latest again =
      bind_does (protocol h laws c) (safety_now_does h laws c lawful (Knows-Stable h laws c r))
        (λ now.
          if_does (protocol h laws c) (ltb now t) (λ e. pure_does (protocol h laws c) _ (λ w q. tt))
            (λ e. settle_then_attempt_does r request a open_now latest again))

  take_next_does :
      (r : OperationRecord) (request : ResolvedRequest) (a : ResolvedAttempt) (next : Next)
      → r.status ≡ opened
      → get_last? r.attempts ≡ some (resolved a)
      → Chosen a next
      → Does (protocol h laws c) (Knows h laws c r) (take_next h c r request a next) Anything
  unfolding take_next
  take_next_does r request a look_again open_now latest waiting =
      bind_does (protocol h laws c)
        (re_observe_does h laws c lawful r request.intent a open_now
          (rw latest (refl, inl waiting)))
        (λ r'. pure_does (protocol h laws c) _ (λ w q. tt))
  take_next_does r request a attempt_now open_now latest (again, answered) =
      check_then_attempt_does h laws c lawful r open_now (rw latest (again, inl answered)) request
  take_next_does r request a settle_first open_now latest again =
      wait_or_settle_does r request a a.retry_not_before open_now latest again
  take_next_does r request a _ open_now latest u = pure_does (protocol h laws c) _ (λ w q. tt)

  continue_from_does :
      (r : OperationRecord) (request : ResolvedRequest) (latest : Option AttemptRecord)
      → r.status ≡ opened
      → get_last? r.attempts ≡ latest
      → Does (protocol h laws c) (Knows h laws c r) (continue_from h c r request latest) Anything
  unfolding continue_from
  continue_from_does r request none open_now e =
      check_then_attempt_does h laws c lawful r open_now (rw e tt) request
  continue_from_does r request (some (reserved a)) open_now e =
      recover_reserved_attempt_does h laws c lawful r request.intent a open_now e
  continue_from_does r request (some (resolved a)) open_now e =
      take_next_does r request a (next_for r a) open_now e (next_for-Chosen r a)

  pub continue_open_does :
      (r : OperationRecord) (request : ResolvedRequest)
      → r.status ≡ opened
      → Does (protocol h laws c) (Knows h laws c r) (continue_open h c r request) Anything
  unfolding continue_open
  continue_open_does r request open_now =
      continue_from_does r request (get_last? r.attempts) open_now refl
