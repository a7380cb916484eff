-- ===== src/Refinement/Openings.antt =====
-- src/core/runtime.ts: the first call for an identity, as steps of the protocol.
use corrobo.Base.{String, str_eq, ℕ, ◌≡◌, refl, ap, ◌∙◌, Option, none, some}
use corrobo.Types.{
  opened, OperationRecord, EffectContract, AuthorizeInput, HookResult, throws, returns, ReasonCode,
}
use corrobo.Store.{NewOperationInput, created}
use corrobo.Store.Kept.{kept_creation}
use corrobo.Store.Laws.{StoreLaws}
use corrobo.Runtime.Monad.{Host, World}
use corrobo.Runtime.Frame.{
  Does, Stable, Anything, pure_does, raise_does, bind_does, if_does, assuming, weaken, guard_does,
}
use corrobo.Runtime.Check.{ResolvedRequest, check_then_attempt}
use corrobo.Runtime.Entry.{PreparedIntent}
use corrobo.Runtime.Effect.{
  asked, assert_same_logical_operation, ask_authorize, authorized, create_for_review,
  create_and_attempt, begin,
}
use corrobo.Refinement.Setting.{
  AreLawful, protocol, Knows, record_at, await_hook_does, creates_does,
}
use corrobo.Value.{Value}
use corrobo.Refinement.Checks.{
  ask_fingerprint_does, open_review_episode_does, lift_keeps, check_then_attempt_does,
}
use corrobo.Refinement.Passes.{written-Knows}

abbrev opening : ResolvedRequest → PreparedIntent → NewOperationInput
opening request prepared = record {
  identity = request.identity;
  intent = prepared.stored;
  status = opened;
  review_reason = none;
  review_episode = none;
}

module _ {S : Type 0} (h : Host S) (laws : StoreLaws h.store) (c : EffectContract)
    (lawful : AreLawful h laws c) where
  module _ {P : World S → Type 0} (stable : Stable (protocol h laws c) P) where
    authorized_does : (a : HookResult) → Does (protocol h laws c) P (authorized h c a) (λ v w. P w)
    unfolding authorized
    authorized_does (throws e) = raise_does (protocol h laws c) _
    authorized_does (returns v) = lift_keeps h laws c lawful stable _

    ask_authorize_does :
        (hook : Option (ℕ → AuthorizeInput → HookResult)) (request : ResolvedRequest)
        → Does (protocol h laws c) P (ask_authorize h c hook request) (λ v w. P w)
    unfolding ask_authorize
    ask_authorize_does none request = pure_does (protocol h laws c) _ (λ w p. p)
    ask_authorize_does (some hook) request =
        bind_does (protocol h laws c) (await_hook_does h laws c lawful stable _ _)
          (λ a. authorized_does a)

    pub asked_does :
        (o : Option String) (v : Value) → Does (protocol h laws c) P (asked h c o v) (λ f w. P w)
    asked_does (some f) v = pure_does (protocol h laws c) _ (λ w p. p)
    asked_does none v = ask_fingerprint_does h laws c lawful stable v

    pub assert_same_does :
        (request : ResolvedRequest) (prepared : PreparedIntent) (r : OperationRecord)
        → Does
            (protocol h laws c)
            P
            (assert_same_logical_operation h c request prepared r)
            (λ u w. P w)
    unfolding assert_same_logical_operation
    assert_same_does request prepared r =
        if_does (protocol h laws c) (str_eq r.identity.operation_type c.operation_type)
          (λ e.
            bind_does (protocol h laws c) (ask_fingerprint_does h laws c lawful stable r.intent)
              (λ recorded.
                bind_does (protocol h laws c) (asked_does prepared.fingerprint request.intent)
                  (λ given.
                    weaken (protocol h laws c) (λ w p. p) (guard_does (protocol h laws c) _ _)
                      (λ u w q. q.0))))
          (λ e. raise_does (protocol h laws c) _)

    create_for_review_does :
        (request : ResolvedRequest) (prepared : PreparedIntent) (reason : Option ReasonCode)
        → Does (protocol h laws c) P (create_for_review h c request prepared reason) Anything
    unfolding create_for_review
    create_for_review_does request prepared reason =
        bind_does (protocol h laws c) (asked_does prepared.fingerprint prepared.stored) (λ f.
          bind_does (protocol h laws c)
            (open_review_episode_does h laws c lawful stable _ f none none)
            (λ e.
              bind_does (protocol h laws c) (creates_does h laws c lawful P _)
                (λ r. pure_does (protocol h laws c) _ (λ w q. tt))))

    created-Knows :
        (i : NewOperationInput) (r : OperationRecord) (n : ℕ) (w : World S)
        → record_at h laws c w i.identity.id ≡ some r
        → r ≡ created n i
        → Knows h laws c r w
    unfolding created
    created-Knows i r n w found made =
        written-Knows h laws c lawful (created n i) r w
          (ap (λ (x : OperationRecord). x.identity) made) found

    attempt_created_does :
        (request : ResolvedRequest) (i : NewOperationInput) (r : OperationRecord)
        → i.status ≡ opened
        → Does
            (protocol h laws c)
            (λ w. (record_at h laws c w i.identity.id ≡ some r) × (n : ℕ) × (r ≡ created n i))
            (check_then_attempt h c r request)
            Anything
    unfolding created
    attempt_created_does request i r open_now =
        assuming (protocol h laws c) (λ w q. (q.1, q.2))
          (λ (n, made).
            weaken (protocol h laws c) (λ w q. created-Knows i r n w q.0 made)
              (check_then_attempt_does h laws c lawful r
                (ap (λ (x : OperationRecord). x.status) made ∙ open_now) (rw made tt) request)
              (λ b w q. tt))

    create_and_attempt_does :
        (request : ResolvedRequest) (prepared : PreparedIntent)
        → Does (protocol h laws c) P (create_and_attempt h c request prepared) Anything
    unfolding create_and_attempt
    create_and_attempt_does request prepared =
        bind_does (protocol h laws c) (creates_does h laws c lawful P _) (λ r.
          attempt_created_does request (kept_creation laws.kept (opening request prepared)) r refl)

    pub begin_does :
        (request : ResolvedRequest) (prepared : PreparedIntent)
        → Does (protocol h laws c) P (begin h c request prepared) Anything
    unfolding begin
    begin_does request prepared =
        bind_does (protocol h laws c) (ask_authorize_does c.authorize request) (λ auth.
          if_does (protocol h laws c) auth.needs_review
            (λ e. create_for_review_does request prepared auth.reason)
            (λ e. create_and_attempt_does request prepared))
