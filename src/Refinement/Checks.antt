-- ===== src/Refinement/Checks.antt =====
-- src/core/runtime.ts: the checks before an attempt, and what they record, as steps of the protocol.
use corrobo.Base.{ℕ, String, ◌≡◌, ◌≢◌, Option, none, some, List, get_last?}
use corrobo.Types.{
  opened, CheckOutcome, proceed, requires_review, reject, failed, OperationIdentity, ReviewEpisode,
  RecordedReview, OperationRecord, EffectContract, ReasonCode, RevalidateInput, HookResult,
}
use corrobo.Fault.{Outcome, ok, thrown}
use corrobo.Store.{Patch, keep, clear, put, OperationUpdate, operation_change}
use corrobo.Store.Kept.{Kept, kept_patch, kept_update}
use corrobo.Store.Laws.{StoreLaws}
use corrobo.Runtime.Monad.{Host, World, Call, lift}
use corrobo.Runtime.Fingerprints.{ask_fingerprint}
use corrobo.Fingerprint.{fingerprint_intent}
use corrobo.Value.{Value}
use corrobo.Runtime.Hooks.{Verification, run_revalidate}
use corrobo.Runtime.Review.{open_review_episode, review_patch}
use corrobo.Runtime.Frame.{
  Frame, Gives, Does, Stable, Anything, pure_does, lift_does, bind_does, if_does, weaken,
}
use corrobo.Runtime.Check.{
  ResolvedRequest, Standing, approval_of, unrecorded_approval, no_approval, standing_of,
  approval_problem, verify, verify_again, act_on, block, check_then, check_then_attempt,
  needs_no_check,
}
use corrobo.Protocol.{Step, done, AllowsAttempt, RecordsNoDecision}
use corrobo.Protocol
use corrobo.Refinement.Setting.{
  AreLawful, protocol, Knows, Knows-Stable, await_hook_does, random_nonce_does, safety_now_does,
  writes_does,
}
use corrobo.Refinement.Attempts.{perform_attempt_does}

review_patch_silent : (e : ReviewEpisode) → RecordsNoDecision (review_patch e)
unfolding review_patch
review_patch_silent e = silent_of e.superseded_decision
  where
    silent_of :
        (o : Option RecordedReview)
        → RecordsNoDecision (elim o as (λ _. Patch RecordedReview) [ some _ ↦ clear | none ↦ keep ])
    silent_of none = tt
    silent_of (some r) = tt

kept_patch-RecordsNoDecision :
    (k : Kept) (p : Patch RecordedReview)
    → RecordsNoDecision p
    → RecordsNoDecision (kept_patch k.review p)
kept_patch-RecordsNoDecision k keep h = h
kept_patch-RecordsNoDecision k clear h = h
kept_patch-RecordsNoDecision k (put r) h = absurd h

-- A new episode records no decision, whatever a store keeps of it.
pub review_patch-RecordsNoDecision :
    (k : Kept) (e : ReviewEpisode) → RecordsNoDecision (kept_patch k.review (review_patch e))
review_patch-RecordsNoDecision k e =
    kept_patch-RecordsNoDecision k (review_patch e) (review_patch_silent e)

module _ {S : Type 0} (h : Host S) (laws : StoreLaws h.store) (c : EffectContract)
    (lawful : AreLawful h laws c) where
  module _ {P : World S → Type 0} (stable : Stable (protocol h laws c) P) where
    pub open_review_episode_does :
        (i : OperationIdentity) (f : String) (previous : Option ReviewEpisode)
        (on_record : Option RecordedReview)
        → Does (protocol h laws c) P (open_review_episode h i f previous on_record) (λ e w. P w)
    unfolding open_review_episode
    open_review_episode_does i f previous on_record =
        bind_does (protocol h laws c) (safety_now_does h laws c lawful stable) (λ t.
          bind_does (protocol h laws c) (random_nonce_does h laws c lawful stable)
            (λ n. pure_does (protocol h laws c) _ (λ w p. p)))

    pub lift_keeps : {A : Type 0} (o : Outcome A) → Does (protocol h laws c) P (lift o) (λ a w. P w)
    lift_keeps o =
        weaken (protocol h laws c) (λ w p. p) (lift_does (protocol h laws c) o) (λ a w q. q.0)

    pub ask_fingerprint_does :
        (v : Value) → Does (protocol h laws c) P (ask_fingerprint c v) (λ f w. P w)
    unfolding ask_fingerprint
    ask_fingerprint_does v = record {
      at = λ w p. (λ id. done, gives_from w p (fingerprint_intent c v) _);
    }
      where
        gives_from :
            (w : World S)
            → P w
            → (o : Outcome String) (cs : List Call)
            → Gives {S = S} (λ f u. P u) (o, record w { calls = cs })
        gives_from w p (ok f) cs = stable w _ (λ id. done) p
        gives_from w p (thrown e) cs = tt

    approval_problem_does :
        (r : OperationRecord) (st : Standing) (now : ℕ)
        → Does (protocol h laws c) P (approval_problem h c r st now) (λ e w. P w)
    unfolding approval_problem
    approval_problem_does r unrecorded_approval now = pure_does (protocol h laws c) _ (λ w p. p)
    approval_problem_does r no_approval now = pure_does (protocol h laws c) _ (λ w p. p)
    approval_problem_does r (approval_of a) now =
        bind_does (protocol h laws c) (ask_fingerprint_does r.intent) (λ f. lift_keeps _)

    run_revalidate_does :
        (hook : ℕ → RevalidateInput → HookResult) (i : RevalidateInput)
        → Does (protocol h laws c) P (run_revalidate h c hook i) (λ v w. P w)
    unfolding run_revalidate
    run_revalidate_does hook i =
        bind_does (protocol h laws c) (await_hook_does h laws c lawful stable _ _)
          (λ f. pure_does (protocol h laws c) _ (λ w p. p))

    verify_does :
        (r : OperationRecord) (request : ResolvedRequest) (st : Standing)
        (problem : Option ReasonCode) (hook : Option (ℕ → RevalidateInput → HookResult))
        → Does (protocol h laws c) P (verify h c r request st problem hook) (λ v w. P w)
    unfolding verify
    verify_does r request st (some problem) hook = pure_does (protocol h laws c) _ (λ w p. p)
    verify_does r request st none none = pure_does (protocol h laws c) _ (λ w p. p)
    verify_does r request st none (some hook) = run_revalidate_does hook _

    verify_again_does :
        (o : CheckOutcome) (r : OperationRecord) (st : Standing) (now : ℕ) (v : Verification)
        → Does (protocol h laws c) P (verify_again h c o r st now v) (λ v w. P w)
    unfolding verify_again
    verify_again_does proceed r st now v =
        bind_does (protocol h laws c) (approval_problem_does r st now)
          (λ f. pure_does (protocol h laws c) _ (λ w p. p))
    verify_again_does _ r st now v = pure_does (protocol h laws c) _ (λ w p. p)

  module _ (r : OperationRecord) (open_now : r.status ≡ opened)
      (allows : AllowsAttempt (get_last? r.attempts)) where
    block_does :
        (u : OperationUpdate)
        → u.status ≢ some opened
        → RecordsNoDecision u.review
        → Does (protocol h laws c) (Knows h laws c r) (block h c r u) Anything
    unfolding block
    block_does u stops silent =
        bind_does (protocol h laws c)
          (writes_does h laws c lawful r (operation_change (kept_update laws.kept u)) _
            (λ n s. laws.update_operation_lem n r.identity.id u r.version s)
            (λ n.
              Protocol.block n (kept_update laws.kept u) r open_now allows stops
                (kept_patch-RecordsNoDecision laws.kept u.review silent)))
          (λ r'. pure_does (protocol h laws c) _ (λ w q. tt))

    act_on_does :
        (o : CheckOutcome) (request : ResolvedRequest) (st : Standing) (v : Verification) (now : ℕ)
        → Does (protocol h laws c) (Knows h laws c r) (act_on h c o r request st v now) Anything
    unfolding act_on
    act_on_does proceed request st v now =
        perform_attempt_does h laws c lawful r request.intent _ open_now allows
    act_on_does requires_review request st v now =
        bind_does (protocol h laws c) (ask_fingerprint_does (Knows-Stable h laws c r) r.intent)
          (λ f.
            bind_does (protocol h laws c)
              (open_review_episode_does (Knows-Stable h laws c r) _ f _ _)
              (λ e. block_does _ (λ q. cc) (review_patch_silent e)))
    act_on_does reject request st v now = block_does _ (λ q. cc) tt
    act_on_does failed request st v now = block_does _ (λ q. cc) tt

    check_then_does :
        (request : ResolvedRequest) (st : Standing)
        → Does (protocol h laws c) (Knows h laws c r) (check_then h c r request st) Anything
    unfolding check_then
    check_then_does request st = bind_does fr (safety_now_does h laws c lawful known) (λ now.
        bind_does fr (approval_problem_does known r st now) (λ before.
          bind_does fr (verify_does known r request st before _) (λ v.
            bind_does fr (safety_now_does h laws c lawful known) (λ checked_at.
              bind_does fr (verify_again_does known _ r st checked_at v)
                (λ v'. act_on_does _ request st v' checked_at)))))
      where
        fr : Frame S
        fr = protocol h laws c

        known : Stable (protocol h laws c) (Knows h laws c r)
        known = Knows-Stable h laws c r

    pub check_then_attempt_does :
        (request : ResolvedRequest)
        → Does (protocol h laws c) (Knows h laws c r) (check_then_attempt h c r request) Anything
    unfolding check_then_attempt
    check_then_attempt_does request =
        if_does (protocol h laws c) (needs_no_check h c (standing_of r))
          (λ e. perform_attempt_does h laws c lawful r request.intent none open_now allows)
          (λ e. check_then_does request (standing_of r))
