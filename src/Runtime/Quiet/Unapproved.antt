-- ===== src/Runtime/Quiet/Unapproved.antt =====
-- src/core/runtime.ts `checkThenAttempt`: operations that left review without a recorded approval.
use corrobo.Base.{
  ◌≡◌, refl, eq_iff, Bool-cases, inl, inr, Option, ◌&&◌, none, some, String, false, true, arith,
}
use corrobo.Types.{
  ReasonCode, OperationRecord, EffectContract, RecordedReview, ReviewEpisode, Verdict, approved,
  rejected,
}
use corrobo.Runtime.Monad.{Host, World, ◌>>=◌, pure}
use corrobo.Runtime.Frame.{bind_does}
use corrobo.Runtime.Review.{
  attributed_approval, attributed, is_approved, is_reviewer, carries, is_blank,
}
use corrobo.Runtime.Check.{
  ResolvedRequest, unrecorded_approval, approval_problem, verify, verify_again, check_then,
  check_then_attempt, standing_of,
}
use corrobo.Runtime.Quiet.{executions, leaving, safety_now_leaves}
use corrobo.Runtime.Quiet.Once.{Quiet}
use corrobo.Runtime.Quiet.Attempting.{act_on_review-Quiet}

-- `a` is on record and approves the operation in its review `e`.
abbrev pub CurrentApproval : OperationRecord → RecordedReview → ReviewEpisode → String → Type 0
CurrentApproval r a e reviewer =
    (r.review ≡ some a)
    × (r.review_episode ≡ some e)
    × (a.decision ≡ approved)
    × (a.reviewer ≡ some reviewer)
    × (is_blank reviewer ≡ false)
    × (a.review_token ≡ some e.token)

current_of :
    (d : Verdict) (reviewer token : Option String) (e : Option ReviewEpisode)
    → is_approved d && (is_reviewer reviewer && carries token e) ≡ true
    → (e' : ReviewEpisode) × (name : String) × (e ≡ some e')
      × (d ≡ approved)
      × (reviewer ≡ some name)
      × (is_blank name ≡ false)
      × (token ≡ some e'.token)
current_of approved (some name) (some t) (some e) h =
    (e, name, refl, refl, refl, ground arith, ground (arith, eq_iff t e.token))
current_of approved none t e h = absurd (ground arith)
current_of rejected reviewer t e h = absurd (ground arith)
current_of approved (some name) none e h = absurd (ground arith)
current_of approved (some name) (some t) none h = absurd (ground arith)

attributed-none :
    (o : Option RecordedReview) (e : Option ReviewEpisode)
    → ((a : RecordedReview) (e' : ReviewEpisode) (name : String)
        → ¬ (
            (o ≡ some a)
            × (e ≡ some e')
            × (a.decision ≡ approved)
            × (a.reviewer ≡ some name)
            × (is_blank name ≡ false)
            × (a.review_token ≡ some e'.token)))
    → attributed o e ≡ none
attributed-none none e h = refl
attributed-none (some a) e h =
    elim (Bool-cases
      (is_approved a.decision && (is_reviewer a.reviewer && carries a.review_token e))) [
        | inl current ↦
            let q = current_of a.decision a.reviewer a.review_token e current in
            absurd (h a q.0 q.1 (refl, q.2, q.3, q.4, q.5, q.6))
        | inr other ↦ rw other refl
      ]

no-CurrentApproval :
    (r : OperationRecord)
    → ((a : RecordedReview) (e : ReviewEpisode) (reviewer : String)
        → ¬ CurrentApproval r a e reviewer)
    → attributed_approval r ≡ none
unfolding attributed_approval
no-CurrentApproval r h = attributed-none r.review r.review_episode h

module _ {S : Type 0} (h : Host S) (c : EffectContract) where
  check_then-Quiet :
      (r : OperationRecord) (request : ResolvedRequest)
      → Quiet (check_then h c r request unrecorded_approval)
  unfolding check_then approval_problem verify verify_again ◌>>=◌ pure
  check_then-Quiet r request =
      bind_does (leaving executions) (safety_now_leaves h executions) (λ now.
        bind_does (leaving executions) (safety_now_leaves h executions)
          (λ checked_at. act_on_review-Quiet h c r request unrecorded_approval _ checked_at))

  check_then_attempt-Quiet :
      (r : OperationRecord) (request : ResolvedRequest)
      → standing_of r ≡ unrecorded_approval
      → Quiet (check_then_attempt h c r request)
  unfolding check_then_attempt
  check_then_attempt-Quiet r request e = rw e (check_then-Quiet r request)

  -- For an operation whose record has a review reason, so that it has been in review, `checkThenAttempt`,
  -- through which every attempt is made, executes nothing if the decision on record is not an approval
  -- that names a reviewer and carries the token of the review episode on record.
  pub unapproved_executes_nothing :
      (r : OperationRecord) (request : ResolvedRequest) (reason : ReasonCode) (w : World S)
      → r.review_reason ≡ some reason
      → ((a : RecordedReview) (e : ReviewEpisode) (reviewer : String)
          → ¬ CurrentApproval r a e reviewer)
      → executions (check_then_attempt h c r request w).1.calls ≡ executions w.calls
  unfolding standing_of
  unapproved_executes_nothing r request reason w reviewed unapproved =
      ((check_then_attempt-Quiet r request (rw (reviewed, no-CurrentApproval r unapproved) refl)).at
        w tt).0
