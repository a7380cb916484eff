-- ===== src/Runtime/Decision/Tokens.antt =====
-- src/core/runtime.ts `reviewEffect`: which decisions are accepted.
use corrobo.Base.{ℕ, ◌≤◌, ◌↔◌, refl, Option, ◌≡◌, ◌≢◌, none, some, eq_iff, arith}
use corrobo.Types.{OperationRecord, RecordedReview, ReviewDecision}
use corrobo.Runtime.Review.{open_review}
use corrobo.Types.{OperationStatus, awaiting_review, opened, closed, ReviewEpisode}
use corrobo.Runtime.Decision.{refusal_of_review, refusal_at, refusal_of}

-- A decision with the token that the decision on record has answered is refused, whatever state the
-- operation is in.
pub spent_token_refused :
    (r : OperationRecord) (review : RecordedReview) (d : ReviewDecision)
    → r.review ≡ some review
    → review.review_token ≡ some d.review_token
    → refusal_of r d ≢ none
unfolding refusal_of open_review
spent_token_refused r review d on_record used accepted =
    ground (arith, eq_iff d.review_token d.review_token)

-- Not decided before a time, as far as the decision says when.
abbrev pub IsSince : Option ℕ → ℕ → Type 0
IsSince none opened_at = Unit
IsSince (some t) opened_at = opened_at ≤ t

accepted_at :
    (o : Option ReviewEpisode) (d : ReviewDecision)
    → (refusal_of_review o d ≡ none)
      ↔ (e : ReviewEpisode) × (o ≡ some e)
        × (d.review_token ≡ e.token)
        × IsSince d.decided_at e.opened_at
accepted_at none d = (λ h. absurd (ground arith), λ (e, q, same, since). absurd (ground arith))
accepted_at (some e) d = (
  λ h. (
    e,
    refl,
    ground (arith, eq_iff d.review_token e.token),
    ground (arith, eq_iff d.review_token e.token),
  ),
  λ (e', q, same, since). ground (arith, eq_iff d.review_token e.token),
)

-- A decision is not refused exactly when the operation awaits a review, a review is open, the decision
-- carries that review's token and does not say that it was made before the review was opened.
pub refusal_of_accepts :
    (r : OperationRecord) (d : ReviewDecision)
    → (refusal_of r d ≡ none)
      ↔ (r.status ≡ awaiting_review)
        × (e : ReviewEpisode) × (open_review r ≡ some e)
        × (d.review_token ≡ e.token)
        × IsSince d.decided_at e.opened_at
unfolding refusal_of
refusal_of_accepts r d = split r.status (open_review r)
  where
    split :
        (st : OperationStatus) (o : Option ReviewEpisode)
        → (refusal_at st o d ≡ none)
          ↔ (st ≡ awaiting_review)
            × (e : ReviewEpisode) × (o ≡ some e)
            × (d.review_token ≡ e.token)
            × IsSince d.decided_at e.opened_at
    split awaiting_review o = (
      λ h. let (e, q, same, since) = (accepted_at o d).0 h in (refl, e, q, same, since),
      λ (waiting, e, q, same, since). (accepted_at o d).1 (e, q, same, since),
    )
    split opened o = (λ h. absurd (ground arith), λ h. absurd (ground arith))
    split closed o = (λ h. absurd (ground arith), λ h. absurd (ground arith))
