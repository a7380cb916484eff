-- ===== src/Runtime/Review.antt =====
-- src/core/runtime.ts: reviews and approvals. Which review is open, when an approval stops counting,
-- and how a new review begins.
use Prim.Native.String
pub mod Approvals
use corrobo.Base.{
  ℕ, ◌+◌, String, Bool, true, false, ◌&&◌, ◌||◌, not, ◌==◌, Option, none, some, [], ◌∷◌, min, ltb,
  leb, if◌then◌else◌, str_eq,
}
use Prim.Native.Char.{code}
use corrobo.Fault.{Outcome, ok, thrown, range_error}
use corrobo.Text.{is_date, to_iso_string, ◌++◌, decimal}
use corrobo.Value.{Value, nil, cons, Number, field, end}
use corrobo.Types.{
  OperationStatus, awaiting_review, OperationIdentity, ReasonCode, words, time, Verdict, approved,
  rejected, RecordedReview, ReviewEpisode, OperationRecord,
}
use corrobo.Fingerprint.{stringify}
use corrobo.Store.{Patch, keep, clear}
use corrobo.Runtime.Monad.{Host, Action, pure, ◌>>=◌, safety_now, random_nonce}

-- A recorded decision answers the review that carries `token`: by that token, or, if it is one that
-- corrobo 0.4.0 recorded without any, because it was written after the review opened.
abbrev pub answers : String → Option RecordedReview → Bool
answers token none = false
answers token (some r) = elim r.review_token [ some t ↦ str_eq t token | none ↦ true ]

abbrev is_awaiting : OperationStatus → Bool
is_awaiting awaiting_review = true
is_awaiting _ = false

abbrev unanswered : Option RecordedReview → Option ReviewEpisode → Option ReviewEpisode
unanswered review none = none
unanswered review (some e) = if answers e.token review then none else some e

-- `openReview`: the review that a decision can answer right now.
unfoldable pub open_review : OperationRecord → Option ReviewEpisode
open_review r = if is_awaiting r.status then unanswered r.review r.review_episode else none

abbrev token_of : Option ReviewEpisode → Option String
token_of none = none
token_of (some e) = some e.token

-- `currentReviewToken`
unfoldable pub current_review_token : OperationRecord → Option String
unfolding open_review
current_review_token r = token_of (open_review r)

abbrev next_generation : Option ReviewEpisode → ℕ
next_generation none = 1
next_generation (some e) = e.generation + 1

-- A decision on record that carries no token moves into the new review.
abbrev superseded : Option RecordedReview → Option RecordedReview
superseded none = none
superseded (some r) = elim r.review_token [ some _ ↦ none | none ↦ some r ]

-- `reviewEpisodeUpdate`: the review that a new episode leaves on record.
unfoldable pub review_patch : ReviewEpisode → Patch RecordedReview
review_patch e = elim e.superseded_decision [ some _ ↦ clear | none ↦ keep ]

-- What an approval's expiry is due to.
pub data Because : Type 0 where
  its_expires_at : Because
  max_approval_age : ℕ → Because

pub record Expiry : Type 0 where
  pub at : ℕ
  pub because : Because

by_max_age : Option ℕ → ℕ → ℕ → Option Expiry
by_max_age none decided_at recorded_at = none
by_max_age (some age) decided_at recorded_at =
    some (record { at = min decided_at recorded_at + age; because = max_approval_age age })

by_expires_at : Option ℕ → Option Expiry
by_expires_at none = none
by_expires_at (some t) = some (record { at = t; because = its_expires_at })

-- The earlier candidate, and the first of two that fall together.
earlier : Option Expiry → Option Expiry → Option Expiry
earlier none b = b
earlier (some a) none = some a
earlier (some a) (some b) = if ltb b.at a.at then some b else some a

-- `new Date(first.at).toISOString()`
abbrev dated : Option Expiry → Outcome (Option Expiry)
dated none = ok none
dated (some e) = if is_date e.at then ok (some e) else thrown range_error

-- `approvalExpiry`: of `expiresAt`, `decidedAt` and `recordedAt`, under `maxApprovalAgeMs`.
unfoldable pub approval_expiry : Option ℕ → Option ℕ → ℕ → ℕ → Outcome (Option Expiry)
unfolding by_max_age by_expires_at earlier
approval_expiry max_age expires_at decided_at recorded_at =
    dated (earlier (by_expires_at expires_at) (by_max_age max_age decided_at recorded_at))

because_text : Because → String
unfolding decimal
because_text its_expires_at = "its expiresAt"
because_text (max_approval_age n) = "the contract's maxApprovalAgeMs of " ++ decimal n

pub approval_intent_mismatch : ReasonCode
approval_intent_mismatch = record {
  code = "APPROVAL_INTENT_MISMATCH";
  summary =
      words
        "The recorded approval was given for a different intent than the one recorded for this operation. It needs a new review."
      ∷ [];
  metadata = none;
}

pub approval_not_recorded : ReasonCode
approval_not_recorded = record {
  code = "APPROVAL_NOT_RECORDED";
  summary =
      words
        "This operation was approved before corrobo recorded review decisions (0.3.x), so there is no record of who approved what. Nothing was executed; it needs a new review."
      ∷ [];
  metadata = none;
}

pub approval_expired : Expiry → ReasonCode
unfolding because_text to_iso_string
approval_expired e = record {
  code = "APPROVAL_EXPIRED";
  summary =
      words "The approval expired at "
      ∷ time e.at
      ∷ words " ("
      ∷ words (because_text e.because)
      ∷ words "), before this attempt. Nothing was executed; it needs a new review."
      ∷ [];
  metadata = some (
      Value.object (
        field "expiresAt" (Value.text (to_iso_string e.at))
          (field "because" (Value.text (because_text e.because)) end)));
}

abbrev expired_by : Outcome (Option Expiry) → ℕ → Outcome (Option ReasonCode)
expired_by (thrown f) now = thrown f
expired_by (ok none) now = ok none
expired_by (ok (some e)) now = ok (if leb e.at now then some (approval_expired e) else none)

-- `checkApproval`, once the recorded intent has its fingerprint: what is wrong with the approval.
unfoldable pub check_approval : Option ℕ → String → RecordedReview → ℕ → Outcome (Option ReasonCode)
unfolding approval_expiry
check_approval max_age fingerprint a now =
    if str_eq fingerprint a.intent_fingerprint
    then expired_by (approval_expiry max_age a.expires_at a.decided_at a.recorded_at) now
    else ok (some approval_intent_mismatch)

abbrev is_space : ℕ → Bool
is_space n =
    leb 9 n && leb n 13
    || leb 8192 n && leb n 8202
    || leb 8232 n && leb n 8233
    || n == 32
    || n == 160
    || n == 5760
    || n == 8239
    || n == 8287
    || n == 12288
    || n == 65279

-- `s.trim() === ""`
unfoldable pub is_blank : String → Bool
is_blank String.[] = true
is_blank (String.◌∷◌ c s) = is_space (code c) && is_blank s

-- An approval counts with a recorded reviewer, given for the operation's current review.
abbrev pub is_reviewer : Option String → Bool
is_reviewer none = false
is_reviewer (some s) = not (is_blank s)

abbrev pub carries : Option String → Option ReviewEpisode → Bool
carries (some t) (some e) = str_eq t e.token
carries _ _ = false

abbrev pub is_approved : Verdict → Bool
is_approved approved = true
is_approved rejected = false

abbrev pub attributed : Option RecordedReview → Option ReviewEpisode → Option RecordedReview
attributed none e = none
attributed (some r) e =
    if is_approved r.decision && (is_reviewer r.reviewer && carries r.review_token e)
    then some r
    else none

unfoldable pub attributed_approval : OperationRecord → Option RecordedReview
attributed_approval r = attributed r.review r.review_episode

module _ {S : Type 0} (h : Host S) where
  -- `openReviewEpisode`
  unfoldable pub open_review_episode :
      OperationIdentity
      → String
      → Option ReviewEpisode
      → Option RecordedReview
      → Action S ReviewEpisode
  unfolding safety_now random_nonce
  open_review_episode identity fingerprint previous decision_on_record = do
    opened_at ← safety_now h
    nonce ← random_nonce h
    pure (record {
      token =
          String.slice
            (h.sha256_hex (
              stringify (
                Value.array (
                  cons (Value.text identity.operation_type) (
                    cons (Value.text identity.id) (
                      cons (Value.number (Number.whole (next_generation previous))) (
                        cons (Value.text (to_iso_string opened_at))
                          (cons (Value.text fingerprint) (cons (Value.text nonce) nil)))))))))
            0 32;
      generation = next_generation previous;
      opened_at = opened_at;
      superseded_decision = superseded decision_on_record;
    })
