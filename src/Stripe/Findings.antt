-- ===== src/Stripe/Findings.antt =====
-- examples/stripe-refund/contract.ts: what the evidence of a listing says of the charge's refunds.
use corrobo.Base.{
  ℕ, ◌≡◌, refl, String, Bool, true, false, Option, none, some, List, arith, Bool-cases, ◌⊎◌, inl,
  inr,
}
use corrobo.Types.{EvidenceState, applied, not_applied}
use corrobo.Stripe.Client.{
  RefundIntent, RefundStatus, pending, requires_action, succeeded, failed, canceled, RefundLike,
  Reply, replied, raised, StripeClientLike, is_conflict_code,
}
use corrobo.Stripe.Contract.{
  responded, rejected, Transport, delivered, undelivered, Observation, is_labeled, is_unlabeled,
  Found, from_pages, rejection_code, observe_listed, observe, reconcile, observation_from_refund,
  read_pages, max_list_pages,
}
use corrobo.Stripe.Listing.{Lacks, Has, ListLaws, Says, Reads, read_pages-Reads}

-- Whether `observe` looks through the pages.
abbrev pub is_listed : Transport → Bool
is_listed (delivered (responded refund_id status)) = false
is_listed _ = true

abbrev pub IsOver : RefundStatus → Type 0
IsOver st = (st ≡ failed) ⊎ (st ≡ canceled)

module _ (intent : RefundIntent) (id : String) (refunds : List RefundLike) where
  -- One of the refunds, that carries the operation's label.
  abbrev pub Ours : (RefundStatus → Type 0) → Type 0
  Ours P = (r : RefundLike) × Has r refunds × (is_labeled id r ≡ true) × P r.status

  abbrev pub NoneOurs : Type 0
  NoneOurs = Lacks (is_labeled id) refunds × Lacks (is_unlabeled intent.amount_cents) refunds

  -- What an evidence state says of them.
  abbrev pub Tells : EvidenceState → Type 0
  Tells applied = Ours (λ st. st ≡ succeeded)
  Tells not_applied = NoneOurs ⊎ Ours IsOver
  Tells EvidenceState.pending = Ours (λ st. (st ≡ pending) ⊎ (st ≡ requires_action))
  Tells _ = Unit

  ours-Tells :
      (now : ℕ) (r : RefundLike)
      → Has r refunds
      → is_labeled id r ≡ true
      → (st : RefundStatus) → r.status ≡ st
      → Tells (reconcile (observation_from_refund now (record r { status = st }))).evidence_state
  unfolding reconcile observation_from_refund
  ours-Tells now r has is pending e = (r, has, is, inl e)
  ours-Tells now r has is requires_action e = (r, has, is, inr e)
  ours-Tells now r has is succeeded e = (r, has, is, e)
  ours-Tells now r has is failed e = inr (r, has, is, inl e)
  ours-Tells now r has is canceled e = inr (r, has, is, inr e)

  absent-Tells :
      (t : Transport) (now : ℕ) (unlabeled : Option RefundLike)
      → Lacks (is_labeled id) refunds
      → (unlabeled ≡ none → Lacks (is_unlabeled intent.amount_cents) refunds)
      → Tells
          (reconcile (
            from_pages now t
              (record { ours = none; unlabeled_same_amount = unlabeled }))).evidence_state
  unfolding reconcile is_conflict_code
  absent-Tells t now (some r) lacks seen = tt
  absent-Tells t now none lacks seen = elim (Bool-cases (is_conflict_code (rejection_code t))) [
    | inl e ↦ rw e tt
    | inr e ↦ rw e (inl (lacks, seen refl))
  ]

  found-Tells :
      (t : Transport) (now : ℕ) (ours unlabeled : Option RefundLike)
      → Says intent id none refunds ours unlabeled
      → Tells
          (reconcile (
            from_pages now t
              (record { ours = ours; unlabeled_same_amount = unlabeled }))).evidence_state
  found-Tells t now (some r) unlabeled (is, has) = ours-Tells now r has is r.status refl
  found-Tells t now none unlabeled (lacks, seen) =
      absent-Tells t now unlabeled lacks (λ e. (seen e).1)

abbrev pub ReplyTells :
    {S : Type 0} → RefundIntent → String → List RefundLike → Reply Observation × S → Type 0
ReplyTells intent id refunds (raised e, s) = Unit
ReplyTells intent id refunds (replied o, s) = Tells intent id refunds (reconcile o).evidence_state

module _ {S : Type 0} (client : StripeClientLike S) (laws : ListLaws client) (intent : RefundIntent)
    (id : String) (now : ℕ) (t : Transport) where
  observe_listed-ReplyTells :
      (refunds : List RefundLike) (p : Reply Found × S)
      → Reads client laws intent id none refunds p
      → ReplyTells intent id refunds (observe_listed client intent id now t p)
  observe_listed-ReplyTells refunds (raised e, s) h = tt
  observe_listed-ReplyTells refunds (replied f, s) h =
      found-Tells intent id refunds t now f.ours f.unlabeled_same_amount h

  listed-ReplyTells :
      (s : S)
      → ReplyTells intent id (laws.following s intent.charge_id none) (
          observe_listed client intent id now t
            (read_pages client intent id max_list_pages none none s))
  listed-ReplyTells s =
      observe_listed-ReplyTells _ _
        (read_pages-Reads client laws intent id max_list_pages none none s)

-- An observation from the pages of a charge's refunds, for an operation whose `execute` has not returned
-- a refund, is reconciled with what the charge's refunds are, for a list endpoint that does as
-- documented: as not applied only if no refund carries the operation's label and no refund of its amount
-- is without one, or the operation's own refund has failed or was canceled; as applied only if the
-- operation's own refund has succeeded; as pending only if that refund is on its way.
pub observed_evidence_holds :
    {S : Type 0} (client : StripeClientLike S) (laws : ListLaws client) (intent : RefundIntent)
    (id : String) (now : ℕ) (t : Transport) (s : S)
    → is_listed t ≡ true
    → ReplyTells intent id
        (laws.following s intent.charge_id none)
        (observe client intent id now t s)
unfolding observe
observed_evidence_holds client laws intent id now (delivered (responded r st)) s listed =
    absurd (ground arith)
observed_evidence_holds client laws intent id now (delivered (rejected code message)) s listed =
    listed-ReplyTells client laws intent id now (delivered (rejected code message)) s
observed_evidence_holds client laws intent id now undelivered s listed =
    listed-ReplyTells client laws intent id now undelivered s
