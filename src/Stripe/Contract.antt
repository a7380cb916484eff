-- ===== src/Stripe/Contract.antt =====
-- examples/stripe-refund/contract.ts: `createRefundContract`. A hook that works with the client is a
-- function on the remote system's state.
use corrobo.Base.{
  ℕ, zero, suc, leb, ◌==◌, String, Bool, true, false, not, ◌&&◌, ◌||◌, Option, none, some, is_some,
  or_else, List, [], ◌∷◌, get_last?, if◌then◌else◌, str_eq,
}
use corrobo.Text.{◌++◌}
use corrobo.Types.{EvidenceState, applied, not_applied, conflicted, unknown}
use corrobo.Stripe.Client.{
  RefundIntent, RefundStatus, pending, requires_action, succeeded, failed, canceled, RefundLike,
  ClientError, error, no_error, Reply, replied, raised, CreateParams, Page, StripeClientLike,
  is_definite_rejection, is_conflict_code,
}

-- `RefundTransportEvidence`
pub data Evidence : Type 0 where
  responded : (refund_id : String) → RefundStatus → Evidence
  rejected : (code : Option String) (message : String) → Evidence

-- `transport`: `ok` with the evidence, or not.
pub data Transport : Type 0 where
  delivered : Evidence → Transport
  undelivered : Transport

-- `RefundObservationData`, by `exists`
pub data ObservationData : Type 0 where
  present : (refund_id : String) → RefundStatus → (amount : ℕ) → ObservationData
  absent :
      (rejection_code rejection_message unlabeled_same_amount : Option String) → ObservationData

-- An observation; the runtime makes a failed one of what `observe` throws.
pub data Observation : Type 0 where
  observed :
      ObservationData → (authoritative : Bool) (source : String) (observed_at : ℕ) → Observation
  still_pending :
      ObservationData → (authoritative : Bool) (source : String) (observed_at : ℕ) → Observation
  observation_failed : (message : String) → Observation

-- The summary, which is a constant of the code, is left out.
pub record Reconciliation : Type 0 where
  pub evidence_state : EvidenceState
  pub code : String
  pub metadata : List (String × Option String)
  pub observed_effect : Option ObservationData

-- `idempotencyKeyFor`
unfoldable pub idempotency_key_for : String → String
idempotency_key_for operation_id = "refund:" ++ operation_id

abbrev pub max_list_pages : ℕ
max_list_pages = 50

abbrev pub operation_metadata_key : String
operation_metadata_key = "corrobo_operation"

abbrev lookup_text : String → List (String × String) → Option String
lookup_text k [] = none
lookup_text k ((j, v) ∷ kvs) = if str_eq j k then some v else lookup_text k kvs

-- `refund.metadata?.[OPERATION_METADATA_KEY]`
abbrev pub label : RefundLike → Option String
label r = elim r.metadata [ none ↦ none | some kvs ↦ lookup_text operation_metadata_key kvs ]

abbrev pub is_labeled : String → RefundLike → Bool
is_labeled id r = elim (label r) [ none ↦ false | some l ↦ str_eq l id ]

abbrev pub is_unlabeled : ℕ → RefundLike → Bool
is_unlabeled amount r = not (is_some (label r)) && (r.amount == amount)

-- `data.find(p)`
abbrev pub find : (RefundLike → Bool) → List RefundLike → Option RefundLike
find p [] = none
find p (r ∷ rs) = if p r then some r else find p rs

-- An empty text is no cursor.
abbrev pub cursor : Option String → Option String
cursor none = none
cursor (some s) = if str_eq s "" then none else some s

abbrev pub is_empty : List RefundLike → Bool
is_empty [] = true
is_empty (_ ∷ _) = false

abbrev pub last_id : List RefundLike → Option String
last_id rs = elim (get_last? rs) [ none ↦ none | some r ↦ some r.id ]

-- `observationFromRefund`
unfoldable pub observation_from_refund : ℕ → RefundLike → Observation
observation_from_refund now r = elim r.status [
  | pending ↦ still_pending (present r.id r.status r.amount) true "stripe:refunds" now
  | requires_action ↦ still_pending (present r.id r.status r.amount) true "stripe:refunds" now
  | _ ↦ observed (present r.id r.status r.amount) true "stripe:refunds" now
]

-- `authorize`: whether the amount requires a review; without a threshold none does.
unfoldable pub requires_review : Option ℕ → RefundIntent → Bool
requires_review none intent = false
requires_review (some threshold) intent = leb threshold intent.amount_cents

-- What the loop over pages has found: this operation's refund, and one that may be.
pub record Found : Type 0 where
  pub ours : Option RefundLike
  pub unlabeled_same_amount : Option RefundLike

abbrev pub too_many_pages : ClientError
too_many_pages = error none "Error" none "more than 50 pages of refunds"

abbrev pub rejection_code : Transport → Option String
rejection_code (delivered (rejected code message)) = code
rejection_code _ = none

abbrev rejection_message : Transport → Option String
rejection_message (delivered (rejected code message)) = some message
rejection_message _ = none

abbrev id_of : Option RefundLike → Option String
id_of none = none
id_of (some r) = some r.id

-- What is observed from the pages.
abbrev pub from_pages : ℕ → Transport → Found → Observation
from_pages now t f = elim f.ours [
  | some r ↦ observation_from_refund now r
  | none ↦
      observed (absent (rejection_code t) (rejection_message t) (id_of f.unlabeled_same_amount))
        (not (is_some f.unlabeled_same_amount)) "stripe:refunds.list" now
]

module _ {S : Type 0} (client : StripeClientLike S) (intent : RefundIntent) (id : String) where
  -- The rest of the loop's body, once a page has been asked for; `next` goes on from its last refund.
  abbrev pub turn_page :
      Option RefundLike
      → (Option RefundLike → Option String → S → Reply Found × S)
      → Reply Page × S
      → Reply Found × S
  turn_page unlabeled next (raised e, s) = (raised e, s)
  turn_page unlabeled next (replied page, s) =
      let ours = find (is_labeled id) page.data_of in
      let seen = or_else unlabeled (find (is_unlabeled intent.amount_cents) page.data_of) in
      if is_some ours || not page.has_more || is_empty page.data_of
      then (replied (record { ours = ours; unlabeled_same_amount = seen }), s)
      else next seen (last_id page.data_of) s

  -- The loop over pages, with as many left as may still be read.
  unfoldable pub read_pages : ℕ → Option RefundLike → Option String → S → Reply Found × S
  read_pages zero unlabeled after s = (raised too_many_pages, s)
  read_pages (suc left) unlabeled after s =
      turn_page unlabeled (read_pages left)
        (client.list_page intent.charge_id (some 100) (cursor after) s)

  abbrev pub observe_listed : ℕ → Transport → Reply Found × S → Reply Observation × S
  observe_listed now t (raised e, s) = (raised e, s)
  observe_listed now t (replied f, s) = (replied (from_pages now t f), s)

  abbrev pub observe_retrieved : ℕ → Reply RefundLike × S → Reply Observation × S
  observe_retrieved now (raised e, s) = (raised e, s)
  observe_retrieved now (replied r, s) = (replied (observation_from_refund now r), s)

  -- `observe`
  unfoldable pub observe : ℕ → Transport → S → Reply Observation × S
  unfolding read_pages observation_from_refund
  observe now (delivered (responded refund_id status)) s =
      observe_retrieved now (client.retrieve refund_id s)
  observe now (delivered (rejected code message)) s =
      observe_listed now (delivered (rejected code message)) (read_pages max_list_pages none none s)
  observe now undelivered s = observe_listed now undelivered (read_pages max_list_pages none none s)

  abbrev pub refund_params : CreateParams
  refund_params = record {
    charge = intent.charge_id;
    amount = intent.amount_cents;
    reason = intent.reason;
    metadata = some ((operation_metadata_key, id) ∷ []);
  }

  abbrev pub code_of : ClientError → Option String
  code_of (error type name code message) = code
  code_of no_error = none

  abbrev pub message_of : ClientError → String
  message_of (error type name code message) = message
  message_of no_error = ""

  abbrev pub executed : Reply RefundLike × S → Reply Evidence × S
  executed (replied r, s) = (replied (responded r.id r.status), s)
  executed (raised e, s) =
      if is_definite_rejection e
      then (replied (rejected (code_of e) (message_of e)), s)
      else (raised e, s)

  -- `execute`
  unfoldable pub execute : S → Reply Evidence × S
  unfolding idempotency_key_for is_definite_rejection
  execute s = executed (client.create refund_params (idempotency_key_for id) s)

abbrev status_text : RefundStatus → String
status_text pending = "pending"
status_text requires_action = "requires_action"
status_text succeeded = "succeeded"
status_text failed = "failed"
status_text canceled = "canceled"

-- `reconcile`
unfoldable pub reconcile : Observation → Reconciliation
unfolding is_conflict_code
reconcile (observation_failed message) = record {
  evidence_state = unknown;
  code = "READBACK_UNAVAILABLE";
  metadata = ("error", some message) ∷ [];
  observed_effect = none;
}
reconcile (still_pending d authoritative source at) = record {
  evidence_state = EvidenceState.pending;
  code = "AWAITING_CONVERGENCE";
  metadata = [];
  observed_effect = some d;
}
reconcile (observed (absent code message unlabeled) false source at) = record {
  evidence_state = unknown;
  code = "UNLABELED_REFUND_PRESENT";
  metadata = ("refundId", unlabeled) ∷ [];
  observed_effect = none;
}
reconcile (observed (absent code message unlabeled) true source at) =
    if is_conflict_code code
    then record {
      evidence_state = conflicted;
      code = "REFUND_PRECONDITION_CONFLICT";
      metadata = ("stripeCode", code) ∷ [];
      observed_effect = none;
    }
    else record {
      evidence_state = not_applied;
      code = "REFUND_NOT_CREATED";
      metadata = ("stripeCode", code) ∷ [];
      observed_effect = none;
    }
reconcile (observed (present refund_id status amount) authoritative source at) = elim status [
  | succeeded ↦ record {
    evidence_state = applied;
    code = "REFUND_CONFIRMED";
    metadata = [];
    observed_effect = some (present refund_id succeeded amount);
  }
  | st ↦ record {
    evidence_state = not_applied;
    code = "REFUND_TERMINALLY_FAILED";
    metadata = ("stripeStatus", some (status_text st)) ∷ [];
    observed_effect = some (present refund_id st amount);
  }
]
