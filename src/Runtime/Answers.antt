-- ===== src/Runtime/Answers.antt =====
-- src/core/runtime.ts: what the runtime makes of the value that a hook returned. Any shape may come
-- back; each property is read once, and reading may throw.
use corrobo.Base.{
  Bool, true, false, ◌&&◌, ◌||◌, Option, none, some, List, [], ◌∷◌, if◌then◌else◌, str_eq,
}
use corrobo.Value.{
  Value, Fields, field, end, Read, threw, got, get, lookup, has_field, remove_field, set_field,
  is_object_type, json_copy, Values, nil, cons,
}
use corrobo.Types.{
  EvidenceState, applied, not_applied, conflicted, pending, unknown, ReasonCode, Piece, words,
  CheckOutcome, proceed, requires_review, reject,
}
use corrobo.Fault.{Outcome, ok, thrown, type_error, invalid_authorization}

-- `storableReason`: reading threw, it is no reason, or the reason as plain data.
pub data ReasonRead : Type 0 where
  unreadable_reason : ReasonRead
  not_a_reason : ReasonRead
  storable : ReasonCode → ReasonRead

unstorable_note : Value
unstorable_note = Value.object (
    field "unstorable"
      (Value.text "this reason's metadata can't be stored as a JSON object, so it was left out")
      end)

stored_metadata : Value → Option Value
unfolding json_copy unstorable_note
stored_metadata Value.undefined = none
stored_metadata v = elim (json_copy v) [
  | some (Value.object fs) ↦ some (Value.object fs)
  | _ ↦ some unstorable_note
]

reason_from : Read → Read → Read → ReasonRead
unfolding stored_metadata
reason_from (got (Value.text c)) (got (Value.text s)) (got m) =
    storable (record { code = c; summary = words s ∷ []; metadata = stored_metadata m })
reason_from (got _) (got _) (got _) = not_a_reason
reason_from _ _ _ = unreadable_reason

unfoldable pub storable_reason : Value → ReasonRead
unfolding reason_from get
storable_reason v =
    if is_object_type v
    then reason_from (get v "code") (get v "summary") (get v "metadata")
    else not_a_reason

-- An optional reason: absent, present and storable, or not acceptable.
pub data OptionalReason : Type 0 where
  no_reason : OptionalReason
  bad_reason : OptionalReason
  unreadable : OptionalReason
  some_reason : ReasonCode → OptionalReason

accepted : ReasonRead → OptionalReason
accepted unreadable_reason = unreadable
accepted not_a_reason = bad_reason
accepted (storable r) = some_reason r

unfoldable pub optional_reason : Read → OptionalReason
unfolding accepted storable_reason
optional_reason threw = unreadable
optional_reason (got Value.undefined) = no_reason
optional_reason (got v) = accepted (storable_reason v)

pub record Authorization : Type 0 where
  pub needs_review : Bool
  pub reason : Option ReasonCode

authorization_from : Read → OptionalReason → Outcome Authorization
authorization_from (got (Value.boolean b)) no_reason =
    ok (record { needs_review = b; reason = none })
authorization_from (got (Value.boolean b)) (some_reason r) =
    ok (record { needs_review = b; reason = some r })
authorization_from _ _ = thrown (type_error invalid_authorization)

-- `validAuthorization`
unfoldable pub valid_authorization : Value → Outcome Authorization
unfolding authorization_from optional_reason get
valid_authorization v =
    if is_object_type v
    then authorization_from (get v "requiresReview") (optional_reason (get v "reason"))
    else thrown (type_error invalid_authorization)

unfoldable pub evidence_state_of : Read → Option EvidenceState
evidence_state_of (got (Value.text s)) =
    if str_eq s "APPLIED"
    then some applied
    else if str_eq s "NOT_APPLIED"
    then some not_applied
    else if str_eq s "CONFLICTED"
    then some conflicted
    else if str_eq s "PENDING"
    then some pending
    else if str_eq s "UNKNOWN"
    then some unknown
    else none
evidence_state_of _ = none

pub record Reconciliation : Type 0 where
  pub evidence_state : EvidenceState
  pub reason : ReasonCode
  pub observed_effect : Value

unfoldable pub reconcile_failed : List Piece → Reconciliation
reconcile_failed summary = record {
  evidence_state = unknown;
  reason = record { code = "RECONCILE_FAILED"; summary = summary; metadata = none };
  observed_effect = Value.undefined;
}

-- What reconcile() answered: a reconciliation, a throw while it was read, or none.
pub data ReconcileRead : Type 0 where
  reconcile_threw : ReconcileRead
  not_a_reconciliation : ReconcileRead
  reconciliation : Reconciliation → ReconcileRead

reconciliation_from : Option EvidenceState → ReasonRead → Value → ReconcileRead
reconciliation_from _ unreadable_reason e = reconcile_threw
reconciliation_from (some st) (storable r) e =
    reconciliation (record { evidence_state = st; reason = r; observed_effect = e })
reconciliation_from _ _ e = not_a_reconciliation

reconciliation_reads : Read → Read → Read → ReconcileRead
unfolding reconciliation_from evidence_state_of storable_reason
reconciliation_reads (got st) (got r) (got e) =
    reconciliation_from (evidence_state_of (got st)) (storable_reason r) e
reconciliation_reads _ _ _ = reconcile_threw

unfoldable pub read_reconciliation : Value → ReconcileRead
unfolding reconciliation_reads get
read_reconciliation v =
    reconciliation_reads (get v "evidenceState") (get v "reason") (get v "observedEffect")

-- `isObservation`
unfoldable pub is_observation : Value → Bool
unfolding lookup
is_observation (Value.object fs) = elim (lookup "status" fs) [
  | Value.text s ↦
      str_eq s "observed"
      || str_eq s "pending"
      || str_eq s "observation_failed" && elim (lookup "error" fs) [
        | Value.object e ↦ elim (lookup "message" e) [ Value.text _ ↦ true | _ ↦ false ]
        | Value.error _ ↦ true
        | _ ↦ false
      ]
  | _ ↦ false
]
is_observation _ = false

-- A structured clone throws at a function, and at a property that throws; `JSON.stringify` throws
-- at a BigInt and at a cycle.
unfoldable mutual
  pub is_copyable : Value → Bool
  is_copyable Value.callable = false
  is_copyable Value.unreadable = false
  is_copyable Value.bigint = false
  is_copyable Value.cyclic = false
  is_copyable (Value.array vs) = are_copyable vs
  is_copyable (Value.object fs) = have_copyable fs
  is_copyable _ = true

  pub are_copyable : Values → Bool
  are_copyable nil = true
  are_copyable (cons v vs) = is_copyable v && are_copyable vs

  pub have_copyable : Fields → Bool
  have_copyable end = true
  have_copyable (field k v fs) = is_copyable v && have_copyable fs

-- `snapshotObservation`: what to store, and an `error.raw` set aside; reading may throw.
pub record Snapshot : Type 0 where
  pub stored : Value
  pub raw : Option Value

snapshot_error : Fields → Value → Option Snapshot
unfolding has_field lookup remove_field set_field
snapshot_error top Value.unreadable = none
snapshot_error top (Value.error m) = some (record {
  stored = Value.object (set_field "error" (Value.object (field "message" (Value.text m) end)) top);
  raw = none;
})
snapshot_error top (Value.object e) =
    let e' = set_field "message" (lookup "message" e) e in
    some (record {
      stored = Value.object (set_field "error" (Value.object (remove_field "raw" e')) top);
      raw = if has_field "raw" e then some (lookup "raw" e) else none;
    })
snapshot_error top _ = some (record { stored = Value.object top; raw = none })

unfoldable pub snapshot_observation : Value → Option Snapshot
unfolding snapshot_error
snapshot_observation Value.unreadable = none
snapshot_observation (Value.object fs) = snapshot_error fs (lookup "error" fs)
snapshot_observation v = some (record { stored = v; raw = none })

-- `stored.error.raw = raw.value`
unfoldable pub with_raw : Option Value → Value → Value
unfolding lookup set_field
with_raw (some r) (Value.object fs) = elim (lookup "error" fs) [
  | Value.object e ↦ Value.object (set_field "error" (Value.object (set_field "raw" r e)) fs)
  | _ ↦ Value.object fs
]
with_raw _ v = v

-- The decision of revalidate(), if it is one.
unfoldable pub decision_of : Read → Option CheckOutcome
decision_of (got (Value.text s)) =
    if str_eq s "proceed"
    then some proceed
    else if str_eq s "requiresReview"
    then some requires_review
    else if str_eq s "reject"
    then some reject
    else none
decision_of _ = none
