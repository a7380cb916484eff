-- ===== src/Memory/Clone.antt =====
-- src/stores/memory.ts `cloneRecord`. Values of the model cannot be mutated, so a copy is the record
-- itself; what is left of it is that copying may throw. `StructuredClone` stands for structuredClone():
-- what it throws at a record, if it cannot copy it.
use corrobo.Base.{
  ◌≡◌, ◌⊎◌, inl, inr, refl, Bool, Option, none, some, List, [], ◌∷◌, if◌then◌else◌, str_eq,
}
use corrobo.Value.{Value, Number, set_field, has_field, lookup}
use corrobo.Types.{
  TransportOutcome, responded, transport_error, AttemptRecord, reserved, resolved, OperationRecord,
}
use corrobo.Fault.{Fault, Outcome, ok, thrown, store_failure}

abbrev pub StructuredClone : Type 0
StructuredClone = OperationRecord → Option Value

-- `stash`: a number, which can always be copied, in place of `raw`.
abbrev stand_in : Value
stand_in = Value.number (Number.whole 0)

abbrev stash_error : Value → Value
stash_error (Value.object fs) =
    if has_field "raw" fs then Value.object (set_field "raw" stand_in fs) else Value.object fs
stash_error v = v

abbrev is_failure : Value → Bool
is_failure (Value.text s) = str_eq s "observation_failed"
is_failure _ = Bool.false

abbrev stash_observation : Value → Value
stash_observation (Value.object fs) =
    if is_failure (lookup "status" fs)
    then Value.object (set_field "error" (stash_error (lookup "error" fs)) fs)
    else Value.object fs
stash_observation v = v

stash_observations : List Value → List Value
stash_observations [] = []
stash_observations (o ∷ os) = stash_observation o ∷ stash_observations os

abbrev stash_transport : TransportOutcome → TransportOutcome
stash_transport (responded v) = responded v
stash_transport (transport_error m none) = transport_error m none
stash_transport (transport_error m (some _)) = transport_error m (some stand_in)

stash_attempt : AttemptRecord → AttemptRecord
unfolding stash_observations
stash_attempt (reserved a) = reserved a
stash_attempt (resolved a) = resolved (record a {
  transport = stash_transport a.transport;
  observations = stash_observations a.observations;
})

stash_attempts : List AttemptRecord → List AttemptRecord
unfolding stash_attempt
stash_attempts [] = []
stash_attempts (a ∷ rest) = stash_attempt a ∷ stash_attempts rest

-- What structuredClone() is given: the record without the values that were thrown.
unfoldable pub without_raw : OperationRecord → OperationRecord
unfolding stash_attempts
without_raw r = record r { attempts = stash_attempts r.attempts }

abbrev copied : Option Value → OperationRecord → Outcome OperationRecord
copied none r = ok r
copied (some e) r = thrown (store_failure e)

-- `cloneRecord`: the thrown values are put back by reference.
unfoldable pub clone_record : StructuredClone → OperationRecord → Outcome OperationRecord
unfolding without_raw
clone_record clone r = copied (clone (without_raw r)) r

copied-cases :
    (o : Option Value) (r : OperationRecord)
    → (copied o r ≡ ok r) ⊎ ((f : Fault) × (copied o r ≡ thrown f))
copied-cases none r = inl refl
copied-cases (some e) r = inr (store_failure e, refl)

-- A copy is the record that it was made of, or there is none.
pub clone_record-cases :
    (clone : StructuredClone) (r : OperationRecord)
    → (clone_record clone r ≡ ok r) ⊎ ((f : Fault) × (clone_record clone r ≡ thrown f))
unfolding clone_record
clone_record-cases clone r = copied-cases (clone (without_raw r)) r
