-- ===== src/Runtime/Entry.antt =====
-- src/core/runtime.ts: what `runEffect` asks of a contract and makes of a request.
use corrobo.Base.{String, Bool, true, ◌&&◌, not, Option, none, some, ltb, if◌then◌else◌, str_eq}
use corrobo.Value.{Value, Stored, plain, json}
use corrobo.Types.{
  OperationIdentity, EffectContract, MaxAttempts, limit, unlimited, RequestIdentity, plain_id,
  full_identity,
}
use corrobo.Fingerprint.{materialize_intent, stringify, sort_keys_deep}
use corrobo.Fault.{Outcome, ok, thrown, type_error, unstorable_intent, wrong_operation_type}

-- `validateContract`, for what the types of the model do not rule out.
abbrev is_positive : MaxAttempts → Bool
is_positive (limit n) = ltb 0 n
is_positive unlimited = true

unfoldable pub is_valid_contract : EffectContract → Bool
is_valid_contract c = not (str_eq c.operation_type "") && is_positive c.retry_policy.max_attempts

-- `resolveIdentity`
unfoldable pub resolve_identity : EffectContract → RequestIdentity → Outcome OperationIdentity
resolve_identity c (plain_id id) = ok (record { id = id; operation_type = c.operation_type })
resolve_identity c (full_identity i) =
    if str_eq i.operation_type c.operation_type then ok i else thrown (wrong_operation_type i.id)

-- `PreparedIntent`
pub record PreparedIntent : Type 0 where
  pub stored : Value
  pub fingerprint : Option String

abbrev prepared_custom : Stored → Outcome PreparedIntent
prepared_custom (plain v) = ok (record { stored = v; fingerprint = none })
prepared_custom _ = thrown (type_error unstorable_intent)

abbrev prepared_default : Outcome Value → Outcome PreparedIntent
prepared_default (thrown f) = thrown f
prepared_default (ok v) =
    ok (record { stored = v; fingerprint = some (stringify (sort_keys_deep v)) })

-- `prepareIntent`
unfoldable pub prepare_intent : EffectContract → Value → Outcome PreparedIntent
unfolding json materialize_intent stringify sort_keys_deep
prepare_intent c v = elim c.fingerprint_intent [
  | some _ ↦ prepared_custom (json v)
  | none ↦ prepared_default (materialize_intent v)
]

-- With a custom fingerprint every hook acts on the stored form.
abbrev pub acting_intent : EffectContract → Value → Value → Value
acting_intent c stored own = elim c.fingerprint_intent [ some _ ↦ stored | none ↦ own ]
