-- ===== src/Postgres/Jsonb.antt =====
-- src/stores/postgres.ts: what is written of an attempt. `sanitizeAttemptForPersistence` drops the raw
-- error objects, `jsonbText` the characters that `jsonb` rejects.
use corrobo.Base.{String, ◌==◌, none, if◌then◌else◌, str_eq, Bool, false}
use Prim.Native.Char.{Char, code}
use corrobo.Value.{
  Value, Values, nil, cons, Fields, field, end, Read, threw, got, get, lookup, has_field,
  remove_field, Stored, json,
}
use corrobo.Types.{TransportOutcome, responded, transport_error}

-- A text of the model has no unpaired surrogates, so U+0000 alone is unsafe.
abbrev pub safe_char : Char → Char
safe_char c = if code c == 0 then "�" else c

-- `jsonbSafe`
unfoldable pub jsonb_safe : String → String
jsonb_safe String.[] = String.[]
jsonb_safe (String.◌∷◌ c s) = String.◌∷◌ (safe_char c) (jsonb_safe s)

-- A property in front of others, as `Object.fromEntries` takes two of the same key: the place of the
-- first, the value of the last.
unfoldable pub front : String → Value → Fields → Fields
unfolding lookup has_field remove_field
front k v fs = if has_field k fs then field k (lookup k fs) (remove_field k fs) else field k v fs

-- The replacer of `jsonbText`, all the way down.
unfoldable mutual
  unfolding jsonb_safe front

  pub safe_value : Value → Value
  safe_value (Value.text s) = Value.text (jsonb_safe s)
  safe_value (Value.array vs) = Value.array (safe_elements vs)
  safe_value (Value.object fs) = Value.object (safe_fields fs)
  safe_value Value.undefined = Value.undefined
  safe_value Value.null = Value.null
  safe_value (Value.boolean b) = Value.boolean b
  safe_value (Value.number n) = Value.number n
  safe_value Value.callable = Value.callable
  safe_value Value.bigint = Value.bigint
  safe_value Value.cyclic = Value.cyclic
  safe_value Value.unreadable = Value.unreadable
  safe_value Value.collection = Value.collection
  safe_value (Value.error m) = Value.error m

  pub safe_elements : Values → Values
  safe_elements nil = nil
  safe_elements (cons v vs) = cons (safe_value v) (safe_elements vs)

  pub safe_fields : Fields → Fields
  safe_fields end = end
  safe_fields (field k v fs) = front (jsonb_safe k) (safe_value v) (safe_fields fs)

-- `jsonbText`, by the value that its text stands for.
unfoldable pub jsonb_text : Value → Stored
unfolding safe_value json
jsonb_text v = json (safe_value v)

-- `sanitizeTransportForPersistence`
unfoldable pub sanitize_transport : TransportOutcome → TransportOutcome
sanitize_transport (responded v) = responded v
sanitize_transport (transport_error m raw) = transport_error m none

abbrev pub read_or_undefined : Read → Value
read_or_undefined threw = Value.undefined
read_or_undefined (got v) = v

abbrev pub is_failed : Value → Bool
is_failed (Value.text s) = str_eq s "observation_failed"
is_failed _ = false

unfoldable pub sanitized_failure : Fields → Value
unfolding get lookup
sanitized_failure fs = Value.object (
    field "status" (Value.text "observation_failed") (
      field "error"
        (Value.object (field "message" (read_or_undefined (get (lookup "error" fs) "message")) end))
        (field "source" (lookup "source" fs) (field "observedAt" (lookup "observedAt" fs) end))))

-- `sanitizeObservationForPersistence`
unfoldable pub sanitize_observation : Value → Value
unfolding sanitized_failure lookup
sanitize_observation (Value.object fs) =
    if is_failed (lookup "status" fs) then sanitized_failure fs else Value.object fs
sanitize_observation v = v
