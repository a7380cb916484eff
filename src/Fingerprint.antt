-- ===== src/Fingerprint.antt =====
-- src/core/fingerprint.ts: the stored form of an intent and the text that identifies it. A value is
-- one that `toJSON()` has been applied to, as `JSON.stringify` does first.
use package.text.Mathlib.Text.{is_le}
use Prim.Native.String.{compare}
use corrobo.Base.{String, Bool, true, false, ◌&&◌, none, some, if◌then◌else◌}
use corrobo.Text.{◌++◌, decimal, quoted}
use corrobo.Value.{
  Value, boolean, number, text, callable, bigint, cyclic, unreadable, collection, array, object,
  Values, nil, cons, Fields, end, field, Number, whole, non_finite, decimal as fraction, Stored,
  plain, json,
}
use corrobo.Types.{EffectContract, FingerprintResult, fingerprint_throws, fingerprint_is}
use corrobo.Fault.{Outcome, ok, thrown, type_error, unstorable_intent, hook_threw}

-- The replacer of `materializeIntent` meets nothing that JSON would lose, mangle or store as
-- something else.
unfoldable mutual
  pub is_faithful : Value → Bool
  is_faithful callable = false
  is_faithful bigint = false
  is_faithful cyclic = false
  is_faithful unreadable = false
  is_faithful collection = false
  is_faithful (array vs) = are_faithful vs
  is_faithful (object fs) = have_faithful fs
  is_faithful _ = true

  pub are_faithful : Values → Bool
  are_faithful nil = true
  are_faithful (cons v vs) = is_faithful v && are_faithful vs

  pub have_faithful : Fields → Bool
  have_faithful end = true
  have_faithful (field k v fs) = is_faithful v && have_faithful fs

abbrev stored_intent : Stored → Outcome Value
stored_intent (plain v) = ok v
stored_intent _ = thrown (type_error unstorable_intent)

unfoldable pub materialize_intent : Value → Outcome Value
unfolding is_faithful json
materialize_intent v =
    if is_faithful v then stored_intent (json v) else thrown (type_error unstorable_intent)

-- `Object.keys(value).sort()` puts a field into its place. JavaScript compares UTF-16 units, the
-- model characters: the order, not which texts are equal, differs beyond the basic plane.
unfoldable pub insert_field : String → Value → Fields → Fields
insert_field k v end = field k v end
insert_field k v (field j w fs) =
    if is_le (compare k j) then field k v (field j w fs) else field j w (insert_field k v fs)

unfoldable mutual
  unfolding insert_field

  pub sort_keys_deep : Value → Value
  sort_keys_deep (array vs) = array (sort_elements vs)
  sort_keys_deep (object fs) = object (sort_fields fs)
  sort_keys_deep v = v

  pub sort_elements : Values → Values
  sort_elements nil = nil
  sort_elements (cons v vs) = cons (sort_keys_deep v) (sort_elements vs)

  pub sort_fields : Fields → Fields
  sort_fields end = end
  sort_fields (field k v fs) = insert_field k (sort_keys_deep v) (sort_fields fs)

abbrev number_text : Number → String
number_text (whole n) = decimal n
number_text non_finite = "null"
number_text (fraction s) = s

-- `JSON.stringify` of plain JSON data.
unfoldable mutual
  unfolding decimal quoted

  pub stringify : Value → String
  stringify (boolean b) = if b then "true" else "false"
  stringify (number n) = number_text n
  stringify (text s) = quoted s
  stringify (array nil) = "[]"
  stringify (array (cons v vs)) = "[" ++ stringify v ++ stringify_elements vs
  stringify (object end) = "{}"
  stringify (object (field k v fs)) = "{" ++ quoted k ++ ":" ++ stringify v ++ stringify_fields fs
  stringify _ = "null"

  pub stringify_elements : Values → String
  stringify_elements nil = "]"
  stringify_elements (cons v vs) = "," ++ stringify v ++ stringify_elements vs

  pub stringify_fields : Fields → String
  stringify_fields end = "}"
  stringify_fields (field k v fs) = "," ++ quoted k ++ ":" ++ stringify v ++ stringify_fields fs

abbrev stringify_sorted : Outcome Value → Outcome String
stringify_sorted (ok v) = ok (stringify (sort_keys_deep v))
stringify_sorted (thrown f) = thrown f

unfoldable pub canonical_stringify : Value → Outcome String
unfolding materialize_intent sort_keys_deep stringify
canonical_stringify v = stringify_sorted (materialize_intent v)

-- A contract's own fingerprint is taken of the intent's JSON form.
abbrev answered_fingerprint : FingerprintResult → Outcome String
answered_fingerprint (fingerprint_is s) = ok s
answered_fingerprint (fingerprint_throws e) = thrown (hook_threw e)

abbrev custom_fingerprint : (Value → FingerprintResult) → Stored → Outcome String
custom_fingerprint f (plain v) = answered_fingerprint (f v)
custom_fingerprint f _ = thrown (type_error unstorable_intent)

unfoldable pub fingerprint_intent : EffectContract → Value → Outcome String
unfolding canonical_stringify json
fingerprint_intent c v = elim c.fingerprint_intent [
  | some f ↦ custom_fingerprint f (json v)
  | none ↦ canonical_stringify v
]
