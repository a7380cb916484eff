-- ===== src/Postgres/Safety.antt =====
-- src/stores/postgres.ts: U+0000 in what `jsonbText` writes.
use Prim.Native.Char.{Char, code}
use corrobo.Base.{
  ◌≡◌, ◌≢◌, subst, String, Option, none, some, ◌==◌, arith, inl, inr, Bool-cases, str_eq,
}
use corrobo.Value.{
  Value, Values, nil, cons, Fields, field, end, lookup, has_field, remove_field, Stored, fails,
  absent, plain, json, json_elements, json_fields, Number, store_array, store_object, store_element,
  store_field,
}
use corrobo.Postgres.Jsonb.{
  safe_char, jsonb_safe, front, safe_value, safe_elements, safe_fields, jsonb_text,
}

-- No character is U+0000.
abbrev pub IsSafeText : String → Type 0
IsSafeText String.[] = Unit
IsSafeText (String.◌∷◌ c s) = (code c ≢ 0) × IsSafeText s

-- No text is unsafe, keys included.
unfoldable mutual
  pub IsSafe : Value → Type 0
  IsSafe (Value.text s) = IsSafeText s
  IsSafe (Value.array vs) = AreSafe vs
  IsSafe (Value.object fs) = HasSafeFields fs
  IsSafe _ = Unit

  pub AreSafe : Values → Type 0
  AreSafe nil = Unit
  AreSafe (cons v vs) = IsSafe v × AreSafe vs

  pub HasSafeFields : Fields → Type 0
  HasSafeFields end = Unit
  HasSafeFields (field k v fs) = IsSafeText k × IsSafe v × HasSafeFields fs

safe_char_nonzero : (c : Char) → code (safe_char c) ≢ 0
safe_char_nonzero c = elim (Bool-cases (code c == 0)) [
  | inl e ↦ rw e (λ z. ground arith)
  | inr e ↦ rw e (λ z. ground arith)
]

jsonb_safe-IsSafeText : (s : String) → IsSafeText (jsonb_safe s)
unfolding jsonb_safe
jsonb_safe-IsSafeText String.[] = tt
jsonb_safe-IsSafeText (String.◌∷◌ c s) = (safe_char_nonzero c, jsonb_safe-IsSafeText s)

lookup-IsSafe : (k : String) (fs : Fields) → HasSafeFields fs → IsSafe (lookup k fs)
unfolding lookup IsSafe HasSafeFields
lookup-IsSafe k end h = tt
lookup-IsSafe k (field j v fs) (safe_key, safe, rest) = elim (Bool-cases (str_eq j k)) [
  | inl e ↦ rw e safe
  | inr e ↦ rw e (lookup-IsSafe k fs rest)
]

remove_field-HasSafeFields :
    (k : String) (fs : Fields) → HasSafeFields fs → HasSafeFields (remove_field k fs)
unfolding remove_field HasSafeFields
remove_field-HasSafeFields k end h = tt
remove_field-HasSafeFields k (field j v fs) (safe_key, safe, rest) =
    elim (Bool-cases (str_eq j k)) [
      | inl e ↦ rw e (remove_field-HasSafeFields k fs rest)
      | inr e ↦ rw e (safe_key, safe, remove_field-HasSafeFields k fs rest)
    ]

front-HasSafeFields :
    (k : String) (v : Value) (fs : Fields)
    → IsSafeText k
    → IsSafe v
    → HasSafeFields fs
    → HasSafeFields (front k v fs)
unfolding front HasSafeFields
front-HasSafeFields k v fs safe_key safe rest = elim (Bool-cases (has_field k fs)) [
  | inl e ↦ rw e (safe_key, lookup-IsSafe k fs rest, remove_field-HasSafeFields k fs rest)
  | inr e ↦ rw e (safe_key, safe, rest)
]

mutual
  unfolding safe_value IsSafe

  safe_value-IsSafe : (v : Value) → IsSafe (safe_value v)
  safe_value-IsSafe (Value.text s) = jsonb_safe-IsSafeText s
  safe_value-IsSafe (Value.array vs) = safe_elements-AreSafe vs
  safe_value-IsSafe (Value.object fs) = safe_fields-HasSafeFields fs
  safe_value-IsSafe Value.undefined = tt
  safe_value-IsSafe Value.null = tt
  safe_value-IsSafe (Value.boolean b) = tt
  safe_value-IsSafe (Value.number n) = tt
  safe_value-IsSafe Value.callable = tt
  safe_value-IsSafe Value.bigint = tt
  safe_value-IsSafe Value.cyclic = tt
  safe_value-IsSafe Value.unreadable = tt
  safe_value-IsSafe Value.collection = tt
  safe_value-IsSafe (Value.error m) = tt

  safe_elements-AreSafe : (vs : Values) → AreSafe (safe_elements vs)
  safe_elements-AreSafe nil = tt
  safe_elements-AreSafe (cons v vs) = (safe_value-IsSafe v, safe_elements-AreSafe vs)

  safe_fields-HasSafeFields : (fs : Fields) → HasSafeFields (safe_fields fs)
  safe_fields-HasSafeFields end = tt
  safe_fields-HasSafeFields (field k v fs) =
      front-HasSafeFields (jsonb_safe k) (safe_value v) (safe_fields fs) (jsonb_safe-IsSafeText k)
        (safe_value-IsSafe v) (safe_fields-HasSafeFields fs)

-- What JSON makes of a value, if anything.
abbrev SafeStored : Stored → Type 0
SafeStored (plain w) = IsSafe w
SafeStored _ = Unit

abbrev SafeElements : Option Values → Type 0
SafeElements none = Unit
SafeElements (some vs) = AreSafe vs

abbrev SafeMembers : Option Fields → Type 0
SafeMembers none = Unit
SafeMembers (some fs) = HasSafeFields fs

stored_array : (o : Option Values) → SafeElements o → SafeStored (store_array o)
unfolding IsSafe
stored_array none h = tt
stored_array (some vs) h = h

stored_object : (o : Option Fields) → SafeMembers o → SafeStored (store_object o)
unfolding IsSafe
stored_object none h = tt
stored_object (some fs) h = h

stored_element :
    (s : Stored) (o : Option Values)
    → SafeStored s
    → SafeElements o
    → SafeElements (store_element s o)
unfolding AreSafe IsSafe
stored_element fails o h rest = tt
stored_element absent none h rest = tt
stored_element absent (some vs) h rest = (tt, rest)
stored_element (plain w) none h rest = tt
stored_element (plain w) (some vs) h rest = (h, rest)

stored_field :
    (k : String) (s : Stored) (o : Option Fields)
    → IsSafeText k
    → SafeStored s
    → SafeMembers o
    → SafeMembers (store_field k s o)
unfolding HasSafeFields
stored_field k fails o key h rest = tt
stored_field k absent o key h rest = rest
stored_field k (plain w) none key h rest = tt
stored_field k (plain w) (some fs) key h rest = (key, h, rest)

mutual
  unfolding json IsSafe

  json-IsSafe : (v : Value) → IsSafe v → SafeStored (json v)
  json-IsSafe (Value.text s) h = h
  json-IsSafe (Value.array vs) h = stored_array (json_elements vs) (json_elements-AreSafe vs h)
  json-IsSafe (Value.object fs) h = stored_object (json_fields fs) (json_fields-HasSafeFields fs h)
  json-IsSafe Value.undefined h = tt
  json-IsSafe Value.null h = tt
  json-IsSafe (Value.boolean b) h = tt
  json-IsSafe (Value.number (Number.whole n)) h = tt
  json-IsSafe (Value.number Number.non_finite) h = tt
  json-IsSafe (Value.number (Number.decimal s)) h = tt
  json-IsSafe Value.callable h = tt
  json-IsSafe Value.bigint h = tt
  json-IsSafe Value.cyclic h = tt
  json-IsSafe Value.unreadable h = tt
  json-IsSafe Value.collection h = tt
  json-IsSafe (Value.error m) h = tt

  json_elements-AreSafe : (vs : Values) → AreSafe vs → SafeElements (json_elements vs)
  json_elements-AreSafe nil h = tt
  json_elements-AreSafe (cons v vs) (safe, rest) =
      stored_element (json v) (json_elements vs) (json-IsSafe v safe)
        (json_elements-AreSafe vs rest)

  json_fields-HasSafeFields : (fs : Fields) → HasSafeFields fs → SafeMembers (json_fields fs)
  json_fields-HasSafeFields end h = tt
  json_fields-HasSafeFields (field k v fs) (safe_key, safe, rest) =
      stored_field k (json v) (json_fields fs) safe_key (json-IsSafe v safe)
        (json_fields-HasSafeFields fs rest)

-- Nothing that `jsonbText` writes holds a U+0000, neither in a text nor in a key at any depth.
pub jsonb_text-IsSafe : (v w : Value) → jsonb_text v ≡ plain w → IsSafe w
unfolding jsonb_text
jsonb_text-IsSafe v w e = subst SafeStored e (json-IsSafe (safe_value v) (safe_value-IsSafe v))
