-- ===== src/Value.antt =====
-- Values of TypeScript's `unknown`: what hooks return or throw, intents, metadata, observations.
-- A property read is modelled with its failure, and JSON by the value that `JSON.parse` of
-- `JSON.stringify` gives back.
use corrobo.Base.{ℕ, String, Bool, true, false, ◌||◌, Option, none, some, if◌then◌else◌, str_eq}

-- A number: a whole one, one that is not finite, or another finite one as JSON prints it.
pub data Number : Type 0 where
  whole : ℕ → Number
  non_finite : Number
  decimal : String → Number

mutual
  pub data Value : Type 0 where
    undefined : Value
    null : Value
    boolean : Bool → Value
    number : Number → Value
    text : String → Value
    -- a function or a symbol, which JSON leaves out
    callable : Value
    -- `JSON.stringify` throws at a BigInt, and at an object that holds itself
    bigint : Value
    cyclic : Value
    -- an object whose properties throw when they are read (a getter, a Proxy)
    unreadable : Value
    -- a Map, Set, weak collection, ArrayBuffer or typed array
    collection : Value
    -- an `Error` with its message, which is not enumerable
    error : String → Value
    array : Values → Value
    object : Fields → Value

  pub data Values : Type 0 where
    nil : Values
    cons : Value → Values → Values

  pub data Fields : Type 0 where
    end : Fields
    field : String → Value → Fields → Fields

-- Reading a property: a value, or a throw.
pub data Read : Type 0 where
  threw : Read
  got : Value → Read

unfoldable pub lookup : String → Fields → Value
lookup k end = undefined
lookup k (field j v fs) = if str_eq j k then v else lookup k fs

-- `v[k]` for a value that can be read; a primitive has no property of interest.
unfoldable pub get : Value → String → Read
unfolding lookup
get unreadable k = threw
get (error m) k = got (if str_eq k "message" then text m else undefined)
get (object fs) k = got (lookup k fs)
get _ k = got undefined

-- `k in fs`
unfoldable pub has_field : String → Fields → Bool
has_field k end = false
has_field k (field j v fs) = str_eq j k || has_field k fs

-- `delete fs[k]`
unfoldable pub remove_field : String → Fields → Fields
remove_field k end = end
remove_field k (field j v fs) =
    if str_eq j k then remove_field k fs else field j v (remove_field k fs)

-- `fs[k] = v`
unfoldable pub set_field : String → Value → Fields → Fields
set_field k v end = field k v end
set_field k v (field j w fs) = if str_eq j k then field j v fs else field j w (set_field k v fs)

-- The result of `JSON.stringify` read back by `JSON.parse`: a throw, `undefined`, or plain data.
pub data Stored : Type 0 where
  fails : Stored
  absent : Stored
  plain : Value → Stored

abbrev pub store_element : Stored → Option Values → Option Values
store_element fails _ = none
store_element absent (some vs) = some (cons null vs)
store_element (plain v) (some vs) = some (cons v vs)
store_element _ none = none

abbrev pub store_field : String → Stored → Option Fields → Option Fields
store_field k fails _ = none
store_field k absent fs = fs
store_field k (plain v) (some fs) = some (field k v fs)
store_field k _ none = none

abbrev pub store_array : Option Values → Stored
store_array none = fails
store_array (some vs) = plain (array vs)

abbrev pub store_object : Option Fields → Stored
store_object none = fails
store_object (some fs) = plain (object fs)

unfoldable mutual
  pub json : Value → Stored
  json undefined = absent
  json null = plain null
  json (boolean b) = plain (boolean b)
  json (number non_finite) = plain null
  json (number (whole n)) = plain (number (whole n))
  json (number (decimal s)) = plain (number (decimal s))
  json (text s) = plain (text s)
  json callable = absent
  json bigint = fails
  json cyclic = fails
  json unreadable = fails
  json collection = plain (object end)
  json (error m) = plain (object end)
  json (array vs) = store_array (json_elements vs)
  json (object fs) = store_object (json_fields fs)

  pub json_elements : Values → Option Values
  json_elements nil = some nil
  json_elements (cons v vs) = store_element (json v) (json_elements vs)

  pub json_fields : Fields → Option Fields
  json_fields end = some end
  json_fields (field k v fs) = store_field k (json v) (json_fields fs)

-- `jsonCopy`: a plain-JSON copy, or none; it never throws.
unfoldable pub json_copy : Value → Option Value
json_copy v = elim (json v) [ plain w ↦ some w | _ ↦ none ]

-- `typeof v === "object" && v !== null`
abbrev pub is_object_type : Value → Bool
is_object_type cyclic = true
is_object_type unreadable = true
is_object_type collection = true
is_object_type (error _) = true
is_object_type (array _) = true
is_object_type (object _) = true
is_object_type _ = false

abbrev pub text? : Value → Option String
text? (text s) = some s
text? _ = none
