-- ===== src/Text.antt =====
-- The texts that JavaScript's own functions make: decimal numbers, `toISOString()`, and the quoted
-- strings of JSON.
use Prim.Native.Nat.{◌/◌, ◌%◌, ◌*◌}
use Prim.Native.Char.{Char, code}
use Prim.Native.String
use corrobo.Base.{ℕ, Bool, zero, suc, ◌+◌, ◌-◌, String, ltb, leb, ◌==◌, if◌then◌else◌}

infixr 65 ◌++◌
abbrev pub ◌++◌ : String → String → String
s ++ t = String.◌++◌ s t

abbrev digit : ℕ → String
digit d = String.slice "0123456789abcdef" d (d + 1)

-- The last `w` decimal digits of `n`.
unfoldable pub padded : ℕ → ℕ → String
padded zero n = ""
padded (suc w) n = padded w (n / 10) ++ digit (n % 10)

decimal_from : ℕ → ℕ → String
decimal_from zero n = ""
decimal_from (suc fuel) n =
    let rest = decimal_from fuel (n / 10) ++ digit (n % 10) in if ltb n 10 then digit n else rest

-- `String(n)`: a number has no more digits than itself and one.
unfoldable pub decimal : ℕ → String
unfolding decimal_from
decimal n = decimal_from (suc n) n

-- `new Date(ms).toISOString()`, from the epoch on and within four-digit years.
unfoldable pub to_iso_string : ℕ → String
unfolding padded
to_iso_string ms =
    let z = ms / 86400000 + 719468 in
    let era = z / 146097 in
    let doe = z % 146097 in
    let yoe = (doe + doe / 36524 - doe / 1460 - doe / 146096) / 365 in
    let doy = doe + yoe / 100 - (365 * yoe + yoe / 4) in
    let mp = (5 * doy + 2) / 153 in
    let day = doy - (153 * mp + 2) / 5 + 1 in
    let month = if ltb mp 10 then mp + 3 else mp - 9 in
    let year = yoe + era * 400 + (if leb month 2 then 1 else 0) in
    let t = ms % 86400000 in
    padded 4 year
    ++ "-"
    ++ padded 2 month
    ++ "-"
    ++ padded 2 day
    ++ "T"
    ++ padded 2 (t / 3600000)
    ++ ":"
    ++ padded 2 (t / 60000 % 60)
    ++ ":"
    ++ padded 2 (t / 1000 % 60)
    ++ "."
    ++ padded 3 (t % 1000)
    ++ "Z"

-- One character of a JSON string.
unfoldable pub escaped : Char → String
escaped c =
    let n = code c in
    if n == 34
    then "\\\""
    else if n == 92
    then "\\\\"
    else if n == 8
    then "\\b"
    else if n == 9
    then "\\t"
    else if n == 10
    then "\\n"
    else if n == 12
    then "\\f"
    else if n == 13
    then "\\r"
    else if ltb n 32
    then "\\u00" ++ digit (n / 16) ++ digit (n % 16)
    else (String.◌∷◌ c "")

unfoldable pub escape : String → String
unfolding escaped
escape String.[] = ""
escape (String.◌∷◌ c s) = escaped c ++ escape s

unfoldable pub quoted : String → String
unfolding escape
quoted s = "\"" ++ escape s ++ "\""

-- Whether `new Date(ms).toISOString()` gives a text, from the epoch on; else it throws a `RangeError`.
abbrev pub is_date : ℕ → Bool
is_date ms = leb ms 8640000000000000
