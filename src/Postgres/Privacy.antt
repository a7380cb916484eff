-- ===== src/Postgres/Privacy.antt =====
-- src/stores/postgres.ts: thrown values in what is written of an attempt.
use corrobo.Base.{◌≡◌, String, List, [], ◌∷◌, true, false, str_eq}
use corrobo.Value.{Value, got, get, lookup}
use corrobo.Postgres.Jsonb.{is_failed}

-- A failed observation carries nothing of what was thrown but the message.
abbrev pub HidesThrown : Value → Type 0
HidesThrown (Value.object fs) =
    is_failed (lookup "status" fs) ≡ true
    → (k : String) → str_eq "message" k ≡ false
    → get (lookup "error" fs) k ≡ got Value.undefined
HidesThrown _ = Unit

abbrev pub AllHide : List Value → Type 0
AllHide [] = Unit
AllHide (v ∷ vs) = HidesThrown v × AllHide vs
