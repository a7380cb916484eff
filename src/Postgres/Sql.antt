-- ===== src/Postgres/Sql.antt =====
-- src/stores/postgres.ts: the table, the statements that the store sends, and what the store relies on
-- of the database: a statement that fails may have been carried out, since its answer may be lost.
use corrobo.Base.{
  ◌⊎◌, ℕ, ◌+◌, ◌≡◌, String, Bool, true, false, ◌&&◌, Option, none, some, List, [], ◌∷◌, ◌==◌,
  if◌then◌else◌, str_eq, set_last, push,
}
use corrobo.Value.{Value}
use corrobo.Types.{
  OperationStatus, ReasonCode, ReviewEpisode, RecordedReview, BlockingCheck, AttemptRecord,
  OperationRecord,
}

-- A row of `corrobo_operations`. A column of JSON is what `jsonb` gives back.
pub record Row : Type 0 where
  pub id : String
  pub operation_type : String
  pub intent : Value
  pub status : OperationStatus
  pub review_reason : Option ReasonCode
  pub attempts : List AttemptRecord
  pub blocked_by : Option BlockingCheck
  pub review : Option RecordedReview
  pub review_episode : Option ReviewEpisode
  pub created_at : ℕ
  pub updated_at : ℕ
  pub version : ℕ

-- `rowToRecord`
unfoldable pub row_to_record : Row → OperationRecord
row_to_record row = record {
  identity = record { id = row.id; operation_type = row.operation_type };
  intent = row.intent;
  status = row.status;
  review_reason = row.review_reason;
  attempts = row.attempts;
  blocked_by = row.blocked_by;
  review = row.review;
  review_episode = row.review_episode;
  created_at = row.created_at;
  updated_at = row.updated_at;
  version = row.version;
}

-- One item after SET.
pub data Assignment : Type 0 where
  -- attempts = attempts || $n
  append_attempts : AttemptRecord → Assignment
  -- attempts = jsonb_set(attempts, array[(jsonb_array_length(attempts) - 1)::text], $n)
  set_latest : AttemptRecord → Assignment
  set_status : OperationStatus → Assignment
  set_review_reason : Option ReasonCode → Assignment
  set_blocked_by : Option BlockingCheck → Assignment
  set_review : Option RecordedReview → Assignment
  set_review_episode : Option ReviewEpisode → Assignment
  -- updated_at = now()
  touch : Assignment
  -- version = version + 1
  bump_version : Assignment

-- The parameters of the INSERT; the other columns have their defaults.
pub record NewRow : Type 0 where
  pub id : String
  pub operation_type : String
  pub intent : Value
  pub status : OperationStatus
  pub review_reason : Option ReasonCode
  pub review_episode : Option ReviewEpisode

pub data Statement : Type 0 where
  -- SELECT * WHERE id = $1
  select_row : String → Statement
  -- INSERT ... RETURNING *
  insert_row : NewRow → Statement
  -- UPDATE SET ... WHERE id = $1 AND version = $n, and jsonb_array_length(attempts) > 0 if `nonempty`,
  -- RETURNING *
  update_row : List Assignment → (id : String) → (version : ℕ) → (nonempty : Bool) → Statement

-- What `query` rejects with, as far as `isUniqueViolation` tells: code "23505", or anything else.
pub data SqlError : Type 0 where
  unique_violation : SqlError
  other_error : Value → SqlError

pub data Answer (A : Type 0) : Type 0 where
  answered : A → Answer A
  failed : SqlError → Answer A

-- `pg`, from its documentation: the tables, as the pool and as a checked-out connection reach them.
-- `reread` is what `jsonb` makes of a value.
pub record Database (S : Type 0) : Type 0 where
  pub query : Statement → S → Answer (List Row) × S
  -- SELECT clock_timestamp() AS now
  pub clock_timestamp : S → Answer ℕ × S
  pub reread : Value → Value

abbrev pub Table : Type 0
Table = String → Option Row

unfoldable pub row_at : String → Row → Table → Table
row_at id row table k = if str_eq id k then some row else table k

-- What an assignment makes of a row, by the transaction's time.
unfoldable pub assign : ℕ → Assignment → Row → Row
assign t (append_attempts a) row = record row { attempts = push row.attempts a }
assign t (set_latest a) row = record row { attempts = set_last row.attempts a }
assign t (set_status st) row = record row { status = st }
assign t (set_review_reason r) row = record row { review_reason = r }
assign t (set_blocked_by b) row = record row { blocked_by = b }
assign t (set_review r) row = record row { review = r }
assign t (set_review_episode e) row = record row { review_episode = e }
assign t touch row = record row { updated_at = t }
assign t bump_version row = record row { version = row.version + 1 }

-- No two of the assignments are of the same column, so their order does not matter.
unfoldable pub assign_all : ℕ → List Assignment → Row → Row
unfolding assign
assign_all t [] row = row
assign_all t (a ∷ sets) row = assign_all t sets (assign t a row)

unfoldable pub fresh_row : ℕ → NewRow → Row
fresh_row t p = record {
  id = p.id;
  operation_type = p.operation_type;
  intent = p.intent;
  status = p.status;
  review_reason = p.review_reason;
  attempts = [];
  blocked_by = none;
  review = none;
  review_episode = p.review_episode;
  created_at = t;
  updated_at = t;
  version = 0;
}

abbrev pub rows_of : Option Row → List Row
rows_of none = []
rows_of (some row) = row ∷ []

abbrev pub has_attempts : Row → Bool
has_attempts row = elim row.attempts [ [] ↦ false | _ ∷ _ ↦ true ]

-- The condition after WHERE, of the row with the identity.
abbrev pub matches : ℕ → Bool → Row → Bool
matches v nonempty row = row.version == v && (if nonempty then has_attempts row else true)

-- Documented behaviour of the database, for a table that is `table`.
module _ {S : Type 0} (table : S → Table) where
  abbrev pub Selects : String → S → Answer (List Row) × S → Type 0
  Selects id s (answered rows, s') = (rows ≡ rows_of (table s id)) × (table s' ≡ table s)
  Selects id s (failed _, s') = table s' ≡ table s

  abbrev pub Inserted : NewRow → S → S → Row → Type 0
  Inserted p s s' row =
      (t : ℕ) × (table s p.id ≡ none)
      × (row ≡ fresh_row t p)
      × (table s' ≡ row_at p.id row (table s))

  abbrev pub Inserts : NewRow → S → Answer (List Row) × S → Type 0
  Inserts p s (answered rows, s') = (row : Row) × (rows ≡ row ∷ []) × Inserted p s s' row
  Inserts p s (failed _, s') = (table s' ≡ table s) ⊎ ((row : Row) × Inserted p s s' row)

  abbrev pub Updated : List Assignment → String → ℕ → Bool → S → S → Row → Type 0
  Updated sets id v nonempty s s' row =
      (old : Row) × (t : ℕ) × (table s id ≡ some old)
      × (matches v nonempty old ≡ true)
      × (row ≡ assign_all t sets old)
      × (table s' ≡ row_at id row (table s))

  -- No row has matched.
  abbrev pub Unmatched : String → ℕ → Bool → S → S → Type 0
  Unmatched id v nonempty s s' =
      ((old : Row) → table s id ≡ some old → matches v nonempty old ≡ false) × (table s' ≡ table s)

  abbrev pub Updates : List Assignment → String → ℕ → Bool → S → Answer (List Row) × S → Type 0
  Updates sets id v nonempty s (answered rows, s') =
      ((rows ≡ []) × Unmatched id v nonempty s s')
      ⊎ ((row : Row) × (rows ≡ row ∷ []) × Updated sets id v nonempty s s' row)
  Updates sets id v nonempty s (failed _, s') =
      (table s' ≡ table s) ⊎ ((row : Row) × Updated sets id v nonempty s s' row)

pub record DatabaseLaws {S : Type 0} (db : Database S) : Type 0 where
  pub table : S → Table
  pub select_lem : (id : String) (s : S) → Selects table id s (db.query (select_row id) s)
  pub insert_lem : (p : NewRow) (s : S) → Inserts table p s (db.query (insert_row p) s)
  pub update_lem :
      (sets : List Assignment) (id : String) (v : ℕ) (nonempty : Bool) (s : S)
      → Updates table sets id v nonempty s (db.query (update_row sets id v nonempty) s)
  pub clock_timestamp_lem : (s : S) → table (db.clock_timestamp s).1 ≡ table s
