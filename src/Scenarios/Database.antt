-- ===== src/Scenarios/Database.antt =====
-- A database and a pool for tests: statements are carried out on a table, and every lock is granted.
use corrobo.Base.{
  ℕ, suc, ◌-◌, ◌≡◌, ◌≢◌, refl, sym, ap, subst, get_or, ◌∙◌, String, Bool, true, false, ◌&&◌, Option,
  none, some, List, [], ◌∷◌, ◌==◌, ==_iff, if◌then◌else◌, inl, inr, arith, Bool-cases,
}
use corrobo.Postgres.Key.{ℤ, pos, negsuc}
use corrobo.Postgres.Sql.{
  Row, NewRow, Assignment, Statement, select_row, insert_row, update_row, SqlError,
  unique_violation, Answer, answered, failed, Database, DatabaseLaws, Table, row_at, assign_all,
  fresh_row, rows_of, matches, Updates, Inserts,
}
use corrobo.Postgres.Lock.{Pool, PoolLaws, GivesBack}
use corrobo.Postgres.Laws.{LeavesTable}

pub record Server : Type 0 where
  pub table : Table
  pub used : ℕ
  pub held : ℕ → ℤ → ℕ

abbrev same_key : ℤ → ℤ → Bool
same_key (pos m) (pos n) = m == n
same_key (negsuc m) (negsuc n) = m == n
same_key _ _ = false

abbrev with_row : String → Row → Server → Server
with_row id row s = record s { table = row_at id row s.table }

abbrev update_found :
    List Assignment → String → ℕ → Bool → Option Row → Server → Answer (List Row) × Server
update_found sets id v nonempty none s = (answered [], s)
update_found sets id v nonempty (some row) s =
    let next = assign_all 7000 sets row in
    if matches v nonempty row then (answered (next ∷ []), with_row id next s) else (answered [], s)

abbrev insert_found : NewRow → Option Row → Server → Answer (List Row) × Server
insert_found p none s = let row = fresh_row 7000 p in (answered (row ∷ []), with_row p.id row s)
insert_found p (some _) s = (failed unique_violation, s)

abbrev carry_out : Statement → Server → Answer (List Row) × Server
carry_out (select_row id) s = (answered (rows_of (s.table id)), s)
carry_out (insert_row p) s = insert_found p (s.table p.id) s
carry_out (update_row sets id v nonempty) s = update_found sets id v nonempty (s.table id) s

unfoldable pub database : Database Server
unfolding row_at assign_all fresh_row
database = record { query = carry_out; clock_timestamp = λ s. (answered 7000, s); reread = λ v. v }

abbrev bump : ℕ → ℤ → Server → Server
bump c k s = record s {
  held = λ d j. if (d == c) && same_key j k then suc (s.held d j) else s.held d j;
}

abbrev drop : ℕ → ℤ → Server → Server
drop c k s = record s {
  held = λ d j. if (d == c) && same_key j k then s.held d j - 1 else s.held d j;
}

abbrev back : ℕ → Option SqlError → Server → Server
back c none s = record s { used = s.used - 1 }
back c (some _) s = record s { used = s.used - 1; held = λ d j. if d == c then 0 else s.held d j }

unfoldable pub pool : Pool Server
pool = record {
  connect = λ s. (answered s.used, record s { used = suc s.used });
  listen = λ c s. s;
  unlisten = λ c s. s;
  try_advisory_lock = λ c k s. (answered (true ∷ []), bump c k s);
  advisory_unlock = λ c k s. (answered (true ∷ []), drop c k s);
  give_back = back;
  sha256 = λ id. 129 ∷ 2 ∷ 3 ∷ 4 ∷ 5 ∷ 6 ∷ 7 ∷ 8 ∷ 9 ∷ [];
}

abbrev table_of : Server → Table
table_of s = s.table

same_match :
    (v : ℕ) (nonempty : Bool) (row old : Row)
    → matches v nonempty row ≡ false
    → some row ≡ some old
    → matches v nonempty old ≡ false
same_match v nonempty row old m e =
    subst (λ r. matches v nonempty r ≡ false) (ap (λ o. get_or o row) e) m

pub update_found-Updates :
    (sets : List Assignment) (id : String) (v : ℕ) (nonempty : Bool) (s : Server) (o : Option Row)
    → s.table id ≡ o
    → Updates table_of sets id v nonempty s (update_found sets id v nonempty o s)
update_found-Updates sets id v nonempty s none e =
    inl (refl, (λ old f. absurd (ground arith), refl))
update_found-Updates sets id v nonempty s (some row) e =
    elim (Bool-cases (matches v nonempty row)) [
      | inl m ↦ rw m (inr (assign_all 7000 sets row, refl, (row, 7000, e, m, refl, refl)))
      | inr m ↦ rw m (inl (refl, (λ old f. same_match v nonempty row old m (sym e ∙ f), refl)))
    ]

pub insert_found-Inserts :
    (p : NewRow) (s : Server) (o : Option Row)
    → s.table p.id ≡ o
    → Inserts table_of p s (insert_found p o s)
insert_found-Inserts p s none e = (fresh_row 7000 p, refl, (7000, e, refl, refl))
insert_found-Inserts p s (some _) e = inl refl

unfoldable pub database_laws : DatabaseLaws database
unfolding database
database_laws = record {
  table = table_of;
  select_lem = λ id s. (refl, refl);
  insert_lem = λ p s. insert_found-Inserts p s (s.table p.id) refl;
  update_lem = λ sets id v nonempty s. update_found-Updates sets id v nonempty s (s.table id) refl;
  clock_timestamp_lem = λ s. refl;
}

pub back_keeps : (c : ℕ) (e : Option SqlError) (s : Server) → table_of (back c e s) ≡ table_of s
back_keeps c none s = refl
back_keeps c (some e) s = refl

unfoldable pub pool_leaves : LeavesTable database_laws.table pool
unfolding database_laws pool
pool_leaves = record {
  connect_keeps = λ s. refl;
  listen_keeps = λ c s. refl;
  unlisten_keeps = λ c s. refl;
  try_keeps = λ c k s. refl;
  unlock_keeps = λ c k s. refl;
  give_back_keeps = back_keeps;
}

same_key_self : (k : ℤ) → same_key k k ≡ true
same_key_self (pos n) = ground arith
same_key_self (negsuc n) = ground arith

pub own_key : (c : ℕ) (k : ℤ) (x y : ℕ) → (if (c == c) && same_key k k then x else y) ≡ x
own_key c k x y = rw ((==_iff c c).1 refl, same_key_self k) refl

pub other_client : (c d : ℕ) (b : Bool) (x y : ℕ) → d ≢ c → (if (d == c) && b then x else y) ≡ y
other_client c d b x y ne = elim (Bool-cases (d == c)) [
  | inl e ↦ absurd (ne ((==_iff d c).0 e))
  | inr e ↦ rw e refl
]

pub back-GivesBack :
    (c : ℕ) (err : Option SqlError) (s : Server)
    → GivesBack (λ s. s.used) (λ s. s.held) c err s (back c err s)
back-GivesBack c none s = (refl, refl)
back-GivesBack c (some e) s = (
  refl,
  λ k. rw ((==_iff c c).1 refl) refl,
  λ d k ne. elim (Bool-cases (d == c)) [
    | inl p ↦ absurd (ne ((==_iff d c).0 p))
    | inr p ↦ rw p refl
  ],
)

unfoldable pub pool_laws : PoolLaws pool
unfolding pool
pool_laws = record {
  in_use = λ s. s.used;
  holds = λ s. s.held;
  connect_lem = λ s. (refl, refl);
  listen_lem = λ c s. (refl, refl);
  unlisten_lem = λ c s. (refl, refl);
  try_advisory_lock_lem = λ c k s. (refl, (own_key c k _ _, λ d j ne. other_client c d _ _ _ ne));
  advisory_unlock_lem = λ c k s. (refl, own_key c k _ _, λ d j ne. other_client c d _ _ _ ne);
  give_back_lem = back-GivesBack;
}
