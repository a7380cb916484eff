-- ===== src/Scenarios/Postgres.antt =====
-- `PostgresStore` on a database for tests.
use corrobo.Base.{arith, ◌≡◌, ◌↔◌, refl, str_eq, if◌then◌else◌, false, none, some, [], ◌∷◌}
use corrobo.Value.{Value, field, end}
use corrobo.Types.{
  EffectContract, plain_id, approved, ResolvedAttempt, resolved, transport_error, ReasonCode,
  not_applied, retry, opened, ReservedAttemptInput,
}
use corrobo.Store.{OperationUpdate, keep}
use corrobo.Fault.{thrown, store_conflict, no_attempt}
use corrobo.Runtime.Monad.{Host, World}
use corrobo.Runtime.Effect.{run_effect}
use corrobo.Runtime.Decision.{review_effect}
use corrobo.Protocol.{Steps, done}
use corrobo.Refinement.Clock.{IsReading}
use corrobo.Refinement.Setting.{AreLawful, AllNamed}
use corrobo.Postgres.Key.{
  pos, negsuc, advisory_lock_key, FitsBigint, take, advisory_lock_key_identifies,
}
use corrobo.Postgres.Jsonb.{jsonb_text}
use corrobo.Postgres.Sql.{Row}
use corrobo.Postgres.Rows.{view}
use corrobo.Postgres.Operations.{
  reserve_attempt, append_attempt, update_latest_attempt, update_operation, set_status,
}
use corrobo.Postgres.Lock.{Lock, try_acquire, release_lock, Acquires}
use corrobo.Postgres.Locking.{try_acquire-Acquires, Releases, release_lock-Releases}
use corrobo.Postgres.Refusals.{Refuses, writes_refused}
use corrobo.Postgres.Safety.{IsSafe, jsonb_text-IsSafe}
use corrobo.Postgres.Session.{Session, postgres_store}
use corrobo.Postgres.Laws.{session_view, postgres_laws}
use corrobo.Postgres.Passes.{on_postgres, postgres_store_refines}
use corrobo.Scenarios.Setup.{completing, refund, decision, token}
use corrobo.Scenarios.Database.{Server, database, pool, database_laws, pool_leaves, pool_laws}

unfoldable process : Host (Session Server)
process = record {
  store = postgres_store database pool;
  clock = λ n. n;
  random_hex = λ n. "nonce";
  sha256_hex = λ s. "0123456789abcdef0123456789abcdef0123456789abcdef";
  to_text = λ v. some "thrown";
  read_error = λ v. Value.error "unreadable";
  others = λ n s. s;
}

abbrev server : Server
server = record { table = λ id. none; used = 0; held = λ c k. 0 }

abbrev begin : World (Session Server)
begin = record { state = record { state = server; locks = [] }; ticks = 1; calls = [] }

abbrev host : Host (Session Server)
host = on_postgres database pool process

alone :
    (c : EffectContract) → AreLawful host (postgres_laws database pool database_laws pool_leaves) c
unfolding process postgres_laws
alone c n s id = done

named_begin :
    (c : EffectContract)
    → AllNamed host (postgres_laws database pool database_laws pool_leaves) c begin
unfolding postgres_laws database_laws
named_begin c id = tt

postgres_store_refines_example :
    Steps completing (IsReading host) "refund-1" none (
      session_view database database_laws
        (run_effect host completing refund begin).1.state
        "refund-1")
    × Steps completing (IsReading host) "refund-1" none (
        session_view database database_laws
          (review_effect host completing
            (plain_id "refund-1")
            (decision token approved)
            begin).1.state
          "refund-1")
unfolding database_laws
postgres_store_refines_example =
    postgres_store_refines database pool database_laws pool_leaves process completing
      (alone completing) refund (plain_id "refund-1") (decision token approved) begin
      (named_begin completing) "refund-1"

abbrev the_reason : ReasonCode
the_reason = record { code = "CODE"; summary = []; metadata = none }

abbrev lost_attempt : ResolvedAttempt
lost_attempt = record {
  attempt_number = 1;
  started_at = 5;
  updated_at = 6;
  transport = transport_error "lost" (some (Value.text "secret"));
  observations =
      Value.object (
        field "status" (Value.text "observation_failed") (
          field "error"
            (Value.object
              (field "message" (Value.text "lost") (field "raw" (Value.text "secret") end)))
            end))
      ∷ [];
  observed_effect = none;
  evidence_state = not_applied;
  evidence_reason = the_reason;
  disposition = some retry;
  disposition_reason = the_reason;
  retry_not_before = none;
  check = none;
  max_in_flight_ms = none;
}

abbrev written_attempt : ResolvedAttempt
written_attempt = record lost_attempt {
  transport = transport_error "lost" none;
  observations =
      Value.object (
        field "status" (Value.text "observation_failed")
          (field "error" (Value.object (field "message" (Value.text "lost") end)) end))
      ∷ [];
}

try_acquire-Acquires_example :
    Acquires pool_laws.in_use pool_laws.holds server (try_acquire pool "refund-1" server)
try_acquire-Acquires_example = try_acquire-Acquires pool pool_laws "refund-1" server

abbrev held_lock : Lock
held_lock = record { client = 0; key = pos 5; released = false }

abbrev busy : Server
busy = record { table = λ id. none; used = 2; held = λ c k. 1 }

release_lock-Releases_example :
    Releases pool pool_laws held_lock busy (release_lock pool held_lock busy)
unfolding pool_laws
release_lock-Releases_example =
    release_lock-Releases pool pool_laws held_lock busy refl (omega arith)

advisory_lock_key_identifies_example :
    FitsBigint (advisory_lock_key pool.sha256 "a")
    × ((advisory_lock_key pool.sha256 "a" ≡ advisory_lock_key pool.sha256 "b")
        ↔ (take 8 (pool.sha256 "a") ≡ take 8 (pool.sha256 "b")))
unfolding pool
advisory_lock_key_identifies_example = advisory_lock_key_identifies pool.sha256 "a" "b" (λ s. (
  (
    omega arith,
    (
      omega arith,
      (
        omega arith,
        (
          omega arith,
          (omega arith, (omega arith, (omega arith, (omega arith, (omega arith, tt))))),
        ),
      ),
    ),
  ),
  omega arith,
))

a_negative_key : advisory_lock_key pool.sha256 "a" ≡ negsuc 9150748177064392951
unfolding advisory_lock_key pool
a_negative_key = refl

jsonb_text-IsSafe_example : IsSafe (Value.object (field "a�" (Value.text "x") end))
unfolding jsonb_text
jsonb_text-IsSafe_example =
    jsonb_text-IsSafe (Value.object (field "a\0" (Value.text "x") end))
      (Value.object (field "a�" (Value.text "x") end)) refl

-- An operation that has been written twice, and has no attempt.
abbrev stored_row : Row
stored_row = record {
  id = "refund-1";
  operation_type = "payments/refund";
  intent = refund.intent;
  status = opened;
  review_reason = none;
  attempts = [];
  blocked_by = none;
  review = none;
  review_episode = none;
  created_at = 5;
  updated_at = 6;
  version = 2;
}

abbrev filled : Server
filled = record server { table = λ k. if str_eq k "refund-1" then some stored_row else none }

abbrev an_attempt : ReservedAttemptInput
an_attempt = record { attempt_number = 1; started_at = 5; check = none; max_in_flight_ms = none }

abbrev reopening : OperationUpdate
reopening = record {
  status = some opened;
  review_reason = keep;
  blocked_by = keep;
  review = keep;
  review_episode = keep;
}

writes_refused_example :
    Refuses
      (view database database_laws filled)
      "refund-1"
      0
      (reserve_attempt database 0 "refund-1" an_attempt 0 filled)
    × Refuses
        (view database database_laws filled)
        "refund-1"
        0
        (append_attempt database 0 "refund-1" (resolved lost_attempt) opened 0 filled)
    × Refuses
        (view database database_laws filled)
        "refund-1"
        0
        (update_latest_attempt database 0 "refund-1" (resolved lost_attempt) opened 0 filled)
    × Refuses
        (view database database_laws filled)
        "refund-1"
        0
        (update_operation database 0 "refund-1" reopening 0 filled)
    × Refuses
        (view database database_laws filled)
        "refund-1"
        0
        (set_status database 0 "refund-1" opened 0 filled)
writes_refused_example =
    writes_refused database database_laws "refund-1" 0 0 filled an_attempt (resolved lost_attempt)
      opened reopening

update_without_attempt_refused :
    (update_latest_attempt database 0 "refund-1" (resolved lost_attempt) opened 2 filled).0
    ≡ thrown (no_attempt "refund-1")
unfolding database update_latest_attempt
update_without_attempt_refused = refl

stale_write_refused :
    (set_status database 0 "refund-1" opened 0 filled).0
    ≡ thrown (store_conflict "refund-1" (some 0) 2)
unfolding database set_status
stale_write_refused = refl
