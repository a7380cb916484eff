-- ===== src/Scenarios/Setup.antt =====
-- A host with the in-memory store, contracts of each kind, and the worlds after their passes.
use corrobo.Base.{ℕ, ◌*◌, String, true, Option, none, some, []}
use corrobo.Value.{Value, Number, field, end}
use corrobo.Types.{
  RecoveryDisposition, OperationStatus, closed, EffectContract, HookResult, throws, returns, limit,
  EffectRequest, plain_id, EffectResult,
}
use corrobo.Fault.{Outcome, ok, thrown}
use corrobo.Memory.{
  InMemoryStore, memory_store, get_operation, create_operation, reserve_attempt,
  update_latest_attempt, update_operation, try_acquire_lock, release,
}
use corrobo.Runtime.Monad.{Host, World, ◌>>=◌, ◌>>◌, pure, raise, lift, guard, catching}
use corrobo.Runtime.Effect.{run_effect}
use corrobo.Base.{length}
use corrobo.Types.{awaiting_review}
use corrobo.Store.{NewOperationInput}
use corrobo.Runtime.Check.{ResolvedRequest}
use corrobo.Types.{OperationRecord, ReviewDecision, Verdict}
use corrobo.Store.Laws.{StoreLaws}
use corrobo.Memory.Clone.{StructuredClone}
use corrobo.Memory.Laws.{memory_laws}
use corrobo.Memory.Map.{lookup}
use corrobo.Runtime.Decision.{review_effect}
use corrobo.Protocol.{done}
use corrobo.Refinement.Setting.{AreLawful, AllNamed, AllNamed-Stable}
use corrobo.Refinement.Effects.{run_effect_refines}

-- A clock that moves on by a second at each reading, and nobody else about.
-- Every record can be copied.
abbrev pub copies : StructuredClone
copies r = none

unfoldable pub host : Host InMemoryStore
unfolding get_operation create_operation reserve_attempt update_latest_attempt update_operation
    try_acquire_lock release ◌>>=◌ ◌>>◌ pure raise lift guard catching
host = record {
  store = memory_store copies;
  clock = λ n. n * 1000;
  random_hex = λ n. "nonce";
  sha256_hex = λ s. "0123456789abcdef0123456789abcdef0123456789abcdef";
  to_text = λ v. some "thrown";
  read_error = λ v. Value.error "unreadable";
  others = λ n s. s;
}

abbrev pub start : World InMemoryStore
start = record { state = record { records = []; locked = [] }; ticks = 1; calls = [] }

abbrev pub seen : Value
seen = Value.object (field "status" (Value.text "observed") (field "data" (Value.boolean true) end))

abbrev pub verdict : String → Value
verdict s = Value.object (
    field "evidenceState" (Value.text s) (
      field "reason"
        (Value.object
          (field "code" (Value.text "CODE") (field "summary" (Value.text "Summary.") end)))
        end))

abbrev pub contract : (ℕ → HookResult) → (ℕ → String) → EffectContract
contract exec evidence = record {
  operation_type = "payments/refund";
  retry_policy = record { max_attempts = limit 3; retry_on_not_applied = true };
  authorize = none;
  revalidate = none;
  execute = λ n i. exec n;
  observe = λ n i. returns seen;
  reconcile = λ n i. returns (verdict (evidence n));
  fingerprint_intent = none;
  max_in_flight_ms = some 10000;
  max_approval_age_ms = none;
}

abbrev pub refund : EffectRequest
refund = record {
  identity = plain_id "refund-1";
  intent = Value.object (field "amountCents" (Value.number (Number.whole 5000)) end);
  context = Value.undefined;
}

abbrev pub lost : ℕ → HookResult
lost n = throws (Value.error "socket hang up")

abbrev pub brief : Outcome EffectResult → OperationStatus × Option RecoveryDisposition × Option ℕ
brief (ok r) = (r.status, r.disposition, r.retry_not_before)
brief (thrown f) = (closed, none, none)

-- Two passes: the first is refused by the remote system and may be retried, the second is lost.
abbrev pub refusing : EffectContract
refusing = contract (λ n. returns (Value.text "declined")) (λ n. "NOT_APPLIED")

abbrev pub pending_contract : EffectContract
pending_contract = contract lost (λ n. "PENDING")

abbrev pub completing : EffectContract
completing = contract lost (λ n. "APPLIED")

abbrev pub asking : EffectContract
asking = record completing {
  authorize =
      some (λ n i. returns (Value.object (field "requiresReview" (Value.boolean true) end)));
}

abbrev pub after : EffectContract → World InMemoryStore → World InMemoryStore
after c w = (run_effect host c refund w).1

unfoldable pub laws : StoreLaws host.store
unfolding host memory_laws
laws = memory_laws copies

abbrev pub stored : World InMemoryStore → Option OperationRecord
stored w = laws.view w.state "refund-1"

pub alone : (c : EffectContract) → AreLawful host laws c
unfolding host laws
alone c n s id = done

pub named_start : (c : EffectContract) → AllNamed host laws c start
unfolding laws memory_laws lookup
named_start c id = tt

pub named_after :
    (c : EffectContract) (w : World InMemoryStore)
    → AllNamed host laws c w
    → AllNamed host laws c (after c w)
named_after c w named =
    AllNamed-Stable host laws c w (after c w)
      (run_effect_refines host laws c (alone c) refund w named) named

abbrev pub decision : String → Verdict → ReviewDecision
decision token v = record {
  decision = v;
  reviewer = "alice";
  review_token = token;
  decided_at = none;
  expires_at = none;
  note = none;
  intent_fingerprint = none;
}

abbrev pub token : String
token = "0123456789abcdef0123456789abcdef"

abbrev pub new_refund : NewOperationInput
new_refund = record {
  identity = record { id = "refund-1"; operation_type = "payments/refund" };
  intent = refund.intent;
  status = closed;
  review_reason = none;
  review_episode = none;
}

abbrev pub blank : OperationRecord
blank = record {
  identity = new_refund.identity;
  intent = refund.intent;
  status = awaiting_review;
  review_reason = none;
  attempts = [];
  blocked_by = none;
  review = none;
  review_episode = none;
  created_at = 0;
  updated_at = 0;
  version = 1;
}

abbrev pub request : ResolvedRequest
request = record {
  identity = new_refund.identity;
  intent = refund.intent;
  context = Value.undefined;
}

abbrev pub the : Option OperationRecord → OperationRecord
the none = blank
the (some r) = r

abbrev pub attempts_of : Option OperationRecord → ℕ
attempts_of none = 0
attempts_of (some r) = length r.attempts

abbrev pub reviewed : Verdict → World InMemoryStore → Outcome EffectResult × World InMemoryStore
reviewed v w = review_effect host asking (plain_id "refund-1") (decision token v) w
