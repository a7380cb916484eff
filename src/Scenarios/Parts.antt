-- ===== src/Scenarios/Parts.antt =====
-- The theorems on the parts of the runtime at concrete inputs.
use corrobo.Types.{ReasonCode, OperationRecord}
use corrobo.Base.{get_or, arith}
use corrobo.Text.{to_iso_string}
use corrobo.Value.{get, got}
use corrobo.Runtime.Check.{check_then_attempt}
use corrobo.Runtime.Quiet.{executions}
use corrobo.Runtime.Quiet.Unapproved.{unapproved_executes_nothing}
use corrobo.Scenarios.Setup.{host, completing, request}
use corrobo.Base.{List, get_last?, zero, suc, ℕ, ◌+◌, ◌≡◌, refl, true, false, none, some, [], ◌∷◌}
use corrobo.Value.{Value, Number}
use corrobo.Types.{not_applied, retry, opened}
use corrobo.Fault.{ok}
use corrobo.Memory.{
  InMemoryStore, create_operation, reserve_attempt, update_latest_attempt, update_operation,
  try_acquire_lock, acquired, release,
}
use corrobo.Base.{length, str_eq, ◌≤◌, ◌<◌, ◌↔◌, ◌⊎◌, ◌≢◌}
use corrobo.Disposition.{DecideDispositionInput, has_attempts_remaining, decide_disposition}
use corrobo.Disposition.Table.{
  IsSettled, decide_disposition_retry_now, decide_disposition_retry_later,
  decide_disposition_pending,
}
use corrobo.Types.{ReservedAttempt, reserved, ReservedAttemptInput, awaiting_review, pending}
use corrobo.Store.{
  OperationUpdate, keep, reserve_change, append_change, latest_change, operation_change,
  status_change,
}
use corrobo.Store.Laws.{WritesRecord, CreatesRecord}
use corrobo.Memory.{append_attempt, set_status, is_locked}
use corrobo.Memory.Writes.{records_of, create_operation-CreatesRecord, writes-WritesRecord}
use corrobo.Memory.Lock.{try_acquire_lock_excludes, release_frees}
use corrobo.Runtime.Decision.{recorded, refusal_of}
use corrobo.Runtime.Decision.Tokens.{spent_token_refused, IsSince, refusal_of_accepts}
use corrobo.Runtime.Review.Approvals.{IsBefore, IsWithin, IsDated, check_approval_accepts}
use corrobo.Runtime.Review.{check_approval}
use corrobo.Runtime.Attempt.{bounded_observations}
use corrobo.Runtime.Attempt.Observations.{first?, bounded_observations_bounded}
use corrobo.Runtime.Review.{open_review}
use corrobo.Types.{ReviewEpisode}
use corrobo.Helpers.{reconciled, observed, helpers_are_understood}
use corrobo.Runtime.Answers.{reconciliation, read_reconciliation, is_observation}
use corrobo.Types.{words}
use corrobo.Types.{RecordedReview, OperationRecord, approved, rejected}
use corrobo.Scenarios.Setup.{
  copies, start, refusing, asking, after, stored, decision, token, new_refund, blank, the,
}

blank_reviewed : OperationRecord
unfolding recorded
blank_reviewed = record blank {
  review = some (recorded blank (decision token approved) "sha" 3);
  review_episode =
      some (record { token = token; generation = 1; opened_at = 2; superseded_decision = none });
}

abbrev one_record : InMemoryStore
one_record = record { records = ("refund-1", blank) ∷ []; locked = [] }

abbrev held : InMemoryStore
held = record { records = []; locked = "refund-1" ∷ [] }

abbrev attempt : ReservedAttemptInput
attempt = record { attempt_number = 1; started_at = 5; check = none; max_in_flight_ms = none }

abbrev reserved_attempt : ReservedAttempt
reserved_attempt = record {
  attempt_number = 1;
  started_at = 5;
  updated_at = 5;
  check = none;
  max_in_flight_ms = none;
}

abbrev reopening : OperationUpdate
reopening = record {
  status = some opened;
  review_reason = keep;
  blocked_by = keep;
  review = keep;
  review_episode = keep;
}

decided_input : DecideDispositionInput
decided_input = record {
  evidence_state = not_applied;
  attempt_number = 1;
  retry_policy = refusing.retry_policy;
  settlement = record {
    transport_ok = false;
    attempt_started_at = 5;
    now = 7;
    max_in_flight_ms = some 10;
  };
}

decide_disposition_retry_now_example :
    ((decide_disposition decided_input).disposition ≡ some retry)
      × ((decide_disposition decided_input).retry_not_before ≡ none)
    ↔ (decided_input.evidence_state ≡ not_applied)
      × (decided_input.retry_policy.retry_on_not_applied ≡ true)
      × (has_attempts_remaining decided_input.attempt_number decided_input.retry_policy.max_attempts
          ≡ true)
      × IsSettled decided_input.settlement
decide_disposition_retry_now_example = decide_disposition_retry_now decided_input

decide_disposition_retry_later_example :
    ((decide_disposition decided_input).disposition ≡ some retry)
    × (decided_input.evidence_state ≡ not_applied)
    × (decided_input.settlement.transport_ok ≡ false)
    × (decided_input.settlement.now < 15)
    × ((w : ℕ) × (decided_input.settlement.max_in_flight_ms ≡ some w)
        × (15 ≡ decided_input.settlement.attempt_started_at + w))
unfolding decide_disposition decided_input
decide_disposition_retry_later_example = decide_disposition_retry_later decided_input 15 refl

decide_disposition_pending_example :
    ((decide_disposition decided_input).disposition ≡ none)
    ↔ (decided_input.evidence_state ≡ pending)
decide_disposition_pending_example = decide_disposition_pending decided_input

writes-WritesRecord_example :
    WritesRecord records_of 9 "refund-1" 1
      (reserve_change attempt)
      one_record
      (reserve_attempt copies 9 "refund-1" attempt 1 one_record)
    × WritesRecord records_of 9 "refund-1" 1
        (append_change (reserved reserved_attempt) opened)
        one_record
        (append_attempt copies 9 "refund-1" (reserved reserved_attempt) opened 1 one_record)
    × WritesRecord records_of 9 "refund-1" 1
        (latest_change (reserved reserved_attempt) opened)
        one_record
        (update_latest_attempt copies 9 "refund-1" (reserved reserved_attempt) opened 1 one_record)
    × WritesRecord records_of 9 "refund-1" 1
        (operation_change reopening)
        one_record
        (update_operation copies 9 "refund-1" reopening 1 one_record)
    × WritesRecord records_of 9 "refund-1" 1
        (status_change opened)
        one_record
        (set_status copies 9 "refund-1" opened 1 one_record)
writes-WritesRecord_example =
    writes-WritesRecord copies 9 "refund-1" 1 one_record attempt (reserved reserved_attempt) opened
      reopening

create_operation-CreatesRecord_example :
    CreatesRecord records_of 9 new_refund start.state
      (create_operation copies 9 new_refund start.state)
create_operation-CreatesRecord_example =
    create_operation-CreatesRecord copies 9 new_refund start.state

try_acquire_lock_excludes_example :
    ((try_acquire_lock "refund-1" (try_acquire_lock "refund-1" start.state).1).0 ≡ ok true)
    ↔ (str_eq "refund-1" "refund-1" ≡ false)
      × ((try_acquire_lock "refund-1" start.state).0 ≡ ok true)
unfolding try_acquire_lock is_locked
try_acquire_lock_excludes_example = try_acquire_lock_excludes "refund-1" "refund-1" start.state refl

release_frees_example :
    (((try_acquire_lock "refund-1" (release (acquired "refund-1") held).1).0 ≡ ok true)
      ↔ (((acquired "refund-1").released ≡ false) × (str_eq "refund-1" "refund-1" ≡ true))
        ⊎ ((try_acquire_lock "refund-1" held).0 ≡ ok true))
    × (release (release (acquired "refund-1") held).0 held
        ≡ ((release (acquired "refund-1") held).0, held))
release_frees_example = release_frees (acquired "refund-1") "refund-1" held held

spent_token_refused_example : refusal_of blank_reviewed (decision token rejected) ≢ none
unfolding blank_reviewed
spent_token_refused_example =
    spent_token_refused blank_reviewed (recorded blank (decision token approved) "sha" 3)
      (decision token rejected) refl refl

approval : RecordedReview
unfolding recorded
approval = recorded blank (decision token approved) "sha" 3

check_approval_accepts_example :
    (check_approval (some 10) "sha" approval 12 ≡ ok none)
    ↔ ("sha" ≡ approval.intent_fingerprint)
      × IsBefore 12 approval.expires_at
      × IsWithin 12 (some 10) approval.decided_at
      × IsWithin 12 (some 10) approval.recorded_at
      × IsDated (some 10) approval.expires_at approval.decided_at approval.recorded_at
check_approval_accepts_example = check_approval_accepts (some 10) "sha" approval 12

many : ℕ → List Value
many zero = []
many (suc n) = Value.number (Number.whole n) ∷ many n

bounded_observations_bounded_example :
    (length (bounded_observations (many 30)) ≤ 20)
    × (first? (bounded_observations (many 30)) ≡ first? (many 30))
    × (get_last? (bounded_observations (many 30)) ≡ get_last? (many 30))
bounded_observations_bounded_example = bounded_observations_bounded (many 30)

helpers_are_understood_example :
    (read_reconciliation (reconciled not_applied "REFUND_MISSING" "No refund." none)
      ≡ reconciliation (record {
        evidence_state = not_applied;
        reason = record {
          code = "REFUND_MISSING";
          summary = words "No refund." ∷ [];
          metadata = none;
        };
        observed_effect = Value.undefined;
      }))
    × (is_observation (observed Value.null "ledger" true none 4000) ≡ true)
    × (get (observed Value.null "ledger" true none 4000) "data" ≡ got Value.null)
    × (get (observed Value.null "ledger" true none 4000) "authoritative" ≡ got (Value.boolean true))
    × (get (observed Value.null "ledger" true none 4000) "source" ≡ got (Value.text "ledger"))
    × (get (observed Value.null "ledger" true none 4000) "observedAt"
        ≡ got (Value.text (get_or none (to_iso_string 4000))))
helpers_are_understood_example =
    helpers_are_understood not_applied "REFUND_MISSING" "No refund." Value.null "ledger" true none
      4000

refusal_of_accepts_example :
    (refusal_of (the (stored (after asking start))) (decision token approved) ≡ none)
    ↔ ((the (stored (after asking start))).status ≡ awaiting_review)
      × (e : ReviewEpisode) × (open_review (the (stored (after asking start))) ≡ some e)
      × ((decision token approved).review_token ≡ e.token)
      × IsSince (decision token approved).decided_at e.opened_at
refusal_of_accepts_example =
    refusal_of_accepts (the (stored (after asking start))) (decision token approved)

abbrev escalated : ReasonCode
escalated = record { code = "LARGE_REFUND"; summary = []; metadata = none }

-- Approved, but nobody recorded by whom.
abbrev unattributed : OperationRecord
unattributed = record blank {
  review_reason = some escalated;
  review = some (record {
    decision = approved;
    reviewer = none;
    decided_at = 3;
    expires_at = none;
    note = none;
    intent_fingerprint = "sha";
    recorded_at = 3;
    review_token = some token;
    attempt_count = some 0;
  });
}

unapproved_executes_nothing_example :
    executions (check_then_attempt host completing unattributed request start).1.calls
    ≡ executions start.calls
unapproved_executes_nothing_example =
    unapproved_executes_nothing host completing unattributed request escalated start refl
      (λ a e name q. ground arith)
