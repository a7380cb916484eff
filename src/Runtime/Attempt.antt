-- ===== src/Runtime/Attempt.antt =====
-- src/core/runtime.ts: one attempt, from its reservation to its resolution, and the two ways to look
-- at an attempt again without executing.
pub mod Observations
use corrobo.Base.{
  ℕ, ◌-◌, Bool, true, false, Option, none, some, List, [], ◌∷◌, leb, if◌then◌else◌, length, drop,
  push, max,
}
use corrobo.Value.{Value, json_copy}
use corrobo.Types.{
  OperationIdentity, TransportOutcome, responded, transport_error, PreExecuteCheck, EvidenceState,
  ReservedAttempt, ResolvedAttempt, resolved, ReservedAttemptInput, OperationRecord, EffectContract,
  EffectResult,
}
use corrobo.Text.{is_date}
use corrobo.Fault.{range_error}
use corrobo.Disposition.{DecideDispositionResult, decide_disposition}
use corrobo.Runtime.Monad.{Host, Action, pure, guard, ◌>>=◌, ◌>>◌, now_iso, on_store, safety_now}
use corrobo.Runtime.Answers.{Reconciliation}
use corrobo.Runtime.Hooks.{safe_execute, safe_observe, safe_reconcile}
use corrobo.Runtime.Report.{status_after, result_from_record}

-- `settlementWindow`
unfoldable pub settlement_window : Option ℕ → Option ℕ → Option ℕ
settlement_window none when_started = none
settlement_window (some current) none = some current
settlement_window (some current) (some started) = some (max current started)

abbrev pub transport_ok : TransportOutcome → Bool
transport_ok (responded _) = true
transport_ok (transport_error _ _) = false

-- `MAX_OBSERVATIONS` and `boundedObservations`: the first observation and the most recent ones.
abbrev pub max_observations : ℕ
max_observations = 20

unfoldable pub bounded_observations : List Value → List Value
bounded_observations [] = []
bounded_observations (o ∷ os) =
    if leb (length (o ∷ os)) max_observations
    then o ∷ os
    else o ∷ drop (length (o ∷ os) - (max_observations - 1)) (o ∷ os)

-- `decide`
unfoldable pub decide :
    EffectContract
    → EvidenceState
    → ReservedAttemptInput
    → TransportOutcome
    → ℕ
    → DecideDispositionResult
unfolding decide_disposition settlement_window
decide c evidence base transport now = decide_disposition (record {
  evidence_state = evidence;
  attempt_number = base.attempt_number;
  retry_policy = c.retry_policy;
  settlement = record {
    transport_ok = transport_ok transport;
    attempt_started_at = base.started_at;
    now = now;
    max_in_flight_ms = settlement_window c.max_in_flight_ms base.max_in_flight_ms;
  };
})

-- `resolveAttempt`, at the reading `now` of the safety clock and `updated_at` of the local one.
unfoldable pub resolve_attempt :
    EffectContract
    → ReservedAttemptInput
    → TransportOutcome
    → List Value
    → Reconciliation
    → ℕ
    → ℕ
    → ResolvedAttempt
unfolding decide json_copy
resolve_attempt c base transport observations rec now updated_at =
    let d = decide c rec.evidence_state base transport now in
    record {
      attempt_number = base.attempt_number;
      started_at = base.started_at;
      updated_at = updated_at;
      transport = transport;
      observations = observations;
      observed_effect = json_copy rec.observed_effect;
      evidence_state = rec.evidence_state;
      evidence_reason = rec.reason;
      disposition = d.disposition;
      disposition_reason = d.reason;
      retry_not_before = d.retry_not_before;
      check = base.check;
      max_in_flight_ms = base.max_in_flight_ms;
    }

-- `decideRetry` writes the end of the window as a date, and throws where `Date` cannot represent it.
abbrev pub has_date : Option ℕ → Bool
has_date none = true
has_date (some t) = is_date t

-- `AttemptBase`
pub record AttemptBase : Type 0 where
  pub identity : OperationIdentity
  pub version : ℕ
  pub attempt_number : ℕ

abbrev pub base_of_reserved : ReservedAttempt → ReservedAttemptInput
base_of_reserved a = record {
  attempt_number = a.attempt_number;
  started_at = a.started_at;
  check = a.check;
  max_in_flight_ms = a.max_in_flight_ms;
}

abbrev pub base_of_resolved : ResolvedAttempt → ReservedAttemptInput
base_of_resolved a = record {
  attempt_number = a.attempt_number;
  started_at = a.started_at;
  check = a.check;
  max_in_flight_ms = a.max_in_flight_ms;
}

unfoldable pub unknown_transport : TransportOutcome
unknown_transport =
    transport_error
      "This attempt was reserved before execute() ran, but no resolution was ever recorded (the process may have restarted mid-attempt). The transport outcome of execute() is unknown."
      none

module _ {S : Type 0} (h : Host S) (c : EffectContract) where
  -- The common tail of the three: observe, reconcile, and store what follows at `version`.
  -- `earlier` is what was observed of the attempt before; one observation alone is within the bound.
  unfoldable pub observe_and_resolve :
      OperationIdentity
      → Value
      → ReservedAttemptInput
      → TransportOutcome
      → List Value
      → ℕ
      → Action S OperationRecord
  unfolding safe_observe safe_reconcile safety_now now_iso on_store resolve_attempt
      bounded_observations status_after
  observe_and_resolve identity intent base transport earlier version = do
    seen ← safe_observe h c (record {
      intent = intent;
      identity = identity;
      transport = transport;
      attempt_started_at = base.started_at;
    })
    reconciliation ←
        safe_reconcile h c
          (record { intent = intent; transport = transport; observation = seen.observation })
    now ← safety_now h
    updated_at ← now_iso h
    let attempt =
        resolve_attempt c base transport (bounded_observations (push earlier seen.stored))
          reconciliation now updated_at
    guard (has_date attempt.retry_not_before) range_error
    on_store h λ n.
        h.store.update_latest_attempt n identity.id (resolved attempt)
          (status_after attempt.evidence_state attempt.disposition) version

  unfoldable pub started : Option PreExecuteCheck → Action S ℕ
  unfolding safety_now
  started (some check) = pure check.checked_at
  started none = safety_now h

  -- `performAttempt`
  unfoldable pub perform_attempt :
      AttemptBase → Value → Option PreExecuteCheck → Action S EffectResult
  unfolding started safe_execute safety_now on_store observe_and_resolve result_from_record
  perform_attempt base intent check = do
    started_at ← started check
    let reserved : ReservedAttemptInput = record {
      attempt_number = base.attempt_number;
      started_at = started_at;
      check = check;
      max_in_flight_ms = c.max_in_flight_ms;
    }
    reserved_record ←
        on_store h λ n. h.store.reserve_attempt n base.identity.id reserved base.version
    transport ←
        safe_execute h c (record {
          intent = intent;
          identity = base.identity;
          attempt_number = base.attempt_number;
        })
    updated ← observe_and_resolve base.identity intent reserved transport [] reserved_record.version
    pure (result_from_record updated)

  -- `recoverReservedAttempt`
  unfoldable pub recover_reserved_attempt :
      OperationRecord → Value → ReservedAttempt → Action S EffectResult
  unfolding observe_and_resolve unknown_transport result_from_record
  recover_reserved_attempt r intent a = do
    updated ←
        observe_and_resolve r.identity intent (base_of_reserved a) unknown_transport [] r.version
    pure (result_from_record updated)

  -- `reObserve`
  unfoldable pub re_observe : OperationRecord → Value → ResolvedAttempt → Action S OperationRecord
  unfolding observe_and_resolve
  re_observe r intent a =
      observe_and_resolve r.identity intent (base_of_resolved a) a.transport a.observations
        r.version
