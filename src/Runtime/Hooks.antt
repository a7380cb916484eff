-- ===== src/Runtime/Hooks.antt =====
-- src/core/runtime.ts: the calls of execute(), observe(), reconcile() and revalidate(). What they
-- throw becomes evidence, never an exception of the pass.
use corrobo.Base.{ℕ, String, Option, none, some, List, [], ◌∷◌, ◌++◌, if◌then◌else◌, get_or}
use corrobo.Text.{to_iso_string}
use corrobo.Value.{Value, field, end, Read, threw, got, get, is_object_type}
use corrobo.Types.{
  EffectContract, HookResult, throws, returns, TransportOutcome, responded, transport_error,
  ExecuteInput, ObserveInput, ReconcileInput, RevalidateInput, ReasonCode, Piece, words,
  CheckOutcome, proceed, requires_review, failed,
}
use corrobo.Runtime.Monad.{
  Host, Action, pure, ◌>>=◌, now_iso, await_hook, call_hook, executing, observing, reconciling,
  revalidating,
}
use corrobo.Runtime.Answers.{
  OptionalReason, no_reason, bad_reason, unreadable, some_reason, optional_reason, Reconciliation,
  reconcile_failed, ReconcileRead, reconcile_threw, not_a_reconciliation, reconciliation,
  read_reconciliation, is_observation, is_copyable, Snapshot, snapshot_observation, with_raw,
  decision_of,
}

pub record Observed : Type 0 where
  pub observation : Value
  pub stored : Value

-- What a check before an attempt found: `Pick<PreExecuteCheck, "outcome" | "reason">`.
pub record Verification : Type 0 where
  pub outcome : CheckOutcome
  pub reason : ReasonCode

unfoldable pub revalidation_failed : List Piece → Verification
revalidation_failed summary = record {
  outcome = failed;
  reason = record {
    code = "REVALIDATION_FAILED";
    summary =
        summary
        ++ words " Nothing was executed; the operation stays open, so a later call checks again."
          ∷ [];
    metadata = none;
  };
}

-- `REVALIDATION_DEFAULT_REASONS`
unfoldable pub revalidation_default_reason : CheckOutcome → ReasonCode
revalidation_default_reason proceed = record {
  code = "REVALIDATION_PASSED";
  summary = words "revalidate() allowed this attempt." ∷ [];
  metadata = none;
}
revalidation_default_reason requires_review = record {
  code = "REVALIDATION_REQUIRES_REVIEW";
  summary =
      words "revalidate() requires human review before this attempt is made. Nothing was executed."
      ∷ [];
  metadata = none;
}
revalidation_default_reason _ = record {
  code = "REVALIDATION_REJECTED";
  summary =
      words
        "revalidate() rejected this attempt. Nothing was executed, and this operation will not be attempted again; if the action is still wanted, it needs a fresh decision and a new identity."
      ∷ [];
  metadata = none;
}

revalidation_from : Option CheckOutcome → OptionalReason → Verification
unfolding revalidation_failed revalidation_default_reason
revalidation_from none _ = revalidation_failed (
    words
      "revalidate() returned no valid decision (expected \"proceed\", \"requiresReview\" or \"reject\")."
    ∷ [])
revalidation_from (some d) bad_reason =
    revalidation_failed
      (words "revalidate() returned a reason without a string code and summary." ∷ [])
revalidation_from (some d) (some_reason r) = record { outcome = d; reason = r }
revalidation_from (some d) _ = record { outcome = d; reason = revalidation_default_reason d }

module _ {S : Type 0} (h : Host S) where
  conversion_failed : String
  conversion_failed = "(the thrown value could not be converted to a message)"

  own_message : Value → Read → String
  unfolding conversion_failed
  own_message v threw = conversion_failed
  own_message v (got (Value.text m)) = m
  own_message v (got _) = get_or (h.to_text v) conversion_failed

  -- `errorMessage`
  unfoldable pub error_message : Value → String
  unfolding own_message conversion_failed get
  error_message v =
      if is_object_type v
      then own_message v (get v "message")
      else get_or (h.to_text v) conversion_failed

  module _ (c : EffectContract) where
    executed : HookResult → TransportOutcome
    unfolding error_message
    executed (returns v) = responded v
    executed (throws e) = transport_error (error_message e) (some e)

    unfoldable pub safe_execute : ExecuteInput → Action S TransportOutcome
    unfolding await_hook executed
    safe_execute i = do
      answer ← await_hook h (executing i) (λ n. c.execute n i)
      pure (executed answer)

    -- The caught branch of `safeObserve`: a failed observation.
    observation_failed : Value → ℕ → Observed
    unfolding error_message to_iso_string
    observation_failed e now =
        let v = Value.object (
          field "status" (Value.text "observation_failed") (
            field "error"
              (Value.object (field "message" (Value.text (error_message e)) (field "raw" e end)))
              (field "source" (Value.text c.operation_type)
                (field "observedAt" (Value.text (to_iso_string now)) end)))) in
        record { observation = v; stored = v }

    no_observation : Value
    no_observation =
        Value.error
          "observe() returned no valid observation (status \"observed\", \"pending\" or \"observation_failed\" with an error message)"

    -- An answer that can be read, copied and stored, and is an observation; or what is thrown.
    observation_of : Value → Option Snapshot → HookResult
    unfolding is_copyable is_observation with_raw no_observation
    observation_of v none = throws (h.read_error v)
    observation_of v (some s) =
        if is_copyable s.stored
        then (if is_observation s.stored
            then returns (with_raw s.raw s.stored)
            else throws no_observation)
        else throws (h.read_error v)

    checked_observation : HookResult → HookResult
    unfolding observation_of snapshot_observation
    checked_observation (throws e) = throws e
    checked_observation (returns v) = observation_of v (snapshot_observation v)

    answered : HookResult → Value
    answered (throws e) = e
    answered (returns v) = v

    unfoldable pub concluded : Value → HookResult → Action S Observed
    unfolding observation_failed now_iso
    concluded v (returns stored) = pure (record { observation = v; stored = stored })
    concluded v (throws e) = now_iso h >>= λ now. pure (observation_failed e now)

    unfoldable pub safe_observe : ObserveInput → Action S Observed
    unfolding await_hook checked_observation answered concluded
    safe_observe i = do
      answer ← await_hook h (observing i) (λ n. c.observe n i)
      concluded (answered answer) (checked_observation answer)

    reconciled_from : Value → ReconcileRead → Reconciliation
    unfolding reconcile_failed error_message
    reconciled_from v reconcile_threw = reconcile_failed (
        words "reconcile() threw: "
        ∷ words (error_message (h.read_error v))
        ∷ words ". What happened can't be established from it; investigate."
        ∷ [])
    reconciled_from v not_a_reconciliation = reconcile_failed (
        words
          "reconcile() returned no valid evidence state and reason. What happened can't be established from it; investigate."
        ∷ [])
    reconciled_from v (reconciliation r) = r

    reconciled : HookResult → Reconciliation
    unfolding reconcile_failed error_message reconciled_from read_reconciliation
    reconciled (throws e) = reconcile_failed (
        words "reconcile() threw: "
        ∷ words (error_message e)
        ∷ words ". What happened can't be established from it; investigate."
        ∷ [])
    reconciled (returns v) = reconciled_from v (read_reconciliation v)

    unfoldable pub safe_reconcile : ReconcileInput → Action S Reconciliation
    unfolding call_hook reconciled
    safe_reconcile i = do
      answer ← call_hook h (reconciling i) (λ n. c.reconcile n i)
      pure (reconciled answer)

    revalidation_threw : Value → Verification
    unfolding revalidation_failed error_message
    revalidation_threw e =
        revalidation_failed
          (words "revalidate() threw: " ∷ words (error_message e) ∷ words "." ∷ [])

    -- Each property is read inside the `try`; an answer that is no object has no decision.
    revalidation_reads : Value → Read → OptionalReason → Verification
    unfolding revalidation_threw revalidation_from decision_of
    revalidation_reads v threw _ = revalidation_threw (h.read_error v)
    revalidation_reads v (got d) unreadable = revalidation_threw (h.read_error v)
    revalidation_reads v (got d) r = revalidation_from (decision_of (got d)) r

    revalidated : HookResult → Verification
    unfolding revalidation_threw revalidation_reads get optional_reason revalidation_from
    revalidated (throws e) = revalidation_threw e
    revalidated (returns v) =
        if is_object_type v
        then revalidation_reads v (get v "decision") (optional_reason (get v "reason"))
        else revalidation_from none no_reason

    unfoldable pub run_revalidate :
        (ℕ → RevalidateInput → HookResult) → RevalidateInput → Action S Verification
    unfolding await_hook revalidated
    run_revalidate hook i = do
      answer ← await_hook h (revalidating i) (λ n. hook n i)
      pure (revalidated answer)
