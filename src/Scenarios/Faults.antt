-- ===== src/Scenarios/Faults.antt =====
-- Injected faults and the fake ledger at concrete inputs.
use corrobo.Base.{arith, suc, ◌≡◌, refl, str_eq, [], ◌∷◌, if◌then◌else◌, none, some}
use corrobo.Types.{applied, pending}
use corrobo.Memory.Map.{lookup, insert}
use corrobo.Injection.{
  network_error, after_effect, FaultRule, with_fault_injection, Injected, nothing, first, later,
  with_fault_injection-Injected,
}
use corrobo.Ledger.{
  FakeLedger, lose_response, as_pending, write_credit, read_credits, reconcile_reading,
  effect_count, reset_ledger, apply,
}
use corrobo.Ledger.Truth.{Holds, applies, reconcile_reading-Holds, write_credit_counts}

abbrev losing : FakeLedger
losing = record reset_ledger { mode = lose_response }

abbrev accepting : FakeLedger
accepting = record reset_ledger { mode = as_pending }

write_credit_counts_example : effect_count "op" (write_credit "op" losing).1 ≡ (
    if applies losing.mode
    then if str_eq "op" "op" then suc (effect_count "op" losing) else effect_count "op" losing
    else effect_count "op" losing)
write_credit_counts_example = write_credit_counts "op" "op" losing

lost_write_is_found : reconcile_reading (read_credits "op" (write_credit "op" losing).1).0 ≡ applied
unfolding reconcile_reading read_credits write_credit apply effect_count insert lookup
lost_write_is_found = refl

accepted_write_is_pending :
    reconcile_reading (read_credits "op" (write_credit "op" accepting).1).0 ≡ pending
unfolding reconcile_reading read_credits write_credit insert lookup
accepted_write_is_pending = refl

reconcile_reading-Holds_example : Holds "op" losing (reconcile_reading (read_credits "op" losing).0)
reconcile_reading-Holds_example = reconcile_reading-Holds "op" losing

abbrev rule : FaultRule
rule = record { phase = after_effect; attempt = 1; fault = network_error }

with_fault_injection-Injected_example :
    Injected write_credit none
      (some network_error)
      "op"
      reset_ledger
      (with_fault_injection write_credit (rule ∷ []) 1 "op" reset_ledger)
with_fault_injection-Injected_example =
    with_fault_injection-Injected write_credit (rule ∷ []) 1 "op" reset_ledger none
      (some network_error) (later rule [] none (λ p n. ground arith) nothing)
      (first rule [] refl refl)
