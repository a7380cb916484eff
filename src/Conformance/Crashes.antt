-- ===== src/Conformance/Crashes.antt =====
-- src/testing/conformance.ts: where the harness's store crashes.
use corrobo.Base.{◌≡◌, none}
use corrobo.Types.{OperationRecord}
use corrobo.Fault.{Outcome, thrown}
use corrobo.Store.Laws.{Records}
use corrobo.Memory.Writes.{records_of}
use corrobo.Conformance.{HarnessStore, simulated_crash}

abbrev pub harness_view : HarnessStore → Records
harness_view s = records_of s.memory

-- The harness crashed in this call, and will not crash again by itself.
abbrev pub Crashed : Outcome OperationRecord × HarnessStore → Type 0
Crashed o = (o.0 ≡ thrown simulated_crash) × (o.1.crash_on ≡ none)
