-- ===== src/Ledger/Truth.antt =====
-- examples/conformance/fake-ledger.ts: writes to the ledger, and what the contract makes of it.
use corrobo.Base.{
  ℕ, suc, ◌<◌, ◌==◌, ◌≡◌, refl, String, Bool, true, false, some, arith, inl, inr, Bool-cases,
  ==_iff, if◌then◌else◌, ◌∙◌, str_eq, eq_iff,
}
use corrobo.Types.{EvidenceState, applied, not_applied, conflicted, pending, unknown}
use corrobo.Memory.Map.{lookup, lookup-insert}
use corrobo.Ledger.{
  FakeLedger, Mode, normal, lose_response, lose_request, hold, as_pending, effect_count, apply,
  write_in, write_credit, read_credits, reading_of, Reading, reconcile_reading, is_waiting,
}

-- What an evidence state says of the ledger.
abbrev pub Holds : String → FakeLedger → EvidenceState → Type 0
Holds id s applied = effect_count id s ≡ 1
Holds id s not_applied = effect_count id s ≡ 0
Holds id s conflicted = 1 < effect_count id s
Holds id s pending = is_waiting (lookup id s.unsettled) ≡ true
Holds id s unknown = s.fail_read ≡ true

more_than_one : (n : ℕ) → (n == 0) ≡ false → (n == 1) ≡ false → 1 < n
more_than_one n z o = ground arith

judged-Holds :
    (id : String) (s : FakeLedger) (r : Reading)
    → is_waiting (lookup id s.unsettled) ≡ r.is_pending
    → effect_count id s ≡ r.count
    → Holds id s (reconcile_reading (some r))
unfolding reconcile_reading
judged-Holds id s r waits counts = elim (Bool-cases r.is_pending) [
  | inl p ↦ rw p (waits ∙ p)
  | inr p ↦ elim (Bool-cases (r.count == 0)) [
    | inl z ↦ rw (p, z) (omega (arith, counts, (==_iff r.count 0).0 z))
    | inr z ↦ elim (Bool-cases (r.count == 1)) [
      | inl o ↦ rw (p, z, o) (omega (arith, counts, (==_iff r.count 1).0 o))
      | inr o ↦ rw (p, z, o) (omega (arith, counts, more_than_one r.count z o))
    ]
  ]
]

reading-Holds :
    (id : String) (s : FakeLedger) (failing : Bool)
    → s.fail_read ≡ failing
    → Holds id s (reconcile_reading (reading_of failing id s).0)
unfolding reconcile_reading
reading-Holds id s true e = e
reading-Holds id s false e = judged-Holds id s _ refl refl

-- What the contract concludes from a reading of the ledger is so of the ledger: applied, exactly one
-- credit; not applied, none; conflicted, more than one; pending, a write that is not settled; unknown,
-- a reading that fails.
pub reconcile_reading-Holds :
    (id : String) (s : FakeLedger) → Holds id s (reconcile_reading (read_credits id s).0)
unfolding read_credits
reconcile_reading-Holds id s = reading-Holds id s s.fail_read refl

effect_count-apply :
    (id other : String) (s : FakeLedger)
    → effect_count other (apply id s)
      ≡ (if str_eq id other then suc (effect_count other s) else effect_count other s)
unfolding effect_count apply
effect_count-apply id other s =
    ground (arith, eq_iff id other, lookup-insert id other (suc (effect_count id s)) s.credits)

-- Whether the ledger applies a write at once.
abbrev pub applies : Mode → Bool
applies normal = true
applies lose_response = true
applies _ = false

write_in_counts :
    (m : Mode) (id other : String) (s : FakeLedger)
    → effect_count other (write_in m id s).1 ≡ (
        if applies m
        then if str_eq id other then suc (effect_count other s) else effect_count other s
        else effect_count other s)
unfolding effect_count
write_in_counts normal id other s = effect_count-apply id other s
write_in_counts lose_response id other s = effect_count-apply id other s
write_in_counts lose_request id other s = refl
write_in_counts hold id other s = refl
write_in_counts as_pending id other s = refl

-- A write adds one credit to its own operation exactly when the ledger applies it at once, whether its
-- response arrives or is lost, and none otherwise, and none to any other operation.
pub write_credit_counts :
    (id other : String) (s : FakeLedger)
    → effect_count other (write_credit id s).1 ≡ (
        if applies s.mode
        then if str_eq id other then suc (effect_count other s) else effect_count other s
        else effect_count other s)
unfolding write_credit effect_count
write_credit_counts id other s = write_in_counts s.mode id other (record s { mode = normal })
