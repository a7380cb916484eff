-- ===== src/Ledger.antt =====
-- examples/conformance/fake-ledger.ts: a ledger of credits with faults, and the contract against it. The
-- hold that may still land is the latest one's.
pub mod Truth
use corrobo.Base.{
  ℕ, suc, ◌+◌, ◌==◌, String, Bool, true, false, ◌&&◌, Option, none, some, get_or, List, [], ◌∷◌,
  if◌then◌else◌,
}
use corrobo.Types.{EvidenceState, applied, not_applied, conflicted, pending, unknown}
use corrobo.Memory.Map.{Dict, lookup, insert}

pub data Mode : Type 0 where
  normal lose_response lose_request hold as_pending : Mode

pub data Waiting : Type 0 where
  waiting rejected : Waiting

pub record FakeLedger : Type 0 where
  pub credits : Dict ℕ
  pub unsettled : Dict Waiting
  pub mode : Mode
  -- the operation that the held request is for, once it has come
  pub held_for : Option String
  pub fail_read : Bool

unfoldable pub effect_count : String → FakeLedger → ℕ
unfolding lookup
effect_count id s = get_or (lookup id s.credits) 0

unfoldable pub apply : String → FakeLedger → FakeLedger
unfolding insert effect_count
apply id s = record s { credits = insert id (suc (effect_count id s)) s.credits }

abbrev pub write_in : Mode → String → FakeLedger → Bool × FakeLedger
write_in lose_request id s = (false, s)
write_in hold id s = (false, record s { held_for = some id })
write_in as_pending id s = (true, record s { unsettled = insert id waiting s.unsettled })
write_in normal id s = (true, apply id s)
write_in lose_response id s = (false, apply id s)

-- `write`: whether it answers, and the ledger
unfoldable pub write_credit : String → FakeLedger → Bool × FakeLedger
unfolding apply insert
write_credit id s = write_in s.mode id (record s { mode = normal })

abbrev pub is_waiting : Option Waiting → Bool
is_waiting none = false
is_waiting (some waiting) = true
is_waiting (some rejected) = false

pub record Reading : Type 0 where
  pub count : ℕ
  pub is_pending : Bool

abbrev pub reading_of : Bool → String → FakeLedger → Option Reading × FakeLedger
reading_of true id s = (none, record s { fail_read = false })
reading_of false id s = (
  some (record { count = effect_count id s; is_pending = is_waiting (lookup id s.unsettled) }),
  s,
)

-- `read`, which throws once after `failNextRead`
unfoldable pub read_credits : String → FakeLedger → Option Reading × FakeLedger
unfolding effect_count lookup
read_credits id s = reading_of s.fail_read id s

-- The function that `holdCommit` returns
unfoldable pub land : FakeLedger → FakeLedger
unfolding apply
land s = elim s.held_for [ none ↦ s | some id ↦ apply id s ]

abbrev settled : Dict Waiting → FakeLedger → FakeLedger
settled [] s = s
settled ((id, waiting) ∷ d) s = settled d (apply id s)
settled ((id, rejected) ∷ d) s = settled d s

abbrev only_rejected : Dict Waiting → Dict Waiting
only_rejected [] = []
only_rejected ((id, waiting) ∷ d) = only_rejected d
only_rejected ((id, rejected) ∷ d) = (id, rejected) ∷ only_rejected d

abbrev all_rejected : Dict Waiting → Dict Waiting
all_rejected [] = []
all_rejected ((id, w) ∷ d) = (id, rejected) ∷ all_rejected d

-- `settle("applied")` and `settle("rejected")`
unfoldable pub settle_applied : FakeLedger → FakeLedger
unfolding apply
settle_applied s = settled s.unsettled (record s { unsettled = only_rejected s.unsettled })

unfoldable pub settle_rejected : FakeLedger → FakeLedger
settle_rejected s = record s { unsettled = all_rejected s.unsettled }

abbrev pub reset_ledger : FakeLedger
reset_ledger = record {
  credits = [];
  unsettled = [];
  mode = normal;
  held_for = none;
  fail_read = false;
}

-- `reconcile` of `correctContract`, where a failed read is an observation that is not "observed"
unfoldable pub reconcile_reading : Option Reading → EvidenceState
reconcile_reading none = unknown
reconcile_reading (some r) =
    if r.is_pending
    then pending
    else if r.count == 0
    then not_applied
    else if r.count == 1
    then applied
    else conflicted
