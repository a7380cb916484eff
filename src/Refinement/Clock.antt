-- ===== src/Refinement/Clock.antt =====
-- src/core/runtime.ts `safetyNow`: the clock that decisions go by.
use corrobo.Base.{ℕ, ◌≡◌, arith, Option, none, some}
use corrobo.Fault.{Outcome, ok}
use corrobo.Runtime.Monad.{Host, World, Action, now_iso, on_store, safety_now}
use corrobo.Runtime.Frame.{ReturnedBy}

-- A time that the clock by which the runtime decides gives: the store's, if it has one, and else the
-- process's.
abbrev GivesTime : {S : Type 0} → Host S → Option (ℕ → S → Outcome ℕ × S) → ℕ → Type 0
GivesTime h none now = (k : ℕ) × (now ≡ h.clock k)
GivesTime {S} h (some read) now = (n : ℕ) × (s : S) × ((read n s).0 ≡ ok now)

abbrev pub IsReading : {S : Type 0} → Host S → ℕ → Type 0
IsReading h now = GivesTime h h.store.now now

clock_gives :
    {S : Type 0} (h : Host S) (clock : Option (ℕ → S → Outcome ℕ × S)) (w : World S) (t : ℕ)
    → (elim clock as (λ _. Action S ℕ) [ some read ↦ on_store h read | none ↦ now_iso h ] w).0
      ≡ ok t
    → GivesTime h clock t
unfolding on_store now_iso
clock_gives h none w t e = (w.ticks, ground arith)
clock_gives h (some read) w t e = (h.clock w.ticks, h.others w.ticks w.state, e)

pub safety_now-IsReading :
    {S : Type 0} (h : Host S) (t : ℕ) → ReturnedBy (safety_now h) t → IsReading h t
unfolding safety_now
safety_now-IsReading h t (w, e) = clock_gives h h.store.now w t e
