-- ===== src/Helpers.antt =====
-- src/core/helpers.ts: the answers of hooks that contracts build with it. `defineContract` returns the
-- contract that it is given, and only helps its types along.
use corrobo.Base.{ℕ, String, Bool, true, ◌≡◌, refl, Option, none, some, [], ◌∷◌, get_or}
use corrobo.Text.{to_iso_string}
use corrobo.Value.{Value, Fields, field, end, get, got}
use corrobo.Types.{EvidenceState, applied, not_applied, conflicted, pending, unknown, words}
use corrobo.Runtime.Answers.{reconciliation, read_reconciliation, is_observation}

-- `EvidenceState`, as the strings that it stands for.
abbrev pub evidence_text : EvidenceState → String
evidence_text applied = "APPLIED"
evidence_text not_applied = "NOT_APPLIED"
evidence_text conflicted = "CONFLICTED"
evidence_text pending = "PENDING"
evidence_text unknown = "UNKNOWN"

abbrev reason_fields : Option Fields → Fields
reason_fields none = end
reason_fields (some m) = field "metadata" (Value.object m) end

-- `reconciled`
unfoldable pub reconciled : EvidenceState → String → String → Option Fields → Value
reconciled st code summary metadata = Value.object (
    field "evidenceState" (Value.text (evidence_text st)) (
      field "reason"
        (Value.object (
          field "code" (Value.text code)
            (field "summary" (Value.text summary) (reason_fields metadata))))
        end))

-- `observed`, at the reading `now` of the clock.
unfoldable pub observed : Value → String → Bool → Option String → ℕ → Value
unfolding to_iso_string
observed value source authoritative observed_at now = Value.object (
    field "status" (Value.text "observed") (
      field "data" value (
        field "authoritative" (Value.boolean authoritative) (
          field "source" (Value.text source)
            (field "observedAt" (Value.text (get_or observed_at (to_iso_string now))) end)))))

-- What `reconciled` builds without metadata is read back by the runtime as the same evidence state,
-- code and summary; what `observed` builds counts as an observation, with the data and the source that
-- it was given, as authoritative as it was said to be, and at the time given or else that of the clock.
pub helpers_are_understood :
    (st : EvidenceState) (code summary : String) (value : Value) (source : String) (a : Bool)
    (at : Option String) (now : ℕ)
    → (read_reconciliation (reconciled st code summary none)
        ≡ reconciliation (record {
          evidence_state = st;
          reason = record { code = code; summary = words summary ∷ []; metadata = none };
          observed_effect = Value.undefined;
        }))
      × (is_observation (observed value source a at now) ≡ true)
      × (get (observed value source a at now) "data" ≡ got value)
      × (get (observed value source a at now) "authoritative" ≡ got (Value.boolean a))
      × (get (observed value source a at now) "source" ≡ got (Value.text source))
      × (get (observed value source a at now) "observedAt"
          ≡ got (Value.text (get_or at (to_iso_string now))))
unfolding read_reconciliation reconciled is_observation observed get
helpers_are_understood applied code summary value source a at now =
    (refl, refl, refl, refl, refl, refl)
helpers_are_understood not_applied code summary value source a at now =
    (refl, refl, refl, refl, refl, refl)
helpers_are_understood conflicted code summary value source a at now =
    (refl, refl, refl, refl, refl, refl)
helpers_are_understood pending code summary value source a at now =
    (refl, refl, refl, refl, refl, refl)
helpers_are_understood unknown code summary value source a at now =
    (refl, refl, refl, refl, refl, refl)
