-- ===== src/Postgres/Columns.antt =====
-- src/stores/postgres.ts: the data of a record as `jsonb` columns give it back. A column is written as
-- JSON text: a property that JSON leaves out is absent when it is read again, and `JSON.stringify` may
-- throw. `reread` is what `jsonb` itself makes of plain data (it orders keys, for example).
use corrobo.Base.{String, List, [], ◌∷◌, Option, none, some}
use corrobo.Value.{Value, Stored, fails, absent, plain, json}
use corrobo.Types.{
  Piece, words, count, time, ReasonCode, TransportOutcome, responded, transport_error,
  RecordedReview, PreExecuteCheck, BlockingCheck, ReservedAttemptInput, ReservedAttempt,
  ResolvedAttempt, AttemptRecord, reserved, resolved,
}
use corrobo.Postgres.Jsonb.{jsonb_safe, jsonb_text, sanitize_transport, sanitize_observation}

infixl 5 ◌>>=◌
abbrev pub ◌>>=◌ : {A B : Type 0} → Option A → (A → Option B) → Option B
none >>= f = none
some a >>= f = f a

-- How texts and values are encoded: by `JSON.stringify`, or by `jsonbText`.
pub record Encoding : Type 0 where
  pub text : String → String
  pub value : Value → Stored

unfoldable pub as_json : Encoding
unfolding json
as_json = record { text = λ s. s; value = json }

unfoldable pub as_jsonb_text : Encoding
unfolding jsonb_safe jsonb_text
as_jsonb_text = record { text = jsonb_safe; value = jsonb_text }

module _ (reread : Value → Value) (e : Encoding) where
  abbrev option_text : Option String → Option String
  option_text none = none
  option_text (some s) = some (e.text s)

  abbrev property : Stored → Option (Option Value)
  property fails = none
  property absent = some none
  property (plain v) = some (some (reread v))

  abbrev element : Stored → Option Value
  element fails = none
  element absent = some Value.null
  element (plain v) = some (reread v)

  abbrev value_of : Option Value → Value
  value_of none = Value.undefined
  value_of (some v) = v

  unfoldable pub column_optional : Option Value → Option (Option Value)
  column_optional none = some none
  column_optional (some v) = property (e.value v)

  unfoldable pub column_pieces : List Piece → List Piece
  column_pieces [] = []
  column_pieces (words s ∷ ps) = words (e.text s) ∷ column_pieces ps
  column_pieces (count n ∷ ps) = count n ∷ column_pieces ps
  column_pieces (time t ∷ ps) = time t ∷ column_pieces ps

  unfoldable pub column_reason : ReasonCode → Option ReasonCode
  unfolding column_optional column_pieces
  column_reason r = column_optional r.metadata >>= λ m.
      some (record { code = e.text r.code; summary = column_pieces r.summary; metadata = m })

  unfoldable pub column_review : RecordedReview → RecordedReview
  column_review v = record v {
    reviewer = option_text v.reviewer;
    note = option_text v.note;
    intent_fingerprint = e.text v.intent_fingerprint;
    review_token = option_text v.review_token;
  }

  abbrev column_approval : Option RecordedReview → Option RecordedReview
  column_approval none = none
  column_approval (some v) = some (column_review v)

  unfoldable pub column_check : PreExecuteCheck → Option PreExecuteCheck
  unfolding column_reason column_review
  column_check k = column_reason k.reason >>= λ r. some (record {
    outcome = k.outcome;
    reason = r;
    approval = column_approval k.approval;
    attempt_number = k.attempt_number;
    checked_at = k.checked_at;
  })

  unfoldable pub column_checked : Option PreExecuteCheck → Option (Option PreExecuteCheck)
  unfolding column_check
  column_checked none = some none
  column_checked (some k) = column_check k >>= λ k'. some (some k')

  unfoldable pub column_block : BlockingCheck → Option BlockingCheck
  unfolding column_check
  column_block b =
      column_check b.check >>= λ k. some (record { check = k; record_version = b.record_version })

  unfoldable pub column_transport : TransportOutcome → Option TransportOutcome
  unfolding column_optional
  column_transport (responded v) = property (e.value v) >>= λ o. some (responded (value_of o))
  column_transport (transport_error m raw) =
      column_optional raw >>= λ o. some (transport_error (e.text m) o)

  unfoldable pub column_observations : List Value → Option (List Value)
  column_observations [] = some []
  column_observations (v ∷ vs) =
      let rest = column_observations vs in element (e.value v) >>= λ w. rest >>= λ ws. some (w ∷ ws)

  unfoldable pub column_resolved : ResolvedAttempt → Option ResolvedAttempt
  unfolding column_transport column_observations column_optional column_reason column_checked
  column_resolved a = column_transport a.transport >>= λ t.
      column_observations a.observations >>= λ os. column_optional a.observed_effect >>= λ effect.
      column_reason a.evidence_reason >>= λ er. column_reason a.disposition_reason >>= λ dr.
      column_checked a.check >>= λ k. some (record a {
        transport = t;
        observations = os;
        observed_effect = effect;
        evidence_reason = er;
        disposition_reason = dr;
        check = k;
      })

  unfoldable pub column_reserved : ReservedAttempt → Option ReservedAttempt
  unfolding column_checked
  column_reserved a = column_checked a.check >>= λ k. some (record a { check = k })

abbrev pub sanitized_all : List Value → List Value
sanitized_all [] = []
sanitized_all (v ∷ vs) = sanitize_observation v ∷ sanitized_all vs

-- `sanitizeAttemptForPersistence` of a resolved attempt.
unfoldable pub sanitize_attempt : ResolvedAttempt → ResolvedAttempt
unfolding sanitize_transport sanitize_observation
sanitize_attempt a = record a {
  transport = sanitize_transport a.transport;
  observations = sanitized_all a.observations;
}

module _ (reread : Value → Value) where
  -- `jsonbText(sanitizeAttemptForPersistence(attempt))`, as it is read again.
  unfoldable pub column_attempt : AttemptRecord → Option AttemptRecord
  unfolding column_reserved column_resolved sanitize_attempt as_jsonb_text
  column_attempt (reserved a) = column_reserved reread as_jsonb_text a >>= λ b. some (reserved b)
  column_attempt (resolved a) =
      column_resolved reread as_jsonb_text (sanitize_attempt a) >>= λ b. some (resolved b)

  -- The check of a reservation, written by `JSON.stringify`.
  unfoldable pub column_reservation : ReservedAttemptInput → Option ReservedAttemptInput
  unfolding column_checked as_json
  column_reservation i =
      column_checked reread as_json i.check >>= λ k. some (record i { check = k })

  -- `JSON.stringify(input.intent)`; a value without JSON is no column's value.
  unfoldable pub column_intent : Value → Option Value
  unfolding json
  column_intent v = elim (json v) [ plain w ↦ some (reread w) | _ ↦ none ]
