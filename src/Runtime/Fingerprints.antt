-- ===== src/Runtime/Fingerprints.antt =====
-- src/core/fingerprint.ts `fingerprintIntent`, as the runtime calls it: the contract's own is called,
-- with the intent's JSON form, if the intent has one.
use corrobo.Base.{String, none, some, List, ◌∷◌}
use corrobo.Value.{Value, Stored, plain, json}
use corrobo.Types.{EffectContract}
use corrobo.Fingerprint.{fingerprint_intent}
use corrobo.Runtime.Monad.{Action, Call, fingerprinting}

abbrev pub noted : Stored → List Call → List Call
noted (plain v) cs = fingerprinting v ∷ cs
noted _ cs = cs

unfoldable pub ask_fingerprint : {S : Type 0} → EffectContract → Value → Action S String
unfolding fingerprint_intent json
ask_fingerprint c v w = (
  fingerprint_intent c v,
  record w {
    calls = elim c.fingerprint_intent [ some _ ↦ noted (json v) w.calls | none ↦ w.calls ];
  },
)
