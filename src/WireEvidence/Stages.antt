-- ===== src/WireEvidence/Stages.antt =====
-- `transition_agreement` and `advance_readback` of wire_evidence.py.
use Prim.Native.String.{String}
use text.Mathlib.Text.{◌==◌ as str_eq}
use flop_agent_intelligence.Common.{Option, none, some, List, [], ◌∷◌, if◌then◌else◌}
use flop_agent_intelligence.Common.Result.{Result, ok, ◌>>=◌, or_raise}
use flop_agent_intelligence.WireEvidence.Types.{
  ReadBackStage, not_started, attempt_recorded, write_accepted, read_back_observed, decode_valid,
  signature_valid, state_replay_valid, evidence_confirmed, AgreementState, proposed, offer_verified,
  acceptance_verified, invalid, WireError, agreement_transition_invalid,
  readback_transition_invalid,
}

-- The value of a key in a table.
unfoldable pub look_up : {A : Type 0} → String → List (String × A) → Option A
look_up key [] = none
look_up key ((k, a) ∷ rest) = if str_eq k key then some a else look_up key rest

-- `_AGREEMENT_TRANSITIONS`, the events of each state
abbrev pub agreement_transitions : AgreementState → List (String × AgreementState)
agreement_transitions proposed = ("offer_verified", offer_verified) ∷ []
agreement_transitions offer_verified = ("acceptance_verified", acceptance_verified) ∷ []
agreement_transitions acceptance_verified =
    ("agreement_verified", AgreementState.agreement_verified) ∷ []
agreement_transitions _ = []

unfoldable pub transition_agreement : AgreementState → String → Result WireError AgreementState
transition_agreement state event =
    if str_eq event "invalid"
    then ok invalid
    else or_raise (look_up event (agreement_transitions state)) agreement_transition_invalid

-- `_READBACK_TRANSITIONS`, the events of each stage
abbrev pub readback_transitions : ReadBackStage → List (String × ReadBackStage)
readback_transitions not_started =
    ("attempt_recorded", attempt_recorded) ∷ ("write_accepted", write_accepted) ∷ []
readback_transitions attempt_recorded = ("write_accepted", write_accepted) ∷ []
readback_transitions write_accepted = ("read_back_observed", read_back_observed) ∷ []
readback_transitions read_back_observed = ("decode_valid", decode_valid) ∷ []
readback_transitions decode_valid = ("signature_valid", signature_valid) ∷ []
readback_transitions signature_valid = ("state_replay_valid", state_replay_valid) ∷ []
readback_transitions state_replay_valid = ("evidence_confirmed", evidence_confirmed) ∷ []
readback_transitions _ = []

unfoldable pub advance_readback : ReadBackStage → String → Result WireError ReadBackStage
advance_readback stage event =
    or_raise (look_up event (readback_transitions stage)) readback_transition_invalid

-- The state after a sequence of events, if each is accepted.
abbrev pub follow :
    {A : Type 0} → (A → String → Result WireError A) → A → List String → Result WireError A
follow step state [] = ok state
follow step state (event ∷ events) = do next ← step state event; follow step next events
