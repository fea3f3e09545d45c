-- ===== src/Workflow/Tests.antt =====
-- A signal from its preparation to its publication.
use Prim.Native.String.{String}
use text.Mathlib.Text.{◌==◌ as str_eq}
use flop_agent_intelligence.Common.{◌≡◌, refl, false, ◌||◌, none, if◌then◌else◌}
use flop_agent_intelligence.Common.Text.{is_blank}
use flop_agent_intelligence.Workflow.Signal.{
  Assessed, SignalEnvelope, prepare_signal, signer_handoff, validate_publish_approval,
  approved_signal, approve_signal,
}
use flop_agent_intelligence.Workflow.Gate.{
  approval, prepared, followed, IsApprovedBy, publish-IsGated,
}

abbrev strip : String → String
strip s = if str_eq s " ada " then "ada" else s

abbrev recommended : String
recommended = "text"

abbrev source : Assessed
source = record {
  source_id = "WHITEPAPER";
  source_tier = 1;
  category = "SPEC_CHANGE";
  security_review_required = false;
}

abbrev signal : SignalEnvelope
unfolding prepare_signal
signal = prepare_signal source "url" "summary" recommended none "now"

abbrev signed_off : SignalEnvelope
unfolding signal
signed_off = approved_signal strip signal " ada " none "later"

publish-IsGated_example :
    (recommended ≡ recommended)
    × ((source.security_review_required || str_eq source.category "IGNORE") ≡ false)
    × IsApprovedBy strip signed_off
unfolding signal signed_off prepare_signal approve_signal signer_handoff validate_publish_approval
    is_blank
publish-IsGated_example =
    publish-IsGated strip source "url" "summary" recommended none "now" signed_off recommended
      (followed signal signed_off prepared (approval signal " ada " none "later" signed_off refl))
      refl
