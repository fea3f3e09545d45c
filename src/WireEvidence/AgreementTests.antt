-- ===== src/WireEvidence/AgreementTests.antt =====
-- An offer and its acceptance, and the report on them.
use Prim.Native.String.{String}
use text.Mathlib.Text.{◌==◌ as str_eq}
use flop_agent_intelligence.Common.{refl, ◌&&◌, true, false, none, some, if◌then◌else◌}
use flop_agent_intelligence.Common.Text.{is_sha256, is_safe_id, is_blank, is_member}
use flop_agent_intelligence.WireEvidence.Stages.{look_up}
use flop_agent_intelligence.WireEvidence.Bundle.{canonicalize_rail}
use flop_agent_intelligence.WireEvidence.Agreement.{
  Proposal, Acceptance, Crypto, proposal_payload, acceptance_payload, verify_tclk_alpha_agreement,
}
use flop_agent_intelligence.WireEvidence.Agreed.{
  IsVerified, IsAgreed, verify_tclk_alpha_agreement-IsAgreed,
}

abbrev to_lower : String → String
to_lower s = if str_eq s "BTC" then "btc" else s

abbrev offer : Proposal
offer = record {
  protocol = "v1";
  proposer_id = "ada";
  counterparty_id = "bob";
  public_key = "ada key";
  terms = record {
    is_canonical = true;
    is_sensitive = false;
    lock_statement = some "LOCKED";
    body = "terms";
  };
  rail_raw = "BTC";
  reference = "ref:1";
  signature = "ada signature";
  offer_id = "00112233445566778899aabbccddeeff00112233445566778899aabbccddeeff";
}

abbrev acceptance : Acceptance
acceptance = record {
  protocol = "v1";
  accepter_id = "bob";
  proposer_id = "ada";
  public_key = "bob key";
  offer_id = offer.offer_id;
  statement = "ACCEPT";
  signature = "bob signature";
  agreement_id = "agreement";
}

abbrev crypto : Crypto
crypto = record {
  signs_proposal =
      λ key signature payload. str_eq key "ada key" && str_eq signature "ada signature";
  signs_acceptance =
      λ key signature payload. str_eq key "bob key" && str_eq signature "bob signature";
  offer_id =
      λ payload signature. if str_eq payload.reference "ref:1" then some offer.offer_id else none;
  agreement_id =
      λ id payload signature. if str_eq id offer.offer_id then some "agreement" else none;
}

report-IsVerified : IsVerified (verify_tclk_alpha_agreement crypto to_lower offer acceptance)
unfolding verify_tclk_alpha_agreement proposal_payload acceptance_payload canonicalize_rail look_up
    is_blank is_safe_id is_sha256 is_member
report-IsVerified = record {
  proposal = refl;
  acceptance = refl;
  offer_id = refl;
  agreement_id = refl;
  counterparty = refl;
  semantics = refl;
}

verify_tclk_alpha_agreement-IsAgreed_example : IsAgreed crypto to_lower offer acceptance
verify_tclk_alpha_agreement-IsAgreed_example =
    (verify_tclk_alpha_agreement-IsAgreed crypto to_lower offer acceptance).0 report-IsVerified
