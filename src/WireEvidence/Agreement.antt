-- ===== src/WireEvidence/Agreement.antt =====
-- Agreement payloads and `verify_tclk_alpha_agreement` of wire_evidence.py. Canonical JSON, base64,
-- Ed25519 and SHA-256 are parameters.
use Prim.Native.String.{String}
use text.Mathlib.Text.{◌==◌ as str_eq}
use flop_agent_intelligence.Common.{Bool, true, false, not, ◌&&◌, Option, some, [], ◌∷◌}
use flop_agent_intelligence.Common.Text.{is_safe_id, is_sha256, is_member, same_text}
use flop_agent_intelligence.Common.Result.{Result, ok, err, ◌>>=◌, ◌>>◌, raise_if}
use flop_agent_intelligence.WireEvidence.Types.{
  EvidenceStatus, signed_content_verified, agreement_invalid, WireError, agreement_field_invalid,
  counterparty_invalid, sensitive_field_rejected, offer_id_invalid, agreement_statement_invalid,
  canonicalization_invalid,
}
use flop_agent_intelligence.WireEvidence.Bundle.{canonicalize_rail}

-- The terms: whether they hold a secret field and have a canonical JSON, their `lock_statement` where
-- it is a text, and the rest.
pub record Terms : Type 0 where
  pub is_canonical : Bool
  pub is_sensitive : Bool
  pub lock_statement : Option String
  pub body : String

pub record Proposal : Type 0 where
  pub protocol : String
  pub proposer_id : String
  pub counterparty_id : String
  pub public_key : String
  pub terms : Terms
  pub rail_raw : String
  pub reference : String
  pub signature : String
  pub offer_id : String

pub record Acceptance : Type 0 where
  pub protocol : String
  pub accepter_id : String
  pub proposer_id : String
  pub public_key : String
  pub offer_id : String
  pub statement : String
  pub signature : String
  pub agreement_id : String

-- What is signed of each, whose canonical JSON follows the prefix.
pub record ProposalPayload : Type 0 where
  pub protocol : String
  pub proposer_id : String
  pub counterparty_id : String
  pub terms : Terms
  pub rail : String
  pub reference : String

pub record AcceptancePayload : Type 0 where
  pub protocol : String
  pub accepter_id : String
  pub proposer_id : String
  pub offer_id : String
  pub statement : String

-- `normalize` is `strip` and `lower` of a text.
unfoldable pub proposal_payload : (String → String) → Proposal → Result WireError ProposalPayload
proposal_payload normalize p = do
  raise_if (not (is_safe_id p.protocol)) agreement_field_invalid
  raise_if (not (is_safe_id p.proposer_id)) agreement_field_invalid
  raise_if (not (is_safe_id p.counterparty_id)) agreement_field_invalid
  raise_if (not (is_safe_id p.reference)) agreement_field_invalid
  raise_if (str_eq p.proposer_id p.counterparty_id) counterparty_invalid
  raise_if p.terms.is_sensitive sensitive_field_rejected
  rail ← canonicalize_rail normalize p.rail_raw
  raise_if (not p.terms.is_canonical) canonicalization_invalid
  ok (record {
    protocol = p.protocol;
    proposer_id = p.proposer_id;
    counterparty_id = p.counterparty_id;
    terms = p.terms;
    rail = rail;
    reference = p.reference;
  })

unfoldable pub acceptance_payload : Acceptance → Result WireError AcceptancePayload
acceptance_payload a = do
  raise_if (not (is_safe_id a.protocol)) agreement_field_invalid
  raise_if (not (is_safe_id a.accepter_id)) agreement_field_invalid
  raise_if (not (is_safe_id a.proposer_id)) agreement_field_invalid
  raise_if (str_eq a.accepter_id a.proposer_id) counterparty_invalid
  raise_if (not (is_sha256 a.offer_id)) offer_id_invalid
  raise_if (not (is_member a.statement ("ACCEPT" ∷ "REJECT" ∷ []))) agreement_statement_invalid
  ok (record {
    protocol = a.protocol;
    accepter_id = a.accepter_id;
    proposer_id = a.proposer_id;
    offer_id = a.offer_id;
    statement = a.statement;
  })

-- Signature checks of a key and a signature in base64, and the two identities, which fail where the
-- signature cannot be decoded.
pub record Crypto : Type 0 where
  pub signs_proposal : String → String → ProposalPayload → Bool
  pub signs_acceptance : String → String → AcceptancePayload → Bool
  pub offer_id : ProposalPayload → String → Option String
  pub agreement_id : String → AcceptancePayload → String → Option String

pub record AgreementVerification : Type 0 where
  pub proposal_signature : EvidenceStatus
  pub acceptance_signature : EvidenceStatus
  pub offer_id_verified : Bool
  pub agreement_id_verified : Bool
  pub counterparty_verified : Bool
  pub lock_semantics_verified : Bool
  pub agreement_status : EvidenceStatus

abbrev pub signature_status : Bool → EvidenceStatus
signature_status true = signed_content_verified
signature_status false = EvidenceStatus.signature_invalid

abbrev pub counterparties : Proposal → Acceptance → Bool
counterparties p a =
    not (str_eq p.proposer_id p.counterparty_id)
    && (str_eq a.accepter_id p.counterparty_id
        && (str_eq a.proposer_id p.proposer_id
            && (str_eq a.offer_id p.offer_id && str_eq a.protocol p.protocol)))

abbrev pub semantics : Proposal → Acceptance → Bool
semantics p a =
    same_text p.terms.lock_statement (some "LOCKED")
    && (str_eq a.statement "ACCEPT" && not (str_eq p.reference ""))

module _ (crypto : Crypto) where
  abbrev pub proposal_signed : Proposal → Result WireError ProposalPayload → Bool
  proposal_signed p (ok payload) = crypto.signs_proposal p.public_key p.signature payload
  proposal_signed p (err e) = false

  abbrev pub acceptance_signed : Acceptance → Result WireError AcceptancePayload → Bool
  acceptance_signed a (ok payload) = crypto.signs_acceptance a.public_key a.signature payload
  acceptance_signed a (err e) = false

  abbrev pub offer_matches : Proposal → Result WireError ProposalPayload → Bool
  offer_matches p (ok payload) = same_text (crypto.offer_id payload p.signature) (some p.offer_id)
  offer_matches p (err e) = false

  abbrev pub agreement_matches : Acceptance → Result WireError AcceptancePayload → Bool
  agreement_matches a (ok payload) =
      same_text (crypto.agreement_id a.offer_id payload a.signature) (some a.agreement_id)
  agreement_matches a (err e) = false

  unfoldable pub verify_tclk_alpha_agreement :
      (String → String) → Proposal → Acceptance → AgreementVerification
  verify_tclk_alpha_agreement normalize p a =
      let offered = proposal_payload normalize p in
      let accepted = acceptance_payload a in
      record {
        proposal_signature = signature_status (proposal_signed p offered);
        acceptance_signature = signature_status (acceptance_signed a accepted);
        offer_id_verified = offer_matches p offered;
        agreement_id_verified = agreement_matches a accepted;
        counterparty_verified = counterparties p a;
        lock_semantics_verified = semantics p a;
        agreement_status = agreement_invalid;
      }
