-- ===== src/WireEvidence/Offered.antt =====
-- What the builders of the agreement's payloads check and build.
use Prim.Native.String.{String}
use text.Mathlib.Text.{◌==◌ as str_eq}
use flop_agent_intelligence.Common.{◌≡◌, refl, sym, Bool, true, false, not, [], ◌∷◌, arith}
use flop_agent_intelligence.Common.Text.{str_eq→eq, is_safe_id, is_sha256, is_member}
use flop_agent_intelligence.Common.Result.{
  ok, raise_if, >>=-eq-ok, >>-eq-ok, raise_if-eq-ok, ok-injective,
}
use flop_agent_intelligence.WireEvidence.Types.{
  WireError, agreement_field_invalid, counterparty_invalid, sensitive_field_rejected,
  offer_id_invalid, agreement_statement_invalid, canonicalization_invalid,
}
use flop_agent_intelligence.WireEvidence.Bundle.{canonicalize_rail}
use flop_agent_intelligence.WireEvidence.Agreement.{
  Proposal, Acceptance, ProposalPayload, AcceptancePayload, proposal_payload, acceptance_payload,
  counterparties, semantics,
}

-- What a proposal's signature is about, with the rail in its canonical form.
abbrev pub offered : Proposal → String → ProposalPayload
offered p rail = record {
  protocol = p.protocol;
  proposer_id = p.proposer_id;
  counterparty_id = p.counterparty_id;
  terms = p.terms;
  rail = rail;
  reference = p.reference;
}

-- What the signature of a counterparty that accepts a proposal is about.
abbrev pub accepted : Proposal → AcceptancePayload
accepted p = record {
  protocol = p.protocol;
  accepter_id = p.counterparty_id;
  proposer_id = p.proposer_id;
  offer_id = p.offer_id;
  statement = "ACCEPT";
}

required : (b : Bool) (e : WireError) → raise_if (not b) e ≡ ok tt → b ≡ true
required true e h = refl
required false e h = cc

-- What the builder of the proposal's payload has checked and built.
pub record Offered (normalize : String → String) (p : Proposal) (x : ProposalPayload) : Type 0 where
  pub rail : String
  pub rail_known : canonicalize_rail normalize p.rail_raw ≡ ok rail
  pub named :
      (is_safe_id p.protocol ≡ true)
      × (is_safe_id p.proposer_id ≡ true)
      × (is_safe_id p.counterparty_id ≡ true)
      × (is_safe_id p.reference ≡ true)
  pub two_parties : str_eq p.proposer_id p.counterparty_id ≡ false
  pub canonical : p.terms.is_canonical ≡ true
  pub public_terms : p.terms.is_sensitive ≡ false
  pub built : x ≡ offered p rail

pub proposal_payload-Offered :
    (normalize : String → String) (p : Proposal) (x : ProposalPayload)
    → proposal_payload normalize p ≡ ok x
    → Offered normalize p x
unfolding proposal_payload
proposal_payload-Offered normalize p x h =
    let (k1, h1) = >>-eq-ok (raise_if (not (is_safe_id p.protocol)) agreement_field_invalid) _ h in
    let (k2, h2) =
      >>-eq-ok (raise_if (not (is_safe_id p.proposer_id)) agreement_field_invalid) _ h1 in
    let (k3, h3) =
      >>-eq-ok (raise_if (not (is_safe_id p.counterparty_id)) agreement_field_invalid) _ h2 in
    let (k4, h4) =
      >>-eq-ok (raise_if (not (is_safe_id p.reference)) agreement_field_invalid) _ h3 in
    let (parties, h5) =
      >>-eq-ok (raise_if (str_eq p.proposer_id p.counterparty_id) counterparty_invalid) _ h4 in
    let (terms, h6) = >>-eq-ok (raise_if p.terms.is_sensitive sensitive_field_rejected) _ h5 in
    let (rail, r, h7) = >>=-eq-ok (canonicalize_rail normalize p.rail_raw) _ h6 in
    let (canonical, h8) =
      >>-eq-ok (raise_if (not p.terms.is_canonical) canonicalization_invalid) _ h7 in
    record {
      rail = rail;
      rail_known = r;
      named = (
        required _ agreement_field_invalid k1,
        required _ agreement_field_invalid k2,
        required _ agreement_field_invalid k3,
        required _ agreement_field_invalid k4,
      );
      two_parties = raise_if-eq-ok _ counterparty_invalid parties;
      canonical = required _ canonicalization_invalid canonical;
      public_terms = raise_if-eq-ok _ sensitive_field_rejected terms;
      built = sym (ok-injective h8);
    }

acceptance_payload-eq :
    (a : Acceptance) (x : AcceptancePayload)
    → acceptance_payload a ≡ ok x
    → (x ≡ record {
      protocol = a.protocol;
      accepter_id = a.accepter_id;
      proposer_id = a.proposer_id;
      offer_id = a.offer_id;
      statement = a.statement;
    })
      × (is_sha256 a.offer_id ≡ true)
unfolding acceptance_payload
acceptance_payload-eq a x h =
    let (_, h1) = >>-eq-ok (raise_if (not (is_safe_id a.protocol)) agreement_field_invalid) _ h in
    let (_, h2) =
      >>-eq-ok (raise_if (not (is_safe_id a.accepter_id)) agreement_field_invalid) _ h1 in
    let (_, h3) =
      >>-eq-ok (raise_if (not (is_safe_id a.proposer_id)) agreement_field_invalid) _ h2 in
    let (_, h4) =
      >>-eq-ok (raise_if (str_eq a.accepter_id a.proposer_id) counterparty_invalid) _ h3 in
    let (digest, h5) = >>-eq-ok (raise_if (not (is_sha256 a.offer_id)) offer_id_invalid) _ h4 in
    let (_, h6) =
      >>-eq-ok
        (raise_if (not (is_member a.statement ("ACCEPT" ∷ "REJECT" ∷ [])))
          agreement_statement_invalid)
        _ h5 in
    (sym (ok-injective h6), required _ offer_id_invalid digest)

-- An acceptance that matches its proposal is about what `accepted` says.
pub accepted-eq :
    (p : Proposal) (a : Acceptance) (x : AcceptancePayload)
    → acceptance_payload a ≡ ok x
    → counterparties p a ≡ true
    → semantics p a ≡ true
    → (x ≡ accepted p)
      × (is_sha256 p.offer_id ≡ true)
      × (a.offer_id ≡ p.offer_id)
      × ((a.protocol ≡ p.protocol)
          × (a.accepter_id ≡ p.counterparty_id)
          × (a.proposer_id ≡ p.proposer_id)
          × (a.statement ≡ "ACCEPT"))
accepted-eq p a x h c s =
    let accepter = str_eq→eq a.accepter_id p.counterparty_id (ground (arith, c)) in
    let proposer = str_eq→eq a.proposer_id p.proposer_id (ground (arith, c)) in
    let offer = str_eq→eq a.offer_id p.offer_id (ground (arith, c)) in
    let protocol = str_eq→eq a.protocol p.protocol (ground (arith, c)) in
    let statement = str_eq→eq a.statement "ACCEPT" (ground (arith, s)) in
    let (built, digest) = acceptance_payload-eq a x h in
    (
      cc (built, accepter, proposer, offer, protocol, statement),
      rw offer at digest,
      offer,
      (protocol, accepter, proposer, statement),
    )
