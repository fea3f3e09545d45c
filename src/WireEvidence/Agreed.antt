-- ===== src/WireEvidence/Agreed.antt =====
-- What a report on an agreement says of the proposal and its acceptance.
use Prim.Native.String.{String}
use text.Mathlib.Text.{◌==◌ as str_eq}
use text.Mathlib.TextPositions.{eq_refl}
use flop_agent_intelligence.Common.{
  ◌≡◌, ◌↔◌, ◌∙◌, refl, sym, ap, Bool, true, false, not, Option, none, some, arith,
}
use flop_agent_intelligence.Common.Text.{same_text, str_eq→eq, is_safe_id, is_sha256, is_member}
use flop_agent_intelligence.Common.Result.{Result, ok, err}
use flop_agent_intelligence.WireEvidence.Types.{signed_content_verified, WireError}
use flop_agent_intelligence.WireEvidence.Bundle.{canonicalize_rail}
use flop_agent_intelligence.WireEvidence.Agreement.{
  Proposal, Acceptance, ProposalPayload, AcceptancePayload, proposal_payload, acceptance_payload,
  Crypto, AgreementVerification, signature_status, proposal_signed, acceptance_signed,
  offer_matches, agreement_matches, verify_tclk_alpha_agreement,
}
use flop_agent_intelligence.WireEvidence.Offered.{
  offered, accepted, proposal_payload-Offered, accepted-eq,
}

-- Every check of a report has succeeded.
pub record IsVerified (r : AgreementVerification) : Type 0 where
  pub proposal : r.proposal_signature ≡ signed_content_verified
  pub acceptance : r.acceptance_signature ≡ signed_content_verified
  pub offer_id : r.offer_id_verified ≡ true
  pub agreement_id : r.agreement_id_verified ≡ true
  pub counterparty : r.counterparty_verified ≡ true
  pub semantics : r.lock_semantics_verified ≡ true

-- Two parties that have signed the same locked proposal, and the identities of the offer and of the
-- agreement.
pub record IsAgreed (crypto : Crypto) (normalize : String → String) (p : Proposal) (a : Acceptance)
    : Type 0 where
  pub rail : String
  pub rail_known : canonicalize_rail normalize p.rail_raw ≡ ok rail
  pub named :
      (is_safe_id p.protocol ≡ true)
      × (is_safe_id p.proposer_id ≡ true)
      × (is_safe_id p.counterparty_id ≡ true)
      × (is_safe_id p.reference ≡ true)
  pub two_parties : ¬ (p.proposer_id ≡ p.counterparty_id)
  pub canonical : p.terms.is_canonical ≡ true
  pub public_terms : p.terms.is_sensitive ≡ false
  pub locked : p.terms.lock_statement ≡ some "LOCKED"
  pub proposed : crypto.signs_proposal p.public_key p.signature (offered p rail) ≡ true
  pub offer : crypto.offer_id (offered p rail) p.signature ≡ some p.offer_id
  pub digest : is_sha256 p.offer_id ≡ true
  pub same_offer : a.offer_id ≡ p.offer_id
  pub answered :
      (a.protocol ≡ p.protocol)
      × (a.accepter_id ≡ p.counterparty_id)
      × (a.proposer_id ≡ p.proposer_id)
      × (a.statement ≡ "ACCEPT")
  pub agreed : crypto.signs_acceptance a.public_key a.signature (accepted p) ≡ true
  pub agreement : crypto.agreement_id p.offer_id (accepted p) a.signature ≡ some a.agreement_id

same_text-some : (o : Option String) (t : String) → same_text o (some t) ≡ true → o ≡ some t
same_text-some none t h = cc
same_text-some (some s) t h = ap some (str_eq→eq s t h)

signature_status-verified : (b : Bool) → signature_status b ≡ signed_content_verified → b ≡ true
signature_status-verified true h = refl
signature_status-verified false h = cc

module _ (crypto : Crypto) where
  signed_proposal :
      (p : Proposal) (x : Result WireError ProposalPayload)
      → proposal_signed crypto p x ≡ true
      → offer_matches crypto p x ≡ true
      → (payload : ProposalPayload) × (x ≡ ok payload)
        × (crypto.signs_proposal p.public_key p.signature payload ≡ true)
        × (crypto.offer_id payload p.signature ≡ some p.offer_id)
  signed_proposal p (err e) h k = cc
  signed_proposal p (ok payload) h k =
      (payload, refl, h, same_text-some (crypto.offer_id payload p.signature) p.offer_id k)

  signed_acceptance :
      (a : Acceptance) (x : Result WireError AcceptancePayload)
      → acceptance_signed crypto a x ≡ true
      → agreement_matches crypto a x ≡ true
      → (payload : AcceptancePayload) × (x ≡ ok payload)
        × (crypto.signs_acceptance a.public_key a.signature payload ≡ true)
        × (crypto.agreement_id a.offer_id payload a.signature ≡ some a.agreement_id)
  signed_acceptance a (err e) h k = cc
  signed_acceptance a (ok payload) h k = (
    payload,
    refl,
    h,
    same_text-some (crypto.agreement_id a.offer_id payload a.signature) a.agreement_id k,
  )

  distinct : (s t : String) → ¬ (s ≡ t) → str_eq s t ≡ false
  distinct s t n = go (str_eq s t) refl
    where
      go : (b : Bool) → str_eq s t ≡ b → str_eq s t ≡ false
      go true e = absurd (n (str_eq→eq s t e))
      go false e = e

  offered-built :
      (normalize : String → String) (p : Proposal) (a : Acceptance)
      → (g : IsAgreed crypto normalize p a) → proposal_payload normalize p ≡ ok (offered p g.rail)
  unfolding proposal_payload
  offered-built normalize p a g =
      let (k1, k2, k3, k4) = g.named in
      let two = distinct p.proposer_id p.counterparty_id g.two_parties in
      rw (k1, k2, k3, k4, two, g.public_terms, g.rail_known, g.canonical) refl

  accepted-built :
      (normalize : String → String) (p : Proposal) (a : Acceptance)
      → (g : IsAgreed crypto normalize p a) → acceptance_payload a ≡ ok (accepted p)
  unfolding acceptance_payload is_member
  accepted-built normalize p a g =
      let (k1, k2, k3, k4) = g.named in
      let (protocol, accepter, proposer, statement) = g.answered in
      let two = distinct p.counterparty_id p.proposer_id (λ e. g.two_parties (sym e)) in
      rw (protocol, accepter, proposer, statement, g.same_offer)
        (rw (k1, k2, k3, two, g.digest) refl)

  IsVerified-IsAgreed :
      (normalize : String → String) (p : Proposal) (a : Acceptance)
      → IsVerified (verify_tclk_alpha_agreement crypto normalize p a)
      → IsAgreed crypto normalize p a
  unfolding verify_tclk_alpha_agreement
  IsVerified-IsAgreed normalize p a v =
      let (payload, of_payload, signed, offer) =
        signed_proposal p (proposal_payload normalize p)
          (signature_status-verified (proposal_signed crypto p (proposal_payload normalize p))
            v.proposal)
          v.offer_id in
      let (payload', of_payload', signed', agreement) =
        signed_acceptance a (acceptance_payload a)
          (signature_status-verified (acceptance_signed crypto a (acceptance_payload a))
            v.acceptance)
          v.agreement_id in
      let o = proposal_payload-Offered normalize p payload of_payload in
      let (same, digest, same_offer, answered) =
        accepted-eq p a payload' of_payload' v.counterparty v.semantics in
      record {
        rail = o.rail;
        rail_known = o.rail_known;
        named = o.named;
        canonical = o.canonical;
        digest = digest;
        answered = answered;
        two_parties = λ e. cc (o.two_parties, e, eq_refl p.proposer_id);
        public_terms = o.public_terms;
        locked = same_text-some p.terms.lock_statement "LOCKED" (ground (arith, v.semantics));
        proposed = rw o.built at signed;
        offer = rw o.built at offer;
        same_offer = same_offer;
        agreed = rw same at signed';
        agreement = rw (same, same_offer) at agreement;
      }

  has_reference : (t : String) → is_safe_id t ≡ true → not (str_eq t "") ≡ true
  unfolding is_safe_id
  has_reference t h = go (str_eq t "") refl
    where
      go : (b : Bool) → str_eq t "" ≡ b → not b ≡ true
      go true e =
          let empty : is_safe_id "" ≡ true = ap is_safe_id (sym (str_eq→eq t "" e)) ∙ h in cc empty
      go false e = refl

  IsAgreed-IsVerified :
      (normalize : String → String) (p : Proposal) (a : Acceptance)
      → IsAgreed crypto normalize p a
      → IsVerified (verify_tclk_alpha_agreement crypto normalize p a)
  unfolding verify_tclk_alpha_agreement
  IsAgreed-IsVerified normalize p a g =
      let (k1, k2, k3, k4) = g.named in
      let (protocol, accepter, proposer, statement) = g.answered in
      let two = distinct p.proposer_id p.counterparty_id g.two_parties in
      let o = offered-built normalize p a g in
      let x = accepted-built normalize p a g in
      record {
        proposal = rw (o, g.proposed) refl;
        acceptance = rw (x, g.agreed) refl;
        offer_id = rw (o, g.offer) (eq_refl p.offer_id);
        agreement_id = rw (x, g.same_offer, g.agreement) (eq_refl a.agreement_id);
        counterparty =
            rw
              (
                two,
                accepter,
                proposer,
                g.same_offer,
                protocol,
                eq_refl p.counterparty_id,
                eq_refl p.proposer_id,
                eq_refl p.offer_id,
                eq_refl p.protocol,
              )
              refl;
        semantics = rw (g.locked, statement, has_reference p.reference k4) refl;
      }

  -- Every check of a report succeeds exactly if the proposer and the counterparty of the proposal are
  -- two, named like the protocol and the reference by safe identifiers, its terms are canonical, hold
  -- no secret field and are locked, its rail is known, its signature is over its own fields, the
  -- acceptance answers ACCEPT to this very offer, which is a digest, from this counterparty to this
  -- proposer and is signed as such, and the two identities are those recomputed from these payloads.
  pub verify_tclk_alpha_agreement-IsAgreed :
      (normalize : String → String) (p : Proposal) (a : Acceptance)
      → IsVerified (verify_tclk_alpha_agreement crypto normalize p a)
        ↔ IsAgreed crypto normalize p a
  verify_tclk_alpha_agreement-IsAgreed normalize p a =
      (IsVerified-IsAgreed normalize p a, IsAgreed-IsVerified normalize p a)
