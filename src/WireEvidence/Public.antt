-- ===== src/WireEvidence/Public.antt =====
-- What public evidence can claim.
use Prim.Native.String.{String}
use flop_agent_intelligence.Common.{◌≡◌, refl, sym, ap, Bool, true, false, not, ◌||◌, Option, some}
use flop_agent_intelligence.Common.Text.{is_safe_id, is_member}
use text.Mathlib.Text.{◌==◌ as str_eq}
use flop_agent_intelligence.Common.Result.{ok, raise_if, raise_if-eq-ok, >>-eq-ok, >>=-eq-ok}
use flop_agent_intelligence.WireEvidence.Types.{
  EvidenceStatus, agreement_invalid, rail_observation_present, finality_unverified, WireError,
  permission_denied, evidence_layer_invalid, rail_canonical_invalid, rail_reference_invalid,
  rail_state_invalid,
}
use flop_agent_intelligence.WireEvidence.Bundle.{
  terminal_states, RailObservation, is_crypto_verified, canonicalize_rail, check_rail,
  assess_finality, EvidenceBundle, is_authoritative, is_cryptographic, is_venue, is_transcript,
  is_agreement, is_settlement, is_finality, claims_authority, check_bundle, as_public_evidence,
}

or-false : (a b : Bool) → (a || b) ≡ false → (a ≡ false) × (b ≡ false)
or-false false b h = (refl, h)
or-false true b h = cc

not-passed : (b : Bool) (e : WireError) → raise_if (not b) e ≡ ok tt → b ≡ true
not-passed true e h = refl
not-passed false e h = cc

is_agreement-public :
    (s : EvidenceStatus)
    → is_authoritative s ≡ false
    → is_agreement s ≡ true
    → s ≡ agreement_invalid
is_agreement-public agreement_invalid n h = refl
is_agreement-public s n h = cc

is_settlement-public :
    (s : EvidenceStatus)
    → is_authoritative s ≡ false
    → is_settlement s ≡ true
    → s ≡ rail_observation_present
is_settlement-public rail_observation_present n h = refl
is_settlement-public s n h = cc

is_finality-public :
    (s : EvidenceStatus)
    → is_authoritative s ≡ false
    → is_finality s ≡ true
    → s ≡ finality_unverified
is_finality-public finality_unverified n h = refl
is_finality-public s n h = cc

-- What a public bundle says of its agreement, settlement and finality.
pub record IsPublic (b : EvidenceBundle) : Type 0 where
  pub agreement : b.agreement ≡ agreement_invalid
  pub settlement : b.settlement ≡ rail_observation_present
  pub finality : b.finality ≡ finality_unverified
  pub transcript : is_authoritative b.transcript ≡ false
  pub projection : as_public_evidence b ≡ b

-- A bundle that is accepted claims no verified agreement, rail, completeness or finality, and its
-- public projection is the bundle itself.
pub check_bundle-IsPublic : (b : EvidenceBundle) → check_bundle b ≡ ok tt → IsPublic b
unfolding check_bundle as_public_evidence
check_bundle-IsPublic b h =
    let (g, h1) = >>-eq-ok (raise_if (claims_authority b) permission_denied) _ h in
    let (_, h2) =
      >>-eq-ok (raise_if (not (is_cryptographic b.cryptographic)) evidence_layer_invalid) _ h1 in
    let (_, h3) = >>-eq-ok (raise_if (not (is_venue b.venue)) evidence_layer_invalid) _ h2 in
    let (_, h4) =
      >>-eq-ok (raise_if (not (is_transcript b.transcript)) evidence_layer_invalid) _ h3 in
    let (a, h5) =
      >>-eq-ok (raise_if (not (is_agreement b.agreement)) evidence_layer_invalid) _ h4 in
    let (s, f) =
      >>-eq-ok (raise_if (not (is_settlement b.settlement)) evidence_layer_invalid) _ h5 in
    let (_, n1) =
      or-false (is_authoritative b.cryptographic) _
        (raise_if-eq-ok (claims_authority b) permission_denied g) in
    let (_, n2) = or-false (is_authoritative b.venue) _ n1 in
    let (nt, n3) = or-false (is_authoritative b.transcript) _ n2 in
    let (na, n4) = or-false (is_authoritative b.agreement) _ n3 in
    let (ns, nf) = or-false (is_authoritative b.settlement) _ n4 in
    let final =
      is_finality-public b.finality nf
        (not-passed (is_finality b.finality) evidence_layer_invalid f) in
    record {
      agreement =
          is_agreement-public b.agreement na
            (not-passed (is_agreement b.agreement) evidence_layer_invalid a);
      settlement =
          is_settlement-public b.settlement ns
            (not-passed (is_settlement b.settlement) evidence_layer_invalid s);
      finality = final;
      transcript = nt;
      projection = ap (λ (x : EvidenceStatus). record b { finality = x }) (sym final);
    }

-- Of a rail observation that is accepted, the assessment says that there is an observation, and no
-- more: neither the rail nor its finality is verified.
pub assess_finality-unverified :
    (normalize : String → String) (state : Option String) (r : RailObservation)
    → check_rail normalize r ≡ ok tt
    → ((assess_finality state (some r)).rail_status ≡ some rail_observation_present)
      × ((assess_finality state (some r)).finality_status ≡ finality_unverified)
unfolding check_rail assess_finality
assess_finality-unverified normalize state r h =
    let (canonical, _, h1) = >>=-eq-ok (canonicalize_rail normalize r.rail_raw) _ h in
    let (_, h2) =
      >>-eq-ok (raise_if (not (str_eq canonical r.rail_canonical)) rail_canonical_invalid) _ h1 in
    let (_, h3) = >>-eq-ok (raise_if (not (is_safe_id r.reference)) rail_reference_invalid) _ h2 in
    let (_, h4) =
      >>-eq-ok (raise_if (not (is_member r.terminal_state terminal_states)) rail_state_invalid) _
        h3 in
    let verified = is_crypto_verified r.crypto_status || r.independent_finality_verified in
    let (observed, _) =
      or-false (is_crypto_verified r.crypto_status) r.independent_finality_verified
        (raise_if-eq-ok verified permission_denied h4) in
    (rw observed refl, refl)
