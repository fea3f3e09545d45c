-- ===== src/WireEvidence/Bundle.antt =====
-- `RAIL_ALIASES`, `RailObservation`, `assess_finality` and `EvidenceBundle` of wire_evidence.py.
use Prim.Native.String.{String}
use flop_agent_intelligence.Common.{
  Bool, true, false, not, ◌||◌, Option, none, some, List, [], ◌∷◌, if◌then◌else◌,
}
use flop_agent_intelligence.Common.Text.{is_safe_id, is_blank, is_member}
use text.Mathlib.Text.{◌==◌ as str_eq}
use flop_agent_intelligence.Common.Result.{Result, ◌>>=◌, ◌>>◌, raise_if, or_raise}
use flop_agent_intelligence.WireEvidence.Types.{
  EvidenceStatus, signed_content_verified, venue_metadata_observed, direct_venue_observation,
  venue_metadata_provenance_verified, transcript_completeness_unverified,
  transcript_completeness_verified, transcript_struct_valid, transcript_invalid, agreement_invalid,
  rail_observation_present, finality_verified, finality_unverified, RailCryptoStatus, WireError,
  permission_denied, evidence_layer_invalid, rail_invalid, rail_unreviewed, rail_canonical_invalid,
  rail_reference_invalid, rail_state_invalid,
}
use flop_agent_intelligence.WireEvidence.Stages.{look_up}

abbrev pub rail_aliases : List (String × String)
rail_aliases =
    ("paper", "PAPER")
    ∷ ("paperrail", "PAPER")
    ∷ ("paper-rail", "PAPER")
    ∷ ("btc", "BITCOIN")
    ∷ ("bitcoin", "BITCOIN")
    ∷ ("ln", "LIGHTNING")
    ∷ ("lightning", "LIGHTNING")
    ∷ []

abbrev pub terminal_states : List String
terminal_states = "CLAIMED" ∷ "REFUNDED" ∷ "EXPIRED" ∷ "COMPLETED" ∷ []

pub record RailObservation : Type 0 where
  pub rail_raw : String
  pub rail_canonical : String
  pub reference : String
  pub terminal_state : String
  pub crypto_status : RailCryptoStatus
  pub independent_finality_verified : Bool
  pub protocol_valid : Bool

abbrev pub is_crypto_verified : RailCryptoStatus → Bool
is_crypto_verified RailCryptoStatus.rail_crypto_verified = true
is_crypto_verified _ = false

-- `normalize` is `strip` and `lower` of a text.
module _ (normalize : String → String) where
  unfoldable pub canonicalize_rail : String → Result WireError String
  canonicalize_rail rail = do
    raise_if (is_blank rail) rail_invalid
    or_raise (look_up (normalize rail) rail_aliases) rail_unreviewed

  -- `RailObservation.__post_init__`
  unfoldable pub check_rail : RailObservation → Result WireError (Unit {0})
  check_rail r = do
    canonical ← canonicalize_rail r.rail_raw
    raise_if (not (str_eq canonical r.rail_canonical)) rail_canonical_invalid
    raise_if (not (is_safe_id r.reference)) rail_reference_invalid
    raise_if (not (is_member r.terminal_state terminal_states)) rail_state_invalid
    raise_if (is_crypto_verified r.crypto_status || r.independent_finality_verified)
        permission_denied

pub record FinalityAssessment : Type 0 where
  pub transcript_state : Option String
  pub rail_status : Option EvidenceStatus
  pub finality_status : EvidenceStatus
  pub economic_value_verified : Bool

unfoldable pub assess_finality : Option String → Option RailObservation → FinalityAssessment
assess_finality state none = record {
  transcript_state = state;
  rail_status = none;
  finality_status = finality_unverified;
  economic_value_verified = false;
}
assess_finality state (some rail) = record {
  transcript_state = state;
  rail_status = some (
      if is_crypto_verified rail.crypto_status
      then EvidenceStatus.rail_crypto_verified
      else rail_observation_present);
  finality_status = finality_unverified;
  economic_value_verified = false;
}

pub record EvidenceBundle : Type 0 where
  pub cryptographic : EvidenceStatus
  pub venue : EvidenceStatus
  pub transcript : EvidenceStatus
  pub agreement : EvidenceStatus
  pub settlement : EvidenceStatus
  pub finality : EvidenceStatus

abbrev pub is_authoritative : EvidenceStatus → Bool
is_authoritative transcript_completeness_verified = true
is_authoritative EvidenceStatus.agreement_verified = true
is_authoritative EvidenceStatus.rail_crypto_verified = true
is_authoritative finality_verified = true
is_authoritative _ = false

abbrev pub is_cryptographic : EvidenceStatus → Bool
is_cryptographic signed_content_verified = true
is_cryptographic EvidenceStatus.signature_invalid = true
is_cryptographic _ = false

abbrev pub is_venue : EvidenceStatus → Bool
is_venue venue_metadata_observed = true
is_venue direct_venue_observation = true
is_venue venue_metadata_provenance_verified = true
is_venue _ = false

abbrev pub is_transcript : EvidenceStatus → Bool
is_transcript transcript_struct_valid = true
is_transcript transcript_invalid = true
is_transcript transcript_completeness_verified = true
is_transcript transcript_completeness_unverified = true
is_transcript _ = false

abbrev pub is_agreement : EvidenceStatus → Bool
is_agreement EvidenceStatus.agreement_verified = true
is_agreement agreement_invalid = true
is_agreement _ = false

abbrev pub is_settlement : EvidenceStatus → Bool
is_settlement rail_observation_present = true
is_settlement EvidenceStatus.rail_crypto_verified = true
is_settlement _ = false

abbrev pub is_finality : EvidenceStatus → Bool
is_finality finality_verified = true
is_finality finality_unverified = true
is_finality _ = false

abbrev pub claims_authority : EvidenceBundle → Bool
claims_authority b =
    is_authoritative b.cryptographic
    || (is_authoritative b.venue
        || (is_authoritative b.transcript
            || (is_authoritative b.agreement
                || (is_authoritative b.settlement || is_authoritative b.finality))))

-- `EvidenceBundle.__post_init__`
unfoldable pub check_bundle : EvidenceBundle → Result WireError (Unit {0})
check_bundle b = do
  raise_if (claims_authority b) permission_denied
  raise_if (not (is_cryptographic b.cryptographic)) evidence_layer_invalid
  raise_if (not (is_venue b.venue)) evidence_layer_invalid
  raise_if (not (is_transcript b.transcript)) evidence_layer_invalid
  raise_if (not (is_agreement b.agreement)) evidence_layer_invalid
  raise_if (not (is_settlement b.settlement)) evidence_layer_invalid
  raise_if (not (is_finality b.finality)) evidence_layer_invalid

unfoldable pub as_public_evidence : EvidenceBundle → EvidenceBundle
as_public_evidence b = record b { finality = finality_unverified }
