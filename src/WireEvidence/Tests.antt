-- ===== src/WireEvidence/Tests.antt =====
-- Instances of the theorems on the evidence of wire events.
use Prim.Native.String.{String}
use text.Mathlib.Text.{◌==◌ as str_eq}
use flop_agent_intelligence.Common.{
  leb, length, if◌then◌else◌, ℕ, ◌≡◌, refl, ◌⊎◌, true, false, some, List, [], ◌∷◌, not,
}
use flop_agent_intelligence.Common.Text.{
  codes, all_codes, count_codes, is_room_codes, is_revision, is_safe_id,
}
use flop_agent_intelligence.Common.Result.{ok, err, ◌>>◌, raise_if}
use flop_agent_intelligence.WireEvidence.Types.{
  signed_content_verified, venue_metadata_observed, transcript_struct_valid, agreement_invalid,
  rail_observation_present, finality_unverified, unverified, nonce_invalid, third_party_supplied,
}
use flop_agent_intelligence.WireEvidence.Stages.{look_up, transition_agreement, advance_readback}
use flop_agent_intelligence.WireEvidence.Routes.{
  after_write, advance_readback-Route, transition_agreement-Route,
}
use flop_agent_intelligence.WireEvidence.Nonce.{
  is_nonce_text, decimal_from, parse_nonce, parse_nonce-pattern,
}
use flop_agent_intelligence.WireEvidence.Signing.{
  starts_with, contains, is_public_room, has_surrogate, utf8_length, has_line_end, absent,
  canonical_text, receipt_sign, Material, SigningContext, material_builder, new_context,
  context_builder,
}
use flop_agent_intelligence.WireEvidence.Binding.{
  until_bar, beyond_bar, material_of, context_builder-canonical, material_builder-binds,
}
use flop_agent_intelligence.WireEvidence.Export.{
  is_among, has_duplicate, has_reversal, insert, sort_distinct, has_gap, is_varied, first_seq,
  last_seq, unclaimed, ExportClaims, Export, assessment, assess_export,
}
use flop_agent_intelligence.WireEvidence.Scan.{
  named, timed, untimed, object, has_issue, distinct, has_structural, Scan, scan_line, scan,
}
use flop_agent_intelligence.WireEvidence.Assessed.{IsTranscript, assess_export-IsTranscript}
use flop_agent_intelligence.WireEvidence.Bundle.{RailObservation, EvidenceBundle, check_bundle}
use flop_agent_intelligence.WireEvidence.Public.{IsPublic, check_bundle-IsPublic}

abbrev stages : List String
stages = "attempt_recorded" ∷ "write_accepted" ∷ after_write

advance_readback-Route_example : (stages ≡ stages) ⊎ (stages ≡ "write_accepted" ∷ after_write)
unfolding advance_readback look_up
advance_readback-Route_example = advance_readback-Route stages refl

abbrev verifications : List String
verifications = "offer_verified" ∷ "acceptance_verified" ∷ "agreement_verified" ∷ []

transition_agreement-Route_example : verifications ≡ verifications
unfolding transition_agreement look_up
transition_agreement-Route_example = transition_agreement-Route verifications refl

parse_nonce-pattern_example : parse_nonce (codes "9999999999999999999") ≡ (
    raise_if (not (is_nonce_text (codes "9999999999999999999"))) nonce_invalid
    >> ok (codes "9999999999999999999"))
parse_nonce-pattern_example = parse_nonce-pattern (codes "9999999999999999999")

abbrev digest : List ℕ → String
digest cs = if leb (length cs) 3 then "short" else "long"

abbrev context : SigningContext
unfolding canonical_text
context = new_context digest (codes "intel_flop") (codes "17") (codes "a|b")

context_builder-canonical_example :
    (until_bar context.canonical ≡ codes "intel_flop")
    × (until_bar (beyond_bar context.canonical) ≡ codes "17")
    × (beyond_bar (beyond_bar context.canonical) ≡ codes "a|b")
unfolding context context_builder canonical_text is_public_room is_room_codes all_codes count_codes
    starts_with contains is_nonce_text decimal_from has_surrogate utf8_length has_line_end
context_builder-canonical_example =
    context_builder-canonical digest (codes "intel_flop") (codes "17") (codes "a|b") absent context
      refl

abbrev revision : String
revision = "00112233445566778899aabbccddeeff00112233"

abbrev material : Material
unfolding context
material = material_of context receipt_sign (codes "room") revision (codes "v1") (codes "receipt")

material_builder-binds_example :
    ((codes "intel_flop" ≡ codes "intel_flop")
      × (codes "17" ≡ codes "17")
      × (codes "a|b" ≡ codes "a|b"))
    × ((receipt_sign ≡ receipt_sign)
        × (codes "room" ≡ codes "room")
        × (revision ≡ revision)
        × (codes "v1" ≡ codes "v1")
        × (codes "receipt" ≡ codes "receipt"))
unfolding context material context_builder canonical_text is_public_room is_room_codes all_codes
    count_codes starts_with contains is_nonce_text decimal_from has_surrogate utf8_length
    has_line_end material_builder is_revision
material_builder-binds_example =
    material_builder-binds digest (codes "intel_flop") (codes "17") (codes "a|b")
      (codes "intel_flop") (codes "17") (codes "a|b") absent absent context context receipt_sign
      receipt_sign (codes "room") (codes "room") revision revision (codes "v1") (codes "v1")
      (codes "receipt") (codes "receipt") material refl refl refl refl

abbrev export : Export
export = record {
  source_kind = third_party_supplied;
  generation = some "one";
  is_utf8 = true;
  lines =
      object false (some 4) (named "one") (timed 10)
      ∷ object false (some 6) (named "one") untimed
      ∷ [];
}

abbrev claims : ExportClaims
claims = record { first = unclaimed; last = unclaimed; truncation_indicated = false }

abbrev scanned : Scan
unfolding scan scan_line is_safe_id
scanned = elim (scan third_party_supplied export.lines) [
  | ok s ↦ s
  | err e ↦ record { issues = []; venue = [] }
]

assess_export-IsTranscript_example : IsTranscript export (assessment export claims scanned)
unfolding scanned assess_export assessment scan scan_line is_safe_id has_structural has_issue
    distinct has_duplicate is_among has_reversal insert sort_distinct has_gap is_varied first_seq
    last_seq
assess_export-IsTranscript_example =
    assess_export-IsTranscript export claims (assessment export claims scanned) refl refl

abbrev bundle : EvidenceBundle
bundle = record {
  cryptographic = signed_content_verified;
  venue = venue_metadata_observed;
  transcript = transcript_struct_valid;
  agreement = agreement_invalid;
  settlement = rail_observation_present;
  finality = finality_unverified;
}

check_bundle-IsPublic_example : IsPublic bundle
unfolding check_bundle
check_bundle-IsPublic_example = check_bundle-IsPublic bundle refl

abbrev lowercase : String → String
lowercase s = if str_eq s "BTC" then "btc" else s

abbrev rail : RailObservation
rail = record {
  rail_raw = "BTC";
  rail_canonical = "BITCOIN";
  reference = "tx:1";
  terminal_state = "CLAIMED";
  crypto_status = unverified;
  independent_finality_verified = false;
  protocol_valid = true;
}
