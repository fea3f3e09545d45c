-- ===== src/WireEvidence/Types.antt =====
-- The statuses, stages and errors of wire_evidence.py.
use flop_agent_intelligence.Common.{ℕ}

abbrev pub max_protocol_nonce : ℕ
max_protocol_nonce = 9999999999999999999

abbrev pub max_unix_ms : ℕ
max_unix_ms = 253402300799999

abbrev pub max_export_records : ℕ
max_export_records = 100000

pub data EvidenceStatus : Type 0 where
  signed_content_verified signature_invalid venue_metadata_observed : EvidenceStatus
  direct_venue_observation venue_metadata_provenance_verified export_acquired : EvidenceStatus
  transcript_completeness_unverified transcript_completeness_verified : EvidenceStatus
  transcript_struct_valid transcript_invalid agreement_verified agreement_invalid : EvidenceStatus
  rail_observation_present rail_crypto_verified finality_verified : EvidenceStatus
  finality_unverified : EvidenceStatus

pub data ExportSourceKind : Type 0 where
  configured_reviewed_export direct_venue_snapshot third_party_supplied : ExportSourceKind

pub data RailCryptoStatus : Type 0 where
  not_applicable unverified rail_crypto_verified : RailCryptoStatus

pub data ReadBackStage : Type 0 where
  not_started attempt_recorded effect_unknown signature_invalid readback_mismatch : ReadBackStage
  redirect_rejected duplicate_suppressed failed write_accepted read_back_observed : ReadBackStage
  decode_valid signature_valid state_replay_valid evidence_confirmed : ReadBackStage

pub data AgreementState : Type 0 where
  proposed offer_verified acceptance_verified agreement_verified invalid : AgreementState

-- The codes of `WireSafetyError`, and a `PermissionError`.
pub data WireError : Type 0 where
  permission_denied agreement_transition_invalid readback_transition_invalid : WireError
  nonce_invalid time_invalid frame_policy_invalid frame_too_large frame_utf8_invalid : WireError
  frame_multiline frame_character_invalid frame_syntax_invalid sensitive_field_rejected : WireError
  room_invalid action_invalid revision_invalid binding_invalid : WireError
  signing_context_mismatch export_source_invalid hash_invalid generation_invalid : WireError
  export_size_invalid export_utf8_invalid rail_invalid rail_unreviewed : WireError
  rail_canonical_invalid rail_reference_invalid rail_state_invalid : WireError
  agreement_field_invalid counterparty_invalid offer_id_invalid : WireError
  agreement_statement_invalid canonicalization_invalid evidence_layer_invalid : WireError
