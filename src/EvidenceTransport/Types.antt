-- ===== src/EvidenceTransport/Types.antt =====
-- Snapshots, findings and errors of evidence_transport.py. Objects of the enumerations are typed
-- here, so the refusal of a value of another type has no counterpart.
use Prim.Native.String.{String}
use flop_agent_intelligence.Common.{ℕ, ◌*◌, Bool, Option}

abbrev pub max_response_bytes : ℕ
max_response_bytes = 2 * 1024 * 1024

abbrev pub max_parsed_records : ℕ
max_parsed_records = 100000

abbrev pub max_estimated_tokens : ℕ
max_estimated_tokens = 600000

pub data Transport : Type 0 where
  mcp_page room_export room_direct_read discovery_snapshot local_archive : Transport
  future_event_feed : Transport

pub data Completeness : Type 0 where
  complete_verified partial unknown conflicting : Completeness

pub data GapStatus : Type 0 where
  no_gap_observed gap_unresolved history_gap retention_loss_confirmed : GapStatus

pub data RetentionStatus : Type 0 where
  floor_unknown floor_observed changed conflicting : RetentionStatus

pub data DiscoveryCompleteness : Type 0 where
  verified partial unknown : DiscoveryCompleteness

pub data FindingStatus : Type 0 where
  found not_in_visible_page gap_unresolved history_gap : FindingStatus
  retention_loss_confirmed not_found_confirmed : FindingStatus

pub data RoomStatus : Type 0 where
  room_observed room_not_in_discovery_snapshot room_status_unknown : RoomStatus
  room_deletion_confirmed : RoomStatus

pub data AcquisitionSource : Type 0 where
  direct_reviewed_source third_party_mirror local_archive : AcquisitionSource

-- The codes of `EvidenceTransportError`, and a `PermissionError`.
pub data TransportError : Type 0 where
  permission_denied response_size_invalid response_utf8_invalid : TransportError
  token_budget_exceeded record_budget_exceeded response_syntax_invalid : TransportError
  record_invalid sensitive_field_rejected room_invalid revision_invalid : TransportError
  generation_invalid bound_invalid completeness_not_proven : TransportError
  retention_loss_not_proven : TransportError

-- The fields of `EvidenceSnapshot` but `acquisition_id` and `policy_version`, which is constant.
pub record SnapshotFields : Type 0 where
  pub transport : Transport
  pub room : String
  pub page_limit : Option ℕ
  pub returned_records : ℕ
  pub truncated : Option Bool
  pub completeness : Completeness
  pub generation : Option String
  pub first_seq : Option ℕ
  pub last_seq : Option ℕ
  pub requested_since : Option ℕ
  pub requested_limit : Option ℕ
  pub snapshot_hash : String
  pub acquisition_source : AcquisitionSource
  pub acquired_at : Option ℕ
  pub source_revision : String
  pub gap_status : GapStatus
  pub retention_status : RetentionStatus
  pub transport_acquired : Bool
  pub content_parsed : Bool
  pub content_verified : Bool
  pub transport_complete : Bool
  pub transcript_complete : Bool
  pub history_complete : Bool
  pub retention_status_known : Bool

pub record EvidenceSnapshot : Type 0 where
  pub fields : SnapshotFields
  pub open fields use *
  pub acquisition_id : String

pub record SearchResult : Type 0 where
  pub finding : FindingStatus
  pub coverage : Completeness
  pub result_hash : String
  pub target_observed : Bool
  pub result_gap : GapStatus
