-- ===== src/EvidenceTransport/Projection.antt =====
-- `validate_evidence_projection`, `public_projection` of a snapshot and `assess_room_presence` of
-- evidence_transport.py. The errors stand in the order of the checks; the code sorts their names.
use Prim.Native.String.{String}
use flop_agent_intelligence.Common.{
  ℕ, Bool, true, false, not, ◌&&◌, Option, none, some, List, [], ◌∷◌, ◌++◌, ltb, if◌then◌else◌,
}
use flop_agent_intelligence.Common.Text.{is_member}
use flop_agent_intelligence.EvidenceTransport.Types.{
  Transport, Completeness, GapStatus, retention_loss_confirmed, RetentionStatus, floor_observed,
  DiscoveryCompleteness, FindingStatus, found, not_found_confirmed, RoomStatus, room_observed,
  room_status_unknown, room_not_in_discovery_snapshot, room_deletion_confirmed, EvidenceSnapshot,
}
use flop_agent_intelligence.EvidenceTransport.Acquire.{
  is_export, is_unresolved, is_complete, is_true,
}

pub data ProjectionError : Type 0 where
  transport_complete_early transcript_complete_early history_complete_early : ProjectionError
  complete_without_export complete_without_transport complete_without_transcript : ProjectionError
  complete_without_history loss_without_retention loss_without_floor : ProjectionError
  absence_incomplete absence_with_gap found_unobserved conflict_unresolved : ProjectionError
  deletion_unproven sequence_range_invalid : ProjectionError

-- The keys of a projection that are looked at; a key may be missing.
pub record Projection : Type 0 where
  pub completeness : Option Completeness
  pub transport : Option Transport
  pub transport_complete : Option Bool
  pub transcript_complete : Option Bool
  pub history_complete : Option Bool
  pub gap_status : Option GapStatus
  pub retention_status_known : Option Bool
  pub retention_status : Option RetentionStatus
  pub finding : Option FindingStatus
  pub target_observed : Option Bool
  pub is_conflicting : Bool
  pub reviewed_resolution : Option Bool
  pub room_status : Option RoomStatus
  pub discovery_completeness : Option DiscoveryCompleteness
  pub independent_deletion_evidence : Option Bool
  pub first_seq : Option ℕ
  pub last_seq : Option ℕ

abbrev pub says_complete : Option Completeness → Bool
says_complete none = false
says_complete (some c) = is_complete c

abbrev pub may_export : Option Transport → Bool
may_export none = true
may_export (some t) = is_export t

abbrev pub says_loss : Option GapStatus → Bool
says_loss (some retention_loss_confirmed) = true
says_loss _ = false

abbrev pub says_gap : Option GapStatus → Bool
says_gap none = false
says_gap (some g) = is_unresolved g

abbrev pub says_floor : Option RetentionStatus → Bool
says_floor (some floor_observed) = true
says_floor _ = false

abbrev pub says_absent : Option FindingStatus → Bool
says_absent (some not_found_confirmed) = true
says_absent _ = false

abbrev pub says_found : Option FindingStatus → Bool
says_found (some found) = true
says_found _ = false

abbrev pub says_deleted : Option RoomStatus → Bool
says_deleted (some room_deletion_confirmed) = true
says_deleted _ = false

abbrev pub says_unverified : Option DiscoveryCompleteness → Bool
says_unverified (some DiscoveryCompleteness.partial) = true
says_unverified (some DiscoveryCompleteness.unknown) = true
says_unverified _ = false

abbrev pub is_reversed : Option ℕ → Option ℕ → Bool
is_reversed (some a) (some b) = ltb b a
is_reversed _ _ = false

abbrev pub error_if : Bool → ProjectionError → List ProjectionError
error_if true e = e ∷ []
error_if false e = []

unfoldable pub validate_evidence_projection : Projection → List ProjectionError
validate_evidence_projection p =
    let complete = says_complete p.completeness in
    let loss = says_loss p.gap_status in
    let absent = says_absent p.finding in
    error_if (is_true p.transport_complete && not complete) transport_complete_early
    ++ (error_if (is_true p.transcript_complete && not complete) transcript_complete_early
        ++ (error_if (is_true p.history_complete && not complete) history_complete_early
            ++ (error_if (complete && not (may_export p.transport)) complete_without_export
                ++ (error_if (complete && not (is_true p.transport_complete))
                      complete_without_transport
                    ++ (error_if (complete && not (is_true p.transcript_complete))
                          complete_without_transcript
                        ++ (error_if (complete && not (is_true p.history_complete))
                              complete_without_history
                            ++ (error_if (loss && not (is_true p.retention_status_known))
                                  loss_without_retention
                                ++ (error_if (loss && not (says_floor p.retention_status))
                                      loss_without_floor
                                    ++ (error_if (absent && not complete) absence_incomplete
                                        ++ (error_if (absent && says_gap p.gap_status)
                                              absence_with_gap
                                            ++ (error_if
                                                  (says_found p.finding
                                                    && not (is_true p.target_observed))
                                                  found_unobserved
                                                ++ (error_if
                                                      (p.is_conflicting
                                                        && (absent
                                                            && not (is_true p.reviewed_resolution)))
                                                      conflict_unresolved
                                                    ++ (error_if
                                                          (says_deleted p.room_status
                                                            && (says_unverified
                                                            p.discovery_completeness
                                                            && not (
                                                            is_true
                                                            p.independent_deletion_evidence)))
                                                          deletion_unproven
                                                        ++ error_if
                                                            (is_reversed p.first_seq p.last_seq)
                                                            sequence_range_invalid)))))))))))))

-- `EvidenceSnapshot.public_projection`
unfoldable pub public_projection : EvidenceSnapshot → Projection
public_projection s = record {
  completeness = some s.completeness;
  transport = some s.transport;
  transport_complete = some s.transport_complete;
  transcript_complete = some s.transcript_complete;
  history_complete = some s.history_complete;
  gap_status = some s.gap_status;
  retention_status_known = some s.retention_status_known;
  retention_status = some s.retention_status;
  finding = none;
  target_observed = none;
  is_conflicting = false;
  reviewed_resolution = none;
  room_status = none;
  discovery_completeness = none;
  independent_deletion_evidence = none;
  first_seq = s.first_seq;
  last_seq = s.last_seq;
}

unfoldable pub assess_room_presence : String → List String → DiscoveryCompleteness → RoomStatus
assess_room_presence room visible discovery =
    if is_member room visible then room_observed else elim discovery [
      | DiscoveryCompleteness.verified ↦ room_status_unknown
      | _ ↦ room_not_in_discovery_snapshot
    ]
