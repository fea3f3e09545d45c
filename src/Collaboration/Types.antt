-- ===== src/Collaboration/Types.antt =====
-- Phases, events and states of collaboration.py. A subject is a `Dict[str, Any]`: `Subject` with
-- what the code asks of it, in `Digests`.
use Prim.Native.String.{String}
use flop_agent_intelligence.Common.{ℕ, Bool, Option, List}

abbrev pub schema : String
schema = "flop-collaboration-readiness-v1"

pub data Phase : Type 0 where
  discovered claim_approved claimed handoff_approved handed_off acknowledged : Phase
  completion_approved completed recovery_required : Phase

pub data EventKind : Type 0 where
  discover approve_claim record_claim approve_handoff record_handoff record_ack : EventKind
  approve_completion record_completion require_recovery : EventKind

pub data CollaborationError : Type 0 where
  unknown_classification content_sha256_invalid provenance_incomplete : CollaborationError
  approval_unidentified approval_unbound case_mismatch chain_broken : CollaborationError
  unknown_event approval_required key_not_fresh evidence_required : CollaborationError
  evidence_unbound signature_invalid recovery_invalid : CollaborationError
  transition_not_allowed task_unbound : CollaborationError

pub record Provenance : Type 0 where
  pub source_id : String
  pub source_locator : String
  pub observed_at : String
  pub content_sha256 : String
  pub classification : String

pub record HumanApproval : Type 0 where
  pub reviewer : String
  pub approved_at : String
  pub purpose : String
  pub subject_sha256 : String

-- A payload with the keys of `evidence_payload`; any other dictionary is `other_payload`.
pub record PayloadFields : Type 0 where
  pub payload_schema : String
  pub payload_case_id : String
  pub event_kind : String
  pub payload_key : String
  pub payload_subject : String

pub data Payload : Type 0 where
  fields : PayloadFields → Payload
  other_payload : Payload

pub record SignedEvidence : Type 0 where
  pub signer_did : String
  pub payload : Payload
  pub signature : String

pub record CollaborationEvent (Subject : Type 0) : Type 0 where
  pub case_id : String
  pub sequence : ℕ
  pub kind : String
  pub occurred_at : String
  pub subject : Subject
  pub provenance : Provenance
  pub previous_event_sha256 : Option String
  pub approval : Option HumanApproval
  pub evidence : Option SignedEvidence
  pub idempotency_key : Option String
  pub event_schema : String

pub record CollaborationState : Type 0 where
  pub case_id : String
  pub phase : Option Phase
  pub last_event_sha256 : Option String
  pub next_sequence : ℕ
  pub task_sha256 : Option String
  pub seen_idempotency_keys : List String

-- SHA-256 over canonical JSON, the `task_sha256` of a subject, and Ed25519.
pub record Digests (Subject : Type 0) : Type 0 where
  pub digest : Subject → String
  pub task_of : Subject → Option String
  pub event_sha256 : CollaborationEvent Subject → String
  pub verify : SignedEvidence → Bool
