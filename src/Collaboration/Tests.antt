-- ===== src/Collaboration/Tests.antt =====
-- A case from its discovery to its completion, and instances of the theorems.
use Prim.Native.String.{String}
use flop_agent_intelligence.Common.{ℕ, ◌≡◌, refl, true, Option, none, some, List, [], ◌∷◌, map}
use flop_agent_intelligence.Common.Result.{ok}
use flop_agent_intelligence.Common.Text.{is_sha256, is_member, is_blank}
use flop_agent_intelligence.Collaboration.Types.{
  schema, Phase, discovered, EventKind, discover, approve_claim, record_claim, approve_handoff,
  record_handoff, record_ack, approve_completion, record_completion, fields, CollaborationEvent,
  CollaborationState, completed, Digests,
}
use flop_agent_intelligence.Collaboration.Reduce.{
  transition, kind_value, parse_kind, validate_provenance, validate_approval, same_payload,
  next_phase, evidence_payload, check_approval, check_evidence, task_hash, advance, apply_event,
  initial_state, replay_from, replay,
}
use flop_agent_intelligence.Collaboration.Evidence.{IsEvidenced, replay-IsEvidenced}
use flop_agent_intelligence.Collaboration.Replay.{kinds, replay-completed, apply_event-once}

abbrev hash : String
hash = "00112233445566778899aabbccddeeff00112233445566778899aabbccddeeff"

-- One subject, whose digest is the task; an event's hash is its kind.
abbrev digests : Digests String
digests = record {
  digest = λ subject. subject;
  task_of = λ subject. some subject;
  event_sha256 = λ e. e.kind;
  verify = λ evidence. true;
}

unfoldable event : ℕ → EventKind → Option String → CollaborationEvent String
unfolding kind_value evidence_payload
event sequence kind previous = record {
  case_id = "case";
  sequence = sequence;
  kind = kind_value kind;
  occurred_at = "now";
  subject = "task";
  provenance = record {
    source_id = "s";
    source_locator = "l";
    observed_at = "now";
    content_sha256 = hash;
    classification = "COMMUNITY";
  };
  previous_event_sha256 = previous;
  approval = some (record {
    reviewer = "alice";
    approved_at = "now";
    purpose = kind_value kind;
    subject_sha256 = "task";
  });
  evidence = some (record {
    signer_did = "did";
    payload = fields (evidence_payload digests "case" kind "task" (kind_value kind));
    signature = "sig";
  });
  idempotency_key = some (kind_value kind);
  event_schema = schema;
}

abbrev whole_case : List (CollaborationEvent String)
whole_case =
    event 1 discover none
    ∷ event 2 approve_claim (some "DISCOVER")
    ∷ event 3 record_claim (some "APPROVE_CLAIM")
    ∷ event 4 approve_handoff (some "RECORD_CLAIM")
    ∷ event 5 record_handoff (some "APPROVE_HANDOFF")
    ∷ event 6 record_ack (some "RECORD_HANDOFF")
    ∷ event 7 approve_completion (some "RECORD_ACK")
    ∷ event 8 record_completion (some "APPROVE_COMPLETION")
    ∷ []

abbrev completed_state : CollaborationState
completed_state = record {
  case_id = "case";
  phase = some completed;
  last_event_sha256 = some "RECORD_COMPLETION";
  next_sequence = 9;
  task_sha256 = some "task";
  seen_idempotency_keys =
      "DISCOVER" ∷ "APPROVE_CLAIM" ∷ "RECORD_CLAIM" ∷ "APPROVE_HANDOFF" ∷ "RECORD_HANDOFF"
      ∷ "RECORD_ACK" ∷ "APPROVE_COMPLETION" ∷ "RECORD_COMPLETION" ∷ [];
}

replay-completed_example :
    kinds digests whole_case
    ≡ map some (
        discover ∷ approve_claim ∷ record_claim ∷ approve_handoff ∷ record_handoff ∷ record_ack
        ∷ approve_completion ∷ record_completion ∷ [])
unfolding event transition kind_value parse_kind is_blank validate_provenance validate_approval
    same_payload next_phase evidence_payload check_approval check_evidence task_hash advance
    apply_event replay_from replay is_sha256 is_member
replay-completed_example = replay-completed digests "case" whole_case completed_state refl refl

abbrev second : CollaborationState
second = advance digests (initial_state digests "case") (event 1 discover none) discovered "task"

apply_event-once_example : ¬ (apply_event digests second (event 1 discover none) ≡ ok second)
unfolding event transition kind_value parse_kind is_blank validate_provenance validate_approval
    same_payload next_phase evidence_payload check_approval check_evidence task_hash advance
    apply_event replay_from replay is_sha256 is_member
apply_event-once_example =
    apply_event-once digests (initial_state digests "case") second second (event 1 discover none)
      refl

abbrev approved_case : List (CollaborationEvent String)
approved_case = event 1 discover none ∷ event 2 approve_claim (some "DISCOVER") ∷ []

abbrev claim_event : CollaborationEvent String
claim_event = event 3 record_claim (some "APPROVE_CLAIM")

abbrev claimed_state : CollaborationState
claimed_state = record {
  case_id = "case";
  phase = some Phase.claimed;
  last_event_sha256 = some "RECORD_CLAIM";
  next_sequence = 4;
  task_sha256 = some "task";
  seen_idempotency_keys = "DISCOVER" ∷ "APPROVE_CLAIM" ∷ "RECORD_CLAIM" ∷ [];
}

replay-IsEvidenced_example : IsEvidenced digests "case" approved_case claim_event
unfolding event transition kind_value parse_kind is_blank validate_provenance validate_approval
    same_payload next_phase evidence_payload check_approval check_evidence task_hash advance
    apply_event replay_from replay is_sha256 is_member
replay-IsEvidenced_example =
    replay-IsEvidenced digests "case" approved_case claim_event [] record_claim claimed_state refl
      refl refl
