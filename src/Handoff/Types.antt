-- ===== src/Handoff/Types.antt =====
-- Records, states and constants of the durable registration journal
-- (src/flop_agent/sonnet_registration_handoff.py).
use flop_agent_intelligence.Common.{ℕ, ◌*◌, Option}
use Prim.Native.String.{String}

abbrev pub max_journal_bytes : ℕ
max_journal_bytes = 1024 * 1024

abbrev pub max_journal_records : ℕ
max_journal_records = 32

abbrev pub max_response_bytes : ℕ
max_response_bytes = 16 * 1024

abbrev pub zero_hash : String
zero_hash = "0000000000000000000000000000000000000000000000000000000000000000"

pub data JournalState : Type 0 where
  not_started intent_recorded local_signature_created post_attempt_recorded : JournalState
  post_response_observed awaiting_referee_receipt receipt_accepted receipt_rejected : JournalState
  write_outcome_unknown : JournalState

pub data Event : Type 0 where
  intent local_signature post_attempt post_response await_receipt : Event
  accepted rejected outcome_unknown : Event

-- The codes of `HandoffError`, and an error of another class.
pub data HandoffError : Type 0 where
  journal_oversized journal_empty journal_truncated journal_duplicate_field : HandoffError
  journal_invalid journal_fields_invalid journal_state_invalid : HandoffError
  journal_transition_invalid journal_binding_invalid journal_hash_invalid : HandoffError
  journal_approval_fork journal_response_invalid journal_receipt_invalid : HandoffError
  journal_time_invalid journal_candidate_invalid journal_write_failed journal_durability_unknown :
      HandoffError
  journal_already_used journal_intent_required journal_locked : HandoffError
  approval_binding_invalid approval_id_invalid approval_reviewer_invalid : HandoffError
  approval_time_invalid approval_expired approval_not_issued approval_id_mismatch : HandoffError
  approval_already_used registration_state_unresolved candidate_invalid : HandoffError
  identity_did_mismatch signature_invalid request_body_size_invalid : HandoffError
  receipt_already_recorded receipt_unverified : HandoffError
  other_error : HandoffError

-- The values that every record repeats.
pub record Binding : Type 0 where
  pub schema : String
  pub journal_id : String
  pub registration_id : String
  pub packet_sha256 : String
  pub signing_target_sha256 : String
  pub nonce : String

-- A record without its hash. `event` and `state` are absent where the text is no known one,
-- `created_at` where the value is no text.
pub record Body : Type 0 where
  pub binding : Binding
  pub sequence : ℕ
  pub previous_hash : String
  pub event : Option Event
  pub state : Option JournalState
  pub approval_id_sha256 : String
  pub http_status : Option ℕ
  pub receipt_status : Option String
  pub created_at : Option String

pub record Record : Type 0 where
  pub body : Body
  pub open body use *
  pub record_hash : String

-- `_EVENT_STATE`
unfoldable pub event_state : Event → JournalState
event_state intent = intent_recorded
event_state local_signature = local_signature_created
event_state post_attempt = post_attempt_recorded
event_state post_response = post_response_observed
event_state await_receipt = awaiting_referee_receipt
event_state accepted = receipt_accepted
event_state rejected = receipt_rejected
event_state outcome_unknown = write_outcome_unknown
