-- ===== src/Collaboration/Reduce.antt =====
-- `Provenance.validate`, `HumanApproval.validate`, `apply_event` and `replay` of collaboration.py.
use Prim.Native.String.{String}
use text.Mathlib.Text.{◌==◌ as str_eq}
use flop_agent_intelligence.Common.{
  ◌+◌, ◌==◌, Bool, true, false, not, ◌&&◌, ◌||◌, Option, none, some, List, [], ◌∷◌, ◌++◌,
  if◌then◌else◌,
}
use flop_agent_intelligence.Common.Result.{Result, ok, err, ◌>>=◌, ◌>>◌, raise_if, or_raise}
use flop_agent_intelligence.Common.Text.{is_sha256, is_member, is_blank, same_text}
use flop_agent_intelligence.Collaboration.Types.{
  schema, Phase, discovered, claim_approved, claimed, handoff_approved, handed_off, acknowledged,
  completion_approved, completed, recovery_required, EventKind, discover, approve_claim,
  record_claim, approve_handoff, record_handoff, record_ack, approve_completion, record_completion,
  require_recovery, CollaborationError, unknown_classification, content_sha256_invalid,
  provenance_incomplete, approval_unidentified, approval_unbound, case_mismatch, chain_broken,
  unknown_event, approval_required, key_not_fresh, evidence_required, evidence_unbound,
  signature_invalid, recovery_invalid, transition_not_allowed, task_unbound, Provenance,
  HumanApproval, PayloadFields, Payload, fields, other_payload, CollaborationEvent,
  CollaborationState, Digests,
}

-- `TRANSITIONS`
unfoldable pub transition : Option Phase → EventKind → Option Phase
transition none discover = some discovered
transition (some discovered) approve_claim = some claim_approved
transition (some claim_approved) record_claim = some claimed
transition (some claimed) approve_handoff = some handoff_approved
transition (some handoff_approved) record_handoff = some handed_off
transition (some handed_off) record_ack = some acknowledged
transition (some acknowledged) approve_completion = some completion_approved
transition (some completion_approved) record_completion = some completed
transition _ _ = none

abbrev pub is_approval : EventKind → Bool
is_approval approve_claim = true
is_approval approve_handoff = true
is_approval approve_completion = true
is_approval _ = false

abbrev pub is_signed : EventKind → Bool
is_signed record_claim = true
is_signed record_handoff = true
is_signed record_ack = true
is_signed record_completion = true
is_signed _ = false

unfoldable pub kind_value : EventKind → String
kind_value discover = "DISCOVER"
kind_value approve_claim = "APPROVE_CLAIM"
kind_value record_claim = "RECORD_CLAIM"
kind_value approve_handoff = "APPROVE_HANDOFF"
kind_value record_handoff = "RECORD_HANDOFF"
kind_value record_ack = "RECORD_ACK"
kind_value approve_completion = "APPROVE_COMPLETION"
kind_value record_completion = "RECORD_COMPLETION"
kind_value require_recovery = "REQUIRE_RECOVERY"

unfoldable pub find_kind : String → List EventKind → Option EventKind
unfolding kind_value
find_kind text [] = none
find_kind text (k ∷ ks) = if str_eq text (kind_value k) then some k else find_kind text ks

-- `EventKind(text)`
unfoldable pub parse_kind : String → Option EventKind
unfolding find_kind
parse_kind text = find_kind text (
    discover ∷ approve_claim ∷ record_claim ∷ approve_handoff ∷ record_handoff ∷ record_ack
    ∷ approve_completion ∷ record_completion ∷ require_recovery ∷ [])

unfoldable pub validate_provenance : Provenance → Result CollaborationError (Unit {0})
validate_provenance p = do
  raise_if
      (not (
        is_member p.classification
          ("CONFIRMED" ∷ "OFFICIAL_DRAFT" ∷ "COMMUNITY" ∷ "INFERENCE" ∷ [])))
      unknown_classification
  raise_if (not (is_sha256 p.content_sha256)) content_sha256_invalid
  raise_if (is_blank p.source_id || is_blank p.source_locator || is_blank p.observed_at)
      provenance_incomplete

unfoldable pub validate_approval :
    HumanApproval → String → String → Result CollaborationError (Unit {0})
validate_approval a purpose subject_sha256 = do
  raise_if (is_blank a.reviewer || is_blank a.approved_at) approval_unidentified
  raise_if (not (str_eq a.purpose purpose) || not (str_eq a.subject_sha256 subject_sha256))
      approval_unbound

-- A key that Python takes for true: present and not empty.
abbrev pub real_key : Option String → Option String
real_key none = none
real_key (some String.[]) = none
real_key (some (String.◌∷◌ c s)) = some (String.◌∷◌ c s)

unfoldable pub same_payload : Payload → PayloadFields → Bool
same_payload other_payload e = false
same_payload (fields p) e =
    str_eq p.payload_schema e.payload_schema
    && str_eq p.payload_case_id e.payload_case_id
    && str_eq p.event_kind e.event_kind
    && str_eq p.payload_key e.payload_key
    && str_eq p.payload_subject e.payload_subject

abbrev pub is_discover : EventKind → Bool
is_discover discover = true
is_discover _ = false

unfoldable pub next_phase : Option Phase → EventKind → Result CollaborationError Phase
next_phase none require_recovery = err recovery_invalid
next_phase (some completed) require_recovery = err recovery_invalid
next_phase _ require_recovery = ok recovery_required
next_phase p k = or_raise (transition p k) transition_not_allowed

module _ {Subject : Type 0} (d : Digests Subject) where
  unfoldable pub evidence_payload : String → EventKind → Subject → String → PayloadFields
  evidence_payload case_id kind subject key = record {
    payload_schema = schema;
    payload_case_id = case_id;
    event_kind = kind_value kind;
    payload_key = key;
    payload_subject = d.digest subject;
  }

  unfoldable pub check_approval :
      EventKind → CollaborationEvent Subject → Result CollaborationError (Unit {0})
  check_approval kind e =
      if is_approval kind
      then (do
        a ← or_raise e.approval approval_required
        validate_approval a (kind_value kind) (d.digest e.subject))
      else ok tt

  unfoldable pub check_evidence :
      CollaborationState
      → EventKind
      → CollaborationEvent Subject
      → Result CollaborationError (Unit {0})
  check_evidence s kind e =
      if is_signed kind
      then (do
        key ← or_raise (real_key e.idempotency_key) key_not_fresh
        raise_if (is_member key s.seen_idempotency_keys) key_not_fresh
        evidence ← or_raise e.evidence evidence_required
        raise_if
            (not (same_payload evidence.payload (evidence_payload e.case_id kind e.subject key)))
            evidence_unbound
        raise_if (not (d.verify evidence)) signature_invalid)
      else ok tt

  unfoldable pub task_hash :
      CollaborationState → EventKind → CollaborationEvent Subject → Result CollaborationError String
  task_hash s kind e =
      if is_discover kind
      then ok (d.digest e.subject)
      else or_raise s.task_sha256 task_unbound >>= λ task.
          raise_if (not (same_text (d.task_of e.subject) (some task))) task_unbound >> ok task

  abbrev pub add_key : List String → Option String → List String
  add_key seen none = seen
  add_key seen (some key) = seen ++ key ∷ []

  unfoldable pub advance :
      CollaborationState → CollaborationEvent Subject → Phase → String → CollaborationState
  advance s e phase task = record s {
    phase = some phase;
    last_event_sha256 = some (d.event_sha256 e);
    next_sequence = s.next_sequence + 1;
    task_sha256 = some task;
    seen_idempotency_keys = add_key s.seen_idempotency_keys (real_key e.idempotency_key);
  }

  unfoldable pub apply_event :
      CollaborationState → CollaborationEvent Subject → Result CollaborationError CollaborationState
  apply_event s e = do
    validate_provenance e.provenance
    raise_if (not (str_eq e.event_schema schema) || not (str_eq e.case_id s.case_id)) case_mismatch
    raise_if
        (not (e.sequence == s.next_sequence)
          || not (same_text e.previous_event_sha256 s.last_event_sha256))
        chain_broken
    kind ← or_raise (parse_kind e.kind) unknown_event
    check_approval kind e
    check_evidence s kind e
    phase ← next_phase s.phase kind
    task ← task_hash s kind e
    ok (advance s e phase task)

  abbrev pub initial_state : String → CollaborationState
  initial_state case_id = record {
    case_id = case_id;
    phase = none;
    last_event_sha256 = none;
    next_sequence = 1;
    task_sha256 = none;
    seen_idempotency_keys = [];
  }

  unfoldable pub replay_from :
      CollaborationState
      → List (CollaborationEvent Subject)
      → Result CollaborationError CollaborationState
  replay_from s [] = ok s
  replay_from s (e ∷ es) = apply_event s e >>= λ s'. replay_from s' es

  unfoldable pub replay :
      String → List (CollaborationEvent Subject) → Result CollaborationError CollaborationState
  replay case_id events = replay_from (initial_state case_id) events
