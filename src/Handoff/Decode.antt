-- ===== src/Handoff/Decode.antt =====
-- `_NEXT_STATES` and `_decode_records` of sonnet_registration_handoff.py. `record_hash` stands for
-- `_record_hash`: SHA-256 of the canonical JSON of the body.
use Prim.Native.String.{String}
use text.Mathlib.Text.{◌==◌ as str_eq}
use flop_agent_intelligence.Common.{
  ℕ, suc, Bool, true, false, not, ◌&&◌, ◌||◌, Option, none, some, List, [], ◌∷◌, ltb, leb, ◌==◌,
  if◌then◌else◌, length,
}
use flop_agent_intelligence.Common.Result.{Result, ok, err, ◌>>=◌, ◌>>◌, raise_if, or_raise}
use flop_agent_intelligence.Common.Text.{is_sha256, same_text}
use flop_agent_intelligence.Handoff.Types.{
  max_journal_bytes, max_journal_records, zero_hash, JournalState, not_started, intent_recorded,
  local_signature_created, post_attempt_recorded, post_response_observed, awaiting_referee_receipt,
  receipt_accepted, receipt_rejected, write_outcome_unknown, Event, HandoffError, journal_oversized,
  journal_empty, journal_truncated, journal_duplicate_field, journal_invalid,
  journal_fields_invalid, journal_state_invalid, journal_transition_invalid,
  journal_binding_invalid, journal_hash_invalid, journal_approval_fork, journal_response_invalid,
  journal_receipt_invalid, journal_time_invalid, Binding, Body, Record, event_state,
}

-- `next in _NEXT_STATES[previous]`
unfoldable pub is_next : JournalState → JournalState → Bool
is_next not_started intent_recorded = true
is_next not_started _ = false
is_next intent_recorded local_signature_created = true
is_next intent_recorded receipt_accepted = true
is_next intent_recorded receipt_rejected = true
is_next intent_recorded _ = false
is_next local_signature_created post_attempt_recorded = true
is_next local_signature_created receipt_accepted = true
is_next local_signature_created receipt_rejected = true
is_next local_signature_created _ = false
is_next post_attempt_recorded post_response_observed = true
is_next post_attempt_recorded write_outcome_unknown = true
is_next post_attempt_recorded receipt_accepted = true
is_next post_attempt_recorded receipt_rejected = true
is_next post_attempt_recorded _ = false
is_next post_response_observed awaiting_referee_receipt = true
is_next post_response_observed receipt_accepted = true
is_next post_response_observed receipt_rejected = true
is_next post_response_observed _ = false
is_next awaiting_referee_receipt receipt_accepted = true
is_next awaiting_referee_receipt receipt_rejected = true
is_next awaiting_referee_receipt _ = false
is_next write_outcome_unknown receipt_accepted = true
is_next write_outcome_unknown receipt_rejected = true
is_next write_outcome_unknown _ = false
is_next receipt_accepted _ = false
is_next receipt_rejected _ = false

pub JournalState-discrete : Discrete JournalState
JournalState-discrete = hlevel

unfoldable pub same_state : JournalState → JournalState → Bool
unfolding JournalState-discrete
same_state a b = elim (JournalState-discrete a b) [ yes _ ↦ true | no _ ↦ false ]

-- What a line of the file holds, as its newline, its UTF-8, its JSON and its key set come out.
pub data Chunk : Type 0 where
  truncated undecodable duplicate_field fields_invalid : Chunk
  row : Record → Chunk

unfoldable pub read_chunk : Chunk → Result HandoffError Record
read_chunk truncated = err journal_truncated
read_chunk undecodable = err journal_invalid
read_chunk duplicate_field = err journal_duplicate_field
read_chunk fields_invalid = err journal_fields_invalid
read_chunk (row r) = ok r

unfoldable pub same_binding : Binding → Binding → Bool
same_binding a b =
    str_eq a.schema b.schema
    && str_eq a.journal_id b.journal_id
    && str_eq a.registration_id b.registration_id
    && str_eq a.packet_sha256 b.packet_sha256
    && str_eq a.signing_target_sha256 b.signing_target_sha256
    && str_eq a.nonce b.nonce

abbrev pub event_matches : Option Event → JournalState → Bool
event_matches none current = false
event_matches (some e) current = same_state (event_state e) current

-- The approval of the first record is that of every record.
abbrev pub forks : Option String → String → Bool
forks none hash = false
forks (some first) hash = not (str_eq hash first)

-- A response record has a 2xx status, every other record has none.
unfoldable pub status_invalid : JournalState → Option ℕ → Bool
status_invalid post_response_observed (some status) = not (leb 200 status && ltb status 300)
status_invalid post_response_observed none = true
status_invalid _ none = false
status_invalid _ (some _) = true

unfoldable pub receipt_of : JournalState → Option String
receipt_of receipt_accepted = some "accepted"
receipt_of receipt_rejected = some "rejected"
receipt_of _ = none

abbrev pub is_absent : Option String → Bool
is_absent none = true
is_absent (some text) = false

-- What the loop carries from record to record.
pub record Cursor : Type 0 where
  pub sequence : ℕ
  pub previous_hash : String
  pub previous_state : JournalState
  pub approval : Option String

abbrev pub initial_cursor : Cursor
initial_cursor = record {
  sequence = 0;
  previous_hash = zero_hash;
  previous_state = not_started;
  approval = none;
}

module _ (binding : Binding) (record_hash : Body → String) where
  unfoldable pub check_record : Cursor → Record → Result HandoffError JournalState
  check_record c r = do
    current ← or_raise r.state journal_state_invalid
    raise_if (not (event_matches r.event current) || not (is_next c.previous_state current))
        journal_transition_invalid
    raise_if
        (not (same_binding r.body.binding binding)
          || not (r.body.sequence == c.sequence)
          || not (str_eq r.body.previous_hash c.previous_hash))
        journal_binding_invalid
    raise_if (not (is_sha256 r.approval_id_sha256) || not (is_sha256 r.record_hash))
        journal_hash_invalid
    raise_if (forks c.approval r.approval_id_sha256) journal_approval_fork
    raise_if (not (str_eq r.record_hash (record_hash r.body))) journal_hash_invalid
    raise_if (status_invalid current r.http_status) journal_response_invalid
    raise_if (not (same_text r.receipt_status (receipt_of current))) journal_receipt_invalid
    raise_if (is_absent r.body.created_at) journal_time_invalid
    ok current

  abbrev pub advance : Cursor → Record → JournalState → Cursor
  advance c r current = record {
    sequence = suc c.sequence;
    previous_hash = r.record_hash;
    previous_state = current;
    approval = some (elim c.approval [ none ↦ r.approval_id_sha256 | some first ↦ first ]);
  }

  unfoldable pub decode_from : Cursor → List Chunk → Result HandoffError (List Record)
  decode_from c [] = ok []
  decode_from c (chunk ∷ chunks) = do
    r ← read_chunk chunk
    current ← check_record c r
    rest ← decode_from (advance c r current) chunks
    ok (r ∷ rest)

  unfoldable pub decode_records : ℕ → List Chunk → Result HandoffError (List Record)
  decode_records size [] = err journal_empty
  decode_records size chunks =
      if ltb max_journal_bytes size || ltb max_journal_records (length chunks)
      then err journal_oversized
      else decode_from initial_cursor chunks
