-- ===== src/Handoff/Journal.antt =====
-- `_Journal.read`, `append` and `inspect` of sonnet_registration_handoff.py, over a world that
-- holds the journal file and counts what the process has done.
use Prim.Native.String.{String}
use flop_agent_intelligence.Common.{
  ℕ, true, false, not, Option, none, some, List, [], ◌∷◌, ◌++◌, map, length,
}
use flop_agent_intelligence.Common.Result.{Result, ok, err}
use flop_agent_intelligence.Common.Exec.{Exec, pure, raise, lift, modify, raise_when, ◌>>=◌, ◌>>◌}
use flop_agent_intelligence.Common.Text.{is_sha256}
use flop_agent_intelligence.Handoff.Types.{
  zero_hash, JournalState, not_started, Event, HandoffError, journal_transition_invalid,
  journal_write_failed, journal_durability_unknown, approval_id_invalid, other_error, Binding, Body,
  Record, event_state,
}
use flop_agent_intelligence.Handoff.Decode.{is_next, Chunk, row, decode_records}

-- What the code takes from SHA-256 and from `json.dumps`, and the constants of the registration.
pub record Codec : Type 0 where
  pub binding : Binding
  pub record_hash : Body → String
  pub approval_hash : String → String
  pub file_size : List Record → ℕ
  pub request_length : String → String → String → ℕ
  pub request_body_byte_length : ℕ

-- `used` lives in the process; `posts` and `signatures` count the calls of transport and signer.
pub record World : Type 0 where
  pub file : Option (ℕ × List Chunk)
  pub used : List String
  pub signatures : ℕ
  pub posts : ℕ

-- Where the operating system fails in an append, around the rename.
pub data WriteFault : Type 0 where
  no_fault before_replace after_replace : WriteFault

abbrev pub Handoff : Type 0 → Type 0
Handoff A = Exec World HandoffError A

pub data Approval : Type 0 where
  by_id by_hash : String → Approval

unfoldable pub last_state : List Record → Result HandoffError JournalState
last_state [] = ok not_started
last_state (r ∷ []) = elim r.state [ none ↦ err other_error | some s ↦ ok s ]
last_state (r ∷ r' ∷ rs) = last_state (r' ∷ rs)

unfoldable pub last_hash : List Record → String
last_hash [] = zero_hash
last_hash (r ∷ []) = r.record_hash
last_hash (r ∷ r' ∷ rs) = last_hash (r' ∷ rs)

module _ (codec : Codec) where
  unfoldable pub read_file : Option (ℕ × List Chunk) → Result HandoffError (List Record)
  read_file none = ok []
  read_file (some (size, chunks)) = decode_records codec.binding codec.record_hash size chunks

  unfoldable pub read : Handoff (List Record)
  read w = (read_file w.file, w)

  unfoldable pub approval_hash_of : Approval → Result HandoffError String
  approval_hash_of (by_id id) = ok (codec.approval_hash id)
  approval_hash_of (by_hash h) = elim (is_sha256 h) [
    | true ↦ ok h
    | false ↦ err approval_id_invalid
  ]

  unfoldable pub new_record :
      List Record → Event → String → Option ℕ → Option String → String → Record
  new_record records event approval http_status receipt_status created_at =
      let body : Body = record {
        binding = codec.binding;
        sequence = length records;
        previous_hash = last_hash records;
        event = some event;
        state = some (event_state event);
        approval_id_sha256 = approval;
        http_status = http_status;
        receipt_status = receipt_status;
        created_at = some created_at;
      } in
      record { body = body; record_hash = codec.record_hash body }

  -- The rename publishes the encoded candidate, with or without an error after it.
  unfoldable pub replace_file : List Record → WriteFault → Handoff (Unit {0})
  replace_file candidate WriteFault.no_fault =
      modify (λ w. record w { file = some (codec.file_size candidate, map row candidate) })
  replace_file candidate WriteFault.before_replace = raise journal_write_failed
  replace_file candidate WriteFault.after_replace = do
    modify (λ w. record w { file = some (codec.file_size candidate, map row candidate) })
    raise journal_durability_unknown

  -- The candidate is decoded before it is written. That the decoded records are the candidate is
  -- the round trip of JSON; what can fail is a check of `_decode_records`.
  unfoldable pub append :
      Event → Approval → Option ℕ → Option String → String → WriteFault → Handoff Record
  append event approval http_status receipt_status created_at fault = do
    records ← read
    prior ← lift (last_state records)
    raise_when (not (is_next prior (event_state event))) journal_transition_invalid
    approval_hash ← lift (approval_hash_of approval)
    let r = new_record records event approval_hash http_status receipt_status created_at
    let candidate = records ++ r ∷ []
    lift (
        decode_records codec.binding codec.record_hash (codec.file_size candidate)
          (map row candidate))
    replace_file candidate fault
    pure r

  -- `inspect`: the state of the last record; anything but `not_started` blocks an execution.
  unfoldable pub inspect : Handoff JournalState
  inspect = do records ← read; lift (last_state records)
