-- ===== src/ObservationJournal/Validate.antt =====
-- `_validate_record` and `_inspect_bytes`: a line of the journal and the journal as a whole.
use Prim.Native.String.{String}
use flop_agent_intelligence.Common.{
  ℕ, Bool, true, false, not, ◌&&◌, ◌||◌, Option, none, some, List, [], ◌∷◌, ◌++◌, ltb,
  if◌then◌else◌, length,
}
use flop_agent_intelligence.Common.Text.{is_sha256}
use flop_agent_intelligence.Common.Result.{Result, ok, err, raise_if, ◌>>=◌, ◌>>◌}
use flop_agent_intelligence.ObservationJournal.Types.{
  Integrity, absent, valid, torn_tail, corrupt, PredicatePolicy, v2, ordinal_of, RecordType,
  plan_prepared, permit_consumed, attempt_intent, source_intent, request_boundary, source_result,
  evidence_commit, finalize, AttemptState, JournalCode, record_invalid, record_fields_invalid,
  record_domain_invalid, record_id_invalid, predicate_invalid, source_set_invalid, sequence_invalid,
  generation_invalid, hash_chain_invalid, plan_fork, attempt_fork, record_hash_invalid,
  canonical_type_invalid, record_transition_invalid, source_binding_invalid,
  record_source_contradiction, result_binding_invalid, evidence_binding_invalid, boolean_invalid,
  Raised, journal_error, type_error, Value, null, known, other, Body, Record, Preimage, record_body,
  journal, source_order, schema_version, source_set, zero_hash, is_text, is_number, is_null,
  is_hashable, is_canonical, is_state, is_type,
}
use flop_agent_intelligence.ObservationJournal.History.{history_valid}

Check : Type 0
Check = Result Raised (Unit {0})

abbrev pub require : Bool → JournalCode → Result Raised (Unit {0})
require b c = raise_if (not b) (journal_error c)

-- `type(item) is str` with 64 characters of 0-9a-f
unfoldable pub is_id : Value String → Bool
is_id (known s) = is_sha256 s
is_id _ = false

abbrev pub is_v2 : Value PredicatePolicy → Bool
is_v2 (known v2) = true
is_v2 _ = false

-- `_RECORD_STATES[record_type]`
unfoldable pub has_state : RecordType → Value AttemptState → Bool
has_state plan_prepared v = is_state AttemptState.prepared v
has_state permit_consumed v = is_state AttemptState.prepared v
has_state attempt_intent v = is_state AttemptState.intent_durable v
has_state source_intent v = is_state AttemptState.in_progress v
has_state request_boundary v = is_state AttemptState.in_progress v
has_state source_result v =
    is_state AttemptState.in_progress v || is_state AttemptState.results_complete v
has_state evidence_commit v = is_state AttemptState.evidence_committed v
has_state finalize v = is_state AttemptState.finalized v

-- `record_type not in _RECORD_STATES or attempt_state not in _RECORD_STATES[record_type]`
unfoldable pub check_state : Value RecordType → Value AttemptState → Result Raised (Unit {0})
check_state (known t) v =
    raise_if (not (is_hashable v)) type_error >> require (has_state t v) record_transition_invalid
check_state v _ =
    raise_if (not (is_hashable v)) type_error >> err (journal_error record_transition_invalid)

-- `source_id` and `source_ordinal` name one of the four sources, or neither is given.
unfoldable pub source_bound : Body → Bool
source_bound b = elim b.source_id [
  | null ↦ is_null b.source_ordinal && is_null b.source_state
  | known s ↦ is_number b.source_ordinal (ordinal_of s)
  | other hashable canonical t ↦ false
]

abbrev pub same_bool : Bool → Bool → Bool
same_bool true b = b
same_bool false b = not b

abbrev pub is_source_record : Value RecordType → Bool
is_source_record v =
    is_type source_intent v || is_type request_boundary v || is_type source_result v

abbrev pub id_or_null : Value String → Bool
id_or_null v = is_null v || is_id v

abbrev pub is_bool : Value Bool → Bool
is_bool (known b) = true
is_bool _ = false

-- `check` of `_strict_hash`, on the fields of a record
unfoldable pub body_canonical : Body → Bool
body_canonical b =
    is_canonical b.schema
    && is_canonical b.journal_id
    && is_canonical b.plan_id
    && is_canonical b.attempt_id
    && is_canonical b.predicate_policy
    && is_canonical b.source_set_id
    && is_canonical b.source_order_hash
    && is_canonical b.attempt_generation
    && is_canonical b.sequence
    && is_canonical b.previous_hash
    && is_canonical b.record_type
    && is_canonical b.attempt_state
    && is_canonical b.source_id
    && is_canonical b.source_ordinal
    && is_canonical b.source_state
    && is_canonical b.result_id
    && is_canonical b.evidence_id
    && is_canonical b.created_at
    && is_canonical b.reconciliation_required

-- A line without its end, as `_decode_line` reads it: a record, an object with other fields, or
-- something it refuses.
pub data Content : Type 0 where
  fields : Record → Content
  other_fields unreadable : Content

-- A chunk of `splitlines(keepends=True)`; one that ends without a line feed ends at a carriage
-- return or at the end of the file.
pub record Chunk : Type 0 where
  pub content : Content
  pub terminated : Bool

-- What the lines before have fixed.
pub record Chain : Type 0 where
  pub previous : String
  pub plan : Option String
  pub attempt : Option String

abbrev pub fits : Option String → Value String → Bool
fits none v = true
fits (some s) v = is_text v s

module _ (sha256 : Preimage → String) where
  -- `_strict_hash(body, "JOURNAL_RECORD")`
  unfoldable pub strict_hash : Body → Result Raised String
  strict_hash b =
      if body_canonical b
      then ok (sha256 (record_body b))
      else err (journal_error canonical_type_invalid)

  unfoldable pub check_hash : Record → Result Raised (Unit {0})
  check_hash r = strict_hash r.body >>= λ computed.
      require (is_text r.record_hash computed) record_hash_invalid

  unfoldable pub check_domain : Record → Result Raised (Unit {0})
  check_domain r =
      let b = r.body in
      require (is_text b.schema schema_version && is_text b.journal_id (sha256 journal))
        record_domain_invalid
      >> (require
            (is_id b.plan_id
              && is_id b.attempt_id
              && is_id b.source_order_hash
              && is_id r.record_hash)
            record_id_invalid
          >> (require (is_v2 b.predicate_policy) predicate_invalid
              >> require
                  (is_text b.source_set_id source_set
                    && is_text b.source_order_hash (sha256 source_order))
                  source_set_invalid))

  unfoldable pub check_place : Body → Chain → ℕ → Result Raised (Unit {0})
  check_place b c n =
      require (is_number b.sequence n) sequence_invalid
      >> (require (is_number b.attempt_generation 0) generation_invalid
          >> (require (is_text b.previous_hash c.previous) hash_chain_invalid
              >> (require (fits c.plan b.plan_id) plan_fork
                  >> require (fits c.attempt b.attempt_id) attempt_fork)))

  unfoldable pub check_bindings : Body → Result Raised (Unit {0})
  check_bindings b =
      require (source_bound b) source_binding_invalid
      >> (require (same_bool (is_source_record b.record_type) (not (is_null b.source_id)))
            record_source_contradiction
          >> (require (same_bool (is_type source_result b.record_type) (not (is_null b.result_id)))
                result_binding_invalid
              >> (require
                    (same_bool (is_type evidence_commit b.record_type)
                      (not (is_null b.evidence_id)))
                    evidence_binding_invalid
                  >> (require (id_or_null b.result_id && id_or_null b.evidence_id) record_id_invalid
                      >> require (is_bool b.reconciliation_required) boolean_invalid))))

  -- `_validate_record` of a value with the record's fields
  unfoldable pub validate_record : Record → Chain → ℕ → Result Raised (Unit {0})
  validate_record r c n =
      check_domain r
      >> (check_place r.body c n
          >> (check_hash r
              >> (check_state r.body.record_type r.body.attempt_state >> check_bindings r.body)))

abbrev pub Inspected : Type 0
Inspected = Result Raised (Integrity × List Record)

abbrev pub refused : Inspected
refused = ok (corrupt, [])

abbrev pub is_last : List Chunk → Bool
is_last [] = true
is_last (c ∷ rest) = false

abbrev pub text_or : Value String → String → String
text_or (known s) t = s
text_or _ t = t

abbrev pub text_of : Value String → Option String
text_of (known s) = some s
text_of _ = none

abbrev pub or_else : Option String → Option String → Option String
or_else none o = o
or_else (some s) o = some s

-- The chain behind a record that was checked.
unfoldable pub extend : Chain → Record → Chain
extend c r = record {
  previous = text_or r.record_hash c.previous;
  plan = or_else c.plan (text_of r.body.plan_id);
  attempt = or_else c.attempt (text_of r.body.attempt_id);
}

-- `except JournalError`: any other exception passes.
unfoldable pub caught : Result Raised (Unit {0}) → Inspected → Inspected
caught (ok u) next = next
caught (err (journal_error c)) next = refused
caught (err e) next = err e

abbrev pub start : Chain
start = record { previous = zero_hash; plan = none; attempt = none }

abbrev pub record_in : Content → List Record
record_in (fields r) = r ∷ []
record_in _ = []

abbrev pub extend_by : Chain → Content → Chain
extend_by c (fields r) = extend c r
extend_by c _ = c

module _ (sha256 : Preimage → String) where
  unfoldable pub check_content : Content → Chain → ℕ → Result Raised (Unit {0})
  check_content (fields r) c n = validate_record sha256 r c n
  check_content other_fields c n = err (journal_error record_fields_invalid)
  check_content unreadable c n = err (journal_error record_invalid)

  -- The loop of `_inspect_bytes`; `records` are those of the chunks before.
  unfoldable pub inspect_chunks : List Chunk → Chain → List Record → Inspected
  inspect_chunks [] c records = if history_valid records then ok (valid, records) else refused
  inspect_chunks (k ∷ rest) c records =
      let now = records ++ record_in k.content in
      let next = inspect_chunks rest (extend_by c k.content) now in
      if not k.terminated
      then if is_last rest then ok (torn_tail, records) else refused
      else caught (check_content k.content c (length records))
          (if ltb 256 (length now) then refused else next)

  -- `_inspect_bytes`
  unfoldable pub inspect_bytes : List Chunk → Inspected
  inspect_bytes [] = ok (absent, [])
  inspect_bytes (k ∷ rest) = inspect_chunks (k ∷ rest) start []
