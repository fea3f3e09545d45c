-- ===== src/ObservationJournal/State.antt =====
-- The operating system as an argument, the store, the fields of a record, and tests on records.
use Prim.Native.String.{String}
use flop_agent_intelligence.Common.{ℕ, Bool, true, false, ◌||◌, Option, none, some, List, [], ◌∷◌}
use flop_agent_intelligence.Common.Result.{Result, ok, err}
use flop_agent_intelligence.Common.Exec.{Exec}
use flop_agent_intelligence.ObservationJournal.Types.{
  Integrity, absent, valid, corrupt, AttemptState, RecordType, Source, SourceState, JournalCode,
  Raised, journal_error, os_error, type_error, assertion_error, interrupted, Value, null, known,
  Record, Preimage, zero_hash, is_state,
}
use flop_agent_intelligence.ObservationJournal.Validate.{
  fields, Chunk, Inspected, inspect_bytes, text_or,
}

-- What the operating system answers: the call works and its result is the expected one; it raises
-- `OSError`; its result fails the test behind it; the run stops here.
pub data Answer : Type 0 where
  works fails unexpected stops : Answer

-- `written n`: how many bytes the write that is call `n` takes. `line_size r`: the length of the
-- JSON line of `r`.
pub record System : Type 0 where
  pub sha256 : Preimage → String
  pub line_size : Record → ℕ
  pub answers : ℕ → Answer
  pub written : ℕ → ℕ
  pub pid : ℕ
  pub fixture_issuers : Bool

pub record File : Type 0 where
  pub chunks : List Chunk
  pub size : ℕ

pub record Handle : Type 0 where
  pub attempt_id : String
  pub plan_id : String
  pub generation : ℕ
  pub issuer_pid : ℕ

-- The journal on disk, and what one built store holds.
pub record Store : Type 0 where
  pub file : Option File
  pub durability_unknown : Bool
  pub handles : List Handle
  pub results : List String
  pub evidence : List String

pub record World : Type 0 where
  pub store : Store
  pub calls : ℕ
  pub temporary : Bool

abbrev pub Method : Type 0 → Type 0
Method A = Exec World Raised A

-- What the callers of `append` give.
pub record Fields : Type 0 where
  pub plan_id : String
  pub attempt_id : String
  pub record_type : RecordType
  pub attempt_state : AttemptState
  pub source_id : Option Source
  pub source_ordinal : Option ℕ
  pub source_state : Option SourceState
  pub result_id : Option String
  pub evidence_id : Option String
  pub reconciliation_required : Bool

abbrev pub given : {A : Type 0} → Option A → Value A
given none = null
given (some a) = known a

abbrev pub line_of : Record → Chunk
line_of r = record { content = fields r; terminated = true }

-- `CORRUPT` of an empty file, and `_inspect_bytes` of any other.
abbrev pub read_chunks : (Preimage → String) → List Chunk → Inspected
read_chunks sha256 [] = ok (corrupt, [])
read_chunks sha256 (k ∷ rest) = inspect_bytes sha256 (k ∷ rest)

abbrev pub last_of : List Record → Option Record
last_of [] = none
last_of (r ∷ []) = some r
last_of (r ∷ s ∷ rest) = last_of (s ∷ rest)

abbrev pub hash_of_last : Option Record → String
hash_of_last none = zero_hash
hash_of_last (some r) = text_or r.record_hash zero_hash

unfoldable pub is_terminal : Option Record → Bool
is_terminal none = false
is_terminal (some r) =
    is_state AttemptState.finalized r.body.attempt_state
    || is_state AttemptState.abandoned r.body.attempt_state

abbrev pub max_bytes : ℕ
max_bytes = 2097152

abbrev pub is_appendable : Integrity → Bool
is_appendable absent = true
is_appendable valid = true
is_appendable _ = false

abbrev pub is_valid : Integrity → Bool
is_valid valid = true
is_valid _ = false

abbrev pub answered : Answer → Raised → Raised → Result Raised (Unit {0})
answered works failed refused = ok tt
answered fails failed refused = err failed
answered unexpected failed refused = err refused
answered stops failed refused = err interrupted

abbrev pub code : JournalCode → Raised
code = journal_error

abbrev pub handled :
    {A : Type 0} → (World → World) → JournalCode → Result Raised A × World → Result Raised A × World
handled then_do c (err os_error, w) = (err (journal_error c), then_do w)
handled then_do c (ok a, w) = (ok a, w)
handled then_do c (err (journal_error d), w) = (err (journal_error d), w)
handled then_do c (err type_error, w) = (err type_error, w)
handled then_do c (err assertion_error, w) = (err assertion_error, w)
handled then_do c (err interrupted, w) = (err interrupted, w)
