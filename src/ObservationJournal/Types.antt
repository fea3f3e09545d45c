-- ===== src/ObservationJournal/Types.antt =====
-- The enumerations, errors and records of durable_observation_journal.py. A record is what
-- `json.loads` made of a line that has exactly the journal's fields; a field whose text is a member
-- of an enumeration is that member.
use Prim.Native.String.{String}
use text.Mathlib.Text.{◌==◌ as str_eq}
use flop_agent_intelligence.Common.{ℕ, Bool, true, false, ◌==◌}

pub data AttemptState : Type 0 where
  prepared intent_durable in_progress interrupted outcome_unknown : AttemptState
  results_complete evidence_committed finalized abandoned reconciliation_required : AttemptState

pub data SourceState : Type 0 where
  not_attempted intent_durable request_may_have_started result_durable : SourceState
  outcome_unknown failed_confirmed : SourceState

pub data Integrity : Type 0 where
  absent valid torn_tail corrupt : Integrity

pub data Durability : Type 0 where
  not_found confirmed unknown : Durability

pub data PredicatePolicy : Type 0 where
  v1 v2 : PredicatePolicy

-- `FIXED_SOURCES`, in order
pub data Source : Type 0 where
  llms openapi agent_manifest config : Source

abbrev pub ordinal_of : Source → ℕ
ordinal_of llms = 0
ordinal_of openapi = 1
ordinal_of agent_manifest = 2
ordinal_of config = 3

pub data RecordType : Type 0 where
  plan_prepared permit_consumed attempt_intent source_intent request_boundary : RecordType
  source_result evidence_commit finalize : RecordType

-- The codes of `JournalError`.
pub data JournalCode : Type 0 where
  record_invalid record_fields_invalid record_domain_invalid record_id_invalid : JournalCode
  predicate_invalid source_set_invalid sequence_invalid generation_invalid : JournalCode
  hash_chain_invalid plan_fork attempt_fork record_hash_invalid canonical_type_invalid : JournalCode
  record_transition_invalid source_binding_invalid record_source_contradiction : JournalCode
  result_binding_invalid evidence_binding_invalid boolean_invalid : JournalCode
  journal_root_unsafe lock_unsafe duplicate_writer local_artifact_unsafe : JournalCode
  journal_too_large durability_reconciliation_required : JournalCode
  journal_reconciliation_required attempt_terminal journal_limit_reached : JournalCode
  candidate_invalid temp_unsafe short_write directory_fsync_durability_unknown : JournalCode
  published_identity_invalid local_persistence_failed : JournalCode
  stale_or_foreign_attempt foreign_process_attempt journal_already_exists : JournalCode
  duplicate_source_intent duplicate_attempt_intent duplicate_permit_consumption : JournalCode
  permit_consumption_order_invalid attempt_intent_required source_invalid : JournalCode
  source_order_or_prior_outcome_invalid source_intent_required : JournalCode
  sealed_result_required duplicate_source_result sealed_v2_evidence_required : JournalCode
  duplicate_evidence_commit four_durable_results_required evidence_commit_required : JournalCode
  public_projection_invalid live_evidence_issuer_unavailable result_id_invalid : JournalCode
  evidence_id_invalid : JournalCode

-- What a method raises: `JournalError`, the `TypeError` of a set that is asked for an unhashable
-- value, `AssertionError`, an `OSError`, and what stops the process between two system calls.
pub data Raised : Type 0 where
  journal_error : JournalCode → Raised
  type_error assertion_error os_error interrupted : Raised

-- A field's value: null, a value of the field's type, or anything else, with whether it can be in a
-- set and whether it has a canonical encoding.
pub data Value (A : Type 0) : Type 0 where
  null : Value A
  known : A → Value A
  other : (hashable canonical : Bool) → String → Value A

pub record Body : Type 0 where
  pub schema : Value String
  pub journal_id : Value String
  pub plan_id : Value String
  pub attempt_id : Value String
  pub predicate_policy : Value PredicatePolicy
  pub source_set_id : Value String
  pub source_order_hash : Value String
  pub attempt_generation : Value ℕ
  pub sequence : Value ℕ
  pub previous_hash : Value String
  pub record_type : Value RecordType
  pub attempt_state : Value AttemptState
  pub source_id : Value Source
  pub source_ordinal : Value ℕ
  pub source_state : Value SourceState
  pub result_id : Value String
  pub evidence_id : Value String
  pub created_at : Value String
  pub reconciliation_required : Value Bool

pub record Record : Type 0 where
  pub body : Body
  pub record_hash : Value String

-- The texts that the module hashes: those of its constants, of the attempt and of a record.
pub data Preimage : Type 0 where
  journal source_order plan attempt : Preimage
  record_body : Body → Preimage
  fixture_result : Source → Preimage
  fixture_evidence : Preimage

abbrev pub schema_version : String
schema_version = "durable-observation-attempt-journal-v1"

abbrev pub source_set : String
source_set = "technocore-runtime-fixed-source-set-v1"

abbrev pub zero_hash : String
zero_hash = "0000000000000000000000000000000000000000000000000000000000000000"

abbrev pub stamp : String
stamp = "2026-09-08T06:00:00Z"

-- `value == text`
unfoldable pub is_text : Value String → String → Bool
is_text (known s) t = str_eq s t
is_text _ t = false

unfoldable pub is_number : Value ℕ → ℕ → Bool
is_number (known m) n = m == n
is_number _ n = false

abbrev pub is_null : {A : Type 0} → Value A → Bool
is_null null = true
is_null _ = false

-- `{} in set` raises.
abbrev pub is_hashable : {A : Type 0} → Value A → Bool
is_hashable (other hashable canonical t) = hashable
is_hashable _ = true

abbrev pub is_canonical : {A : Type 0} → Value A → Bool
is_canonical (other hashable canonical t) = canonical
is_canonical _ = true

abbrev pub type_code : RecordType → ℕ
type_code plan_prepared = 0
type_code permit_consumed = 1
type_code attempt_intent = 2
type_code source_intent = 3
type_code request_boundary = 4
type_code source_result = 5
type_code evidence_commit = 6
type_code finalize = 7

-- `item["record_type"] == ...`
abbrev pub is_type : RecordType → Value RecordType → Bool
is_type t (known u) = type_code u == type_code t
is_type t _ = false

abbrev pub attempt_code : AttemptState → ℕ
attempt_code prepared = 0
attempt_code intent_durable = 1
attempt_code in_progress = 2
attempt_code interrupted = 3
attempt_code outcome_unknown = 4
attempt_code results_complete = 5
attempt_code evidence_committed = 6
attempt_code finalized = 7
attempt_code abandoned = 8
attempt_code reconciliation_required = 9

abbrev pub is_state : AttemptState → Value AttemptState → Bool
is_state t (known u) = attempt_code u == attempt_code t
is_state t _ = false

abbrev pub source_code : SourceState → ℕ
source_code not_attempted = 0
source_code intent_durable = 1
source_code request_may_have_started = 2
source_code result_durable = 3
source_code outcome_unknown = 4
source_code failed_confirmed = 5

abbrev pub is_source_state : SourceState → Value SourceState → Bool
is_source_state t (known u) = source_code u == source_code t
is_source_state t _ = false

-- `item["source_id"] == source.value`
abbrev pub is_source : Source → Value Source → Bool
is_source s (known t) = ordinal_of t == ordinal_of s
is_source s _ = false
