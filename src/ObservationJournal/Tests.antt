-- ===== src/ObservationJournal/Tests.antt =====
-- Runs of the journal and of its inspection on concrete records.
use Prim.Native.String.{String}
use flop_agent_intelligence.Common.{
  ℕ, ◌≡◌, refl, Bool, true, false, none, some, List, [], ◌∷◌, ◌≤◌, arith, ◌==◌, if◌then◌else◌,
}
use flop_agent_intelligence.Common.Result.{ok, err}
use flop_agent_intelligence.ObservationJournal.Types.{
  valid, torn_tail, AttemptState, plan_prepared, attempt_intent, source_intent, evidence_commit,
  finalize, Source, llms, openapi, agent_manifest, config, ordinal_of, is_number, SourceState,
  known, Record, Preimage, JournalCode, journal_error, v2, schema_version, source_set, zero_hash,
  stamp,
}
use flop_agent_intelligence.ObservationJournal.History.{
  history_valid, after_plan, after_permit, after_intent, source_valid, source_boundary_valid,
  source_result_valid, after_sources, after_commit,
}
use flop_agent_intelligence.ObservationJournal.State.{Fields, given, System, works, Store, World}
use flop_agent_intelligence.ObservationJournal.Select.{
  any_type, ordinal, Transition, plain, with_source, fields_of,
}
use flop_agent_intelligence.ObservationJournal.Service.{new_handle, with_result}
use flop_agent_intelligence.ObservationJournal.Requested.{
  announcements, history_valid-announcements,
}
use flop_agent_intelligence.ObservationJournal.Performed.{
  Event, perform, restart, prepare_attempt, record_intent, finalize_token, Extends, happen_all,
  happen_all-Extends, in_doubt, operate_all, sealed-unchanged,
}
use flop_agent_intelligence.ObservationJournal.Projection.{
  SourceEntry, boundary_errors, final_errors, source_errors, count_errors, in_order, any_entry,
}
use flop_agent_intelligence.ObservationJournal.Inspect.{
  projection_of, project, source_entries, source_entry, settled_state, last_state,
  validate_projection, field_errors, policy_errors,
}
use flop_agent_intelligence.ObservationJournal.Final.{IsFinal, project-IsFinal}

abbrev digest : String
digest = "aaaaaaaaaaaaaaaaaaaaaaaaaaaaaaaaaaaaaaaaaaaaaaaaaaaaaaaaaaaaaaaa"

abbrev same_digest : Preimage → String
same_digest p = digest

abbrev calm_system : System
calm_system = record {
  sha256 = same_digest;
  line_size = λ r. 600;
  answers = λ n. works;
  written = λ n. 4096;
  pid = 7;
  fixture_issuers = true;
}

abbrev new_store : Bool → Store
new_store unknown = record {
  file = none;
  durability_unknown = unknown;
  handles = [];
  results = [];
  evidence = [];
}

abbrev new_world : Bool → World
new_world unknown = record { store = new_store unknown; calls = 0; temporary = false }

abbrev made : ℕ → Transition → Record
made n t = record {
  body = record {
    schema = known schema_version;
    journal_id = known digest;
    plan_id = known digest;
    attempt_id = known digest;
    predicate_policy = known v2;
    source_set_id = known source_set;
    source_order_hash = known digest;
    attempt_generation = known 0;
    sequence = known n;
    previous_hash = known (if n == 0 then zero_hash else digest);
    record_type = known t.record_type;
    attempt_state = known t.state;
    source_id = given t.source;
    source_ordinal = given (ordinal t.source);
    source_state = given t.source_state;
    result_id = given t.result_id;
    evidence_id = given t.evidence_id;
    created_at = known stamp;
    reconciliation_required = known false;
  };
  record_hash = known digest;
}

abbrev announced : Source → Transition
announced s = with_source source_intent AttemptState.in_progress s SourceState.intent_durable

abbrev plan_record : Record
plan_record = made 0 (plain plan_prepared AttemptState.prepared)

abbrev intent_record : Record
intent_record = made 1 (plain attempt_intent AttemptState.intent_durable)

abbrev committed : Transition
committed = record (plain evidence_commit AttemptState.evidence_committed) {
  evidence_id = some digest;
}

abbrev finished : List Record
finished =
    plan_record
    ∷ intent_record
    ∷ made 2 (announced llms)
    ∷ made 3 (with_result calm_system llms AttemptState.in_progress digest)
    ∷ made 4 (announced openapi)
    ∷ made 5 (with_result calm_system openapi AttemptState.in_progress digest)
    ∷ made 6 (announced agent_manifest)
    ∷ made 7 (with_result calm_system agent_manifest AttemptState.in_progress digest)
    ∷ made 8 (announced config)
    ∷ made 9 (with_result calm_system config AttemptState.results_complete digest)
    ∷ made 10 committed
    ∷ made 11 (plain finalize AttemptState.finalized)
    ∷ []

abbrev durable_entry : Source → SourceEntry
durable_entry s = record {
  source = s;
  ordinal = ordinal_of s;
  state = known SourceState.result_durable;
}

abbrev durable_entries : List SourceEntry
durable_entries =
    durable_entry llms
    ∷ durable_entry openapi
    ∷ durable_entry agent_manifest
    ∷ durable_entry config
    ∷ []

finished-is_valid : history_valid finished ≡ true
unfolding history_valid after_plan after_permit after_intent source_valid source_boundary_valid
    source_result_valid after_sources after_commit is_number
finished-is_valid = refl

history_valid-announcements_example : announcements 1 finished ≤ 1
history_valid-announcements_example = history_valid-announcements 1 finished finished-is_valid

abbrev events : List Event
events = perform prepare_attempt ∷ restart true ∷ perform (record_intent 0) ∷ []

happen_all-Extends_example :
    Extends calm_system none (happen_all calm_system events (new_world false)).store.file
happen_all-Extends_example = happen_all-Extends calm_system events (new_world false)

sealed-unchanged_example :
    (operate_all calm_system (record_intent 0 ∷ finalize_token 0 ∷ []) (new_world true)).store.file
    ≡ none
sealed-unchanged_example =
    sealed-unchanged calm_system (record_intent 0 ∷ finalize_token 0 ∷ []) (new_world true)
      (in_doubt refl)

abbrev plan_fields : Fields
plan_fields = fields_of (new_handle calm_system) (plain plan_prepared AttemptState.prepared)

calm : (n : ℕ) → calm_system.answers n ≡ works
calm n = refl

busy : (n : ℕ) → 1 ≤ calm_system.written n
busy n = omega arith

-- A finalized journal, and the same behind a torn tail.
project-returns :
    project same_digest false valid finished
    ≡ ok (projection_of same_digest false valid finished durable_entries)
unfolding project projection_of source_entries source_entry settled_state last_state
    validate_projection field_errors policy_errors boundary_errors final_errors source_errors
    count_errors in_order any_entry any_type
project-returns = refl

project-refused :
    project same_digest false torn_tail finished
    ≡ err (journal_error JournalCode.public_projection_invalid)
unfolding project projection_of source_entries source_entry settled_state last_state
    validate_projection field_errors policy_errors boundary_errors final_errors source_errors
    count_errors in_order any_entry any_type
project-refused = refl

project-IsFinal_example : IsFinal same_digest false valid finished
project-IsFinal_example =
    project-IsFinal same_digest false valid finished
      (projection_of same_digest false valid finished durable_entries) project-returns refl
