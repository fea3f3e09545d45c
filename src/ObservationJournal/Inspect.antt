-- ===== src/ObservationJournal/Inspect.antt =====
-- `inspect` of `_build_store`: the projection of a journal, checked before it is returned.
use Prim.Native.String.{String}
use text.Mathlib.Text.{◌==◌ as str_eq}
use flop_agent_intelligence.Common.{
  ℕ, Bool, true, false, not, ◌&&◌, ◌||◌, Option, none, some, List, [], ◌∷◌, ◌++◌, leb, ◌==◌,
  if◌then◌else◌, length,
}
use flop_agent_intelligence.Common.Result.{Result, ok, err, ◌>>=◌}
use flop_agent_intelligence.ObservationJournal.Types.{
  Integrity, Durability, AttemptState, evidence_commit, Source, ordinal_of, SourceState, Raised,
  journal_error, type_error, public_projection_invalid, Value, known, Record, Preimage, v2,
  source_order, schema_version, source_set, is_source, is_source_state, is_hashable,
}
use flop_agent_intelligence.ObservationJournal.State.{last_of}
use flop_agent_intelligence.ObservationJournal.Select.{any_type, last_state_is}
use flop_agent_intelligence.ObservationJournal.Projection.{
  Projection, ProjectionError, SourceEntry, any_authority, any_entry, attempt_state_invalid,
  authority_prohibited, boundary_errors, count_errors, count_invalid, descriptive_only, error_if,
  execution_must_remain_blocked, final_errors, fixed_sources, is_absent, is_damaged, is_known,
  is_outcome_unknown, is_v2_policy, journal_policy, policy_invalid, policy_version_invalid,
  projected_source_set_invalid, schema_invalid, source_errors,
}

-- The state of a source: that of its last record, or that it was not attempted.
unfoldable pub last_state : Source → Value SourceState → List Record → Value SourceState
last_state s v [] = v
last_state s v (r ∷ rest) =
    last_state s (if is_source s r.body.source_id then r.body.source_state else v) rest

-- `INTENT_DURABLE` and `REQUEST_MAY_HAVE_STARTED` are outcomes that are not known.
unfoldable pub settled_state : Value SourceState → Result Raised (Value SourceState)
settled_state v =
    if not (is_hashable v)
    then err type_error
    else if is_source_state SourceState.intent_durable v
        || is_source_state SourceState.request_may_have_started v
    then ok (known SourceState.outcome_unknown)
    else ok v

unfoldable pub source_entry : List Record → Source → Result Raised SourceEntry
source_entry rs s = settled_state (last_state s (known SourceState.not_attempted) rs) >>= λ v.
    ok (record { source = s; ordinal = ordinal_of s; state = v })

unfoldable pub source_entries : List Record → List Source → Result Raised (List SourceEntry)
source_entries rs [] = ok []
source_entries rs (s ∷ ss) = source_entry rs s >>= λ x. source_entries rs ss >>= λ xs. ok (x ∷ xs)

abbrev pub is_some_record : Option Record → Bool
is_some_record none = false
is_some_record (some r) = true

abbrev pub last_attempt_state : Option Record → Value AttemptState
last_attempt_state none = known AttemptState.reconciliation_required
last_attempt_state (some r) = r.body.attempt_state

abbrev pub number_of : Value ℕ → Option ℕ
number_of (known n) = some n
number_of _ = none

abbrev pub last_sequence_of : Option Record → Option ℕ
last_sequence_of none = none
last_sequence_of (some r) = number_of r.body.sequence

abbrev pub checked_projection : Projection → List ProjectionError → Result Raised Projection
checked_projection p [] = ok p
checked_projection p (e ∷ es) = err (journal_error public_projection_invalid)

module _ (sha256 : Preimage → String) where
  unfoldable pub policy_errors : Projection → List ProjectionError
  policy_errors p =
      error_if (any_authority p) authority_prohibited
      ++ (error_if (not p.execution_blocked) execution_must_remain_blocked
          ++ (error_if (not (p.retry_count == 0 && is_v2_policy p.predicate_policy)) policy_invalid
              ++ (error_if
                    (not (
                      str_eq p.source_set_id source_set
                      && str_eq p.source_order_hash (sha256 source_order)))
                    projected_source_set_invalid
                  ++ error_if (not (str_eq p.policy_version journal_policy))
                      policy_version_invalid)))

  unfoldable pub field_errors : Projection → List ProjectionError
  field_errors p =
      source_errors p
      ++ (error_if (not (str_eq p.schema schema_version && str_eq p.status descriptive_only))
            schema_invalid
          ++ (error_if (not (is_known p.attempt_state)) attempt_state_invalid
              ++ (error_if (not (leb p.record_count 256)) count_invalid
                  ++ (count_errors p ++ policy_errors p))))

  unfoldable pub validate_projection : Projection → List ProjectionError
  validate_projection p = field_errors p ++ (boundary_errors p ++ final_errors p)

  unfoldable pub projection_of : Bool → Integrity → List Record → List SourceEntry → Projection
  projection_of in_doubt integrity records sources =
      let last = last_of records in
      let unknown = any_entry is_outcome_unknown sources in
      let damaged = is_damaged integrity in
      let final = last_state_is AttemptState.finalized last in
      let new_review = in_doubt || damaged || unknown || is_absent integrity in
      record {
        schema = schema_version;
        status = descriptive_only;
        durable_state_found = not (is_absent integrity);
        journal_integrity = integrity;
        durability =
            if in_doubt
            then Durability.unknown
            else if is_absent integrity
            then Durability.not_found
            else Durability.confirmed;
        attempt_state =
            if in_doubt || damaged || unknown
            then known AttemptState.reconciliation_required
            else last_attempt_state last;
        record_count = length records;
        last_sequence = last_sequence_of last;
        attempt_generation = if is_some_record last then some 0 else none;
        predicate_policy = v2;
        source_set_id = source_set;
        source_order_hash = sha256 source_order;
        sources = sources;
        evidence_committed = any_type evidence_commit records;
        finalized = final;
        reconciliation_required = new_review || (is_some_record last && not final);
        execution_blocked = true;
        automatic_resume_allowed = false;
        automatic_retry_allowed = false;
        new_human_review_required = new_review;
        new_plan_required = new_review;
        manual_investigation_required = in_doubt || damaged;
        retry_count = 0;
        raw_content_retained = false;
        live_action_enabled = false;
        ready_to_act = false;
        authorized_to_act = false;
        policy_version = journal_policy;
      }

  -- `inspect`, behind `read`
  unfoldable pub project : Bool → Integrity → List Record → Result Raised Projection
  project in_doubt integrity records = source_entries records fixed_sources >>= λ sources.
      let p = projection_of in_doubt integrity records sources in
      checked_projection p (validate_projection p)
