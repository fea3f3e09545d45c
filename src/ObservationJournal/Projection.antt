-- ===== src/ObservationJournal/Projection.antt =====
-- The public projection of a journal and the tests of `validate_projection` on it. The errors are
-- listed in the order of the tests; the source sorts them. A projection has its fields with their
-- types, so that the tests of the fields' names and types have no counterpart.
use Prim.Native.String.{String}
use flop_agent_intelligence.Common.{
  ℕ, ◌-◌, Bool, true, false, not, ◌&&◌, ◌||◌, Option, none, some, List, [], ◌∷◌, ◌++◌, ◌==◌,
  if◌then◌else◌, length,
}
use flop_agent_intelligence.ObservationJournal.Types.{
  Integrity, absent, torn_tail, corrupt, Durability, AttemptState, Source, llms, openapi,
  agent_manifest, config, ordinal_of, SourceState, Value, known, PredicatePolicy, v1, v2, is_state,
  is_source_state,
}

pub record SourceEntry : Type 0 where
  pub source : Source
  pub ordinal : ℕ
  pub state : Value SourceState

pub record Projection : Type 0 where
  pub schema : String
  pub status : String
  pub durable_state_found : Bool
  pub journal_integrity : Integrity
  pub durability : Durability
  pub attempt_state : Value AttemptState
  pub record_count : ℕ
  pub last_sequence : Option ℕ
  pub attempt_generation : Option ℕ
  pub predicate_policy : PredicatePolicy
  pub source_set_id : String
  pub source_order_hash : String
  pub sources : List SourceEntry
  pub evidence_committed : Bool
  pub finalized : Bool
  pub reconciliation_required : Bool
  pub execution_blocked : Bool
  pub automatic_resume_allowed : Bool
  pub automatic_retry_allowed : Bool
  pub new_human_review_required : Bool
  pub new_plan_required : Bool
  pub manual_investigation_required : Bool
  pub retry_count : ℕ
  pub raw_content_retained : Bool
  pub live_action_enabled : Bool
  pub ready_to_act : Bool
  pub authorized_to_act : Bool
  pub policy_version : String

pub data ProjectionError : Type 0 where
  closed_sources_required source_order_invalid source_state_invalid schema_invalid : ProjectionError
  attempt_state_invalid count_invalid empty_state_contradiction : ProjectionError
  absent_durability_contradiction corrupt_state_contradiction : ProjectionError
  durable_state_contradiction durability_state_contradiction authority_prohibited : ProjectionError
  execution_must_remain_blocked policy_invalid projected_source_set_invalid : ProjectionError
  policy_version_invalid corruption_boundary_invalid : ProjectionError
  durability_unknown_boundary_invalid unknown_outcome_boundary_invalid : ProjectionError
  finalization_contradiction evidence_commit_contradiction : ProjectionError
  unfinished_reconciliation_required : ProjectionError

abbrev pub descriptive_only : String
descriptive_only = "DESCRIPTIVE_ONLY"

abbrev pub journal_policy : String
journal_policy = "local-durable-observation-journal-policy-v1"

abbrev pub is_known : {A : Type 0} → Value A → Bool
is_known (known a) = true
is_known _ = false

abbrev pub is_absent : Integrity → Bool
is_absent absent = true
is_absent _ = false

abbrev pub is_damaged : Integrity → Bool
is_damaged corrupt = true
is_damaged torn_tail = true
is_damaged _ = false

abbrev pub is_unknown : Durability → Bool
is_unknown Durability.unknown = true
is_unknown _ = false

abbrev pub is_not_found : Durability → Bool
is_not_found Durability.not_found = true
is_not_found _ = false

abbrev pub is_none : Option ℕ → Bool
is_none none = true
is_none (some n) = false

abbrev pub is_just : Option ℕ → ℕ → Bool
is_just none n = false
is_just (some m) n = m == n

abbrev pub is_v2_policy : PredicatePolicy → Bool
is_v2_policy v1 = false
is_v2_policy v2 = true

-- `if b: errors.append(e)`
abbrev pub error_if : Bool → ProjectionError → List ProjectionError
error_if true e = e ∷ []
error_if false e = []

unfoldable pub in_order : List SourceEntry → List Source → Bool
in_order [] [] = true
in_order (x ∷ xs) (s ∷ ss) =
    ordinal_of x.source == ordinal_of s && x.ordinal == ordinal_of s && in_order xs ss
in_order [] (s ∷ ss) = false
in_order (x ∷ xs) [] = false

abbrev pub fixed_sources : List Source
fixed_sources = llms ∷ openapi ∷ agent_manifest ∷ config ∷ []

unfoldable pub any_entry : (SourceEntry → Bool) → List SourceEntry → Bool
any_entry test [] = false
any_entry test (x ∷ xs) = test x || any_entry test xs

abbrev pub has_outcome : SourceEntry → Bool
has_outcome x = is_source_state SourceState.result_durable x.state

abbrev pub is_outcome_unknown : SourceEntry → Bool
is_outcome_unknown x = is_source_state SourceState.outcome_unknown x.state

unfoldable pub source_errors : Projection → List ProjectionError
source_errors p =
    if not (length p.sources == 4)
    then closed_sources_required ∷ []
    else error_if (not (in_order p.sources fixed_sources)) source_order_invalid
      ++ error_if (any_entry (λ x. not (is_known x.state)) p.sources) source_state_invalid

-- What the count of records goes with.
unfoldable pub count_errors : Projection → List ProjectionError
count_errors p =
    if p.record_count == 0
    then error_if (not (is_none p.last_sequence && is_none p.attempt_generation))
        empty_state_contradiction
      ++ (if is_absent p.journal_integrity
          then error_if (p.durable_state_found || not (is_not_found p.durability))
              absent_durability_contradiction
          else error_if (not p.durable_state_found || is_not_found p.durability)
              corrupt_state_contradiction)
    else if not (is_just p.last_sequence (p.record_count - 1))
        || not (is_just p.attempt_generation 0)
        || not p.durable_state_found
    then durable_state_contradiction ∷ []
    else error_if (is_not_found p.durability) durability_state_contradiction

abbrev pub any_authority : Projection → Bool
any_authority p =
    p.automatic_resume_allowed || p.automatic_retry_allowed || p.raw_content_retained
    || p.live_action_enabled || p.ready_to_act || p.authorized_to_act

unfoldable pub boundary_errors : Projection → List ProjectionError
boundary_errors p =
    let stopped =
      p.manual_investigation_required && p.reconciliation_required && p.execution_blocked in
    error_if (is_damaged p.journal_integrity && not stopped) corruption_boundary_invalid
    ++ (error_if (is_unknown p.durability && not stopped) durability_unknown_boundary_invalid
        ++ error_if
            (any_entry is_outcome_unknown p.sources
              && not (
                  p.reconciliation_required
                  && not p.automatic_retry_allowed
                  && p.new_human_review_required
                  && p.new_plan_required))
            unknown_outcome_boundary_invalid)

abbrev pub is_unfinished : Projection → Bool
is_unfinished p = any_entry (λ x. not (has_outcome x)) p.sources

unfoldable pub final_errors : Projection → List ProjectionError
final_errors p =
    error_if
      (p.finalized
        && (not p.evidence_committed
            || not p.execution_blocked
            || not (is_state AttemptState.finalized p.attempt_state)
            || is_unfinished p))
      finalization_contradiction
    ++ (error_if (p.evidence_committed && is_unfinished p) evidence_commit_contradiction
        ++ error_if
            (not (is_state AttemptState.finalized p.attempt_state) && not p.reconciliation_required)
            unfinished_reconciliation_required)
