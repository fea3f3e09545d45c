-- ===== src/ObservationJournal/Select.antt =====
-- What the operations look for among the records, and what they give `append`.
use Prim.Native.String.{String}
use flop_agent_intelligence.Common.{
  ℕ, ◌+◌, Bool, true, false, not, ◌&&◌, ◌||◌, Option, none, some, List, [], ◌∷◌, ◌==◌,
  if◌then◌else◌,
}
use flop_agent_intelligence.Common.Result.{Result, ok, err}
use flop_agent_intelligence.ObservationJournal.Types.{
  AttemptState, RecordType, Source, llms, openapi, agent_manifest, config, ordinal_of, SourceState,
  Raised, type_error, Value, Record, is_text, is_type, is_state, is_source, is_source_state,
  is_hashable,
}
use flop_agent_intelligence.ObservationJournal.State.{Handle, Fields}

unfoldable pub any_type : RecordType → List Record → Bool
any_type t [] = false
any_type t (r ∷ rest) = is_type t r.body.record_type || any_type t rest

-- `record["source_id"] == source.value and record["source_state"] == state`
abbrev pub stands_at : Source → SourceState → Record → Bool
stands_at s x r = is_source s r.body.source_id && is_source_state x r.body.source_state

unfoldable pub any_at : Source → SourceState → List Record → Bool
any_at s x [] = false
any_at s x (r ∷ rest) = stands_at s x r || any_at s x rest

abbrev pub is_used : Value SourceState → Bool
is_used v =
    is_source_state SourceState.intent_durable v
    || is_source_state SourceState.request_may_have_started v
    || is_source_state SourceState.result_durable v
    || is_source_state SourceState.failed_confirmed v

abbrev pub is_intent : Option SourceState → Bool
is_intent (some SourceState.intent_durable) = true
is_intent _ = false

-- The `any` of `transition`: asking a set for an unhashable state raises.
unfoldable pub used_before : Source → Bool → List Record → Result Raised Bool
used_before s wanted [] = ok false
used_before s wanted (r ∷ rest) =
    let later = used_before s wanted rest in
    if not (is_source s r.body.source_id)
    then later
    else if not (is_hashable r.body.source_state)
    then err type_error
    else if is_used r.body.source_state && wanted
    then ok true
    else later

abbrev pub one_if : Bool → ℕ
one_if true = 1
one_if false = 0

-- How many sources have a durable result, or are `extra`.
unfoldable pub results_with : (Source → Bool) → List Record → ℕ
results_with extra rs =
    one_if (any_at llms SourceState.result_durable rs || extra llms)
    + one_if (any_at openapi SourceState.result_durable rs || extra openapi)
    + one_if (any_at agent_manifest SourceState.result_durable rs || extra agent_manifest)
    + one_if (any_at config SourceState.result_durable rs || extra config)

abbrev pub durable_results : List Record → ℕ
durable_results = results_with (λ _. false)

abbrev pub same_source : Source → Source → Bool
same_source s t = ordinal_of s == ordinal_of t

-- `states[-1] == SourceState.INTENT_DURABLE` of the records of a source, if it has any
unfoldable pub last_is_intent : Source → Bool → List Record → Bool
last_is_intent s found [] = found
last_is_intent s found (r ∷ rest) =
    last_is_intent s
      (if is_source s r.body.source_id
        then is_source_state SourceState.intent_durable r.body.source_state
        else found)
      rest

abbrev pub has_attempt : String → Option Record → Bool
has_attempt id none = false
has_attempt id (some r) = is_text r.body.attempt_id id

abbrev pub last_state_is : AttemptState → Option Record → Bool
last_state_is x none = false
last_state_is x (some r) = is_state x r.body.attempt_state

-- The arguments of `transition` behind the token; `reconciliation` is never given.
pub record Transition : Type 0 where
  pub record_type : RecordType
  pub state : AttemptState
  pub source : Option Source
  pub source_state : Option SourceState
  pub result_id : Option String
  pub evidence_id : Option String

abbrev pub plain : RecordType → AttemptState → Transition
plain t x = record {
  record_type = t;
  state = x;
  source = none;
  source_state = none;
  result_id = none;
  evidence_id = none;
}

abbrev pub with_source : RecordType → AttemptState → Source → SourceState → Transition
with_source t x s y = record {
  record_type = t;
  state = x;
  source = some s;
  source_state = some y;
  result_id = none;
  evidence_id = none;
}

abbrev pub ordinal : Option Source → Option ℕ
ordinal none = none
ordinal (some s) = some (ordinal_of s)

abbrev pub fields_of : Handle → Transition → Fields
fields_of h t = record {
  plan_id = h.plan_id;
  attempt_id = h.attempt_id;
  record_type = t.record_type;
  attempt_state = t.state;
  source_id = t.source;
  source_ordinal = ordinal t.source;
  source_state = t.source_state;
  result_id = t.result_id;
  evidence_id = t.evidence_id;
  reconciliation_required = false;
}
