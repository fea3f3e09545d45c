-- ===== src/ObservationJournal/History.antt =====
-- `_history_valid`: the order of a journal's records.
use flop_agent_intelligence.Common.{ℕ, Bool, true, false, ◌&&◌, List, [], ◌∷◌, ◌==◌, if◌then◌else◌}
use flop_agent_intelligence.ObservationJournal.Types.{
  AttemptState, RecordType, plan_prepared, permit_consumed, attempt_intent, source_intent,
  request_boundary, source_result, evidence_commit, finalize, Record, is_type, is_number, is_state,
}

abbrev pub has_type : RecordType → Record → Bool
has_type t r = is_type t r.body.record_type

abbrev pub has_ordinal : ℕ → Record → Bool
has_ordinal n r = is_number r.body.source_ordinal n

-- `expected_state` of the result with this ordinal
abbrev pub result_state : ℕ → AttemptState
result_state n = if n == 3 then AttemptState.results_complete else AttemptState.in_progress

unfoldable pub after_commit : List Record → Bool
after_commit [] = true
after_commit (r ∷ []) = has_type finalize r
after_commit (r ∷ s ∷ rest) = false

unfoldable pub after_sources : List Record → Bool
after_sources [] = true
after_sources (r ∷ rest) = has_type evidence_commit r && after_commit rest

-- The result of one source; `next` is the rest of the loop.
unfoldable pub source_result_valid : ℕ → (List Record → Bool) → List Record → Bool
source_result_valid n next [] = true
source_result_valid n next (r ∷ rest) =
    has_type source_result r
    && has_ordinal n r
    && is_state (result_state n) r.body.attempt_state
    && next rest

unfoldable pub source_boundary_valid : ℕ → (List Record → Bool) → List Record → Bool
source_boundary_valid n next [] = true
source_boundary_valid n next (r ∷ rest) =
    if has_type request_boundary r
    then has_ordinal n r && source_result_valid n next rest
    else source_result_valid n next (r ∷ rest)

unfoldable pub source_valid : ℕ → (List Record → Bool) → List Record → Bool
source_valid n next [] = true
source_valid n next (r ∷ rest) =
    has_type source_intent r && has_ordinal n r && source_boundary_valid n next rest

unfoldable pub after_intent : List Record → Bool
after_intent rs = source_valid 0 (source_valid 1 (source_valid 2 (source_valid 3 after_sources))) rs

unfoldable pub after_permit : List Record → Bool
after_permit [] = true
after_permit (r ∷ rest) = has_type attempt_intent r && after_intent rest

unfoldable pub after_plan : List Record → Bool
after_plan [] = true
after_plan (r ∷ rest) =
    if has_type permit_consumed r then after_permit rest else after_permit (r ∷ rest)

unfoldable pub history_valid : List Record → Bool
history_valid [] = false
history_valid (r ∷ rest) = has_type plan_prepared r && after_plan rest
