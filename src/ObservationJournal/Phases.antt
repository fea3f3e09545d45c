-- ===== src/ObservationJournal/Phases.antt =====
-- The protocol of an attempt as a state machine, and the order test as its language.
use flop_agent_intelligence.Common.{
  ℕ, suc, ◌≡◌, refl, Bool, true, false, ◌&&◌, Option, none, some, List, [], ◌∷◌, ◌++◌, ◌==◌,
  if◌then◌else◌,
}
use flop_agent_intelligence.ObservationJournal.Types.{
  plan_prepared, permit_consumed, attempt_intent, source_intent, request_boundary, source_result,
  evidence_commit, finalize, Record, is_state,
}
use flop_agent_intelligence.ObservationJournal.History.{
  has_type, has_ordinal, result_state, after_commit, after_sources, source_result_valid,
  source_boundary_valid, source_valid, after_intent, after_permit, after_plan, history_valid,
}

-- Where an attempt stands. `awaiting n`: the sources before `n` have results; `intended n` and
-- `bounded n`: the request to `n` is announced, and may have been made.
pub data Phase : Type 0 where
  empty planned permitted complete committed finalized : Phase
  awaiting intended bounded : ℕ → Phase

abbrev pub next_round : ℕ → Phase
next_round n = if n == 3 then complete else awaiting (suc n)

abbrev pub step_if : Bool → Phase → Option Phase
step_if b p = if b then some p else none

abbrev pub result_step : ℕ → Record → Option Phase
result_step n r =
    step_if
      (has_type source_result r
        && has_ordinal n r
        && is_state (result_state n) r.body.attempt_state)
      (next_round n)

unfoldable pub advance : Phase → Record → Option Phase
advance empty r = step_if (has_type plan_prepared r) planned
advance planned r =
    if has_type permit_consumed r
    then some permitted
    else step_if (has_type attempt_intent r) (awaiting 0)
advance permitted r = step_if (has_type attempt_intent r) (awaiting 0)
advance (awaiting n) r = step_if (has_type source_intent r && has_ordinal n r) (intended n)
advance (intended n) r =
    if has_type request_boundary r then step_if (has_ordinal n r) (bounded n) else result_step n r
advance (bounded n) r = result_step n r
advance complete r = step_if (has_type evidence_commit r) committed
advance committed r = step_if (has_type finalize r) finalized
advance finalized r = none

abbrev pub advance_by : Option Phase → Record → Option Phase
advance_by none r = none
advance_by (some p) r = advance p r

-- The phase behind a list of records, newest last.
unfoldable pub run : Option Phase → List Record → Option Phase
run o [] = o
run o (r ∷ rest) = run (advance_by o r) rest

abbrev pub accepted : Option Phase → Bool
accepted none = false
accepted (some p) = true

pub run-none : (rs : List Record) → run none rs ≡ none
unfolding run
run-none [] = refl
run-none (r ∷ rs) = run-none rs

pub run-append : (o : Option Phase) (rs qs : List Record) → run o (rs ++ qs) ≡ run (run o rs) qs
unfolding run
run-append o [] qs = refl
run-append o (r ∷ rs) qs = run-append (advance_by o r) rs qs

abbrev Accepts : (List Record → Bool) → Phase → Type 0
Accepts test p = (rs : List Record) → test rs ≡ accepted (run (some p) rs)

stop :
    (b : Bool) (p : Phase) (test : Bool) (rs : List Record)
    → test ≡ accepted (run (some p) rs)
    → (b && test) ≡ accepted (run (step_if b p) rs)
stop true p test rs h = h
stop false p test rs h = rw (run-none rs) refl

finalized-stops : (r : Record) (rs : List Record) → accepted (run (some finalized) (r ∷ rs)) ≡ false
unfolding run advance
finalized-stops r rs = rw (run-none rs) refl

after_commit-Accepts : Accepts after_commit committed
unfolding run advance after_commit
after_commit-Accepts [] = refl
after_commit-Accepts (r ∷ []) = go (has_type finalize r)
  where
    go : (b : Bool) → b ≡ accepted (step_if b finalized)
    go true = refl
    go false = refl
after_commit-Accepts (r ∷ s ∷ rest) = go (has_type finalize r)
  where
    go : (b : Bool) → false ≡ accepted (run (advance_by (step_if b finalized) s) rest)
    go true = rw (run-none rest) refl
    go false = rw (run-none rest) refl

after_sources-Accepts : Accepts after_sources complete
unfolding run advance after_sources
after_sources-Accepts [] = refl
after_sources-Accepts (r ∷ rest) =
    stop (has_type evidence_commit r) committed (after_commit rest) rest (after_commit-Accepts rest)

module _ (n : ℕ) (next : List Record → Bool) (h : Accepts next (next_round n)) where
  source_result_valid-Accepts : Accepts (source_result_valid n next) (bounded n)
  unfolding run advance source_result_valid
  source_result_valid-Accepts [] = refl
  source_result_valid-Accepts (r ∷ rest) =
      stop
        (has_type source_result r
          && has_ordinal n r
          && is_state (result_state n) r.body.attempt_state)
        (next_round n) (next rest) rest (h rest)

  source_boundary_valid-Accepts : Accepts (source_boundary_valid n next) (intended n)
  unfolding run advance source_boundary_valid source_result_valid
  source_boundary_valid-Accepts [] = refl
  source_boundary_valid-Accepts (r ∷ rest) = go (has_type request_boundary r)
    where
      go :
          (b : Bool)
          → (if b
              then has_ordinal n r && source_result_valid n next rest
              else source_result_valid n next (r ∷ rest))
            ≡ accepted
                (run (if b then step_if (has_ordinal n r) (bounded n) else result_step n r) rest)
      go true =
          stop (has_ordinal n r) (bounded n) (source_result_valid n next rest) rest
            (source_result_valid-Accepts rest)
      go false = source_result_valid-Accepts (r ∷ rest)

  source_valid-Accepts : Accepts (source_valid n next) (awaiting n)
  unfolding run advance source_valid
  source_valid-Accepts [] = refl
  source_valid-Accepts (r ∷ rest) =
      stop (has_type source_intent r && has_ordinal n r) (intended n)
        (source_boundary_valid n next rest) rest (source_boundary_valid-Accepts rest)

after_intent-Accepts : Accepts after_intent (awaiting 0)
unfolding after_intent
after_intent-Accepts =
    source_valid-Accepts 0 (source_valid 1 (source_valid 2 (source_valid 3 after_sources))) (
      source_valid-Accepts 1 (source_valid 2 (source_valid 3 after_sources)) (
        source_valid-Accepts 2 (source_valid 3 after_sources)
          (source_valid-Accepts 3 after_sources after_sources-Accepts)))

after_permit-Accepts : Accepts after_permit permitted
unfolding run advance after_permit
after_permit-Accepts [] = refl
after_permit-Accepts (r ∷ rest) =
    stop (has_type attempt_intent r) (awaiting 0) (after_intent rest) rest
      (after_intent-Accepts rest)

after_plan-Accepts : Accepts after_plan planned
unfolding run advance after_plan after_permit
after_plan-Accepts [] = refl
after_plan-Accepts (r ∷ rest) = go (has_type permit_consumed r)
  where
    go :
        (b : Bool)
        → (if b then after_permit rest else after_permit (r ∷ rest))
          ≡ accepted (
              run
                (if b then some permitted else step_if (has_type attempt_intent r) (awaiting 0))
                rest)
    go true = after_permit-Accepts rest
    go false = after_permit-Accepts (r ∷ rest)

-- A list with a first record is a valid history exactly if the attempt's state machine accepts each
-- of its records in turn.
pub history_valid-eq :
    (r : Record) (rest : List Record)
    → history_valid (r ∷ rest) ≡ accepted (run (some empty) (r ∷ rest))
unfolding run advance history_valid
history_valid-eq r rest =
    stop (has_type plan_prepared r) planned (after_plan rest) rest (after_plan-Accepts rest)
