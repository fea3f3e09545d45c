-- ===== src/ObservationJournal/Requested.antt =====
-- How often the records of a journal announce the request to one source.
use flop_agent_intelligence.Common.{
  ℕ, suc, ◌+◌, ◌≤◌, ◌≡◌, refl, sym, ap, ◌∙◌, Bool, true, false, ◌&&◌, Option, none, some, List, [],
  ◌∷◌, leb, ltb, ◌==◌, if◌then◌else◌, arith,
}
use mathlib.Core.Path.{subst}
use flop_agent_intelligence.ObservationJournal.Types.{
  RecordType, plan_prepared, permit_consumed, attempt_intent, source_intent, request_boundary,
  source_result, evidence_commit, finalize, Value, null, known, other, type_code, Record, is_type,
  is_number, is_state,
}
use flop_agent_intelligence.ObservationJournal.History.{
  has_type, has_ordinal, result_state, history_valid,
}
use flop_agent_intelligence.ObservationJournal.Phases.{
  Phase, empty, planned, permitted, complete, committed, finalized, awaiting, intended, bounded,
  next_round, step_if, result_step, advance, run, accepted, run-none, history_valid-eq,
}

abbrev announces : ℕ → Record → Bool
announces n r = has_type source_intent r && has_ordinal n r

abbrev one_if : Bool → ℕ
one_if true = 1
one_if false = 0

-- How many records announce the request to source `n`.
unfoldable pub announcements : ℕ → List Record → ℕ
announcements n [] = 0
announcements n (r ∷ rs) = one_if (announces n r) + announcements n rs

-- How many more can come.
allowance : Phase → ℕ → ℕ
allowance empty n = 1
allowance planned n = 1
allowance permitted n = 1
allowance (awaiting m) n = one_if (leb m n)
allowance (intended m) n = one_if (ltb m n)
allowance (bounded m) n = one_if (ltb m n)
allowance complete n = 0
allowance committed n = 0
allowance finalized n = 0

other_type :
    (t : RecordType) (v : Value RecordType)
    → (type_code t == 3) ≡ false
    → is_type t v ≡ true
    → is_type source_intent v ≡ false
other_type t null e h = cc
other_type t (other a b c) e h = cc
other_type t (known u) e h = ground arith

same_ordinal : (m n : ℕ) (v : Value ℕ) → is_number v m ≡ true → is_number v n ≡ true → m ≡ n
unfolding is_number
same_ordinal m n null h k = cc
same_ordinal m n (other a b c) h k = cc
same_ordinal m n (known u) h k = ground arith

step_if-some : (b : Bool) (p q : Phase) → step_if b p ≡ some q → (b ≡ true) × (p ≡ q)
step_if-some true p q h = (refl, cc)
step_if-some false p q h = cc

abbrev Spends : ℕ → Phase → Record → Phase → Type 0
Spends n p r q = one_if (announces n r) + allowance q n ≤ allowance p n

one_if-le : (b : Bool) → one_if b ≤ 1
one_if-le true = omega arith
one_if-le false = omega arith

one_if-below : (a b : Bool) → (a ≡ true → b ≡ true) → one_if a ≤ one_if b
one_if-below true b h = rw (h refl) (omega arith)
one_if-below false b h = omega arith

at_same : (a b : Bool) → a ≡ false → b ≡ true → 1 + one_if a ≤ one_if b
at_same a b h k = rw (h, k) (omega arith)

module _ (n : ℕ) (r : Record) where
  -- A step that another type of record makes.
  quiet-Spends :
      (p p' q : Phase) (t : RecordType) (b : Bool)
      → (type_code t == 3) ≡ false
      → (b ≡ true → has_type t r ≡ true)
      → allowance p' n ≤ allowance p n
      → step_if b p' ≡ some q
      → Spends n p r q
  quiet-Spends p p' q t b e k l h =
      let (d, s) = step_if-some b p' q h in
      let z : one_if (announces n r) ≡ 0 =
        ap (λ x. one_if (x && has_ordinal n r)) (other_type t r.body.record_type e (k d)) in
      subst (λ x. one_if (announces n r) + allowance x n ≤ allowance p n) s (omega (arith, z, l))

  next_round-allowance : (m : ℕ) → allowance (next_round m) n ≤ one_if (ltb m n)
  unfolding allowance
  next_round-allowance m = go (m == 3) (one_if-below (leb (suc m) n) (ltb m n) (λ h. ground arith))
    where
      go :
          (b : Bool)
          → one_if (leb (suc m) n) ≤ one_if (ltb m n)
          → allowance (if b then complete else awaiting (suc m)) n ≤ one_if (ltb m n)
      go true h = omega arith
      go false h = h

  -- The announcement itself uses up what is left.
  spent :
      (m : ℕ)
      → has_ordinal m r ≡ true
      → one_if (announces n r) + one_if (ltb m n) ≤ one_if (leb m n)
  spent m o = go (announces n r) refl
    where
      go : (b : Bool) → announces n r ≡ b → one_if b + one_if (ltb m n) ≤ one_if (leb m n)
      go true e =
          let k : has_ordinal n r ≡ true = ground arith in
          let q : m ≡ n = same_ordinal m n r.body.source_ordinal o k in
          at_same (ltb m n) (leb m n) (ground (arith, q)) (ground (arith, q))
      go false e = omega (arith, one_if-below (ltb m n) (leb m n) (λ h. ground arith))

  result-Spends :
      (m : ℕ) (p q : Phase)
      → one_if (ltb m n) ≤ allowance p n
      → result_step m r ≡ some q
      → Spends n p r q
  result-Spends m p q l h =
      quiet-Spends p (next_round m) q source_result
        (has_type source_result r
          && has_ordinal m r
          && is_state (result_state m) r.body.attempt_state)
        refl (λ d. ground arith) (omega (arith, next_round-allowance m, l)) h

  advance-Spends : (p q : Phase) → advance p r ≡ some q → Spends n p r q
  unfolding advance allowance
  advance-Spends empty q h =
      quiet-Spends empty planned q plan_prepared (has_type plan_prepared r) refl (λ d. d)
        (omega arith) h
  advance-Spends planned q h = go (has_type permit_consumed r) refl h
    where
      go :
          (b : Bool)
          → has_type permit_consumed r ≡ b
          → (if b then some permitted else step_if (has_type attempt_intent r) (awaiting 0))
            ≡ some q
          → Spends n planned r q
      go true e h =
          quiet-Spends planned permitted q permit_consumed (has_type permit_consumed r) refl
            (λ d. d) (omega arith) (rw e h)
      go false e h =
          quiet-Spends planned (awaiting 0) q attempt_intent (has_type attempt_intent r) refl
            (λ d. d) (one_if-le (leb 0 n)) h
  advance-Spends permitted q h =
      quiet-Spends permitted (awaiting 0) q attempt_intent (has_type attempt_intent r) refl (λ d. d)
        (one_if-le (leb 0 n)) h
  advance-Spends (awaiting m) q h =
      let (d, s) = step_if-some (has_type source_intent r && has_ordinal m r) (intended m) q h in
      let o : has_ordinal m r ≡ true = ground arith in
      subst (λ x. one_if (announces n r) + allowance x n ≤ one_if (leb m n)) s (spent m o)
  advance-Spends (intended m) q h = go (has_type request_boundary r) refl h
    where
      go :
          (b : Bool)
          → has_type request_boundary r ≡ b
          → (if b then step_if (has_ordinal m r) (bounded m) else result_step m r) ≡ some q
          → Spends n (intended m) r q
      go true e h =
          quiet-Spends (intended m) (bounded m) q request_boundary (has_ordinal m r) refl (λ d. e)
            (omega arith) h
      go false e h = result-Spends m (intended m) q (omega arith) h
  advance-Spends (bounded m) q h = result-Spends m (bounded m) q (omega arith) h
  advance-Spends complete q h =
      quiet-Spends complete committed q evidence_commit (has_type evidence_commit r) refl (λ d. d)
        (omega arith) h
  advance-Spends committed q h =
      quiet-Spends committed finalized q finalize (has_type finalize r) refl (λ d. d) (omega arith)
        h
  advance-Spends finalized q h = cc

run-announcements :
    (n : ℕ) (p : Phase) (rs : List Record)
    → accepted (run (some p) rs) ≡ true
    → announcements n rs ≤ allowance p n
unfolding run announcements
run-announcements n p [] h = omega arith
run-announcements n p (r ∷ rs) h = go (advance p r) refl (λ q. run-announcements n q rs)
  where
    go :
        (o : Option Phase)
        → advance p r ≡ o
        → ((q : Phase) → accepted (run (some q) rs) ≡ true → announcements n rs ≤ allowance q n)
        → one_if (announces n r) + announcements n rs ≤ allowance p n
    go none e ih =
        let k : accepted (run none rs) ≡ true = subst (λ o. accepted (run o rs) ≡ true) e h in
        let z : accepted (run none rs) ≡ false = ap accepted (run-none rs) in cc
    go (some q) e ih =
        let k : accepted (run (some q) rs) ≡ true = subst (λ o. accepted (run o rs) ≡ true) e h in
        omega (arith, ih q k, advance-Spends n r p q e)

-- A valid journal announces the request to each source at most once.
pub history_valid-announcements :
    (n : ℕ) (rs : List Record) → history_valid rs ≡ true → announcements n rs ≤ 1
unfolding history_valid allowance
history_valid-announcements n [] h = cc
history_valid-announcements n (r ∷ rs) h =
    run-announcements n empty (r ∷ rs) (sym (history_valid-eq r rs) ∙ h)
