-- ===== src/ObservationJournal/Final.antt =====
-- When the inspection of a journal may call the attempt finalized.
use Prim.Native.String.{String}
use mathlib.Core.Path.{subst}
use flop_agent_intelligence.Common.{
  ◌≡◌, refl, sym, ap, Bool, true, false, not, ◌&&◌, ◌||◌, List, [], ◌∷◌, ◌++◌, if◌then◌else◌, All,
  arith,
}
use flop_agent_intelligence.Common.Result.{ok, ok-injective, >>=-eq-ok}
use flop_agent_intelligence.ObservationJournal.Types.{
  Integrity, AttemptState, evidence_commit, Source, SourceState, Value, known, Record, Preimage,
  is_source_state, is_state,
}
use flop_agent_intelligence.ObservationJournal.State.{last_of}
use flop_agent_intelligence.ObservationJournal.Select.{any_type, last_state_is}
use flop_agent_intelligence.ObservationJournal.Inspect.{
  field_errors, last_state, settled_state, source_entry, source_entries, validate_projection,
  projection_of, checked_projection, project, last_attempt_state,
}
use flop_agent_intelligence.ObservationJournal.Projection.{
  SourceEntry, Projection, ProjectionError, is_damaged, fixed_sources, any_entry, has_outcome,
  is_outcome_unknown, boundary_errors, final_errors, is_unfinished, error_if,
}

abbrev pub IsDurable : List Record → Source → Type 0
IsDurable rs s =
    is_source_state SourceState.result_durable (last_state s (known SourceState.not_attempted) rs)
    ≡ true

back-nil : {A : Type 0} (xs ys : List A) → xs ++ ys ≡ [] → ys ≡ []
back-nil [] ys h = h
back-nil (x ∷ xs) ys h = cc

front-nil : {A : Type 0} (xs ys : List A) → xs ++ ys ≡ [] → xs ≡ []
front-nil [] ys h = refl
front-nil (x ∷ xs) ys h = cc

error_if-nil : (b : Bool) (e : ProjectionError) → error_if b e ≡ [] → b ≡ false
error_if-nil true e h = cc
error_if-nil false e h = refl

unknown-outcome :
    is_source_state SourceState.result_durable (known SourceState.outcome_unknown) ≡ true → ⊥
unknown-outcome h = ground arith

settled-durable :
    (v w : Value SourceState)
    → settled_state v ≡ ok w
    → is_source_state SourceState.result_durable w ≡ true
    → is_source_state SourceState.result_durable v ≡ true
unfolding settled_state
settled-durable Value.null w h d =
    let q : Value.null ≡ w = cc in
    subst (λ x. is_source_state SourceState.result_durable x ≡ true) (sym q) d
settled-durable (Value.other true c t) w h d =
    let q : Value.other true c t ≡ w = cc in
    subst (λ x. is_source_state SourceState.result_durable x ≡ true) (sym q) d
settled-durable (Value.other false c t) w h d = cc
settled-durable (known SourceState.not_attempted) w h d =
    let q : known SourceState.not_attempted ≡ w = cc in
    subst (λ x. is_source_state SourceState.result_durable x ≡ true) (sym q) d
settled-durable (known SourceState.intent_durable) w h d =
    let q : known SourceState.outcome_unknown ≡ w = cc in
    absurd
      (unknown-outcome (subst (λ x. is_source_state SourceState.result_durable x ≡ true) (sym q) d))
settled-durable (known SourceState.request_may_have_started) w h d =
    let q : known SourceState.outcome_unknown ≡ w = cc in
    absurd
      (unknown-outcome (subst (λ x. is_source_state SourceState.result_durable x ≡ true) (sym q) d))
settled-durable (known SourceState.result_durable) w h d = refl
settled-durable (known SourceState.outcome_unknown) w h d =
    let q : known SourceState.outcome_unknown ≡ w = cc in
    subst (λ x. is_source_state SourceState.result_durable x ≡ true) (sym q) d
settled-durable (known SourceState.failed_confirmed) w h d =
    let q : known SourceState.failed_confirmed ≡ w = cc in
    subst (λ x. is_source_state SourceState.result_durable x ≡ true) (sym q) d

-- Sources whose entries all have an outcome have a durable result.
entries-IsDurable :
    (rs : List Record) (ss : List Source) (xs : List SourceEntry)
    → source_entries rs ss ≡ ok xs
    → any_entry (λ x. not (has_outcome x)) xs ≡ false
    → All (IsDurable rs) ss
unfolding source_entries source_entry any_entry
entries-IsDurable rs [] xs h n = tt
entries-IsDurable rs (s ∷ ss) xs h n =
    let (v, hv, h1) = >>=-eq-ok (source_entry rs s) _ h in
    let (vs, hvs, h2) = >>=-eq-ok (source_entries rs ss) _ h1 in
    let (x, hx, h3) =
      >>=-eq-ok (settled_state (last_state s (known SourceState.not_attempted) rs)) _ hv in
    let q : any_entry (λ x. not (has_outcome x)) (v ∷ vs) ≡ false =
      subst (λ y. any_entry (λ x. not (has_outcome x)) y ≡ false) (sym (ok-injective h2)) n in
    let e : v.state ≡ x = sym (ap (λ (y : SourceEntry). y.state) (ok-injective h3)) in
    let d : is_source_state SourceState.result_durable x ≡ true =
      subst (λ y. is_source_state SourceState.result_durable y ≡ true) e
        (first (has_outcome v) (any_entry (λ x. not (has_outcome x)) vs) q) in
    (
      settled-durable (last_state s (known SourceState.not_attempted) rs) x hx d,
      entries-IsDurable rs ss vs hvs
          (later (has_outcome v) (any_entry (λ x. not (has_outcome x)) vs) q),
    )
  where
    first : (b c : Bool) → (not b || c) ≡ false → b ≡ true
    first b c h = ground arith

    later : (b c : Bool) → (not b || c) ≡ false → c ≡ false
    later b c h = ground arith

module _ (sha256 : Preimage → String) where
  -- What a journal has to be for its inspection to return a finalized attempt.
  pub record IsFinal (in_doubt : Bool) (i : Integrity) (rs : List Record) : Type 0 where
    pub certain : in_doubt ≡ false
    pub undamaged : is_damaged i ≡ false
    pub committed : any_type evidence_commit rs ≡ true
    pub durable : All (IsDurable rs) fixed_sources

  final-nil : (p : Projection) → validate_projection sha256 p ≡ [] → final_errors p ≡ []
  unfolding validate_projection
  final-nil p h =
      back-nil (boundary_errors p) (final_errors p) (back-nil (field_errors sha256 p) _ h)

  final-Claims :
      (p : Projection)
      → final_errors p ≡ []
      → p.finalized ≡ true
      → (p.evidence_committed ≡ true)
        × (is_state AttemptState.finalized p.attempt_state ≡ true)
        × (is_unfinished p ≡ false)
  unfolding final_errors
  final-Claims p h f =
      let q : (p.finalized
            && (not p.evidence_committed
                || not p.execution_blocked
                || not (is_state AttemptState.finalized p.attempt_state)
                || is_unfinished p))
          ≡ false =
        error_if-nil _ ProjectionError.finalization_contradiction (front-nil _ _ h) in
      go p.finalized p.evidence_committed p.execution_blocked
        (is_state AttemptState.finalized p.attempt_state) (is_unfinished p) f q
    where
      go :
          (f e b s u : Bool)
          → f ≡ true
          → (f && (not e || not b || not s || u)) ≡ false
          → (e ≡ true) × (s ≡ true) × (u ≡ false)
      go f e b s u h q = (ground arith, ground arith, ground arith)

  not-final :
      is_state AttemptState.finalized (known AttemptState.reconciliation_required) ≡ true → ⊥
  not-final h = ground arith

  -- An inspection of a journal whose last record finalizes the attempt returns only if no rename is in
  -- doubt, the journal is undamaged, its evidence is committed, and the last record of each of the
  -- four sources is a durable result; of any other such journal it raises.
  pub project-IsFinal :
      (in_doubt : Bool) (i : Integrity) (rs : List Record) (p : Projection)
      → project sha256 in_doubt i rs ≡ ok p
      → last_state_is AttemptState.finalized (last_of rs) ≡ true
      → IsFinal in_doubt i rs
  unfolding project projection_of
  project-IsFinal b i rs p h f =
      let (xs, hx, h1) = >>=-eq-ok (source_entries rs fixed_sources) _ h in
      let q = projection_of sha256 b i rs xs in
      let n : validate_projection sha256 q ≡ [] = returned q (validate_projection sha256 q) p h1 in
      let (c, s, u) = final-Claims q (final-nil q n) f in
      let (d, e) =
        named b (is_damaged i) (any_entry is_outcome_unknown xs) (last_attempt_state (last_of rs))
          s in
      record {
        certain = d;
        undamaged = e;
        committed = c;
        durable = entries-IsDurable rs fixed_sources xs hx u;
      }
    where
      returned :
          (q : Projection) (es : List ProjectionError) (p : Projection)
          → checked_projection q es ≡ ok p
          → es ≡ []
      returned q [] p h = refl
      returned q (e ∷ es) p h = cc

      named :
          (b d u : Bool) (v : Value AttemptState)
          → is_state AttemptState.finalized
              (if b || d || u then known AttemptState.reconciliation_required else v)
            ≡ true
          → (b ≡ false) × (d ≡ false)
      named true d u v h = absurd (not-final h)
      named false true u v h = absurd (not-final h)
      named false false u v h = (refl, refl)
