-- ===== src/ObservationJournal/Performed.antt =====
-- Runs of the journal's operations and restarts of its process.
use Prim.Native.String.{String}
use mathlib.Core.Path.{subst}
use mathlib.Core.List.{append_assoc}
use flop_agent_intelligence.Common.{
  ℕ, ◌≡◌, refl, sym, ap, ◌∙◌, ◌⊎◌, inl, inr, Bool, true, false, Option, List, [], ◌∷◌, ◌++◌,
}
use flop_agent_intelligence.Common.Result.{Result, ok, err, ok-injective}
use flop_agent_intelligence.Common.Triple.{Post}
use flop_agent_intelligence.ObservationJournal.Types.{Integrity, valid, Raised, Record, Source}
use flop_agent_intelligence.ObservationJournal.State.{
  System, File, Store, World, Method, last_of, is_terminal, is_appendable,
}
use flop_agent_intelligence.ObservationJournal.Service.{
  prepare, durable_intent, record_permit, announce_source, request_may_have_started, issue_result,
  issue_evidence, result_durable, commit, finalize_attempt,
}
use flop_agent_intelligence.ObservationJournal.Calls.{On}
use flop_agent_intelligence.ObservationJournal.Reads.{loaded}
use flop_agent_intelligence.ObservationJournal.Moves.{Same, Moved, Moves}
use flop_agent_intelligence.ObservationJournal.Operations.{
  prepare-Moves, durable_intent-Moves, record_permit-Moves, announce_source-Moves,
  request_may_have_started-Moves, issue_result-Moves, issue_evidence-Moves, result_durable-Moves,
  commit-Moves, finalize_attempt-Moves,
}

-- The functions that `_build_store` returns, with their arguments.
pub data Operation : Type 0 where
  prepare_attempt : Operation
  record_intent record_permit_consumed : ℕ → Operation
  record_source_intent record_request_boundary : ℕ → Option Source → Operation
  issue_result_id : Option Source → Option String → Operation
  record_source_result : ℕ → Option Source → ℕ → Operation
  issue_evidence_id : Option String → Operation
  commit_evidence : ℕ → ℕ → Operation
  finalize_token : ℕ → Operation

-- The world behind a run of a method, however it ends.
abbrev pub world_after : {A : Type 0} → Method A → World → World
world_after m w = (m w).1

-- A new process builds a new store over the file; a temporary file may be left.
pub data Event : Type 0 where
  perform : Operation → Event
  restart : Bool → Event

abbrev pub restarted : Bool → World → World
restarted leftover w = record w {
  store = record {
    file = w.store.file;
    durability_unknown = false;
    handles = [];
    results = [];
    evidence = [];
  };
  temporary = leftover;
}

module _ (sys : System) where
  unfoldable pub operate : Operation → World → World
  operate prepare_attempt = world_after (prepare sys)
  operate (record_intent t) = world_after (durable_intent sys t)
  operate (record_permit_consumed t) = world_after (record_permit sys t)
  operate (record_source_intent t s) = world_after (announce_source sys t s)
  operate (record_request_boundary t s) = world_after (request_may_have_started sys t s)
  operate (issue_result_id s id) = world_after (issue_result sys s id)
  operate (record_source_result t s r) = world_after (result_durable sys t s r)
  operate (issue_evidence_id id) = world_after (issue_evidence sys id)
  operate (commit_evidence t e) = world_after (commit sys t e)
  operate (finalize_token t) = world_after (finalize_attempt sys t)

  abbrev pub happen : Event → World → World
  happen (perform o) w = operate o w
  happen (restart leftover) w = restarted leftover w

  unfoldable pub operate_all : List Operation → World → World
  operate_all [] w = w
  operate_all (o ∷ os) w = operate_all os (operate o w)

  unfoldable pub happen_all : List Event → World → World
  happen_all [] w = w
  happen_all (e ∷ es) w = happen_all es (happen e w)

  any_end :
      {A : Type 0} (s : Store) (m : Method A) (w : World)
      → w.store ≡ s
      → Moves sys s m
      → Moved sys s (m w).1.store
  any_end s m w e h = go (m w) (h.at w e)
    where
      go :
          {A : Type 0} (r : Result Raised A × World)
          → Post (λ _. On (Moved sys s)) (On (Moved sys s)) r
          → Moved sys s r.1.store
      go (ok a, w) p = p
      go (err x, w) p = p

  pub operate-Moved : (o : Operation) (w : World) → Moved sys w.store (operate o w).store
  unfolding operate
  operate-Moved prepare_attempt w = any_end w.store _ w refl (prepare-Moves sys w.store)
  operate-Moved (record_intent t) w = any_end w.store _ w refl (durable_intent-Moves sys w.store t)
  operate-Moved (record_permit_consumed t) w =
      any_end w.store _ w refl (record_permit-Moves sys w.store t)
  operate-Moved (record_source_intent t s) w =
      any_end w.store _ w refl (announce_source-Moves sys w.store t s)
  operate-Moved (record_request_boundary t s) w =
      any_end w.store _ w refl (request_may_have_started-Moves sys w.store t s)
  operate-Moved (issue_result_id s id) w =
      any_end w.store _ w refl (issue_result-Moves sys w.store s id)
  operate-Moved (record_source_result t s r) w =
      any_end w.store _ w refl (result_durable-Moves sys w.store t s r)
  operate-Moved (issue_evidence_id id) w =
      any_end w.store _ w refl (issue_evidence-Moves sys w.store id)
  operate-Moved (commit_evidence t e) w = any_end w.store _ w refl (commit-Moves sys w.store t e)
  operate-Moved (finalize_token t) w =
      any_end w.store _ w refl (finalize_attempt-Moves sys w.store t)

  -- The second file reads as a valid journal that begins with the records of the first.
  pub record Grown (f g : Option File) : Type 0 where
    pub integrity : Integrity
    pub old : List Record
    pub new : List Record
    pub before : loaded sys f ≡ ok (integrity, old)
    pub appendable : is_appendable integrity ≡ true
    pub behind : loaded sys g ≡ ok (valid, old ++ new)

  abbrev pub Extends : Option File → Option File → Type 0
  Extends f g = (g ≡ f) ⊎ Grown f g

  same_records :
      (f : Option File) {i j : Integrity} {rs qs : List Record}
      → loaded sys f ≡ ok (i, rs)
      → loaded sys f ≡ ok (j, qs)
      → rs ≡ qs
  same_records f p q = ap (λ x. x.1) (ok-injective (sym p ∙ q))

  Extends-trans : (f g h : Option File) → Extends f g → Extends g h → Extends f h
  Extends-trans f g h (inl p) (inl q) = inl (q ∙ p)
  Extends-trans f g h (inl p) (inr q) = inr (subst (λ x. Grown x h) p q)
  Extends-trans f g h (inr p) (inl q) = inr (subst (λ x. Grown f x) (sym q) p)
  Extends-trans f g h (inr p) (inr q) = inr (record {
    integrity = p.integrity;
    old = p.old;
    new = p.new ++ q.new;
    before = p.before;
    appendable = p.appendable;
    behind =
        q.behind
        ∙ ap (λ x. ok (valid, x))
            (ap (λ x. x ++ q.new) (same_records g q.before p.behind)
              ∙ append_assoc p.old p.new q.new);
  })

  Moved-Extends : (s t : Store) → Moved sys s t → Extends s.file t.file
  Moved-Extends s t (inl p) = inl p.file
  Moved-Extends s t (inr p) = inr (record {
    integrity = p.appended.integrity;
    old = p.appended.records;
    new = p.new ∷ [];
    before = p.appended.before;
    appendable = p.appended.appendable;
    behind = ap (loaded sys) p.file ∙ p.appended.reads;
  })

  happen-Extends : (e : Event) (w : World) → Extends w.store.file (happen e w).store.file
  happen-Extends (perform o) w = Moved-Extends w.store (operate o w).store (operate-Moved o w)
  happen-Extends (restart leftover) w = inl refl

  -- Whatever operations are called, with whatever arguments, whatever the operating system answers to
  -- their calls, and wherever a run stops and a new process starts: the journal is the one before, or
  -- reads as a valid journal that begins with all the records that were there.
  pub happen_all-Extends :
      (es : List Event) (w : World) → Extends w.store.file (happen_all es w).store.file
  unfolding happen_all
  happen_all-Extends [] w = inl refl
  happen_all-Extends (e ∷ es) w =
      Extends-trans w.store.file (happen e w).store.file (happen_all es (happen e w)).store.file
        (happen-Extends e w) (happen_all-Extends es (happen e w))

  -- The store is in doubt about a rename, or the journal's last record ends the attempt.
  pub data IsSealed (s : Store) : Type 0 where
    in_doubt : s.durability_unknown ≡ true → IsSealed s
    ended :
        (rs : List Record)
        → loaded sys s.file ≡ ok (valid, rs)
        → is_terminal (last_of rs) ≡ true
        → IsSealed s

  sealed-Same : (s t : Store) → IsSealed s → Moved sys s t → Same sys s t
  sealed-Same s t h (inl p) = p
  sealed-Same s t (in_doubt h) (inr p) =
      let q : s.durability_unknown ≡ false = p.appended.certain in cc
  sealed-Same s t (ended rs h e) (inr p) =
      let q : rs ≡ p.appended.records = same_records s.file h p.appended.before in
      let u : is_terminal (last_of p.appended.records) ≡ false = p.appended.unfinished in cc

  IsSealed-Same : (s t : Store) → Same sys s t → IsSealed s → IsSealed t
  IsSealed-Same s t p (in_doubt h) = in_doubt (p.unknown ∙ h)
  IsSealed-Same s t p (ended rs h e) = ended rs (ap (loaded sys) p.file ∙ h) e

  -- Once the directory's sync has failed, or the last record finalizes the attempt, no operation of
  -- the store changes the journal any more.
  pub sealed-unchanged :
      (os : List Operation) (w : World)
      → IsSealed w.store
      → (operate_all os w).store.file ≡ w.store.file
  unfolding operate_all
  sealed-unchanged [] w h = refl
  sealed-unchanged (o ∷ os) w h =
      let p = sealed-Same w.store (operate o w).store h (operate-Moved o w) in
      sealed-unchanged os (operate o w) (IsSealed-Same w.store (operate o w).store p h) ∙ p.file
