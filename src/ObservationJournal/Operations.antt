-- ===== src/ObservationJournal/Operations.antt =====
-- Each operation of the store, step by step.
use Prim.Native.String.{String}
use mathlib.Core.Path.{subst}
use flop_agent_intelligence.Common.{
  ℕ, sym, inl, inr, Bool, true, false, not, Option, some, List, ◌∷◌, ◌==◌,
}
use flop_agent_intelligence.Common.Exec.{raise_when, ◌>>=◌, ◌>>◌}
use flop_agent_intelligence.Common.Registry.{object_at}
use flop_agent_intelligence.ObservationJournal.Types.{
  Integrity, JournalCode, Record, Source, SourceState, fixture_result, fixture_evidence, RecordType,
  AttemptState,
}
use flop_agent_intelligence.ObservationJournal.Store.{trip, append, read}
use flop_agent_intelligence.ObservationJournal.State.{System, Store, Method, code}
use flop_agent_intelligence.ObservationJournal.Service.{
  with_result, state_after, require_known, resolve, read_valid, new_handle, remember, prepare,
  transition, and_trip, durable_intent, record_permit, announce_source, request_may_have_started,
  or_fixture, issue_result, issue_evidence, has_intent, result_durable, commit, finalize_attempt,
}
use flop_agent_intelligence.ObservationJournal.Select.{
  Transition, any_type, any_at, durable_results, fields_of, plain,
}
use flop_agent_intelligence.ObservationJournal.Calls.{Spec, call-Spec}
use flop_agent_intelligence.ObservationJournal.Moves.{
  Moved, Moves, stays, guard-Moves, trip-Moves, known-Reads, after-Moves, read-Reads, resolve-Reads,
  read_valid-Reads, append-Moves, transition-Moves, keep-Moves, and_trip-Moves, remembered,
}

module _ (sys : System) (s : Store) where
  pub prepare-Moves : Moves sys s (prepare sys)
  unfolding prepare
  prepare-Moves = record { at = λ w e. (body w.store.durability_unknown).at w e }
    where
      behind :
          (t : Store)
          → Moved sys s t
          → Spec t (trip sys >> remember sys) (λ _. Moved sys s) (Moved sys s)
      behind t p =
          call-Spec t (Moved sys s) p (λ _. Moved sys s) sys _ _ _
            (record {
              at = λ w e.
                  remembered sys s w.store (new_handle sys ∷ w.store.handles)
                    (subst (Moved sys s) (sym e) p);
            })

      body :
          (b : Bool)
          → Moves sys s (
              raise_when b (code JournalCode.durability_reconciliation_required)
              >> (read sys >>= λ (integrity, records).
                  raise_when
                    (not (elim integrity [ Integrity.absent ↦ true | _ ↦ false ]))
                    (code JournalCode.journal_already_exists)
                  >> (trip sys
                      >> (append sys (
                            fields_of
                              (new_handle sys)
                              (plain RecordType.plan_prepared AttemptState.prepared))
                          >> (trip sys >> remember sys)))))
      body b = guard-Moves sys s b _ _ (
          after-Moves sys s (read sys) _ (read-Reads sys s) (λ (i, rs). guard-Moves sys s _ _ _ (
            trip-Moves sys s _ (
              keep-Moves sys s
                (append sys (
                  fields_of (new_handle sys)
                    (plain RecordType.plan_prepared AttemptState.prepared)))
                _ (append-Moves sys s _) (λ _. behind)))))

  -- An operation that has resolved its token and read the journal.
  read-Moves :
      {A : Type 0} (f : List Record → Method A)
      → ((rs : List Record) → Moves sys s (f rs))
      → Moves sys s (read_valid sys >>= f)
  read-Moves f h = after-Moves sys s (read_valid sys) f (read_valid-Reads sys s) h

  recorded-Moves :
      (token : ℕ) (t : Transition) → Moves sys s (and_trip sys (transition sys token t))
  recorded-Moves token t =
      and_trip-Moves sys s (transition sys token t) (transition-Moves sys s token t)

  pub durable_intent-Moves : (token : ℕ) → Moves sys s (durable_intent sys token)
  unfolding durable_intent
  durable_intent-Moves token =
      after-Moves sys s (resolve sys token) _ (resolve-Reads sys s token)
        (λ _. read-Moves _ (λ rs. guard-Moves sys s _ _ _ (recorded-Moves token _)))

  pub record_permit-Moves : (token : ℕ) → Moves sys s (record_permit sys token)
  unfolding record_permit
  record_permit-Moves token =
      after-Moves sys s (resolve sys token) _ (resolve-Reads sys s token) (λ _.
        read-Moves _
          (λ rs. guard-Moves sys s _ _ _ (guard-Moves sys s _ _ _ (recorded-Moves token _))))

  pub announce_source-Moves :
      (token : ℕ) (source : Option Source) → Moves sys s (announce_source sys token source)
  unfolding announce_source
  announce_source-Moves token source = trip-Moves sys s _ (
      after-Moves sys s (resolve sys token) _ (resolve-Reads sys s token) (λ _. read-Moves _ (λ rs.
        guard-Moves sys s _ _ _ (
          after-Moves sys s (require_known source _) _ (known-Reads sys s source _)
            (λ a. guard-Moves sys s _ _ _ (recorded-Moves token _))))))

  pub request_may_have_started-Moves :
      (token : ℕ) (source : Option Source) → Moves sys s (request_may_have_started sys token source)
  unfolding request_may_have_started
  request_may_have_started-Moves token source =
      after-Moves sys s (resolve sys token) _ (resolve-Reads sys s token) (λ _. read-Moves _ (λ rs.
        after-Moves sys s (require_known source _) _ (known-Reads sys s source _)
          (λ a. guard-Moves sys s _ _ _ (recorded-Moves token _))))

  pub result_durable-Moves :
      (token : ℕ) (source : Option Source) (result : ℕ)
      → Moves sys s (result_durable sys token source result)
  unfolding result_durable
  result_durable-Moves token source result = record {
    at = λ w e. (body (object_at result w.store.results)).at w e;
  }
    where
      body :
          (o : Option String)
          → Moves sys s (
              require_known o JournalCode.sealed_result_required >>= λ id.
              require_known source JournalCode.source_invalid >>= λ a. read_valid sys >>= λ records.
              raise_when (not (has_intent sys a records)) (code JournalCode.source_intent_required)
              >> (raise_when
                    (any_at a SourceState.result_durable records)
                    (code JournalCode.duplicate_source_result)
                  >> (trip sys
                      >> and_trip sys (
                          transition sys token
                            (with_result sys a (state_after sys a records) id)))))
      body o = after-Moves sys s (require_known o _) _ (known-Reads sys s o _) (λ id.
          after-Moves sys s (require_known source _) _ (known-Reads sys s source _) (λ a.
            read-Moves _ (λ rs.
              guard-Moves sys s _ _ _
                (guard-Moves sys s _ _ _ (trip-Moves sys s _ (recorded-Moves token _))))))

  pub commit-Moves : (token sealed : ℕ) → Moves sys s (commit sys token sealed)
  unfolding commit
  commit-Moves token sealed = record {
    at = λ w e. (body (object_at sealed w.store.evidence)).at w e;
  }
    where
      body :
          (o : Option String)
          → Moves sys s (
              require_known o JournalCode.sealed_v2_evidence_required >>= λ id.
              read_valid sys >>= λ records.
              raise_when
                (any_type RecordType.evidence_commit records)
                (code JournalCode.duplicate_evidence_commit)
              >> (raise_when
                    (not (durable_results records == 4))
                    (code JournalCode.four_durable_results_required)
                  >> and_trip sys (
                      transition sys token
                        (record (plain RecordType.evidence_commit AttemptState.evidence_committed) {
                          evidence_id = some id;
                        }))))
      body o = after-Moves sys s (require_known o _) _ (known-Reads sys s o _) (λ id.
          read-Moves _
            (λ rs. guard-Moves sys s _ _ _ (guard-Moves sys s _ _ _ (recorded-Moves token _))))

  pub finalize_attempt-Moves : (token : ℕ) → Moves sys s (finalize_attempt sys token)
  unfolding finalize_attempt
  finalize_attempt-Moves token = read-Moves _ (λ rs.
      guard-Moves sys s _ _ _
        (guard-Moves sys s _ _ _ (trip-Moves sys s _ (recorded-Moves token _))))

  -- A token that is issued.
  registered :
      (t : Store) (results evidence : List String)
      → Moved sys s t
      → Moved sys s (record t { results = results; evidence = evidence })
  registered t results evidence (inl p) = inl (record { file = p.file; unknown = p.unknown })
  registered t results evidence (inr p) =
      inr (record { fields = p.fields; new = p.new; appended = p.appended; file = p.file })

  pub issue_result-Moves :
      (source : Option Source) (id : Option String) → Moves sys s (issue_result sys source id)
  unfolding issue_result
  issue_result-Moves source id = guard-Moves sys s _ _ _ (
      after-Moves sys s (require_known source _) _ (known-Reads sys s source _) (λ a.
        guard-Moves sys s _ _ _ (record {
          at = λ w e.
              registered w.store (or_fixture sys id (fixture_result a) ∷ w.store.results)
                w.store.evidence (subst (Moved sys s) (sym e) (stays sys s));
        })))

  pub issue_evidence-Moves : (id : Option String) → Moves sys s (issue_evidence sys id)
  unfolding issue_evidence
  issue_evidence-Moves id = guard-Moves sys s _ _ _ (
      guard-Moves sys s _ _ _ (record {
        at = λ w e.
            registered w.store w.store.results
              (or_fixture sys id fixture_evidence ∷ w.store.evidence)
              (subst (Moved sys s) (sym e) (stays sys s));
      }))
