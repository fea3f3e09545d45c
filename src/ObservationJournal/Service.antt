-- ===== src/ObservationJournal/Service.antt =====
-- The operations of `_build_store`. A token is its number in the store's registry, and a source
-- that is none of the fixed ones is `none`; the tests of the arguments' types have no other
-- counterpart.
use Prim.Native.String.{String}
use flop_agent_intelligence.Common.{
  ℕ, Bool, true, false, not, ◌&&◌, ◌||◌, Option, none, some, List, ◌∷◌, ◌==◌, if◌then◌else◌, length,
}
use flop_agent_intelligence.Common.Text.{is_sha256}
use flop_agent_intelligence.Common.Result.{ok}
use flop_agent_intelligence.Common.Exec.{pure, raise, lift, raise_when, ◌>>=◌, ◌>>◌}
use flop_agent_intelligence.Common.Registry.{object_at}
use flop_agent_intelligence.ObservationJournal.Types.{
  absent, AttemptState, plan_prepared, permit_consumed, attempt_intent, source_intent,
  request_boundary, source_result, evidence_commit, finalize, Source, ordinal_of, SourceState,
  JournalCode, assertion_error, Record, Preimage, plan, attempt, fixture_result, fixture_evidence,
  stale_or_foreign_attempt, foreign_process_attempt, journal_reconciliation_required,
  journal_already_exists, durability_reconciliation_required, duplicate_source_intent,
  duplicate_attempt_intent, duplicate_permit_consumption, permit_consumption_order_invalid,
  attempt_intent_required, source_invalid, source_order_or_prior_outcome_invalid,
  source_intent_required, sealed_result_required, duplicate_source_result,
  sealed_v2_evidence_required, duplicate_evidence_commit, four_durable_results_required,
  attempt_terminal, evidence_commit_required, live_evidence_issuer_unavailable, result_id_invalid,
  evidence_id_invalid,
}
use flop_agent_intelligence.ObservationJournal.Store.{read, append, trip}
use flop_agent_intelligence.ObservationJournal.State.{
  System, Handle, Method, last_of, is_valid, code,
}
use flop_agent_intelligence.ObservationJournal.Select.{
  Transition, any_at, any_type, durable_results, fields_of, has_attempt, is_intent, last_is_intent,
  last_state_is, plain, results_with, same_source, used_before, with_source,
}

-- `not token` of a registry
abbrev pub require_known : {A : Type 0} → Option A → JournalCode → Method A
require_known none c = raise (code c)
require_known (some a) c = pure a

module _ (sys : System) where
  unfoldable pub resolve : ℕ → Method Handle
  resolve token w =
      (require_known (object_at token w.store.handles) stale_or_foreign_attempt >>= λ h.
      raise_when (not (h.issuer_pid == sys.pid)) (code foreign_process_attempt)
      >> (read sys >>= λ (integrity, records).
          raise_when (not (is_valid integrity && has_attempt h.attempt_id (last_of records)))
            (code journal_reconciliation_required)
          >> pure h))
        w

  -- `read()`, and the `assert` behind it
  unfoldable pub read_valid : Method (List Record)
  read_valid = read sys >>= λ (integrity, records).
      raise_when (not (is_valid integrity)) assertion_error >> pure records

  unfoldable pub new_handle : Handle
  new_handle = record {
    attempt_id = sys.sha256 attempt;
    plan_id = sys.sha256 plan;
    generation = 0;
    issuer_pid = sys.pid;
  }

  abbrev pub remember : Method ℕ
  remember w = (
    ok (length w.store.handles),
    record w { store = record w.store { handles = new_handle ∷ w.store.handles } },
  )

  unfoldable pub prepare : Method ℕ
  prepare w =
      (raise_when w.store.durability_unknown (code durability_reconciliation_required)
          >> (read sys >>= λ (integrity, records).
              raise_when (not (elim integrity [ absent ↦ true | _ ↦ false ]))
                (code journal_already_exists)
              >> (trip sys
                  >> (append sys (fields_of new_handle (plain plan_prepared AttemptState.prepared))
                      >> (trip sys >> remember)))))
        w

  unfoldable pub refuse_reuse : Option Source → Option SourceState → List Record → Method (Unit {0})
  refuse_reuse none x records = pure tt
  refuse_reuse (some s) x records = lift (used_before s (is_intent x) records) >>= λ used.
      raise_when used (code duplicate_source_intent)

  -- What it returns repeats the record's sequence number, hash and state.
  unfoldable pub transition : ℕ → Transition → Method Record
  transition token t = resolve token >>= λ h. read_valid >>= λ records.
      refuse_reuse t.source t.source_state records >> append sys (fields_of h t)

  abbrev pub and_trip : Method Record → Method Record
  and_trip m = m >>= λ r. trip sys >> pure r

  unfoldable pub durable_intent : ℕ → Method Record
  durable_intent token =
      resolve token
      >> (read_valid >>= λ records.
          raise_when (any_type attempt_intent records) (code duplicate_attempt_intent)
          >> and_trip (transition token (plain attempt_intent AttemptState.intent_durable)))

  unfoldable pub record_permit : ℕ → Method Record
  record_permit token =
      resolve token
      >> (read_valid >>= λ records.
          raise_when (any_type permit_consumed records) (code duplicate_permit_consumption)
          >> (raise_when (any_type attempt_intent records) (code permit_consumption_order_invalid)
              >> and_trip (transition token (plain permit_consumed AttemptState.prepared))))

  -- `none` stands for an argument that is none of the fixed sources.
  unfoldable pub announce_source : ℕ → Option Source → Method Record
  announce_source token source =
      trip sys
      >> (resolve token
          >> (read_valid >>= λ records.
              raise_when (not (any_type attempt_intent records)) (code attempt_intent_required)
              >> (require_known source source_invalid >>= λ s.
                  raise_when (not (ordinal_of s == durable_results records))
                    (code source_order_or_prior_outcome_invalid)
                  >> and_trip (
                      transition token (
                        with_source source_intent AttemptState.in_progress s
                          SourceState.intent_durable)))))

  unfoldable pub request_may_have_started : ℕ → Option Source → Method Record
  request_may_have_started token source =
      resolve token
      >> (read_valid >>= λ records. require_known source source_invalid >>= λ s.
          raise_when (not (last_is_intent s false records)) (code source_intent_required)
          >> and_trip (
              transition token (
                with_source request_boundary AttemptState.in_progress s
                  SourceState.request_may_have_started)))

  abbrev pub is_bad_id : Option String → Bool
  is_bad_id none = false
  is_bad_id (some s) = not (is_sha256 s)

  abbrev pub or_fixture : Option String → Preimage → String
  or_fixture none p = sys.sha256 p
  or_fixture (some s) p = s

  abbrev pub keep_result : String → Method ℕ
  keep_result id w = (
    ok (length w.store.results),
    record w { store = record w.store { results = id ∷ w.store.results } },
  )

  abbrev pub keep_evidence : String → Method ℕ
  keep_evidence id w = (
    ok (length w.store.evidence),
    record w { store = record w.store { evidence = id ∷ w.store.evidence } },
  )

  unfoldable pub issue_result : Option Source → Option String → Method ℕ
  issue_result source id =
      raise_when (not sys.fixture_issuers) (code live_evidence_issuer_unavailable)
      >> (require_known source source_invalid >>= λ s.
          raise_when (is_bad_id id) (code result_id_invalid)
          >> keep_result (or_fixture id (fixture_result s)))

  unfoldable pub issue_evidence : Option String → Method ℕ
  issue_evidence id =
      raise_when (not sys.fixture_issuers) (code live_evidence_issuer_unavailable)
      >> (raise_when (is_bad_id id) (code evidence_id_invalid)
          >> keep_evidence (or_fixture id fixture_evidence))

  abbrev pub has_intent : Source → List Record → Bool
  has_intent s rs =
      any_at s SourceState.intent_durable rs || any_at s SourceState.request_may_have_started rs

  abbrev pub state_after : Source → List Record → AttemptState
  state_after s rs =
      if results_with (same_source s) rs == 4
      then AttemptState.results_complete
      else AttemptState.in_progress

  abbrev pub with_result : Source → AttemptState → String → Transition
  with_result s x id = record (with_source source_result x s SourceState.result_durable) {
    result_id = some id;
  }

  unfoldable pub result_durable : ℕ → Option Source → ℕ → Method Record
  result_durable token source result w =
      (require_known (object_at result w.store.results) sealed_result_required >>= λ id.
      require_known source source_invalid >>= λ s. read_valid >>= λ records.
      raise_when (not (has_intent s records)) (code source_intent_required)
      >> (raise_when (any_at s SourceState.result_durable records) (code duplicate_source_result)
          >> (trip sys >> and_trip (transition token (with_result s (state_after s records) id)))))
        w

  unfoldable pub commit : ℕ → ℕ → Method Record
  commit token sealed w =
      (require_known (object_at sealed w.store.evidence) sealed_v2_evidence_required >>= λ id.
      read_valid >>= λ records.
      raise_when (any_type evidence_commit records) (code duplicate_evidence_commit)
      >> (raise_when (not (durable_results records == 4)) (code four_durable_results_required)
          >> and_trip (
              transition token (record (plain evidence_commit AttemptState.evidence_committed) {
                evidence_id = some id;
              }))))
        w

  unfoldable pub finalize_attempt : ℕ → Method Record
  finalize_attempt token = read_valid >>= λ records.
      raise_when (last_state_is AttemptState.finalized (last_of records)) (code attempt_terminal)
      >> (raise_when (not (last_state_is AttemptState.evidence_committed (last_of records)))
            (code evidence_commit_required)
          >> (trip sys >> and_trip (transition token (plain finalize AttemptState.finalized))))
