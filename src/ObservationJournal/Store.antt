-- ===== src/ObservationJournal/Store.antt =====
-- Reading and appending: `locked`, `read_at`, `read` and `append` of `_build_store`. The operating
-- system is an argument that answers each call; `trip` is one more place where a run can stop.
use flop_agent_intelligence.Common.{
  ℕ, zero, suc, ◌+◌, ◌-◌, Bool, true, false, not, Option, none, some, List, [], ◌∷◌, ◌++◌, map, ltb,
  ◌==◌, if◌then◌else◌, length,
}
use flop_agent_intelligence.Common.Exec.{pure, raise, lift, modify, raise_when, ◌>>=◌, ◌>>◌}
use flop_agent_intelligence.ObservationJournal.Types.{
  Integrity, absent, v2, JournalCode, Raised, os_error, interrupted, known, Body, Record, journal,
  source_order, record_body, schema_version, source_set, stamp, journal_root_unsafe, lock_unsafe,
  duplicate_writer, local_artifact_unsafe, journal_too_large, durability_reconciliation_required,
  journal_reconciliation_required, attempt_terminal, journal_limit_reached, candidate_invalid,
  temp_unsafe, short_write, directory_fsync_durability_unknown, published_identity_invalid,
  local_persistence_failed,
}
use flop_agent_intelligence.ObservationJournal.Validate.{inspect_bytes}
use flop_agent_intelligence.ObservationJournal.State.{
  Fields, File, Method, System, World, answered, code, given, handled, hash_of_last, is_appendable,
  is_terminal, is_valid, last_of, line_of, max_bytes, read_chunks, works,
}

-- `except OSError: raise JournalError(c)`, after `then_do` has changed the state
unfoldable pub except_os_error : {A : Type 0} → (World → World) → JournalCode → Method A → Method A
except_os_error then_do c m w = handled then_do c (m w)

module _ (sys : System) where
  -- One call, with what it raises when it fails and what the test behind it raises.
  unfoldable pub call : Raised → Raised → Method (Unit {0})
  call failed refused w =
      (answered (sys.answers w.calls) failed refused, record w { calls = suc w.calls })

  abbrev pub trip : Method (Unit {0})
  trip = call os_error interrupted

  unfoldable pub open_root : Method (Unit {0})
  open_root = call (code journal_root_unsafe) (code journal_root_unsafe)

  unfoldable pub locked : Method (Unit {0})
  locked =
      open_root
      >> (call (code lock_unsafe) (code lock_unsafe)
          >> (call os_error (code lock_unsafe)
              >> (call os_error (code duplicate_writer) >> call os_error (code lock_unsafe))))

  unfoldable pub read_file : Option File → Method (Integrity × List Record)
  read_file none = pure (absent, [])
  read_file (some f) =
      call os_error (code local_artifact_unsafe)
      >> (raise_when (ltb max_bytes f.size) (code journal_too_large)
          >> lift (read_chunks sys.sha256 f.chunks))

  unfoldable pub read_at : Method (Integrity × List Record)
  read_at = call (code local_artifact_unsafe) (code local_artifact_unsafe) >> λ w.
      read_file w.store.file w

  unfoldable pub read : Method (Integrity × List Record)
  read = open_root >> read_at

  unfoldable pub new_body : Fields → List Record → Body
  new_body f records = record {
    schema = known schema_version;
    journal_id = known (sys.sha256 journal);
    plan_id = known f.plan_id;
    attempt_id = known f.attempt_id;
    predicate_policy = known v2;
    source_set_id = known source_set;
    source_order_hash = known (sys.sha256 source_order);
    attempt_generation = known 0;
    sequence = known (length records);
    previous_hash = known (hash_of_last (last_of records));
    record_type = known f.record_type;
    attempt_state = known f.attempt_state;
    source_id = given f.source_id;
    source_ordinal = given f.source_ordinal;
    source_state = given f.source_state;
    result_id = given f.result_id;
    evidence_id = given f.evidence_id;
    created_at = known stamp;
    reconciliation_required = known f.reconciliation_required;
  }

  unfoldable pub new_record : Fields → List Record → Record
  new_record f records = record {
    body = new_body f records;
    record_hash = known (sys.sha256 (record_body (new_body f records)));
  }

  unfoldable pub size_of : List Record → ℕ
  size_of [] = 0
  size_of (r ∷ rs) = sys.line_size r + size_of rs

  unfoldable pub file_of : List Record → File
  file_of rs = record { chunks = map line_of rs; size = size_of rs }

  -- The loop of `os.write`; a write that takes no byte raises.
  unfoldable pub write_from : (fuel remaining : ℕ) → Method (Unit {0})
  write_from zero remaining w = raise_when (ltb 0 remaining) (code short_write) w
  write_from (suc fuel) remaining w =
      let count = sys.written w.calls in
      let next = write_from fuel (remaining - count) in
      (if remaining == 0
          then pure tt
          else call os_error (code short_write)
            >> (raise_when (count == 0) (code short_write) >> (trip >> next)))
        w

  abbrev pub set_temporary : Bool → World → World
  set_temporary b w = record w { temporary = b }

  -- `O_CREAT | O_EXCL`
  unfoldable pub create_temporary : Method (Unit {0})
  create_temporary w =
      (if w.temporary
          then raise os_error
          else call os_error (code temp_unsafe) >> modify (set_temporary true))
        w

  -- `finally: unlink`, whose errors pass
  unfoldable pub unlink_temporary : World → World
  unlink_temporary w = record w {
    calls = suc w.calls;
    temporary = elim (sys.answers w.calls) [ works ↦ false | _ ↦ w.temporary ];
  }

  unfoldable pub finally_unlink : {A : Type 0} → Method A → Method A
  finally_unlink m w = let (r, w') = m w in (r, unlink_temporary w')

  abbrev pub publish : File → World → World
  publish file w = record w { store = record w.store { file = some file }; temporary = false }

  abbrev pub doubt : World → World
  doubt w = record w { store = record w.store { durability_unknown = true } }

  unfoldable pub write_temporary : ℕ → Method (Unit {0})
  write_temporary size =
      create_temporary
      >> (call os_error (code temp_unsafe)
          >> (write_from size size
              >> (call os_error os_error >> (trip >> call os_error (code temp_unsafe)))))

  -- From `os.replace` to the return.
  unfoldable pub replace : File → Record → Method Record
  replace file r =
      call os_error os_error
      >> (modify (publish file)
          >> except_os_error doubt directory_fsync_durability_unknown (
              trip
              >> (call os_error os_error
                  >> (trip
                      >> (call os_error (code local_artifact_unsafe)
                          >> (call os_error (code published_identity_invalid) >> pure r))))))

  -- `_inspect_bytes(encoded)`: a line's content is what `json.loads` makes of what `json.dumps`
  -- wrote, so that the records that it returns need no second comparison.
  unfoldable pub check_candidate : File → Method (Unit {0})
  check_candidate file = lift (inspect_bytes sys.sha256 file.chunks) >>= λ (integrity, _).
      raise_when (not (is_valid integrity)) (code candidate_invalid)

  unfoldable pub write_candidate : Record → List Record → Method Record
  write_candidate r records =
      let file = file_of (records ++ r ∷ []) in
      raise_when (ltb max_bytes file.size) (code journal_limit_reached)
      >> (check_candidate file >> (write_temporary file.size >> replace file r))

  unfoldable pub append_locked : Fields → Method Record
  append_locked f = read_at >>= λ (integrity, records).
      raise_when (not (is_appendable integrity)) (code journal_reconciliation_required)
      >> (raise_when (is_terminal (last_of records)) (code attempt_terminal)
          >> write_candidate (new_record f records) records)

  unfoldable pub append : Fields → Method Record
  append f w =
      except_os_error (λ x. x) local_persistence_failed
        (raise_when w.store.durability_unknown (code durability_reconciliation_required)
          >> (locked >> finally_unlink (trip >> append_locked f)))
        w
