-- ===== src/ObservationJournal/Appended.antt =====
-- What `append` may do to the journal, wherever a run of it ends.
use mathlib.Core.Path.{subst}
use flop_agent_intelligence.Common.{
  ℕ, ◌≡◌, refl, sym, ap, ◌⊎◌, inl, inr, Bool, true, false, not, some, List, [], ◌∷◌, ◌++◌, map, ltb,
  if◌then◌else◌,
}
use flop_agent_intelligence.Common.Result.{ok}
use flop_agent_intelligence.Common.Exec.{pure, raise, modify, raise_when, ◌>>=◌, ◌>>◌}
use flop_agent_intelligence.Common.Triple.{Post}
use flop_agent_intelligence.ObservationJournal.Types.{
  Raised, Integrity, absent, valid, corrupt, torn_tail, os_error, Record, JournalCode,
}
use flop_agent_intelligence.ObservationJournal.Validate.{inspect_bytes}
use flop_agent_intelligence.ObservationJournal.Store.{
  call, trip, open_root, locked, read_at, new_record, size_of, file_of, write_temporary,
  create_temporary, set_temporary, replace, check_candidate, write_candidate, append_locked, append,
  write_from, publish, doubt, except_os_error, finally_unlink,
}
use flop_agent_intelligence.ObservationJournal.State.{
  System, read_chunks, Store, World, Method, Fields, line_of, last_of, max_bytes, is_terminal,
  is_appendable, is_valid, code,
}
use flop_agent_intelligence.ObservationJournal.Calls.{
  At, On, Spec, pure-Spec, guard-Spec, lift-Spec, call-Spec, except-Spec, finally-Spec, then-Spec,
  learn-Spec, call-Same, write_from-Same,
}
use flop_agent_intelligence.ObservationJournal.Reads.{loaded, candidate-reads, read_at-Spec}

not-false : {b : Bool} → not b ≡ false → b ≡ true
not-false {b = true} h = refl
not-false {b = false} h = sym h

module _ (sys : System) where
  -- A record that `append` has put behind those of the store `s`.
  pub record Appended (s : Store) (f : Fields) (r : Record) : Type 0 where
    pub integrity : Integrity
    pub records : List Record
    pub certain : s.durability_unknown ≡ false
    pub before : loaded sys s.file ≡ ok (integrity, records)
    pub appendable : is_appendable integrity ≡ true
    pub unfinished : is_terminal (last_of records) ≡ false
    pub is_new : r ≡ new_record sys f records
    pub reads : loaded sys (some (file_of sys (records ++ r ∷ []))) ≡ ok (valid, records ++ r ∷ [])

  abbrev pub after_append : (s : Store) (f : Fields) (r : Record) → Appended s f r → Store
  after_append s f r p = record s { file = some (file_of sys (p.records ++ r ∷ [])) }

  -- The store behind a run that returns the record, and behind one that raises.
  abbrev pub Returned : Store → Fields → Record → Store → Type 0
  Returned s f r t = (p : Appended s f r) × (t ≡ after_append s f r p)

  abbrev pub Stopped : Store → Fields → Store → Type 0
  Stopped s f t =
      (t ≡ s)
      ⊎ ((r : Record) × (p : Appended s f r) × ((t ≡ after_append s f r p)
            ⊎ (t ≡ record (after_append s f r p) { durability_unknown = true })))

  module _ (s : Store) (f : Fields) where
    abbrev Unchanged : Stopped s f s
    Unchanged = inl refl

    abbrev Steady : {A : Type 0} → Method A → Type 0
    Steady m = Spec s m (λ _ t. t ≡ s) (Stopped s f)

    abbrev Goes : Method Record → Type 0
    Goes m = Spec s m (Returned s f) (Stopped s f)

    call-Steady : {A : Type 0} (x y : Raised) (m : Method A) → Steady m → Steady (call sys x y >> m)
    call-Steady = call-Spec s (Stopped s f) Unchanged (λ _ t. t ≡ s) sys

    call-Goes : (x y : Raised) (m : Method Record) → Goes m → Goes (call sys x y >> m)
    call-Goes = call-Spec s (Stopped s f) Unchanged (Returned s f) sys

    guard-Goes :
        (b : Bool) (e : Raised) (m : Method Record)
        → (b ≡ false → Goes m)
        → Goes (raise_when b e >> m)
    guard-Goes = guard-Spec s (Stopped s f) Unchanged (Returned s f)

    then-Steady :
        {A B : Type 0} (m : Method A) (k : A → Method B)
        → Steady m
        → ((a : A) → Steady (k a))
        → Steady (m >>= k)
    then-Steady m k = then-Spec s (Stopped s f) Unchanged (λ _ t. t ≡ s) m k

    then-Goes :
        {A : Type 0} (m : Method A) (k : A → Method Record)
        → Steady m
        → ((a : A) → Goes (k a))
        → Goes (m >>= k)
    then-Goes m k = then-Spec s (Stopped s f) Unchanged (Returned s f) m k

    module _ (r : Record) (p : Appended s f r) where
      abbrev Here : Store → Type 0
      Here t = t ≡ after_append s f r p

      call-Published :
          (x y : Raised) (m : Method Record)
          → Spec (after_append s f r p) m (Returned s f) Here
          → Spec (after_append s f r p) (call sys x y >> m) (Returned s f) Here
      call-Published = call-Spec (after_append s f r p) Here refl (Returned s f) sys

      published-Spec :
          Spec
            (after_append s f r p)
            (trip sys
              >> (call sys os_error os_error
                  >> (trip sys
                      >> (call sys os_error (code JournalCode.local_artifact_unsafe)
                          >> (call sys os_error (code JournalCode.published_identity_invalid)
                              >> pure r)))))
            (Returned s f)
            Here
      published-Spec =
          let s' = after_append s f r p in
          call-Published _ _ _ (
            call-Published _ _ _ (
              call-Published _ _ _ (
                call-Published _ _ _
                  (call-Published _ _ _ (pure-Spec s' Here refl r (Returned s f) (p, refl))))))

      replace-Spec :
          Spec s (replace sys (file_of sys (p.records ++ r ∷ [])) r) (Returned s f) (Stopped s f)
      unfolding replace ◌>>=◌
      replace-Spec = call-Goes os_error os_error _ (record {
        at = λ w e.
            (except-Spec (after_append s f r p) (Returned s f) Here (Stopped s f) (doubt sys)
                JournalCode.directory_fsync_durability_unknown _ (λ t h. inr (r, p, inl h))
                (λ w h.
                  inr (r, p, inr (ap {A = Store} (λ t. record t { durability_unknown = true }) h)))
                published-Spec).at
              (publish sys (file_of sys (p.records ++ r ∷ [])) w)
              (ap {A = Store} (λ t. record t { file = some (file_of sys (p.records ++ r ∷ [])) })
                e);
      })

    create_temporary-Steady : Steady (create_temporary sys)
    unfolding create_temporary ◌>>=◌
    create_temporary-Steady = record { at = λ w e. go w e w.temporary }
      where
        go :
            (w : World)
            → At s w
            → (b : Bool)
            → Post
                (λ _. At s)
                (On (Stopped s f))
                ((if b
                    then raise os_error
                    else call sys os_error (code JournalCode.temp_unsafe)
                      >> modify (set_temporary sys true))
                  w)
        go w e true = inl e
        go w e false =
            (call-Steady os_error (code JournalCode.temp_unsafe) (modify (set_temporary sys true))
                (record { at = λ w e. e })).at
              w e

    write_temporary-Steady : (size : ℕ) → Steady (write_temporary sys size)
    unfolding write_temporary
    write_temporary-Steady size = then-Steady (create_temporary sys) _ create_temporary-Steady (λ _.
        call-Steady _ _ _ (
          then-Steady (write_from sys size size) _
            (write_from-Same s (Stopped s f) Unchanged sys size size)
            (λ _. call-Steady _ _ _ (
              call-Steady _ _ _ (
                call-Same s (Stopped s f) Unchanged sys os_error (code JournalCode.temp_unsafe))))))

    abbrev Valid : List Record → Unit {0} → Type 0
    Valid rs _ = read_chunks sys.sha256 (map line_of rs) ≡ ok (valid, rs)

    check_candidate-Spec :
        (rs : List Record)
        → Spec s (check_candidate sys (file_of sys rs)) (λ u t. (t ≡ s) × Valid rs u) (Stopped s f)
    unfolding check_candidate file_of
    check_candidate-Spec rs =
        lift-Spec s (Stopped s f) Unchanged (λ u t. (t ≡ s) × Valid rs u)
          (inspect_bytes sys.sha256 (map line_of rs)) _
          (λ (i, x) h. record { at = λ w e. go i x h w e })
      where
        go :
            (i : Integrity) (x : List Record)
            → inspect_bytes sys.sha256 (map line_of rs) ≡ ok (i, x)
            → (w : World) → At s w
            → Post
                (λ u. On (λ t. (t ≡ s) × Valid rs u))
                (On (Stopped s f))
                (raise_when (not (is_valid i)) (code JournalCode.candidate_invalid) w)
        go valid x h w e = (e, candidate-reads sys.sha256 rs x h)
        go absent x h w e = inl e
        go corrupt x h w e = inl e
        go torn_tail x h w e = inl e

    write_candidate-Spec :
        (i : Integrity) (records : List Record)
        → s.durability_unknown ≡ false
        → loaded sys s.file ≡ ok (i, records)
        → is_appendable i ≡ true
        → is_terminal (last_of records) ≡ false
        → Goes (write_candidate sys (new_record sys f records) records)
    unfolding write_candidate file_of
    write_candidate-Spec i records c b a u =
        let r = new_record sys f records in
        let rs = records ++ r ∷ [] in
        guard-Goes (ltb max_bytes (size_of sys rs)) _ _ (λ small.
          learn-Spec s (Stopped s f) Unchanged (Valid rs) (Returned s f)
            (check_candidate sys (file_of sys rs)) _ (check_candidate-Spec rs)
            (λ _ v.
              then-Goes (write_temporary sys (size_of sys rs)) _
                (write_temporary-Steady (size_of sys rs))
                (λ _. replace-Spec r (record {
                  integrity = i;
                  records = records;
                  certain = c;
                  before = b;
                  appendable = a;
                  unfinished = u;
                  is_new = refl;
                  reads = rw small v;
                }))))

    append_locked-Spec : s.durability_unknown ≡ false → Goes (append_locked sys f)
    unfolding append_locked
    append_locked-Spec c =
        learn-Spec s (Stopped s f) Unchanged (λ p. loaded sys s.file ≡ ok p) (Returned s f)
          (read_at sys) _ (read_at-Spec sys s (Stopped s f) Unchanged)
          (λ (i, records) b. guard-Goes (not (is_appendable i)) _ _ (λ a.
            guard-Goes (is_terminal (last_of records)) _ _
              (λ u. write_candidate-Spec i records c b (not-false a) u)))

    locked-then : (m : Method Record) → Goes m → Goes (locked sys >> m)
    unfolding locked open_root
    locked-then m h =
        then-Goes (locked sys) (λ _. m)
          (call-Steady _ _ _ (
            call-Steady _ _ _ (
              call-Steady _ _ _ (call-Steady _ _ _ (call-Same s (Stopped s f) Unchanged sys _ _)))))
          (λ _. h)

    append_checked-Spec :
        Spec s
          (raise_when s.durability_unknown (code JournalCode.durability_reconciliation_required)
            >> (locked sys >> finally_unlink sys (trip sys >> append_locked sys f)))
          (Returned s f)
          (Stopped s f)
    append_checked-Spec = guard-Goes s.durability_unknown _ _ (λ c.
        locked-then (finally_unlink sys (trip sys >> append_locked sys f)) (
          finally-Spec s (Returned s f) (Stopped s f) sys _
            (call-Goes _ _ _ (append_locked-Spec c))))

    -- An append that returns has put its record behind those that the journal held; one that raises
    -- has left the journal alone, or has replaced it by the journal with this record.
    pub append-Spec : Goes (append sys f)
    unfolding append
    append-Spec = record {
      at = λ w e.
          subst
            (λ u.
              Post (λ a. On (Returned s f a)) (On (Stopped s f))
                (except_os_error (λ x. x) JournalCode.local_persistence_failed
                  (raise_when u (code JournalCode.durability_reconciliation_required)
                    >> (locked sys >> finally_unlink sys (trip sys >> append_locked sys f)))
                  w))
            (sym (ap (λ t. t.durability_unknown) e))
            ((except-Spec s (Returned s f) (Stopped s f) (Stopped s f) (λ x. x)
                JournalCode.local_persistence_failed _ (λ t h. h) (λ w h. h) append_checked-Spec).at
              w e);
    }
