-- ===== src/ObservationJournal/Moves.antt =====
-- What one operation may do to the journal, and the parts that every operation is made of.
use flop_agent_intelligence.Common.{
  ℕ, ◌≡◌, refl, ap, ◌⊎◌, inl, inr, Bool, true, false, not, ◌&&◌, Option, none, some, List, [], ◌∷◌,
  ◌++◌, ◌==◌,
}
use flop_agent_intelligence.Common.Result.{Result, ok, err}
use flop_agent_intelligence.Common.Exec.{pure, lift, raise_when, ◌>>=◌, ◌>>◌}
use flop_agent_intelligence.Common.Triple.{Post, Triple-bind}
use flop_agent_intelligence.Common.Registry.{object_at}
use flop_agent_intelligence.ObservationJournal.Types.{
  Integrity, Raised, JournalCode, Record, Source, SourceState, os_error, interrupted,
}
use flop_agent_intelligence.ObservationJournal.Store.{trip, file_of, append, read}
use flop_agent_intelligence.ObservationJournal.State.{
  System, Handle, Store, World, Method, Fields, code, last_of, is_valid,
}
use flop_agent_intelligence.ObservationJournal.Service.{
  require_known, resolve, read_valid, refuse_reuse, transition, and_trip,
}
use flop_agent_intelligence.ObservationJournal.Select.{
  Transition, has_attempt, is_intent, used_before, fields_of,
}
use flop_agent_intelligence.ObservationJournal.Calls.{
  At, On, Spec, pure-Spec, raise-Spec, guard-Spec, call-Spec, then-Spec,
}
use flop_agent_intelligence.ObservationJournal.Reads.{loaded, read-Spec}
use flop_agent_intelligence.ObservationJournal.Appended.{Appended, Returned, Stopped, append-Spec}

module _ (sys : System) where
  pub record Same (s t : Store) : Type 0 where
    pub file : t.file ≡ s.file
    pub unknown : t.durability_unknown ≡ s.durability_unknown

  pub record Extended (s t : Store) : Type 0 where
    pub fields : Fields
    pub new : Record
    pub appended : Appended sys s fields new
    pub file : t.file ≡ some (file_of sys (appended.records ++ new ∷ []))

  abbrev pub Moved : Store → Store → Type 0
  Moved s t = Same s t ⊎ Extended s t

  module _ (s : Store) where
    pub stays : Moved s s
    stays = inl (record { file = refl; unknown = refl })

    abbrev pub Moves : {A : Type 0} → Method A → Type 0
    Moves m = Spec s m (λ _. Moved s) (Moved s)

    abbrev pub Reads : {A : Type 0} → Method A → Type 0
    Reads m = Spec s m (λ _ t. t ≡ s) (Moved s)

    module _ {A : Type 0} where
      pub guard-Moves :
          (b : Bool) (e : Raised) (m : Method A) → Moves m → Moves (raise_when b e >> m)
      guard-Moves b e m h = guard-Spec s (Moved s) stays (λ _. Moved s) b e m (λ _. h)

      pub guard-Reads :
          (b : Bool) (e : Raised) (m : Method A) → Reads m → Reads (raise_when b e >> m)
      guard-Reads b e m h = guard-Spec s (Moved s) stays (λ _ t. t ≡ s) b e m (λ _. h)

      pub pure-Reads : (a : A) → Reads (pure a)
      pure-Reads a = pure-Spec s (Moved s) stays a (λ _ t. t ≡ s) refl

      pub trip-Moves : (m : Method A) → Moves m → Moves (trip sys >> m)
      trip-Moves m h = call-Spec s (Moved s) stays (λ _. Moved s) sys os_error interrupted m h

      pub known-Reads : (o : Option A) (c : JournalCode) → Reads (require_known o c)
      known-Reads none c = raise-Spec s (Moved s) stays (λ _ t. t ≡ s) (code c)
      known-Reads (some a) c = pure-Reads a

    module _ {A B : Type 0} where
      pub after-Moves :
          (m : Method A) (f : A → Method B) → Reads m → ((a : A) → Moves (f a)) → Moves (m >>= f)
      after-Moves m f h k = then-Spec s (Moved s) stays (λ _. Moved s) m f h k

      pub after-Reads :
          (m : Method A) (f : A → Method B) → Reads m → ((a : A) → Reads (f a)) → Reads (m >>= f)
      after-Reads m f h k = then-Spec s (Moved s) stays (λ _ t. t ≡ s) m f h k

    pub read-Reads : Reads (read sys)
    read-Reads = record { at = λ w e. go (read sys w) ((read-Spec sys s (Moved s) stays).at w e) }
      where
        go :
            (r : Result Raised (Integrity × List Record) × World)
            → Post (λ p. On (λ t. (t ≡ s) × (loaded sys s.file ≡ ok p))) (On (Moved s)) r
            → Post (λ _. At s) (On (Moved s)) r
        go (ok p, w) h = h.0
        go (err x, w) h = h

    pub resolve-Reads : (token : ℕ) → Reads (resolve sys token)
    unfolding resolve
    resolve-Reads token = record { at = λ w e. (go (object_at token w.store.handles)).at w e }
      where
        go :
            (o : Option Handle)
            → Reads (
                require_known o JournalCode.stale_or_foreign_attempt >>= λ h.
                raise_when
                  (not (h.issuer_pid == sys.pid))
                  (code JournalCode.foreign_process_attempt)
                >> (read sys >>= λ (integrity, records).
                    raise_when
                      (not (is_valid integrity && has_attempt h.attempt_id (last_of records)))
                      (code JournalCode.journal_reconciliation_required)
                    >> pure h))
        go o =
            after-Reads (require_known o JournalCode.stale_or_foreign_attempt) _ (known-Reads o _)
              (λ h.
                guard-Reads _ _ _ (
                  after-Reads (read sys) _ read-Reads
                    (λ (i, rs). guard-Reads _ _ _ (pure-Reads h))))

    pub read_valid-Reads : Reads (read_valid sys)
    unfolding read_valid
    read_valid-Reads =
        after-Reads (read sys) _ read-Reads (λ (i, rs). guard-Reads _ _ _ (pure-Reads rs))

    pub lift-Reads : {A : Type 0} (r : Result Raised A) → Reads (lift r)
    lift-Reads (ok a) = pure-Reads a
    lift-Reads (err e) = raise-Spec s (Moved s) stays (λ _ t. t ≡ s) e

    pub raise_when-Reads : (b : Bool) (e : Raised) → Reads (raise_when b e)
    raise_when-Reads true e = raise-Spec s (Moved s) stays (λ _ t. t ≡ s) e
    raise_when-Reads false e = pure-Reads tt

    refuse_reuse-Reads :
        (o : Option Source) (x : Option SourceState) (rs : List Record)
        → Reads (refuse_reuse sys o x rs)
    unfolding refuse_reuse
    refuse_reuse-Reads none x rs = pure-Reads tt
    refuse_reuse-Reads (some a) x rs =
        after-Reads (lift (used_before a (is_intent x) rs)) _
          (lift-Reads (used_before a (is_intent x) rs)) (λ b. raise_when-Reads b _)

    pub append-Moves : (f : Fields) → Moves (append sys f)
    append-Moves f = record { at = λ w e. go (append sys f w) ((append-Spec sys s f).at w e) }
      where
        go :
            (r : Result Raised Record × World)
            → Post (λ a. On (Returned sys s f a)) (On (Stopped sys s f)) r
            → Post (λ _. On (Moved s)) (On (Moved s)) r
        go (ok a, w) (p, h) =
            inr (record { fields = f; new = a; appended = p; file = ap (λ t. t.file) h })
        go (err x, w) (inl h) =
            inl (record { file = ap (λ t. t.file) h; unknown = ap (λ t. t.durability_unknown) h })
        go (err x, w) (inr (r, p, inl h)) =
            inr (record { fields = f; new = r; appended = p; file = ap (λ t. t.file) h })
        go (err x, w) (inr (r, p, inr h)) =
            inr (record { fields = f; new = r; appended = p; file = ap (λ t. t.file) h })

    pub transition-Moves : (token : ℕ) (t : Transition) → Moves (transition sys token t)
    unfolding transition
    transition-Moves token t = after-Moves (resolve sys token) _ (resolve-Reads token) (λ h.
        after-Moves (read_valid sys) _ read_valid-Reads (λ rs.
          after-Moves (refuse_reuse sys t.source t.source_state rs) _
            (refuse_reuse-Reads t.source t.source_state rs) (λ _. append-Moves (fields_of h t))))

    -- What comes behind the record keeps the store, but for the registries.
    pub keep-Moves :
        {A B : Type 0} (m : Method A) (f : A → Method B)
        → Moves m
        → ((a : A) (t : Store) → Moved s t → Spec t (f a) (λ _. Moved s) (Moved s))
        → Moves (m >>= f)
    keep-Moves m f h k =
        Triple-bind (At s) m (λ _. On (Moved s)) f (λ _. On (Moved s)) (On (Moved s)) h
          (λ a. record { at = λ w p. (k a w.store p).at w refl })

    pub and_trip-Moves : (m : Method Record) → Moves m → Moves (and_trip sys m)
    and_trip-Moves m h =
        keep-Moves m (λ r. trip sys >> pure r) h
          (λ r t p.
            call-Spec t (Moved s) p (λ _. Moved s) sys _ _ _
              (pure-Spec t (Moved s) p r (λ _. Moved s) p))

    pub remembered :
        (t : Store) (hs : List Handle) → Moved s t → Moved s (record t { handles = hs })
    remembered t hs (inl p) = inl (record { file = p.file; unknown = p.unknown })
    remembered t hs (inr p) =
        inr (record { fields = p.fields; new = p.new; appended = p.appended; file = p.file })
