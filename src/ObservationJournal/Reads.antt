-- ===== src/ObservationJournal/Reads.antt =====
-- What `read` finds in a journal, and what the lines of records read as.
use mathlib.Core.Path.{subst}
use mathlib.Core.List.{append-nil, append_assoc}
use Prim.Native.String.{String}
use flop_agent_intelligence.Common.{
  ◌≡◌, refl, sym, ap, ◌∙◌, Bool, true, false, Option, none, some, List, [], ◌∷◌, ◌++◌, map, ltb,
  if◌then◌else◌, length,
}
use flop_agent_intelligence.Common.Result.{Result, ok, err}
use flop_agent_intelligence.Common.Exec.{lift, raise_when, ◌>>=◌, ◌>>◌}
use flop_agent_intelligence.Common.Triple.{Post}
use flop_agent_intelligence.ObservationJournal.Types.{
  absent, valid, Raised, Preimage, type_error, assertion_error, os_error, journal_error,
  interrupted, Record, journal_too_large, JournalCode,
}
use flop_agent_intelligence.ObservationJournal.History.{history_valid}
use flop_agent_intelligence.ObservationJournal.Validate.{
  fields, Inspected, Chain, start, extend_by, refused, caught, check_content, inspect_chunks,
  inspect_bytes,
}
use flop_agent_intelligence.ObservationJournal.Store.{open_root, read_file, read_at, read}
use flop_agent_intelligence.ObservationJournal.State.{
  System, read_chunks, File, Store, line_of, max_bytes, code,
}
use flop_agent_intelligence.ObservationJournal.Calls.{On, Spec, pure-Spec, call-Spec}

-- What a journal file reads as.
abbrev pub loaded_file : System → File → Inspected
loaded_file sys f =
    if ltb max_bytes f.size then err (code journal_too_large) else read_chunks sys.sha256 f.chunks

abbrev pub loaded : System → Option File → Inspected
loaded sys none = ok (absent, [])
loaded sys (some f) = loaded_file sys f

-- The lines of records that are valid are read as these records.
pub inspect_chunks-valid :
    (sha256 : Preimage → String) (rs acc : List Record) (c : Chain) (x : List Record)
    → inspect_chunks sha256 (map line_of rs) c acc ≡ ok (valid, x)
    → (x ≡ acc ++ rs) × (history_valid x ≡ true)
unfolding inspect_chunks caught
inspect_chunks-valid sha256 [] acc c x h = go (history_valid acc) refl h
  where
    go :
        (b : Bool)
        → history_valid acc ≡ b
        → (if b then ok (valid, acc) else refused) ≡ ok (valid, x)
        → (x ≡ acc ++ []) × (history_valid x ≡ true)
    go true q e =
        let p : acc ≡ x = cc in
        (sym p ∙ sym (append-nil acc), subst (λ y. history_valid y ≡ true) p q)
    go false q e = cc
inspect_chunks-valid sha256 (r ∷ rs) acc c x h =
    go (check_content sha256 (fields r) c (length acc)) (ltb 256 (length (acc ++ r ∷ []))) h
      (inspect_chunks-valid sha256 rs (acc ++ r ∷ []) (extend_by c (fields r)) x)
  where
    go :
        (y : Result Raised (Unit {0})) (b : Bool)
        → caught y (
            if b
            then refused
            else inspect_chunks sha256 (map line_of rs) (extend_by c (fields r)) (acc ++ r ∷ []))
          ≡ ok (valid, x)
        → (inspect_chunks sha256 (map line_of rs) (extend_by c (fields r)) (acc ++ r ∷ [])
              ≡ ok (valid, x)
            → (x ≡ (acc ++ r ∷ []) ++ rs) × (history_valid x ≡ true))
        → (x ≡ acc ++ r ∷ rs) × (history_valid x ≡ true)
    go (ok u) true e ih = cc
    go (ok u) false e ih = let (p, q) = ih e in (p ∙ append_assoc acc (r ∷ []) rs, q)
    go (err (journal_error k)) b e ih = cc
    go (err os_error) b e ih = cc
    go (err type_error) b e ih = cc
    go (err assertion_error) b e ih = cc
    go (err interrupted) b e ih = cc

-- A candidate that is valid reads back as its records.
pub candidate-reads :
    (sha256 : Preimage → String) (rs x : List Record)
    → inspect_bytes sha256 (map line_of rs) ≡ ok (valid, x)
    → read_chunks sha256 (map line_of rs) ≡ ok (valid, rs)
unfolding inspect_bytes
candidate-reads sha256 [] x h = cc
candidate-reads sha256 (r ∷ rs) x h =
    let (p, q) = inspect_chunks-valid sha256 (r ∷ rs) [] start x h in
    subst (λ y. inspect_chunks sha256 (map line_of (r ∷ rs)) start [] ≡ ok (valid, y)) p h

module _ (sys : System) (s : Store) (R : Store → Type 0) (weaken : R s) where
  guarded-lift :
      {A : Type 0} (b : Bool) (e : Raised) (r : Result Raised A)
      → Spec s (raise_when b e >> lift r) (λ p t. (t ≡ s) × ((if b then err e else r) ≡ ok p)) R
  unfolding ◌>>=◌
  guarded-lift true e r = record { at = λ w h. subst R (sym h) weaken }
  guarded-lift false e (ok a) = record { at = λ w h. (h, refl) }
  guarded-lift false e (err x) = record { at = λ w h. subst R (sym h) weaken }

  read_file-Spec :
      (f : Option File) → Spec s (read_file sys f) (λ p t. (t ≡ s) × (loaded sys f ≡ ok p)) R
  unfolding read_file
  read_file-Spec none = pure-Spec s R weaken (absent, []) _ (refl, refl)
  read_file-Spec (some f) =
      call-Spec s R weaken _ sys os_error (code JournalCode.local_artifact_unsafe) _ (
        guarded-lift (ltb max_bytes f.size) (code journal_too_large)
          (read_chunks sys.sha256 f.chunks))

  pub read_at-Spec : Spec s (read_at sys) (λ p t. (t ≡ s) × (loaded sys s.file ≡ ok p)) R
  unfolding read_at
  read_at-Spec =
      call-Spec s R weaken _ sys (code JournalCode.local_artifact_unsafe)
        (code JournalCode.local_artifact_unsafe) _
        (record {
          at = λ w e.
              subst
                (λ f.
                  Post (λ p. On (λ t. (t ≡ s) × (loaded sys s.file ≡ ok p))) (On R)
                    (read_file sys f w))
                (sym (ap (λ t. t.file) e)) ((read_file-Spec s.file).at w e);
        })

  pub read-Spec : Spec s (read sys) (λ p t. (t ≡ s) × (loaded sys s.file ≡ ok p)) R
  unfolding read open_root
  read-Spec =
      call-Spec s R weaken _ sys (code JournalCode.journal_root_unsafe)
        (code JournalCode.journal_root_unsafe) _ read_at-Spec
