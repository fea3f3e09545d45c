-- ===== src/ObservationJournal/Calls.antt =====
-- Pre- and postconditions of the parts of the journal's methods: calls of the operating system,
-- guards, the loop of writes, `except` and `finally`.
use mathlib.Core.Path.{subst}
use flop_agent_intelligence.Common.{
  ℕ, zero, suc, ◌-◌, ◌≡◌, refl, sym, Bool, true, false, ltb, ◌==◌, if◌then◌else◌,
}
use flop_agent_intelligence.Common.Result.{Result, ok, err}
use flop_agent_intelligence.Common.Exec.{pure, raise, lift, raise_when, resume, ◌>>=◌, ◌>>◌}
use flop_agent_intelligence.Common.Triple.{Triple, Post, Triple-bind}
use flop_agent_intelligence.ObservationJournal.Types.{
  Raised, JournalCode, os_error, type_error, assertion_error, interrupted, journal_error,
}
use flop_agent_intelligence.ObservationJournal.Store.{
  except_os_error, call, write_from, unlink_temporary, finally_unlink, trip,
}
use flop_agent_intelligence.ObservationJournal.State.{
  System, Answer, works, fails, unexpected, stops, Store, World, Method, answered, handled, code,
}

-- Properties of the store, as properties of the world.
abbrev pub On : (Store → Type 0) → World → Type 0
On P w = P w.store

abbrev pub At : Store → World → Type 0
At s w = w.store ≡ s

abbrev pub Spec : {A : Type 0} → Store → Method A → (A → Store → Type 0) → (Store → Type 0) → Type 0
Spec s m Q R = Triple (At s) m (λ a. On (Q a)) (On R)

module _ (s : Store) (R : Store → Type 0) (weaken : R s) where
  at-weaken : (w : World) → At s w → R w.store
  at-weaken w h = subst R (sym h) weaken

  pub pure-Spec : {A : Type 0} (a : A) (Q : A → Store → Type 0) → Q a s → Spec s (pure a) Q R
  pure-Spec a Q q = record { at = λ w h. subst (Q a) (sym h) q }

  module _ {A : Type 0} (Q : A → Store → Type 0) where
    pub raise-Spec : (e : Raised) → Spec s (raise e) Q R
    raise-Spec e = record { at = at-weaken }

    pub guard-Spec :
        (b : Bool) (e : Raised) (m : Method A)
        → (b ≡ false → Spec s m Q R)
        → Spec s (raise_when b e >> m) Q R
    unfolding ◌>>=◌
    guard-Spec true e m h = record { at = at-weaken }
    guard-Spec false e m h = record { at = (h refl).at }

    pub lift-Spec :
        {B : Type 0} (r : Result Raised B) (f : B → Method A)
        → ((b : B) → r ≡ ok b → Spec s (f b) Q R)
        → Spec s (lift r >>= f) Q R
    unfolding ◌>>=◌
    lift-Spec (ok b) f h = record { at = (h b refl).at }
    lift-Spec (err e) f h = record { at = at-weaken }

    module _ (sys : System) where
      pub call-Spec : (a b : Raised) (m : Method A) → Spec s m Q R → Spec s (call sys a b >> m) Q R
      unfolding ◌>>=◌ call
      call-Spec a b m h = record { at = λ w e. go w e (sys.answers w.calls) }
        where
          go :
              (w : World)
              → At s w
              → (x : Answer)
              → Post
                  (λ a. On (Q a))
                  (On R)
                  (resume (answered x a b) (record w { calls = suc w.calls }) (λ _. m))
          go w e works = h.at (record w { calls = suc w.calls }) e
          go w e fails = at-weaken w e
          go w e unexpected = at-weaken w e
          go w e stops = at-weaken w e

module _ {A : Type 0} (s : Store) (Q : A → Store → Type 0) (R : Store → Type 0) where
  -- `R` holds where the inner method raises, `R'` where the handled one does.
  pub except-Spec :
      (R' : Store → Type 0) (then_do : World → World) (c : JournalCode) (m : Method A)
      → ((t : Store) → R t → R' t)
      → ((w : World) → R w.store → R' (then_do w).store)
      → Spec s m Q R
      → Spec s (except_os_error then_do c m) Q R'
  unfolding except_os_error
  except-Spec R' then_do c m pass keep h = record { at = λ w e. go (m w) (h.at w e) }
    where
      go :
          (r : Result Raised A × World)
          → Post (λ a. On (Q a)) (On R) r
          → Post (λ a. On (Q a)) (On R') (handled then_do c r)
      go (ok a, w) p = p
      go (err os_error, w) p = keep w p
      go (err (journal_error d), w) p = pass w.store p
      go (err type_error, w) p = pass w.store p
      go (err assertion_error, w) p = pass w.store p
      go (err interrupted, w) p = pass w.store p

  pub finally-Spec :
      (sys : System) (m : Method A) → Spec s m Q R → Spec s (finally_unlink sys m) Q R
  unfolding finally_unlink unlink_temporary
  finally-Spec sys m h = record { at = λ w e. go (m w) (h.at w e) }
    where
      go :
          (r : Result Raised A × World)
          → Post (λ a. On (Q a)) (On R) r
          → Post (λ a. On (Q a)) (On R) (let (x, w') = r in (x, unlink_temporary sys w'))
      go (ok a, w) p = p
      go (err e, w) p = p

-- A part that leaves the store alone.
module _ (s : Store) (R : Store → Type 0) (weaken : R s) where
  abbrev pub Same : {A : Type 0} → Method A → Type 0
  Same m = Spec s m (λ _ t. t ≡ s) R

  pub then-Spec :
      {A B : Type 0} (Q : B → Store → Type 0) (m : Method A) (f : A → Method B)
      → Spec s m (λ _ t. t ≡ s) R
      → ((a : A) → Spec s (f a) Q R)
      → Spec s (m >>= f) Q R
  then-Spec Q m f h k = Triple-bind (At s) m (λ _. At s) f (λ b. On (Q b)) (On R) h k

  pub call-Same : (sys : System) (a b : Raised) → Spec s (call sys a b) (λ _ t. t ≡ s) R
  unfolding call
  call-Same sys a b = record { at = λ w e. go w e (sys.answers w.calls) }
    where
      go :
          (w : World)
          → At s w
          → (x : Answer)
          → Post (λ _. At s) (On R) (answered x a b, record w { calls = suc w.calls })
      go w e works = e
      go w e fails = subst R (sym e) weaken
      go w e unexpected = subst R (sym e) weaken
      go w e stops = subst R (sym e) weaken

  -- One round of the loop, with what comes behind it.
  abbrev round : System → ℕ → Method (Unit {0}) → Method (Unit {0})
  round sys n next =
      call sys os_error (code JournalCode.short_write)
      >> (raise_when (n == 0) (code JournalCode.short_write) >> (trip sys >> next))

  round-Same :
      (sys : System) (n : ℕ) (next : Method (Unit {0})) → Same next → Same (round sys n next)
  round-Same sys n next h =
      call-Spec s R weaken (λ _ t. t ≡ s) sys os_error (code JournalCode.short_write) _
        (guard-Spec s R weaken (λ _ t. t ≡ s) (n == 0) (code JournalCode.short_write) _
          (λ _. call-Spec s R weaken (λ _ t. t ≡ s) sys os_error interrupted _ h))

  pub write_from-Same : (sys : System) (fuel remaining : ℕ) → Same (write_from sys fuel remaining)
  unfolding write_from
  write_from-Same sys zero remaining = record { at = λ w e. go w e (ltb 0 remaining) }
    where
      go :
          (w : World)
          → At s w
          → (b : Bool) → Post (λ _. At s) (On R) (raise_when b (code JournalCode.short_write) w)
      go w e true = subst R (sym e) weaken
      go w e false = e
  write_from-Same sys (suc fuel) remaining = record {
    at = λ w e.
        go
          (λ n.
            round-Same sys n (write_from sys fuel (remaining - n))
              (write_from-Same sys fuel (remaining - n)))
          w e (sys.written w.calls) (remaining == 0);
  }
    where
      go :
          ((n : ℕ) → Same (round sys n (write_from sys fuel (remaining - n))))
          → (w : World) → At s w
          → (n : ℕ) (b : Bool)
          → Post
              (λ _. At s)
              (On R)
              ((if b then pure tt else round sys n (write_from sys fuel (remaining - n))) w)
      go h w e n true = e
      go h w e n false = (h n).at w e

  -- What a part that leaves the store alone has found out.
  pub learn-Spec :
      {A B : Type 0} (F : A → Type 0) (Q : B → Store → Type 0) (m : Method A) (f : A → Method B)
      → Spec s m (λ a t. (t ≡ s) × F a) R
      → ((a : A) → F a → Spec s (f a) Q R)
      → Spec s (m >>= f) Q R
  learn-Spec F Q m f h k =
      Triple-bind (At s) m (λ a. On (λ t. (t ≡ s) × F a)) f (λ b. On (Q b)) (On R) h
        (λ a. record { at = λ w p. (k a p.1).at w p.0 })
