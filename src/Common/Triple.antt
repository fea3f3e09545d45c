-- ===== src/Common/Triple.antt =====
-- Pre- and postconditions of methods: `Q` after a return, `R` after a raise.
use mathlib.Core.Path.{◌≡◌, refl, ◌∙◌}
use mathlib.Core.Bool.{Bool, true, false}
use flop_agent_intelligence.Common.Result.{Result, ok, err}
use flop_agent_intelligence.Common.Exec.{Exec, pure, raise_when, resume, ◌>>=◌}

module _ {S E A : Type 0} where
  abbrev pub Post : (A → S → Type 0) → (S → Type 0) → Result E A × S → Type 0
  Post Q R (ok a, s) = Q a s
  Post Q R (err e, s) = R s

  pub record Triple (P : S → Type 0) (m : Exec S E A) (Q : A → S → Type 0) (R : S → Type 0)
      : Type 0 where
    pub at : (s : S) → P s → Post Q R (m s)

  Post-cases :
      (Q : A → S → Type 0) (R : S → Type 0) (r : Result E A × S)
      → ((a : A) → r.0 ≡ ok a → Q a r.1)
      → R r.1
      → Post Q R r
  Post-cases Q R (ok a, s) q h = q a refl
  Post-cases Q R (err e, s) q h = h

  -- A method that leaves the state alone; the result is known after it.
  pub Triple-reads :
      (P R : S → Type 0) (m : Exec S E A)
      → ((s : S) → (m s).1 ≡ s)
      → ((s : S) → P s → R s)
      → Triple P m (λ a s. P s × ((m s).0 ≡ ok a)) R
  Triple-reads P R m same weaken = record {
    at = λ s h.
        Post-cases (λ a s. P s × ((m s).0 ≡ ok a)) R (m s) (λ a e. (rw (same s) h, rw (same s) e))
          (rw (same s) (weaken s h));
  }

  pub Triple-steady :
      (P R : S → Type 0) (m : Exec S E A)
      → ((s : S) → (m s).1 ≡ s)
      → ((s : S) → P s → R s)
      → Triple P m (λ _. P) R
  Triple-steady P R m same weaken = record {
    at = λ s h. Post-cases (λ _. P) R (m s) (λ a e. rw (same s) h) (rw (same s) (weaken s h));
  }

  pub Triple-pure : (P R : S → Type 0) (a : A) → Triple P (pure {E = E} a) (λ _. P) R
  Triple-pure P R a = record { at = λ s h. h }

module _ {S E A B : Type 0} where
  pub Triple-bind :
      (P : S → Type 0) (m : Exec S E A) (Q : A → S → Type 0) (f : A → Exec S E B)
      (Q' : B → S → Type 0) (R : S → Type 0)
      → Triple P m Q R
      → ((a : A) → Triple (Q a) (f a) Q' R)
      → Triple P (m >>= f) Q' R
  unfolding ◌>>=◌
  Triple-bind P m Q f Q' R hm hf = record { at = λ s h. go (m s) (hm.at s h) }
    where
      go : (r : Result E A × S) → Post Q R r → Post Q' R (let (x, s') = r in resume x s' f)
      go (ok a, s) h = (hf a).at s h
      go (err e, s) h = h

-- `m` leaves the state alone.
abbrev pub IsSteady : {S E A : Type 0} → Exec S E A → Type 0
IsSteady {S} m = (s : S) → (m s).1 ≡ s

module _ {S E : Type 0} where
  pub IsSteady-raise_when : (b : Bool) (e : E) → IsSteady (raise_when {S = S} b e)
  IsSteady-raise_when true e s = refl
  IsSteady-raise_when false e s = refl

module _ {S E A B : Type 0} where
  pub IsSteady-bind :
      (m : Exec S E A) (f : A → Exec S E B)
      → IsSteady m
      → ((a : A) → IsSteady (f a))
      → IsSteady (m >>= f)
  unfolding ◌>>=◌
  IsSteady-bind m f hm hf s = go (m s) (hm s)
    where
      go : (r : Result E A × S) → r.1 ≡ s → (let (x, s') = r in resume x s' f).1 ≡ s
      go (ok a, s') e = hf a s' ∙ e
      go (err x, s') e = e
