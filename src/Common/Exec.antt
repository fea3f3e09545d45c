-- ===== src/Common/Exec.antt =====
-- Methods that change a state and may raise. What was written before a raise stays written.
use mathlib.Core.Bool.{Bool, true, false}
use flop_agent_intelligence.Common.Result.{Result, ok, err}

abbrev pub Exec : Type 0 → Type 0 → Type 0 → Type 0
Exec S E A = S → Result E A × S

module _ {S E A : Type 0} where
  abbrev pub pure : A → Exec S E A
  pure a s = (ok a, s)

  abbrev pub raise : E → Exec S E A
  raise e s = (err e, s)

  -- a computation that reads the state and does not change it
  abbrev pub lift : Result E A → Exec S E A
  lift r s = (r, s)

abbrev pub modify : {S E : Type 0} → (S → S) → Exec S E (Unit {0})
modify f s = (ok tt, f s)

-- `if b: raise e`
abbrev pub raise_when : {S E : Type 0} → Bool → E → Exec S E (Unit {0})
raise_when true e s = (err e, s)
raise_when false e s = (ok tt, s)

abbrev pub resume : {S E A B : Type 0} → Result E A → S → (A → Exec S E B) → Result E B × S
resume (ok a) s f = f a s
resume (err e) s f = (err e, s)

infixl 5 ◌>>=◌ ◌>>◌
-- Shut, so that the rules of `Triple` find the parts of a `do` block.
unfoldable pub ◌>>=◌ : {S E A B : Type 0} → Exec S E A → (A → Exec S E B) → Exec S E B
◌>>=◌ m f s = let (r, s') = m s in resume r s' f

abbrev pub ◌>>◌ : {S E A B : Type 0} → Exec S E A → Exec S E B → Exec S E B
m >> k = m >>= λ _. k
