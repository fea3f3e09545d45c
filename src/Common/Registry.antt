-- ===== src/Common/Registry.antt =====
-- Registries of the objects that a service has made: a handle is the number of the objects before
-- it, and what a caller made itself has none.
use mathlib.Core.Path.{◌≡◌, subst}
use mathlib.Core.Bool.{Bool, true, false}
use mathlib.Core.Option.{Option, none, some}
use mathlib.Core.List.{List, [], ◌∷◌}
use Prim.Native.Nat.{ℕ, ◌<◌}
use native.Mathlib.Omega.{arith}
use flop_agent_intelligence.Common.Tests.{◌==◌, if◌then◌else◌}
use flop_agent_intelligence.Common.Lists.{length, All}

module _ {ℓ} {A : Type ℓ} where
  -- The object of a handle; the newest object stands first.
  unfoldable pub object_at : ℕ → List A → Option A
  object_at h [] = none
  object_at h (x ∷ xs) = if h == length xs then some x else object_at h xs

  pub object_at-lt : (h : ℕ) (xs : List A) (x : A) → object_at h xs ≡ some x → h < length xs
  unfolding object_at
  object_at-lt h [] x e = ground arith
  object_at-lt h (y ∷ ys) x e = ground (arith, object_at-lt h ys x)

  -- A new object leaves the others where they are.
  pub object_at-grow :
      (h : ℕ) (xs : List A) (x y : A) → object_at h xs ≡ some x → object_at h (y ∷ xs) ≡ some x
  unfolding object_at
  object_at-grow h xs x y e = ground (arith, object_at-lt h xs x e)

  pub object_at-All {κ} :
      (P : A → Type κ) (h : ℕ) (xs : List A) (x : A) → All P xs → object_at h xs ≡ some x → P x
  unfolding object_at
  object_at-All P h [] x a e = cc
  object_at-All P h (y ∷ ys) x a e = go (h == length ys) e (object_at-All P h ys x a.1)
    where
      go :
          (b : Bool)
          → (if b then some y else object_at h ys) ≡ some x
          → (object_at h ys ≡ some x → P x)
          → P x
      go true e ih = let q : y ≡ x = cc e in subst P q a.0
      go false e ih = ih e
