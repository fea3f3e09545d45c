-- ===== src/Yellowpaper/Taken.antt =====
-- `take` and its kin on bytes that are joined, and what they have cut off.
use mathlib.Core.Path.{subst}
use mathlib.Core.List.{append-nil}
use flop_agent_intelligence.Common.{
  ℕ, zero, suc, ◌≤◌, ◌≡◌, refl, ap, Bool, true, false, not, List, [], ◌∷◌, ◌++◌, ltb, if◌then◌else◌,
  length, arith,
}
use flop_agent_intelligence.Common.Result.{Result, ok, err, >>=-eq-ok, ok-injective}
use flop_agent_intelligence.Yellowpaper.Arguments.{WireError}
use flop_agent_intelligence.Yellowpaper.Policy.{
  cons_taken, take, skip, take_one, skip_if, is_version_one, is_empty,
}

pub take-append : (n : ℕ) (xs ys : List ℕ) → length xs ≡ n → take n (xs ++ ys) ≡ ok (xs, ys)
unfolding take
take-append zero [] ys h = refl
take-append zero (x ∷ xs) ys h = cc
take-append (suc n) [] ys h = cc
take-append (suc n) (x ∷ xs) ys h = ap (cons_taken x) (take-append n xs ys (omega (arith, h)))

pub record Taken (n : ℕ) (raw xs ys : List ℕ) : Type 0 where
  pub raw_is : raw ≡ xs ++ ys
  pub size : length xs ≡ n

pub take-Taken : (n : ℕ) (raw xs ys : List ℕ) → take n raw ≡ ok (xs, ys) → Taken n raw xs ys
unfolding take
take-Taken zero raw xs ys h =
    subst (λ p. Taken zero raw p.0 p.1) (ok-injective h) (record { raw_is = refl; size = refl })
take-Taken (suc n) [] xs ys h = cc
take-Taken (suc n) (b ∷ raw) xs ys h = go (take n raw) refl (take-Taken n raw) h
  where
    go :
        (r : Result WireError (List ℕ × List ℕ))
        → take n raw ≡ r
        → ((us vs : List ℕ) → take n raw ≡ ok (us, vs) → Taken n raw us vs)
        → cons_taken b r ≡ ok (xs, ys)
        → Taken (suc n) (b ∷ raw) xs ys
    go (err e) q ih e2 = cc
    go (ok (us, vs)) q ih e2 =
        let t = ih us vs q in
        subst (λ p. Taken (suc n) (b ∷ raw) p.0 p.1) (ok-injective e2)
          (record { raw_is = ap (λ (l : List ℕ). b ∷ l) t.raw_is; size = ap suc t.size })

pub skip-Taken : (n : ℕ) (raw ys : List ℕ) → skip n raw ≡ ok ys → (xs : List ℕ) × Taken n raw xs ys
skip-Taken n raw ys h =
    let ((us, vs), q, e) = >>=-eq-ok (take n raw) _ h in
    (us, subst (λ v. Taken n raw us v) (ok-injective e) (take-Taken n raw us vs q))

pub skip_if-Taken :
    (b : Bool) (n : ℕ) (raw ys : List ℕ)
    → skip_if b n raw ≡ ok ys
    → (xs : List ℕ) × Taken (if b then n else 0) raw xs ys
skip_if-Taken true n raw ys h = skip-Taken n raw ys h
skip_if-Taken false n raw ys h = ([], record { raw_is = ok-injective h; size = refl })

pub skip-append : (n : ℕ) (xs ys : List ℕ) → length xs ≡ n → skip n (xs ++ ys) ≡ ok ys
skip-append n xs ys h = rw (take-append n xs ys h) refl

pub skip-all : (n : ℕ) (xs : List ℕ) → length xs ≡ n → skip n xs ≡ ok []
skip-all n xs h = subst (λ v. skip n v ≡ ok []) (append-nil xs) (skip-append n xs [] h)

pub skip_if-append :
    (b : Bool) (n : ℕ) (xs ys : List ℕ)
    → length xs ≡ (if b then n else 0)
    → skip_if b n (xs ++ ys) ≡ ok ys
skip_if-append true n xs ys h = skip-append n xs ys h
skip_if-append false n [] ys h = refl
skip_if-append false n (x ∷ xs) ys h = cc

pub take_one-cons :
    (raw : List ℕ) (b : ℕ) (rest : List ℕ) → take_one raw ≡ ok (b, rest) → raw ≡ b ∷ rest
unfolding take_one
take_one-cons [] b rest h = cc
take_one-cons (c ∷ raw) b rest h = ap (λ p. p.0 ∷ p.1) (ok-injective h)

pub version-is : (xs : List ℕ) → not (is_version_one xs) ≡ false → xs ≡ 1 ∷ 0 ∷ []
version-is [] h = cc
version-is (a ∷ []) h = cc
version-is (a ∷ b ∷ c ∷ xs) h = cc
version-is (a ∷ b ∷ []) h = let p : a ≡ 1 = ground arith in let q : b ≡ 0 = ground arith in cc

pub empty-is : (xs : List ℕ) → not (is_empty xs) ≡ false → xs ≡ []
empty-is [] h = refl
empty-is (x ∷ xs) h = cc

pub below : (a b : ℕ) → ltb a b ≡ false → b ≤ a
below a b h = ground arith

pub not-below : (a b : ℕ) → b ≤ a → ltb a b ≡ false
not-below a b h = ground arith
