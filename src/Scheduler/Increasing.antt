-- ===== src/Scheduler/Increasing.antt =====
-- Strictly increasing lists of attempts, cut to a window and extended by a new one.
use flop_agent_intelligence.Common.{
  ℕ, ◌+◌, ◌<◌, ◌≡◌, refl, true, inl, inr, List, [], ◌∷◌, ◌++◌, arith, ltb, All, Bool-cases,
}
use flop_agent_intelligence.Scheduler.Types.{daily_window}
use flop_agent_intelligence.Scheduler.Validate.{is_increasing, last_is}
use flop_agent_intelligence.Scheduler.Evaluate.{within_window}

-- Each element is below all that follow it.
abbrev Increasing : List ℕ → Type 0
Increasing [] = Unit
Increasing (x ∷ xs) = All (λ y. x < y) xs × Increasing xs

All-weaken : (x y : ℕ) (xs : List ℕ) → x < y → All (λ z. y < z) xs → All (λ z. x < z) xs
All-weaken x y [] h a = tt
All-weaken x y (z ∷ zs) h (hz, hs) = (omega arith, All-weaken x y zs h hs)

to_Increasing : (xs : List ℕ) → is_increasing xs ≡ true → Increasing xs
unfolding is_increasing
to_Increasing [] h = tt
to_Increasing (x ∷ []) h = (tt, tt)
to_Increasing (x ∷ y ∷ ys) h =
    let rest = to_Increasing (y ∷ ys) (ground arith) in
    ((ground arith, All-weaken x y ys (ground arith) rest.0), rest)

of_Increasing : (xs : List ℕ) → Increasing xs → is_increasing xs ≡ true
unfolding is_increasing
of_Increasing [] h = refl
of_Increasing (x ∷ []) h = refl
of_Increasing (x ∷ y ∷ ys) ((hx, _), hs) = ground (arith, of_Increasing (y ∷ ys) hs)

pub All-within_lem {κ} :
    (P : ℕ → Type κ) (now : ℕ) (xs : List ℕ) → All P xs → All P (within_window now xs)
unfolding within_window
All-within_lem P now [] h = tt
All-within_lem P now (x ∷ xs) (hx, hs) = elim (Bool-cases (ltb now (x + daily_window))) [
  | inl e ↦ rw e (hx, All-within_lem P now xs hs)
  | inr e ↦ rw e (All-within_lem P now xs hs)
]

within-Increasing : (now : ℕ) (xs : List ℕ) → Increasing xs → Increasing (within_window now xs)
unfolding within_window
within-Increasing now [] h = tt
within-Increasing now (x ∷ xs) (hx, hs) = elim (Bool-cases (ltb now (x + daily_window))) [
  | inl e ↦ rw e (All-within_lem (λ y. x < y) now xs hx, within-Increasing now xs hs)
  | inr e ↦ rw e (within-Increasing now xs hs)
]

All-snoc {κ} : (P : ℕ → Type κ) (xs : List ℕ) (t : ℕ) → All P xs → P t → All P (xs ++ t ∷ [])
All-snoc P [] t h ht = (ht, tt)
All-snoc P (x ∷ xs) t (hx, hs) ht = (hx, All-snoc P xs t hs ht)

snoc-Increasing :
    (xs : List ℕ) (t : ℕ) → Increasing xs → All (λ x. x < t) xs → Increasing (xs ++ t ∷ [])
snoc-Increasing [] t h b = (tt, tt)
snoc-Increasing (x ∷ xs) t (hx, hs) (bx, bs) =
    (All-snoc (λ y. x < y) xs t hx bx, snoc-Increasing xs t hs bs)

-- In an increasing list all elements are at most the last one.
pub le_last :
    (xs : List ℕ) (last t : ℕ)
    → is_increasing xs ≡ true
    → last_is xs last ≡ true
    → last < t
    → All (λ x. x < t) xs
unfolding is_increasing
le_last [] last t i l h = tt
le_last (x ∷ []) last t i l h = (ground arith, tt)
le_last (x ∷ y ∷ ys) last t i l h =
    let rest = le_last (y ∷ ys) last t (ground arith) l h in (ground arith, rest)

-- The recent attempts and a later instant increase again.
pub within-increasing :
    (now : ℕ) (xs : List ℕ) (t : ℕ)
    → is_increasing xs ≡ true
    → All (λ x. x < t) xs
    → is_increasing (within_window now xs ++ t ∷ []) ≡ true
within-increasing now xs t i b = of_Increasing (within_window now xs ++ t ∷ []) (
    snoc-Increasing _ t (within-Increasing now xs (to_Increasing xs i))
      (All-within_lem (λ x. x < t) now xs b))

pub last_is-snoc : (xs : List ℕ) (t : ℕ) → last_is (xs ++ t ∷ []) t ≡ true
last_is-snoc [] t = ground arith
last_is-snoc (x ∷ []) t = ground arith
last_is-snoc (x ∷ y ∷ ys) t = last_is-snoc (y ∷ ys) t
