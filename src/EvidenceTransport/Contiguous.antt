-- ===== src/EvidenceTransport/Contiguous.antt =====
-- Rows whose sequence numbers have no internal gap.
use flop_agent_intelligence.Common.{
  ℕ, ◌<◌, ◌≤◌, ◌≡◌, refl, true, false, ◌⊎◌, Option, none, some, List, [], ◌∷◌, arith,
}
use flop_agent_intelligence.EvidenceTransport.Parse.{Row, seqs, has_internal_gap, first_of, last_of}
use flop_agent_intelligence.EvidenceTransport.Acquire.{has_seq}

-- Every number between the first and the last is there.
contiguous-has_seq :
    (rows : List Row) (a b q : ℕ)
    → has_internal_gap (seqs rows) ≡ false
    → first_of (seqs rows) ≡ some a
    → last_of (seqs rows) ≡ some b
    → a ≤ q
    → q ≤ b
    → has_seq q rows ≡ true
unfolding has_internal_gap last_of has_seq
contiguous-has_seq [] a b q g f l h k = cc
contiguous-has_seq (r ∷ []) a b q g f l h k = ground arith
contiguous-has_seq (r ∷ r' ∷ rest) a b q g f l h k =
    let ih = contiguous-has_seq (r' ∷ rest) r'.seq b q in ground (arith, ih)

-- `q` is before the first number, behind the last, or there is none.
abbrev pub Outside : ℕ → Option ℕ → Option ℕ → Type 0
Outside q (some a) (some b) = (q < a) ⊎ (b < q)
Outside q _ _ = Unit

pub absent-Outside :
    (rows : List Row) (q : ℕ)
    → has_internal_gap (seqs rows) ≡ false
    → has_seq q rows ≡ false
    → Outside q (first_of (seqs rows)) (last_of (seqs rows))
absent-Outside rows q g n = go (first_of (seqs rows)) (last_of (seqs rows)) refl refl
  where
    go : (x y : Option ℕ) → first_of (seqs rows) ≡ x → last_of (seqs rows) ≡ y → Outside q x y
    go none y f l = tt
    go (some a) none f l = tt
    go (some a) (some b) f l =
        let present = contiguous-has_seq rows a b q g f l in ground (arith, present)
