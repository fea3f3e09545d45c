-- ===== src/WireEvidence/Transcript.antt =====
-- What a structurally valid transcript is.
use mathlib.Core.Path.{subst}
use flop_agent_intelligence.Common.{
  ℕ, suc, ◌+◌, ◌<◌, ◌≡◌, refl, sym, Bool, true, false, ◌||◌, none, some, List, [], ◌∷◌, ◌++◌, ltb,
  arith, length, length-append,
}
use flop_agent_intelligence.Common.Result.{ok, >>=-eq-ok, ok-injective}
use flop_agent_intelligence.WireEvidence.Types.{ExportSourceKind}
use flop_agent_intelligence.WireEvidence.Export.{
  is_among, has_duplicate, has_reversal, insert, sort_distinct, has_gap, issue_if,
}
use flop_agent_intelligence.WireEvidence.Scan.{
  Line, no_json, no_object, object, Issue, is_structural, has_structural, Scan, scan_line, scan,
}

pub has_structural-append :
    (xs ys : List Issue)
    → has_structural (xs ++ ys) ≡ false
    → (has_structural xs ≡ false) × (has_structural ys ≡ false)
unfolding has_structural
has_structural-append [] ys h = (refl, h)
has_structural-append (x ∷ xs) ys h = go (is_structural x) h (has_structural-append xs ys)
  where
    go :
        (b : Bool)
        → (b || has_structural (xs ++ ys)) ≡ false
        → (has_structural (xs ++ ys) ≡ false
            → (has_structural xs ≡ false) × (has_structural ys ≡ false))
        → ((b || has_structural xs) ≡ false) × (has_structural ys ≡ false)
    go true h ih = cc
    go false h ih = ih h

pub issue_if-has_structural :
    (b : Bool) (i : Issue)
    → is_structural i ≡ true
    → has_structural (issue_if b i) ≡ false
    → b ≡ false
unfolding has_structural
issue_if-has_structural true i s h = ground arith
issue_if-has_structural false i s h = refl

scan_line-counts :
    (kind : ExportSourceKind) (line : Line) (s : Scan)
    → scan_line kind line ≡ ok s
    → has_structural s.issues ≡ false
    → length s.venue ≡ 1
unfolding scan_line has_structural
scan_line-counts kind no_json s h i =
    cc (subst (λ (x : Scan). has_structural x.issues ≡ false) (sym (ok-injective h)) i)
scan_line-counts kind no_object s h i =
    cc (subst (λ (x : Scan). has_structural x.issues ≡ false) (sym (ok-injective h)) i)
scan_line-counts kind (object true seq generation ts) s h i = cc
scan_line-counts kind (object false none generation ts) s h i =
    cc (subst (λ (x : Scan). has_structural x.issues ≡ false) (sym (ok-injective h)) i)
scan_line-counts kind (object false (some seq) generation ts) s h i =
    subst (λ (x : Scan). length x.venue ≡ 1) (ok-injective h) refl

-- Every line of a scan without structural issues has a sequence number.
pub scan-counts :
    (kind : ExportSourceKind) (lines : List Line) (s : Scan)
    → scan kind lines ≡ ok s
    → has_structural s.issues ≡ false
    → length s.venue ≡ length lines
unfolding scan
scan-counts kind [] s h i = subst (λ (x : Scan). length x.venue ≡ 0) (ok-injective h) refl
scan-counts kind (line ∷ lines) s h i =
    let (a, ha, h1) = >>=-eq-ok (scan_line kind line) _ h in
    let (b, hb, h2) = >>=-eq-ok (scan kind lines) _ h1 in
    let q = ok-injective h2 in
    let (ia, ib) =
      has_structural-append a.issues b.issues
        (subst (λ (x : Scan). has_structural x.issues ≡ false) (sym q) i) in
    let na = scan_line-counts kind line a ha ia in
    let nb = scan-counts kind lines b hb ib in
    subst (λ (x : Scan). length x.venue ≡ suc (length lines)) q
      (omega (arith, length-append a.venue b.venue, na, nb))

-- Each number is smaller than the next one.
abbrev pub IsRising : List ℕ → Type 0
IsRising [] = Unit
IsRising (a ∷ []) = Unit
IsRising (a ∷ b ∷ rest) = (a < b) × IsRising (b ∷ rest)

-- Each number is one more than the one before.
abbrev pub IsContiguous : List ℕ → Type 0
IsContiguous [] = Unit
IsContiguous (a ∷ []) = Unit
IsContiguous (a ∷ b ∷ rest) = (b ≡ a + 1) × IsContiguous (b ∷ rest)

pub checks-IsRising :
    (ns : List ℕ) → has_duplicate ns ≡ false → has_reversal ns ≡ false → IsRising ns
unfolding has_duplicate has_reversal is_among
checks-IsRising [] d r = tt
checks-IsRising (a ∷ []) d r = tt
checks-IsRising (a ∷ b ∷ rest) d r =
    (ground arith, checks-IsRising (b ∷ rest) (ground arith) (ground arith))

pub sort_distinct-IsRising : (ns : List ℕ) → IsRising ns → sort_distinct ns ≡ ns
unfolding sort_distinct insert
sort_distinct-IsRising [] r = refl
sort_distinct-IsRising (a ∷ []) r = refl
sort_distinct-IsRising (a ∷ b ∷ rest) (h, r) =
    let smaller : ltb a b ≡ true = ground arith in
    let ih : insert b (sort_distinct rest) ≡ b ∷ rest = sort_distinct-IsRising (b ∷ rest) r in
    rw (ih, smaller) refl

pub has_gap-IsContiguous : (ns : List ℕ) → IsRising ns → has_gap ns ≡ false → IsContiguous ns
unfolding has_gap
has_gap-IsContiguous [] r g = tt
has_gap-IsContiguous (a ∷ []) r g = tt
has_gap-IsContiguous (a ∷ b ∷ rest) (h, r) g =
    (ground arith, has_gap-IsContiguous (b ∷ rest) r (ground arith))
