-- ===== src/WireEvidence/Assessed.antt =====
-- What an assessment without structural issues says of the export.
use mathlib.Core.Path.{subst}
use flop_agent_intelligence.Common.{
  ◌≡◌, refl, sym, ap, ◌∙◌, Bool, true, false, not, ◌||◌, List, [], ◌∷◌, ◌++◌, ltb, if◌then◌else◌,
  arith, length, Bool-cases, inl, inr,
}
use flop_agent_intelligence.Common.Result.{ok, raise_if, >>=-eq-ok, >>-eq-ok, ok-injective}
use flop_agent_intelligence.WireEvidence.Types.{
  max_export_records, transcript_struct_valid, transcript_invalid, export_utf8_invalid,
  export_size_invalid,
}
use flop_agent_intelligence.WireEvidence.Export.{
  sequences, has_duplicate, has_reversal, sort_distinct, has_gap, is_varied, differs, issue_if,
  ExportClaims, all_issues, Assessment, Export, assessment, assess_export,
}
use flop_agent_intelligence.WireEvidence.Scan.{
  Issue, duplicate_sequence, sequence_reversal, sequence_gap, generation_inconsistent, issue_number,
  same_issue, has_issue, without, distinct, has_structural, Scan, scan,
}
use flop_agent_intelligence.WireEvidence.Transcript.{
  has_structural-append, issue_if-has_structural, scan-counts, IsRising, IsContiguous,
  checks-IsRising, sort_distinct-IsRising, has_gap-IsContiguous,
}

same_issue_trans : (a b c : Issue) → same_issue a b ≡ true → same_issue a c ≡ same_issue b c
same_issue_trans a b c h = let same : issue_number a ≡ issue_number b = ground arith in rw same refl

has_issue-without :
    (i j : Issue) (xs : List Issue)
    → same_issue i j ≡ false
    → has_issue j (without i xs) ≡ has_issue j xs
unfolding has_issue
has_issue-without i j [] h = refl
has_issue-without i j (x ∷ xs) h =
    let ih = has_issue-without i j xs h in
    elim (Bool-cases (same_issue x i)) [
      | inl e ↦ rw (e, same_issue_trans x i j e, h) ih
      | inr e ↦ rw (e, ih) refl
    ]

has_issue-distinct : (j : Issue) (xs : List Issue) → has_issue j (distinct xs) ≡ has_issue j xs
unfolding has_issue distinct
has_issue-distinct j [] = refl
has_issue-distinct j (x ∷ xs) =
    let ih = has_issue-distinct j xs in
    elim (Bool-cases (same_issue x j)) [
      | inl e ↦ rw e refl
      | inr e ↦ rw (e, has_issue-without x j (distinct xs) e) ih
    ]

has_issue-append :
    (j : Issue) (xs ys : List Issue) → has_issue j (xs ++ ys) ≡ false → has_issue j ys ≡ false
unfolding has_issue
has_issue-append j [] ys h = h
has_issue-append j (x ∷ xs) ys h = ground (arith, has_issue-append j xs ys)

has_issue-issue_if :
    (b : Bool) (i : Issue) (ys : List Issue) → has_issue i (issue_if b i ++ ys) ≡ false → b ≡ false
unfolding has_issue
has_issue-issue_if true i ys h = ground arith
has_issue-issue_if false i ys h = refl

-- What a structurally valid assessment says of the lines of an export.
pub record IsTranscript (e : Export) (a : Assessment) : Type 0 where
  pub complete : a.records ≡ length e.lines
  pub rising : IsRising (sequences a.venue)
  pub one_generation : (is_varied a.venue || differs e.generation a.venue) ≡ false
  pub contiguous : has_issue sequence_gap a.issues ≡ false → IsContiguous (sequences a.venue)

assessment-IsTranscript :
    (e : Export) (claims : ExportClaims) (s : Scan)
    → scan e.source_kind e.lines ≡ ok s
    → has_structural (all_issues e.generation claims s) ≡ false
    → IsTranscript e (assessment e claims s)
unfolding assessment
assessment-IsTranscript e claims s h v =
    let ns = sequences s.venue in
    let gap = issue_if (has_gap (sort_distinct ns)) sequence_gap in
    let varied = is_varied s.venue || differs e.generation s.venue in
    let (found, v1) = has_structural-append s.issues _ v in
    let (duplicate, v2) =
      has_structural-append (issue_if (has_duplicate ns) duplicate_sequence) _ v1 in
    let (reversal, v3) =
      has_structural-append (issue_if (has_reversal ns) sequence_reversal) _ v2 in
    let (_, v4) = has_structural-append gap _ v3 in
    let (generation, _) = has_structural-append (issue_if varied generation_inconsistent) _ v4 in
    let rising =
      checks-IsRising ns
        (issue_if-has_structural (has_duplicate ns) duplicate_sequence refl duplicate)
        (issue_if-has_structural (has_reversal ns) sequence_reversal refl reversal) in
    record {
      complete = scan-counts e.source_kind e.lines s h found;
      rising = rising;
      one_generation = issue_if-has_structural varied generation_inconsistent refl generation;
      contiguous = λ g.
          let g1 = sym (has_issue-distinct sequence_gap (all_issues e.generation claims s)) ∙ g in
          let g2 = has_issue-append sequence_gap s.issues _ g1 in
          let g3 =
            has_issue-append sequence_gap (issue_if (has_duplicate ns) duplicate_sequence) _ g2 in
          let g4 =
            has_issue-append sequence_gap (issue_if (has_reversal ns) sequence_reversal) _ g3 in
          let none_found = has_issue-issue_if (has_gap (sort_distinct ns)) sequence_gap _ g4 in
          has_gap-IsContiguous ns rising
            (subst (λ ms. has_gap ms ≡ false) (sort_distinct-IsRising ns rising) none_found);
    }

structure_status-valid :
    (e : Export) (claims : ExportClaims) (s : Scan)
    → (assessment e claims s).structure_status ≡ transcript_struct_valid
    → has_structural (all_issues e.generation claims s) ≡ false
unfolding assessment
structure_status-valid e claims s h = go (has_structural (all_issues e.generation claims s)) h
  where
    go :
        (b : Bool)
        → (if b then transcript_invalid else transcript_struct_valid) ≡ transcript_struct_valid
        → b ≡ false
    go true h = cc
    go false h = refl

-- In an export that is assessed as structurally valid every line has a sequence number, the numbers
-- rise from line to line, all generations are the same, and there is no gap between the numbers
-- unless one is reported.
pub assess_export-IsTranscript :
    (e : Export) (claims : ExportClaims) (a : Assessment)
    → assess_export e claims ≡ ok a
    → a.structure_status ≡ transcript_struct_valid
    → IsTranscript e a
unfolding assess_export
assess_export-IsTranscript e claims a h v =
    let (_, h1) = >>-eq-ok (raise_if (not e.is_utf8) export_utf8_invalid) _ h in
    let large = ltb max_export_records (length e.lines) in
    let (_, h2) = >>-eq-ok (raise_if large export_size_invalid) _ h1 in
    let (s, hs, h3) = >>=-eq-ok (scan e.source_kind e.lines) _ h2 in
    let q = ok-injective h3 in
    let valid = ap (λ (x : Assessment). x.structure_status) q ∙ v in
    subst (IsTranscript e) q
      (assessment-IsTranscript e claims s hs (structure_status-valid e claims s valid))
