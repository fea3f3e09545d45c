-- ===== src/WireEvidence/Export.antt =====
-- `assess_export` of wire_evidence.py after its loop.
use Prim.Native.String.{String}
use text.Mathlib.Text.{◌==◌ as str_eq}
use flop_agent_intelligence.Common.{
  ℕ, ◌+◌, Bool, true, false, not, ◌||◌, Option, none, some, List, [], ◌∷◌, ◌++◌, map, ltb, ◌==◌,
  if◌then◌else◌, length,
}
use flop_agent_intelligence.Common.Result.{Result, ok, ◌>>=◌, ◌>>◌, raise_if}
use flop_agent_intelligence.WireEvidence.Types.{
  max_export_records, EvidenceStatus, export_acquired, transcript_completeness_unverified,
  transcript_struct_valid, transcript_invalid, ExportSourceKind, WireError, export_size_invalid,
  export_utf8_invalid,
}
use flop_agent_intelligence.WireEvidence.Scan.{
  Issue, Line, Scan, Venue, distinct, duplicate_sequence, first_bound_mismatch,
  generation_inconsistent, has_structural, last_bound_mismatch, scan, sequence_gap,
  sequence_reversal,
}

abbrev pub sequences : List Venue → List ℕ
sequences venue = map (λ (v : Venue). v.seq) venue

unfoldable pub is_among : ℕ → List ℕ → Bool
is_among n [] = false
is_among n (m ∷ ms) = n == m || is_among n ms

-- `len(sequences) != len(set(sequences))`
unfoldable pub has_duplicate : List ℕ → Bool
has_duplicate [] = false
has_duplicate (n ∷ ns) = is_among n ns || has_duplicate ns

unfoldable pub has_reversal : List ℕ → Bool
has_reversal [] = false
has_reversal (a ∷ []) = false
has_reversal (a ∷ b ∷ rest) = ltb b a || has_reversal (b ∷ rest)

unfoldable pub insert : ℕ → List ℕ → List ℕ
insert n [] = n ∷ []
insert n (m ∷ ms) =
    let rest = insert n ms in if ltb n m then n ∷ m ∷ ms else if n == m then m ∷ ms else m ∷ rest

-- `sorted(set(sequences))`
unfoldable pub sort_distinct : List ℕ → List ℕ
sort_distinct [] = []
sort_distinct (n ∷ ns) = insert n (sort_distinct ns)

unfoldable pub has_gap : List ℕ → Bool
has_gap [] = false
has_gap (a ∷ []) = false
has_gap (a ∷ b ∷ rest) = ltb (a + 1) b || has_gap (b ∷ rest)

-- The generations that were found, and whether they differ from a text.
abbrev pub has_other : String → List Venue → Bool
has_other g [] = false
has_other g (v ∷ venue) = elim v.generation [
  | none ↦ has_other g venue
  | some g' ↦ not (str_eq g' g) || has_other g venue
]

unfoldable pub is_varied : List Venue → Bool
is_varied [] = false
is_varied (v ∷ venue) = elim v.generation [ none ↦ is_varied venue | some g ↦ has_other g venue ]

abbrev pub differs : Option String → List Venue → Bool
differs none venue = false
differs (some g) venue = has_other g venue

unfoldable pub first_seq : List ℕ → Option ℕ
first_seq [] = none
first_seq (n ∷ _) = some n

unfoldable pub last_seq : List ℕ → Option ℕ
last_seq [] = none
last_seq (n ∷ []) = some n
last_seq (n ∷ m ∷ ms) = last_seq (m ∷ ms)

-- A bound that the acquisition claims: none, the text of a number, or another text.
pub data ClaimedBound : Type 0 where
  unclaimed other_text : ClaimedBound
  claimed : ℕ → ClaimedBound

abbrev pub misses : ClaimedBound → Option ℕ → Bool
misses unclaimed found = false
misses other_text found = true
misses (claimed n) none = true
misses (claimed n) (some m) = not (n == m)

abbrev pub issue_if : Bool → Issue → List Issue
issue_if true i = i ∷ []
issue_if false i = []

pub record ExportClaims : Type 0 where
  pub first : ClaimedBound
  pub last : ClaimedBound
  pub truncation_indicated : Bool

abbrev pub all_issues : Option String → ExportClaims → Scan → List Issue
all_issues generation claims s =
    let ns = sequences s.venue in
    s.issues
    ++ (issue_if (has_duplicate ns) duplicate_sequence
        ++ (issue_if (has_reversal ns) sequence_reversal
            ++ (issue_if (has_gap (sort_distinct ns)) sequence_gap
                ++ (issue_if (is_varied s.venue || differs generation s.venue)
                      generation_inconsistent
                    ++ (issue_if claims.truncation_indicated Issue.truncation_indicated
                        ++ (issue_if (misses claims.first (first_seq ns)) first_bound_mismatch
                            ++ (issue_if (misses claims.last (last_seq ns))
                                last_bound_mismatch)))))))

pub record Assessment : Type 0 where
  pub acquisition_status : EvidenceStatus
  pub structure_status : EvidenceStatus
  pub completeness_status : EvidenceStatus
  pub records : ℕ
  pub first : Option ℕ
  pub last : Option ℕ
  pub issues : List Issue
  pub venue : List Venue

pub record Export : Type 0 where
  pub source_kind : ExportSourceKind
  pub generation : Option String
  pub is_utf8 : Bool
  pub lines : List Line

unfoldable pub assessment : Export → ExportClaims → Scan → Assessment
assessment e claims s =
    let issues = all_issues e.generation claims s in
    record {
      acquisition_status = export_acquired;
      structure_status =
          if has_structural issues then transcript_invalid else transcript_struct_valid;
      completeness_status = transcript_completeness_unverified;
      records = length s.venue;
      first = first_seq (sequences s.venue);
      last = last_seq (sequences s.venue);
      issues = distinct issues;
      venue = s.venue;
    }

unfoldable pub assess_export : Export → ExportClaims → Result WireError Assessment
assess_export e claims = do
  raise_if (not e.is_utf8) export_utf8_invalid
  raise_if (ltb max_export_records (length e.lines)) export_size_invalid
  s ← scan e.source_kind e.lines
  ok (assessment e claims s)
