-- ===== src/WireEvidence/Scan.antt =====
-- The loop of `assess_export` in wire_evidence.py over the lines that the snapshot's bytes decode to.
use Prim.Native.String.{String}
use flop_agent_intelligence.Common.{
  ℕ, Bool, true, false, ◌||◌, Option, none, some, List, [], ◌∷◌, ◌++◌, ltb, ◌==◌, if◌then◌else◌,
}
use flop_agent_intelligence.Common.Text.{is_safe_id}
use flop_agent_intelligence.Common.Result.{Result, ok, err, ◌>>=◌}
use flop_agent_intelligence.WireEvidence.Types.{
  max_unix_ms, EvidenceStatus, venue_metadata_observed, direct_venue_observation, ExportSourceKind,
  direct_venue_snapshot, WireError, sensitive_field_rejected,
}

-- A record's `generation`: none, a value that is no safe identifier's text, or a text.
pub data Generation : Type 0 where
  absent malformed : Generation
  named : String → Generation

-- A record's `ts`: none, no natural number, or one.
pub data Time : Type 0 where
  untimed mistimed : Time
  timed : ℕ → Time

-- A line: no JSON; JSON but no object; or an object, with whether it holds a secret field, its `seq`
-- where that is a decimal natural without leading zeros, and the other two.
pub data Line : Type 0 where
  no_json no_object : Line
  object : (sensitive : Bool) (seq : Option ℕ) (generation : Generation) (ts : Time) → Line

pub data Issue : Type 0 where
  decode_invalid record_invalid seq_invalid generation_invalid time_invalid : Issue
  duplicate_sequence sequence_reversal sequence_gap generation_inconsistent : Issue
  truncation_indicated first_bound_mismatch last_bound_mismatch : Issue

abbrev pub issue_number : Issue → ℕ
issue_number decode_invalid = 0
issue_number record_invalid = 1
issue_number seq_invalid = 2
issue_number generation_invalid = 3
issue_number time_invalid = 4
issue_number duplicate_sequence = 5
issue_number sequence_reversal = 6
issue_number sequence_gap = 7
issue_number generation_inconsistent = 8
issue_number truncation_indicated = 9
issue_number first_bound_mismatch = 10
issue_number last_bound_mismatch = 11

abbrev pub same_issue : Issue → Issue → Bool
same_issue a b = issue_number a == issue_number b

unfoldable pub has_issue : Issue → List Issue → Bool
has_issue i [] = false
has_issue i (j ∷ js) = same_issue j i || has_issue i js

abbrev pub without : Issue → List Issue → List Issue
without i [] = []
without i (j ∷ js) = if same_issue j i then without i js else j ∷ without i js

-- `tuple(dict.fromkeys(issues))`
unfoldable pub distinct : List Issue → List Issue
distinct [] = []
distinct (i ∷ issues) = i ∷ without i (distinct issues)

abbrev pub is_structural : Issue → Bool
is_structural sequence_gap = false
is_structural truncation_indicated = false
is_structural first_bound_mismatch = false
is_structural last_bound_mismatch = false
is_structural _ = true

unfoldable pub has_structural : List Issue → Bool
has_structural [] = false
has_structural (i ∷ issues) = is_structural i || has_structural issues

pub record Venue : Type 0 where
  pub seq : ℕ
  pub timestamp_ms : Option ℕ
  pub generation : Option String
  pub provenance : EvidenceStatus

pub record Scan : Type 0 where
  pub issues : List Issue
  pub venue : List Venue

abbrev pub check_generation : Generation → List Issue × Option String
check_generation absent = ([], none)
check_generation malformed = (generation_invalid ∷ [], none)
check_generation (named g) = if is_safe_id g then ([], some g) else (generation_invalid ∷ [], none)

abbrev pub check_time : Time → List Issue × Option ℕ
check_time untimed = ([], none)
check_time mistimed = (time_invalid ∷ [], none)
check_time (timed t) = if ltb max_unix_ms t then (time_invalid ∷ [], none) else ([], some t)

abbrev pub provenance_of : ExportSourceKind → EvidenceStatus
provenance_of direct_venue_snapshot = direct_venue_observation
provenance_of _ = venue_metadata_observed

-- One turn of the loop: the issues it adds, and the venue metadata if the line has a sequence number.
unfoldable pub scan_line : ExportSourceKind → Line → Result WireError Scan
scan_line kind no_json = ok (record { issues = decode_invalid ∷ []; venue = [] })
scan_line kind no_object = ok (record { issues = record_invalid ∷ []; venue = [] })
scan_line kind (object true seq generation ts) = err sensitive_field_rejected
scan_line kind (object false none generation ts) =
    ok (record { issues = seq_invalid ∷ []; venue = [] })
scan_line kind (object false (some seq) generation ts) = ok (record {
  issues = (check_generation generation).0 ++ (check_time ts).0;
  venue =
      record {
        seq = seq;
        timestamp_ms = (check_time ts).1;
        generation = (check_generation generation).1;
        provenance = provenance_of kind;
      }
      ∷ [];
})

unfoldable pub scan : ExportSourceKind → List Line → Result WireError Scan
scan kind [] = ok (record { issues = []; venue = [] })
scan kind (line ∷ lines) = do
  a ← scan_line kind line
  b ← scan kind lines
  ok (record { issues = a.issues ++ b.issues; venue = a.venue ++ b.venue })
