-- ===== src/EvidenceTransport/Reconcile.antt =====
-- `reconcile` of `EvidenceTransportService` in evidence_transport.py: what two snapshots agree on.
use Prim.Native.String.{String}
use text.Mathlib.Text.{◌==◌ as str_eq}
use flop_agent_intelligence.Common.{
  ℕ, Bool, true, false, not, ◌&&◌, ◌||◌, Option, none, some, List, [], ◌∷◌, ◌==◌, if◌then◌else◌,
}
use flop_agent_intelligence.Common.Text.{same_text}
use flop_agent_intelligence.Common.Exec.{pure, ◌>>=◌}
use flop_agent_intelligence.EvidenceTransport.Types.{
  Transport, Completeness, complete_verified, FindingStatus, found, not_in_visible_page,
  not_found_confirmed, AcquisitionSource, EvidenceSnapshot,
}
use flop_agent_intelligence.EvidenceTransport.Parse.{Row}
use flop_agent_intelligence.EvidenceTransport.Store.{Entry}
use flop_agent_intelligence.EvidenceTransport.Acquire.{has_seq}
use flop_agent_intelligence.EvidenceTransport.Service.{Service, require_snapshot, finding_of}

pub data ConflictKind : Type 0 where
  provenance_conflict generation_conflict content_conflict recovery_evidence : ConflictKind
  completeness_conflict consistent : ConflictKind

pub record Root : Type 0 where
  pub acquisition_id : String
  pub snapshot_hash : String
  pub source : AcquisitionSource
  pub transport : Transport
  pub generation : Option String
  pub first_seq : Option ℕ
  pub last_seq : Option ℕ

pub record ConflictResult : Type 0 where
  pub is_conflicting : Bool
  pub kind : ConflictKind
  pub target_seq : Option ℕ
  pub left_root : Root
  pub right_root : Root
  pub left_finding : Option FindingStatus
  pub right_finding : Option FindingStatus
  pub differs_in_finding : Bool
  pub differs_in_completeness : Bool
  pub differs_in_provenance : Bool
  pub differs_in_generation : Bool
  pub differs_in_content : Bool

abbrev pub finding_number : FindingStatus → ℕ
finding_number found = 0
finding_number not_in_visible_page = 1
finding_number FindingStatus.gap_unresolved = 2
finding_number FindingStatus.history_gap = 3
finding_number FindingStatus.retention_loss_confirmed = 4
finding_number not_found_confirmed = 5

abbrev pub completeness_number : Completeness → ℕ
completeness_number complete_verified = 0
completeness_number Completeness.partial = 1
completeness_number Completeness.unknown = 2
completeness_number Completeness.conflicting = 3

abbrev pub same_finding : Option FindingStatus → Option FindingStatus → Bool
same_finding none none = true
same_finding (some a) (some b) = finding_number a == finding_number b
same_finding _ _ = false

abbrev pub same_completeness : Completeness → Completeness → Bool
same_completeness a b = completeness_number a == completeness_number b

-- `content[seq]`: of two rows with one sequence number the later one counts.
unfoldable pub content_at : ℕ → List Row → Option String
content_at q [] = none
content_at q (r ∷ rows) = elim (content_at q rows) [
  | some hash ↦ some hash
  | none ↦ if r.seq == q then some r.hash else none
]

-- `any(left_content[seq] != right_content[seq] for seq in common)`
unfoldable pub has_content_conflict : List Row → List Row → List Row → Bool
has_content_conflict [] left right = false
has_content_conflict (r ∷ rows) left right =
    (has_seq r.seq right && not (same_text (content_at r.seq left) (content_at r.seq right)))
    || has_content_conflict rows left right

abbrev pub root_of : EvidenceSnapshot → Root
root_of s = record {
  acquisition_id = s.acquisition_id;
  snapshot_hash = s.snapshot_hash;
  source = s.acquisition_source;
  transport = s.transport;
  generation = s.generation;
  first_seq = s.first_seq;
  last_seq = s.last_seq;
}

abbrev pub target_finding : Entry → Option ℕ → Option FindingStatus
target_finding e none = none
target_finding e (some q) = some (finding_of e.snapshot e.rows q)

abbrev pub conflict_kind : Bool → Bool → Bool → Bool → Bool → ConflictKind
conflict_kind provenance generation content finding completeness =
    if provenance
    then provenance_conflict
    else if generation
    then generation_conflict
    else if content
    then content_conflict
    else if finding
    then recovery_evidence
    else if completeness
    then completeness_conflict
    else consistent

unfoldable pub compare_entries : Entry → Entry → Option ℕ → ConflictResult
compare_entries left right target =
    let left_finding = target_finding left target in
    let right_finding = target_finding right target in
    let content = has_content_conflict left.rows left.rows right.rows in
    let generation = not (same_text left.snapshot.generation right.snapshot.generation) in
    let provenance = not (str_eq left.snapshot.room right.snapshot.room) in
    let finding = not (same_finding left_finding right_finding) in
    let completeness =
      not (same_completeness left.snapshot.completeness right.snapshot.completeness) in
    record {
      is_conflicting = provenance || generation || content || finding || completeness;
      kind = conflict_kind provenance generation content finding completeness;
      target_seq = target;
      left_root = root_of left.snapshot;
      right_root = root_of right.snapshot;
      left_finding = left_finding;
      right_finding = right_finding;
      differs_in_finding = finding;
      differs_in_completeness = completeness;
      differs_in_provenance = provenance;
      differs_in_generation = generation;
      differs_in_content = content;
    }

unfoldable pub reconcile : ℕ → ℕ → Option ℕ → Service ConflictResult
reconcile left right target = do
  l ← require_snapshot left
  r ← require_snapshot right
  pure (compare_entries l r target)
