-- ===== src/EvidenceTransport/Agrees.antt =====
-- What snapshots that are reconciled as consistent have in common.
use Prim.Native.String.{String}
use mathlib.Core.Path.{subst}
use text.Mathlib.Text.{◌==◌ as str_eq}
use text.Mathlib.TextPositions.{eq_refl}
use flop_agent_intelligence.Common.{
  ℕ, ◌≡◌, refl, sym, ◌∙◌, ap, inl, inr, Bool-cases, Bool, true, false, not, ◌&&◌, ◌||◌, Option,
  none, some, List, [], ◌∷◌, ◌==◌, if◌then◌else◌, arith,
}
use flop_agent_intelligence.Common.Text.{same_text, same_text_refl, str_eq→eq}
use flop_agent_intelligence.EvidenceTransport.Types.{
  Completeness, complete_verified, FindingStatus, found, not_in_visible_page, not_found_confirmed,
}
use flop_agent_intelligence.EvidenceTransport.Parse.{Row}
use flop_agent_intelligence.EvidenceTransport.Store.{Entry}
use flop_agent_intelligence.EvidenceTransport.Acquire.{has_seq}
use flop_agent_intelligence.EvidenceTransport.Reconcile.{
  consistent, same_finding, same_completeness, content_at, has_content_conflict, target_finding,
  conflict_kind, compare_entries, finding_number, completeness_number,
}

-- What two reconciled snapshots agree on.
pub record Agrees (left right : Entry) (target : Option ℕ) : Type 0 where
  pub room : left.snapshot.room ≡ right.snapshot.room
  pub generation : left.snapshot.generation ≡ right.snapshot.generation
  pub completeness : left.snapshot.completeness ≡ right.snapshot.completeness
  pub finding : target_finding left target ≡ target_finding right target
  pub content :
      (q : ℕ)
      → has_seq q left.rows ≡ true
      → has_seq q right.rows ≡ true
      → content_at q left.rows ≡ content_at q right.rows

same_text→eq : (a b : Option String) → same_text a b ≡ true → a ≡ b
same_text→eq none none h = refl
same_text→eq (some a) (some b) h = ap some (str_eq→eq a b h)
same_text→eq none (some b) h = cc
same_text→eq (some a) none h = cc

content-agrees :
    (rows left right : List Row) (q : ℕ)
    → has_content_conflict rows left right ≡ false
    → has_seq q rows ≡ true
    → has_seq q right ≡ true
    → same_text (content_at q left) (content_at q right) ≡ true
unfolding has_content_conflict has_seq
content-agrees [] left right q h m n = cc
content-agrees (r ∷ rows) left right q h m n =
    let ih = content-agrees rows left right q in
    elim (Bool-cases (r.seq == q)) [
      | inl e ↦
          let eq : r.seq ≡ q = ground arith in
          let same = same_text (content_at q left) (content_at q right) in
          let h' : ((has_seq q right && not same) || has_content_conflict rows left right) ≡ false =
            subst
              (λ (x : ℕ).
                ((has_seq x right && not (same_text (content_at x left) (content_at x right)))
                  || has_content_conflict rows left right)
                ≡ false)
              eq h in
          ground arith
      | inr e ↦ ground (arith, ih)
    ]

abbrev completeness_at : ℕ → Completeness
completeness_at n =
    if n == 0
    then complete_verified
    else if n == 1
    then Completeness.partial
    else if n == 2
    then Completeness.unknown
    else Completeness.conflicting

completeness_at-number : (a : Completeness) → completeness_at (completeness_number a) ≡ a
completeness_at-number complete_verified = refl
completeness_at-number Completeness.partial = refl
completeness_at-number Completeness.unknown = refl
completeness_at-number Completeness.conflicting = refl

completeness_number-injective : (a b : Completeness) → same_completeness a b ≡ true → a ≡ b
completeness_number-injective a b h =
    let same : completeness_number a ≡ completeness_number b = ground arith in
    sym (completeness_at-number a) ∙ ap completeness_at same ∙ completeness_at-number b

abbrev finding_at : ℕ → FindingStatus
finding_at n =
    if n == 0
    then found
    else if n == 1
    then not_in_visible_page
    else if n == 2
    then FindingStatus.gap_unresolved
    else if n == 3
    then FindingStatus.history_gap
    else if n == 4
    then FindingStatus.retention_loss_confirmed
    else not_found_confirmed

finding_at-number : (a : FindingStatus) → finding_at (finding_number a) ≡ a
finding_at-number found = refl
finding_at-number not_in_visible_page = refl
finding_at-number FindingStatus.gap_unresolved = refl
finding_at-number FindingStatus.history_gap = refl
finding_at-number FindingStatus.retention_loss_confirmed = refl
finding_at-number not_found_confirmed = refl

same_finding→eq : (a b : Option FindingStatus) → same_finding a b ≡ true → a ≡ b
same_finding→eq none none h = refl
same_finding→eq (some a) (some b) h =
    let same : finding_number a ≡ finding_number b = ground arith in
    ap some (sym (finding_at-number a) ∙ ap finding_at same ∙ finding_at-number b)
same_finding→eq none (some b) h = cc
same_finding→eq (some a) none h = cc

conflict_kind-consistent :
    (a b c d e : Bool)
    → conflict_kind (not a) (not b) c (not d) (not e) ≡ consistent
    → (a ≡ true) × (b ≡ true) × (c ≡ false) × (d ≡ true) × (e ≡ true)
conflict_kind-consistent false b c d e h = cc
conflict_kind-consistent true false c d e h = cc
conflict_kind-consistent true true true d e h = cc
conflict_kind-consistent true true false false e h = cc
conflict_kind-consistent true true false true false h = cc
conflict_kind-consistent true true false true true h = (refl, refl, refl, refl, refl)

-- Two snapshots that are reconciled as `CONSISTENT` have the same room, generation and completeness,
-- the same finding for the target, and the same content at every sequence number that both hold.
pub compare_entries-Agrees :
    (left right : Entry) (target : Option ℕ)
    → (compare_entries left right target).kind ≡ consistent
    → Agrees left right target
unfolding compare_entries
compare_entries-Agrees left right target h =
    let content = has_content_conflict left.rows left.rows right.rows in
    let (room, generation, c, finding, completeness) =
      conflict_kind-consistent (str_eq left.snapshot.room right.snapshot.room)
        (same_text left.snapshot.generation right.snapshot.generation) content
        (same_finding (target_finding left target) (target_finding right target))
        (same_completeness left.snapshot.completeness right.snapshot.completeness) h in
    record {
      room = str_eq→eq left.snapshot.room right.snapshot.room room;
      generation = same_text→eq left.snapshot.generation right.snapshot.generation generation;
      completeness =
          completeness_number-injective left.snapshot.completeness right.snapshot.completeness
            completeness;
      finding = same_finding→eq (target_finding left target) (target_finding right target) finding;
      content = λ q m n.
          same_text→eq (content_at q left.rows) (content_at q right.rows)
            (content-agrees left.rows left.rows right.rows q c m n);
    }

has_content_conflict-same : (rows left : List Row) → has_content_conflict rows left left ≡ false
unfolding has_content_conflict
has_content_conflict-same [] left = refl
has_content_conflict-same (r ∷ rows) left =
    ground (arith, has_content_conflict-same rows left, same_text_refl (content_at r.seq left))

same_completeness_refl : (a : Completeness) → same_completeness a a ≡ true
same_completeness_refl a = ground arith

same_finding_refl : (a : Option FindingStatus) → same_finding a a ≡ true
same_finding_refl none = refl
same_finding_refl (some a) = ground arith

-- A snapshot is consistent with itself.
pub compare_entries-same :
    (e : Entry) (target : Option ℕ)
    → ((compare_entries e e target).kind ≡ consistent)
      × ((compare_entries e e target).is_conflicting ≡ false)
unfolding compare_entries
compare_entries-same e target =
    rw
      (
        eq_refl e.snapshot.room,
        same_text_refl e.snapshot.generation,
        has_content_conflict-same e.rows e.rows,
        same_finding_refl (target_finding e target),
        same_completeness_refl e.snapshot.completeness,
      )
      (refl, refl)
