-- ===== src/EvidenceTransport/Projected.antt =====
-- The public projections of complete snapshots.
use Prim.Native.String.{String}
use flop_agent_intelligence.Common.{
  ℕ, ◌≤◌, ◌≡◌, refl, ap, ◌∙◌, Bool, true, false, ◌&&◌, Option, none, some, List, [], ◌∷◌, arith,
}
use flop_agent_intelligence.EvidenceTransport.Types.{SnapshotFields}
use flop_agent_intelligence.EvidenceTransport.Parse.{Row, seqs, has_internal_gap, first_of, last_of}
use flop_agent_intelligence.Common.Registry.{object_at, object_at-All}
use flop_agent_intelligence.EvidenceTransport.Store.{Entry}
use flop_agent_intelligence.EvidenceTransport.Acquire.{is_complete}
use flop_agent_intelligence.EvidenceTransport.Justified.{Review, Justified}
use flop_agent_intelligence.EvidenceTransport.Projection.{
  is_reversed, says_loss, validate_evidence_projection, public_projection,
}
use flop_agent_intelligence.EvidenceTransport.Reached.{
  Call, registry_after, registry_after-WellFormed,
}

-- Without a gap the last number is not before the first.
contiguous-order :
    (rows : List Row) (a b : ℕ)
    → has_internal_gap (seqs rows) ≡ false
    → first_of (seqs rows) ≡ some a
    → last_of (seqs rows) ≡ some b
    → a ≤ b
unfolding has_internal_gap last_of
contiguous-order [] a b g f l = cc
contiguous-order (r ∷ []) a b g f l = ground arith
contiguous-order (r ∷ r' ∷ rest) a b g f l =
    let ih = contiguous-order (r' ∷ rest) r'.seq b in ground (arith, ih)

is_reversed-rows :
    (rows : List Row)
    → has_internal_gap (seqs rows) ≡ false
    → is_reversed (first_of (seqs rows)) (last_of (seqs rows)) ≡ false
is_reversed-rows rows g = go (first_of (seqs rows)) (last_of (seqs rows)) refl refl
  where
    go :
        (x y : Option ℕ)
        → first_of (seqs rows) ≡ x
        → last_of (seqs rows) ≡ y
        → is_reversed x y ≡ false
    go none y f l = refl
    go (some a) none f l = refl
    go (some a) (some b) f l = let o = contiguous-order rows a b g f l in ground (arith, o)

and-false : (b : Bool) → (b && false) ≡ false
and-false true = refl
and-false false = refl

projection-valid :
    (reviewed : Review) (e : Entry)
    → Justified reviewed e
    → is_complete e.snapshot.completeness ≡ true
    → validate_evidence_projection (public_projection e.snapshot) ≡ []
unfolding validate_evidence_projection public_projection
projection-valid reviewed e j done =
    let c = j.complete done in
    let (transport, transcript, history, known) = c.flags in
    let reversed : is_reversed e.snapshot.first_seq e.snapshot.last_seq ≡ false =
      ap (λ x. is_reversed x e.snapshot.last_seq) j.first
      ∙ ap (λ y. is_reversed (first_of (seqs e.rows)) y) j.last
      ∙ is_reversed-rows e.rows c.contiguous in
    rw
      (
        done,
        c.exported,
        transport,
        transcript,
        history,
        known,
        c.retention,
        reversed,
        and-false (says_loss (some e.snapshot.gap_status)),
      )
      refl

module _ (identity : SnapshotFields → String) (complete retention : List String) where
  -- Whatever calls were made, the public projection of a snapshot that is complete passes the
  -- semantic checks without an error.
  pub complete_projection-valid :
      (calls : List Call) (h : ℕ) (e : Entry)
      → object_at h (registry_after identity complete retention calls).acquired ≡ some e
      → is_complete e.snapshot.completeness ≡ true
      → validate_evidence_projection (public_projection e.snapshot) ≡ []
  complete_projection-valid calls h e at =
      let registry = registry_after identity complete retention calls in
      let review : Review = record { identity = identity; listed = complete } in
      projection-valid review e (
        object_at-All (Justified review) h registry.acquired e
          (registry_after-WellFormed identity complete retention calls).acquired at)
