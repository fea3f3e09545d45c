-- ===== src/EvidenceTransport/Service.antt =====
-- `EvidenceTransportService` of evidence_transport.py: acquisitions, proofs, searches and
-- reconciliations over the registries of one service.
use Prim.Native.String.{String}
use text.Mathlib.Text.{◌==◌ as str_eq}
use flop_agent_intelligence.Common.{
  ℕ, Bool, true, false, not, ◌&&◌, Option, none, some, List, ◌∷◌, ◌==◌, if◌then◌else◌, length,
}
use flop_agent_intelligence.Common.Text.{is_member}
use flop_agent_intelligence.Common.Result.{ok, or_raise}
use flop_agent_intelligence.Common.Exec.{Exec, pure, lift, raise_when, ◌>>=◌, ◌>>◌}
use flop_agent_intelligence.EvidenceTransport.Types.{
  complete_verified, retention_loss_confirmed, floor_observed, FindingStatus, found,
  not_in_visible_page, not_found_confirmed, TransportError, permission_denied,
  completeness_not_proven, retention_loss_not_proven, SnapshotFields, EvidenceSnapshot,
  SearchResult,
}
use flop_agent_intelligence.EvidenceTransport.Parse.{Row}
use flop_agent_intelligence.Common.Registry.{object_at}
use flop_agent_intelligence.EvidenceTransport.Store.{
  ProofKind, complete_export, reviewed_retention_loss, Entry, Trusted, ProofRecord, Registry,
}
use flop_agent_intelligence.EvidenceTransport.Acquire.{
  Request, is_export, is_direct, is_gapless, is_unresolved, is_complete, is_false, is_some, has_seq,
  new_fields,
}

abbrev pub Service : Type 0 → Type 0
Service A = Exec Registry TransportError A

abbrev pub same_kind : ProofKind → ProofKind → Bool
same_kind complete_export complete_export = true
same_kind reviewed_retention_loss reviewed_retention_loss = true
same_kind _ _ = false

-- A new object goes to the front of its registry; its handle is returned.
unfoldable pub remember : Entry → Service ℕ
remember e s = (ok (length s.acquired), record s { acquired = e ∷ s.acquired })

unfoldable pub require_snapshot : ℕ → Service Entry
require_snapshot h s = (or_raise (object_at h s.acquired) permission_denied, s)

-- The record of a trusted acquisition, if it is one of this very snapshot.
abbrev pub trusts : ℕ → EvidenceSnapshot → Option Trusted → Bool
trusts h snapshot none = false
trusts h snapshot (some t) = t.snapshot == h && str_eq t.acquisition_id snapshot.acquisition_id

unfoldable pub require_trusted : ℕ → EvidenceSnapshot → ℕ → Service (Unit {0})
require_trusted h snapshot a s =
    raise_when (not (trusts h snapshot (object_at a s.trusted))) permission_denied s

-- The proof names this snapshot, kind and identity, and the acquisition it was issued for is still
-- the one of this snapshot.
abbrev pub proves : ℕ → EvidenceSnapshot → ProofKind → List Trusted → Option ProofRecord → Bool
proves h snapshot kind trusted none = false
proves h snapshot kind trusted (some p) =
    p.snapshot == h
    && elim (object_at p.acquisition trusted) [ none ↦ false | some t ↦ t.snapshot == h ]
    && same_kind p.kind kind
    && str_eq p.acquisition_id snapshot.acquisition_id

unfoldable pub require_proof : ℕ → EvidenceSnapshot → ℕ → ProofKind → Service (Unit {0})
require_proof h snapshot p kind s =
    raise_when (not (proves h snapshot kind s.trusted (object_at p s.proofs))) permission_denied s

unfoldable pub record_proof : ProofRecord → Service ℕ
record_proof p s = (ok (length s.proofs), record s { proofs = p ∷ s.proofs })

-- `SearchResult` for a sequence number in an entry
unfoldable pub finding_of : EvidenceSnapshot → List Row → ℕ → FindingStatus
finding_of snapshot rows q =
    if has_seq q rows
    then found
    else if is_unresolved snapshot.gap_status
    then FindingStatus.gap_unresolved
    else if is_complete snapshot.completeness
    then not_found_confirmed
    else not_in_visible_page

unfoldable pub search_entry : Entry → ℕ → SearchResult
search_entry e q = record {
  finding = finding_of e.snapshot e.rows q;
  coverage = e.snapshot.completeness;
  result_hash = e.snapshot.snapshot_hash;
  target_observed = has_seq q e.rows;
  result_gap = e.snapshot.gap_status;
}

abbrev pub is_complete_export : List String → EvidenceSnapshot → Bool
is_complete_export reviewed f =
    is_export f.transport
    && is_false f.truncated
    && is_direct f.acquisition_source
    && is_some f.generation
    && is_gapless f.gap_status
    && is_member f.acquisition_id reviewed

abbrev pub elevated : SnapshotFields → SnapshotFields
elevated f = record f {
  completeness = complete_verified;
  transport_complete = true;
  transcript_complete = true;
  history_complete = true;
  retention_status_known = true;
  retention_status = floor_observed;
}

abbrev pub is_retention_export : List String → EvidenceSnapshot → Bool
is_retention_export reviewed f =
    is_member f.acquisition_id reviewed
    && is_export f.transport
    && is_direct f.acquisition_source
    && is_some f.generation
    && is_false f.truncated

abbrev pub loss_confirmed : SnapshotFields → SnapshotFields
loss_confirmed f = record f {
  gap_status = retention_loss_confirmed;
  retention_status = floor_observed;
  retention_status_known = true;
}

-- `identity` is SHA-256 of the canonical JSON of the fields.
module _ (identity : SnapshotFields → String)
    (reviewed_complete reviewed_retention : List String) where
  abbrev pub with_identity : SnapshotFields → EvidenceSnapshot
  with_identity f = record { fields = f; acquisition_id = identity f }

  unfoldable pub acquire : Request → Service ℕ
  acquire r = do
    (fields, rows) ← lift (new_fields r)
    remember (record { snapshot = with_identity fields; rows = rows })

  unfoldable pub attest : ℕ → Service ℕ
  attest h = do
    e ← require_snapshot h
    λ s. (
      ok (length s.trusted),
      record s {
        trusted = record { snapshot = h; acquisition_id = e.snapshot.acquisition_id } ∷ s.trusted;
      },
    )

  unfoldable pub issue_complete_export_proof : ℕ → ℕ → Service ℕ
  issue_complete_export_proof h a = do
    e ← require_snapshot h
    require_trusted h e.snapshot a
    raise_when (not (is_complete_export reviewed_complete e.snapshot)) completeness_not_proven
    record_proof (record {
      snapshot = h;
      acquisition = a;
      kind = complete_export;
      acquisition_id = e.snapshot.acquisition_id;
    })

  unfoldable pub apply_completeness : ℕ → ℕ → Service ℕ
  apply_completeness h p = do
    e ← require_snapshot h
    require_proof h e.snapshot p complete_export
    remember (record { snapshot = with_identity (elevated e.snapshot.fields); rows = e.rows })

  unfoldable pub issue_retention_evidence : ℕ → ℕ → Service ℕ
  issue_retention_evidence h a = do
    e ← require_snapshot h
    require_trusted h e.snapshot a
    raise_when (not (is_retention_export reviewed_retention e.snapshot)) retention_loss_not_proven
    record_proof (record {
      snapshot = h;
      acquisition = a;
      kind = reviewed_retention_loss;
      acquisition_id = e.snapshot.acquisition_id;
    })

  unfoldable pub confirm_retention_loss : ℕ → ℕ → Service ℕ
  confirm_retention_loss h p = do
    e ← require_snapshot h
    require_proof h e.snapshot p reviewed_retention_loss
    remember (record { snapshot = with_identity (loss_confirmed e.snapshot.fields); rows = e.rows })

  unfoldable pub search : ℕ → ℕ → Service SearchResult
  search h q = do e ← require_snapshot h; pure (search_entry e q)
