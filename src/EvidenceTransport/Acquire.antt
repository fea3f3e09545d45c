-- ===== src/EvidenceTransport/Acquire.antt =====
-- The checks of `acquire` in evidence_transport.py, and the fields of the snapshot that it makes.
use Prim.Native.String.{String}
use flop_agent_intelligence.Common.{
  ℕ, ◌+◌, Bool, true, false, not, ◌||◌, Option, none, some, List, [], ◌∷◌, ltb, ◌==◌, if◌then◌else◌,
  length,
}
use flop_agent_intelligence.Common.Text.{codes, is_room_codes, is_revision, is_safe_id}
use flop_agent_intelligence.Common.Result.{Result, ok, err, ◌>>=◌, ◌>>◌, raise_if}
use flop_agent_intelligence.EvidenceTransport.Types.{
  Transport, room_export, Completeness, complete_verified, partial, unknown, GapStatus,
  no_gap_observed, gap_unresolved, history_gap, floor_unknown, AcquisitionSource,
  direct_reviewed_source, TransportError, room_invalid, revision_invalid, generation_invalid,
  bound_invalid, SnapshotFields,
}
use flop_agent_intelligence.EvidenceTransport.Parse.{Raw, Row, Parsed, parse_jsonl}

-- An argument that should be `None` or a natural number.
pub data Bound : Type 0 where
  absent malformed : Bound
  natural : ℕ → Bound

unfoldable pub read_bound : Bound → Result TransportError (Option ℕ)
read_bound absent = ok none
read_bound malformed = err bound_invalid
read_bound (natural n) = ok (some n)

pub record Request : Type 0 where
  pub transport : Transport
  pub room : String
  pub raw : Raw
  pub source : AcquisitionSource
  pub acquired_at : Bound
  pub revision : String
  pub generation : Option String
  pub page_limit : Bound
  pub requested_since : Bound
  pub requested_limit : Bound
  pub truncated : Option Bool

abbrev pub is_generation : Option String → Bool
is_generation none = true
is_generation (some g) = is_safe_id g

abbrev pub is_export : Transport → Bool
is_export room_export = true
is_export _ = false

abbrev pub is_direct : AcquisitionSource → Bool
is_direct direct_reviewed_source = true
is_direct _ = false

abbrev pub is_gapless : GapStatus → Bool
is_gapless no_gap_observed = true
is_gapless _ = false

abbrev pub is_unresolved : GapStatus → Bool
is_unresolved history_gap = true
is_unresolved gap_unresolved = true
is_unresolved _ = false

abbrev pub is_complete : Completeness → Bool
is_complete complete_verified = true
is_complete _ = false

abbrev pub is_true : Option Bool → Bool
is_true (some true) = true
is_true _ = false

abbrev pub is_false : Option Bool → Bool
is_false (some false) = true
is_false _ = false

abbrev pub is_some {ℓ} : {A : Type ℓ} → Option A → Bool
is_some none = false
is_some (some _) = true

-- `first is not None and requested_since is not None and first > requested_since + 1`
unfoldable pub starts_late : Option ℕ → Option ℕ → Bool
starts_late (some since) (some first) = ltb (since + 1) first
starts_late _ _ = false

unfoldable pub has_seq : ℕ → List Row → Bool
has_seq q [] = false
has_seq q (r ∷ rows) = r.seq == q || has_seq q rows

-- The first half of `acquire`: the checks, and the fields of the snapshot.
unfoldable pub make_fields :
    Request → Option ℕ → Option ℕ → Option ℕ → Option ℕ → Parsed → SnapshotFields
make_fields r acquired_at page_limit since limit p = record {
  transport = r.transport;
  room = r.room;
  page_limit = page_limit;
  returned_records = length p.rows;
  truncated = r.truncated;
  completeness = if is_true r.truncated then partial else unknown;
  generation = r.generation;
  first_seq = p.first;
  last_seq = p.last;
  requested_since = since;
  requested_limit = limit;
  snapshot_hash = r.raw.sha256;
  acquisition_source = r.source;
  acquired_at = acquired_at;
  source_revision = r.revision;
  gap_status = if starts_late since p.first then gap_unresolved else p.gap;
  retention_status = floor_unknown;
  transport_acquired = true;
  content_parsed = true;
  content_verified = false;
  transport_complete = false;
  transcript_complete = false;
  history_complete = false;
  retention_status_known = false;
}

-- The checks, in their order, and the fields.
unfoldable pub new_fields : Request → Result TransportError (SnapshotFields × List Row)
new_fields r = do
  raise_if (not (is_room_codes (codes r.room))) room_invalid
  raise_if (not (is_revision r.revision)) revision_invalid
  raise_if (not (is_generation r.generation)) generation_invalid
  acquired_at ← read_bound r.acquired_at
  page_limit ← read_bound r.page_limit
  since ← read_bound r.requested_since
  limit ← read_bound r.requested_limit
  p ← parse_jsonl r.raw
  ok (make_fields r acquired_at page_limit since limit p, p.rows)
