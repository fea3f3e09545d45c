-- ===== src/EvidenceTransport/Justified.antt =====
-- What stands behind a snapshot that is complete, and behind a proof.
use Prim.Native.String.{String}
use mathlib.Core.Path.{subst}
use flop_agent_intelligence.Common.{
  ltb, ◌+◌, ◌/◌, ℕ, ◌≡◌, refl, ap, Bool, true, false, not, Option, some, List, [], ◌∷◌,
  if◌then◌else◌, arith, length, All,
}
use flop_agent_intelligence.Common.Text.{is_member, codes, is_room_codes, is_revision}
use flop_agent_intelligence.Common.Result.{ok, raise_if, >>=-eq-ok, >>-eq-ok, ok-injective}
use flop_agent_intelligence.EvidenceTransport.Types.{
  max_response_bytes, max_parsed_records, max_estimated_tokens, floor_observed, no_gap_observed,
  history_gap, response_size_invalid, response_utf8_invalid, token_budget_exceeded,
  record_budget_exceeded, room_invalid, revision_invalid, generation_invalid, SnapshotFields,
}
use flop_agent_intelligence.EvidenceTransport.Parse.{
  Raw, Row, Parsed, seqs, has_internal_gap, first_of, last_of, read_lines, parsed_of, parse_jsonl,
}
use flop_agent_intelligence.Common.Registry.{object_at, object_at-grow}
use flop_agent_intelligence.EvidenceTransport.Store.{complete_export, Entry, ProofRecord}
use flop_agent_intelligence.EvidenceTransport.Acquire.{
  Request, is_export, is_direct, is_gapless, is_unresolved, is_complete, is_false, is_generation,
  read_bound, make_fields, new_fields,
}
use flop_agent_intelligence.EvidenceTransport.Service.{same_kind, is_complete_export}

-- The digest that identifies a snapshot's fields, and the identities that were reviewed as complete.
pub record Review : Type 0 where
  pub identity : SnapshotFields → String
  pub listed : List String

-- A complete entry comes from a reviewed, untruncated export without gaps.
pub record IsComplete (reviewed : Review) (e : Entry) : Type 0 where
  pub exported : is_export e.snapshot.transport ≡ true
  pub direct : is_direct e.snapshot.acquisition_source ≡ true
  pub untruncated : is_false e.snapshot.truncated ≡ true
  pub resolved : is_unresolved e.snapshot.gap_status ≡ false
  pub contiguous : has_internal_gap (seqs e.rows) ≡ false
  pub flags :
      (e.snapshot.transport_complete ≡ true)
      × (e.snapshot.transcript_complete ≡ true)
      × (e.snapshot.history_complete ≡ true)
      × (e.snapshot.retention_status_known ≡ true)
  pub retention : e.snapshot.retention_status ≡ floor_observed
  pub original : SnapshotFields
  pub listed : is_member (reviewed.identity original) reviewed.listed ≡ true
  pub same_room : original.room ≡ e.snapshot.room
  pub same_generation : original.generation ≡ e.snapshot.generation
  pub same_bytes : original.snapshot_hash ≡ e.snapshot.snapshot_hash
  pub same_range :
      (original.first_seq ≡ e.snapshot.first_seq) × (original.last_seq ≡ e.snapshot.last_seq)

pub record Justified (reviewed : Review) (e : Entry) : Type 0 where
  pub first : e.snapshot.first_seq ≡ first_of (seqs e.rows)
  pub last : e.snapshot.last_seq ≡ last_of (seqs e.rows)
  pub gapless : is_gapless e.snapshot.gap_status ≡ true → has_internal_gap (seqs e.rows) ≡ false
  pub identified : e.snapshot.acquisition_id ≡ reviewed.identity e.snapshot.fields
  pub complete : is_complete e.snapshot.completeness ≡ true → IsComplete reviewed e

-- The snapshot that a proof was issued for, and what was checked of it.
pub record Backed (reviewed : Review) (acquired : List Entry) (p : ProofRecord) : Type 0 where
  pub entry : Entry
  pub named : object_at p.snapshot acquired ≡ some entry
  pub checked :
      same_kind p.kind complete_export ≡ true
      → is_complete_export reviewed.listed entry.snapshot ≡ true

pub Backed-grow :
    (reviewed : Review) (acquired : List Entry) (e : Entry) (ps : List ProofRecord)
    → All (Backed reviewed acquired) ps
    → All (Backed reviewed (e ∷ acquired)) ps
Backed-grow reviewed acquired e [] h = tt
Backed-grow reviewed acquired e (p ∷ ps) (b, h) = (
  record {
    entry = b.entry;
    named = object_at-grow p.snapshot acquired b.entry e b.named;
    checked = b.checked;
  },
  Backed-grow reviewed acquired e ps h,
)

rows_gapless :
    (rows : List Row)
    → is_gapless (parsed_of rows).gap ≡ true
    → has_internal_gap (seqs rows) ≡ false
rows_gapless rows h = go (has_internal_gap (seqs rows)) h
  where
    go : (b : Bool) → is_gapless (if b then history_gap else no_gap_observed) ≡ true → b ≡ false
    go true h = cc
    go false h = refl

-- What is parsed is what the rows say.
parse_jsonl-parsed_of : (raw : Raw) (p : Parsed) → parse_jsonl raw ≡ ok p → p ≡ parsed_of p.rows
unfolding parse_jsonl
parse_jsonl-parsed_of raw p h =
    let (_, h1) = >>-eq-ok (raise_if (ltb max_response_bytes raw.size) response_size_invalid) _ h in
    let (_, h2) = >>-eq-ok (raise_if (not raw.is_utf8) response_utf8_invalid) _ h1 in
    let (_, h3) =
      >>-eq-ok
        (raise_if (ltb max_estimated_tokens ((raw.characters + 3) / 4)) token_budget_exceeded) _
        h2 in
    let (_, h4) =
      >>-eq-ok (raise_if (ltb max_parsed_records (length raw.lines)) record_budget_exceeded) _ h3 in
    let (rows, hr, h5) = >>=-eq-ok (read_lines raw.lines) _ h4 in
    subst (λ (x : Parsed). x ≡ parsed_of x.rows) (ok-injective h5) refl

make_fields-Justified :
    (reviewed : Review) (r : Request) (a b c d : Option ℕ) (p : Parsed)
    → parse_jsonl r.raw ≡ ok p
    → Justified reviewed (record {
      snapshot = record {
        fields = make_fields r a b c d p;
        acquisition_id = reviewed.identity (make_fields r a b c d p);
      };
      rows = p.rows;
    })
unfolding make_fields
make_fields-Justified reviewed r a b c d p h =
    let q = parse_jsonl-parsed_of r.raw p h in
    record {
      gapless = λ g.
          rows_gapless p.rows (subst (λ (x : Parsed). is_gapless x.gap ≡ true) q (ground arith));
      first = ap (λ (x : Parsed). x.first) q;
      last = ap (λ (x : Parsed). x.last) q;
      identified = refl;
      complete = λ g. ground arith;
    }

pub new_fields-Justified :
    (reviewed : Review) (r : Request) (f : SnapshotFields) (rows : List Row)
    → new_fields r ≡ ok (f, rows)
    → Justified reviewed (record {
      snapshot = record { fields = f; acquisition_id = reviewed.identity f };
      rows = rows;
    })
unfolding new_fields
new_fields-Justified reviewed r f rows h =
    let (_, h1) = >>-eq-ok (raise_if (not (is_room_codes (codes r.room))) room_invalid) _ h in
    let (_, h2) = >>-eq-ok (raise_if (not (is_revision r.revision)) revision_invalid) _ h1 in
    let (_, h3) = >>-eq-ok (raise_if (not (is_generation r.generation)) generation_invalid) _ h2 in
    let (at, ha, h4) = >>=-eq-ok (read_bound r.acquired_at) _ h3 in
    let (page, hp, h5) = >>=-eq-ok (read_bound r.page_limit) _ h4 in
    let (since, hs, h6) = >>=-eq-ok (read_bound r.requested_since) _ h5 in
    let (limit, hl, h7) = >>=-eq-ok (read_bound r.requested_limit) _ h6 in
    let (p, hr, h8) = >>=-eq-ok (parse_jsonl r.raw) _ h7 in
    let q = ok-injective {A = SnapshotFields × List Row} h8 in
    subst
      (λ (x : SnapshotFields × List Row). Justified reviewed (record {
        snapshot = record { fields = x.0; acquisition_id = reviewed.identity x.0 };
        rows = x.1;
      }))
      q (make_fields-Justified reviewed r at page since limit p hr)
