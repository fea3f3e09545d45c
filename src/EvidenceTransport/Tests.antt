-- ===== src/EvidenceTransport/Tests.antt =====
-- An export that is acquired, attested, proved and raised to complete, and instances of the
-- theorems.
use Prim.Native.String.{String}
use flop_agent_intelligence.Common.{
  ◌≡◌, refl, true, false, none, some, List, [], ◌∷◌, if◌then◌else◌,
}
use flop_agent_intelligence.Common.Text.{is_room_codes, is_revision, is_safe_id, is_member}
use flop_agent_intelligence.Common.Exec.{◌>>=◌}
use flop_agent_intelligence.EvidenceTransport.Types.{
  room_export, direct_reviewed_source, SnapshotFields,
}
use flop_agent_intelligence.EvidenceTransport.Parse.{
  object, read_line, read_lines, has_internal_gap, last_of, parse_jsonl, Row, parsed_of,
}
use flop_agent_intelligence.Common.Registry.{object_at}
use flop_agent_intelligence.EvidenceTransport.Store.{Entry}
use flop_agent_intelligence.EvidenceTransport.Acquire.{
  absent, natural, read_bound, Request, is_complete, starts_late, has_seq, make_fields, new_fields,
}
use flop_agent_intelligence.EvidenceTransport.Service.{
  remember, require_snapshot, require_trusted, require_proof, record_proof, finding_of,
  search_entry, elevated, acquire, attest, issue_complete_export_proof, apply_completeness, search,
}
use flop_agent_intelligence.EvidenceTransport.Justified.{Review, IsComplete}
use flop_agent_intelligence.EvidenceTransport.Contiguous.{Outside}
use flop_agent_intelligence.EvidenceTransport.Reached.{
  Call, acquired, attested, export_proved, completeness_applied, registry_after,
  registry_after-IsComplete, search-not_found_confirmed,
}
use flop_agent_intelligence.EvidenceTransport.Projection.{
  validate_evidence_projection, public_projection,
}
use flop_agent_intelligence.EvidenceTransport.Projected.{complete_projection-valid}
use flop_agent_intelligence.EvidenceTransport.Reconcile.{compare_entries}
use flop_agent_intelligence.EvidenceTransport.Agrees.{
  Agrees, compare_entries-Agrees, compare_entries-same,
}

abbrev identity : SnapshotFields → String
identity f = if is_complete f.completeness then "second" else "first"

abbrev export_request : Request
export_request = record {
  transport = room_export;
  room = "intel_flop";
  raw = record {
    size = 60;
    is_utf8 = true;
    characters = 60;
    lines = object 5 false "five" ∷ object 6 false "six" ∷ object 7 false "seven" ∷ [];
    sha256 = "bytes";
  };
  source = direct_reviewed_source;
  acquired_at = natural 10;
  revision = "00112233445566778899aabbccddeeff00112233";
  generation = some "one";
  page_limit = absent;
  requested_since = natural 4;
  requested_limit = absent;
  truncated = some false;
}

abbrev calls : List Call
calls = completeness_applied 0 0 ∷ export_proved 0 0 ∷ attested 0 ∷ acquired export_request ∷ []

abbrev reviewed : List String
reviewed = "first" ∷ []

abbrev review : Review
review = record { identity = identity; listed = reviewed }

abbrev rows : List Row
rows =
    record { seq = 5; hash = "five" }
    ∷ record { seq = 6; hash = "six" }
    ∷ record { seq = 7; hash = "seven" }
    ∷ []

abbrev original : SnapshotFields
unfolding make_fields has_internal_gap last_of starts_late
original = make_fields export_request (some 10) none (some 4) none (parsed_of rows)

abbrev entry : Entry
entry = record {
  snapshot = record { fields = elevated original; acquisition_id = "second" };
  rows = rows;
}

registry_after-IsComplete_example : IsComplete review entry
unfolding object_at acquire attest issue_complete_export_proof apply_completeness remember
    require_snapshot require_trusted require_proof record_proof new_fields make_fields parse_jsonl
    read_line read_lines has_internal_gap last_of read_bound starts_late is_room_codes is_revision
    is_safe_id is_member ◌>>=◌ original
registry_after-IsComplete_example =
    registry_after-IsComplete identity reviewed [] calls 1 entry refl refl

search-not_found_confirmed_example :
    (e : Entry) × (object_at 1 (registry_after identity reviewed [] calls).acquired ≡ some e)
    × IsComplete review e
    × Outside 9 e.snapshot.first_seq e.snapshot.last_seq
unfolding object_at acquire attest issue_complete_export_proof apply_completeness remember
    require_snapshot require_trusted require_proof record_proof new_fields make_fields parse_jsonl
    read_line read_lines has_internal_gap last_of read_bound starts_late is_room_codes is_revision
    is_safe_id is_member ◌>>=◌ original search search_entry finding_of has_seq
search-not_found_confirmed_example =
    search-not_found_confirmed identity reviewed [] calls 1 9 (search_entry entry 9) refl refl

compare_entries-Agrees_example : Agrees entry entry (some 6)
unfolding compare_entries
compare_entries-Agrees_example =
    compare_entries-Agrees entry entry (some 6) (compare_entries-same entry (some 6)).0

complete_projection-valid_example :
    validate_evidence_projection (public_projection entry.snapshot) ≡ []
unfolding object_at acquire attest issue_complete_export_proof apply_completeness remember
    require_snapshot require_trusted require_proof record_proof new_fields make_fields parse_jsonl
    read_line read_lines has_internal_gap last_of read_bound starts_late is_room_codes is_revision
    is_safe_id is_member ◌>>=◌ original
complete_projection-valid_example =
    complete_projection-valid identity reviewed [] calls 1 entry refl refl
