-- ===== src/EvidenceTransport/Parse.antt =====
-- `_parse_jsonl` of evidence_transport.py, on what the bytes decode to.
use Prim.Native.String.{String}
use flop_agent_intelligence.Common.{
  ℕ, ◌+◌, ◌/◌, Bool, true, false, not, ◌||◌, Option, none, some, List, [], ◌∷◌, map, ltb, ◌==◌,
  if◌then◌else◌, length,
}
use flop_agent_intelligence.Common.Result.{Result, ok, err, ◌>>=◌, ◌>>◌, raise_if}
use flop_agent_intelligence.EvidenceTransport.Types.{
  max_response_bytes, max_parsed_records, max_estimated_tokens, GapStatus, no_gap_observed,
  history_gap, TransportError, response_size_invalid, response_utf8_invalid, token_budget_exceeded,
  record_budget_exceeded, response_syntax_invalid, record_invalid, sensitive_field_rejected,
}

-- A line: no JSON; no object with a natural `seq`; or an object, with its `seq`, whether a key
-- looks secret, and the hash of its canonical JSON.
pub data Line : Type 0 where
  no_json no_record : Line
  object : (seq : ℕ) (sensitive : Bool) (hash : String) → Line

pub record Raw : Type 0 where
  pub size : ℕ
  pub is_utf8 : Bool
  pub characters : ℕ
  pub lines : List Line
  pub sha256 : String

pub record Row : Type 0 where
  pub seq : ℕ
  pub hash : String

pub record Parsed : Type 0 where
  pub rows : List Row
  pub first : Option ℕ
  pub last : Option ℕ
  pub gap : GapStatus

unfoldable pub read_line : Line → Result TransportError Row
read_line no_json = err response_syntax_invalid
read_line no_record = err record_invalid
read_line (object seq true hash) = err sensitive_field_rejected
read_line (object seq false hash) = ok (record { seq = seq; hash = hash })

unfoldable pub read_lines : List Line → Result TransportError (List Row)
read_lines [] = ok []
read_lines (line ∷ lines) = do row ← read_line line; rows ← read_lines lines; ok (row ∷ rows)

abbrev pub seqs : List Row → List ℕ
seqs rows = map (λ (r : Row). r.seq) rows

-- `any(b != a + 1 for a, b in zip(seqs, seqs[1:]))`
unfoldable pub has_internal_gap : List ℕ → Bool
has_internal_gap [] = false
has_internal_gap (a ∷ []) = false
has_internal_gap (a ∷ b ∷ rest) = not (b == a + 1) || has_internal_gap (b ∷ rest)

abbrev pub first_of : List ℕ → Option ℕ
first_of [] = none
first_of (a ∷ _) = some a

unfoldable pub last_of : List ℕ → Option ℕ
last_of [] = none
last_of (a ∷ []) = some a
last_of (a ∷ b ∷ rest) = last_of (b ∷ rest)

abbrev pub parsed_of : List Row → Parsed
parsed_of rows = record {
  rows = rows;
  first = first_of (seqs rows);
  last = last_of (seqs rows);
  gap = if has_internal_gap (seqs rows) then history_gap else no_gap_observed;
}

unfoldable pub parse_jsonl : Raw → Result TransportError Parsed
parse_jsonl raw = do
  raise_if (ltb max_response_bytes raw.size) response_size_invalid
  raise_if (not raw.is_utf8) response_utf8_invalid
  raise_if (ltb max_estimated_tokens ((raw.characters + 3) / 4)) token_budget_exceeded
  raise_if (ltb max_parsed_records (length raw.lines)) record_budget_exceeded
  rows ← read_lines raw.lines
  ok (parsed_of rows)
