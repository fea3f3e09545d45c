-- ===== src/EngagementHistory/Load.antt =====
-- `validate`, `key` and `load` of engagement_history.py. A file is the list of its lines, as
-- `bytes.splitlines` cuts them, and whether the last one has its line end.
use Prim.Native.String.{String, compare}
use Prim.Native.Nat.{Ordering}
use text.Mathlib.Text.{◌==◌ as str_eq}
use flop_agent_intelligence.Common.{
  Bool, true, false, not, ◌&&◌, ◌||◌, Option, none, some, List, [], ◌∷◌, if◌then◌else◌,
}
use flop_agent_intelligence.Common.Text.{is_sha256}
use flop_agent_intelligence.Common.Result.{Result, ok, ◌>>◌, raise_if}

pub data HistoryError : Type 0 where
  invalid_sample history_corruption lock_timeout deadline_exceeded os_error : HistoryError

-- A row: its key, the rest of it, and whether its JSON text holds a character besides a line feed and a
-- carriage return at which `str.splitlines` cuts.
pub record Sample : Type 0 where
  pub fetched_at : String
  pub source_sha256 : String
  pub body : String
  pub splits : Bool

-- A sample as it is given: which of the checks before the schema it passes, and the schema.
pub record Candidate : Type 0 where
  pub sample : Sample
  pub has_required : Bool
  pub is_v1 : Bool
  pub has_date : Bool
  pub has_lists : Bool
  pub conforms : Bool

unfoldable pub validate : Candidate → Result HistoryError Sample
validate c = do
  raise_if (not (c.has_required && c.is_v1)) invalid_sample
  raise_if (not c.has_date) invalid_sample
  raise_if (not (is_sha256 c.sample.source_sha256)) invalid_sample
  raise_if (not c.has_lists) invalid_sample
  raise_if (not c.conforms) invalid_sample
  ok c.sample

-- A line: white space only, no valid row, or a valid row. One that is no row is taken to hold none of
-- the characters at which only `str.splitlines` cuts.
pub data Line : Type 0 where
  blank junk : Line
  row : Sample → Line

pub record File : Type 0 where
  pub lines : List Line
  pub terminated : Bool

abbrev pub same_key : Sample → Sample → Bool
same_key a b = str_eq a.fetched_at b.fetched_at && str_eq a.source_sha256 b.source_sha256

unfoldable pub key_less : Sample → Sample → Bool
key_less a b = elim (compare a.fetched_at b.fetched_at) [
  | Ordering.lt ↦ true
  | Ordering.gt ↦ false
  | Ordering.eq ↦ elim (compare a.source_sha256 b.source_sha256) [ Ordering.lt ↦ true | _ ↦ false ]
]

-- `rows[key(row)] = row`, in the order of the keys
unfoldable pub put : Sample → List Sample → List Sample
put r [] = r ∷ []
put r (x ∷ xs) =
    let rest = put r xs in
    if same_key x r then r ∷ xs else if key_less r x then r ∷ x ∷ xs else x ∷ rest

unfoldable pub has_key : Sample → List Sample → Bool
has_key r [] = false
has_key r (x ∷ xs) = same_key x r || has_key r xs

-- The last line, without its line end.
abbrev pub is_tail : Bool → List Line → Bool
is_tail terminated [] = not terminated
is_tail terminated (_ ∷ _) = false

-- What the loop of `load` does with a line that is no row.
abbrev pub tolerate : Bool → Bool → Bool → Bool
tolerate strict recover_tail tail = (tail && recover_tail) || not strict

unfoldable pub load_lines :
    Bool → Bool → Bool → List Line → List Sample → Result HistoryError (List Sample)
load_lines strict recover terminated [] rows = ok rows
load_lines strict recover terminated (blank ∷ lines) rows =
    load_lines strict recover terminated lines rows
load_lines strict recover terminated (junk ∷ lines) rows = do
  raise_if (not (tolerate strict recover (is_tail terminated lines))) history_corruption
  load_lines strict recover terminated lines rows
load_lines strict recover terminated (row r ∷ lines) rows = do
  raise_if (r.splits && strict) history_corruption
  load_lines strict recover terminated lines (if r.splits then rows else put r rows)

unfoldable pub load : Bool → Bool → Option File → Result HistoryError (List Sample)
load strict recover none = ok []
load strict recover (some f) = load_lines strict recover f.terminated f.lines []
