-- ===== src/SignedPost/Fence.antt =====
-- `WriteAttemptJournal.reserve` and `attempt_keys` of write_effect.py. The journal's table is the list
-- of its committed rows; what the file system and SQLite refuse is an argument.
use Prim.Native.String.{String}
use text.Mathlib.Text.{◌==◌ as str_eq}
use flop_agent_intelligence.Common.{ℕ, Bool, false, not, ◌&&◌, ◌||◌, List, [], ◌∷◌, if◌then◌else◌}
use flop_agent_intelligence.Common.Text.{is_sha256}
use flop_agent_intelligence.Common.Result.{Result, ok, err}
use flop_agent_intelligence.WireEvidence.Types.{ReadBackStage, failed, duplicate_suppressed}

-- The primary key and the unique operation of a row.
pub record Keys : Type 0 where
  pub nonce_scope : String
  pub operation : String

pub record FenceFaults : Type 0 where
  pub unsafe_journal : Bool
  pub commit_failed : Bool
  pub sync_failed : Bool

unfoldable pub has_scope : String → List Keys → Bool
has_scope s [] = false
has_scope s (k ∷ rows) = str_eq k.nonce_scope s || has_scope s rows

unfoldable pub has_operation : String → List Keys → Bool
has_operation s [] = false
has_operation s (k ∷ rows) = str_eq k.operation s || has_operation s rows

unfoldable pub reserve :
    FenceFaults → Keys → List Keys → Result ReadBackStage (Unit {0}) × List Keys
reserve f k rows =
    if not (is_sha256 k.nonce_scope && is_sha256 k.operation)
    then (err failed, rows)
    else if f.unsafe_journal
    then (err failed, rows)
    else if has_scope k.nonce_scope rows || has_operation k.operation rows
    then (err duplicate_suppressed, rows)
    else if f.commit_failed
    then (err failed, rows)
    else if f.sync_failed
    then (err failed, k ∷ rows)
    else (ok tt, k ∷ rows)

-- What a post is of: its author, room, nonce and text.
pub record Entry : Type 0 where
  pub did : List ℕ
  pub room : List ℕ
  pub nonce : List ℕ
  pub text : List ℕ

abbrev pub scope_parts : Entry → List (List ℕ)
scope_parts e = e.did ∷ e.room ∷ e.nonce ∷ []

abbrev pub operation_parts : Entry → List (List ℕ)
operation_parts e = e.did ∷ e.room ∷ e.text ∷ []

-- `digest` is SHA-256 of the joined parts behind the prefix.
module _ (digest : List (List ℕ) → String) where
  abbrev pub attempt_keys : Entry → Keys
  attempt_keys e = record {
    nonce_scope = digest (scope_parts e);
    operation = digest (operation_parts e);
  }
