-- ===== src/Handoff/Approval.antt =====
-- `validate_approval_artifact` of sonnet_registration_handoff.py. The record stands for a mapping
-- with exactly the keys of `_APPROVAL_FIELDS`; `expected` is the table of that function.
use Prim.Native.String.{String}
use text.Mathlib.Text.{◌==◌ as str_eq}
use flop_agent_intelligence.Common.{
  ℕ, ◌+◌, ◌*◌, Bool, true, false, not, ◌&&◌, ◌||◌, Option, none, some, List, [], ◌∷◌, ltb, leb,
  if◌then◌else◌,
}
use flop_agent_intelligence.Common.Result.{Result, ok, ◌>>=◌, ◌>>◌, raise_if, or_raise}
use flop_agent_intelligence.Handoff.Types.{
  HandoffError, approval_binding_invalid, approval_id_invalid, approval_reviewer_invalid,
  approval_time_invalid, approval_expired,
}
use flop_agent_intelligence.Common.Text.{is_sha256, is_member}

-- 900 seconds, in microseconds
abbrev pub approval_lifetime : ℕ
approval_lifetime = 900 * 1000000

pub record Artifact : Type 0 where
  pub fields : List (String × String)
  pub approval_id : String
  pub reviewer : String
  pub issued_at : Option ℕ
  pub expires_at : Option ℕ

unfoldable pub get : String → List (String × String) → Option String
get key [] = none
get key ((k, v) ∷ fields) = if str_eq k key then some v else get key fields

abbrev is_text : Option String → String → Bool
is_text none text = false
is_text (some t) text = str_eq t text

unfoldable pub has_all : List (String × String) → List (String × String) → Bool
has_all fields [] = true
has_all fields ((key, value) ∷ expected) = is_text (get key fields) value && has_all fields expected

unfoldable pub validate_approval :
    List (String × String) → List String → Artifact → ℕ → Result HandoffError Artifact
validate_approval expected reviewers a now = do
  raise_if (not (has_all a.fields expected)) approval_binding_invalid
  raise_if (not (is_sha256 a.approval_id)) approval_id_invalid
  raise_if (not (is_member a.reviewer reviewers)) approval_reviewer_invalid
  issued ← or_raise a.issued_at approval_time_invalid
  expires ← or_raise a.expires_at approval_time_invalid
  raise_if
      (leb expires issued
        || ltb (issued + approval_lifetime) expires
        || ltb now issued
        || ltb expires now)
      approval_expired
  ok a
