-- ===== src/WireEvidence/Signing.antt =====
-- `validate_room`, `context_builder` and `material_builder` of wire_evidence.py. A text is the list of
-- its code points, and `canonical` is the text whose UTF-8 bytes are signed.
use Prim.Native.String.{String}
use flop_agent_intelligence.Common.{
  ℕ, ◌+◌, Bool, true, false, not, ◌&&◌, ◌||◌, List, [], ◌∷◌, ◌++◌, ltb, leb, ◌==◌, if◌then◌else◌,
  length,
}
use flop_agent_intelligence.Common.Text.{is_room_codes, is_revision, codes}
use flop_agent_intelligence.Common.Result.{Result, ok, ◌>>◌, raise_if}
use flop_agent_intelligence.WireEvidence.Types.{
  max_protocol_nonce, WireError, room_invalid, nonce_invalid, frame_utf8_invalid, frame_too_large,
  frame_multiline, frame_syntax_invalid, signing_context_mismatch, action_invalid, revision_invalid,
  binding_invalid,
}
use flop_agent_intelligence.WireEvidence.Nonce.{is_nonce_text, decimal}

-- `text.startswith(prefix)`
unfoldable pub starts_with : List ℕ → List ℕ → Bool
starts_with [] cs = true
starts_with (p ∷ ps) [] = false
starts_with (p ∷ ps) (c ∷ cs) = p == c && starts_with ps cs

-- `part in text`
unfoldable pub contains : List ℕ → List ℕ → Bool
contains part [] = starts_with part []
contains part (c ∷ cs) = starts_with part (c ∷ cs) || contains part cs

unfoldable pub is_public_room : List ℕ → Bool
is_public_room room =
    is_room_codes room
    && not (starts_with (codes "p-") room || starts_with (codes "mb-") room)
    && not (contains (codes "-p-") room)

unfoldable pub validate_room : List ℕ → Result WireError (List ℕ)
validate_room room = do raise_if (not (is_public_room room)) room_invalid; ok room

-- A surrogate has no UTF-8 encoding.
unfoldable pub has_surrogate : List ℕ → Bool
has_surrogate [] = false
has_surrogate (c ∷ cs) = (leb 0xd800 c && leb c 0xdfff) || has_surrogate cs

unfoldable pub utf8_length : List ℕ → ℕ
utf8_length [] = 0
utf8_length (c ∷ cs) =
    (if ltb c 0x80 then 1 else if ltb c 0x800 then 2 else if ltb c 0x10000 then 3 else 4)
    + utf8_length cs

unfoldable pub has_line_end : List ℕ → Bool
has_line_end [] = false
has_line_end (c ∷ cs) = c == 10 || c == 13 || has_line_end cs

abbrev pub is_empty : List ℕ → Bool
is_empty [] = true
is_empty (_ ∷ _) = false

unfoldable pub same_codes : List ℕ → List ℕ → Bool
same_codes [] [] = true
same_codes (c ∷ cs) (d ∷ ds) = c == d && same_codes cs ds
same_codes _ _ = false

pub record SigningContext : Type 0 where
  pub room : List ℕ
  pub nonce : List ℕ
  pub text : List ℕ
  pub canonical : List ℕ
  pub text_sha256 : String
  pub canonical_sha256 : String

-- An external challenge: none, bytes that are no UTF-8, or the text they decode to.
pub data Challenge : Type 0 where
  absent undecodable : Challenge
  decoded : List ℕ → Challenge

abbrev pub mismatches : Challenge → List ℕ → Bool
mismatches absent canonical = false
mismatches undecodable canonical = true
mismatches (decoded challenge) canonical = not (same_codes challenge canonical)

-- `f"{room}|{nonce}|{text}"`
unfoldable pub canonical_text : List ℕ → List ℕ → List ℕ → List ℕ
canonical_text room nonce text = room ++ (b'|' ∷ (nonce ++ (b'|' ∷ text)))

pub data ActionClass : Type 0 where
  identity_sign receipt_sign signed_room_post unreviewed_action : ActionClass

abbrev pub is_reviewed : ActionClass → Bool
is_reviewed unreviewed_action = false
is_reviewed _ = true

-- The fields of the binding, whose canonical JSON is the subject.
pub record Subject : Type 0 where
  pub room : List ℕ
  pub nonce : List ℕ
  pub text_sha256 : String
  pub canonical_sha256 : String
  pub action_class : ActionClass
  pub target : List ℕ
  pub revision : String
  pub config_version : List ℕ

pub record Material : Type 0 where
  pub subject : Subject
  pub target : List ℕ
  pub payload : List ℕ
  pub purpose : List ℕ

abbrev pub subject_of : SigningContext → ActionClass → List ℕ → String → List ℕ → Subject
subject_of context action target revision config_version = record {
  room = context.room;
  nonce = context.nonce;
  text_sha256 = context.text_sha256;
  canonical_sha256 = context.canonical_sha256;
  action_class = action;
  target = target;
  revision = revision;
  config_version = config_version;
}

unfoldable pub material_builder :
    SigningContext → ActionClass → List ℕ → String → List ℕ → List ℕ → Result WireError Material
material_builder context action target revision config_version purpose = do
  raise_if (not (is_reviewed action)) action_invalid
  raise_if (not (is_revision revision)) revision_invalid
  raise_if (is_empty target || is_empty config_version || is_empty purpose) binding_invalid
  ok (record {
    subject = subject_of context action target revision config_version;
    target = target;
    payload = context.canonical;
    purpose = purpose;
  })

-- `sha256` is SHA-256 of the UTF-8 bytes, in hexadecimal.
module _ (sha256 : List ℕ → String) where
  abbrev pub new_context : List ℕ → List ℕ → List ℕ → SigningContext
  new_context room nonce text = record {
    room = room;
    nonce = nonce;
    text = text;
    canonical = canonical_text room nonce text;
    text_sha256 = sha256 text;
    canonical_sha256 = sha256 (canonical_text room nonce text);
  }

  unfoldable pub context_builder :
      List ℕ → List ℕ → List ℕ → Challenge → Result WireError SigningContext
  context_builder room nonce text challenge = do
    raise_if (not (is_public_room room)) room_invalid
    raise_if (not (is_nonce_text nonce) || ltb max_protocol_nonce (decimal nonce)) nonce_invalid
    raise_if (has_surrogate text) frame_utf8_invalid
    raise_if (ltb 16384 (utf8_length text) || ltb 4096 (length text)) frame_too_large
    raise_if (has_line_end text) frame_multiline
    raise_if (is_empty text) frame_syntax_invalid
    raise_if (mismatches challenge (canonical_text room nonce text)) signing_context_mismatch
    ok (new_context room nonce text)
