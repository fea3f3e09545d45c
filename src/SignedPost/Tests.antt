-- ===== src/SignedPost/Tests.antt =====
-- A post that is confirmed, and one that is tried again, and instances of the theorems.
use Prim.Native.String.{String}
use flop_agent_intelligence.Common.{
  ℕ, leb, length, if◌then◌else◌, ◌≡◌, refl, true, false, some, List, [], ◌∷◌,
}
use flop_agent_intelligence.Common.Text.{
  codes, all_codes, count_codes, is_room_codes, is_revision, is_sha256,
}
use flop_agent_intelligence.WireEvidence.Types.{evidence_confirmed}
use flop_agent_intelligence.WireEvidence.Stages.{look_up, advance_readback}
use flop_agent_intelligence.WireEvidence.Nonce.{is_nonce_text, decimal_from}
use flop_agent_intelligence.WireEvidence.Signing.{
  starts_with, contains, is_public_room, has_surrogate, utf8_length, has_line_end, same_codes,
  absent, canonical_text, material_builder, context_builder,
}
use flop_agent_intelligence.SignedPost.Fence.{has_scope, has_operation, reserve}
use flop_agent_intelligence.SignedPost.Post.{
  Message, replied, messages, Request, Surroundings, World, Receipt, matches, read_back, prepared,
  prepare, post,
}
use flop_agent_intelligence.SignedPost.Once.{IsOnce, world_after, world_after-IsOnce}
use flop_agent_intelligence.SignedPost.Confirmed.{IsConfirmed, post-IsConfirmed}

abbrev sha256 : List ℕ → String
sha256 cs = if leb (length cs) 9 then "short" else "long"

abbrev digest : List (List ℕ) → String
digest (d ∷ r ∷ n ∷ []) =
    if leb (length n) 2
    then "00112233445566778899aabbccddeeff00112233445566778899aabbccddeeff"
    else "ffeeddccbbaa99887766554433221100ffeeddccbbaa99887766554433221100"
digest _ = "none"

abbrev message : Message
message = record {
  author = codes "did";
  nonce = codes "17";
  text = codes "hello";
  signature = some "signature";
}

abbrev request : Request
request = record {
  room = codes "intel_flop";
  text = codes "hello";
  nonce = codes "17";
  revision = "00112233445566778899aabbccddeeff00112233";
  config_version = codes "v1";
  purpose = codes "post";
  challenge = absent;
}

abbrev surroundings : Surroundings
surroundings = record {
  sweep = λ text. text;
  has_capability = λ m. true;
  did = codes "did";
  sign = λ room nonce text. ("signature", text);
  faults = record { unsafe_journal = false; commit_failed = false; sync_failed = false };
  written = replied tt;
  view = replied (messages (message ∷ []));
  verifies = λ did signature room nonce text. true;
}

abbrev empty : World
empty = record { attempts = []; sent = [] }

abbrev receipt : Receipt
receipt = record { message = message; write_effect = evidence_confirmed }

post-IsConfirmed_example :
    IsConfirmed surroundings (prepared surroundings request) receipt
    × ((post sha256 digest surroundings request empty).1.sent
        ≡ (prepared surroundings request).entry ∷ [])
unfolding post prepare read_back matches reserve has_scope has_operation is_sha256 is_revision
    material_builder context_builder canonical_text is_public_room is_room_codes all_codes
    count_codes starts_with contains is_nonce_text decimal_from has_surrogate utf8_length
    has_line_end same_codes advance_readback look_up
post-IsConfirmed_example =
    post-IsConfirmed sha256 digest surroundings request empty
      (post sha256 digest surroundings request empty).1 receipt refl

abbrev calls : List (Surroundings × Request)
calls = (surroundings, request) ∷ (surroundings, request) ∷ []

world_after-IsOnce_example : IsOnce (world_after sha256 digest calls).sent
world_after-IsOnce_example = world_after-IsOnce sha256 digest calls
