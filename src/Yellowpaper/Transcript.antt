-- ===== src/Yellowpaper/Transcript.antt =====
-- `decode_transcript` of yellowpaper_wire.py; the reference implementation's decoder is an argument.
use Prim.Native.String.{String}
use flop_agent_intelligence.Common.{
  ℕ, Bool, true, false, not, ◌&&◌, ◌||◌, Option, none, some, List, [], ◌∷◌, ltb, ◌==◌, length,
}
use flop_agent_intelligence.Common.Result.{Result, ok, err, raise_if, ◌>>=◌, ◌>>◌}
use flop_agent_intelligence.WireEvidence.Signing.{same_codes}
use flop_agent_intelligence.Yellowpaper.Arguments.{
  WireError, explicit_legacy_mode_required, transcript_size_invalid, channel_mismatch,
  duplicate_turn, decode_policy_mismatch, Bytes, bytes, no_bytes, hash, require_profile,
}

pub record Turn : Type 0 where
  pub turn_index : ℕ
  pub leaf_version : ℕ
  pub decode_policy_hash : List ℕ

-- `turn.turn_index in indices`
unfoldable pub is_seen : ℕ → List ℕ → Bool
is_seen n [] = false
is_seen n (m ∷ ms) = m == n || is_seen n ms

abbrev pub follows_policy : Option (List ℕ) → Turn → Bool
follows_policy none t = true
follows_policy (some h) t = not (ltb t.leaf_version 2) && same_codes t.decode_policy_hash h

-- The loop over the turns; `indices` are those of the turns before.
unfoldable pub check_turns : Option (List ℕ) → List ℕ → List Turn → Result WireError (Unit {0})
check_turns policy indices [] = ok tt
check_turns policy indices (t ∷ ts) =
    let rest = check_turns policy (t.turn_index ∷ indices) ts in
    raise_if (is_seen t.turn_index indices) duplicate_turn
    >> (raise_if (not (follows_policy policy t)) decode_policy_mismatch >> rest)

unfoldable pub policy_of : Option Bytes → Result WireError (Option (List ℕ))
policy_of none = ok none
policy_of (some b) = hash b >>= λ h. ok (some h)

abbrev pub is_given : Option Bytes → Bool
is_given none = false
is_given (some b) = true

unfoldable pub blob_of : Bytes → Result WireError (List ℕ)
blob_of no_bytes = err transcript_size_invalid
blob_of (bytes b) = raise_if (ltb 2097152 (length b)) transcript_size_invalid >> ok b

module _ (decode_transcript_blob : List ℕ → Result WireError (List ℕ × List Turn)) where
  unfoldable pub decode_transcript :
      String
      → (raw expected_channel : Bytes) → (policy_hash : Option Bytes) → (legacy_mode : Bool)
      → Result WireError (List ℕ × List Turn)
  decode_transcript profile raw expected policy legacy =
      require_profile profile
      >> (hash expected >>= λ want.
          raise_if (not (is_given policy || legacy)) explicit_legacy_mode_required
          >> (policy_of policy >>= λ h. blob_of raw >>= λ b.
              decode_transcript_blob b >>= λ (channel, turns).
              raise_if (not (same_codes channel want)) channel_mismatch
              >> (check_turns h [] turns >> ok (channel, turns))))
