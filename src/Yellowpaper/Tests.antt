-- ===== src/Yellowpaper/Tests.antt =====
-- Settlements, transcripts and policies with concrete arguments.
use flop_agent_intelligence.Common.{
  ℕ, suc, zero, ◌≡◌, ◌↔◌, refl, false, none, some, List, [], ◌∷◌, ◌++◌,
}
use flop_agent_intelligence.Common.Result.{Result, ok}
use flop_agent_intelligence.WireEvidence.Signing.{same_codes}
use flop_agent_intelligence.Yellowpaper.Arguments.{WireError, natural, bytes, uint, hash}
use flop_agent_intelligence.Yellowpaper.Settlement.{
  force_settle, Terms, require_path, amount, derive_payable,
}
use flop_agent_intelligence.Yellowpaper.Payable.{IsPayable, derive_payable-IsPayable}
use flop_agent_intelligence.Yellowpaper.Transcript.{
  Turn, is_seen, check_turns, policy_of, blob_of, decode_transcript,
}
use flop_agent_intelligence.Yellowpaper.Turns.{IsTranscript, decode_transcript-IsTranscript}
use flop_agent_intelligence.Yellowpaper.Policy.{decode_policy_hash}
use flop_agent_intelligence.Yellowpaper.Encoded.{IsEncoded, decode_policy_hash-IsEncoded}

abbrev terms : Terms
terms = record {
  path = force_settle;
  escrow = natural 50;
  turn_count = natural 3;
  aggregate_gn = natural 7;
  base_per_turn = natural 4;
  rate_g = natural 5;
  contract_payment = none;
}

derived : derive_payable terms ≡ ok 47
unfolding derive_payable uint require_path amount
derived = refl

derive_payable-IsPayable_example : (derive_payable terms ≡ ok 47) ↔ IsPayable terms 47
derive_payable-IsPayable_example = derive_payable-IsPayable terms 47

unfoldable zeros : ℕ → List ℕ
zeros zero = []
zeros (suc n) = 0 ∷ zeros n

abbrev zero_hash : List ℕ
zero_hash =
    0 ∷ 0 ∷ 0 ∷ 0 ∷ 0 ∷ 0 ∷ 0 ∷ 0 ∷ 0 ∷ 0 ∷ 0 ∷ 0 ∷ 0 ∷ 0 ∷ 0 ∷ 0 ∷ 0 ∷ 0 ∷ 0 ∷ 0 ∷ 0 ∷ 0 ∷ 0 ∷ 0
    ∷ 0 ∷ 0 ∷ 0 ∷ 0 ∷ 0 ∷ 0 ∷ 0 ∷ 0 ∷ []

abbrev turn : ℕ → Turn
turn n = record { turn_index = n; leaf_version = 3; decode_policy_hash = zero_hash }

abbrev two_turns : List Turn
two_turns = turn 4 ∷ turn 9 ∷ []

abbrev decode_blob : List ℕ → Result WireError (List ℕ × List Turn)
decode_blob b = ok (zero_hash, two_turns)

decoded :
    decode_transcript decode_blob "flop-wire-v1"
      (bytes (1 ∷ []))
      (bytes zero_hash)
      (some (bytes zero_hash))
      false
    ≡ ok (zero_hash, two_turns)
unfolding decode_transcript hash policy_of blob_of check_turns is_seen same_codes
decoded = refl

decode_transcript-IsTranscript_example :
    IsTranscript decode_blob
      (bytes (1 ∷ []))
      (bytes zero_hash)
      (some (bytes zero_hash))
      false
      zero_hash
      two_turns
decode_transcript-IsTranscript_example =
    decode_transcript-IsTranscript decode_blob "flop-wire-v1" (bytes (1 ∷ [])) (bytes zero_hash)
      (some (bytes zero_hash)) false zero_hash two_turns decoded

abbrev first_bytes : List ℕ → List ℕ
first_bytes raw = zero_hash

abbrev raw_policy : List ℕ
raw_policy = 1 ∷ 0 ∷ 2 ∷ (zeros 90 ++ 0 ∷ zeros 32)

decode_policy_hash-IsEncoded_example :
    (decode_policy_hash first_bytes (bytes raw_policy) ≡ ok zero_hash)
    ↔ IsEncoded first_bytes raw_policy zero_hash
decode_policy_hash-IsEncoded_example = decode_policy_hash-IsEncoded first_bytes raw_policy zero_hash
