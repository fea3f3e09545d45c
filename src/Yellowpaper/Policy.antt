-- ===== src/Yellowpaper/Policy.antt =====
-- `decode_policy_hash` of yellowpaper_wire.py: the structure of a decode policy before it is hashed.
-- `offset` is kept as the bytes that are left.
use flop_agent_intelligence.Common.{
  ℕ, zero, suc, Bool, true, false, not, ◌&&◌, List, [], ◌∷◌, ◌++◌, ltb, ◌==◌, length,
}
use flop_agent_intelligence.Common.Result.{Result, ok, err, raise_if, ◌>>=◌, ◌>>◌}
use flop_agent_intelligence.Yellowpaper.Arguments.{
  WireError, decode_policy_invalid, decode_policy_truncated, unknown_policy_version,
  unknown_policy_class, unknown_output_transform, decode_policy_trailing_bytes, Bytes, bytes,
  no_bytes,
}

abbrev pub cons_taken : ℕ → Result WireError (List ℕ × List ℕ) → Result WireError (List ℕ × List ℕ)
cons_taken b (ok (taken, rest)) = ok (b ∷ taken, rest)
cons_taken b (err e) = err e

-- `take(size)`: the next bytes and those that are left
unfoldable pub take : ℕ → List ℕ → Result WireError (List ℕ × List ℕ)
take zero raw = ok ([], raw)
take (suc n) [] = err decode_policy_truncated
take (suc n) (b ∷ raw) = cons_taken b (take n raw)

-- `take(size)` whose value is not used
abbrev pub skip : ℕ → List ℕ → Result WireError (List ℕ)
skip n raw = take n raw >>= λ (taken, rest). ok rest

-- `take(1)[0]`
unfoldable pub take_one : List ℕ → Result WireError (ℕ × List ℕ)
take_one [] = err decode_policy_truncated
take_one (b ∷ raw) = ok (b, raw)

abbrev pub skip_if : Bool → ℕ → List ℕ → Result WireError (List ℕ)
skip_if true n raw = skip n raw
skip_if false n raw = ok raw

abbrev pub is_version_one : List ℕ → Bool
is_version_one (a ∷ b ∷ []) = a == 1 && b == 0
is_version_one _ = false

abbrev pub is_empty : List ℕ → Bool
is_empty [] = true
is_empty (b ∷ raw) = false

-- From the tokenizer's hash to the end.
unfoldable pub check_tail : List ℕ → Result WireError (Unit {0})
check_tail raw = skip 32 raw >>= λ raw. skip 26 raw >>= λ raw. skip 32 raw >>= λ raw.
    take_one raw >>= λ (transform, raw).
    raise_if (ltb 1 transform) unknown_output_transform
    >> (skip_if (transform == 1) 32 raw >>= λ raw.
        skip 32 raw >>= λ raw. raise_if (not (is_empty raw)) decode_policy_trailing_bytes)

unfoldable pub check_policy : List ℕ → Result WireError (Unit {0})
check_policy raw = take 2 raw >>= λ (version, raw).
    raise_if (not (is_version_one version)) unknown_policy_version
    >> (take_one raw >>= λ (tag, raw).
        raise_if (ltb 4 tag) unknown_policy_class
        >> (skip_if (tag == 4) 2 raw >>= λ raw. check_tail raw))

-- `b"FLOP_DECODE_POLICY_HASH_V1"`
abbrev pub policy_domain : List ℕ
policy_domain =
    b'F' ∷ b'L' ∷ b'O' ∷ b'P' ∷ b'_' ∷ b'D' ∷ b'E' ∷ b'C' ∷ b'O' ∷ b'D' ∷ b'E' ∷ b'_' ∷ b'P' ∷ b'O'
    ∷ b'L' ∷ b'I' ∷ b'C' ∷ b'Y' ∷ b'_' ∷ b'H' ∷ b'A' ∷ b'S' ∷ b'H' ∷ b'_' ∷ b'V' ∷ b'1' ∷ []

module _ (sha256 : List ℕ → List ℕ) where
  unfoldable pub decode_policy_hash : Bytes → Result WireError (List ℕ)
  decode_policy_hash no_bytes = err decode_policy_invalid
  decode_policy_hash (bytes raw) =
      raise_if (ltb 256 (length raw)) decode_policy_invalid
      >> (check_policy raw >> ok (sha256 (policy_domain ++ raw)))
