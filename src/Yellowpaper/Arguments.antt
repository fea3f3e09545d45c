-- ===== src/Yellowpaper/Arguments.antt =====
-- `_uint`, `_hash` and `require_profile` of yellowpaper_wire.py, on arguments of any type.
use Prim.Native.Nat.{◌^◌}
use Prim.Native.String.{String}
use text.Mathlib.Text.{◌==◌ as str_eq}
use flop_agent_intelligence.Common.{
  ℕ, ◌<◌, ◌≡◌, refl, Bool, true, false, not, List, ltb, ◌==◌, if◌then◌else◌, length, arith,
}
use flop_agent_intelligence.Common.Result.{Result, ok, err, raise_if, ok-injective}

-- The texts of the `ValueError`s.
pub data WireError : Type 0 where
  unsigned_integer_invalid hash_invalid unknown_wire_version unknown_settlement_path : WireError
  tariff_exceeds_escrow unknown_receipt_version receipt_binding_mismatch : WireError
  explicit_legacy_mode_required transcript_size_invalid blob_invalid channel_mismatch : WireError
  duplicate_turn decode_policy_mismatch decode_policy_invalid decode_policy_truncated : WireError
  unknown_policy_version unknown_policy_class unknown_output_transform : WireError
  decode_policy_trailing_bytes : WireError

-- An argument that should be a number: one that is not negative, a negative one, another type.
pub data Number : Type 0 where
  natural : ℕ → Number
  negative : ℕ → Number
  no_int : Number

-- An argument that should be bytes.
pub data Bytes : Type 0 where
  bytes : List ℕ → Bytes
  no_bytes : Bytes

-- `_uint(value, bits)`
unfoldable pub uint : Number → ℕ → Result WireError ℕ
uint (natural n) bits = if ltb n (2 ^ bits) then ok n else err unsigned_integer_invalid
uint _ bits = err unsigned_integer_invalid

-- `_hash(value)`
unfoldable pub hash : Bytes → Result WireError (List ℕ)
hash (bytes b) = if length b == 32 then ok b else err hash_invalid
hash no_bytes = err hash_invalid

abbrev pub require_profile : String → Result WireError (Unit {0})
require_profile p = raise_if (not (str_eq p "flop-wire-v1")) unknown_wire_version

pub record InRange (v : Number) (bits n : ℕ) : Type 0 where
  pub value : v ≡ natural n
  pub below : n < 2 ^ bits

pub uint-InRange : (v : Number) (bits n : ℕ) → uint v bits ≡ ok n → InRange v bits n
unfolding uint
uint-InRange (natural m) bits n h = go (ltb m (2 ^ bits)) refl h
  where
    go :
        (b : Bool)
        → ltb m (2 ^ bits) ≡ b
        → (if b then ok m else err unsigned_integer_invalid) ≡ ok n
        → InRange (natural m) bits n
    go true q e =
        let p : m ≡ n = ok-injective e in record { value = cc; below = ground (arith, p, q) }
    go false q e = cc
uint-InRange (negative m) bits n h = cc
uint-InRange no_int bits n h = cc

pub InRange-uint : (v : Number) (bits n : ℕ) → InRange v bits n → uint v bits ≡ ok n
unfolding uint
InRange-uint v bits n h = rw h.value (ground (arith, h.below))
