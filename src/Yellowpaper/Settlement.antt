-- ===== src/Yellowpaper/Settlement.antt =====
-- `derive_payable`, `receipt_preimage` and `check_receipt` of yellowpaper_wire.py. The messages of the
-- reference implementation are arguments.
use flop_agent_intelligence.Common.{
  ℕ, ◌+◌, ◌*◌, Bool, true, false, not, Option, none, some, List, ltb,
}
use flop_agent_intelligence.Common.Result.{Result, ok, err, raise_if, ◌>>=◌, ◌>>◌}
use flop_agent_intelligence.Yellowpaper.Arguments.{
  WireError, unknown_settlement_path, tariff_exceeds_escrow, unknown_receipt_version,
  receipt_binding_mismatch, Number, natural, Bytes, uint, hash,
}

pub data SettlementPath : Type 0 where
  settle force_settle unknown_path : SettlementPath

pub record Terms : Type 0 where
  pub path : SettlementPath
  pub escrow : Number
  pub turn_count : Number
  pub aggregate_gn : Number
  pub base_per_turn : Number
  pub rate_g : Number
  pub contract_payment : Option Number

unfoldable pub require_path : SettlementPath → Result WireError (Unit {0})
require_path unknown_path = err unknown_settlement_path
require_path _ = ok tt

-- What is owed before it is compared with the escrow.
unfoldable pub amount : SettlementPath → Option Number → (escrow tariff : ℕ) → Result WireError ℕ
amount p (some c) escrow tariff = uint c 128
amount force_settle none escrow tariff = uint (natural tariff) 128
amount _ none escrow tariff = ok escrow

unfoldable pub derive_payable : Terms → Result WireError ℕ
derive_payable a = uint a.escrow 128 >>= λ escrow. uint a.turn_count 128 >>= λ turns.
    uint a.aggregate_gn 128 >>= λ gn. uint a.base_per_turn 128 >>= λ base.
    uint a.rate_g 128 >>= λ rate.
    require_path a.path
    >> (amount a.path a.contract_payment escrow (base * turns + rate * gn) >>= λ result.
        raise_if (ltb escrow result) tariff_exceeds_escrow >> ok result)

-- `wire_profile`: `1`, `None` or anything else
pub data WireProfile : Type 0 where
  version_one no_profile other_profile : WireProfile

pub record Messages : Type 0 where
  pub receipt_message_v1 : List ℕ → List ℕ → ℕ → ℕ → List ℕ
  pub legacy_receipt_message : List ℕ → List ℕ → ℕ → ℕ → List ℕ
  pub same_bytes : List ℕ → List ℕ → Bool

module _ (wire : Messages) where
  abbrev pub message : WireProfile → Bool → List ℕ → List ℕ → ℕ → ℕ → Result WireError (List ℕ)
  message version_one legacy channel root gn payable =
      ok (wire.receipt_message_v1 channel root gn payable)
  message no_profile true channel root gn payable =
      ok (wire.legacy_receipt_message channel root gn payable)
  message _ _ channel root gn payable = err unknown_receipt_version

  unfoldable pub receipt_preimage :
      (channel root : Bytes) (gn payable : Number) → WireProfile → Bool → Result WireError (List ℕ)
  receipt_preimage channel root gn payable profile legacy = hash channel >>= λ c. hash root >>= λ r.
      uint gn 128 >>= λ g. uint payable 128 >>= λ p. message profile legacy c r g p

  -- The payable of a receipt that binds to these terms.
  unfoldable pub check_receipt :
      List ℕ → (channel root : Bytes) → Terms → WireProfile → Result WireError ℕ
  check_receipt raw channel root terms profile = derive_payable terms >>= λ payable.
      receipt_preimage channel root terms.aggregate_gn (natural payable) profile false
      >>= λ preimage.
          raise_if (not (wire.same_bytes raw preimage)) receipt_binding_mismatch >> ok payable
