-- ===== src/Yellowpaper/Payable.antt =====
-- What is owed, and what `derive_payable` makes of it.
use Prim.Native.Nat.{◌^◌}
use flop_agent_intelligence.Common.{
  ℕ, ◌+◌, ◌*◌, ◌≤◌, ◌<◌, ◌≡◌, ◌≢◌, ◌↔◌, refl, sym, ap, ◌∙◌, false, Option, none, some, ltb, arith,
}
use mathlib.Core.Path.{subst}
use flop_agent_intelligence.Common.Result.{
  ok, raise_if, >>=-eq-ok, >>-eq-ok, raise_if-eq-ok, ok-injective,
}
use flop_agent_intelligence.Yellowpaper.Arguments.{
  WireError, Number, natural, uint, InRange, uint-InRange, InRange-uint,
}
use flop_agent_intelligence.Yellowpaper.Settlement.{
  SettlementPath, settle, force_settle, unknown_path, Terms, require_path, amount, derive_payable,
}

-- A payment that the contract fixes; the whole escrow; the tariff.
pub data Owed : SettlementPath → Option Number → (escrow tariff payable : ℕ) → Type 0 where
  fixed :
      (p : SettlementPath) (escrow tariff c : ℕ)
      → p ≢ unknown_path
      → Owed p (some (natural c)) escrow tariff c
  whole : (escrow tariff : ℕ) → Owed settle none escrow tariff escrow
  metered : (escrow tariff : ℕ) → Owed force_settle none escrow tariff tariff

pub record IsPayable (a : Terms) (p : ℕ) : Type 0 where
  pub escrow : ℕ
  pub turns : ℕ
  pub gn : ℕ
  pub base : ℕ
  pub rate : ℕ
  pub escrow_in : InRange a.escrow 128 escrow
  pub turns_in : InRange a.turn_count 128 turns
  pub gn_in : InRange a.aggregate_gn 128 gn
  pub base_in : InRange a.base_per_turn 128 base
  pub rate_in : InRange a.rate_g 128 rate
  pub owed : Owed a.path a.contract_payment escrow (base * turns + rate * gn) p
  pub affordable : p ≤ escrow

natural-injective : {m n : ℕ} → natural m ≡ natural n → m ≡ n
natural-injective h = cc

known_path : (q : SettlementPath) → require_path q ≡ ok tt → q ≢ unknown_path
unfolding require_path
known_path settle h e = cc
known_path force_settle h e = cc
known_path unknown_path h e = cc

amount-Owed :
    (q : SettlementPath) (c : Option Number) (e t p : ℕ)
    → require_path q ≡ ok tt
    → amount q c e t ≡ ok p
    → Owed q c e t p
unfolding amount require_path
amount-Owed settle none e t p h k = subst (Owed settle none e t) (ok-injective k) (whole e t)
amount-Owed force_settle none e t p h k =
    let r = uint-InRange (natural t) 128 p k in
    let q : t ≡ p = natural-injective r.value in subst (Owed force_settle none e t) q (metered e t)
amount-Owed unknown_path none e t p h k = cc
amount-Owed q (some c) e t p h k =
    let r = uint-InRange c 128 p k in
    subst (λ v. Owed q (some v) e t p) (sym r.value) (fixed q e t p (known_path q h))

Owed-amount :
    (q : SettlementPath) (c : Option Number) (e t p : ℕ)
    → Owed q c e t p
    → p < 2 ^ 128
    → (require_path q ≡ ok tt) × (amount q c e t ≡ ok p)
unfolding amount require_path
Owed-amount settle _ e t p (fixed _ _ _ _ k) h =
    (refl, InRange-uint (natural p) 128 p (record { value = refl; below = h }))
Owed-amount force_settle _ e t p (fixed _ _ _ _ k) h =
    (refl, InRange-uint (natural p) 128 p (record { value = refl; below = h }))
Owed-amount unknown_path _ e t p (fixed _ _ _ _ k) h = absurd (k refl)
Owed-amount _ _ e t p (whole _ _) h = (refl, refl)
Owed-amount _ _ e t p (metered _ _) h =
    (refl, InRange-uint (natural t) 128 t (record { value = refl; below = h }))

not-above : (p e : ℕ) → p ≤ e → ltb e p ≡ false
not-above p e h = ground arith

-- The payable is derived exactly if all five amounts are numbers below 2^128, the path is known, and
-- what is owed, the contract's payment, the whole escrow or the tariff of the turns, is not more than
-- the escrow; the payable is what is owed.
pub derive_payable-IsPayable : (a : Terms) (p : ℕ) → (derive_payable a ≡ ok p) ↔ IsPayable a p
unfolding derive_payable
derive_payable-IsPayable a p = (forth, back)
  where
    forth : derive_payable a ≡ ok p → IsPayable a p
    forth h =
        let (e, he, h1) = >>=-eq-ok (uint a.escrow 128) _ h in
        let (t, ht, h2) = >>=-eq-ok (uint a.turn_count 128) _ h1 in
        let (g, hg, h3) = >>=-eq-ok (uint a.aggregate_gn 128) _ h2 in
        let (b, hb, h4) = >>=-eq-ok (uint a.base_per_turn 128) _ h3 in
        let (r, hr, h5) = >>=-eq-ok (uint a.rate_g 128) _ h4 in
        let (hp, h6) = >>-eq-ok (require_path a.path) _ h5 in
        let (x, hx, h7) = >>=-eq-ok (amount a.path a.contract_payment e (b * t + r * g)) _ h6 in
        let (hl, h8) = >>-eq-ok (raise_if (ltb e x) WireError.tariff_exceeds_escrow) _ h7 in
        let q : x ≡ p = ok-injective h8 in
        let l : ltb e x ≡ false = raise_if-eq-ok (ltb e x) _ hl in
        record {
          escrow = e;
          turns = t;
          gn = g;
          base = b;
          rate = r;
          escrow_in = uint-InRange a.escrow 128 e he;
          turns_in = uint-InRange a.turn_count 128 t ht;
          gn_in = uint-InRange a.aggregate_gn 128 g hg;
          base_in = uint-InRange a.base_per_turn 128 b hb;
          rate_in = uint-InRange a.rate_g 128 r hr;
          owed = amount-Owed a.path a.contract_payment e (b * t + r * g) p hp (hx ∙ ap ok q);
          affordable = ground (arith, l, q);
        }

    back : IsPayable a p → derive_payable a ≡ ok p
    back h =
        let (hp, hx) =
          Owed-amount a.path a.contract_payment h.escrow (h.base * h.turns + h.rate * h.gn) p h.owed
            (omega (arith, h.affordable, h.escrow_in.below)) in
        let l : raise_if (ltb h.escrow p) WireError.tariff_exceeds_escrow ≡ ok tt =
          ap (λ b. raise_if b WireError.tariff_exceeds_escrow)
            (not-above p h.escrow h.affordable) in
        rw
          (
            InRange-uint a.escrow 128 h.escrow h.escrow_in,
            InRange-uint a.turn_count 128 h.turns h.turns_in,
            InRange-uint a.aggregate_gn 128 h.gn h.gn_in,
            InRange-uint a.base_per_turn 128 h.base h.base_in,
            InRange-uint a.rate_g 128 h.rate h.rate_in,
            hp,
            hx,
            l,
          )
          refl
