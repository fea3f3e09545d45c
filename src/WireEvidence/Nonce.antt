-- ===== src/WireEvidence/Nonce.antt =====
-- `NonceLexeme`, `parse_nonce` and `validate_unix_ms` of wire_evidence.py. A text is the list of its
-- code points.
use flop_agent_intelligence.Common.{
  ℕ, zero, suc, ◌+◌, ◌*◌, ◌-◌, ◌≤◌, ◌<◌, ◌≡◌, refl, Bool, true, false, not, ◌&&◌, List, [], ◌∷◌,
  ltb, leb, ◌==◌, arith,
}
use flop_agent_intelligence.Common.Text.{is_digit, all_codes, count_codes}
use flop_agent_intelligence.Common.Result.{Result, ok, ◌>>◌, raise_if}
use flop_agent_intelligence.WireEvidence.Types.{
  max_protocol_nonce, max_unix_ms, WireError, nonce_invalid, time_invalid,
}

-- `[1-9][0-9]{0,18}`
unfoldable pub is_nonce_text : List ℕ → Bool
is_nonce_text [] = false
is_nonce_text (c ∷ cs) =
    is_digit c && not (c == b'0') && leb (count_codes cs) 18 && all_codes is_digit cs

-- `int`, with the value of the digits before
unfoldable pub decimal_from : ℕ → List ℕ → ℕ
decimal_from before [] = before
decimal_from before (c ∷ cs) = decimal_from (before * 10 + (c - b'0')) cs

abbrev pub decimal : List ℕ → ℕ
decimal cs = decimal_from 0 cs

-- `NonceLexeme`, whose only field is the text
unfoldable pub parse_nonce : List ℕ → Result WireError (List ℕ)
parse_nonce cs = do
  raise_if (not (is_nonce_text cs)) nonce_invalid
  raise_if (ltb max_protocol_nonce (decimal cs)) nonce_invalid
  ok cs

unfoldable pub validate_unix_ms : ℕ → Result WireError ℕ
validate_unix_ms value = do raise_if (ltb max_unix_ms value) time_invalid; ok value

-- `bound`, ten times for each of `k` digits
scale : ℕ → ℕ → ℕ
scale zero bound = bound
scale (suc k) bound = scale k (10 * bound)

scale-grows : (k bound : ℕ) → bound ≤ scale k bound
unfolding scale
scale-grows zero bound = omega arith
scale-grows (suc k) bound = omega (arith, scale-grows k (10 * bound))

is_digit-bound : (c : ℕ) → is_digit c ≡ true → c - b'0' ≤ 9
is_digit-bound c h = ground arith

decimal_from-scale :
    (k bound before : ℕ) (cs : List ℕ)
    → before < bound
    → count_codes cs ≤ k
    → all_codes is_digit cs ≡ true
    → decimal_from before cs < scale k bound
unfolding decimal_from all_codes count_codes scale
decimal_from-scale k bound before [] h n d = omega (arith, scale-grows k bound)
decimal_from-scale zero bound before (c ∷ cs) h n d = omega arith
decimal_from-scale (suc k) bound before (c ∷ cs) h n d =
    let digit : is_digit c ≡ true = ground arith in
    let rest : all_codes is_digit cs ≡ true = ground arith in
    decimal_from-scale k (10 * bound) (before * 10 + (c - b'0')) cs
      (omega (arith, is_digit-bound c digit)) (omega arith) rest

is_nonce_text-bound :
    (cs : List ℕ) → is_nonce_text cs ≡ true → ltb max_protocol_nonce (decimal cs) ≡ false
unfolding is_nonce_text decimal_from all_codes count_codes scale
is_nonce_text-bound [] h = cc
is_nonce_text-bound (c ∷ cs) h =
    let digit : is_digit c ≡ true = ground arith in
    let rest : all_codes is_digit cs ≡ true = ground arith in
    let small : count_codes cs ≤ 18 = ground arith in
    let bound =
      decimal_from-scale 18 10 (c - b'0') cs (omega (arith, is_digit-bound c digit)) small rest in
    ground (arith, bound)

-- The range of a nonce is never missed: nineteen digits stay below the limit, so the pattern alone
-- decides.
pub parse_nonce-pattern :
    (cs : List ℕ) → parse_nonce cs ≡ (raise_if (not (is_nonce_text cs)) nonce_invalid >> ok cs)
unfolding parse_nonce
parse_nonce-pattern cs = go (is_nonce_text cs) (is_nonce_text-bound cs)
  where
    go :
        (b : Bool)
        → (b ≡ true → ltb max_protocol_nonce (decimal cs) ≡ false)
        → (do
          raise_if (not b) nonce_invalid
          raise_if (ltb max_protocol_nonce (decimal cs)) nonce_invalid
          ok cs)
          ≡ (raise_if (not b) nonce_invalid >> ok cs)
    go true h = rw (h refl) refl
    go false h = refl
