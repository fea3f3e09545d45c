-- ===== src/Scheduler/Validity.antt =====
-- What a successful `validate_state` gives, and what makes one succeed.
use mathlib.Core.Path.{subst}
use flop_agent_intelligence.Common.{ℕ, ◌≡◌, Bool, true, false, not, arith}
use flop_agent_intelligence.Common.Result.{
  Result, ok, ◌>>=◌, ◌>>◌, raise_if, >>=-eq-ok, >>-eq-ok, raise_if-eq-ok,
}
use flop_agent_intelligence.Scheduler.Types.{Outcome, state_invalid, v0_2, State}
use flop_agent_intelligence.Scheduler.Validate.{
  is_increasing, upgrade, out_of_range, Parsed, parse_state, inconsistent, validate_state,
}

-- The checks of `validate_state` on a state of the current schema.
pub record IsChecked (s : State) (now : ℕ) (p : Parsed) : Type 0 where
  pub schema : s.schema ≡ v0_2
  pub ranges : out_of_range s ≡ false
  pub parsed : parse_state s now ≡ ok p
  pub increasing : is_increasing p.attempts ≡ true
  pub consistent : inconsistent s p now ≡ false

-- The fields that an upgrade of a legacy file leaves alone.
pub record SameRun (s t : State) : Type 0 where
  pub last_attempt : t.last_attempt_at ≡ s.last_attempt_at
  pub attempts : t.attempts_24h ≡ s.attempts_24h
  pub busy : t.run_in_progress ≡ s.run_in_progress
  pub enabled : t.scheduler_enabled ≡ s.scheduler_enabled
  pub circuit : t.circuit_state ≡ s.circuit_state

not-eq-false : (b : Bool) → not b ≡ false → b ≡ true
not-eq-false b h = ground arith

ok_injective : {s t : State} → ◌≡◌ {A = Result Outcome State} (ok s) (ok t) → s ≡ t
ok_injective h = cc

upgrade-schema : (raw s : State) → upgrade raw ≡ ok s → s.schema ≡ v0_2
unfolding upgrade
upgrade-schema raw s h = ground arith

pub upgrade-SameRun : (raw s : State) → upgrade raw ≡ ok s → SameRun raw s
unfolding upgrade
upgrade-SameRun raw s h = ground arith

pub upgrade-current : (s : State) → s.schema ≡ v0_2 → upgrade s ≡ ok s
unfolding upgrade
upgrade-current s h = ground arith

checks-IsChecked :
    (v s : State) (now : ℕ)
    → v.schema ≡ v0_2
    → (do
      raise_if (out_of_range v) state_invalid
      p ← parse_state v now
      raise_if (not (is_increasing p.attempts)) state_invalid
      raise_if (inconsistent v p now) state_invalid
      ok v)
      ≡ ok s
    → (p : Parsed) × IsChecked v now p × (v ≡ s)
checks-IsChecked v s now e h =
    let (ranges, h1) = >>-eq-ok (raise_if (out_of_range v) state_invalid) _ h in
    let (p, parsed, h2) = >>=-eq-ok (parse_state v now) _ h1 in
    let (increasing, h3) =
      >>-eq-ok (raise_if (not (is_increasing p.attempts)) state_invalid) _ h2 in
    let (consistent, same) = >>-eq-ok (raise_if (inconsistent v p now) state_invalid) _ h3 in
    (
      p,
      record {
        schema = e;
        ranges = raise_if-eq-ok _ _ ranges;
        parsed = parsed;
        increasing = not-eq-false _ (raise_if-eq-ok _ _ increasing);
        consistent = raise_if-eq-ok _ _ consistent;
      },
      ok_injective same,
    )

pub validate-IsChecked :
    (raw s : State) (now : ℕ)
    → validate_state raw now ≡ ok s
    → (p : Parsed) × IsChecked s now p × (upgrade raw ≡ ok s)
unfolding validate_state
validate-IsChecked raw s now h =
    let (v, up, rest) = >>=-eq-ok (upgrade raw) _ h in
    let (p, c, e) = checks-IsChecked v s now (upgrade-schema raw v up) rest in
    subst (λ (t : State). (p : Parsed) × IsChecked t now p × (upgrade raw ≡ ok t)) e (p, c, up)

pub IsChecked-validate :
    (s : State) (now : ℕ) (p : Parsed) → IsChecked s now p → validate_state s now ≡ ok s
unfolding validate_state
IsChecked-validate s now p c =
    rw (upgrade-current s c.schema, c.ranges, c.parsed, c.increasing, c.consistent)
