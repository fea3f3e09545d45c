-- ===== src/Scheduler/Validate.antt =====
-- `_parse_stamp`, `_parse_not_before` and `validate_state` of engagement_scheduler.py.
use flop_agent_intelligence.Common.{
  ℕ, ◌+◌, ◌%◌, Bool, true, false, not, ◌&&◌, ◌||◌, Option, none, some, List, [], ◌∷◌, ltb, leb,
  ◌==◌, if◌then◌else◌, length,
}
use flop_agent_intelligence.Common.Result.{Result, ok, err, ◌>>=◌, ◌>>◌, raise_if}
use flop_agent_intelligence.Scheduler.Types.{
  second, daily_window, max_requests_per_day, failure_threshold, CircuitState, ready_disabled,
  ready, degraded, circuit_open, Outcome, state_invalid, v0_1, v0_2, Stamp, text, malformed, State,
}

unfoldable pub parse_stamp : Stamp → ℕ → Result Outcome ℕ
parse_stamp malformed now = err state_invalid
parse_stamp (text _ t) now = if ltb (now + second) t then err state_invalid else ok t

unfoldable pub parse_not_before : Stamp → ℕ → Result Outcome ℕ
parse_not_before malformed now = err state_invalid
parse_not_before (text n t) now =
    if not (n == 20) || not (t % second == 0) || ltb (now + daily_window) t
    then err state_invalid
    else ok t

-- `None if value[field] is None else parse(value[field], now)`
abbrev pub parse_optional :
    (Stamp → ℕ → Result Outcome ℕ) → Option Stamp → ℕ → Result Outcome (Option ℕ)
parse_optional parse none now = ok none
parse_optional parse (some s) now = parse s now >>= λ t. ok (some t)

unfoldable pub parse_all : List Stamp → ℕ → Result Outcome (List ℕ)
parse_all [] now = ok []
parse_all (s ∷ ss) now = parse_stamp s now >>= λ t. parse_all ss now >>= λ ts. ok (t ∷ ts)

-- `attempts == sorted(attempts) and len(set(attempts)) == len(attempts)`
unfoldable pub is_increasing : List ℕ → Bool
is_increasing [] = true
is_increasing (x ∷ []) = true
is_increasing (x ∷ y ∷ ys) = ltb x y && is_increasing (y ∷ ys)

abbrev pub is_ready_disabled : CircuitState → Bool
is_ready_disabled ready_disabled = true
is_ready_disabled _ = false

-- A legacy file is taken only disabled and idle, and gets the new key.
unfoldable pub upgrade : State → Result Outcome State
upgrade s = elim s.schema [
  | v0_2 ↦ ok s
  | v0_1 ↦
      if s.scheduler_enabled || not (is_ready_disabled s.circuit_state) || s.run_in_progress
      then err state_invalid
      else ok (record s { schema = v0_2; not_before_at = none })
]

unfoldable pub out_of_range : State → Bool
out_of_range s =
    not (leb 30 s.normal_interval_minutes && leb s.normal_interval_minutes 1440)
    || ltb failure_threshold s.consecutive_failures
    || ltb max_requests_per_day (length s.attempts_24h)

pub record Parsed : Type 0 where
  pub last_attempt : Option ℕ
  pub last_success : Option ℕ
  pub not_before : Option ℕ
  pub attempts : List ℕ

unfoldable pub parse_state : State → ℕ → Result Outcome Parsed
parse_state s now = do
  last_attempt ← parse_optional parse_stamp s.last_attempt_at now
  last_success ← parse_optional parse_stamp s.last_success_at now
  not_before ← parse_optional parse_not_before s.not_before_at now
  attempts ← parse_all s.attempts_24h now
  ok (record {
    last_attempt = last_attempt;
    last_success = last_success;
    not_before = not_before;
    attempts = attempts;
  })

abbrev pub is_none {ℓ} : {A : Type ℓ} → Option A → Bool
is_none none = true
is_none (some _) = false

abbrev pub circuit_mismatch : CircuitState → Bool → ℕ → Bool → Bool
circuit_mismatch ready_disabled enabled failures no_error = enabled || not (failures == 0)
circuit_mismatch ready enabled failures no_error = not enabled || not (failures == 0)
circuit_mismatch degraded enabled failures no_error = not enabled || not (failures == 1) || no_error
circuit_mismatch circuit_open enabled failures no_error =
    enabled || not (failures == failure_threshold) || no_error

-- A success needs an attempt, no earlier than it.
abbrev pub success_mismatch : Option ℕ → Option ℕ → Bool
success_mismatch none _ = false
success_mismatch (some success) none = true
success_mismatch (some success) (some attempt) = ltb attempt success

abbrev pub last_is : List ℕ → ℕ → Bool
last_is [] t = false
last_is (x ∷ []) t = x == t
last_is (x ∷ y ∷ ys) t = last_is (y ∷ ys) t

-- A last attempt in the window must be listed, and the list must end with the last attempt.
-- `last > now - window` is written `now < last + window`.
abbrev pub attempts_mismatch : List ℕ → Option ℕ → ℕ → Bool
attempts_mismatch [] none now = false
attempts_mismatch [] (some last) now = ltb now (last + daily_window)
attempts_mismatch (x ∷ xs) none now = true
attempts_mismatch (x ∷ xs) (some last) now = not (last_is (x ∷ xs) last)

unfoldable pub inconsistent : State → Parsed → ℕ → Bool
inconsistent s p now =
    circuit_mismatch s.circuit_state s.scheduler_enabled s.consecutive_failures
      (is_none s.last_error_class)
    || success_mismatch p.last_success p.last_attempt
    || attempts_mismatch p.attempts p.last_attempt now
    || (s.scheduler_enabled && is_none p.not_before)

unfoldable pub validate_state : State → ℕ → Result Outcome State
validate_state raw now = do
  value ← upgrade raw
  raise_if (out_of_range value) state_invalid
  p ← parse_state value now
  raise_if (not (is_increasing p.attempts)) state_invalid
  raise_if (inconsistent value p now) state_invalid
  ok value
