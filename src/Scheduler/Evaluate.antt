-- ===== src/Scheduler/Evaluate.antt =====
-- `_recent_attempts`, `evaluate` and `_record_failure` of engagement_scheduler.py.
use Prim.Native.Nat.{min, max}
use flop_agent_intelligence.Common.{
  ℕ, ◌+◌, ◌*◌, Bool, true, false, not, Option, none, some, List, [], ◌∷◌, ltb, leb, if◌then◌else◌,
  length,
}
use flop_agent_intelligence.Common.Result.{Result, ok, ◌>>=◌}
use flop_agent_intelligence.Scheduler.Types.{
  minute, daily_window, max_requests_per_day, failure_threshold, CircuitState, degraded,
  circuit_open, FailureClass, Outcome, scheduler_disabled, scheduler_ready, scheduler_min_interval,
  scheduler_not_before, daily_budget_exceeded, scheduler_circuit_open, Stamp, State, stamp,
}
use flop_agent_intelligence.Scheduler.Validate.{
  parse_stamp, parse_not_before, parse_optional, parse_all, validate_state,
}

-- The attempts after `now - window`; `a > now - window` is written `now < a + window`.
unfoldable pub within_window : ℕ → List ℕ → List ℕ
within_window now [] = []
within_window now (t ∷ ts) =
    let rest = within_window now ts in if ltb now (t + daily_window) then t ∷ rest else rest

unfoldable pub recent_attempts : State → ℕ → Result Outcome (List ℕ)
recent_attempts s now = parse_all s.attempts_24h now >>= λ ts. ok (within_window now ts)

abbrev pub is_circuit_open : CircuitState → Bool
is_circuit_open circuit_open = true
is_circuit_open _ = false

-- The decision; its other fields are copies of the fields of `state`.
pub record Decision : Type 0 where
  pub allowed : Bool
  pub outcome : Outcome
  pub next_eligible : ℕ
  pub next_eligible_at : Stamp
  pub requests_24h : ℕ
  pub state : State

abbrev pub is_ready : Outcome → Bool
is_ready scheduler_ready = true
is_ready _ = false

-- `now if last_attempt is None else last_attempt + configured_interval`
unfoldable pub next_spacing : State → Option ℕ → ℕ → ℕ
next_spacing s none now = now
next_spacing s (some last) now = last + max 30 s.normal_interval_minutes * minute

-- `now if len(attempts) < MAX_REQUESTS_PER_DAY else attempts[0] + DAILY_WINDOW`
unfoldable pub next_budget : List ℕ → ℕ → ℕ
next_budget [] now = now
next_budget (first ∷ rest) now =
    if ltb (length (first ∷ rest)) max_requests_per_day then now else first + daily_window

unfoldable pub decide : State → ℕ → ℕ → ℕ → ℕ → Outcome
decide s now not_before spacing requests =
    if is_circuit_open s.circuit_state
    then scheduler_circuit_open
    else if not s.scheduler_enabled
    then scheduler_disabled
    else if ltb now not_before
    then scheduler_not_before
    else if ltb now spacing
    then scheduler_min_interval
    else if leb max_requests_per_day requests
    then daily_budget_exceeded
    else scheduler_ready

abbrev pub or_now : Option ℕ → ℕ → ℕ
or_now none now = now
or_now (some t) now = t

unfoldable pub decision : State → ℕ → List ℕ → Option ℕ → Option ℕ → Decision
decision s now attempts last_attempt not_before_at =
    let spacing = next_spacing s last_attempt now in
    let not_before = or_now not_before_at now in
    let next = max now (max not_before (max spacing (next_budget attempts now))) in
    let outcome = decide s now not_before spacing (length attempts) in
    record {
      allowed = is_ready outcome;
      outcome = outcome;
      next_eligible = next;
      next_eligible_at = stamp next;
      requests_24h = length attempts;
      state = s;
    }

unfoldable pub evaluate : State → ℕ → Result Outcome Decision
evaluate raw now = do
  s ← validate_state raw now
  attempts ← recent_attempts s now
  last_attempt ← parse_optional parse_stamp s.last_attempt_at now
  not_before ← parse_optional parse_not_before s.not_before_at now
  ok (decision s now attempts last_attempt not_before)

unfoldable pub record_failure : State → FailureClass → State
record_failure s error_class =
    let failures = min failure_threshold (s.consecutive_failures + 1) in
    record s {
      consecutive_failures = failures;
      last_error_class = some error_class;
      run_in_progress = false;
      scheduler_enabled = ltb failures failure_threshold;
      circuit_state = if ltb failures failure_threshold then degraded else circuit_open;
    }
