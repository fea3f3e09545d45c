-- ===== src/Scheduler/Transitions.antt =====
-- `_persist_transition`, `enable_scheduled` and `disable_scheduled` of engagement_scheduler.py.
-- `now` is absent where the caller's clock has no time zone (`_transition_now`).
use flop_agent_intelligence.Common.{
  ℕ, ◌+◌, Bool, true, false, not, ◌||◌, Option, none, some, ◌==◌, if◌then◌else◌,
}
use native.Mathlib.Decide.{ℕ_discrete}
use flop_agent_intelligence.Common.Result.{ok, err}
use flop_agent_intelligence.Scheduler.Types.{
  normal_interval, CircuitState, ready_disabled, ready, Outcome, clock_invalid, enable_rejected,
  enabled_scheduled, disable_rejected, disabled_offline, state_write_failed, committed_not_durable,
  published_validation_failed, v0_2, State, stamp,
}
use flop_agent_intelligence.Scheduler.Validate.{is_ready_disabled, validate_state}
use flop_agent_intelligence.Scheduler.Run.{
  World, load_state, Fault, WriteResult, written, refused, os_error, write_state,
}

pub data CommitState : Type 0 where
  pre_commit published durable : CommitState

pub record TransitionResult : Type 0 where
  pub success : Bool
  pub outcome : Outcome
  pub commit_state : CommitState
  pub state : Option State

State-discrete : Discrete State
State-discrete = hlevel ℕ_discrete

abbrev pub transition_failed : Outcome → CommitState → Option State → TransitionResult
transition_failed outcome commit state = record {
  success = false;
  outcome = outcome;
  commit_state = commit;
  state = state;
}

-- The file is read again after the write, and compared with what was meant.
after_os_error : World → State → ℕ → TransitionResult
unfolding State-discrete
after_os_error w desired now = elim (load_state w now) [
  | err code ↦ transition_failed state_write_failed CommitState.pre_commit none
  | ok visible ↦ elim (State-discrete visible desired) [
    | yes _ ↦ transition_failed committed_not_durable CommitState.published (some visible)
    | no _ ↦ transition_failed state_write_failed CommitState.pre_commit (some visible)
  ]
]

after_written : World → State → ℕ → Outcome → TransitionResult
unfolding State-discrete
after_written w desired now success_outcome = elim (load_state w now) [
  | err code ↦ transition_failed published_validation_failed CommitState.durable none
  | ok visible ↦ elim (State-discrete visible desired) [
    | yes _ ↦ record {
      success = true;
      outcome = success_outcome;
      commit_state = CommitState.durable;
      state = some visible;
    }
    | no _ ↦ transition_failed published_validation_failed CommitState.durable (some visible)
  ]
]

-- A refusal of `write_state` is the caller's `except SchedulerStateError`.
transition_reply : WriteResult × World → State → ℕ → Outcome → TransitionResult
unfolding after_os_error after_written
transition_reply (written, w) desired now outcome = after_written w desired now outcome
transition_reply (refused code, w) desired now outcome =
    transition_failed code CommitState.pre_commit none
transition_reply (os_error, w) desired now outcome = after_os_error w desired now

unfoldable pub persist_transition : World → State → ℕ → Fault → Outcome → TransitionResult × World
unfolding transition_reply
persist_transition w desired now fault outcome =
    let r = write_state w desired now fault in (transition_reply r desired now outcome, r.1)

-- `validate_state(desired, now=now)` before the write.
abbrev pub checked_transition : World → State → ℕ → Fault → Outcome → TransitionResult × World
checked_transition w desired now fault outcome = elim (validate_state desired now) [
  | err code ↦ (transition_failed code CommitState.pre_commit none, w)
  | ok _ ↦ persist_transition w desired now fault outcome
]

abbrev pub is_circuit_ready : CircuitState → Bool
is_circuit_ready ready = true
is_circuit_ready _ = false

unfoldable pub enabled_state : State → ℕ → State
enabled_state s now = record s {
  schema = v0_2;
  scheduler_enabled = true;
  circuit_state = ready;
  not_before_at = some (stamp (now + normal_interval));
}

unfoldable pub disabled : State → State
disabled s = record s { scheduler_enabled = false; circuit_state = ready_disabled }

unfoldable pub enable_scheduled :
    World → Option ℕ → Option Outcome → Fault → TransitionResult × World
enable_scheduled w none lock fault =
    (transition_failed clock_invalid CommitState.pre_commit none, w)
enable_scheduled w (some now) (some code) fault =
    (transition_failed code CommitState.pre_commit none, w)
enable_scheduled w (some now) none fault = elim (load_state w now) [
  | err code ↦ (transition_failed code CommitState.pre_commit none, w)
  | ok s ↦
      if not (is_ready_disabled s.circuit_state)
        || s.scheduler_enabled
        || s.run_in_progress
        || not (s.consecutive_failures == 0)
      then (transition_failed enable_rejected CommitState.pre_commit (some s), w)
      else checked_transition w (enabled_state s now) now fault enabled_scheduled
]

unfoldable pub disable_scheduled :
    World → Option ℕ → Option Outcome → Fault → TransitionResult × World
disable_scheduled w none lock fault =
    (transition_failed clock_invalid CommitState.pre_commit none, w)
disable_scheduled w (some now) (some code) fault =
    (transition_failed code CommitState.pre_commit none, w)
disable_scheduled w (some now) none fault = elim (load_state w now) [
  | err code ↦ (transition_failed code CommitState.pre_commit none, w)
  | ok s ↦
      if not (is_circuit_ready s.circuit_state) || not s.scheduler_enabled || s.run_in_progress
      then (transition_failed disable_rejected CommitState.pre_commit (some s), w)
      else checked_transition w (disabled s) now fault disabled_offline
]
