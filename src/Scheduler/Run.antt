-- ===== src/Scheduler/Run.antt =====
-- The state file, `run_once` and `approve_reset` of engagement_scheduler.py.
use flop_agent_intelligence.Common.{
  ℕ, Bool, true, false, not, Option, none, some, List, [], ◌∷◌, ◌++◌, map, ◌==◌, if◌then◌else◌,
}
use flop_agent_intelligence.Common.Result.{Result, ok, err, ◌>>=◌}
use flop_agent_intelligence.Scheduler.Types.{
  CircuitState, ready_disabled, ready, FailureClass, validation_failed, worker_crashed, Outcome,
  state_missing, state_invalid, state_permissions, collection_succeeded, collection_failed,
  reset_approved, recovered_interrupted_run, State, stamp,
}
use flop_agent_intelligence.Scheduler.Validate.{validate_state}
use flop_agent_intelligence.Scheduler.Evaluate.{
  recent_attempts, is_circuit_open, Decision, evaluate, record_failure,
}

-- The file: its permission bits, and its state if it is JSON of the shape of `State`.
pub record Entry : Type 0 where
  pub mode : ℕ
  pub content : Option State

-- `calls` are the instants of the collector's calls, the latest first.
pub record World : Type 0 where
  pub file : Option Entry
  pub calls : List ℕ

unfoldable pub read_entry : Option Entry → ℕ → Result Outcome State
read_entry none now = err state_missing
read_entry (some e) now =
    if not (e.mode == 0o600)
    then err state_permissions
    else elim e.content [ none ↦ err state_invalid | some s ↦ validate_state s now ]

unfoldable pub load_state : World → ℕ → Result Outcome State
load_state w now = read_entry w.file now

-- Where the operating system fails in `write_state`: not at all, before the rename or after it.
pub data Fault : Type 0 where
  no_fault before_replace after_replace : Fault

pub data WriteResult : Type 0 where
  written : WriteResult
  refused : Outcome → WriteResult
  os_error : WriteResult

unfoldable pub publish : World → State → World
publish w s = record w { file = some (record { mode = 0o600; content = some s }) }

unfoldable pub write_state : World → State → ℕ → Fault → WriteResult × World
write_state w s now fault = elim (validate_state s now) [
  | err code ↦ (refused code, w)
  | ok v ↦ elim fault [
    | no_fault ↦ (written, publish w v)
    | before_replace ↦ (os_error, w)
    | after_replace ↦ (os_error, publish w v)
  ]
]

pub record RunResult : Type 0 where
  pub success : Bool
  pub outcome : Outcome
  pub error_class : Option FailureClass
  pub circuit_state : Option CircuitState
  pub collector_invocations : ℕ

-- What a call gives back: a result, or the `OSError` of a write, which is not caught.
pub data Reply : Type 0 where
  returned : RunResult → Reply
  raised_os_error : Reply

abbrev pub refusal : Outcome → Option CircuitState → Reply
refusal code circuit = returned (record {
  success = false;
  outcome = code;
  error_class = none;
  circuit_state = circuit;
  collector_invocations = 0;
})

abbrev pub reply_of : WriteResult → RunResult → Reply
reply_of written r = returned r
reply_of (refused code) r = refusal code none
reply_of os_error r = raised_os_error

-- A collector's result: `success is True`, and its error class if that is a known one; or a raise.
pub data Collected : Type 0 where
  result : (success : Bool) (error_class : Option FailureClass) → Collected
  exception : Collected

-- The first half of `run_once` ends it, or hands the state on to the collector's call.
pub data Started : Type 0 where
  finished : Reply → Started
  started : State → Started

-- The state that is written before the collector is called.
unfoldable pub attempt_state : State → ℕ → List ℕ → State
attempt_state s now attempts = record s {
  last_attempt_at = some (stamp now);
  attempts_24h = map stamp (attempts ++ now ∷ []);
  run_in_progress = true;
}

abbrev pub start_written : WriteResult × World → State → Started × World
start_written (written, w) s = (started s, w)
start_written (refused code, w) s = (finished (refusal code none), w)
start_written (os_error, w) s = (finished raised_os_error, w)

unfoldable pub attempt : World → State → ℕ → Fault → Started × World
attempt w s now fault = elim (recent_attempts s now) [
  | err code ↦ (finished (refusal code none), w)
  | ok attempts ↦
      let begun = attempt_state s now attempts in
      start_written (write_state w begun now fault) begun
]

unfoldable pub recover : World → State → ℕ → Fault → Started × World
recover w s now fault =
    let failed = record_failure s worker_crashed in
    let (r, w') = write_state w failed now fault in
    (
      finished (
          reply_of r (record {
            success = false;
            outcome = recovered_interrupted_run;
            error_class = none;
            circuit_state = some failed.circuit_state;
            collector_invocations = 0;
          })),
      w',
    )

unfoldable pub start_loaded : World → State → ℕ → Fault → Started × World
start_loaded w s now fault =
    if s.run_in_progress then recover w s now fault else elim (evaluate s now) [
      | err code ↦ (finished (refusal code none), w)
      | ok d ↦
          if d.allowed
          then attempt w s now fault
          else (finished (refusal d.outcome (some s.circuit_state)), w)
    ]

-- `lock` is the code that `scheduler_lock` raises, if it does.
unfoldable pub start_run : World → ℕ → Option Outcome → Fault → Started × World
start_run w now (some code) fault = (finished (refusal code none), w)
start_run w now none fault = elim (load_state w now) [
  | err code ↦ (finished (refusal code none), w)
  | ok s ↦ start_loaded w s now fault
]

unfoldable pub call_collector : World → ℕ → World
call_collector w now = record w { calls = now ∷ w.calls }

abbrev pub succeeded : Collected → Bool
succeeded (result success _) = success
succeeded exception = false

abbrev pub failure_class : Collected → FailureClass
failure_class (result _ none) = validation_failed
failure_class (result _ (some c)) = c
failure_class exception = worker_crashed

unfoldable pub settle : State → ℕ → Collected → State
settle s now collected =
    if succeeded collected
    then record s {
      circuit_state = ready;
      scheduler_enabled = true;
      last_success_at = some (stamp now);
      consecutive_failures = 0;
      last_error_class = none;
      run_in_progress = false;
    }
    else record_failure s (failure_class collected)

unfoldable pub finish_run : World → State → ℕ → Collected → Fault → Reply × World
finish_run w s now collected fault =
    let settled = settle s now collected in
    let (r, w') = write_state w settled now fault in
    let success = succeeded collected in
    (
      reply_of r (record {
        success = success;
        outcome = if success then collection_succeeded else collection_failed;
        error_class = if success then none else some (failure_class collected);
        circuit_state = some settled.circuit_state;
        collector_invocations = 1;
      }),
      w',
    )

abbrev pub continue : Started × World → ℕ → Collected → Fault → Reply × World
continue (finished r, w) now collected fault = (r, w)
continue (started s, w) now collected fault =
    finish_run (call_collector w now) s now collected fault

unfoldable pub run_once : World → ℕ → Option Outcome → Fault → Collected → Fault → Reply × World
run_once w now lock fault collected fault' =
    continue (start_run w now lock fault) now collected fault'

unfoldable pub dry_run : World → ℕ → Option Outcome → Result Outcome Decision
dry_run w now (some code) = err code
dry_run w now none = load_state w now >>= λ s. evaluate s now

unfoldable pub reset_state : State → State
reset_state s = record s {
  scheduler_enabled = false;
  circuit_state = ready_disabled;
  consecutive_failures = 0;
  run_in_progress = false;
}

unfoldable pub approve_reset : World → ℕ → Option Outcome → Fault → Reply × World
approve_reset w now (some code) fault = (refusal code none, w)
approve_reset w now none fault = elim (load_state w now) [
  | err code ↦ (refusal code none, w)
  | ok s ↦
      if is_circuit_open s.circuit_state
      then (let (r, w') = write_state w (reset_state s) now fault in
          (
            reply_of r (record {
              success = true;
              outcome = reset_approved;
              error_class = none;
              circuit_state = some ready_disabled;
              collector_invocations = 0;
            }),
            w',
          ))
      else (refusal state_invalid none, w)
]
