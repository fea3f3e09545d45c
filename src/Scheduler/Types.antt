-- ===== src/Scheduler/Types.antt =====
-- The scheduler's state file (src/flop_agent/engagement_scheduler.py). Instants are microseconds.
-- A stamp is a text of the file: its length and the instant that it denotes, or a text that is no
-- UTC timestamp. `State` is an object with exactly the keys, JSON types and vocabularies that
-- `validate_state` demands; `Disk` says what a file holds where it has not that shape.
use flop_agent_intelligence.Common.{ℕ, ◌*◌, ◌/◌, Bool, false, Option, none, List, []}

abbrev pub second : ℕ
second = 1000000

abbrev pub minute : ℕ
minute = 60 * second

abbrev pub normal_interval : ℕ
normal_interval = 60 * minute

abbrev pub daily_window : ℕ
daily_window = 24 * 60 * minute

abbrev pub max_requests_per_day : ℕ
max_requests_per_day = 24

abbrev pub failure_threshold : ℕ
failure_threshold = 2

pub data CircuitState : Type 0 where
  ready_disabled ready degraded circuit_open : CircuitState

pub data FailureClass : Type 0 where
  http_open_timeout http_open_failed http_body_timeout http_body_failed : FailureClass
  total_deadline_exceeded validation_failed history_lock_timeout : FailureClass
  worker_protocol_error worker_crashed worker_startup_failed : FailureClass
  worker_cleanup_failed worker_cleanup_unverified : FailureClass
  collector_result_invalid collector_result_not_durable collector_preview_failed : FailureClass

-- The codes of `SchedulerStateError` and of the results.
pub data Outcome : Type 0 where
  scheduler_disabled scheduler_ready scheduler_min_interval scheduler_not_before : Outcome
  daily_budget_exceeded run_already_active scheduler_circuit_open : Outcome
  state_missing state_invalid state_permissions clock_invalid : Outcome
  collection_succeeded collection_failed reset_approved recovered_interrupted_run : Outcome
  enable_rejected enabled_scheduled disable_rejected disabled_offline : Outcome
  state_write_failed committed_not_durable published_validation_failed : Outcome

pub data Schema : Type 0 where
  v0_1 v0_2 : Schema

pub data Stamp : Type 0 where
  text : (len : ℕ) (instant : ℕ) → Stamp
  malformed : Stamp

pub record State : Type 0 where
  pub schema : Schema
  pub scheduler_enabled : Bool
  pub circuit_state : CircuitState
  pub normal_interval_minutes : ℕ
  pub last_attempt_at : Option Stamp
  pub last_success_at : Option Stamp
  pub consecutive_failures : ℕ
  pub last_error_class : Option FailureClass
  pub attempts_24h : List Stamp
  pub run_in_progress : Bool
  pub not_before_at : Option Stamp

-- `_stamp`: the microseconds are cut off, and the text has 20 characters.
unfoldable pub stamp : ℕ → Stamp
stamp t = text 20 (t / second * second)

unfoldable pub disabled_state : State
disabled_state = record {
  schema = v0_2;
  scheduler_enabled = false;
  circuit_state = ready_disabled;
  normal_interval_minutes = 60;
  last_attempt_at = none;
  last_success_at = none;
  consecutive_failures = 0;
  last_error_class = none;
  attempts_24h = [];
  run_in_progress = false;
  not_before_at = none;
}
