-- ===== src/Scheduler/Tests.antt =====
-- Runs of the scheduler's model, and instances of its theorems.
use flop_agent_intelligence.Common.{Bool, false, ℕ, ◌+◌, ◌*◌, ◌≡◌, refl, true, none, some, [], ◌∷◌}
use flop_agent_intelligence.Common.Result.{Result, err, ok}
use flop_agent_intelligence.Scheduler.Types.{
  Outcome, collection_succeeded, ready, minute, State, disabled_state, stamp,
}
use flop_agent_intelligence.Scheduler.Validate.{
  parse_stamp, parse_not_before, parse_all, is_increasing, upgrade, out_of_range, parse_state,
  inconsistent, validate_state,
}
use flop_agent_intelligence.Scheduler.Evaluate.{
  within_window, recent_attempts, next_spacing, next_budget, decide, Decision, decision, evaluate,
  record_failure,
}
use flop_agent_intelligence.Scheduler.Run.{
  World, no_fault, returned, result, exception, read_entry, load_state, publish, write_state,
  attempt_state, attempt, recover, start_loaded, start_run, call_collector, settle, finish_run,
  run_once,
}
use flop_agent_intelligence.Scheduler.Transitions.{
  persist_transition, enabled_state, enable_scheduled,
}
use flop_agent_intelligence.Scheduler.Runs.{begun_state, run_once-completes, run_once-blocked}
use flop_agent_intelligence.Scheduler.History.{here, next, provisioned, ran, enabled}
use flop_agent_intelligence.Scheduler.History.Rates.{AllSpaced, AllInBudget}
use flop_agent_intelligence.Scheduler.History.Accounts.{fresh, reach-IsRateLimited}

abbrev start : ℕ
start = 1000000000 * 1000000

abbrev first_run : ℕ
first_run = start + 60 * minute

abbrev second_run : ℕ
second_run = start + 121 * minute

abbrev offline : World
offline = publish fresh disabled_state

abbrev online : World
online = (enable_scheduled offline (some start) none no_fault).1

abbrev once : World
once = (run_once online first_run none no_fault (result true none) no_fault).1

abbrev twice : World
twice = (run_once once second_run none no_fault exception no_fault).1

once-calls : once.calls ≡ first_run ∷ []
unfolding load_state read_entry publish validate_state upgrade out_of_range parse_state inconsistent
    parse_stamp parse_not_before parse_all is_increasing stamp disabled_state enabled_state
    enable_scheduled persist_transition write_state evaluate recent_attempts within_window decision
    decide next_spacing next_budget attempt attempt_state start_loaded start_run call_collector
    settle finish_run run_once record_failure
once-calls = refl

twice-calls : twice.calls ≡ second_run ∷ first_run ∷ []
unfolding load_state read_entry publish validate_state upgrade out_of_range parse_state inconsistent
    parse_stamp parse_not_before parse_all is_increasing stamp disabled_state enabled_state
    enable_scheduled persist_transition write_state evaluate recent_attempts within_window decision
    decide next_spacing next_budget attempt attempt_state start_loaded start_run call_collector
    settle finish_run run_once record_failure
twice-calls = refl

reach-IsRateLimited_example : AllSpaced twice.calls × AllInBudget twice.calls
reach-IsRateLimited_example = reach-IsRateLimited (
    next
      (next (next (next here (provisioned fresh refl)) (enabled offline (some start) none no_fault))
        (ran online first_run none no_fault (result true none) no_fault))
      (ran once second_run none no_fault exception no_fault))

run_once-blocked_example : (run_once offline first_run none no_fault exception no_fault).1 ≡ offline
unfolding load_state read_entry publish validate_state upgrade out_of_range parse_state inconsistent
    parse_stamp parse_not_before parse_all is_increasing stamp disabled_state enabled_state
    enable_scheduled persist_transition write_state evaluate recent_attempts within_window decision
    decide next_spacing next_budget attempt attempt_state start_loaded start_run call_collector
    settle finish_run run_once record_failure
run_once-blocked_example =
    run_once-blocked offline first_run disabled_state none no_fault no_fault exception refl refl
      refl

abbrev enabled_once : State
enabled_once = enabled_state disabled_state start

abbrev first_decision : Decision
first_decision = decision enabled_once first_run [] none (some (start + 60 * minute))

run_once-completes_example :
    (once.calls ≡ first_run ∷ [])
    × (load_state once first_run
        ≡ ok (settle (begun_state enabled_once first_run) first_run (result true none)))
    × ((run_once online first_run none no_fault (result true none) no_fault).0
        ≡ returned (record {
          success = true;
          outcome = collection_succeeded;
          error_class = none;
          circuit_state = some ready;
          collector_invocations = 1;
        }))
unfolding load_state read_entry publish validate_state upgrade out_of_range parse_state inconsistent
    parse_stamp parse_not_before parse_all is_increasing stamp disabled_state enabled_state
    enable_scheduled persist_transition write_state evaluate recent_attempts within_window decision
    decide next_spacing next_budget attempt attempt_state start_loaded start_run call_collector
    settle finish_run run_once record_failure
run_once-completes_example =
    run_once-completes online first_run enabled_once first_decision refl refl refl refl tt
      (result true none)

abbrev offline_decision : Decision
offline_decision = decision disabled_state first_run [] none none

abbrev interrupted_offline : State
interrupted_offline = record disabled_state {
  run_in_progress = true;
  not_before_at = some (stamp start);
}

abbrev is_enabled : Result Outcome State → Bool
is_enabled (err _) = false
is_enabled (ok s) = s.scheduler_enabled

-- A disabled state with an interrupted run is valid, and its recovery enables the scheduler.
recovery_enables :
    is_enabled (
      load_state
        (run_once (publish fresh interrupted_offline) first_run none no_fault exception no_fault).1
        first_run)
    ≡ true
unfolding load_state read_entry publish validate_state upgrade out_of_range parse_state inconsistent
    parse_stamp parse_not_before parse_all is_increasing stamp disabled_state enabled_state
    enable_scheduled persist_transition write_state evaluate recent_attempts within_window decision
    decide next_spacing next_budget attempt attempt_state start_loaded start_run call_collector
    settle finish_run run_once record_failure recover
recovery_enables = refl
