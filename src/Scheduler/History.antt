-- ===== src/Scheduler/History.antt =====
-- Sequences of operations on one state file, by any number of processes under the lock, and the
-- account that the file keeps of the collector's calls over them.
pub mod Rates
pub mod Accounts
use mathlib.Core.Path.{subst}
use flop_agent_intelligence.Common.{
  ℕ, ◌≤◌, ◌<◌, ◌≡◌, refl, sym, ◌⊎◌, inl, inr, Bool, true, false, Option, none, some, List, [], ◌∷◌,
  map, arith, Bool-cases,
}
use flop_agent_intelligence.Common.Result.{Result, ok, err}
use flop_agent_intelligence.Scheduler.Types.{
  max_requests_per_day, Outcome, State, stamp, disabled_state,
}
use flop_agent_intelligence.Scheduler.Validate.{validate_state}
use flop_agent_intelligence.Scheduler.Validity.{SameRun, validate-IsChecked, upgrade-SameRun}
use flop_agent_intelligence.Scheduler.Evaluate.{Decision, recent_attempts, evaluate}
use flop_agent_intelligence.Scheduler.Run.{
  World, Fault, no_fault, Started, finished, started, Reply, Collected, publish, write_state,
  load_state, call_collector, start_run, run_once, approve_reset,
}
use flop_agent_intelligence.Scheduler.Transitions.{enable_scheduled, disable_scheduled}
use flop_agent_intelligence.Scheduler.Writes.{
  content, load-content, write_state-cases, content-publish, calls-publish,
}
use flop_agent_intelligence.Scheduler.Tracking.{Tracks, floor, window_count}
use flop_agent_intelligence.Scheduler.Tracking.Attempt.{SpacedAfter}

-- One operation on the file. The environment chooses the instant, the lock's code, the faults of
-- the writes and the collector's result; `killed` is a process that dies in the collector's call.
pub data Step : World → World → Type 0 where
  provisioned : (w : World) → w.file ≡ none → Step w (publish w disabled_state)
  ran :
      (w : World) (now : ℕ) (lock : Option Outcome) (f : Fault) (c : Collected) (f' : Fault)
      → Step w (run_once w now lock f c f').1
  killed :
      (w w' : World) (now : ℕ) (lock : Option Outcome) (f : Fault) (s : State)
      → start_run w now lock f ≡ (started s, w')
      → Step w (call_collector w' now)
  reset :
      (w : World) (now : ℕ) (lock : Option Outcome) (f : Fault)
      → Step w (approve_reset w now lock f).1
  enabled :
      (w : World) (now : Option ℕ) (lock : Option Outcome) (f : Fault)
      → Step w (enable_scheduled w now lock f).1
  disabled :
      (w : World) (now : Option ℕ) (lock : Option Outcome) (f : Fault)
      → Step w (disable_scheduled w now lock f).1

pub data Reach (w : World) : World → Type 0 where
  here : Reach w w
  next : {u v : World} → Reach w u → Step u v → Reach w v

abbrev pub TracksContent : List ℕ → Option State → Type 0
TracksContent calls none = calls ≡ []
TracksContent calls (some s) = Tracks calls s.last_attempt_at s.attempts_24h

pub Tracks-same :
    (calls : List ℕ) (s t : State)
    → SameRun s t
    → Tracks calls s.last_attempt_at s.attempts_24h
    → Tracks calls t.last_attempt_at t.attempts_24h
Tracks-same calls s t same h = rw (same.last_attempt, same.attempts) h

pub validated_same : (raw s : State) (now : ℕ) → validate_state raw now ≡ ok s → SameRun raw s
validated_same raw s now h = upgrade-SameRun raw s (validate-IsChecked raw s now h).2

-- A write keeps the account if the written state does.
pub write_state-Tracks :
    (w : World) (s : State) (now : ℕ) (f : Fault) (calls : List ℕ)
    → TracksContent calls (content w)
    → Tracks calls s.last_attempt_at s.attempts_24h
    → TracksContent calls (content (write_state w s now f).1)
write_state-Tracks w s now f calls h t = elim (write_state-cases w s now f) [
  | inl e ↦ rw e h
  | inr (v, valid, e) ↦
      rw (e, content-publish) (Tracks-same calls s v (validated_same s v now valid) t)
]

-- A loaded state accounts for the calls.
pub loaded-Tracks :
    (w : World) (now : ℕ) (s : State) (calls : List ℕ)
    → TracksContent calls (content w)
    → load_state w now ≡ ok s
    → Tracks calls s.last_attempt_at s.attempts_24h
loaded-Tracks w now s calls h l =
    let (raw, e, valid) = load-content w now s l in
    Tracks-same calls raw s (validated_same raw s now valid) (rw e at h)
