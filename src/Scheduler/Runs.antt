-- ===== src/Scheduler/Runs.antt =====
-- Whole runs of `run_once` and `dry_run`.
use mathlib.Core.Path.{subst}
use flop_agent_intelligence.Common.{
  ℕ, ◌<◌, ◌≡◌, refl, sym, ◌∙◌, Bool, true, false, Option, none, some, List, ◌∷◌, map, arith,
  if◌then◌else◌, All, length,
}
use flop_agent_intelligence.Common.Result.{Result, ok, err, ok-injective}
use flop_agent_intelligence.Scheduler.Types.{
  Outcome, collection_succeeded, collection_failed, max_requests_per_day, State,
}
use flop_agent_intelligence.Scheduler.Validate.{Parsed}
use flop_agent_intelligence.Scheduler.Validity.{IsChecked, IsChecked-validate, validate-IsChecked}
use flop_agent_intelligence.Scheduler.Evaluate.{Decision, evaluate, within_window, recent_attempts}
use flop_agent_intelligence.Scheduler.Run.{
  World, Fault, no_fault, Reply, returned, Collected, succeeded, failure_class, publish, load_state,
  read_entry, write_state, written, started, finished, start_run, start_loaded, attempt,
  attempt_state, call_collector, settle, finish_run, run_once, refusal,
}
use flop_agent_intelligence.Scheduler.Writes.{load-content}
use flop_agent_intelligence.Scheduler.Tracking.{IsWhole, instant, parse_all-instant}
use flop_agent_intelligence.Scheduler.Allowed.{IsAllowed, evaluate-IsAllowed}
use flop_agent_intelligence.Scheduler.History.{validated_same}
use flop_agent_intelligence.Scheduler.Completion.{parse_state-Parts}
use flop_agent_intelligence.Scheduler.Settling.{begun-IsChecked, settled-IsChecked}

-- A write of a state that passes the checks is done, and the state loads again.
write_checked :
    (w : World) (s : State) (now : ℕ) (p : Parsed)
    → IsChecked s now p
    → write_state w s now no_fault ≡ (written, publish w s)
unfolding write_state
write_checked w s now p c = rw (IsChecked-validate s now p c, write_state)

load_checked :
    (w : World) (s : State) (now : ℕ) (p : Parsed)
    → IsChecked s now p
    → load_state (publish w s) now ≡ ok s
unfolding load_state read_entry publish
load_checked w s now p c = IsChecked-validate s now p c

-- The state that a run with an allowed decision writes first.
unfoldable pub begun_state : State → ℕ → State
begun_state s now = attempt_state s now (within_window now (map instant s.attempts_24h))

module _ (w : World) (now : ℕ) (s : State) (d : Decision) (loads : load_state w now ≡ ok s)
    (idle : s.run_in_progress ≡ false) (decided : evaluate s now ≡ ok d)
    (allowed : d.allowed ≡ true) (whole : All IsWhole (map instant s.attempts_24h)) where
  checked : (p : Parsed) × IsChecked s now p
  checked =
      let (raw, _, valid) = load-content w now s loads in
      let (p, c, _) = validate-IsChecked raw s now valid in (p, c)

  IsAllowed-here : IsAllowed s now
  IsAllowed-here =
      let (v, valid, a) = evaluate-IsAllowed s now d decided allowed in
      let (p, c) = checked in
      subst (λ (t : State). IsAllowed t now)
        (ok-injective (sym valid ∙ IsChecked-validate s now p c)) a

  instants : (p : Parsed) → IsChecked s now p → p.attempts ≡ map instant s.attempts_24h
  instants p c =
      parse_all-instant s.attempts_24h now p.attempts (parse_state-Parts s now p c.parsed).attempts

  room :
      (p : Parsed)
      → IsChecked s now p
      → length (within_window now p.attempts) < max_requests_per_day
  room p c = rw (instants p c) IsAllowed-here.budget

  begun_state-IsChecked : (p : Parsed) × IsChecked (begun_state s now) now p
  unfolding begun_state
  begun_state-IsChecked =
      let (p, c) = checked in
      subst
        (λ (xs : List ℕ).
          (q : Parsed) × IsChecked (attempt_state s now (within_window now xs)) now q)
        (instants p c)
        (_, begun-IsChecked s now p c IsAllowed-here (rw (instants p c) whole) (room p c))

  settle-IsChecked :
      (col : Collected) → (p : Parsed) × IsChecked (settle (begun_state s now) now col) now p
  unfolding begun_state
  settle-IsChecked col =
      let (p, c) = checked in
      subst
        (λ (xs : List ℕ).
          (q : Parsed) × IsChecked (settle (attempt_state s now (within_window now xs)) now col) now
            q)
        (instants p c)
        (_, settled-IsChecked s now p c IsAllowed-here (rw (instants p c) whole) (room p c) col)

  recents : recent_attempts s now ≡ ok (within_window now (map instant s.attempts_24h))
  unfolding recent_attempts
  recents =
      let (p, c) = checked in rw ((parse_state-Parts s now p c.parsed).attempts, ← instants p c)

  attempts-started :
      attempt w s now no_fault ≡ (started (begun_state s now), publish w (begun_state s now))
  unfolding attempt begun_state
  attempts-started =
      let (p, c) = begun_state-IsChecked in
      rw (recents, attempt) (rw (write_checked w (begun_state s now) now p c))

  starts :
      start_run w now none no_fault ≡ (started (begun_state s now), publish w (begun_state s now))
  unfolding start_run start_loaded
  starts = ground (arith, attempts-started)

  -- A loaded, idle state that is allowed to run: with no fault of the lock or of a write, and whole
  -- seconds in the file, the collector is called once, whatever it gives back; the reply reports
  -- that call, and the file then loads as the attempt settled by the collector's result.
  pub run_once-completes :
      (col : Collected)
      → let (reply, w') = run_once w now none no_fault col no_fault in
        (w'.calls ≡ now ∷ w.calls)
        × (load_state w' now ≡ ok (settle (begun_state s now) now col))
        × (reply
            ≡ returned (record {
              success = succeeded col;
              outcome = if succeeded col then collection_succeeded else collection_failed;
              error_class = if succeeded col then none else some (failure_class col);
              circuit_state = some (settle (begun_state s now) now col).circuit_state;
              collector_invocations = 1;
            }))
  unfolding run_once finish_run
  run_once-completes col =
      let (p, c) = settle-IsChecked col in
      let w' = call_collector (publish w (begun_state s now)) now in
      let t = settle (begun_state s now) now col in
      rw (starts, write_checked w' t now p c)
        (unfold publish call_collector in refl, load_checked w' t now p c, refl)

-- While the loaded state has the scheduler disabled and no run was interrupted, `run_once` calls
-- nothing and leaves the file as it is.
pub run_once-blocked :
    (w : World) (now : ℕ) (s : State) (lock : Option Outcome) (f f' : Fault) (col : Collected)
    → load_state w now ≡ ok s
    → s.run_in_progress ≡ false
    → s.scheduler_enabled ≡ false
    → (run_once w now lock f col f').1 ≡ w
unfolding run_once start_run start_loaded
run_once-blocked w now s (some code) f f' col loads idle off = refl
run_once-blocked w now s none f f' col loads idle off =
    let (r, e) = loaded_blocked (evaluate s now) refl in rw (e, start_run)
  where
    denied : (d : Decision) → evaluate s now ≡ ok d → (b : Bool) → d.allowed ≡ b → b ≡ false
    denied d e true a =
        let (v, valid, ok_v) = evaluate-IsAllowed s now d e a in
        let same = validated_same s v now valid in cc (same.enabled, ok_v.enabled, off)
    denied d e false a = refl

    loaded_blocked :
        (r : Result Outcome Decision)
        → evaluate s now ≡ r
        → (r' : Reply) × (start_run w now none f ≡ (finished r', w))
    loaded_blocked (err code) e = (refusal code none, ground arith)
    loaded_blocked (ok d) e =
        (refusal d.outcome (some s.circuit_state), ground (arith, denied d e d.allowed refl))
