-- ===== src/Scheduler/History/Rates.antt =====
-- Each operation keeps the account; what `run_once` does step by step.
use mathlib.Core.Path.{subst}
use flop_agent_intelligence.Common.{
  ℕ, ◌≤◌, ◌≡◌, refl, Bool, true, false, Option, none, some, List, [], ◌∷◌, map, arith,
}
use flop_agent_intelligence.Common.Result.{Result, ok, err}
use flop_agent_intelligence.Common.{if◌then◌else◌}
use flop_agent_intelligence.Scheduler.Validity.{SameRun}
use flop_agent_intelligence.Scheduler.Run.{refusal}
use flop_agent_intelligence.Scheduler.Types.{max_requests_per_day, worker_crashed, Outcome, State}
use flop_agent_intelligence.Scheduler.Validate.{validate_state}
use flop_agent_intelligence.Scheduler.Evaluate.{
  within_window, Decision, recent_attempts, evaluate, record_failure,
}
use flop_agent_intelligence.Scheduler.Run.{
  publish, World, Fault, write_state, Started, finished, started, Collected, load_state,
  call_collector, attempt_state, start_written, attempt, recover, start_loaded, start_run, settle,
  finish_run, continue, run_once,
}
use flop_agent_intelligence.Scheduler.Writes.{content, calls-write_state}
use flop_agent_intelligence.Scheduler.Tracking.{Tracks, floor, window_count, instant}
use flop_agent_intelligence.Scheduler.Tracking.Attempt.{
  SpacedAfter, spaced_after, new_attempts, call_in_budget, attempt-Tracks, call-Tracks,
}
use flop_agent_intelligence.Scheduler.Allowed.{IsAllowed, evaluate-IsAllowed, recent_attempts-eq}
use flop_agent_intelligence.Scheduler.History.{
  TracksContent, write_state-Tracks, loaded-Tracks, validated_same, Tracks-same,
}

-- What holds after the first half of a run that found the calls `calls`.
abbrev pub StartGood : List ℕ → ℕ → Started × World → Type 0
StartGood calls now (finished r, w) = (w.calls ≡ calls) × TracksContent calls (content w)
StartGood calls now (started s, w) =
    (w.calls ≡ calls)
    × TracksContent (now ∷ calls) (content w)
    × Tracks (now ∷ calls) s.last_attempt_at s.attempts_24h
    × SpacedAfter calls now
    × (window_count now (map floor (now ∷ calls)) ≤ max_requests_per_day)

settle-last :
    (s : State) (now : ℕ) (c : Collected) → (settle s now c).last_attempt_at ≡ s.last_attempt_at
unfolding settle record_failure
settle-last s now c = ground arith

settle-attempts :
    (s : State) (now : ℕ) (c : Collected) → (settle s now c).attempts_24h ≡ s.attempts_24h
unfolding settle record_failure
settle-attempts s now c = ground arith

-- The write of an attempt: whatever it comes to, the call that may follow is accounted for.
start_written-good :
    (w : World) (b : State) (now : ℕ) (f : Fault)
    → TracksContent w.calls (content w)
    → Tracks w.calls b.last_attempt_at b.attempts_24h
    → Tracks (now ∷ w.calls) b.last_attempt_at b.attempts_24h
    → SpacedAfter w.calls now
    → (window_count now (map floor (now ∷ w.calls)) ≤ max_requests_per_day)
    → StartGood w.calls now (start_written (write_state w b now f) b)
unfolding write_state publish
start_written-good w b now f h before after spaced budget = go (validate_state b now) refl f
  where
    go :
        (r : Result Outcome State)
        → validate_state b now ≡ r
        → (f : Fault) → StartGood w.calls now (start_written (write_state w b now f) b)
    go (err code) e f = rw (e, write_state) (refl, h)
    go (ok v) e Fault.no_fault =
        rw (e, write_state)
          (refl, Tracks-same _ b v (validated_same b v now e) after, after, spaced, budget)
    go (ok v) e Fault.before_replace = rw (e, write_state) (refl, h)
    go (ok v) e Fault.after_replace =
        rw (e, write_state) (refl, Tracks-same _ b v (validated_same b v now e) before)

attempt-good :
    (w : World) (s : State) (now : ℕ) (f : Fault)
    → TracksContent w.calls (content w)
    → Tracks w.calls s.last_attempt_at s.attempts_24h
    → IsAllowed s now
    → StartGood w.calls now (attempt w s now f)
unfolding attempt
attempt-good w s now f h t a = go (recent_attempts s now) refl
  where
    go :
        (r : Result Outcome (List ℕ))
        → recent_attempts s now ≡ r
        → StartGood w.calls now (attempt w s now f)
    go (err code) e = rw (e, attempt) (refl, h)
    go (ok ts) e =
        rw (e, attempt, recent_attempts-eq s now ts e)
          (start_written-good w
            (attempt_state s now (within_window now (map instant s.attempts_24h))) now f h
            (unfold attempt_state new_attempts in
              attempt-Tracks w.calls s.last_attempt_at s.attempts_24h now t a.spaced)
            (unfold attempt_state new_attempts in
              call-Tracks w.calls s.last_attempt_at s.attempts_24h now t a.spaced)
            (spaced_after w.calls s.last_attempt_at s.attempts_24h now t a.spaced)
            (call_in_budget w.calls s.last_attempt_at s.attempts_24h now t a.spaced a.budget))

recover-good :
    (w : World) (s : State) (now : ℕ) (f : Fault)
    → TracksContent w.calls (content w)
    → Tracks w.calls s.last_attempt_at s.attempts_24h
    → StartGood w.calls now (recover w s now f)
unfolding recover
recover-good w s now f h t = (
  calls-write_state w (record_failure s worker_crashed) now f,
  write_state-Tracks w (record_failure s worker_crashed) now f w.calls h
      (unfold record_failure in t),
)

IsAllowed-same : (s v : State) (now : ℕ) → SameRun s v → IsAllowed v now → IsAllowed s now
IsAllowed-same s v now same a = record {
  enabled = rw (← same.enabled) a.enabled;
  closed = rw (← same.circuit) a.closed;
  spaced = rw (← same.last_attempt) a.spaced;
  budget = rw (← same.attempts) a.budget;
}

module _ {ℓ κ} {A : Type ℓ} (P : A → Type κ) where
  pub if-both :
      (b : Bool) {yes_case no_case : A}
      → P yes_case
      → P no_case
      → P (if b then yes_case else no_case)
  if-both false p q = q
  if-both true p q = p

start_loaded-good :
    (w : World) (s : State) (now : ℕ) (f : Fault)
    → TracksContent w.calls (content w)
    → Tracks w.calls s.last_attempt_at s.attempts_24h
    → StartGood w.calls now (start_loaded w s now f)
unfolding start_loaded
start_loaded-good w s now f h t =
    if-both (StartGood w.calls now) s.run_in_progress (recover-good w s now f h t)
      (go (evaluate s now) refl)
  where
    allow :
        (d : Decision)
        → evaluate s now ≡ ok d
        → (b : Bool) → d.allowed ≡ b
        → StartGood w.calls now (
            if b
            then attempt w s now f
            else (finished (refusal d.outcome (some s.circuit_state)), w))
    allow d e true a =
        let (v, valid, ok_v) = evaluate-IsAllowed s now d e a in
        attempt-good w s now f h t (IsAllowed-same s v now (validated_same s v now valid) ok_v)
    allow d e false a = (refl, h)

    go :
        (r : Result Outcome Decision)
        → evaluate s now ≡ r
        → StartGood w.calls now (elim r [
          | err code ↦ (finished (refusal code none), w)
          | ok d ↦
              if d.allowed
              then attempt w s now f
              else (finished (refusal d.outcome (some s.circuit_state)), w)
        ])
    go (err code) e = (refl, h)
    go (ok d) e = allow d e d.allowed refl

start_run-good :
    (w : World) (now : ℕ) (lock : Option Outcome) (f : Fault)
    → TracksContent w.calls (content w)
    → StartGood w.calls now (start_run w now lock f)
unfolding start_run
start_run-good w now (some code) f h = (refl, h)
start_run-good w now none f h = go (load_state w now) refl
  where
    go :
        (r : Result Outcome State)
        → load_state w now ≡ r
        → StartGood w.calls now (start_run w now none f)
    go (err code) e = rw (e, start_run) (refl, h)
    go (ok s) e =
        rw (e, start_run) (start_loaded-good w s now f h (loaded-Tracks w now s w.calls h e))

-- The account of a world: the file covers the calls, and each call was spaced and in budget.
abbrev pub AllSpaced : List ℕ → Type 0
AllSpaced [] = Unit
AllSpaced (c ∷ calls) = SpacedAfter calls c × AllSpaced calls

abbrev pub AllInBudget : List ℕ → Type 0
AllInBudget [] = Unit
AllInBudget (c ∷ calls) =
    (window_count c (map floor (c ∷ calls)) ≤ max_requests_per_day) × AllInBudget calls

pub record IsAccounted (w : World) : Type 0 where
  pub tracked : TracksContent w.calls (content w)
  pub spaced : AllSpaced w.calls
  pub in_budget : AllInBudget w.calls

-- A step that makes no call keeps the account if it keeps the file's.
pub quiet :
    (w w' : World)
    → IsAccounted w
    → w'.calls ≡ w.calls
    → TracksContent w.calls (content w')
    → IsAccounted w'
quiet w w' a e t = record { tracked = rw e t; spaced = rw e a.spaced; in_budget = rw e a.in_budget }

called :
    (w w' : World) (now : ℕ) (s : State)
    → IsAccounted w
    → StartGood w.calls now (started s, w')
    → IsAccounted (call_collector w' now)
unfolding call_collector
called w w' now s a (e, t, _, spaced, budget) = record {
  tracked = rw e t;
  spaced = rw e (spaced, a.spaced);
  in_budget = rw e (budget, a.in_budget);
}

finish_run-IsAccounted :
    (w : World) (s : State) (now : ℕ) (c : Collected) (f : Fault)
    → IsAccounted w
    → Tracks w.calls s.last_attempt_at s.attempts_24h
    → IsAccounted (finish_run w s now c f).1
unfolding finish_run
finish_run-IsAccounted w s now c f a t = quiet w _ a (calls-write_state w (settle s now c) now f) (
    write_state-Tracks w (settle s now c) now f w.calls a.tracked
      (rw (settle-last, settle-attempts) t))

-- A run keeps the account, whatever the lock, the faults and the collector do.
pub run_once-IsAccounted :
    (w : World) (now : ℕ) (lock : Option Outcome) (f : Fault) (c : Collected) (f' : Fault)
    → IsAccounted w
    → IsAccounted (run_once w now lock f c f').1
unfolding run_once
run_once-IsAccounted w now lock f c f' a =
    go (start_run w now lock f) (start_run-good w now lock f a.tracked)
  where
    go : (r : Started × World) → StartGood w.calls now r → IsAccounted (continue r now c f').1
    go (finished r, w') (e, t) = quiet w w' a e t
    go (started s, w') (e, t, ts, spaced, budget) =
        finish_run-IsAccounted (call_collector w' now) s now c f'
          (called w w' now s a (e, t, ts, spaced, budget)) (unfold call_collector in rw e ts)

pub killed-IsAccounted :
    (w w' : World) (now : ℕ) (lock : Option Outcome) (f : Fault) (s : State)
    → start_run w now lock f ≡ (started s, w')
    → IsAccounted w
    → IsAccounted (call_collector w' now)
killed-IsAccounted w w' now lock f s e a =
    called w w' now s a (subst (StartGood w.calls now) e (start_run-good w now lock f a.tracked))
