-- ===== src/Scheduler/History/Accounts.antt =====
-- The rate of the collector's calls over any history of the state file.
use flop_agent_intelligence.Common.{ℕ, ◌≡◌, refl, Option, none, some, []}
use flop_agent_intelligence.Common.Result.{Result, ok, err}
use flop_agent_intelligence.Scheduler.Types.{
  enabled_scheduled, disabled_offline, Outcome, State, disabled_state,
}
use flop_agent_intelligence.Scheduler.Validate.{validate_state}
use flop_agent_intelligence.Scheduler.Evaluate.{is_circuit_open}
use flop_agent_intelligence.Scheduler.Run.{
  World, Fault, Reply, publish, write_state, load_state, reset_state, approve_reset,
}
use flop_agent_intelligence.Scheduler.Transitions.{
  CommitState, TransitionResult, transition_failed, persist_transition, checked_transition,
  enabled_state, disabled, enable_scheduled, disable_scheduled,
}
use flop_agent_intelligence.Scheduler.Writes.{content, calls-write_state}
use flop_agent_intelligence.Scheduler.Tracking.{Tracks}
use flop_agent_intelligence.Scheduler.History.{
  Step, Reach, provisioned, ran, killed, reset, enabled, here, next, TracksContent,
  write_state-Tracks, loaded-Tracks,
}
use flop_agent_intelligence.Scheduler.History.Rates.{
  if-both, IsAccounted, AllSpaced, AllInBudget, quiet, run_once-IsAccounted, killed-IsAccounted,
}

abbrev pub fresh : World
fresh = record { file = none; calls = [] }

-- The worlds that a write or a refusal may leave.
IsKept : World → World → Type 0
IsKept w w' = (w'.calls ≡ w.calls) × TracksContent w.calls (content w')

write-IsKept :
    (w : World) (s : State) (now : ℕ) (f : Fault)
    → TracksContent w.calls (content w)
    → Tracks w.calls s.last_attempt_at s.attempts_24h
    → IsKept w (write_state w s now f).1
unfolding IsKept
write-IsKept w s now f h t = (calls-write_state w s now f, write_state-Tracks w s now f w.calls h t)

same-IsKept : (w : World) → TracksContent w.calls (content w) → IsKept w w
unfolding IsKept
same-IsKept w h = (refl, h)

reset-IsKept :
    (w : World) (now : ℕ) (lock : Option Outcome) (f : Fault)
    → TracksContent w.calls (content w)
    → IsKept w (approve_reset w now lock f).1
unfolding approve_reset
reset-IsKept w now (some code) f h = same-IsKept w h
reset-IsKept w now none f h = go (load_state w now) refl
  where
    go : (r : Result Outcome State) → load_state w now ≡ r → IsKept w (approve_reset w now none f).1
    go (err code) e = rw (e, approve_reset) (same-IsKept w h)
    go (ok s) e =
        rw (e, approve_reset)
          (if-both (λ (r : Reply × World). IsKept w r.1) (is_circuit_open s.circuit_state)
            (write-IsKept w (reset_state s) now f h
              (unfold reset_state in loaded-Tracks w now s w.calls h e))
            (same-IsKept w h))

checked-IsKept :
    (w : World) (s : State) (now : ℕ) (f : Fault) (o : Outcome)
    → TracksContent w.calls (content w)
    → Tracks w.calls s.last_attempt_at s.attempts_24h
    → IsKept w (checked_transition w s now f o).1
unfolding persist_transition
checked-IsKept w s now f o h t = go (validate_state s now)
  where
    go :
        (r : Result Outcome State)
        → IsKept w
            (elim r as (λ _. TransitionResult × World) [
              | err code ↦ (transition_failed code CommitState.pre_commit none, w)
              | ok _ ↦ persist_transition w s now f o
            ]).1
    go (err code) = same-IsKept w h
    go (ok v) = write-IsKept w s now f h t

enable-IsKept :
    (w : World) (now : Option ℕ) (lock : Option Outcome) (f : Fault)
    → TracksContent w.calls (content w)
    → IsKept w (enable_scheduled w now lock f).1
unfolding enable_scheduled
enable-IsKept w none lock f h = same-IsKept w h
enable-IsKept w (some now) (some code) f h = same-IsKept w h
enable-IsKept w (some now) none f h = go (load_state w now) refl
  where
    go :
        (r : Result Outcome State)
        → load_state w now ≡ r
        → IsKept w (enable_scheduled w (some now) none f).1
    go (err code) e = rw (e, enable_scheduled) (same-IsKept w h)
    go (ok s) e =
        rw (e, enable_scheduled)
          (if-both (λ (r : TransitionResult × World). IsKept w r.1) _ (same-IsKept w h)
            (checked-IsKept w (enabled_state s now) now f enabled_scheduled h
              (unfold enabled_state in loaded-Tracks w now s w.calls h e)))

disable-IsKept :
    (w : World) (now : Option ℕ) (lock : Option Outcome) (f : Fault)
    → TracksContent w.calls (content w)
    → IsKept w (disable_scheduled w now lock f).1
unfolding disable_scheduled
disable-IsKept w none lock f h = same-IsKept w h
disable-IsKept w (some now) (some code) f h = same-IsKept w h
disable-IsKept w (some now) none f h = go (load_state w now) refl
  where
    go :
        (r : Result Outcome State)
        → load_state w now ≡ r
        → IsKept w (disable_scheduled w (some now) none f).1
    go (err code) e = rw (e, disable_scheduled) (same-IsKept w h)
    go (ok s) e =
        rw (e, disable_scheduled)
          (if-both (λ (r : TransitionResult × World). IsKept w r.1) _ (same-IsKept w h)
            (checked-IsKept w (disabled s) now f disabled_offline h
              (unfold disabled in loaded-Tracks w now s w.calls h e)))

kept-IsAccounted : (w w' : World) → IsAccounted w → IsKept w w' → IsAccounted w'
unfolding IsKept
kept-IsAccounted w w' a (e, t) = quiet w w' a e t

no_calls : (w : World) → w.file ≡ none → IsAccounted w → w.calls ≡ []
no_calls w e a = rw e at a.tracked

provisioned-IsKept :
    (w : World) → w.file ≡ none → IsAccounted w → IsKept w (publish w disabled_state)
unfolding IsKept publish disabled_state
provisioned-IsKept w e a =
    (refl, rw (no_calls w e a) (record { covers_last = tt; covers_count = tt; whole = tt }))

step-IsAccounted : {w w' : World} → Step w w' → IsAccounted w → IsAccounted w'
step-IsAccounted (provisioned w e) a = kept-IsAccounted w _ a (provisioned-IsKept w e a)
step-IsAccounted (ran w now lock f c f') a = run_once-IsAccounted w now lock f c f' a
step-IsAccounted (killed w w' now lock f s e) a = killed-IsAccounted w w' now lock f s e a
step-IsAccounted (reset w now lock f) a =
    kept-IsAccounted w _ a (reset-IsKept w now lock f a.tracked)
step-IsAccounted (enabled w now lock f) a =
    kept-IsAccounted w _ a (enable-IsKept w now lock f a.tracked)
step-IsAccounted (Step.disabled w now lock f) a =
    kept-IsAccounted w _ a (disable-IsKept w now lock f a.tracked)

reach-IsAccounted : {w w' : World} → IsAccounted w → Reach w w' → IsAccounted w'
reach-IsAccounted a here = a
reach-IsAccounted a (next r st) = step-IsAccounted st (reach-IsAccounted a r)

fresh-IsAccounted : IsAccounted fresh
fresh-IsAccounted = record { tracked = refl; spaced = tt; in_budget = tt }

-- From no state file, after any sequence of provisionings, runs, deaths in a collector's call,
-- resets, enablings and disablings, with any locks, write faults and collector results: each call
-- of the collector came 30 minutes at least after the whole second of the call before it, and the
-- whole seconds of at most 24 calls, this one among them, lie in the 24 hours up to it.
pub reach-IsRateLimited : {w : World} → Reach fresh w → AllSpaced w.calls × AllInBudget w.calls
reach-IsRateLimited r = let a = reach-IsAccounted fresh-IsAccounted r in (a.spaced, a.in_budget)
