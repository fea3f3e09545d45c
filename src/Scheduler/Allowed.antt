-- ===== src/Scheduler/Allowed.antt =====
-- What `evaluate` has found out when it allows a run.
use flop_agent_intelligence.Common.{
  ℕ, ◌≤◌, ◌<◌, ◌≡◌, true, false, Option, none, some, List, map, arith, length,
}
use flop_agent_intelligence.Common.Result.{ok, >>=-eq-ok}
use flop_agent_intelligence.Scheduler.Types.{max_requests_per_day, Stamp, text, malformed, State}
use flop_agent_intelligence.Scheduler.Validate.{
  parse_stamp, parse_not_before, parse_optional, parse_all, validate_state,
}
use flop_agent_intelligence.Scheduler.Evaluate.{
  within_window, recent_attempts, is_circuit_open, next_spacing, decide, or_now, Decision, decision,
  evaluate,
}
use flop_agent_intelligence.Scheduler.Tracking.{instant, parse_all-instant}
use flop_agent_intelligence.Scheduler.Tracking.Attempt.{IsSpaced}

pub record IsAllowed (s : State) (now : ℕ) : Type 0 where
  pub enabled : s.scheduler_enabled ≡ true
  pub closed : is_circuit_open s.circuit_state ≡ false
  pub spaced : IsSpaced s.last_attempt_at now
  pub budget : length (within_window now (map instant s.attempts_24h)) < max_requests_per_day

decision-ready :
    (s : State) (now : ℕ) (attempts : List ℕ) (la nb : Option ℕ)
    → (decision s now attempts la nb).allowed ≡ true
    → (is_circuit_open s.circuit_state ≡ false)
      × (s.scheduler_enabled ≡ true)
      × (or_now nb now ≤ now)
      × (next_spacing s la now ≤ now)
      × (length attempts < max_requests_per_day)
unfolding decision decide
decision-ready s now attempts la nb h = ground arith

spacing :
    (s : State) (o : Option Stamp) (now : ℕ) (la : Option ℕ)
    → parse_optional parse_stamp o now ≡ ok la
    → next_spacing s la now ≤ now
    → IsSpaced o now
unfolding next_spacing parse_stamp
spacing s none now la p h = tt
spacing s (some malformed) now la p h = cc
spacing s (some (text n last)) now none p h = ground arith
spacing s (some (text n last)) now (some t) p h = ground arith

pub recent_attempts-eq :
    (s : State) (now : ℕ) (ts : List ℕ)
    → recent_attempts s now ≡ ok ts
    → ts ≡ within_window now (map instant s.attempts_24h)
unfolding recent_attempts
recent_attempts-eq s now ts h =
    let (us, p, e) = >>=-eq-ok (parse_all s.attempts_24h now) _ h in
    cc (parse_all-instant s.attempts_24h now us p)

-- An allowed run finds the scheduler enabled, its circuit closed, the last attempt 30 minutes back
-- at least, and fewer than 24 attempts in the window.
pub evaluate-IsAllowed :
    (raw : State) (now : ℕ) (d : Decision)
    → evaluate raw now ≡ ok d
    → d.allowed ≡ true
    → (s : State) × (validate_state raw now ≡ ok s) × IsAllowed s now
unfolding evaluate
evaluate-IsAllowed raw now d h allowed =
    let (s, v, h1) = >>=-eq-ok (validate_state raw now) _ h in
    let (ts, hts, h2) = >>=-eq-ok (recent_attempts s now) _ h1 in
    let (la, hla, h3) = >>=-eq-ok (parse_optional parse_stamp s.last_attempt_at now) _ h2 in
    let (nb, hnb, h4) = >>=-eq-ok (parse_optional parse_not_before s.not_before_at now) _ h3 in
    let same : (decision s now ts la nb).allowed ≡ true = cc (h4, allowed) in
    let (closed, enabled, _, space, room) = decision-ready s now ts la nb same in
    (
      s,
      v,
      record {
        enabled = enabled;
        closed = closed;
        spaced = spacing s s.last_attempt_at now la hla space;
        budget = rw (recent_attempts-eq s now ts hts) at room;
      },
    )
