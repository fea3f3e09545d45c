-- ===== src/Scheduler/Completion.antt =====
-- The states that `run_once` writes, under `validate_state`.
use flop_agent_intelligence.Common.{
  ℕ, ◌+◌, ◌*◌, ◌<◌, ◌≤◌, ◌≡◌, refl, true, false, Option, none, some, List, [], ◌∷◌, ◌++◌, map,
  arith, All,
}
use mathlib.Core.Path.{subst}
use flop_agent_intelligence.Common.Result.{ok, ok-injective, >>=-eq-ok}
use flop_agent_intelligence.Scheduler.Types.{second, minute, Stamp, text, malformed, State, stamp}
use flop_agent_intelligence.Scheduler.Validate.{
  parse_stamp, parse_not_before, parse_optional, parse_all, is_increasing, Parsed, parse_state,
  attempts_mismatch, success_mismatch, inconsistent,
}
use flop_agent_intelligence.Scheduler.Tracking.{floor, floor_bounds}
use flop_agent_intelligence.Scheduler.Tracking.Attempt.{IsSpaced}
use flop_agent_intelligence.Scheduler.Increasing.{le_last, last_is-snoc}

-- The four parses of `parse_state`.
pub record Parts (s : State) (now : ℕ) (p : Parsed) : Type 0 where
  pub last_attempt : parse_optional parse_stamp s.last_attempt_at now ≡ ok p.last_attempt
  pub last_success : parse_optional parse_stamp s.last_success_at now ≡ ok p.last_success
  pub not_before : parse_optional parse_not_before s.not_before_at now ≡ ok p.not_before
  pub attempts : parse_all s.attempts_24h now ≡ ok p.attempts

pub parse_state-Parts :
    (s : State) (now : ℕ) (p : Parsed) → parse_state s now ≡ ok p → Parts s now p
unfolding parse_state
parse_state-Parts s now p h =
    let (la, hla, h1) = >>=-eq-ok (parse_optional parse_stamp s.last_attempt_at now) _ h in
    let (ls, hls, h2) = >>=-eq-ok (parse_optional parse_stamp s.last_success_at now) _ h1 in
    let (nb, hnb, h3) = >>=-eq-ok (parse_optional parse_not_before s.not_before_at now) _ h2 in
    let (ts, hts, h4) = >>=-eq-ok (parse_all s.attempts_24h now) _ h3 in
    record {
      last_attempt = ground arith;
      last_success = ground arith;
      not_before = ground arith;
      attempts = ground arith;
    }

pub Parts-parse_state :
    (s : State) (now : ℕ) (p : Parsed) → Parts s now p → parse_state s now ≡ ok p
unfolding parse_state
Parts-parse_state s now p h = rw (h.last_attempt, h.last_success, h.not_before, h.attempts)

parse_stamp-le : (s : Stamp) (now t : ℕ) → parse_stamp s now ≡ ok t → t ≤ now + second
unfolding parse_stamp
parse_stamp-le malformed now t h = cc
parse_stamp-le (text n u) now t h = ground arith

pub parse_all-le :
    (ss : List Stamp) (now : ℕ) (ts : List ℕ)
    → parse_all ss now ≡ ok ts
    → All (λ t. t ≤ now + second) ts
unfolding parse_all
parse_all-le [] now [] h = tt
parse_all-le [] now (t ∷ ts) h = cc
parse_all-le (s ∷ ss) now ts h =
    let (t, ht, h1) = >>=-eq-ok (parse_stamp s now) _ h in
    let (us, hus, h2) = >>=-eq-ok (parse_all ss now) _ h1 in
    subst (All (λ x. x ≤ now + second)) (ok-injective h2)
      (parse_stamp-le s now t ht, parse_all-le ss now us hus)

pub parse_stamp-stamp : (t now : ℕ) → t ≤ now + second → parse_stamp (stamp t) now ≡ ok (floor t)
unfolding parse_stamp stamp
parse_stamp-stamp t now h = ground (arith, floor_bounds t)

pub parse_all-stamp :
    (ts : List ℕ) (now : ℕ)
    → All (λ t. t ≤ now + second) ts
    → parse_all (map stamp ts) now ≡ ok (map floor ts)
unfolding parse_all
parse_all-stamp [] now h = refl
parse_all-stamp (t ∷ ts) now (ht, hs) = rw (parse_stamp-stamp t now ht, parse_all-stamp ts now hs)

-- The last attempt, if any, is 30 minutes back at least.
abbrev pub IsBack : Option ℕ → ℕ → Type 0
IsBack none now = Unit
IsBack (some last) now = last + 30 * minute ≤ now

pub spaced-IsBack :
    (o : Option Stamp) (now : ℕ) (la : Option ℕ)
    → parse_optional parse_stamp o now ≡ ok la
    → IsSpaced o now
    → IsBack la now
unfolding parse_stamp
spaced-IsBack o now none p h = tt
spaced-IsBack none now (some t) p h = cc
spaced-IsBack (some malformed) now (some t) p h = absurd h
spaced-IsBack (some (text n last)) now (some t) p h = ground arith

pub attempts_below :
    (xs : List ℕ) (la : Option ℕ) (now : ℕ)
    → is_increasing xs ≡ true
    → attempts_mismatch xs la now ≡ false
    → IsBack la now
    → All (λ x. x < floor now) xs
attempts_below [] la now i m h = tt
attempts_below (x ∷ xs) none now i m h = cc
attempts_below (x ∷ xs) (some last) now i m h =
    le_last (x ∷ xs) last (floor now) i (ground arith) (omega (arith, floor_bounds now))

pub success_before :
    (ls la : Option ℕ) (now : ℕ)
    → success_mismatch ls la ≡ false
    → IsBack la now
    → success_mismatch ls (some (floor now)) ≡ false
success_before none la now m h = refl
success_before (some t) none now m h = cc
success_before (some t) (some last) now m h = ground (arith, floor_bounds now)

pub attempts_end : (xs : List ℕ) (now t : ℕ) → attempts_mismatch (xs ++ t ∷ []) (some t) now ≡ false
attempts_end [] now t = ground arith
attempts_end (x ∷ xs) now t = ground (arith, last_is-snoc (x ∷ xs) t)

-- Two consistent parts of `inconsistent`, and the one about the circuit.
pub consistent-attempts :
    (s : State) (p : Parsed) (now : ℕ)
    → inconsistent s p now ≡ false
    → (attempts_mismatch p.attempts p.last_attempt now ≡ false)
      × (success_mismatch p.last_success p.last_attempt ≡ false)
unfolding inconsistent
consistent-attempts s p now h = ground arith
