-- ===== src/Scheduler/Settling.antt =====
-- The states of a new attempt and after the collector's result, under `validate_state`.
use flop_agent_intelligence.Common.{
  ℕ, ◌+◌, ◌<◌, ◌≤◌, ◌≡◌, true, false, some, List, [], ◌∷◌, ◌++◌, map, arith, All, All-append,
  length, length-append, length-map, if◌then◌else◌,
}
use mathlib.Core.List.{map-append}
use flop_agent_intelligence.Common.Result.{ok}
use flop_agent_intelligence.Scheduler.Types.{second, v0_2, max_requests_per_day, State, stamp}
use flop_agent_intelligence.Scheduler.Validate.{parse_all, out_of_range, Parsed, inconsistent}
use flop_agent_intelligence.Scheduler.Validity.{IsChecked}
use flop_agent_intelligence.Scheduler.Evaluate.{within_window, record_failure}
use flop_agent_intelligence.Scheduler.Run.{
  attempt_state, settle, Collected, result, exception, succeeded,
}
use flop_agent_intelligence.Scheduler.Tracking.{floor, IsWhole, floor-whole, All-within}
use flop_agent_intelligence.Scheduler.Allowed.{IsAllowed}
use flop_agent_intelligence.Scheduler.Increasing.{All-within_lem, within-increasing}
use flop_agent_intelligence.Scheduler.Completion.{
  Parts, parse_state-Parts, Parts-parse_state, parse_all-le, parse_stamp-stamp, parse_all-stamp,
  IsBack, spaced-IsBack, attempts_below, success_before, attempts_end, consistent-attempts,
}

module _ (s : State) (now : ℕ) (p : Parsed) (c : IsChecked s now p) (a : IsAllowed s now)
    (whole : All IsWhole p.attempts)
    (room : length (within_window now p.attempts) < max_requests_per_day) where
  abbrev pub recent : List ℕ
  recent = within_window now p.attempts

  abbrev pub begun : State
  begun = attempt_state s now recent

  abbrev pub begun_parsed : Parsed
  begun_parsed = record p { last_attempt = some (floor now); attempts = recent ++ floor now ∷ [] }

  parts : Parts s now p
  parts = parse_state-Parts s now p c.parsed

  back : IsBack p.last_attempt now
  back = spaced-IsBack s.last_attempt_at now p.last_attempt parts.last_attempt a.spaced

  new_stamps : parse_all (map stamp (recent ++ now ∷ [])) now ≡ ok (recent ++ floor now ∷ [])
  new_stamps = rw (
    parse_all-stamp (recent ++ now ∷ []) now (
        All-append (λ t. t ≤ now + second) recent _ (omega arith, tt)
          (All-within_lem (λ t. t ≤ now + second) now p.attempts
            (parse_all-le s.attempts_24h now p.attempts parts.attempts))),
    map-append,
    floor-whole recent (All-within now p.attempts whole),
  )

  begun-Parts : Parts begun now begun_parsed
  unfolding attempt_state
  begun-Parts = record {
    last_attempt = rw (parse_stamp-stamp now now (omega arith));
    last_success = parts.last_success;
    not_before = parts.not_before;
    attempts = new_stamps;
  }

  begun_ranges : out_of_range begun ≡ false
  unfolding attempt_state out_of_range
  begun_ranges =
      let old : out_of_range s ≡ false = c.ranges in
      ground (arith, length-map stamp (recent ++ now ∷ []), length-append recent (now ∷ []))

  begun_consistent : inconsistent begun begun_parsed now ≡ false
  unfolding attempt_state inconsistent
  begun_consistent =
      let (m, f) = consistent-attempts s p now c.consistent in
      let old : inconsistent s p now ≡ false = c.consistent in
      ground (
        arith,
        attempts_end recent now (floor now),
        success_before p.last_success p.last_attempt now f back,
      )

  pub begun-IsChecked : IsChecked begun now begun_parsed
  unfolding attempt_state
  begun-IsChecked = record {
    schema = c.schema;
    ranges = begun_ranges;
    parsed = Parts-parse_state begun now begun_parsed begun-Parts;
    increasing = within-increasing now p.attempts (floor now) c.increasing (
        attempts_below p.attempts p.last_attempt now c.increasing
          (consistent-attempts s p now c.consistent).0 back);
    consistent = begun_consistent;
  }

  abbrev pub settled_parsed : Collected → Parsed
  settled_parsed col = record begun_parsed {
    last_success = if succeeded col then some (floor now) else p.last_success;
  }

  settled-Parts : (col : Collected) → Parts (settle begun now col) now (settled_parsed col)
  unfolding settle record_failure attempt_state
  settled-Parts (result true e) = record {
    last_attempt = begun-Parts.last_attempt;
    last_success = begun-Parts.last_attempt;
    not_before = parts.not_before;
    attempts = new_stamps;
  }
  settled-Parts (result false e) = record {
    last_attempt = begun-Parts.last_attempt;
    last_success = parts.last_success;
    not_before = parts.not_before;
    attempts = new_stamps;
  }
  settled-Parts exception = record {
    last_attempt = begun-Parts.last_attempt;
    last_success = parts.last_success;
    not_before = parts.not_before;
    attempts = new_stamps;
  }

  settled-schema : (col : Collected) → (settle begun now col).schema ≡ v0_2
  unfolding settle record_failure attempt_state
  settled-schema (result true e) = c.schema
  settled-schema (result false e) = c.schema
  settled-schema exception = c.schema

  settled_ranges : (col : Collected) → out_of_range (settle begun now col) ≡ false
  unfolding settle record_failure attempt_state out_of_range
  settled_ranges col =
      let old : out_of_range s ≡ false = c.ranges in
      let new : out_of_range begun ≡ false = begun_ranges in ground arith

  settled_consistent :
      (col : Collected) → inconsistent (settle begun now col) (settled_parsed col) now ≡ false
  unfolding settle record_failure attempt_state inconsistent
  settled_consistent (result true e) =
      let old : inconsistent s p now ≡ false = c.consistent in
      let on = a.enabled in
      let closed = a.closed in
      let (m, f) = consistent-attempts s p now c.consistent in
      ground (
        arith,
        attempts_end recent now (floor now),
        success_before p.last_success p.last_attempt now f back,
      )
  settled_consistent (result false e) =
      let old : inconsistent s p now ≡ false = c.consistent in
      let on = a.enabled in
      let closed = a.closed in
      let (m, f) = consistent-attempts s p now c.consistent in
      ground (
        arith,
        attempts_end recent now (floor now),
        success_before p.last_success p.last_attempt now f back,
      )
  settled_consistent exception =
      let old : inconsistent s p now ≡ false = c.consistent in
      let on = a.enabled in
      let closed = a.closed in
      let (m, f) = consistent-attempts s p now c.consistent in
      ground (
        arith,
        attempts_end recent now (floor now),
        success_before p.last_success p.last_attempt now f back,
      )

  pub settled-IsChecked :
      (col : Collected) → IsChecked (settle begun now col) now (settled_parsed col)
  settled-IsChecked col = record {
    schema = settled-schema col;
    ranges = settled_ranges col;
    parsed = Parts-parse_state (settle begun now col) now (settled_parsed col) (settled-Parts col);
    increasing = begun-IsChecked.increasing;
    consistent = settled_consistent col;
  }
