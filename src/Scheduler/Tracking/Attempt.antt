-- ===== src/Scheduler/Tracking/Attempt.antt =====
-- The account of a new attempt, before its call and after it.
use flop_agent_intelligence.Common.{
  All, All-append, ℕ, ◌+◌, ◌*◌, ◌≤◌, ◌<◌, ◌≡◌, Option, none, some, List, [], ◌∷◌, ◌++◌, map, arith,
  length,
}
use flop_agent_intelligence.Scheduler.Types.{
  minute, max_requests_per_day, Stamp, text, malformed, stamp,
}
use flop_agent_intelligence.Scheduler.Evaluate.{within_window}
use flop_agent_intelligence.Scheduler.Tracking.{
  floor, instant, IsWhole, LastCovers, window_count, Tracks, window_count-eq-length,
  window_count-append, window_count-within, All-within, floor_bounds, floor_idem, attempt_instants,
}

-- The last attempt is 30 minutes back at least.
abbrev pub IsSpaced : Option Stamp → ℕ → Type 0
IsSpaced none now = Unit
IsSpaced (some malformed) now = ⊥
IsSpaced (some (text _ last)) now = last + 30 * minute ≤ now

calls_covered :
    (calls : List ℕ) (last : Option Stamp) (attempts : List Stamp) (now later : ℕ)
    → Tracks calls last attempts
    → IsSpaced last now
    → now ≤ later
    → window_count later (map floor calls) ≤ window_count later (map instant attempts)
calls_covered calls (some (text n last)) attempts now later t sp h =
    t.covers_count later (omega arith)
calls_covered calls (some malformed) attempts now later t sp h = absurd sp
calls_covered [] none attempts now later t sp h = unfold window_count in omega arith
calls_covered (c ∷ calls) none attempts now later t sp h = absurd t.covers_last

-- The call before a new attempt was made 30 minutes earlier at least, in whole seconds.
abbrev pub SpacedAfter : List ℕ → ℕ → Type 0
SpacedAfter [] now = Unit
SpacedAfter (c ∷ _) now = floor c + 30 * minute ≤ now

pub spaced_after :
    (calls : List ℕ) (last : Option Stamp) (attempts : List Stamp) (now : ℕ)
    → Tracks calls last attempts
    → IsSpaced last now
    → SpacedAfter calls now
spaced_after [] last attempts now t sp = tt
spaced_after (c ∷ calls) (some (text n last)) attempts now t sp = omega (arith, t.covers_last)
spaced_after (c ∷ calls) (some malformed) attempts now t sp = absurd sp
spaced_after (c ∷ calls) none attempts now t sp = absurd t.covers_last

last_covered :
    (calls : List ℕ) (last : Option Stamp) (attempts : List Stamp) (now : ℕ)
    → Tracks calls last attempts
    → IsSpaced last now
    → LastCovers calls (some (text 20 (floor now)))
last_covered [] last attempts now t sp = tt
last_covered (c ∷ calls) (some (text n last)) attempts now t sp =
    omega (arith, t.covers_last, floor_bounds now)
last_covered (c ∷ calls) (some malformed) attempts now t sp = absurd sp
last_covered (c ∷ calls) none attempts now t sp = absurd t.covers_last

module _ (calls : List ℕ) (last : Option Stamp) (attempts : List Stamp) (now : ℕ)
    (t : Tracks calls last attempts) (sp : IsSpaced last now) where
  abbrev pub recent : List ℕ
  recent = within_window now (map instant attempts)

  -- With fewer than 24 recent attempts, this call is at most the 24th of its window.
  pub call_in_budget :
      length recent < max_requests_per_day
      → window_count now (map floor (now ∷ calls)) ≤ max_requests_per_day
  unfolding window_count
  call_in_budget h = ground (
    arith,
    calls_covered calls last attempts now now t sp (omega arith),
    window_count-eq-length now (map instant attempts),
  )

  unfoldable pub new_attempts : List Stamp
  new_attempts = map stamp (recent ++ now ∷ [])

  counts :
      (later : ℕ)
      → now ≤ later
      → window_count later (map instant new_attempts)
        ≡ window_count later (map instant attempts) + window_count later (floor now ∷ [])
  unfolding new_attempts
  counts later h =
      rw (attempt_instants now attempts t.whole, window_count-append, window_count-within)

  covers_old : LastCovers calls (some (stamp now))
  unfolding stamp
  covers_old = last_covered calls last attempts now t sp

  IsWhole-new : All IsWhole (map instant new_attempts)
  unfolding new_attempts
  IsWhole-new =
      rw (attempt_instants now attempts t.whole)
        (All-append IsWhole recent _ (floor_idem now, tt) (All-within now _ t.whole))

  -- The attempt is written, and the collector not called yet.
  pub attempt-Tracks : Tracks calls (some (stamp now)) new_attempts
  unfolding stamp
  attempt-Tracks = record {
    covers_last = covers_old;
    covers_count = λ later h.
        let old =
          calls_covered calls last attempts now later t sp (omega (arith, floor_bounds now)) in
        let new = counts later (omega (arith, floor_bounds now)) in omega arith;
    whole = IsWhole-new;
  }

  -- The collector has been called.
  pub call-Tracks : Tracks (now ∷ calls) (some (stamp now)) new_attempts
  unfolding stamp
  call-Tracks = record {
    covers_last = omega arith;
    covers_count = λ later h.
        let old =
          calls_covered calls last attempts now later t sp (omega (arith, floor_bounds now)) in
        let new = counts later (omega (arith, floor_bounds now)) in
        let split = window_count-append later (floor now ∷ []) (map floor calls) in omega arith;
    whole = IsWhole-new;
  }
