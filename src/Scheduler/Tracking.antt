-- ===== src/Scheduler/Tracking.antt =====
-- How the state file accounts for the collector's calls.
pub mod Attempt
use flop_agent_intelligence.Common.{
  ℕ, zero, suc, ◌+◌, ◌*◌, ◌/◌, ◌≤◌, ◌<◌, ◌≡◌, refl, Option, none, some, true, false, List, [], ◌∷◌,
  ◌++◌, map, arith, ltb, if◌then◌else◌, length, All, Bool-cases, inl, inr,
}
use mathlib.Core.List.{map-append}
use flop_agent_intelligence.Common.Result.{ok, >>=-eq-ok}
use flop_agent_intelligence.Scheduler.Types.{
  second, minute, daily_window, max_requests_per_day, Stamp, text, malformed, stamp,
}
use flop_agent_intelligence.Scheduler.Validate.{parse_stamp, parse_all}
use flop_agent_intelligence.Scheduler.Evaluate.{within_window}

abbrev pub floor : ℕ → ℕ
floor t = t / second * second

abbrev pub instant : Stamp → ℕ
instant (text _ t) = t
instant malformed = 0

-- Every stamp that the code writes denotes a whole second.
abbrev pub IsWhole : ℕ → Type 0
IsWhole t = floor t ≡ t

-- How many of the instants lie in the 24 hours before `now`, or after it.
pub window_count : ℕ → List ℕ → ℕ
window_count now [] = 0
window_count now (t ∷ ts) =
    let rest = window_count now ts in if ltb now (t + daily_window) then suc rest else rest

-- No call is later than the last attempt, in whole seconds.
abbrev pub LastCovers : List ℕ → Option Stamp → Type 0
LastCovers [] _ = Unit
LastCovers (c ∷ _) (some (text _ last)) = floor c ≤ last
LastCovers (c ∷ _) (some malformed) = ⊥
LastCovers (c ∷ _) none = ⊥

-- From a second after the last attempt on, no fewer attempts than calls lie in the window.
abbrev pub CountCovers : List ℕ → Option Stamp → List Stamp → Type 0
CountCovers calls (some (text _ last)) attempts =
    (now : ℕ)
    → last + second ≤ now
    → window_count now (map floor calls) ≤ window_count now (map instant attempts)
CountCovers [] _ attempts = Unit
CountCovers (c ∷ calls) _ attempts = ⊥

pub record Tracks (calls : List ℕ) (last : Option Stamp) (attempts : List Stamp) : Type 0 where
  pub covers_last : LastCovers calls last
  pub covers_count : CountCovers calls last attempts
  pub whole : All IsWhole (map instant attempts)

parse_stamp-instant : (s : Stamp) (now : ℕ) (t : ℕ) → parse_stamp s now ≡ ok t → instant s ≡ t
unfolding parse_stamp
parse_stamp-instant malformed now t h = cc
parse_stamp-instant (text n u) now t h = ground arith

-- Parsed attempts are the instants of their stamps.
pub parse_all-instant :
    (ss : List Stamp) (now : ℕ) (ts : List ℕ) → parse_all ss now ≡ ok ts → ts ≡ map instant ss
unfolding parse_all
parse_all-instant [] now ts h = ground arith
parse_all-instant (s ∷ ss) now ts h =
    let (t, ht, h1) = >>=-eq-ok (parse_stamp s now) _ h in
    let (us, hus, h2) = >>=-eq-ok (parse_all ss now) _ h1 in
    ground (arith, parse_stamp-instant s now t ht, parse_all-instant ss now us hus)

pub window_count-eq-length :
    (now : ℕ) (ts : List ℕ) → window_count now ts ≡ length (within_window now ts)
unfolding window_count within_window
window_count-eq-length now [] = refl
window_count-eq-length now (t ∷ ts) = ground (arith, window_count-eq-length now ts)

pub window_count-append :
    (now : ℕ) (xs ys : List ℕ)
    → window_count now (xs ++ ys) ≡ window_count now xs + window_count now ys
unfolding window_count
window_count-append now [] ys = omega arith
window_count-append now (x ∷ xs) ys = ground (arith, window_count-append now xs ys)

-- Attempts outside the window of an earlier instant are outside that of a later one.
pub window_count-within :
    (now later : ℕ) (xs : List ℕ)
    → now ≤ later
    → window_count later (within_window now xs) ≡ window_count later xs
unfolding window_count within_window
window_count-within now later [] h = refl
window_count-within now later (x ∷ xs) h = ground (arith, window_count-within now later xs h)

pub All-within : (now : ℕ) (xs : List ℕ) → All IsWhole xs → All IsWhole (within_window now xs)
unfolding within_window
All-within now [] h = tt
All-within now (x ∷ xs) (hx, hs) = elim (Bool-cases (ltb now (x + daily_window))) [
  | inl e ↦ rw e (hx, All-within now xs hs)
  | inr e ↦ rw e (All-within now xs hs)
]

pub floor-whole : (xs : List ℕ) → All IsWhole xs → map floor xs ≡ xs
floor-whole [] h = refl
floor-whole (x ∷ xs) (hx, hs) = cc (hx, floor-whole xs hs)

pub floor_idem : (t : ℕ) → IsWhole (floor t)
floor_idem t = omega arith

pub floor_bounds : (t : ℕ) → (floor t ≤ t) × (t < floor t + second)
floor_bounds t = omega arith

instant-stamp : (xs : List ℕ) → map instant (map stamp xs) ≡ map floor xs
unfolding stamp
instant-stamp [] = refl
instant-stamp (x ∷ xs) = cc (instant-stamp xs)

-- The stamps written for a new attempt denote the recent attempts and the new one.
pub attempt_instants :
    (now : ℕ) (old : List Stamp)
    → All IsWhole (map instant old)
    → map instant (map stamp (within_window now (map instant old) ++ now ∷ []))
      ≡ within_window now (map instant old) ++ floor now ∷ []
attempt_instants now old h =
    rw (instant-stamp, map-append) (rw (floor-whole _ (All-within now _ h)))
