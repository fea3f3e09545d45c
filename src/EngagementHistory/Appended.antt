-- ===== src/EngagementHistory/Appended.antt =====
-- What an append does to the rows that the file loads as.
use flop_agent_intelligence.Common.{
  ◌≡◌, refl, ap, ◌∙◌, Bool, true, false, ◌&&◌, Option, none, some, List, [], ◌∷◌, ◌++◌,
  if◌then◌else◌,
}
use flop_agent_intelligence.Common.Result.{ok, ◌>>◌, raise_if, >>-eq-ok, ok-injective}
use flop_agent_intelligence.EngagementHistory.Load.{
  history_corruption, Sample, Line, blank, junk, row, File, put, load_lines, load,
}
use flop_agent_intelligence.EngagementHistory.Append.{without_tail, appended}

-- The loop of `load` at a last row.
last_row :
    (r : Sample) (acc : List Sample)
    → r.splits ≡ false
    → load_lines true true true (row r ∷ []) acc ≡ ok (put r acc)
unfolding load_lines
last_row r acc u = go r.splits u
  where
    go :
        (b : Bool)
        → b ≡ false
        → (raise_if (b && true) history_corruption >> ok (if b then acc else put r acc))
          ≡ ok (put r acc)
    go true q = cc
    go false q = refl

-- A line at the end of a file that loads.
load_lines-append :
    (lines : List Line) (acc rows : List Sample) (r : Sample)
    → r.splits ≡ false
    → load_lines true true true lines acc ≡ ok rows
    → load_lines true true true (lines ++ (row r ∷ [])) acc ≡ ok (put r rows)
unfolding load_lines
load_lines-append [] acc rows r u h = last_row r acc u ∙ ap (λ xs. ok (put r xs)) (ok-injective h)
load_lines-append (blank ∷ lines) acc rows r u h = load_lines-append lines acc rows r u h
load_lines-append (junk ∷ []) acc rows r u h = cc
load_lines-append (junk ∷ l ∷ lines) acc rows r u h = cc
load_lines-append (row x ∷ lines) acc rows r u h =
    let (g, h1) = >>-eq-ok (raise_if (x.splits && true) history_corruption) _ h in
    rw g (load_lines-append lines (if x.splits then acc else put x acc) rows r u h1)

-- The same behind an unterminated file, whose broken tail goes.
load_lines-without_tail :
    (lines : List Line) (acc rows : List Sample) (r : Sample)
    → r.splits ≡ false
    → load_lines true true false lines acc ≡ ok rows
    → load_lines true true true (without_tail lines ++ (row r ∷ [])) acc ≡ ok (put r rows)
unfolding load_lines without_tail
load_lines-without_tail [] acc rows r u h =
    last_row r acc u ∙ ap (λ xs. ok (put r xs)) (ok-injective h)
load_lines-without_tail (blank ∷ []) acc rows r u h =
    last_row r acc u ∙ ap (λ xs. ok (put r xs)) (ok-injective h)
load_lines-without_tail (junk ∷ []) acc rows r u h =
    last_row r acc u ∙ ap (λ xs. ok (put r xs)) (ok-injective h)
load_lines-without_tail (row x ∷ []) acc rows r u h =
    let (g, h1) = >>-eq-ok (raise_if (x.splits && true) history_corruption) _ h in
    rw g (
      last_row r (if x.splits then acc else put x acc) u
      ∙ ap (λ xs. ok (put r xs)) (ok-injective h1))
load_lines-without_tail (blank ∷ l ∷ lines) acc rows r u h =
    load_lines-without_tail (l ∷ lines) acc rows r u h
load_lines-without_tail (junk ∷ l ∷ lines) acc rows r u h = cc
load_lines-without_tail (row x ∷ l ∷ lines) acc rows r u h =
    let (g, h1) = >>-eq-ok (raise_if (x.splits && true) history_corruption) _ h in
    rw g (load_lines-without_tail (l ∷ lines) (if x.splits then acc else put x acc) rows r u h1)

pub appended-loads :
    (file : Option File) (rows : List Sample) (r : Sample)
    → r.splits ≡ false
    → load true true file ≡ ok rows
    → load true true (some (appended r file)) ≡ ok (put r rows)
unfolding load load_lines
appended-loads none rows r u h = last_row r [] u ∙ ap (λ xs. ok (put r xs)) (ok-injective h)
appended-loads (some f) rows r u h = go f.terminated h
  where
    go :
        (t : Bool)
        → load_lines true true t f.lines [] ≡ ok rows
        → load_lines true true true
            ((if t then f.lines else without_tail f.lines) ++ (row r ∷ []))
            []
          ≡ ok (put r rows)
    go true k = load_lines-append f.lines [] rows r u k
    go false k = load_lines-without_tail f.lines [] rows r u k
