-- ===== src/EngagementHistory/Durable.antt =====
-- Appends refine insertions into a set of keyed rows; what was recorded stays recorded.
use mathlib.Core.Path.{subst}
use text.Mathlib.Text.{◌==◌ as str_eq}
use text.Mathlib.TextPositions.{eq_refl}
use flop_agent_intelligence.Common.{
  ◌≡◌, refl, ap, ◌∙◌, Bool, true, false, not, ◌&&◌, ◌||◌, Option, List, [], ◌∷◌, if◌then◌else◌,
  arith,
}
use flop_agent_intelligence.Common.Text.{str_eq→eq}
use flop_agent_intelligence.Common.Result.{ok, err}
use flop_agent_intelligence.EngagementHistory.Load.{
  HistoryError, Sample, Candidate, File, same_key, key_less, put, has_key, load,
}
use flop_agent_intelligence.EngagementHistory.Append.{World, Faults, append}
use flop_agent_intelligence.EngagementHistory.Appended.{appended-loads}
use flop_agent_intelligence.EngagementHistory.Recorded.{
  Stored, Returned, is_committed, Interrupted, nothing_stored, row_stored, Outcome, append-Outcome,
}

-- The abstract history: a row is recorded unless its key is.
abbrev pub record_once : Sample → List Sample → List Sample
record_once r rows = if has_key r rows then rows else put r rows

pub record Refines (r : Sample) (before : Option File) (b : Bool) (after : Option File)
    : Type 0 where
  pub rows : List Sample
  pub loaded : load true true before ≡ ok rows
  pub is_new : b ≡ not (has_key r rows)
  pub recorded : load true true after ≡ ok (record_once r rows)

Returned-Refines :
    (r : Sample) (before : Option File) (b : Bool) (after : Option File)
    → r.splits ≡ false
    → Returned r before b after
    → Refines r before b after
Returned-Refines r before b after u h = go b h.stored h.is_new (has_key r h.rows) refl
  where
    go :
        (b : Bool)
        → Stored r before b after
        → b ≡ not (has_key r h.rows)
        → (k : Bool) → has_key r h.rows ≡ k
        → Refines r before b after
    go true st new true q = cc
    go true st new false q = record {
      rows = h.rows;
      loaded = h.loaded;
      is_new = new;
      recorded = ap (load true true) st ∙ appended-loads before h.rows r u h.loaded ∙ rw q refl;
    }
    go false st new true q = record {
      rows = h.rows;
      loaded = h.loaded;
      is_new = new;
      recorded = ap (load true true) st ∙ h.loaded ∙ rw q refl;
    }
    go false st new false q = cc

-- An append with a transaction of its own that returns has loaded the file, answers whether the key
-- is new, and leaves a file that loads as the rows with this row recorded, if the row's text holds no
-- further line separators.
pub append-Refines :
    (f : Faults) (c : Candidate) (w w' : World) (b : Bool)
    → is_committed w.transaction ≡ false
    → append f c w ≡ (ok b, w')
    → c.sample.splits ≡ false
    → Refines c.sample w.file b w'.file
append-Refines f c w w' b n h u =
    Returned-Refines c.sample w.file b w'.file u
      (subst (Outcome c.sample w.file) h (append-Outcome f c w n))

-- The history of an append that raised, in terms of what its transaction reports.
pub data IsReported (r : Sample) (before after : Option File) : Bool → Type 0 where
  unchanged : after ≡ before → IsReported r before after false
  recorded : Refines r before true after → IsReported r before after true

Interrupted-IsReported :
    (r : Sample) (before after : Option File) (b : Bool)
    → r.splits ≡ false
    → Interrupted r before b after
    → IsReported r before after b
Interrupted-IsReported r before after _ u (nothing_stored _ h) = unchanged h
Interrupted-IsReported r before after _ u (row_stored _ h) =
    recorded (Returned-Refines r before true after u h)

-- An append with a transaction of its own that raises, wherever it is interrupted, leaves the file as
-- it was unless the transaction is COMMITTED or DURABLE; then the file loads as the rows before with
-- this row recorded, whose key was new, if the row's text holds no further line separators.
pub append-IsReported :
    (f : Faults) (c : Candidate) (w w' : World) (e : HistoryError)
    → is_committed w.transaction ≡ false
    → append f c w ≡ (err e, w')
    → c.sample.splits ≡ false
    → IsReported c.sample w.file w'.file (is_committed w'.transaction)
append-IsReported f c w w' e n h u =
    Interrupted-IsReported c.sample w.file w'.file (is_committed w'.transaction) u
      (subst (Outcome c.sample w.file) h (append-Outcome f c w n))

same_key_refl : (r : Sample) → same_key r r ≡ true
same_key_refl r = rw (eq_refl r.fetched_at, eq_refl r.source_sha256) refl

-- Rows with the same key cannot be told apart by it.
same_key-left : (x r q : Sample) → same_key x r ≡ true → same_key x q ≡ same_key r q
same_key-left x r q h =
    let date : str_eq x.fetched_at r.fetched_at ≡ true = ground arith in
    let hash : str_eq x.source_sha256 r.source_sha256 ≡ true = ground arith in
    ap (λ a. str_eq a q.fetched_at && str_eq x.source_sha256 q.source_sha256)
      (str_eq→eq x.fetched_at r.fetched_at date)
    ∙ ap (λ a. str_eq r.fetched_at q.fetched_at && str_eq a q.source_sha256)
        (str_eq→eq x.source_sha256 r.source_sha256 hash)

pub put-has_key : (r : Sample) (rows : List Sample) → has_key r (put r rows) ≡ true
unfolding put has_key
put-has_key r [] = rw (same_key_refl r) refl
put-has_key r (x ∷ xs) = go (same_key x r) (key_less r x) refl (put-has_key r xs)
  where
    go :
        (a b : Bool)
        → same_key x r ≡ a
        → has_key r (put r xs) ≡ true
        → has_key r (if a then r ∷ xs else if b then r ∷ x ∷ xs else x ∷ put r xs) ≡ true
    go true b q ih = rw (same_key_refl r) refl
    go false true q ih = rw (same_key_refl r) refl
    go false false q ih = ground (arith, ih)

pub put-keeps :
    (q r : Sample) (rows : List Sample) → has_key q rows ≡ true → has_key q (put r rows) ≡ true
unfolding put has_key
put-keeps q r [] h = cc
put-keeps q r (x ∷ xs) h = go (same_key x r) (key_less r x) refl (put-keeps q r xs)
  where
    go :
        (a b : Bool)
        → same_key x r ≡ a
        → (has_key q xs ≡ true → has_key q (put r xs) ≡ true)
        → has_key q (if a then r ∷ xs else if b then r ∷ x ∷ xs else x ∷ put r xs) ≡ true
    go true b k ih = subst (λ (v : Bool). (v || has_key q xs) ≡ true) (same_key-left x r q k) h
    go false true k ih = ground (arith, h)
    go false false k ih = ground (arith, ih, h)
