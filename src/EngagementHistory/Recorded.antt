-- ===== src/EngagementHistory/Recorded.antt =====
-- Appends as insertions of rows, each at most once, and sequences of appends.
use mathlib.Core.Path.{subst}
use flop_agent_intelligence.Common.{
  ◌≡◌, refl, sym, ap, ◌∙◌, Bool, true, false, not, ◌&&◌, Option, none, some, List, if◌then◌else◌,
}
use flop_agent_intelligence.Common.Text.{is_sha256}
use flop_agent_intelligence.Common.Result.{Result, ok, err, raise_if, >>-eq-ok, ok-injective}
use flop_agent_intelligence.EngagementHistory.Load.{
  HistoryError, lock_timeout, deadline_exceeded, os_error, invalid_sample, Sample, Candidate,
  validate, Line, File, has_key, load,
}
use flop_agent_intelligence.EngagementHistory.Append.{
  World, Faults, Transaction, deduped, committed, durable, and_finally, published, after_rename,
  write_candidate, append_locked, append_aside, dedup, tail_of, appended, commit, settle, set_aside,
  has_tail, append_row, begin, append_checked, append,
}

-- What `append` has done to the file: nothing, or it has added the row. `b` tells which.
abbrev pub Stored : Sample → Option File → Bool → Option File → Type 0
Stored r before true after = after ≡ some (appended r before)
Stored r before false after = after ≡ before

-- Before and after an append that returns.
pub record Returned (r : Sample) (before : Option File) (b : Bool) (after : Option File)
    : Type 0 where
  pub rows : List Sample
  pub loaded : load true true before ≡ ok rows
  pub is_new : b ≡ not (has_key r rows)
  pub stored : Stored r before b after

abbrev pub is_committed : Transaction → Bool
is_committed committed = true
is_committed durable = true
is_committed _ = false

-- Before and after an append that raises: `b` tells whether the row was committed.
pub data Interrupted (r : Sample) (before : Option File) : Bool → Option File → Type 0 where
  nothing_stored : (after : Option File) → after ≡ before → Interrupted r before false after
  row_stored :
      (after : Option File) → Returned r before true after → Interrupted r before true after

abbrev pub Outcome : Sample → Option File → Result HistoryError Bool × World → Type 0
Outcome r before (ok b, w) = Returned r before b w.file
Outcome r before (err e, w) = Interrupted r before (is_committed w.transaction) w.file

-- What holds whether the run returns or raises, so that an error of a `finally` keeps it.
pub record Both (r : Sample) (before : Option File) (out : Result HistoryError Bool × World)
    : Type 0 where
  pub outcome : Outcome r before out
  pub interrupted : Interrupted r before (is_committed out.1.transaction) out.1.file

and_finally-Both :
    (r : Sample) (before : Option File) (b : Bool) (out : Result HistoryError Bool × World)
    → Both r before out
    → Both r before (and_finally b out)
and_finally-Both r before true (x, w) h = record {
  outcome = h.interrupted;
  interrupted = h.interrupted;
}
and_finally-Both r before false (x, w) h = h

-- A raise before the rename.
raised-Both :
    (r : Sample) (before : Option File) (e : HistoryError) (w : World)
    → is_committed w.transaction ≡ false
    → w.file ≡ before
    → Both r before (err e, w)
raised-Both r before e w n same =
    let i = subst (λ b. Interrupted r before b w.file) (sym n) (nothing_stored w.file same) in
    record { outcome = i; interrupted = i }

after_rename-Both :
    (f : Faults) (r : Sample) (w : World) (before : Option File)
    → w.transaction ≡ committed
    → Returned r before true w.file
    → Both r before (after_rename f w)
unfolding after_rename
after_rename-Both f r w before t h = go f.late_at_unmask f.late_after_sync f.sync_failed
  where
    stays : Interrupted r before (is_committed w.transaction) w.file
    stays = subst (λ x. Interrupted r before (is_committed x) w.file) (sym t) (row_stored w.file h)

    go :
        (a b c : Bool)
        → Both r before (
            if a
            then (err deadline_exceeded, w)
            else if b
            then (err deadline_exceeded, if c then w else record w { transaction = durable })
            else (ok true, if c then w else record w { transaction = durable }))
    go true b c = record { outcome = stays; interrupted = stays }
    go false true true = record { outcome = stays; interrupted = stays }
    go false true false = record {
      outcome = row_stored w.file h;
      interrupted = row_stored w.file h;
    }
    go false false true = record { outcome = h; interrupted = stays }
    go false false false = record { outcome = h; interrupted = row_stored w.file h }

write_candidate-Both :
    (f : Faults) (r : Sample) (w : World) (before : Option File) (rows : List Sample)
    → is_committed w.transaction ≡ false
    → w.file ≡ before
    → load true true before ≡ ok rows
    → has_key r rows ≡ false
    → Both r before (write_candidate f r w)
unfolding write_candidate
write_candidate-Both f r w before rows n same h new =
    go f.write_failed f.late_at_replace f.replace_failed
  where
    go :
        (b c d : Bool)
        → Both r before (
            if b
            then (err os_error, w)
            else if c
            then (err deadline_exceeded, w)
            else if d
            then (err os_error, w)
            else after_rename f (published r w))
    go true c d = raised-Both r before os_error w n same
    go false true d = raised-Both r before deadline_exceeded w n same
    go false false true = raised-Both r before os_error w n same
    go false false false = after_rename-Both f r (published r w) before refl (record {
      rows = rows;
      loaded = h;
      is_new = ap not (sym new);
      stored = ap (λ x. some (appended r x)) same;
    })

commit-Both :
    (f : Faults) (r : Sample) (w : World) (before : Option File) (rows : List Sample)
    → is_committed w.transaction ≡ false
    → w.file ≡ before
    → load true true before ≡ ok rows
    → has_key r rows ≡ false
    → Both r before (commit f r w)
unfolding commit
commit-Both f r w before rows n same h new = go f.late_at_write f.candidate_failed
  where
    go :
        (a b : Bool)
        → Both r before (
            if a
            then (err deadline_exceeded, w)
            else if b
            then (err os_error, w)
            else and_finally f.unlink_failed (write_candidate f r w))
    go true b = raised-Both r before deadline_exceeded w n same
    go false true = raised-Both r before os_error w n same
    go false false =
        and_finally-Both r before f.unlink_failed (write_candidate f r w)
          (write_candidate-Both f r w before rows n same h new)

dedup-Both :
    (f : Faults) (r : Sample) (w : World) (before : Option File) (rows : List Sample)
    → is_committed w.transaction ≡ false
    → w.file ≡ before
    → load true true before ≡ ok rows
    → has_key r rows ≡ true
    → Both r before (dedup f w)
dedup-Both f r w before rows n same h q = go f.late_at_dedup
  where
    raised : Both r before (err deadline_exceeded, w)
    raised = raised-Both r before deadline_exceeded w n same

    go : (b : Bool) → Both r before (if b then (err deadline_exceeded, w) else (ok false, w))
    go true = raised
    go false = record {
      outcome = record { rows = rows; loaded = h; is_new = ap not (sym q); stored = same };
      interrupted = raised.interrupted;
    }

settle-Both :
    (f : Faults) (r : Sample) (w : World) (before : Option File)
    (loaded : Result HistoryError (List Sample))
    → is_committed w.transaction ≡ false
    → w.file ≡ before
    → load true true before ≡ loaded
    → Both r before (settle f r w loaded)
settle-Both f r w before (err e) n same h = raised-Both r before e w n same
settle-Both f r w before (ok rows) n same h = go (has_key r rows) refl
  where
    go :
        (b : Bool)
        → has_key r rows ≡ b
        → Both r before (if b then dedup f (record w { transaction = deduped }) else commit f r w)
    go true q = dedup-Both f r (record w { transaction = deduped }) before rows refl same h q
    go false q = commit-Both f r w before rows n same h q

set_aside-file : (tail : Option Line) (w : World) → (set_aside tail w).file ≡ w.file
set_aside-file none w = refl
set_aside-file (some tail) w = refl

set_aside-transaction :
    (tail : Option Line) (w : World) → (set_aside tail w).transaction ≡ w.transaction
set_aside-transaction none w = refl
set_aside-transaction (some tail) w = refl

append_aside-Both :
    (f : Faults) (r : Sample) (w : World) (before : Option File)
    → is_committed w.transaction ≡ false
    → w.file ≡ before
    → Both r before (append_aside f r w)
unfolding append_aside
append_aside-Both f r w before n same =
    go (has_tail (tail_of w.file) && f.recovery_unsynced) f.late_at_load
  where
    go :
        (b c : Bool)
        → Both r before (
            if b
            then (err os_error, w)
            else if c
            then (err deadline_exceeded, w)
            else settle f r w (load true true w.file))
    go true c = raised-Both r before os_error w n same
    go false true = raised-Both r before deadline_exceeded w n same
    go false false =
        settle-Both f r w before (load true true w.file) n same (ap (load true true) (sym same))

append_locked-Both :
    (f : Faults) (r : Sample) (w : World)
    → is_committed w.transaction ≡ false
    → Both r w.file (append_locked f r w)
unfolding append_locked
append_locked-Both f r w n = go f.late_at_lock (has_tail (tail_of w.file) && f.recovery_failed)
  where
    go :
        (b c : Bool)
        → Both r w.file (
            if b
            then (err deadline_exceeded, w)
            else if c
            then (err os_error, w)
            else append_aside f r (set_aside (tail_of w.file) w))
    go true c = raised-Both r w.file deadline_exceeded w n refl
    go false true = raised-Both r w.file os_error w n refl
    go false false =
        append_aside-Both f r (set_aside (tail_of w.file) w) w.file
          (ap is_committed (set_aside-transaction (tail_of w.file) w) ∙ n)
          (set_aside-file (tail_of w.file) w)

append_row-Outcome :
    (f : Faults) (r : Sample) (w : World)
    → is_committed w.transaction ≡ false
    → Outcome r w.file (append_row f r w)
unfolding append_row
append_row-Outcome f r w n = go f.open_failed f.late_at_wait f.lock_held
  where
    go :
        (a b c : Bool)
        → Outcome r w.file (
            if a
            then (err os_error, w)
            else if b
            then (err deadline_exceeded, w)
            else if c
            then (err lock_timeout, w)
            else and_finally f.unlock_failed (append_locked f r w))
    go true b c = (raised-Both r w.file os_error w n refl).outcome
    go false true c = (raised-Both r w.file deadline_exceeded w n refl).outcome
    go false false true = (raised-Both r w.file lock_timeout w n refl).outcome
    go false false false =
        (and_finally-Both r w.file f.unlock_failed (append_locked f r w)
          (append_locked-Both f r w n)).outcome

validate-sample : (c : Candidate) (r : Sample) → validate c ≡ ok r → c.sample ≡ r
unfolding validate
validate-sample c r h =
    let (_, h1) = >>-eq-ok (raise_if (not (c.has_required && c.is_v1)) invalid_sample) _ h in
    let (_, h2) = >>-eq-ok (raise_if (not c.has_date) invalid_sample) _ h1 in
    let (_, h3) =
      >>-eq-ok (raise_if (not (is_sha256 c.sample.source_sha256)) invalid_sample) _ h2 in
    let (_, h4) = >>-eq-ok (raise_if (not c.has_lists) invalid_sample) _ h3 in
    let (_, h5) = >>-eq-ok (raise_if (not c.conforms) invalid_sample) _ h4 in ok-injective h5

pub append-Outcome :
    (f : Faults) (c : Candidate) (w : World)
    → is_committed w.transaction ≡ false
    → Outcome c.sample w.file (append f c w)
unfolding append
append-Outcome f c w n = go (validate c) refl
  where
    go :
        (v : Result HistoryError Sample)
        → validate c ≡ v
        → Outcome c.sample w.file (append_checked f w v)
    go (err e) q = (raised-Both c.sample w.file e w n refl).outcome
    go (ok r) q =
        subst (λ x. Outcome x w.file (append_row f r (begin w))) (sym (validate-sample c r q))
          (append_row-Outcome f r (begin w) refl)
