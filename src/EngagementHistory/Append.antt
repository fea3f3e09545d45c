-- ===== src/EngagementHistory/Append.antt =====
-- `append` of engagement_history.py, with a transaction to report to. A deadline that passes, by its
-- test or by its signal, a lock that is not released and the failures of the file system are
-- arguments.
use flop_agent_intelligence.Common.{
  Bool, true, false, ◌&&◌, Option, none, some, List, [], ◌∷◌, ◌++◌, if◌then◌else◌,
}
use flop_agent_intelligence.Common.Result.{Result, ok, err}
use flop_agent_intelligence.EngagementHistory.Load.{
  HistoryError, lock_timeout, deadline_exceeded, os_error, Sample, Candidate, validate, Line, row,
  File, has_key, load,
}

pub data Transaction : Type 0 where
  untouched pre_commit deduped committed durable : Transaction

pub record World : Type 0 where
  pub file : Option File
  pub recovery_tail : Option Line
  pub transaction : Transaction

-- `recovery_unsynced`: an error once the tail is set aside. `late_at_unmask`: the signal is delivered when the rename and its report are over;
-- `late_after_sync`: before the return. `unlink_failed` and `unlock_failed` are errors of the
-- `finally` blocks.
pub record Faults : Type 0 where
  pub open_failed : Bool
  pub late_at_wait : Bool
  pub lock_held : Bool
  pub late_at_lock : Bool
  pub recovery_failed : Bool
  pub recovery_unsynced : Bool
  pub late_at_load : Bool
  pub late_at_dedup : Bool
  pub late_at_write : Bool
  pub candidate_failed : Bool
  pub write_failed : Bool
  pub late_at_replace : Bool
  pub replace_failed : Bool
  pub late_at_unmask : Bool
  pub sync_failed : Bool
  pub late_after_sync : Bool
  pub unlink_failed : Bool
  pub unlock_failed : Bool

abbrev pub is_row : Line → Bool
is_row (row _) = true
is_row _ = false

-- The last line of an unterminated file, if it is no row: the tail that is set aside.
unfoldable pub broken_tail : List Line → Option Line
broken_tail [] = none
broken_tail (l ∷ []) = if is_row l then none else some l
broken_tail (l ∷ m ∷ lines) = broken_tail (m ∷ lines)

abbrev pub tail_of : Option File → Option Line
tail_of none = none
tail_of (some f) = if f.terminated then none else broken_tail f.lines

-- `existing_data`, with a line end behind it: the lines without a broken tail.
unfoldable pub without_tail : List Line → List Line
without_tail [] = []
without_tail (l ∷ []) = if is_row l then l ∷ [] else []
without_tail (l ∷ m ∷ lines) = l ∷ without_tail (m ∷ lines)

abbrev pub existing_lines : Option File → List Line
existing_lines none = []
existing_lines (some f) = if f.terminated then f.lines else without_tail f.lines

abbrev pub appended : Sample → Option File → File
appended r file = record { lines = existing_lines file ++ (row r ∷ []); terminated = true }

-- An error of a `finally` block takes the place of what was returned or raised.
abbrev pub and_finally : Bool → Result HistoryError Bool × World → Result HistoryError Bool × World
and_finally true (r, w) = (err os_error, w)
and_finally false (r, w) = (r, w)

-- `_replace_and_publish_committed`, once the file is renamed: the state is reported before a signal
-- can be delivered.
abbrev pub published : Sample → World → World
published r w = record w { file = some (appended r w.file); transaction = committed }

abbrev pub synced : Faults → World → World
synced f w = if f.sync_failed then w else record w { transaction = durable }

unfoldable pub after_rename : Faults → World → Result HistoryError Bool × World
after_rename f w =
    if f.late_at_unmask
    then (err deadline_exceeded, w)
    else if f.late_after_sync
    then (err deadline_exceeded, synced f w)
    else (ok true, synced f w)

-- The body of the inner `try`.
unfoldable pub write_candidate : Faults → Sample → World → Result HistoryError Bool × World
write_candidate f r w =
    if f.write_failed
    then (err os_error, w)
    else if f.late_at_replace
    then (err deadline_exceeded, w)
    else if f.replace_failed
    then (err os_error, w)
    else after_rename f (published r w)

unfoldable pub commit : Faults → Sample → World → Result HistoryError Bool × World
commit f r w =
    if f.late_at_write
    then (err deadline_exceeded, w)
    else if f.candidate_failed
    then (err os_error, w)
    else and_finally f.unlink_failed (write_candidate f r w)

abbrev pub dedup : Faults → World → Result HistoryError Bool × World
dedup f w = if f.late_at_dedup then (err deadline_exceeded, w) else (ok false, w)

abbrev pub settle :
    Faults → Sample → World → Result HistoryError (List Sample) → Result HistoryError Bool × World
settle f r w (err e) = (err e, w)
settle f r w (ok rows) =
    if has_key r rows then dedup f (record w { transaction = deduped }) else commit f r w

abbrev pub set_aside : Option Line → World → World
set_aside none w = w
set_aside (some tail) w = record w { recovery_tail = some tail }

abbrev pub has_tail : Option Line → Bool
has_tail none = false
has_tail (some _) = true

-- Once a tail, if there is one, is set aside.
unfoldable pub append_aside : Faults → Sample → World → Result HistoryError Bool × World
append_aside f r w =
    if has_tail (tail_of w.file) && f.recovery_unsynced
    then (err os_error, w)
    else if f.late_at_load
    then (err deadline_exceeded, w)
    else settle f r w (load true true w.file)

-- The body of the outer `try`, which holds the lock.
unfoldable pub append_locked : Faults → Sample → World → Result HistoryError Bool × World
append_locked f r w =
    if f.late_at_lock
    then (err deadline_exceeded, w)
    else if has_tail (tail_of w.file) && f.recovery_failed
    then (err os_error, w)
    else append_aside f r (set_aside (tail_of w.file) w)

unfoldable pub append_row : Faults → Sample → World → Result HistoryError Bool × World
append_row f r w =
    if f.open_failed
    then (err os_error, w)
    else if f.late_at_wait
    then (err deadline_exceeded, w)
    else if f.lock_held
    then (err lock_timeout, w)
    else and_finally f.unlock_failed (append_locked f r w)

abbrev pub begin : World → World
begin w = record w { transaction = pre_commit }

-- After `validate`.
abbrev pub append_checked :
    Faults → World → Result HistoryError Sample → Result HistoryError Bool × World
append_checked f w (err e) = (err e, w)
append_checked f w (ok r) = append_row f r (begin w)

unfoldable pub append : Faults → Candidate → World → Result HistoryError Bool × World
append f c w = append_checked f w (validate c)
