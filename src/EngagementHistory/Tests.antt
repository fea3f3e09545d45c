-- ===== src/EngagementHistory/Tests.antt =====
-- A history of two rows with a duplicate, a broken tail and a failed write, and instances of the
-- theorems.
use flop_agent_intelligence.Common.{◌≡◌, refl, true, false, none, some, List, [], ◌∷◌}
use flop_agent_intelligence.Common.Text.{is_sha256}
use flop_agent_intelligence.Common.Result.{ok}
use flop_agent_intelligence.EngagementHistory.Load.{
  deadline_exceeded, Sample, Candidate, validate, junk, row, key_less, put, has_key, load_lines,
  load,
}
use flop_agent_intelligence.EngagementHistory.Append.{
  World, Faults, untouched, broken_tail, without_tail, after_rename, write_candidate, commit,
  append_locked, append_aside, append_row, append,
}
use flop_agent_intelligence.EngagementHistory.Durable.{
  Refines, append-Refines, IsReported, append-IsReported,
}
use flop_agent_intelligence.EngagementHistory.Acknowledged.{
  Call, world_after, Acknowledged, world_after-Acknowledged,
}

abbrev first_row : Sample
first_row = record {
  fetched_at = "2026-01-01T00:00:00Z";
  source_sha256 = "00112233445566778899aabbccddeeff00112233445566778899aabbccddeeff";
  body = "first";
  splits = false;
}

abbrev second_row : Sample
second_row = record first_row { fetched_at = "2026-01-02T00:00:00Z"; body = "second" }

abbrev candidate : Sample → Candidate
candidate s = record {
  sample = s;
  has_required = true;
  is_v1 = true;
  has_date = true;
  has_lists = true;
  conforms = true;
}

abbrev no_faults : Faults
no_faults = record {
  open_failed = false;
  late_at_wait = false;
  lock_held = false;
  late_at_lock = false;
  recovery_failed = false;
  recovery_unsynced = false;
  late_at_load = false;
  late_at_dedup = false;
  late_at_write = false;
  candidate_failed = false;
  write_failed = false;
  late_at_replace = false;
  replace_failed = false;
  late_at_unmask = false;
  sync_failed = false;
  late_after_sync = false;
  unlink_failed = false;
  unlock_failed = false;
}

-- The signal of the deadline, delivered behind the rename.
abbrev late_signal : Faults
late_signal = record no_faults { late_at_unmask = true }

abbrev failing_write : Faults
failing_write = record no_faults { write_failed = true }

abbrev damaged : World
damaged = record {
  file = some (record { lines = row first_row ∷ junk ∷ []; terminated = false });
  recovery_tail = none;
  transaction = untouched;
}

append-Refines_example :
    Refines second_row damaged.file true (append no_faults (candidate second_row) damaged).1.file
unfolding append append_row append_locked append_aside validate is_sha256 broken_tail without_tail
    commit write_candidate after_rename load load_lines put key_less has_key
append-Refines_example =
    append-Refines no_faults (candidate second_row) damaged
      (append no_faults (candidate second_row) damaged).1 true refl refl refl

append-IsReported_example :
    IsReported second_row damaged.file
      (append late_signal (candidate second_row) damaged).1.file
      true
unfolding append append_row append_locked append_aside validate is_sha256 broken_tail without_tail
    commit write_candidate after_rename load load_lines put key_less has_key
append-IsReported_example =
    append-IsReported late_signal (candidate second_row) damaged
      (append late_signal (candidate second_row) damaged).1 deadline_exceeded refl refl refl

abbrev calls : List Call
calls =
    (no_faults, candidate first_row)
    ∷ (late_signal, candidate second_row)
    ∷ (failing_write, candidate second_row)
    ∷ (no_faults, candidate first_row)
    ∷ []

world_after-Acknowledged_example :
    (rows : List Sample) × (load true true (world_after calls).file ≡ ok rows)
    × Acknowledged calls rows
world_after-Acknowledged_example = world_after-Acknowledged calls (refl, (refl, (refl, (refl, tt))))
