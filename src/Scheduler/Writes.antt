-- ===== src/Scheduler/Writes.antt =====
-- What the operations find in the file and what they leave there.
use flop_agent_intelligence.Common.{ℕ, ◌≡◌, refl, ◌⊎◌, inl, inr, Option, none, some, arith}
use flop_agent_intelligence.Common.Result.{Result, ok, err}
use flop_agent_intelligence.Scheduler.Types.{Outcome, State}
use flop_agent_intelligence.Scheduler.Validate.{validate_state}
use flop_agent_intelligence.Scheduler.Run.{
  World, Entry, Fault, publish, write_state, load_state, read_entry,
}

abbrev pub content_of : Option Entry → Option State
content_of none = none
content_of (some e) = e.content

-- The state in the file, validated or not.
abbrev pub content : World → Option State
content w = content_of w.file

read_entry-content :
    (e : Entry) (c : Option State) (now : ℕ) (s : State)
    → e.content ≡ c
    → read_entry (some e) now ≡ ok s
    → (raw : State) × (c ≡ some raw) × (validate_state raw now ≡ ok s)
unfolding read_entry
read_entry-content e none now s q h = absurd (ground arith)
read_entry-content e (some raw) now s q h = (raw, refl, ground arith)

load_file :
    (o : Option Entry) (now : ℕ) (s : State)
    → read_entry o now ≡ ok s
    → (raw : State) × (content_of o ≡ some raw) × (validate_state raw now ≡ ok s)
unfolding read_entry
load_file none now s h = absurd (cc)
load_file (some e) now s h = read_entry-content e e.content now s refl h

-- A state that loads is the content of the file, validated.
pub load-content :
    (w : World) (now : ℕ) (s : State)
    → load_state w now ≡ ok s
    → (raw : State) × (content w ≡ some raw) × (validate_state raw now ≡ ok s)
unfolding load_state
load-content w now s h = load_file w.file now s h

-- A write leaves the world alone, or publishes the validated state.
pub write_state-cases :
    (w : World) (s : State) (now : ℕ) (fault : Fault)
    → ((write_state w s now fault).1 ≡ w)
      ⊎ ((v : State) × (validate_state s now ≡ ok v)
          × ((write_state w s now fault).1 ≡ publish w v))
unfolding write_state
write_state-cases w s now fault = go (validate_state s now) refl fault
  where
    go :
        (r : Result Outcome State)
        → validate_state s now ≡ r
        → (f : Fault)
        → ((write_state w s now f).1 ≡ w)
          ⊎ ((v : State) × (validate_state s now ≡ ok v)
              × ((write_state w s now f).1 ≡ publish w v))
    go (err code) e f = inl (rw (e, write_state))
    go (ok v) e Fault.no_fault = inr (v, e, rw (e, write_state))
    go (ok v) e Fault.before_replace = inl (rw (e, write_state))
    go (ok v) e Fault.after_replace = inr (v, e, rw (e, write_state))

pub content-publish : (w : World) (s : State) → content (publish w s) ≡ some s
unfolding publish
content-publish w s = refl

pub calls-publish : (w : World) (s : State) → (publish w s).calls ≡ w.calls
unfolding publish
calls-publish w s = refl

pub calls-write_state :
    (w : World) (s : State) (now : ℕ) (fault : Fault)
    → (write_state w s now fault).1.calls ≡ w.calls
unfolding write_state publish
calls-write_state w s now fault = ground arith
