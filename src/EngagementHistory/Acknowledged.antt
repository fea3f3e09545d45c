-- ===== src/EngagementHistory/Acknowledged.antt =====
-- Sequences of appends to one file, with any faults.
use flop_agent_intelligence.Common.{
  ◌≡◌, refl, sym, ap, ◌∙◌, Bool, true, false, none, List, [], ◌∷◌, if◌then◌else◌,
}
use flop_agent_intelligence.Common.Result.{Result, ok, err, ok-injective}
use flop_agent_intelligence.EngagementHistory.Load.{
  HistoryError, Sample, Candidate, put, has_key, load,
}
use flop_agent_intelligence.EngagementHistory.Append.{World, Faults, append}
use flop_agent_intelligence.EngagementHistory.Append.{untouched}
use flop_agent_intelligence.Common.{All}
use flop_agent_intelligence.EngagementHistory.Durable.{
  record_once, append-Refines, IsReported, unchanged, recorded, append-IsReported, put-has_key,
  put-keeps,
}

abbrev pub Call : Type 0
Call = Faults × Candidate

abbrev pub fresh : World
fresh = record { file = none; recovery_tail = none; transaction = untouched }

-- Each call reports to a transaction of its own.
abbrev pub renewed : World → World
renewed w = record w { transaction = untouched }

-- The world after a sequence of calls, the newest first.
abbrev pub world_after : List Call → World
world_after [] = fresh
world_after (call ∷ calls) = (append call.0 call.1 (renewed (world_after calls))).1

-- The rows hold the key of every call that has returned.
abbrev pub Acknowledged : List Call → List Sample → Type 0
Acknowledged [] rows = Unit
Acknowledged (call ∷ calls) rows =
    ((b : Bool)
      → (append call.0 call.1 (renewed (world_after calls))).0 ≡ ok b
      → has_key call.1.sample rows ≡ true)
    × Acknowledged calls rows

Acknowledged-grow :
    (calls : List Call) (rows rows' : List Sample)
    → ((q : Sample) → has_key q rows ≡ true → has_key q rows' ≡ true)
    → Acknowledged calls rows
    → Acknowledged calls rows'
Acknowledged-grow [] rows rows' more h = tt
Acknowledged-grow (call ∷ calls) rows rows' more h =
    (λ b k. more call.1.sample (h.0 b k), Acknowledged-grow calls rows rows' more h.1)

record_once-has_key : (r : Sample) (rows : List Sample) → has_key r (record_once r rows) ≡ true
record_once-has_key r rows = go (has_key r rows) refl
  where
    go : (b : Bool) → has_key r rows ≡ b → has_key r (if b then rows else put r rows) ≡ true
    go true q = q
    go false q = put-has_key r rows

record_once-keeps :
    (q r : Sample) (rows : List Sample)
    → has_key q rows ≡ true
    → has_key q (record_once r rows) ≡ true
record_once-keeps q r rows h = go (has_key r rows)
  where
    go : (b : Bool) → has_key q (if b then rows else put r rows) ≡ true
    go true = h
    go false = put-keeps q r rows h

-- After any appends to a new file, each with a transaction of its own and with any faults, of rows
-- whose text holds no further line separators, the file loads, and holds the key of every row whose
-- append has returned.
pub world_after-Acknowledged :
    (calls : List Call)
    → All (λ (call : Call). call.1.sample.splits ≡ false) calls
    → (rows : List Sample) × (load true true (world_after calls).file ≡ ok rows)
      × Acknowledged calls rows
unfolding load
world_after-Acknowledged [] u = ([], refl, tt)
world_after-Acknowledged ((f, c) ∷ calls) (u, us) =
    let (rows, l, a) = world_after-Acknowledged calls us in
    go rows l a (append f c (renewed (world_after calls))) refl
  where
    raised :
        (rows : List Sample)
        → load true true (world_after calls).file ≡ ok rows
        → Acknowledged calls rows
        → (w : World) (e : HistoryError) → append f c (renewed (world_after calls)) ≡ (err e, w)
        → {b : Bool} → IsReported c.sample (world_after calls).file w.file b
        → (rows' : List Sample) × (load true true w.file ≡ ok rows')
          × (((b : Bool)
                → ◌≡◌ {A = Result HistoryError Bool} (err e) (ok b)
                → has_key c.sample rows' ≡ true)
              × Acknowledged calls rows')
    raised rows l a w e q (unchanged same) = (rows, ap (load true true) same ∙ l, (λ b k. cc k, a))
    raised rows l a w e q (recorded r) =
        let same : r.rows ≡ rows = ok-injective (sym r.loaded ∙ l) in
        (
          record_once c.sample rows,
          r.recorded ∙ ap (λ xs. ok (record_once c.sample xs)) same,
          (
            λ b' k. cc k,
            Acknowledged-grow calls rows (record_once c.sample rows)
                (λ x. record_once-keeps x c.sample rows) a,
          ),
        )

    go :
        (rows : List Sample)
        → load true true (world_after calls).file ≡ ok rows
        → Acknowledged calls rows
        → (out : Result HistoryError Bool × World) → append f c (renewed (world_after calls)) ≡ out
        → (rows' : List Sample) × (load true true out.1.file ≡ ok rows')
          × (((b : Bool) → out.0 ≡ ok b → has_key c.sample rows' ≡ true) × Acknowledged calls rows')
    go rows l a (err e, w) q =
        raised rows l a w e q (append-IsReported f c (renewed (world_after calls)) w e refl q u)
    go rows l a (ok b, w) q =
        let r = append-Refines f c (renewed (world_after calls)) w b refl q u in
        let same : r.rows ≡ rows = ok-injective (sym r.loaded ∙ l) in
        (
          record_once c.sample rows,
          r.recorded ∙ ap (λ xs. ok (record_once c.sample xs)) same,
          (
            λ b' k. record_once-has_key c.sample rows,
            Acknowledged-grow calls rows (record_once c.sample rows)
                (λ x. record_once-keeps x c.sample rows) a,
          ),
        )
