-- ===== src/EvidenceTransport/Reached.antt =====
-- Sequences of calls on one service, and what holds of every snapshot and search after them.
use Prim.Native.String.{String}
use flop_agent_intelligence.Common.{
  ℕ, ◌≡◌, refl, ap, ◌∙◌, Bool, true, false, Option, none, some, List, [], ◌∷◌, if◌then◌else◌,
}
use flop_agent_intelligence.Common.Result.{Result, ok, err, or_raise, ok-injective}
use flop_agent_intelligence.Common.Exec.{pure, ◌>>=◌, resume}
use flop_agent_intelligence.Common.Triple.{Post}
use flop_agent_intelligence.EvidenceTransport.Types.{
  FindingStatus, found, not_found_confirmed, not_in_visible_page, SnapshotFields, EvidenceSnapshot,
  SearchResult, TransportError, permission_denied,
}
use flop_agent_intelligence.EvidenceTransport.Parse.{Row}
use flop_agent_intelligence.Common.Registry.{object_at, object_at-All}
use flop_agent_intelligence.EvidenceTransport.Store.{Entry, Registry}
use flop_agent_intelligence.EvidenceTransport.Acquire.{Request, has_seq, is_complete, is_unresolved}
use flop_agent_intelligence.EvidenceTransport.Contiguous.{Outside, absent-Outside}
use flop_agent_intelligence.EvidenceTransport.Service.{
  Service, acquire, attest, issue_complete_export_proof, apply_completeness,
  issue_retention_evidence, confirm_retention_loss, search, search_entry, finding_of,
  require_snapshot,
}
use flop_agent_intelligence.EvidenceTransport.Justified.{Review, IsComplete, Justified}
use flop_agent_intelligence.EvidenceTransport.Kept.{WellFormed, Keeps}
use flop_agent_intelligence.EvidenceTransport.Preserved.{
  acquire-Keeps, attest-Keeps, issue_complete_export_proof-Keeps, apply_completeness-Keeps,
  issue_retention_evidence-Keeps, confirm_retention_loss-Keeps,
}

finding_of-not_found_confirmed :
    (snapshot : EvidenceSnapshot) (rows : List Row) (q : ℕ)
    → finding_of snapshot rows q ≡ not_found_confirmed
    → (has_seq q rows ≡ false) × (is_complete snapshot.completeness ≡ true)
unfolding finding_of
finding_of-not_found_confirmed snapshot rows q h =
    go (has_seq q rows) (is_unresolved snapshot.gap_status) (is_complete snapshot.completeness) h
  where
    go :
        (a b c : Bool)
        → (if a
            then found
            else if b
            then FindingStatus.gap_unresolved
            else if c
            then not_found_confirmed
            else not_in_visible_page)
          ≡ not_found_confirmed
        → (a ≡ false) × (c ≡ true)
    go true b c h = cc
    go false true c h = cc
    go false false true h = (refl, refl)
    go false false false h = cc

-- The calls that can change the registries.
pub data Call : Type 0 where
  acquired : Request → Call
  attested : ℕ → Call
  export_proved completeness_applied retention_proved loss_applied : ℕ → ℕ → Call

abbrev pub no_objects : Registry
no_objects = record { acquired = []; trusted = []; proofs = [] }

module _ (identity : SnapshotFields → String) (complete retention : List String) where
  abbrev pub review : Review
  review = record { identity = identity; listed = complete }

  abbrev pub perform : Call → Service ℕ
  perform (acquired r) = acquire identity complete retention r
  perform (attested h) = attest identity complete retention h
  perform (export_proved h a) = issue_complete_export_proof identity complete retention h a
  perform (completeness_applied h p) = apply_completeness identity complete retention h p
  perform (retention_proved h a) = issue_retention_evidence identity complete retention h a
  perform (loss_applied h p) = confirm_retention_loss identity complete retention h p

  -- The registries after a sequence of calls, the newest first; a call that raises counts too.
  abbrev pub registry_after : List Call → Registry
  registry_after [] = no_objects
  registry_after (c ∷ calls) = (perform c (registry_after calls)).1

  search-Entry :
      (h q : ℕ) (result : SearchResult) (s : Registry)
      → (search identity complete retention h q s).0 ≡ ok result
      → (e : Entry) × (object_at h s.acquired ≡ some e) × (search_entry e q ≡ result)
  unfolding search require_snapshot ◌>>=◌ search_entry
  search-Entry h q result s k = go (object_at h s.acquired) refl k
    where
      go :
          (o : Option Entry)
          → object_at h s.acquired ≡ o
          → (resume
              (or_raise o permission_denied)
              s
              (λ (e : Entry). pure {E = TransportError} (search_entry e q))).0
            ≡ ok result
          → (e : Entry) × (object_at h s.acquired ≡ some e) × (search_entry e q ≡ result)
      go none at k = cc
      go (some e) at k = (e, at, ok-injective k)

  perform-Keeps : (c : Call) → Keeps review (perform c)
  perform-Keeps (acquired r) = acquire-Keeps review retention r
  perform-Keeps (attested h) = attest-Keeps review retention h
  perform-Keeps (export_proved h a) = issue_complete_export_proof-Keeps review retention h a
  perform-Keeps (completeness_applied h p) = apply_completeness-Keeps review retention h p
  perform-Keeps (retention_proved h a) = issue_retention_evidence-Keeps review retention h a
  perform-Keeps (loss_applied h p) = confirm_retention_loss-Keeps review retention h p

  Post-same :
      {A : Type 0} (P : Registry → Type 0) (r : Result TransportError A × Registry)
      → Post (λ _. P) P r
      → P r.1
  Post-same P (ok a, s) h = h
  Post-same P (err e, s) h = h

  pub registry_after-WellFormed : (calls : List Call) → WellFormed review (registry_after calls)
  registry_after-WellFormed [] = record { acquired = tt; proofs = tt }
  registry_after-WellFormed (c ∷ calls) =
      Post-same (WellFormed review) (perform c (registry_after calls))
        ((perform-Keeps c).at (registry_after calls) (registry_after-WellFormed calls))

  -- Whatever calls were made, a snapshot whose completeness is `COMPLETE_VERIFIED` has the room,
  -- generation, bytes and range of fields whose identity is on the reviewed list; it is a direct,
  -- untruncated room export without a gap, and its flags say so.
  pub registry_after-IsComplete :
      (calls : List Call) (h : ℕ) (e : Entry)
      → object_at h (registry_after calls).acquired ≡ some e
      → is_complete e.snapshot.completeness ≡ true
      → IsComplete review e
  registry_after-IsComplete calls h e at =
      (object_at-All (Justified review) h (registry_after calls).acquired e
        (registry_after-WellFormed calls).acquired at).complete

  -- Whatever calls were made, a search that answers `NOT_FOUND_CONFIRMED` for a sequence number was
  -- made in a complete snapshot with the room, generation, bytes and range of fields whose identity
  -- is on the reviewed list, and the number is before its first or behind its last.
  pub search-not_found_confirmed :
      (calls : List Call) (h q : ℕ) (result : SearchResult)
      → (search identity complete retention h q (registry_after calls)).0 ≡ ok result
      → result.finding ≡ not_found_confirmed
      → (e : Entry) × (object_at h (registry_after calls).acquired ≡ some e)
        × IsComplete review e
        × Outside q e.snapshot.first_seq e.snapshot.last_seq
  unfolding search_entry
  search-not_found_confirmed calls h q result s f =
      let (e, at, same) = search-Entry h q result (registry_after calls) s in
      let answer : finding_of e.snapshot e.rows q ≡ not_found_confirmed =
        ap (λ (x : SearchResult). x.finding) same ∙ f in
      let (missing, done) = finding_of-not_found_confirmed e.snapshot e.rows q answer in
      let j =
        object_at-All (Justified review) h (registry_after calls).acquired e
          (registry_after-WellFormed calls).acquired at in
      let c = j.complete done in
      let outside = absent-Outside e.rows q c.contiguous missing in
      (e, at, c, rw (j.first, j.last) outside)
