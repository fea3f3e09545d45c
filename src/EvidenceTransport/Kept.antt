-- ===== src/EvidenceTransport/Kept.antt =====
-- Every operation of the service keeps its registries justified.
use mathlib.Core.Path.{subst}
use flop_agent_intelligence.Common.{
  ℕ, ◌≡◌, refl, ◌∙◌, sym, ap, Bool, true, false, not, Option, none, some, arith, All,
}
use flop_agent_intelligence.Common.Text.{is_member}
use flop_agent_intelligence.Common.Result.{ok, or_raise}
use flop_agent_intelligence.Common.Exec.{raise_when, ◌>>=◌, ◌>>◌}
use flop_agent_intelligence.Common.Triple.{
  Post, Triple, Triple-reads, Triple-bind, IsSteady, IsSteady-raise_when,
}
use flop_agent_intelligence.EvidenceTransport.Types.{
  GapStatus, no_gap_observed, gap_unresolved, history_gap, retention_loss_confirmed, TransportError,
  EvidenceSnapshot, permission_denied,
}
use flop_agent_intelligence.Common.Registry.{object_at, object_at-All}
use flop_agent_intelligence.EvidenceTransport.Store.{
  ProofKind, complete_export, Entry, ProofRecord, Registry,
}
use flop_agent_intelligence.EvidenceTransport.Acquire.{is_gapless, is_unresolved}
use flop_agent_intelligence.EvidenceTransport.Service.{
  Service, same_kind, proves, trusts, remember, require_snapshot, require_trusted, require_proof,
  record_proof, is_complete_export, elevated, loss_confirmed,
}
use flop_agent_intelligence.EvidenceTransport.Justified.{Review, Justified, Backed, Backed-grow}

pub record WellFormed (reviewed : Review) (s : Registry) : Type 0 where
  pub acquired : All (Justified reviewed) s.acquired
  pub proofs : All (Backed reviewed s.acquired) s.proofs

-- A proof that is accepted for a complete export shows that the snapshot is a reviewed one.
pub proves-complete_export :
    (reviewed : Review) (s : Registry) (h p : ℕ) (e : Entry)
    → WellFormed reviewed s
    → object_at h s.acquired ≡ some e
    → proves h e.snapshot complete_export s.trusted (object_at p s.proofs) ≡ true
    → is_complete_export reviewed.listed e.snapshot ≡ true
proves-complete_export reviewed s h p e w at ok_proof = go (object_at p s.proofs) refl ok_proof
  where
    go :
        (o : Option ProofRecord)
        → object_at p s.proofs ≡ o
        → proves h e.snapshot complete_export s.trusted o ≡ true
        → is_complete_export reviewed.listed e.snapshot ≡ true
    go none q k = cc
    go (some r) q k =
        let b = object_at-All (Backed reviewed s.acquired) p s.proofs r w.proofs q in
        let same : r.snapshot ≡ h = ground arith in
        let kind : same_kind r.kind complete_export ≡ true = ground arith in
        let found : some b.entry ≡ some e =
          sym b.named ∙ ap (λ (x : ℕ). object_at x s.acquired) same ∙ at in
        let eq : b.entry ≡ e = cc found in
        subst (λ (x : Entry). is_complete_export reviewed.listed x.snapshot ≡ true) eq
          (b.checked kind)

is_gapless-is_unresolved : (g : GapStatus) → is_gapless g ≡ true → is_unresolved g ≡ false
is_gapless-is_unresolved no_gap_observed h = refl
is_gapless-is_unresolved gap_unresolved h = cc
is_gapless-is_unresolved history_gap h = cc
is_gapless-is_unresolved retention_loss_confirmed h = cc

pub elevated-Justified :
    (reviewed : Review) (e : Entry)
    → Justified reviewed e
    → is_complete_export reviewed.listed e.snapshot ≡ true
    → Justified reviewed (record {
      snapshot = record {
        fields = elevated e.snapshot.fields;
        acquisition_id = reviewed.identity (elevated e.snapshot.fields);
      };
      rows = e.rows;
    })
elevated-Justified reviewed e j c = record {
  first = j.first;
  last = j.last;
  gapless = j.gapless;
  identified = refl;
  complete = λ _. record {
    exported = ground arith;
    direct = ground arith;
    untruncated = ground arith;
    resolved = is_gapless-is_unresolved e.snapshot.gap_status (ground arith);
    contiguous = j.gapless (ground arith);
    flags = (refl, refl, refl, refl);
    retention = refl;
    original = e.snapshot.fields;
    listed = subst (λ x. is_member x reviewed.listed ≡ true) j.identified (ground arith);
    same_room = refl;
    same_generation = refl;
    same_bytes = refl;
    same_range = (refl, refl);
  };
}

pub loss_confirmed-Justified :
    (reviewed : Review) (e : Entry)
    → Justified reviewed e
    → Justified reviewed (record {
      snapshot = record {
        fields = loss_confirmed e.snapshot.fields;
        acquisition_id = reviewed.identity (loss_confirmed e.snapshot.fields);
      };
      rows = e.rows;
    })
loss_confirmed-Justified reviewed e j = record {
  first = j.first;
  last = j.last;
  gapless = λ g. cc g;
  identified = refl;
  complete = λ k.
      let c = j.complete k in
      record {
        exported = c.exported;
        direct = c.direct;
        untruncated = c.untruncated;
        resolved = refl;
        contiguous = c.contiguous;
        flags = (c.flags.0, c.flags.1, c.flags.2, refl);
        retention = refl;
        original = c.original;
        listed = c.listed;
        same_room = c.same_room;
        same_generation = c.same_generation;
        same_bytes = c.same_bytes;
        same_range = c.same_range;
      };
}

-- A method that keeps the registries well formed, whether it returns or raises.
abbrev pub Keeps : {A : Type 0} → Review → Service A → Type 0
Keeps reviewed m = Triple (WellFormed reviewed) m (λ _. WellFormed reviewed) (WellFormed reviewed)

module _ (reviewed : Review) where
  -- What is known once a snapshot is one of the service's.
  abbrev pub Acquired : ℕ → Entry → Registry → Type 0
  Acquired h e s = WellFormed reviewed s × (object_at h s.acquired ≡ some e)

  pub reads_snapshot :
      (h : ℕ) → Triple (WellFormed reviewed) (require_snapshot h) (Acquired h) (WellFormed reviewed)
  unfolding require_snapshot
  reads_snapshot h = record { at = λ s w. go s w (object_at h s.acquired) refl }
    where
      go :
          (s : Registry) (w : WellFormed reviewed s) (o : Option Entry)
          → object_at h s.acquired ≡ o
          → Post (Acquired h) (WellFormed reviewed) (or_raise o permission_denied, s)
      go s w none q = w
      go s w (some e) q = (w, q)

  pub Keeps-require_snapshot :
      {A : Type 0} (h : ℕ) (f : Entry → Service A)
      → ((e : Entry) → Triple (Acquired h e) (f e) (λ _. WellFormed reviewed) (WellFormed reviewed))
      → Keeps reviewed (require_snapshot h >>= f)
  Keeps-require_snapshot h f k =
      Triple-bind (WellFormed reviewed) (require_snapshot h) (Acquired h) f
        (λ _. WellFormed reviewed) (WellFormed reviewed) (reads_snapshot h) k

  -- a check that only reads
  pub after_check :
      {A : Type 0} (h : ℕ) (e : Entry) (check : Service (Unit {0})) (f : Service A)
      → IsSteady check
      → Triple
          (λ s. Acquired h e s × ((check s).0 ≡ ok tt))
          f
          (λ _. WellFormed reviewed)
          (WellFormed reviewed)
      → Triple (Acquired h e) (check >> f) (λ _. WellFormed reviewed) (WellFormed reviewed)
  after_check h e check f steady k =
      Triple-bind (Acquired h e) check (λ u s. Acquired h e s × ((check s).0 ≡ ok u)) (λ _. f)
        (λ _. WellFormed reviewed) (WellFormed reviewed)
        (Triple-reads (Acquired h e) (WellFormed reviewed) check steady (λ s a. a.0)) (λ _. k)

  -- A new entry that is justified.
  pub remembers :
      (s : Registry) (e : Entry)
      → WellFormed reviewed s
      → Justified reviewed e
      → Post (λ _. WellFormed reviewed) (WellFormed reviewed) (remember e s)
  unfolding remember
  remembers s e w j = record {
    acquired = (j, w.acquired);
    proofs = Backed-grow reviewed s.acquired e s.proofs w.proofs;
  }

  -- A new proof that is backed.
  pub records_proof :
      (s : Registry) (p : ProofRecord)
      → WellFormed reviewed s
      → Backed reviewed s.acquired p
      → Post (λ _. WellFormed reviewed) (WellFormed reviewed) (record_proof p s)
  unfolding record_proof
  records_proof s p w b = record { acquired = w.acquired; proofs = (b, w.proofs) }

  pub IsSteady-require_trusted :
      (h : ℕ) (snapshot : EvidenceSnapshot) (a : ℕ) → IsSteady (require_trusted h snapshot a)
  unfolding require_trusted
  IsSteady-require_trusted h snapshot a s =
      IsSteady-raise_when (not (trusts h snapshot (object_at a s.trusted))) permission_denied s

  pub IsSteady-require_proof :
      (h : ℕ) (snapshot : EvidenceSnapshot) (p : ℕ) (kind : ProofKind)
      → IsSteady (require_proof h snapshot p kind)
  unfolding require_proof
  IsSteady-require_proof h snapshot p kind s =
      IsSteady-raise_when (not (proves h snapshot kind s.trusted (object_at p s.proofs)))
        permission_denied s

  pub raise_when-passed :
      (b : Bool) (e : TransportError) (s : Registry) → (raise_when (not b) e s).0 ≡ ok tt → b ≡ true
  raise_when-passed true e s h = refl
  raise_when-passed false e s h = cc
