-- ===== src/EvidenceTransport/Preserved.antt =====
-- The operations of the service, one by one, on well-formed registries.
use Prim.Native.String.{String}
use flop_agent_intelligence.Common.{ℕ, ◌≡◌, refl, true, not, List, []}
use flop_agent_intelligence.Common.Result.{ok}
use flop_agent_intelligence.Common.Exec.{lift, raise_when}
use flop_agent_intelligence.Common.Triple.{Triple-reads, Triple-bind, IsSteady-raise_when}
use flop_agent_intelligence.EvidenceTransport.Types.{
  EvidenceSnapshot, completeness_not_proven, permission_denied, retention_loss_not_proven,
}
use flop_agent_intelligence.Common.Registry.{object_at, object_at-All}
use flop_agent_intelligence.EvidenceTransport.Store.{
  ProofKind, complete_export, reviewed_retention_loss, Registry,
}
use flop_agent_intelligence.EvidenceTransport.Acquire.{Request, new_fields}
use flop_agent_intelligence.EvidenceTransport.Service.{
  proves, require_trusted, require_proof, is_complete_export, is_retention_export, with_identity,
  acquire, attest, issue_complete_export_proof, apply_completeness, issue_retention_evidence,
  confirm_retention_loss,
}
use flop_agent_intelligence.EvidenceTransport.Justified.{Review, Justified, new_fields-Justified}
use flop_agent_intelligence.EvidenceTransport.Kept.{
  WellFormed, proves-complete_export, elevated-Justified, loss_confirmed-Justified, Keeps,
  Keeps-require_snapshot, after_check, remembers, records_proof, IsSteady-require_trusted,
  IsSteady-require_proof, raise_when-passed,
}

abbrev no_review : Review
no_review = record { identity = λ f. ""; listed = [] }

require_proof-proves :
    (h : ℕ) (snapshot : EvidenceSnapshot) (p : ℕ) (kind : ProofKind) (s : Registry)
    → (require_proof h snapshot p kind s).0 ≡ ok tt
    → proves h snapshot kind s.trusted (object_at p s.proofs) ≡ true
unfolding require_proof
require_proof-proves h snapshot p kind s =
    raise_when-passed no_review (proves h snapshot kind s.trusted (object_at p s.proofs))
      permission_denied s

module _ (reviewed : Review) where
  pub acquire-Keeps :
      (ret : List String) (r : Request)
      → Keeps reviewed (acquire reviewed.identity reviewed.listed ret r)
  unfolding acquire
  acquire-Keeps ret r =
      Triple-bind (WellFormed reviewed) (lift (new_fields r))
        (λ x s. WellFormed reviewed s × (new_fields r ≡ ok x)) _ (λ _. WellFormed reviewed)
        (WellFormed reviewed)
        (Triple-reads (WellFormed reviewed) (WellFormed reviewed) (lift (new_fields r)) (λ s. refl)
          (λ s w. w))
        (λ x. record {
          at = λ s a.
              remembers reviewed s
                (record {
                  snapshot = with_identity reviewed.identity reviewed.listed ret x.0;
                  rows = x.1;
                })
                a.0 (new_fields-Justified reviewed r x.0 x.1 a.1);
        })

  pub attest-Keeps :
      (ret : List String) (h : ℕ) → Keeps reviewed (attest reviewed.identity reviewed.listed ret h)
  unfolding attest
  attest-Keeps ret h =
      Keeps-require_snapshot reviewed h _
        (λ e. record { at = λ s a. record { acquired = a.0.acquired; proofs = a.0.proofs } })

  pub issue_complete_export_proof-Keeps :
      (ret : List String) (h a : ℕ)
      → Keeps reviewed (issue_complete_export_proof reviewed.identity reviewed.listed ret h a)
  unfolding issue_complete_export_proof
  issue_complete_export_proof-Keeps ret h a = Keeps-require_snapshot reviewed h _ (λ e.
      let checked = is_complete_export reviewed.listed e.snapshot in
      after_check reviewed h e (require_trusted h e.snapshot a) _
        (IsSteady-require_trusted reviewed h e.snapshot a)
        (record {
          at = λ s k.
              (after_check reviewed h e (raise_when (not checked) completeness_not_proven) _
                  (IsSteady-raise_when (not checked) completeness_not_proven)
                  (record {
                    at = λ s' k'. records_proof reviewed s' _ k'.0.0 (record {
                      entry = e;
                      named = k'.0.1;
                      checked =
                          λ _. raise_when-passed reviewed checked completeness_not_proven s' k'.1;
                    });
                  })).at
                s k.0;
        }))

  pub apply_completeness-Keeps :
      (ret : List String) (h p : ℕ)
      → Keeps reviewed (apply_completeness reviewed.identity reviewed.listed ret h p)
  unfolding apply_completeness
  apply_completeness-Keeps ret h p = Keeps-require_snapshot reviewed h _ (λ e.
      after_check reviewed h e (require_proof h e.snapshot p complete_export) _
        (IsSteady-require_proof reviewed h e.snapshot p complete_export)
        (record {
          at = λ s k. remembers reviewed s _ k.0.0 (
              elevated-Justified reviewed e
                (object_at-All (Justified reviewed) h s.acquired e k.0.0.acquired k.0.1)
                (proves-complete_export reviewed s h p e k.0.0 k.0.1
                  (require_proof-proves h e.snapshot p complete_export s k.1)));
        }))

  pub issue_retention_evidence-Keeps :
      (ret : List String) (h a : ℕ)
      → Keeps reviewed (issue_retention_evidence reviewed.identity reviewed.listed ret h a)
  unfolding issue_retention_evidence
  issue_retention_evidence-Keeps ret h a = Keeps-require_snapshot reviewed h _ (λ e.
      let checked = is_retention_export ret e.snapshot in
      after_check reviewed h e (require_trusted h e.snapshot a) _
        (IsSteady-require_trusted reviewed h e.snapshot a)
        (record {
          at = λ s k.
              (after_check reviewed h e (raise_when (not checked) retention_loss_not_proven) _
                  (IsSteady-raise_when (not checked) retention_loss_not_proven)
                  (record {
                    at = λ s' k'.
                        records_proof reviewed s' _ k'.0.0
                          (record { entry = e; named = k'.0.1; checked = λ q. cc q });
                  })).at
                s k.0;
        }))

  pub confirm_retention_loss-Keeps :
      (ret : List String) (h p : ℕ)
      → Keeps reviewed (confirm_retention_loss reviewed.identity reviewed.listed ret h p)
  unfolding confirm_retention_loss
  confirm_retention_loss-Keeps ret h p = Keeps-require_snapshot reviewed h _ (λ e.
      after_check reviewed h e (require_proof h e.snapshot p reviewed_retention_loss) _
        (IsSteady-require_proof reviewed h e.snapshot p reviewed_retention_loss)
        (record {
          at = λ s k. remembers reviewed s _ k.0.0 (
              loss_confirmed-Justified reviewed e
                (object_at-All (Justified reviewed) h s.acquired e k.0.0.acquired k.0.1));
        }))
