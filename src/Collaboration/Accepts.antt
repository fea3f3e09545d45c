-- ===== src/Collaboration/Accepts.antt =====
-- What `apply_event` has checked of an event that it accepts.
use Prim.Native.String.{String}
use text.Mathlib.Text.{◌==◌ as str_eq}
use flop_agent_intelligence.Common.{◌≡◌, refl, sym, Bool, true, false, not, ◌||◌, some, ◌==◌}
use flop_agent_intelligence.Common.Result.{
  ok, raise_if, or_raise, >>=-eq-ok, >>-eq-ok, raise_if-eq-ok, or_raise-eq-ok, ok-injective,
}
use flop_agent_intelligence.Common.Text.{is_member, same_text}
use flop_agent_intelligence.Collaboration.Types.{
  schema, Phase, EventKind, key_not_fresh, evidence_required, evidence_unbound, signature_invalid,
  case_mismatch, chain_broken, unknown_event, CollaborationEvent, CollaborationState, Digests,
  SignedEvidence,
}
use flop_agent_intelligence.Collaboration.Reduce.{
  is_signed, parse_kind, validate_provenance, real_key, same_payload, next_phase, evidence_payload,
  check_approval, check_evidence, task_hash, advance, apply_event,
}

module _ {Subject : Type 0} (d : Digests Subject) where
  -- The evidence of a signed event: a key that the state has not seen, and a valid signature over
  -- the payload of this very transition.
  pub record HasEvidence (s : CollaborationState) (kind : EventKind)
      (e : CollaborationEvent Subject) : Type 0 where
    pub key : String
    pub evidence : SignedEvidence
    pub key_given : real_key e.idempotency_key ≡ some key
    pub key_fresh : is_member key s.seen_idempotency_keys ≡ false
    pub evidence_given : e.evidence ≡ some evidence
    pub payload_bound :
        same_payload evidence.payload (evidence_payload d e.case_id kind e.subject key) ≡ true
    pub signature_valid : d.verify evidence ≡ true

  pub record Accepted (s : CollaborationState) (e : CollaborationEvent Subject)
      (s' : CollaborationState) : Type 0 where
    pub kind : EventKind
    pub phase : Phase
    pub task : String
    pub case_same : str_eq e.case_id s.case_id ≡ true
    pub in_order : (e.sequence == s.next_sequence) ≡ true
    pub chained : same_text e.previous_event_sha256 s.last_event_sha256 ≡ true
    pub kind_known : parse_kind e.kind ≡ some kind
    pub approved : check_approval d kind e ≡ ok tt
    pub evidenced : check_evidence d s kind e ≡ ok tt
    pub moves : next_phase s.phase kind ≡ ok phase
    pub task_bound : task_hash d s kind e ≡ ok task
    pub result : s' ≡ advance d s e phase task

  nor : (a b : Bool) → (not a || not b) ≡ false → (a ≡ true) × (b ≡ true)
  nor true true h = (refl, refl)
  nor true false h = cc
  nor false b h = cc

  pub apply_event-Accepted :
      (s : CollaborationState) (e : CollaborationEvent Subject) (s' : CollaborationState)
      → apply_event d s e ≡ ok s'
      → Accepted s e s'
  unfolding apply_event
  apply_event-Accepted s e s' h =
      let (_, h1) = >>-eq-ok (validate_provenance e.provenance) _ h in
      let (h2, h3) =
        >>-eq-ok
          (raise_if (not (str_eq e.event_schema schema) || not (str_eq e.case_id s.case_id))
            case_mismatch)
          _ h1 in
      let (h4, h5) =
        >>-eq-ok
          (raise_if
            (not (e.sequence == s.next_sequence)
              || not (same_text e.previous_event_sha256 s.last_event_sha256))
            chain_broken)
          _ h3 in
      let (kind, hk, h6) = >>=-eq-ok (or_raise (parse_kind e.kind) unknown_event) _ h5 in
      let (ha, h7) = >>-eq-ok (check_approval d kind e) _ h6 in
      let (hv, h8) = >>-eq-ok (check_evidence d s kind e) _ h7 in
      let (phase, hp, h9) = >>=-eq-ok (next_phase s.phase kind) _ h8 in
      let (task, ht, h10) = >>=-eq-ok (task_hash d s kind e) _ h9 in
      record {
        kind = kind;
        phase = phase;
        task = task;
        case_same = (nor _ _ (raise_if-eq-ok _ case_mismatch h2)).1;
        in_order = (nor _ _ (raise_if-eq-ok _ chain_broken h4)).0;
        chained = (nor _ _ (raise_if-eq-ok _ chain_broken h4)).1;
        kind_known = or_raise-eq-ok _ unknown_event hk;
        approved = ha;
        evidenced = hv;
        moves = hp;
        task_bound = ht;
        result = sym (ok-injective h10);
      }

  holds : (b : Bool) → not b ≡ false → b ≡ true
  holds true h = refl
  holds false h = cc

  pub check_evidence-HasEvidence :
      (s : CollaborationState) (kind : EventKind) (e : CollaborationEvent Subject)
      → is_signed kind ≡ true
      → check_evidence d s kind e ≡ ok tt
      → HasEvidence s kind e
  unfolding check_evidence
  check_evidence-HasEvidence s kind e signed h =
      let (key, hk, h1) =
        >>=-eq-ok (or_raise (real_key e.idempotency_key) key_not_fresh) _ (rw signed at h) in
      let (hm, h2) =
        >>-eq-ok (raise_if (is_member key s.seen_idempotency_keys) key_not_fresh) _ h1 in
      let (ev, he, h3) = >>=-eq-ok (or_raise e.evidence evidence_required) _ h2 in
      let (hp, h4) =
        >>-eq-ok
          (raise_if
            (not (same_payload ev.payload (evidence_payload d e.case_id kind e.subject key)))
            evidence_unbound)
          _ h3 in
      record {
        key = key;
        evidence = ev;
        key_given = or_raise-eq-ok _ key_not_fresh hk;
        key_fresh = raise_if-eq-ok _ key_not_fresh hm;
        evidence_given = or_raise-eq-ok _ evidence_required he;
        payload_bound = holds _ (raise_if-eq-ok _ evidence_unbound hp);
        signature_valid = holds _ (raise_if-eq-ok _ signature_invalid h4);
      }
