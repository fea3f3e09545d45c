-- ===== src/Collaboration/Evidence.antt =====
-- The evidence of the signed events of a replay, with the payload written out.
use Prim.Native.String.{String}
use text.Mathlib.Text.{◌==◌ as str_eq}
use text.Mathlib.TextPositions.{eq_refl}
use flop_agent_intelligence.Common.{
  ◌≡◌, refl, sym, ◌∙◌, ap, Bool, true, false, ◌||◌, Option, none, some, List, [], ◌∷◌, ◌++◌, arith,
  All, if◌then◌else◌,
}
use flop_agent_intelligence.Common.Text.{is_member, str_eq→eq}
use flop_agent_intelligence.Common.Result.{ok, >>=-eq-ok}
use flop_agent_intelligence.Collaboration.Types.{
  EventKind, PayloadFields, Payload, fields, other_payload, SignedEvidence, CollaborationEvent,
  CollaborationState, Digests, discover, approve_claim, record_claim, approve_handoff,
  record_handoff, record_ack, approve_completion, record_completion, require_recovery,
}
use flop_agent_intelligence.Collaboration.Reduce.{
  is_signed, kind_value, find_kind, parse_kind, real_key, same_payload, evidence_payload, add_key,
  advance, apply_event, initial_state, replay_from, replay,
}
use flop_agent_intelligence.Collaboration.Accepts.{
  Accepted, apply_event-Accepted, check_evidence-HasEvidence,
}

find_kind-value :
    (text : String) (ks : List EventKind) (k : EventKind)
    → find_kind text ks ≡ some k
    → kind_value k ≡ text
unfolding find_kind
find_kind-value text [] k h = cc
find_kind-value text (q ∷ ks) k h =
    go (find_kind-value text ks k) (str_eq text (kind_value q)) refl h
  where
    go :
        (find_kind text ks ≡ some k → kind_value k ≡ text)
        → (b : Bool) → str_eq text (kind_value q) ≡ b
        → (if b then some q else find_kind text ks) ≡ some k
        → kind_value k ≡ text
    go rest true e h = let same = str_eq→eq text (kind_value q) e in cc (h, same)
    go rest false e h = rest h

parse_kind-value : (text : String) (k : EventKind) → parse_kind text ≡ some k → kind_value k ≡ text
unfolding parse_kind
parse_kind-value text k h =
    find_kind-value text
      (discover ∷ approve_claim ∷ record_claim ∷ approve_handoff ∷ record_handoff ∷ record_ack
        ∷ approve_completion ∷ record_completion ∷ require_recovery ∷ [])
      k h

same_payload-fields : (p : Payload) (e : PayloadFields) → same_payload p e ≡ true → p ≡ fields e
unfolding same_payload
same_payload-fields other_payload e h = cc
same_payload-fields (fields p) e h =
    let a : str_eq p.payload_schema e.payload_schema ≡ true = ground (arith, h) in
    let b : str_eq p.payload_case_id e.payload_case_id ≡ true = ground (arith, h) in
    let c : str_eq p.event_kind e.event_kind ≡ true = ground (arith, h) in
    let k : str_eq p.payload_key e.payload_key ≡ true = ground (arith, h) in
    let s : str_eq p.payload_subject e.payload_subject ≡ true = ground (arith, h) in
    let a' = str_eq→eq _ _ a in
    let b' = str_eq→eq _ _ b in
    let c' = str_eq→eq _ _ c in
    let k' = str_eq→eq _ _ k in let s' = str_eq→eq _ _ s in cc (a', b', c', k', s')

neither : (a b : Bool) → (a || b) ≡ false → (a ≡ false) × (b ≡ false)
neither false b h = (refl, h)
neither true b h = cc

real_key-given : (o : Option String) (key : String) → real_key o ≡ some key → o ≡ some key
real_key-given none key h = cc
real_key-given (some String.[]) key h = cc
real_key-given (some (String.◌∷◌ c s)) key h = h

module _ {Subject : Type 0} (d : Digests Subject) where
  -- A text that is not among the last items is none of those before them either.
  fresh-add :
      (key : String) (seen : List String) (o : Option String)
      → is_member key (add_key d seen o) ≡ false
      → (is_member key seen ≡ false) × ¬ (o ≡ some key)
  unfolding is_member
  fresh-add key seen none h = (h, λ e. cc)
  fresh-add key [] (some k) h = (refl, λ e. cc (e, h, eq_refl key))
  fresh-add key (s ∷ seen) (some k) h =
      let (first, rest) = neither (str_eq s key) _ h in
      let (fresh, other) = fresh-add key seen (some k) rest in (rw (first, fresh) refl, other)

  -- The evidence of an event behind the events `before` of the case `case_id`.
  pub record IsEvidenced (case_id : String) (before : List (CollaborationEvent Subject))
      (e : CollaborationEvent Subject) : Type 0 where
    pub key : String
    pub key_given : e.idempotency_key ≡ some key
    pub key_fresh :
        All
          (λ (earlier : CollaborationEvent Subject). ¬ (earlier.idempotency_key ≡ some key))
          before
    pub evidence : SignedEvidence
    pub evidence_given : e.evidence ≡ some evidence
    pub signature_valid : d.verify evidence ≡ true
    pub payload_bound :
        evidence.payload
        ≡ fields (record {
          payload_schema = "flop-collaboration-readiness-v1";
          payload_case_id = case_id;
          event_kind = e.kind;
          payload_key = key;
          payload_subject = d.digest e.subject;
        })

  abbrev IsNew : CollaborationState → CollaborationEvent Subject → String → Type 0
  IsNew s e key =
      (is_member key s.seen_idempotency_keys ≡ false) × (real_key e.idempotency_key ≡ some key)

  Accepted-IsEvidenced :
      (s s' : CollaborationState) (e : CollaborationEvent Subject) (k : EventKind)
      → Accepted d s e s'
      → parse_kind e.kind ≡ some k
      → is_signed k ≡ true
      → (v : IsEvidenced s.case_id [] e) × IsNew s e v.key
  unfolding evidence_payload
  Accepted-IsEvidenced s s' e k a p signed =
      let same : a.kind ≡ k = cc (a.kind_known, p) in
      let h = check_evidence-HasEvidence d s k e signed (rw same at a.evidenced) in
      let case = str_eq→eq e.case_id s.case_id a.case_same in
      let text = parse_kind-value e.kind k p in
      let bound = same_payload-fields h.evidence.payload _ h.payload_bound in
      (
        record {
          key = h.key;
          key_given = real_key-given e.idempotency_key h.key h.key_given;
          key_fresh = tt;
          evidence = h.evidence;
          evidence_given = h.evidence_given;
          signature_valid = h.signature_valid;
          payload_bound = cc (bound, case, text);
        },
        (h.key_fresh, h.key_given),
      )

  replay_from-IsEvidenced :
      (before : List (CollaborationEvent Subject)) (e : CollaborationEvent Subject)
      → (after : List (CollaborationEvent Subject)) (k : EventKind) (s s' : CollaborationState)
      → replay_from d s (before ++ e ∷ after) ≡ ok s'
      → parse_kind e.kind ≡ some k
      → is_signed k ≡ true
      → (v : IsEvidenced s.case_id before e) × IsNew s e v.key
  unfolding replay_from
  replay_from-IsEvidenced [] e after k s s' h p signed =
      let (t, ht, hr) = >>=-eq-ok (apply_event d s e) _ h in
      Accepted-IsEvidenced s t e k (apply_event-Accepted d s e t ht) p signed
  replay_from-IsEvidenced (b ∷ before) e after k s s' h p signed =
      let (t, ht, hr) = >>=-eq-ok (apply_event d s b) _ h in
      let a = apply_event-Accepted d s b t ht in
      let (v, (fresh, real)) = replay_from-IsEvidenced before e after k t s' hr p signed in
      let same_case : t.case_id ≡ s.case_id = unfold advance in rw a.result refl in
      let keys : t.seen_idempotency_keys
          ≡ add_key d s.seen_idempotency_keys (real_key b.idempotency_key) =
        unfold advance in rw a.result refl in
      let (old, other) =
        fresh-add v.key s.seen_idempotency_keys (real_key b.idempotency_key) (rw keys at fresh) in
      let payload = v.payload_bound in
      (
        record {
          key = v.key;
          key_given = v.key_given;
          key_fresh = (λ same. other (ap real_key (same ∙ sym v.key_given) ∙ real), v.key_fresh);
          evidence = v.evidence;
          evidence_given = v.evidence_given;
          signature_valid = v.signature_valid;
          payload_bound = cc (payload, same_case);
        },
        (old, real),
      )

  -- In a replay that succeeds, each signed event has a key that no event before it has, and a valid
  -- signature over a payload that holds the schema, the case of the replay, the event's own kind,
  -- that key and the digest of its subject, and nothing else.
  pub replay-IsEvidenced :
      (case_id : String) (before : List (CollaborationEvent Subject))
      → (e : CollaborationEvent Subject) (after : List (CollaborationEvent Subject)) (k : EventKind)
      → (s : CollaborationState) → replay d case_id (before ++ e ∷ after) ≡ ok s
      → parse_kind e.kind ≡ some k
      → is_signed k ≡ true
      → IsEvidenced case_id before e
  unfolding replay
  replay-IsEvidenced case_id before e after k s h p signed =
      (replay_from-IsEvidenced before e after k (initial_state d case_id) s h p signed).0
