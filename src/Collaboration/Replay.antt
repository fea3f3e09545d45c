-- ===== src/Collaboration/Replay.antt =====
-- The phases of a case over `replay`, and events that come again.
use Prim.Native.String.{String}
use flop_agent_intelligence.Common.{
  ◌+◌, ◌≡◌, refl, sym, ◌∙◌, ap, true, ◌⊎◌, inl, inr, Option, none, some, List, [], ◌∷◌, map, arith,
  ◌==◌,
}
use flop_agent_intelligence.Common.Result.{ok, >>=-eq-ok, ok-injective}
use flop_agent_intelligence.Collaboration.Types.{
  Phase, discovered, claim_approved, claimed, handoff_approved, handed_off, acknowledged,
  completion_approved, completed, recovery_required, EventKind, discover, approve_claim,
  record_claim, approve_handoff, record_handoff, record_ack, approve_completion, record_completion,
  CollaborationEvent, CollaborationState, Digests,
}
use flop_agent_intelligence.Collaboration.Reduce.{
  parse_kind, transition, next_phase, advance, apply_event, initial_state, replay_from, replay,
}
use flop_agent_intelligence.Collaboration.Accepts.{Accepted, apply_event-Accepted}

-- The kinds that are still to come before a case is completed.
abbrev pub remaining : Option Phase → List EventKind
remaining none =
    discover ∷ approve_claim ∷ record_claim ∷ approve_handoff ∷ record_handoff ∷ record_ack
    ∷ approve_completion ∷ record_completion ∷ []
remaining (some discovered) =
    approve_claim ∷ record_claim ∷ approve_handoff ∷ record_handoff ∷ record_ack
    ∷ approve_completion ∷ record_completion ∷ []
remaining (some claim_approved) =
    record_claim ∷ approve_handoff ∷ record_handoff ∷ record_ack ∷ approve_completion
    ∷ record_completion ∷ []
remaining (some claimed) =
    approve_handoff ∷ record_handoff ∷ record_ack ∷ approve_completion ∷ record_completion ∷ []
remaining (some handoff_approved) =
    record_handoff ∷ record_ack ∷ approve_completion ∷ record_completion ∷ []
remaining (some handed_off) = record_ack ∷ approve_completion ∷ record_completion ∷ []
remaining (some acknowledged) = approve_completion ∷ record_completion ∷ []
remaining (some completion_approved) = record_completion ∷ []
remaining (some completed) = []
remaining (some recovery_required) = []

next_phase-remaining :
    (p : Option Phase) (k : EventKind) (q : Phase)
    → next_phase p k ≡ ok q
    → (q ≡ recovery_required) ⊎ (remaining p ≡ k ∷ remaining (some q))
unfolding next_phase transition
next_phase-remaining p k q h = ground arith

next_phase-recovery :
    (k : EventKind) (q : Phase)
    → next_phase (some recovery_required) k ≡ ok q
    → q ≡ recovery_required
unfolding next_phase transition
next_phase-recovery k q h = ground arith

module _ {Subject : Type 0} (d : Digests Subject) where
  abbrev pub kinds : List (CollaborationEvent Subject) → List (Option EventKind)
  kinds [] = []
  kinds (e ∷ es) = parse_kind e.kind ∷ kinds es

  Accepted-phase :
      (s : CollaborationState) (e : CollaborationEvent Subject) (s' : CollaborationState)
      → (a : Accepted d s e s') → s'.phase ≡ some a.phase
  unfolding advance
  Accepted-phase s e s' a = rw a.result refl

  stays_in_recovery :
      (es : List (CollaborationEvent Subject)) (s s' : CollaborationState)
      → s.phase ≡ some recovery_required
      → replay_from d s es ≡ ok s'
      → s'.phase ≡ some recovery_required
  unfolding replay_from
  stays_in_recovery [] s s' p h = ap CollaborationState.phase (sym (ok-injective h)) ∙ p
  stays_in_recovery (e ∷ es) s s' p h =
      let (t, ht, hr) = >>=-eq-ok (apply_event d s e) _ h in
      let a = apply_event-Accepted d s e t ht in
      let q : a.phase ≡ recovery_required = next_phase-recovery a.kind a.phase (rw p at a.moves) in
      stays_in_recovery es t s' (Accepted-phase s e t a ∙ ap some q) hr

  replay_from-completed :
      (es : List (CollaborationEvent Subject)) (s s' : CollaborationState)
      → replay_from d s es ≡ ok s'
      → s'.phase ≡ some completed
      → kinds es ≡ map some (remaining s.phase)
  unfolding replay_from
  replay_from-completed [] s s' h c = rw (ap CollaborationState.phase (ok-injective h) ∙ c) refl
  replay_from-completed (e ∷ es) s s' h c =
      let (t, ht, hr) = >>=-eq-ok (apply_event d s e) _ h in
      go t (apply_event-Accepted d s e t ht) hr (replay_from-completed es t s' hr c)
    where
      go :
          (t : CollaborationState) (a : Accepted d s e t)
          → replay_from d t es ≡ ok s'
          → kinds es ≡ map some (remaining t.phase)
          → kinds (e ∷ es) ≡ map some (remaining s.phase)
      go t a hr ih = elim (next_phase-remaining s.phase a.kind a.phase a.moves) [
        | inl q ↦ absurd (cc (c, stays_in_recovery es t s' (Accepted-phase s e t a ∙ ap some q) hr))
        | inr q ↦
            rw (q, a.kind_known) (ap (λ ks. some a.kind ∷ ks) (rw (Accepted-phase s e t a) at ih))
      ]

  -- A case that a replay completes has gone through exactly the eight transitions of its table, in
  -- their order: discovery, the claim, the handoff, the acknowledgement and the completion, each
  -- claim, handoff and completion after its approval, and no recovery.
  pub replay-completed :
      (case_id : String) (es : List (CollaborationEvent Subject)) (s : CollaborationState)
      → replay d case_id es ≡ ok s
      → s.phase ≡ some completed
      → kinds es
        ≡ map some (
            discover ∷ approve_claim ∷ record_claim ∷ approve_handoff ∷ record_handoff ∷ record_ack
            ∷ approve_completion ∷ record_completion ∷ [])
  unfolding replay
  replay-completed case_id es s h c = replay_from-completed es (initial_state d case_id) s h c

  -- An event that has been accepted is refused by the state that it led to.
  pub apply_event-once :
      (s s' s'' : CollaborationState) (e : CollaborationEvent Subject)
      → apply_event d s e ≡ ok s'
      → ¬ (apply_event d s' e ≡ ok s'')
  apply_event-once s s' s'' e h h' =
      let a = apply_event-Accepted d s e s' h in
      let b = apply_event-Accepted d s' e s'' h' in
      let n : s'.next_sequence ≡ s.next_sequence + 1 = unfold advance in rw a.result refl in
      let x : (e.sequence == s.next_sequence) ≡ true = a.in_order in
      let y : (e.sequence == s.next_sequence + 1) ≡ true = rw n at b.in_order in
      ground (arith, x, y)
