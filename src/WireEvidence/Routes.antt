-- ===== src/WireEvidence/Routes.antt =====
-- The sequences of events that reach the last stages.
use Prim.Native.String.{String}
use mathlib.Core.Path.{subst}
use text.Mathlib.Text.{◌==◌ as str_eq}
use flop_agent_intelligence.Common.{
  ◌≡◌, refl, sym, ap, ◌∙◌, Bool, true, false, ◌⊎◌, inl, inr, Option, some, List, [], ◌∷◌, All,
  if◌then◌else◌,
}
use flop_agent_intelligence.Common.Text.{str_eq→eq}
use flop_agent_intelligence.Common.Result.{
  Result, ok, or_raise, >>=-eq-ok, or_raise-eq-ok, ok-injective,
}
use flop_agent_intelligence.WireEvidence.Types.{
  ReadBackStage, not_started, attempt_recorded, write_accepted, read_back_observed, decode_valid,
  signature_valid, state_replay_valid, evidence_confirmed, AgreementState, proposed, offer_verified,
  acceptance_verified, invalid, WireError, agreement_transition_invalid,
  readback_transition_invalid,
}
use flop_agent_intelligence.WireEvidence.Stages.{
  look_up, agreement_transitions, transition_agreement, readback_transitions, advance_readback,
  follow,
}

look_up-All :
    {A : Type 0} (P : String × A → Type 0) (key : String) (table : List (String × A)) (a : A)
    → look_up key table ≡ some a
    → All P table
    → P (key, a)
unfolding look_up
look_up-All P key [] a h all = cc
look_up-All P key ((k, x) ∷ rest) a h all =
    go (str_eq k key) (str_eq→eq k key) h (look_up-All P key rest a)
  where
    go :
        (b : Bool)
        → (b ≡ true → k ≡ key)
        → (if b then some x else look_up key rest) ≡ some a
        → (look_up key rest ≡ some a → All P rest → P (key, a))
        → P (key, a)
    go true q h ih =
        let e : x ≡ a = cc h in subst (λ y. P (key, y)) e (subst (λ y. P (y, x)) (q refl) all.0)
    go false q h ih = ih h all.1

-- `Route a events` tells which events lead from `a` to the target; each step must extend it.
module _ {A : Type 0} (step : A → String → Result WireError A) (target : A)
    (Route : A → List String → Type 0) (arrived : Route target [])
    (extend : (a : A) (event : String) (b : A) (events : List String)
      → step a event ≡ ok b
      → Route b events
      → Route a (event ∷ events)) where
  follow-Route : (a : A) (events : List String) → follow step a events ≡ ok target → Route a events
  follow-Route a [] h = subst (λ x. Route x []) (sym (ok-injective h)) arrived
  follow-Route a (event ∷ events) h =
      let (b, h1, h2) = >>=-eq-ok (step a event) (λ next. follow step next events) h in
      extend a event b events h1 (follow-Route b events h2)

abbrev pub after_write : List String
after_write =
    "read_back_observed" ∷ "decode_valid" ∷ "signature_valid" ∷ "state_replay_valid"
    ∷ "evidence_confirmed" ∷ []

abbrev ReadBackRoute : ReadBackStage → List String → Type 0
ReadBackRoute not_started es =
    (es ≡ "attempt_recorded" ∷ "write_accepted" ∷ after_write)
    ⊎ (es ≡ "write_accepted" ∷ after_write)
ReadBackRoute attempt_recorded es = es ≡ "write_accepted" ∷ after_write
ReadBackRoute write_accepted es = es ≡ after_write
ReadBackRoute read_back_observed es =
    es ≡ "decode_valid" ∷ "signature_valid" ∷ "state_replay_valid" ∷ "evidence_confirmed" ∷ []
ReadBackRoute decode_valid es =
    es ≡ "signature_valid" ∷ "state_replay_valid" ∷ "evidence_confirmed" ∷ []
ReadBackRoute signature_valid es = es ≡ "state_replay_valid" ∷ "evidence_confirmed" ∷ []
ReadBackRoute state_replay_valid es = es ≡ "evidence_confirmed" ∷ []
ReadBackRoute evidence_confirmed es = es ≡ []
ReadBackRoute _ es = ⊥

readback_transitions-Route :
    (a : ReadBackStage)
    → All
        (λ (entry : String × ReadBackStage).
          (events : List String)
          → ReadBackRoute entry.1 events
          → ReadBackRoute a (entry.0 ∷ events))
        (readback_transitions a)
readback_transitions-Route not_started = (
  λ es r. inl (ap (λ x. "attempt_recorded" ∷ x) r),
  (λ es r. inr (ap (λ x. "write_accepted" ∷ x) r), tt),
)
readback_transitions-Route attempt_recorded = (λ es r. ap (λ x. "write_accepted" ∷ x) r, tt)
readback_transitions-Route write_accepted = (λ es r. ap (λ x. "read_back_observed" ∷ x) r, tt)
readback_transitions-Route read_back_observed = (λ es r. ap (λ x. "decode_valid" ∷ x) r, tt)
readback_transitions-Route decode_valid = (λ es r. ap (λ x. "signature_valid" ∷ x) r, tt)
readback_transitions-Route signature_valid = (λ es r. ap (λ x. "state_replay_valid" ∷ x) r, tt)
readback_transitions-Route state_replay_valid = (λ es r. ap (λ x. "evidence_confirmed" ∷ x) r, tt)
readback_transitions-Route evidence_confirmed = tt
readback_transitions-Route ReadBackStage.effect_unknown = tt
readback_transitions-Route ReadBackStage.signature_invalid = tt
readback_transitions-Route ReadBackStage.readback_mismatch = tt
readback_transitions-Route ReadBackStage.redirect_rejected = tt
readback_transitions-Route ReadBackStage.duplicate_suppressed = tt
readback_transitions-Route ReadBackStage.failed = tt

readback_step :
    (a : ReadBackStage) (event : String) (b : ReadBackStage) (events : List String)
    → advance_readback a event ≡ ok b
    → ReadBackRoute b events
    → ReadBackRoute a (event ∷ events)
unfolding advance_readback
readback_step a event b events h r =
    let found =
      or_raise-eq-ok (look_up event (readback_transitions a)) readback_transition_invalid h in
    look_up-All _ event (readback_transitions a) b found (readback_transitions-Route a) events r

-- A write whose evidence is confirmed has gone through the stages in their order: the read-back, its
-- decoding, its signature, the replay of the state and the confirmation after an accepted write,
-- which may or may not have had its attempt recorded.
pub advance_readback-Route :
    (events : List String)
    → follow advance_readback not_started events ≡ ok evidence_confirmed
    → (events ≡ "attempt_recorded" ∷ "write_accepted" ∷ after_write)
      ⊎ (events ≡ "write_accepted" ∷ after_write)
advance_readback-Route =
    follow-Route advance_readback evidence_confirmed ReadBackRoute refl readback_step not_started

abbrev AgreementRoute : AgreementState → List String → Type 0
AgreementRoute proposed es =
    es ≡ "offer_verified" ∷ "acceptance_verified" ∷ "agreement_verified" ∷ []
AgreementRoute offer_verified es = es ≡ "acceptance_verified" ∷ "agreement_verified" ∷ []
AgreementRoute acceptance_verified es = es ≡ "agreement_verified" ∷ []
AgreementRoute AgreementState.agreement_verified es = es ≡ []
AgreementRoute invalid es = ⊥

agreement_transitions-Route :
    (a : AgreementState)
    → All
        (λ (entry : String × AgreementState).
          (events : List String)
          → AgreementRoute entry.1 events
          → AgreementRoute a (entry.0 ∷ events))
        (agreement_transitions a)
agreement_transitions-Route proposed = (λ es r. ap (λ x. "offer_verified" ∷ x) r, tt)
agreement_transitions-Route offer_verified = (λ es r. ap (λ x. "acceptance_verified" ∷ x) r, tt)
agreement_transitions-Route acceptance_verified = (λ es r. ap (λ x. "agreement_verified" ∷ x) r, tt)
agreement_transitions-Route AgreementState.agreement_verified = tt
agreement_transitions-Route invalid = tt

agreement_step :
    (a : AgreementState) (event : String) (b : AgreementState) (events : List String)
    → transition_agreement a event ≡ ok b
    → AgreementRoute b events
    → AgreementRoute a (event ∷ events)
unfolding transition_agreement
agreement_step a event b events h r =
    go (str_eq event "invalid") (look_up event (agreement_transitions a)) refl h
  where
    go :
        (v : Bool) (o : Option AgreementState)
        → look_up event (agreement_transitions a) ≡ o
        → (if v then ok invalid else or_raise o agreement_transition_invalid) ≡ ok b
        → AgreementRoute a (event ∷ events)
    go true o q k = absurd (subst (λ x. AgreementRoute x events) (sym (ok-injective k)) r)
    go false o q k =
        let found = q ∙ or_raise-eq-ok o agreement_transition_invalid k in
        look_up-All _ event (agreement_transitions a) b found (agreement_transitions-Route a) events
          r

-- An agreement that starts as proposed and ends as verified has seen exactly the verifications of
-- its offer, its acceptance and itself, in this order, and no other event.
pub transition_agreement-Route :
    (events : List String)
    → follow transition_agreement proposed events ≡ ok AgreementState.agreement_verified
    → events ≡ "offer_verified" ∷ "acceptance_verified" ∷ "agreement_verified" ∷ []
transition_agreement-Route =
    follow-Route transition_agreement AgreementState.agreement_verified AgreementRoute refl
      agreement_step proposed
