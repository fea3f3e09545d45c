-- ===== src/Handoff/Blocked.antt =====
-- `execute` on a journal that has been used.
use Prim.Native.String.{String}
use flop_agent_intelligence.Common.{◌≡◌, refl, sym, ◌∙◌, Bool, true, false, not}
use flop_agent_intelligence.Common.Result.{Result, ok, err, ok-injective}
use flop_agent_intelligence.Common.Exec.{raise_when}
use flop_agent_intelligence.Common.Triple.{
  Triple, Post, Triple-reads, Triple-steady, Triple-bind, IsSteady, IsSteady-raise_when,
}
use flop_agent_intelligence.Handoff.Types.{
  JournalState, not_started, HandoffError, journal_already_used,
}
use flop_agent_intelligence.Handoff.Decode.{same_state}
use flop_agent_intelligence.Handoff.Journal.{Codec, World, Handoff}
use flop_agent_intelligence.Handoff.Append.{state_of}
use flop_agent_intelligence.Handoff.Service.{Surroundings, Config, ExecuteResult, execute, sign}
use flop_agent_intelligence.Handoff.OneShot.{same-eq}
use flop_agent_intelligence.Handoff.Signing.{prepare-IsSteady, inspect-IsSteady}

module _ (codec : Codec) where
  module _ (config : Config) (env : Surroundings) (id : String) (w : World) (s : JournalState)
      (reads : state_of codec w ≡ ok s) (used : ¬ s ≡ not_started) where
    abbrev Same : World → Type 0
    Same v = v ≡ w

    never : {A : Type 0} (m : Handoff A) → Triple (λ _. ⊥) m (λ _ _. ⊥) Same
    never m = record { at = λ v h. absurd h }

    steady : {A : Type 0} (m : Handoff A) → IsSteady m → Triple Same m (λ _. Same) Same
    steady m h = Triple-steady Same Same m h (λ w i. i)

    refused :
        (st : JournalState)
        → Triple
            (λ v. Same v × (state_of codec v ≡ ok st))
            (raise_when (not (same_state st not_started)) journal_already_used)
            (λ _ _. ⊥)
            Same
    refused st = record { at = λ v h. go v h (not (same_state st not_started)) refl }
      where
        go :
            (v : World)
            → Same v × (state_of codec v ≡ ok st)
            → (b : Bool) → not (same_state st not_started) ≡ b
            → Post (λ _ _. ⊥) Same (raise_when b journal_already_used v)
        go v h true e = h.0
        go v h false e =
            absurd (used (ok-injective (sym reads ∙ rw h.0 at h.1) ∙ same-eq st not_started e))

    sign_refused : Triple Same (sign codec config env id) (λ _ _. ⊥) Same
    unfolding sign
    sign_refused =
        Triple-bind Same _ (λ _. Same) _ _ Same (steady _ (λ v. IsSteady-raise_when _ _ v))
          λ _.
            Triple-bind Same _ (λ st v. Same v × (state_of codec v ≡ ok st)) _ _ Same
              (Triple-reads Same Same _ (inspect-IsSteady codec config env id) (λ v h. h))
              λ st. Triple-bind _ _ (λ _ _. ⊥) _ _ Same (refused st) λ _. never _

    blocked : Triple Same (execute codec config env id) (λ _ _. ⊥) Same
    unfolding execute
    blocked =
        Triple-bind Same _ (λ _. Same) _ _ Same (steady _ (prepare-IsSteady codec config env id))
          λ packet.
            Triple-bind Same _ (λ _. Same) _ _ Same (steady _ (IsSteady-raise_when _ _))
              λ _. Triple-bind Same _ (λ _ _. ⊥) _ _ Same sign_refused λ signed. never _

    -- Once the journal reads as any state but the first, every execution raises and changes
    -- nothing: no signature, no post, no record.
    pub execute-blocked : (e : HandoffError) × (execute codec config env id w ≡ (err e, w))
    execute-blocked = go _ (blocked.at w refl)
      where
        go :
            (r : Result HandoffError ExecuteResult × World)
            → Post (λ _ _. ⊥) Same r
            → (e : HandoffError) × (r ≡ (err e, w))
        go (ok x, v) h = absurd h
        go (err e, v) h = (e, rw h refl)
