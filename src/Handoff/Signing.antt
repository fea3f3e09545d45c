-- ===== src/Handoff/Signing.antt =====
-- The signing part of `execute`, step by step.
use Prim.Native.String.{String}
use text.Mathlib.Text.{◌==◌ as str_eq}
use flop_agent_intelligence.Common.{
  ℕ, suc, ◌≤◌, ◌≡◌, refl, ◌∙◌, Bool, true, false, not, Option, none, arith, ap,
}
use flop_agent_intelligence.Common.Result.{Result, ok, err, or_raise}
use flop_agent_intelligence.Common.Exec.{pure, raise, modify, raise_when, ◌>>=◌, ◌>>◌}
use flop_agent_intelligence.Common.Triple.{
  Triple, Post, Triple-reads, Triple-steady, Triple-pure, Triple-bind, IsSteady, IsSteady-bind,
  IsSteady-raise_when,
}
use flop_agent_intelligence.Handoff.Types.{
  JournalState, not_started, intent_recorded, local_signature_created, Event, intent,
  local_signature, HandoffError, identity_did_mismatch, signature_invalid, journal_already_used,
  other_error, event_state,
}
use flop_agent_intelligence.Handoff.Decode.{same_state}
use flop_agent_intelligence.Handoff.Journal.{Codec, World, Handoff, by_id, inspect, read}
use flop_agent_intelligence.Handoff.Append.{state_of, state_of-file}
use flop_agent_intelligence.Handoff.Service.{
  Surroundings, Config, TripPoint, TripResult, go_on, trip, prepare, after_intent,
  after_local_signature, is_signature, sign, guard_unused, record_event, mark_used, call_signer,
}
use flop_agent_intelligence.Handoff.OneShot.{
  post_bound, sign_bound, IsOneShot, At, At-IsOneShot, same-eq, append-At,
}

module _ (codec : Codec) (config : Config) (env : Surroundings) (id : String) where
  pub prepare-IsSteady : IsSteady (prepare codec config env id)
  unfolding prepare
  prepare-IsSteady =
      IsSteady-bind _ _ (λ s. refl)
        λ packet. IsSteady-bind _ _ (IsSteady-raise_when _ _) λ _.
          IsSteady-bind _ _ (λ s. refl)
            λ artifact.
              IsSteady-bind _ _ (λ s. refl)
                λ validated. IsSteady-bind _ _ (IsSteady-raise_when _ _) λ _ s. refl

  abbrev pub Safe : World → Type 0
  Safe = IsOneShot codec

  guard-Safe : Triple Safe (guard_unused id) (λ _. Safe) Safe
  guard-Safe = Triple-steady Safe Safe (guard_unused id) (λ w. IsSteady-raise_when _ _ w) (λ w h. h)

  -- An idle journal: nothing has been signed or posted.
  idle-At :
      (st : JournalState)
      → Triple
          (λ w. Safe w × (state_of codec w ≡ ok st))
          (raise_when (not (same_state st not_started)) journal_already_used)
          (λ _. At codec not_started 0 0)
          Safe
  idle-At st = record { at = λ w h. go w h (not (same_state st not_started)) refl }
    where
      go :
          (w : World)
          → Safe w × (state_of codec w ≡ ok st)
          → (b : Bool) → not (same_state st not_started) ≡ b
          → Post (λ _. At codec not_started 0 0) Safe (raise_when b journal_already_used w)
      go w h true e = h.0
      go w h false e =
          let q : state_of codec w ≡ ok not_started = h.1 ∙ ap ok (same-eq st not_started e) in
          record { state = q; posts = rw q at h.0.posts; signatures = rw q at h.0.signatures }

  module _ (s : JournalState) (p g : ℕ) (hp : p ≤ post_bound (ok s))
      (hg : g ≤ sign_bound (ok s)) where
    pub steady-At :
        {A : Type 0} (m : Handoff A)
        → IsSteady m
        → Triple (At codec s p g) m (λ _. At codec s p g) Safe
    steady-At m h =
        Triple-steady (At codec s p g) Safe m h (λ w a. At-IsOneShot codec s p g w hp hg a)

    pub trip-At :
        (point : TripPoint) → Triple (At codec s p g) (trip env point) (λ _. At codec s p g) Safe
    unfolding trip
    trip-At point = steady-At (trip env point) (λ w. go w (env.trips point))
      where
        go :
            (w : World) (r : TripResult)
            → ((elim r as (λ _. Handoff Unit) [ go_on ↦ pure tt | _ ↦ raise other_error ]) w).1 ≡ w
        go w go_on = refl
        go w _ = refl

    pub record-At :
        (e : Event) (status : Option ℕ)
        → Triple
            (At codec s p g)
            (record_event codec config env id e status)
            (λ _. At codec (event_state e) p g)
            Safe
    unfolding record_event
    record-At e status =
        append-At codec e (by_id id) status none env.created_at (env.faults e) s p g hp hg

  mark-At :
      Triple {E = HandoffError}
        (At codec intent_recorded 0 0)
        (modify (mark_used id))
        (λ _. At codec intent_recorded 0 0)
        Safe
  mark-At = record {
    at = λ w a. record {
      state = state_of-file codec (mark_used id w) w refl ∙ a.state;
      posts = a.posts;
      signatures = a.signatures;
    };
  }

  signer-At :
      Triple
        (At codec intent_recorded 0 0)
        (call_signer env)
        (λ _. At codec intent_recorded 0 1)
        Safe
  signer-At = record {
    at = λ w a.
        go w
          (record {
            state =
                state_of-file codec (record w { signatures = suc w.signatures }) w refl ∙ a.state;
            posts = a.posts;
            signatures = omega (arith, a.signatures);
          })
          (or_raise env.signer other_error);
  }
    where
      go :
          (w : World)
          → At codec intent_recorded 0 1 (record w { signatures = suc w.signatures })
          → (r : Result HandoffError (String × String))
          → Post
              (λ _. At codec intent_recorded 0 1)
              Safe
              (r, record w { signatures = suc w.signatures })
      go w a (ok x) = a
      go w a (err e) = At-IsOneShot codec intent_recorded 0 1 _ (omega arith) (omega arith) a

  pub inspect-IsSteady : IsSteady (inspect codec)
  unfolding inspect read
  inspect-IsSteady = IsSteady-bind (read codec) _ (λ w. refl) (λ xs w. refl)

  -- From the mark to the signature's record.
  use_key :
      Triple
        (At codec intent_recorded 0 0)
        (do
          modify (mark_used id)
          trip env after_intent
          signed ← call_signer env
          raise_when (not (str_eq signed.0 config.participant_did)) identity_did_mismatch
          raise_when (not (is_signature signed.1)) signature_invalid
          record_event codec config env id local_signature none
          trip env after_local_signature
          pure signed)
        (λ _. At codec local_signature_created 0 1)
        Safe
  unfolding event_state
  use_key =
      Triple-bind _ _ (λ _. At codec intent_recorded 0 0) _ _ Safe mark-At
        λ _.
          Triple-bind _ _ (λ _. At codec intent_recorded 0 0) _ _ Safe
            (trip-At intent_recorded 0 0 (omega arith) (omega arith) after_intent)
            λ _.
              Triple-bind _ _ (λ _. At codec intent_recorded 0 1) _ _ Safe signer-At
                λ signed.
                  Triple-bind _ _ (λ _. At codec intent_recorded 0 1) _ _ Safe
                    (steady-At intent_recorded 0 1 (omega arith) (omega arith) _
                      (IsSteady-raise_when _ _))
                    λ _.
                      Triple-bind _ _ (λ _. At codec intent_recorded 0 1) _ _ Safe
                        (steady-At intent_recorded 0 1 (omega arith) (omega arith) _
                          (IsSteady-raise_when _ _))
                        λ _.
                          Triple-bind _ _ (λ _. At codec local_signature_created 0 1) _ _ Safe
                            (record-At intent_recorded 0 1 (omega arith) (omega arith)
                              local_signature none)
                            λ _.
                              Triple-bind _ _ (λ _. At codec local_signature_created 0 1) _ _ Safe
                                (trip-At local_signature_created 0 1 (omega arith) (omega arith)
                                  after_local_signature)
                                λ _. Triple-pure _ Safe signed

  pub sign-At :
      Triple Safe (sign codec config env id) (λ _. At codec local_signature_created 0 1) Safe
  unfolding sign event_state
  sign-At =
      Triple-bind Safe _ (λ _. Safe) _ _ Safe guard-Safe
        λ _.
          Triple-bind Safe _ (λ st w. Safe w × (state_of codec w ≡ ok st)) _ _ Safe
            (Triple-reads Safe Safe _ inspect-IsSteady (λ w h. h))
            λ st.
              Triple-bind _ _ (λ _. At codec not_started 0 0) _ _ Safe (idle-At st)
                λ _.
                  Triple-bind _ _ (λ _. At codec intent_recorded 0 0) _ _ Safe
                    (record-At not_started 0 0 (omega arith) (omega arith) intent none) λ _. use_key
