-- ===== src/Handoff/Execute.antt =====
-- Pre- and postconditions of `execute` and `reconcile`.
use Prim.Native.String.{String}
use flop_agent_intelligence.Common.{
  ℕ, suc, ◌≤◌, ◌≡◌, refl, ◌∙◌, Bool, true, false, Option, none, some, arith, if◌then◌else◌,
}
use flop_agent_intelligence.Common.Result.{Result, ok, err}
use flop_agent_intelligence.Common.Exec.{pure, ◌>>◌}
use flop_agent_intelligence.Common.Triple.{
  Triple, Post, Triple-steady, Triple-pure, Triple-bind, IsSteady, IsSteady-raise_when,
}
use flop_agent_intelligence.Handoff.Types.{
  JournalState, local_signature_created, post_attempt_recorded, post_response_observed,
  awaiting_referee_receipt, write_outcome_unknown, post_response, await_receipt, outcome_unknown,
  post_attempt, HandoffError, event_state,
}
use flop_agent_intelligence.Handoff.Journal.{Codec, World, Handoff, by_hash, read}
use flop_agent_intelligence.Handoff.Append.{state_of, state_of-file}
use flop_agent_intelligence.Handoff.Service.{
  Surroundings, Config, Observation, ExecuteResult, response_invalid, receipt_text, reconcile,
  settle, unknown_outcome, invoke_transport, post, execute, before_post_attempt_record,
  after_post_attempt, record_event,
}
use flop_agent_intelligence.Handoff.OneShot.{
  post_bound, sign_bound, IsOneShot, At, At-IsOneShot, append-IsOneShot,
}
use flop_agent_intelligence.Handoff.Signing.{
  prepare-IsSteady, steady-At, trip-At, record-At, sign-At, inspect-IsSteady,
}

module _ (codec : Codec) (config : Config) (env : Surroundings) (id : String) where
  abbrev Safe : World → Type 0
  Safe = IsOneShot codec

  -- After a return: the bounds hold, and the journal is in the state that the result names.
  pub record Done (r : ExecuteResult) (w : World) : Type 0 where
    pub bounds : IsOneShot codec w
    pub reported : state_of codec w ≡ ok r.status

  done :
      (s : JournalState) (n : ℕ)
      → 1 ≤ post_bound (ok s)
      → 1 ≤ sign_bound (ok s)
      → Triple
          (At codec s 1 1)
          (pure {E = HandoffError} (record { status = s; transport_invocations = n }))
          Done
          Safe
  done s n p g = record {
    at = λ w a. record { bounds = At-IsOneShot codec s 1 1 w p g a; reported = a.state };
  }

  steady : {A : Type 0} (m : Handoff A) → IsSteady m → Triple Safe m (λ _. Safe) Safe
  steady m h = Triple-steady Safe Safe m h (λ w i. i)

  read-IsSteady : IsSteady (read codec)
  unfolding read
  read-IsSteady w = refl

  unknown-At :
      Triple (At codec post_attempt_recorded 1 1) (unknown_outcome codec config env id) Done Safe
  unfolding unknown_outcome event_state
  unknown-At =
      Triple-bind _ _ (λ _. At codec write_outcome_unknown 1 1) _ _ Safe
        (record-At codec config env id post_attempt_recorded 1 1 (omega arith) (omega arith)
          outcome_unknown none)
        λ _. done write_outcome_unknown 1 (omega arith) (omega arith)

  settle-At :
      (r : Option Observation)
      → Triple (At codec post_attempt_recorded 1 1) (settle codec config env id r) Done Safe
  unfolding settle event_state
  settle-At none = unknown-At
  settle-At (some o) = go (response_invalid config.post_url o)
    where
      go :
          (b : Bool)
          → Triple
              (At codec post_attempt_recorded 1 1)
              (if b then unknown_outcome codec config env id else (do
                record_event codec config env id post_response (some o.status_code)
                record_event codec config env id await_receipt none
                pure (record { status = awaiting_referee_receipt; transport_invocations = 1 })))
              Done
              Safe
      go true = unknown-At
      go false =
          Triple-bind _ _ (λ _. At codec post_response_observed 1 1) _ _ Safe
            (record-At codec config env id post_attempt_recorded 1 1 (omega arith) (omega arith)
              post_response (some o.status_code))
            λ _.
              Triple-bind _ _ (λ _. At codec awaiting_referee_receipt 1 1) _ _ Safe
                (record-At codec config env id post_response_observed 1 1 (omega arith)
                  (omega arith) await_receipt none)
                λ _. done awaiting_referee_receipt 1 (omega arith) (omega arith)

  transport-At :
      Triple
        (At codec post_attempt_recorded 0 1)
        (invoke_transport env)
        (λ _. At codec post_attempt_recorded 1 1)
        Safe
  unfolding invoke_transport
  transport-At = record {
    at = λ w a.
        go w
          (record {
            state = state_of-file codec (record w { posts = suc w.posts }) w refl ∙ a.state;
            posts = omega (arith, a.posts);
            signatures = a.signatures;
          })
          _;
  }
    where
      go :
          (w : World)
          → At codec post_attempt_recorded 1 1 (record w { posts = suc w.posts })
          → (r : Result HandoffError (Option Observation))
          → Post
              (λ _. At codec post_attempt_recorded 1 1)
              Safe
              (r, record w { posts = suc w.posts })
      go w a (ok x) = a
      go w a (err e) = At-IsOneShot codec post_attempt_recorded 1 1 _ (omega arith) (omega arith) a

  post-At :
      (packet : String) (signed : String × String)
      → Triple
          (At codec local_signature_created 0 1)
          (post codec config env id packet signed)
          Done
          Safe
  unfolding post event_state
  post-At packet signed =
      Triple-bind _ _ (λ _. At codec local_signature_created 0 1) _ _ Safe
        (steady-At codec config env id local_signature_created 0 1 (omega arith) (omega arith) _
          (IsSteady-raise_when _ _))
        λ _.
          Triple-bind _ _ (λ _. At codec local_signature_created 0 1) _ _ Safe
            (trip-At codec config env id local_signature_created 0 1 (omega arith) (omega arith)
              before_post_attempt_record)
            λ _.
              Triple-bind _ _ (λ _. At codec post_attempt_recorded 0 1) _ _ Safe
                (record-At codec config env id local_signature_created 0 1 (omega arith)
                  (omega arith) post_attempt none)
                λ _.
                  Triple-bind _ _ (λ _. At codec post_attempt_recorded 0 1) _ _ Safe
                    (trip-At codec config env id post_attempt_recorded 0 1 (omega arith)
                      (omega arith) after_post_attempt)
                    λ _.
                      Triple-bind _ _ (λ _. At codec post_attempt_recorded 1 1) _ _ Safe
                        transport-At settle-At

  pub execute-At : Triple Safe (execute codec config env id) Done Safe
  unfolding execute
  execute-At =
      Triple-bind Safe _ (λ _. Safe) _ _ Safe
        (Triple-steady Safe Safe _ (prepare-IsSteady codec config env id) (λ w h. h))
        λ packet.
          Triple-bind Safe _ (λ _. Safe) _ _ Safe
            (Triple-steady Safe Safe _ (IsSteady-raise_when _ _) (λ w h. h))
            λ _.
              Triple-bind Safe _ (λ _. At codec local_signature_created 0 1) _ _ Safe
                (sign-At codec config env id) (post-At packet)

  pub reconcile-Safe :
      (outcome : Option Bool) → Triple Safe (reconcile codec config env outcome) (λ _. Safe) Safe
  unfolding reconcile
  reconcile-Safe outcome =
      Triple-bind Safe _ (λ _. Safe) _ _ Safe (steady _ (IsSteady-raise_when _ _))
        λ _.
          Triple-bind Safe _ (λ _. Safe) _ _ Safe (steady _ (inspect-IsSteady codec config env id))
            λ state.
              Triple-bind Safe _ (λ _. Safe) _ _ Safe (steady _ (IsSteady-raise_when _ _))
                λ _.
                  Triple-bind Safe _ (λ _. Safe) _ _ Safe (steady _ (IsSteady-raise_when _ _))
                    λ _.
                      Triple-bind Safe _ (λ _. Safe) _ _ Safe (steady _ (λ w. refl))
                        λ event.
                          Triple-bind Safe _ (λ _. Safe) _ _ Safe
                            (steady (read codec) read-IsSteady)
                            λ records.
                              Triple-bind Safe _ (λ _. Safe) _ _ Safe (steady _ (λ w. refl))
                                λ hash.
                                  Triple-bind Safe _ (λ _. Safe) _ _ Safe
                                    (append-IsOneShot codec event (by_hash hash) none
                                      (receipt_text codec config event) env.created_at
                                      (env.faults event))
                                    λ _. Triple-pure Safe Safe event
