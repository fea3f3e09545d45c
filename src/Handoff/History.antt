-- ===== src/Handoff/History.antt =====
-- Histories of a journal: executions and reconciliations of any process, in any order.
use Prim.Native.String.{String}
use flop_agent_intelligence.Common.{◌≤◌, ◌≡◌, refl, Bool, Option, none, [], arith}
use flop_agent_intelligence.Common.Result.{Result, ok, err}
use flop_agent_intelligence.Common.Triple.{Post}
use flop_agent_intelligence.Handoff.Types.{JournalState, HandoffError}
use flop_agent_intelligence.Handoff.Journal.{Codec, World}
use flop_agent_intelligence.Handoff.Append.{state_of, state_of-file}
use flop_agent_intelligence.Handoff.Service.{
  Surroundings, Config, ExecuteResult, execute, reconcile,
}
use flop_agent_intelligence.Handoff.OneShot.{post_bound, sign_bound, IsOneShot}
use flop_agent_intelligence.Handoff.Execute.{Done, execute-At, reconcile-Safe}

-- No journal, and a process that has done nothing.
abbrev pub fresh : World
fresh = record { file = none; used = []; signatures = 0; posts = 0 }

post_bound_le : (r : Result HandoffError JournalState) → post_bound r ≤ 1
post_bound_le (err e) = omega arith
post_bound_le (ok s) = ground arith

sign_bound_le : (r : Result HandoffError JournalState) → sign_bound r ≤ 1
sign_bound_le (err e) = omega arith
sign_bound_le (ok s) = ground arith

module _ (codec : Codec) where
  -- What can happen to a journal; a restart forgets the approvals that were used.
  pub data Step : World → World → Type 0 where
    executed :
        (config : Config) (env : Surroundings) (id : String) {w : World}
        → Step w (execute codec config env id w).1
    reconciled :
        (config : Config) (env : Surroundings) (outcome : Option Bool) {w : World}
        → Step w (reconcile codec config env outcome w).1
    restarted : {w : World} → Step w (record w { used = [] })

  pub data Reach : World → Type 0 where
    begun : Reach fresh
    then : {w w' : World} → Reach w → Step w w' → Reach w'

  pub Post-IsOneShot :
      {A : Type 0} (Q : A → World → Type 0)
      → ((a : A) (w : World) → Q a w → IsOneShot codec w)
      → (r : Result HandoffError A × World) → Post Q (IsOneShot codec) r
      → IsOneShot codec r.1
  Post-IsOneShot Q weaken (ok a, w) h = weaken a w h
  Post-IsOneShot Q weaken (err e, w) h = h

  step-IsOneShot : {w w' : World} → Step w w' → IsOneShot codec w → IsOneShot codec w'
  step-IsOneShot (executed config env id {w}) i =
      Post-IsOneShot (Done codec config env id) (λ r w d. d.bounds) _
        ((execute-At codec config env id).at w i)
  step-IsOneShot (reconciled config env outcome {w}) i =
      Post-IsOneShot (λ _. IsOneShot codec) (λ a w h. h) _
        ((reconcile-Safe codec config env "" outcome).at w i)
  step-IsOneShot (restarted {w}) i =
      let same : state_of codec (record w { used = [] }) ≡ state_of codec w =
        state_of-file codec (record w { used = [] }) w refl in
      record { posts = rw same i.posts; signatures = rw same i.signatures }

  reach_bounds : {w : World} → Reach w → IsOneShot codec w
  reach_bounds begun = record { posts = omega arith; signatures = omega arith }
  reach_bounds (then r st) = step-IsOneShot st (reach_bounds r)

  -- Whatever is executed, reconciled or restarted, and whatever fails on the way: the journal's
  -- state is a bound. One signature and one post at most are ever made, no signature before the
  -- intent is recorded and no post before the attempt is.
  pub reach-IsOneShot :
      {w : World}
      → Reach w
      → (w.posts ≤ 1)
        × (w.signatures ≤ 1)
        × (w.posts ≤ post_bound (state_of codec w))
        × (w.signatures ≤ sign_bound (state_of codec w))
  reach-IsOneShot {w} r =
      let i = reach_bounds r in
      let p : post_bound (state_of codec w) ≤ 1 = post_bound_le (state_of codec w) in
      let g : sign_bound (state_of codec w) ≤ 1 = sign_bound_le (state_of codec w) in
      (omega (arith, i.posts, p), omega (arith, i.signatures, g), i.posts, i.signatures)

  -- An execution that returns has left the journal in the state that its result names: the
  -- response is awaiting a receipt, or the outcome is unknown.
  pub execute-reports :
      (config : Config) (env : Surroundings) (id : String) (r : ExecuteResult) (w w' : World)
      → Reach w
      → execute codec config env id w ≡ (ok r, w')
      → state_of codec w' ≡ ok r.status
  execute-reports config env id r w w' h e =
      go ((execute-At codec config env id).at w (reach_bounds h))
    where
      go :
          Post (Done codec config env id) (IsOneShot codec) (execute codec config env id w)
          → state_of codec w' ≡ ok r.status
      go d = (rw e at d).reported
