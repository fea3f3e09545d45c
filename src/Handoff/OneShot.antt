-- ===== src/Handoff/OneShot.antt =====
-- The bounds on the calls of transport and signer, step by step through `execute`.
use Prim.Native.String.{String}
use flop_agent_intelligence.Common.{ℕ, ◌≤◌, ◌≡◌, inl, inr, Bool, true, false, not, Option, arith}
use flop_agent_intelligence.Common.Result.{Result, ok, err}
use flop_agent_intelligence.Common.Triple.{Triple, Post}
use flop_agent_intelligence.Handoff.Types.{
  JournalState, not_started, intent_recorded, local_signature_created, Event, HandoffError, Record,
  event_state,
}
use flop_agent_intelligence.Handoff.Decode.{is_next, same_state, JournalState-discrete}
use flop_agent_intelligence.Handoff.Journal.{Codec, World, WriteFault, Approval, append}
use flop_agent_intelligence.Handoff.Append.{state_of, Stepped, Outcome, append-Outcome}

-- At most this many posts have been made in a journal's state; one in a file that does not read.
abbrev pub post_bound : Result HandoffError JournalState → ℕ
post_bound (err _) = 1
post_bound (ok not_started) = 0
post_bound (ok intent_recorded) = 0
post_bound (ok local_signature_created) = 0
post_bound (ok _) = 1

abbrev pub sign_bound : Result HandoffError JournalState → ℕ
sign_bound (err _) = 1
sign_bound (ok not_started) = 0
sign_bound (ok _) = 1

pub same-eq : (a b : JournalState) → not (same_state a b) ≡ false → a ≡ b
unfolding same_state
same-eq a b h = go (JournalState-discrete a b) h
  where
    go :
        (d : Dec (a ≡ b))
        → not (elim d as (λ _. Bool) [ yes _ ↦ true | no _ ↦ false ]) ≡ false
        → a ≡ b
    go (yes e) h = e
    go (no n) h = grind arith

bounds_grow :
    (a b : JournalState)
    → is_next a b ≡ true
    → (post_bound (ok a) ≤ post_bound (ok b)) × (sign_bound (ok a) ≤ sign_bound (ok b))
unfolding is_next
bounds_grow a b h = ground arith

module _ (codec : Codec) where
  pub record IsOneShot (w : World) : Type 0 where
    pub posts : w.posts ≤ post_bound (state_of codec w)
    pub signatures : w.signatures ≤ sign_bound (state_of codec w)

  pub record At (s : JournalState) (p g : ℕ) (w : World) : Type 0 where
    pub state : state_of codec w ≡ ok s
    pub posts : w.posts ≤ p
    pub signatures : w.signatures ≤ g

  pub At-IsOneShot :
      (s : JournalState) (p g : ℕ) (w : World)
      → p ≤ post_bound (ok s)
      → g ≤ sign_bound (ok s)
      → At s p g w
      → IsOneShot w
  At-IsOneShot s p g w hp hg a = record {
    posts = rw a.state (omega (arith, a.posts));
    signatures = rw a.state (omega (arith, a.signatures));
  }

  Stepped-At :
      (s : JournalState) (p g : ℕ) (e : Event) (w w' : World)
      → At s p g w
      → Stepped codec e w w'
      → At (event_state e) p g w'
  Stepped-At s p g e w w' a st = record {
    state = st.to;
    posts = rw st.posts a.posts;
    signatures = rw st.signatures a.signatures;
  }

  Stepped-IsOneShot : (e : Event) (w w' : World) → IsOneShot w → Stepped codec e w w' → IsOneShot w'
  Stepped-IsOneShot e w w' i st =
      let (p, g) = bounds_grow st.prior (event_state e) st.is_step in
      record {
        posts = rw (st.to, st.posts) (omega (arith, rw st.from at i.posts));
        signatures = rw (st.to, st.signatures) (omega (arith, rw st.from at i.signatures));
      }

  module _ (e : Event) (approval : Approval) (status : Option ℕ) (receipt : Option String)
      (created_at : String) (fault : WriteFault) where
    pub append-IsOneShot :
        Triple IsOneShot
          (append codec e approval status receipt created_at fault)
          (λ _. IsOneShot)
          IsOneShot
    append-IsOneShot = record {
      at = λ w i.
          go w i (append codec e approval status receipt created_at fault w)
            (append-Outcome codec e approval status receipt created_at fault w);
    }
      where
        go :
            (w : World)
            → IsOneShot w
            → (r : Result HandoffError Record × World)
            → Outcome codec e approval status receipt created_at fault w r
            → Post (λ _. IsOneShot) IsOneShot r
        go w i (ok x, w') st = Stepped-IsOneShot e w w' i st
        go w i (err x, w') (inl same) = rw same i
        go w i (err x, w') (inr st) = Stepped-IsOneShot e w w' i st

    pub append-At :
        (s : JournalState) (p g : ℕ)
        → p ≤ post_bound (ok s)
        → g ≤ sign_bound (ok s)
        → Triple
            (At s p g)
            (append codec e approval status receipt created_at fault)
            (λ _. At (event_state e) p g)
            IsOneShot
    append-At s p g hp hg = record {
      at = λ w a.
          go w a (append codec e approval status receipt created_at fault w)
            (append-Outcome codec e approval status receipt created_at fault w);
    }
      where
        go :
            (w : World)
            → At s p g w
            → (r : Result HandoffError Record × World)
            → Outcome codec e approval status receipt created_at fault w r
            → Post (λ _. At (event_state e) p g) IsOneShot r
        go w a (ok x, w') st = Stepped-At s p g e w w' a st
        go w a (err x, w') (inl same) = rw same (At-IsOneShot s p g w hp hg a)
        go w a (err x, w') (inr st) = Stepped-IsOneShot e w w' (At-IsOneShot s p g w hp hg a) st
