-- ===== src/SignedPost/Once.antt =====
-- Sequences of posts over one journal: no nonce and no text is sent twice.
use Prim.Native.String.{String}
use text.Mathlib.TextPositions.{eq_refl}
use flop_agent_intelligence.Common.{
  ℕ, ◌≡◌, refl, ap, Bool, true, false, not, ◌&&◌, ◌||◌, List, [], ◌∷◌, if◌then◌else◌, All, arith,
}
use flop_agent_intelligence.Common.Text.{is_sha256}
use flop_agent_intelligence.Common.Result.{Result, ok, err}
use flop_agent_intelligence.WireEvidence.Types.{failed, duplicate_suppressed}
use flop_agent_intelligence.SignedPost.Fence.{
  Keys, has_scope, has_operation, reserve, Entry, scope_parts, operation_parts, attempt_keys,
}
use flop_agent_intelligence.SignedPost.Post.{
  PostError, Request, Surroundings, World, Prepared, prepare, deliver, post_prepared, post,
}

-- Neither with the same nonce, nor with the same text.
pub record IsOther (e e' : Entry) : Type 0 where
  pub nonce : scope_parts e ≡ scope_parts e' → ⊥
  pub text : operation_parts e ≡ operation_parts e' → ⊥

-- Every two posts that were sent are of other nonces and other texts.
abbrev pub IsOnce : List Entry → Type 0
IsOnce [] = Unit
IsOnce (e ∷ sent) = All (IsOther e) sent × IsOnce sent

module _ (sha256 : List ℕ → String) (digest : List (List ℕ) → String) where
  -- The journal has both keys of a post.
  record IsReserved (rows : List Keys) (e : Entry) : Type 0 where
    scope : has_scope (digest (scope_parts e)) rows ≡ true
    operation : has_operation (digest (operation_parts e)) rows ≡ true

  record IsFenced (w : World) : Type 0 where
    reserved : All (IsReserved w.attempts) w.sent
    once : IsOnce w.sent

  IsReserved-grow :
      (rows : List Keys) (k : Keys) (sent : List Entry)
      → All (IsReserved rows) sent
      → All (IsReserved (k ∷ rows)) sent
  unfolding has_scope has_operation
  IsReserved-grow rows k [] h = tt
  IsReserved-grow rows k (e ∷ sent) (r, h) = (
    record { scope = ground (arith, r.scope); operation = ground (arith, r.operation) },
    IsReserved-grow rows k sent h,
  )

  -- A post whose keys are new is another one than all that were sent.
  fresh-IsOther :
      (rows : List Keys) (e : Entry) (sent : List Entry)
      → has_scope (digest (scope_parts e)) rows ≡ false
      → has_operation (digest (operation_parts e)) rows ≡ false
      → All (IsReserved rows) sent
      → All (IsOther e) sent
  fresh-IsOther rows e [] s o h = tt
  fresh-IsOther rows e (e' ∷ sent) s o (r, h) = (
    record {
      nonce = λ q. cc (ap (λ p. has_scope (digest p) rows) q, s, r.scope);
      text = λ q. cc (ap (λ p. has_operation (digest p) rows) q, o, r.operation);
    },
    fresh-IsOther rows e sent s o h,
  )

  IsFenced-grow :
      (k : Keys) (w : World) → IsFenced w → IsFenced (record w { attempts = k ∷ w.attempts })
  IsFenced-grow k w h = record {
    reserved = IsReserved-grow w.attempts k w.sent h.reserved;
    once = h.once;
  }

  -- A post that is sent after its keys were reserved.
  IsFenced-send :
      (e : Entry) (w : World)
      → has_scope (digest (scope_parts e)) w.attempts ≡ false
      → has_operation (digest (operation_parts e)) w.attempts ≡ false
      → IsFenced w
      → IsFenced (record { attempts = attempt_keys digest e ∷ w.attempts; sent = e ∷ w.sent })
  unfolding has_scope has_operation
  IsFenced-send e w s o h = record {
    reserved = (
      record {
        scope = rw (eq_refl (digest (scope_parts e))) refl;
        operation = rw (eq_refl (digest (operation_parts e))) refl;
      },
      IsReserved-grow w.attempts (attempt_keys digest e) w.sent h.reserved,
    );
    once = (fresh-IsOther w.attempts e w.sent s o h.reserved, h.once);
  }

  deliver-IsFenced :
      (env : Surroundings) (p : Prepared) (w : World)
      → IsFenced w
      → IsFenced
          (deliver sha256 digest env p w
            (reserve env.faults (attempt_keys digest p.entry) w.attempts)).1
  unfolding reserve
  deliver-IsFenced env p w h =
      go (is_sha256 (digest (scope_parts p.entry)) && is_sha256 (digest (operation_parts p.entry)))
        env.faults.unsafe_journal (has_scope (digest (scope_parts p.entry)) w.attempts)
        (has_operation (digest (operation_parts p.entry)) w.attempts) env.faults.commit_failed
        env.faults.sync_failed refl refl
    where
      go :
          (a b c d x y : Bool)
          → has_scope (digest (scope_parts p.entry)) w.attempts ≡ c
          → has_operation (digest (operation_parts p.entry)) w.attempts ≡ d
          → IsFenced
              (deliver sha256 digest env p w (
                if not a
                then (err failed, w.attempts)
                else if b
                then (err failed, w.attempts)
                else if c || d
                then (err duplicate_suppressed, w.attempts)
                else if x
                then (err failed, w.attempts)
                else if y
                then (err failed, attempt_keys digest p.entry ∷ w.attempts)
                else (ok tt, attempt_keys digest p.entry ∷ w.attempts))).1
      go false b c d x y s o = h
      go true true c d x y s o = h
      go true false true d x y s o = h
      go true false false true x y s o = h
      go true false false false true y s o = h
      go true false false false false true s o = IsFenced-grow (attempt_keys digest p.entry) w h
      go true false false false false false s o = IsFenced-send p.entry w s o h

  post-IsFenced :
      (env : Surroundings) (r : Request) (w : World)
      → IsFenced w
      → IsFenced (post sha256 digest env r w).1
  unfolding post
  post-IsFenced env r w h = go (prepare sha256 digest env r)
    where
      go : (x : Result PostError Prepared) → IsFenced (post_prepared sha256 digest env w x).1
      go (err e) = h
      go (ok p) = deliver-IsFenced env p w h

  -- The journal and the posts after a sequence of calls, the newest first; the journal outlives the
  -- process.
  abbrev pub world_after : List (Surroundings × Request) → World
  world_after [] = record { attempts = []; sent = [] }
  world_after (call ∷ calls) = (post sha256 digest call.0 call.1 (world_after calls)).1

  world_after-IsFenced : (calls : List (Surroundings × Request)) → IsFenced (world_after calls)
  world_after-IsFenced [] = record { reserved = tt; once = tt }
  world_after-IsFenced (call ∷ calls) =
      post-IsFenced call.0 call.1 (world_after calls) (world_after-IsFenced calls)

  -- Over any calls, with any failures of the journal, the transport and the read-back, no author sends
  -- two posts with the same nonce to a room, nor two with the same text.
  pub world_after-IsOnce : (calls : List (Surroundings × Request)) → IsOnce (world_after calls).sent
  world_after-IsOnce calls = (world_after-IsFenced calls).once
