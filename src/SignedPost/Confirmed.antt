-- ===== src/SignedPost/Confirmed.antt =====
-- What a post that returns has shown.
use Prim.Native.String.{String}
use mathlib.Core.Path.{subst}
use flop_agent_intelligence.Common.{
  ℕ, ◌≡◌, refl, sym, ap, ◌∙◌, Bool, true, false, not, ◌||◌, some, List, [], ◌∷◌,
}
use flop_agent_intelligence.Common.Text.{same_text}
use flop_agent_intelligence.Common.Result.{
  Result, ok, err, raise_if, >>=-eq-ok, >>-eq-ok, ok-injective,
}
use flop_agent_intelligence.WireEvidence.Types.{ReadBackStage, evidence_confirmed}
use flop_agent_intelligence.WireEvidence.Stages.{advance_readback, look_up}
use flop_agent_intelligence.WireEvidence.Signing.{
  absent, same_codes, signed_room_post, material_builder, context_builder,
}
use flop_agent_intelligence.SignedPost.Fence.{Keys, reserve, attempt_keys}
use flop_agent_intelligence.SignedPost.Post.{
  PostError, capability_denied, canonicalization_mismatch, effect, Reply, redirected, unknown,
  no_messages, View, Message, Request, Surroundings, World, Prepared, Receipt, of_wire, unanswered,
  messages_of, matches, only_one, read_back, prepared, prepare, deliver, post_prepared, post,
  replied, messages,
}

-- The message in the receipt is the only one of this post in the room, and carries its signature.
pub record IsConfirmed (env : Surroundings) (p : Prepared) (r : Receipt) : Type 0 where
  pub stage : r.write_effect ≡ evidence_confirmed
  pub read :
      (ms : List Message) × (env.view ≡ replied (messages ms))
      × (matches p.entry ms ≡ r.message ∷ [])
  pub signed : same_text r.message.signature (some p.signature) ≡ true
  pub verified : env.verifies p.entry.did p.signature p.entry.room p.entry.nonce p.entry.text ≡ true

unanswered-replied : {A : Type 0} (x : Reply A) (a : A) → unanswered x ≡ ok a → x ≡ replied a
unanswered-replied redirected a h = cc
unanswered-replied unknown a h = cc
unanswered-replied (replied b) a h = ap replied (ok-injective h)

messages_of-messages : (v : View) (ms : List Message) → messages_of v ≡ ok ms → v ≡ messages ms
messages_of-messages no_messages ms h = cc
messages_of-messages (messages xs) ms h = ap messages (ok-injective h)

only_one-only : (ms : List Message) (m : Message) → only_one ms ≡ ok m → ms ≡ m ∷ []
only_one-only [] m h = cc
only_one-only (x ∷ []) m h = ap (λ y. y ∷ []) (ok-injective h)
only_one-only (x ∷ y ∷ ms) m h = cc

not-passed : (b : Bool) (e : PostError) → raise_if (not b) e ≡ ok tt → b ≡ true
not-passed true e h = refl
not-passed false e h = cc

read_back-IsConfirmed :
    (env : Surroundings) (p : Prepared) (r : Receipt) → read_back env p ≡ ok r → IsConfirmed env p r
unfolding read_back advance_readback look_up
read_back-IsConfirmed env p r h =
    let (_, h1) = >>-eq-ok (unanswered env.written) _ h in
    let (v, hv, h2) = >>=-eq-ok (unanswered env.view) _ h1 in
    let (ms, hm, h3) = >>=-eq-ok (messages_of v) _ h2 in
    let (m, ho, h4) = >>=-eq-ok (only_one (matches p.entry ms)) _ h3 in
    let same = same_text m.signature (some p.signature) in
    let (hs, h5) = >>-eq-ok (raise_if (not same) (effect ReadBackStage.signature_invalid)) _ h4 in
    let verified = env.verifies p.entry.did p.signature p.entry.room p.entry.nonce p.entry.text in
    let (he, h6) =
      >>-eq-ok (raise_if (not verified) (effect ReadBackStage.signature_invalid)) _ h5 in
    let q = ok-injective h6 in
    subst (IsConfirmed env p) q (record {
      stage = refl;
      read = (
        ms,
        unanswered-replied env.view v hv ∙ ap replied (messages_of-messages v ms hm),
        only_one-only (matches p.entry ms) m ho,
      );
      signed = not-passed same (effect ReadBackStage.signature_invalid) hs;
      verified = not-passed verified (effect ReadBackStage.signature_invalid) he;
    })

module _ (sha256 : List ℕ → String) (digest : List (List ℕ) → String) where
  prepare-prepared :
      (env : Surroundings) (r : Request) (p : Prepared)
      → prepare sha256 digest env r ≡ ok p
      → prepared env r ≡ p
  unfolding prepare
  prepare-prepared env r p h =
      let clean = env.sweep r.text in
      let (c, _, h1) =
        >>=-eq-ok (of_wire (context_builder sha256 r.room r.nonce clean r.challenge)) _ h in
      let (m, _, h2) =
        >>=-eq-ok
          (of_wire
            (material_builder c signed_room_post r.room r.revision r.config_version r.purpose))
          _ h1 in
      let (_, h3) = >>-eq-ok (raise_if (not (env.has_capability m)) capability_denied) _ h2 in
      let signed = (env.sign r.room r.nonce clean).1 in
      let (c', _, h4) =
        >>=-eq-ok (of_wire (context_builder sha256 r.room r.nonce signed absent)) _ h3 in
      let mismatch = not (same_codes signed clean) || not (same_codes c'.canonical c.canonical) in
      let (_, h5) = >>-eq-ok (raise_if mismatch canonicalization_mismatch) _ h4 in ok-injective h5

  -- A post that returns was sent, once and last, and its receipt is confirmed: the room's messages
  -- were read back, exactly one is by this author with this nonce and text, it carries the signature
  -- that was sent, and that signature verifies.
  pub post-IsConfirmed :
      (env : Surroundings) (r : Request) (w w' : World) (receipt : Receipt)
      → post sha256 digest env r w ≡ (ok receipt, w')
      → IsConfirmed env (prepared env r) receipt × (w'.sent ≡ (prepared env r).entry ∷ w.sent)
  unfolding post
  post-IsConfirmed env r w w' receipt h = go (prepare sha256 digest env r) refl h
    where
      sent :
          (p : Prepared) (out : Result ReadBackStage (Unit {0}) × List Keys)
          → deliver sha256 digest env p w out ≡ (ok receipt, w')
          → IsConfirmed env p receipt × (w'.sent ≡ p.entry ∷ w.sent)
      sent p (err stage, rows) k = cc (ap (λ (x : Result PostError Receipt × World). x.0) k)
      sent p (ok u, rows) k = (
        read_back-IsConfirmed env p receipt (ap (λ (x : Result PostError Receipt × World). x.0) k),
        ap (λ (x : Result PostError Receipt × World). x.1.sent) (sym k),
      )

      go :
          (x : Result PostError Prepared)
          → prepare sha256 digest env r ≡ x
          → post_prepared sha256 digest env w x ≡ (ok receipt, w')
          → IsConfirmed env (prepared env r) receipt × (w'.sent ≡ (prepared env r).entry ∷ w.sent)
      go (err e) q k = cc (ap (λ (x : Result PostError Receipt × World). x.0) k)
      go (ok p) q k =
          subst (λ (x : Prepared). IsConfirmed env x receipt × (w'.sent ≡ x.entry ∷ w.sent))
            (sym (prepare-prepared env r p q))
            (sent p (reserve env.faults (attempt_keys digest p.entry) w.attempts) k)
