-- ===== src/SignedPost/Post.antt =====
-- `post` of the client in technocore.py. The sweeper, the capability, the identity, the signer, the
-- transport and the signature check are given by the surroundings of a call.
use Prim.Native.String.{String}
use flop_agent_intelligence.Common.{
  ℕ, Option, some, Bool, not, ◌&&◌, ◌||◌, List, [], ◌∷◌, if◌then◌else◌,
}
use flop_agent_intelligence.Common.Text.{same_text}
use flop_agent_intelligence.Common.Result.{Result, ok, err, ◌>>=◌, ◌>>◌, raise_if}
use flop_agent_intelligence.WireEvidence.Types.{
  ReadBackStage, not_started, effect_unknown, redirect_rejected, readback_mismatch, WireError,
}
use flop_agent_intelligence.WireEvidence.Stages.{advance_readback}
use flop_agent_intelligence.WireEvidence.Signing.{
  Challenge, absent, same_codes, Material, signed_room_post, material_builder, context_builder,
}
use flop_agent_intelligence.SignedPost.Fence.{Keys, FenceFaults, reserve, Entry, attempt_keys}

pub data PostError : Type 0 where
  wire : WireError → PostError
  capability_denied canonicalization_mismatch : PostError
  effect : ReadBackStage → PostError

-- What a transport call ends in.
pub data Reply (A : Type 0) : Type 0 where
  redirected unknown : Reply A
  replied : A → Reply A

-- A message of the room that is an object, with its texts and the `sig` it may have.
pub record Message : Type 0 where
  pub author : List ℕ
  pub nonce : List ℕ
  pub text : List ℕ
  pub signature : Option String

-- What is read back: no list of messages, or the list.
pub data View : Type 0 where
  no_messages : View
  messages : List Message → View

pub record Request : Type 0 where
  pub room : List ℕ
  pub text : List ℕ
  pub nonce : List ℕ
  pub revision : String
  pub config_version : List ℕ
  pub purpose : List ℕ
  pub challenge : Challenge

pub record Surroundings : Type 0 where
  pub sweep : List ℕ → List ℕ
  pub has_capability : Material → Bool
  pub did : List ℕ
  pub sign : List ℕ → List ℕ → List ℕ → String × List ℕ
  pub faults : FenceFaults
  pub written : Reply (Unit {0})
  pub view : Reply View
  pub verifies : List ℕ → String → List ℕ → List ℕ → List ℕ → Bool

pub record World : Type 0 where
  pub attempts : List Keys
  pub sent : List Entry

pub record Prepared : Type 0 where
  pub entry : Entry
  pub signature : String

pub record Receipt : Type 0 where
  pub message : Message
  pub write_effect : ReadBackStage

abbrev pub of_wire : {A : Type 0} → Result WireError A → Result PostError A
of_wire (ok a) = ok a
of_wire (err e) = err (wire e)

abbrev pub unanswered : {A : Type 0} → Reply A → Result PostError A
unanswered redirected = err (effect redirect_rejected)
unanswered unknown = err (effect effect_unknown)
unanswered (replied a) = ok a

abbrev pub messages_of : View → Result PostError (List Message)
messages_of no_messages = err (effect readback_mismatch)
messages_of (messages ms) = ok ms

abbrev pub is_match : Entry → Message → Bool
is_match e m = same_codes m.author e.did && same_codes m.nonce e.nonce && same_codes m.text e.text

unfoldable pub matches : Entry → List Message → List Message
matches e [] = []
matches e (m ∷ ms) = let rest = matches e ms in if is_match e m then m ∷ rest else rest

abbrev pub only_one : List Message → Result PostError Message
only_one (m ∷ []) = ok m
only_one _ = err (effect readback_mismatch)

-- The stages of the read-back; each `advance` that the code makes is made here.
unfoldable pub read_back : Surroundings → Prepared → Result PostError Receipt
read_back env p = do
  recorded ← of_wire (advance_readback not_started "attempt_recorded")
  unanswered env.written
  accepted ← of_wire (advance_readback recorded "write_accepted")
  view ← unanswered env.view
  observed ← of_wire (advance_readback accepted "read_back_observed")
  ms ← messages_of view
  m ← only_one (matches p.entry ms)
  decoded ← of_wire (advance_readback observed "decode_valid")
  raise_if (not (same_text m.signature (some p.signature))) (effect ReadBackStage.signature_invalid)
  raise_if (not (env.verifies p.entry.did p.signature p.entry.room p.entry.nonce p.entry.text))
      (effect ReadBackStage.signature_invalid)
  signed ← of_wire (advance_readback decoded "signature_valid")
  replayed ← of_wire (advance_readback signed "state_replay_valid")
  confirmed ← of_wire (advance_readback replayed "evidence_confirmed")
  ok (record { message = m; write_effect = confirmed })

abbrev pub prepared : Surroundings → Request → Prepared
prepared env r = record {
  entry = record { did = env.did; room = r.room; nonce = r.nonce; text = env.sweep r.text };
  signature = (env.sign r.room r.nonce (env.sweep r.text)).0;
}

module _ (sha256 : List ℕ → String) (digest : List (List ℕ) → String) where
  -- Everything before the fence.
  unfoldable pub prepare : Surroundings → Request → Result PostError Prepared
  prepare env r = do
    c ← of_wire (context_builder sha256 r.room r.nonce (env.sweep r.text) r.challenge)
    m ← of_wire (material_builder c signed_room_post r.room r.revision r.config_version r.purpose)
    raise_if (not (env.has_capability m)) capability_denied
    let signed = (env.sign r.room r.nonce (env.sweep r.text)).1
    c' ← of_wire (context_builder sha256 r.room r.nonce signed absent)
    raise_if
        (not (same_codes signed (env.sweep r.text)) || not (same_codes c'.canonical c.canonical))
        canonicalization_mismatch
    ok (prepared env r)

  -- The transport is called as soon as the attempt is recorded.
  abbrev pub deliver :
      Surroundings
      → Prepared
      → World
      → Result ReadBackStage (Unit {0}) × List Keys
      → Result PostError Receipt × World
  deliver env p w (err stage, rows) = (err (effect stage), record w { attempts = rows })
  deliver env p w (ok _, rows) =
      (read_back env p, record { attempts = rows; sent = p.entry ∷ w.sent })

  abbrev pub post_prepared :
      Surroundings → World → Result PostError Prepared → Result PostError Receipt × World
  post_prepared env w (err e) = (err e, w)
  post_prepared env w (ok p) =
      deliver env p w (reserve env.faults (attempt_keys digest p.entry) w.attempts)

  unfoldable pub post : Surroundings → Request → World → Result PostError Receipt × World
  post env r w = post_prepared env w (prepare env r)
