-- ===== src/Yellowpaper/Turns.antt =====
-- What holds of a transcript that `decode_transcript` returns.
use Prim.Native.String.{String}
use mathlib.Core.Path.{subst}
use flop_agent_intelligence.Common.{
  ℕ, ◌≤◌, ◌≡◌, ◌≢◌, refl, sym, ap, ◌∙◌, Bool, true, false, not, ◌||◌, Option, none, some, List, [],
  ◌∷◌, ltb, ◌==◌, if◌then◌else◌, length, All, arith,
}
use flop_agent_intelligence.Common.Result.{
  Result, ok, err, raise_if, >>=-eq-ok, >>-eq-ok, raise_if-eq-ok, ok-injective,
}
use flop_agent_intelligence.WireEvidence.Signing.{same_codes}
use flop_agent_intelligence.Yellowpaper.Arguments.{
  WireError, Bytes, bytes, no_bytes, hash, require_profile,
}
use flop_agent_intelligence.Yellowpaper.Transcript.{
  Turn, is_seen, follows_policy, check_turns, policy_of, is_given, blob_of, decode_transcript,
}

same_codes→eq : (xs ys : List ℕ) → same_codes xs ys ≡ true → xs ≡ ys
unfolding same_codes
same_codes→eq [] [] h = refl
same_codes→eq [] (y ∷ ys) h = cc
same_codes→eq (x ∷ xs) [] h = cc
same_codes→eq (x ∷ xs) (y ∷ ys) h =
    let p : x ≡ y = ground arith in
    let q : same_codes xs ys ≡ true = ground arith in let r = same_codes→eq xs ys q in cc

-- No index of a turn stands among those before it.
pub data AreDistinct : List ℕ → List Turn → Type 0 where
  none_left : (before : List ℕ) → AreDistinct before []
  next_turn :
      (before : List ℕ) (t : Turn) (ts : List Turn)
      → All (λ m. m ≢ t.turn_index) before
      → AreDistinct (t.turn_index ∷ before) ts
      → AreDistinct before (t ∷ ts)

-- A turn names the policy that is asked for, in a leaf that carries one.
pub data IsFollowed : Option (List ℕ) → Turn → Type 0 where
  unasked : (t : Turn) → IsFollowed none t
  asked :
      (h : List ℕ) (t : Turn)
      → 2 ≤ t.leaf_version
      → t.decode_policy_hash ≡ h
      → IsFollowed (some h) t

is_seen-Fresh : (n : ℕ) (ms : List ℕ) → is_seen n ms ≡ false → All (λ m. m ≢ n) ms
unfolding is_seen
is_seen-Fresh n [] h = tt
is_seen-Fresh n (m ∷ ms) h =
    let q : is_seen n ms ≡ false = ground arith in (λ e. ground arith, is_seen-Fresh n ms q)

follows_policy-IsFollowed :
    (p : Option (List ℕ)) (t : Turn) → follows_policy p t ≡ true → IsFollowed p t
follows_policy-IsFollowed none t h = unasked t
follows_policy-IsFollowed (some x) t h =
    asked x t (ground arith) (same_codes→eq t.decode_policy_hash x (ground arith))

not-false : (b : Bool) → not b ≡ false → b ≡ true
not-false true h = refl
not-false false h = sym h

check_turns-AreDistinct :
    (p : Option (List ℕ)) (before : List ℕ) (ts : List Turn)
    → check_turns p before ts ≡ ok tt
    → AreDistinct before ts × All (IsFollowed p) ts
unfolding check_turns
check_turns-AreDistinct p before [] h = (none_left before, tt)
check_turns-AreDistinct p before (t ∷ ts) h =
    let (h1, k) = >>-eq-ok (raise_if (is_seen t.turn_index before) WireError.duplicate_turn) _ h in
    let (h2, l) =
      >>-eq-ok (raise_if (not (follows_policy p t)) WireError.decode_policy_mismatch) _ k in
    let (d, f) = check_turns-AreDistinct p (t.turn_index ∷ before) ts l in
    let s = is_seen-Fresh t.turn_index before (raise_if-eq-ok (is_seen t.turn_index before) _ h1) in
    let o =
      follows_policy-IsFollowed p t
        (not-false (follows_policy p t) (raise_if-eq-ok (not (follows_policy p t)) _ h2)) in
    (next_turn before t ts s d, (o, f))

-- The policy that is asked for: none, only in legacy mode, or a hash.
pub data IsAsked : Option Bytes → (legacy : Bool) → Option (List ℕ) → Type 0 where
  legacy_mode : IsAsked none true none
  with_hash :
      (h : List ℕ) (legacy : Bool) → length h ≡ 32 → IsAsked (some (bytes h)) legacy (some h)

pub record IsTranscript (decode : List ℕ → Result WireError (List ℕ × List Turn))
    (raw expected : Bytes) (policy : Option Bytes) (legacy : Bool) (channel : List ℕ)
    (turns : List Turn) : Type 0 where
  pub blob : List ℕ
  pub asked_for : Option (List ℕ)
  pub raw_is : raw ≡ bytes blob
  pub small : length blob ≤ 2097152
  pub decoded : decode blob ≡ ok (channel, turns)
  pub expected_is : expected ≡ bytes channel
  pub asks : IsAsked policy legacy asked_for
  pub distinct : AreDistinct [] turns
  pub followed : All (IsFollowed asked_for) turns

hash-is : (b : Bytes) (x : List ℕ) → hash b ≡ ok x → (b ≡ bytes x) × (length x ≡ 32)
unfolding hash
hash-is (bytes y) x h = go (length y == 32) refl h
  where
    go :
        (b : Bool)
        → (length y == 32) ≡ b
        → (if b then ok y else err WireError.hash_invalid) ≡ ok x
        → (bytes y ≡ bytes x) × (length x ≡ 32)
    go true n e =
        let q : y ≡ x = ok-injective e in (ap bytes q, subst (λ v. length v ≡ 32) q (ground arith))
    go false n e = cc
hash-is no_bytes x h = cc

policy-IsAsked :
    (p : Option Bytes) (l : Bool) (h : Option (List ℕ))
    → not (is_given p || l) ≡ false
    → policy_of p ≡ ok h
    → IsAsked p l h
unfolding policy_of
policy-IsAsked none true h g e = subst (IsAsked none true) (ok-injective e) legacy_mode
policy-IsAsked none false h g e = cc
policy-IsAsked (some b) l h g e =
    let (x, hx, e1) = >>=-eq-ok (hash b) _ e in
    let (q, n) = hash-is b x hx in
    subst (λ v. IsAsked (some v) l h) (sym q)
      (subst (IsAsked (some (bytes x)) l) (ok-injective e1) (with_hash x l n))

blob-is : (b : Bytes) (x : List ℕ) → blob_of b ≡ ok x → (b ≡ bytes x) × (length x ≤ 2097152)
unfolding blob_of
blob-is no_bytes x h = cc
blob-is (bytes y) x h =
    let (k, e) =
      >>-eq-ok (raise_if (ltb 2097152 (length y)) WireError.transcript_size_invalid) _ h in
    let s = raise_if-eq-ok (ltb 2097152 (length y)) _ k in
    let q : y ≡ x = ok-injective e in (ap bytes q, subst (λ v. length v ≤ 2097152) q (ground arith))

-- The parts of a run that returned.
assembled :
    (decode : List ℕ → Result WireError (List ℕ × List Turn)) (raw expected : Bytes)
    (policy : Option Bytes) (legacy : Bool) (want b c : List ℕ) (p : Option (List ℕ))
    (ts : List Turn)
    → hash expected ≡ ok want
    → not (is_given policy || legacy) ≡ false
    → policy_of policy ≡ ok p
    → blob_of raw ≡ ok b
    → decode b ≡ ok (c, ts)
    → not (same_codes c want) ≡ false
    → check_turns p [] ts ≡ ok tt
    → IsTranscript decode raw expected policy legacy c ts
assembled decode raw expected policy legacy want b c p ts hw hg hp hb hd hc ht =
    let (eb, small) = blob-is raw b hb in
    let (d, f) = check_turns-AreDistinct p [] ts ht in
    let same = same_codes→eq c want (not-false (same_codes c want) hc) in
    record {
      blob = b;
      asked_for = p;
      raw_is = eb;
      small = small;
      decoded = hd;
      expected_is = (hash-is expected want hw).0 ∙ ap bytes (sym same);
      asks = policy-IsAsked policy legacy p hg hp;
      distinct = d;
      followed = f;
    }

-- A transcript that is returned is what the decoder made of at most 2 MiB of bytes; its channel is
-- the expected one, no two of its turns have one index, and each turn names the policy that was asked
-- for in a leaf of version 2 or later, unless none was, which legacy mode alone allows.
pub decode_transcript-IsTranscript :
    (decode : List ℕ → Result WireError (List ℕ × List Turn)) (profile : String)
    (raw expected : Bytes) (policy : Option Bytes) (legacy : Bool) (channel : List ℕ)
    (turns : List Turn)
    → decode_transcript decode profile raw expected policy legacy ≡ ok (channel, turns)
    → IsTranscript decode raw expected policy legacy channel turns
unfolding decode_transcript
decode_transcript-IsTranscript decode profile raw expected policy legacy channel turns h =
    let (_, h1) = >>-eq-ok (require_profile profile) _ h in
    let (want, hw, h2) = >>=-eq-ok (hash expected) _ h1 in
    let (hg, h3) =
      >>-eq-ok (raise_if (not (is_given policy || legacy)) WireError.explicit_legacy_mode_required)
        _ h2 in
    let (p, hp, h4) = >>=-eq-ok (policy_of policy) _ h3 in
    let (b, hb, h5) = >>=-eq-ok (blob_of raw) _ h4 in
    let ((c, ts), hd, h6) = >>=-eq-ok (decode b) _ h5 in
    let (hc, h7) = >>-eq-ok (raise_if (not (same_codes c want)) WireError.channel_mismatch) _ h6 in
    let (ht, h8) = >>-eq-ok (check_turns p [] ts) _ h7 in
    let q : (c, ts) ≡ (channel, turns) = ok-injective h8 in
    subst (λ x. IsTranscript decode raw expected policy legacy x.0 x.1) q
      (assembled decode raw expected policy legacy want b c p ts hw
        (raise_if-eq-ok (not (is_given policy || legacy)) _ hg) hp hb hd
        (raise_if-eq-ok (not (same_codes c want)) _ hc) ht)
