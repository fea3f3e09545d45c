-- ===== src/Yellowpaper/Encoded.antt =====
-- Decode policies as records, their bytes, and what `decode_policy_hash` accepts.
use mathlib.Core.Path.{subst}
use mathlib.Core.List.{append-nil}
use flop_agent_intelligence.Common.{
  ℕ, ◌≤◌, ◌≡◌, ◌↔◌, refl, sym, ap, ◌∙◌, Bool, true, false, not, List, [], ◌∷◌, ◌++◌, ltb, ◌==◌,
  if◌then◌else◌, length, length-append, arith,
}
use flop_agent_intelligence.Common.Result.{
  ok, raise_if, >>=-eq-ok, >>-eq-ok, raise_if-eq-ok, ok-injective,
}
use flop_agent_intelligence.Yellowpaper.Arguments.{WireError, bytes}
use flop_agent_intelligence.Yellowpaper.Policy.{
  take, skip, take_one, skip_if, is_version_one, is_empty, check_tail, check_policy, policy_domain,
  decode_policy_hash,
}
use flop_agent_intelligence.Yellowpaper.Taken.{
  take-Taken, skip-Taken, skip_if-Taken, skip-append, skip-all, skip_if-append, take_one-cons,
  version-is, empty-is, below, not-below,
}

pub record Policy : Type 0 where
  pub tag : ℕ
  pub detail : List ℕ
  pub tokenizer : List ℕ
  pub sampling : List ℕ
  pub stop : List ℕ
  pub transform : ℕ
  pub output : List ℕ
  pub class_policy : List ℕ

abbrev pub tail_bytes : Policy → List ℕ
tail_bytes p =
    p.tokenizer ++ (p.sampling ++ (p.stop ++ (p.transform ∷ (p.output ++ p.class_policy))))

abbrev pub policy_bytes : Policy → List ℕ
policy_bytes p = 1 ∷ 0 ∷ p.tag ∷ (p.detail ++ tail_bytes p)

-- The sizes of the parts; only tag 4 has a detail, and only transform 1 an output hash.
pub record IsPolicy (p : Policy) : Type 0 where
  pub tag_in : p.tag ≤ 4
  pub detail_size : length p.detail ≡ (if p.tag == 4 then 2 else 0)
  pub tokenizer_size : length p.tokenizer ≡ 32
  pub sampling_size : length p.sampling ≡ 26
  pub stop_size : length p.stop ≡ 32
  pub transform_in : p.transform ≤ 1
  pub output_size : length p.output ≡ (if p.transform == 1 then 32 else 0)
  pub class_size : length p.class_policy ≡ 32

pub record IsEncoded (sha256 : List ℕ → List ℕ) (raw digest : List ℕ) : Type 0 where
  pub policy : Policy
  pub formed : IsPolicy policy
  pub raw_is : raw ≡ policy_bytes policy
  pub digest_is : digest ≡ sha256 (policy_domain ++ raw)

-- The tail of a policy's bytes.
check_tail-append : (p : Policy) → IsPolicy p → check_tail (tail_bytes p) ≡ ok tt
unfolding check_tail take_one
check_tail-append p h =
    rw
      (
        skip-append 32 p.tokenizer
            (p.sampling ++ (p.stop ++ (p.transform ∷ (p.output ++ p.class_policy))))
            h.tokenizer_size,
        skip-append 26 p.sampling (p.stop ++ (p.transform ∷ (p.output ++ p.class_policy)))
            h.sampling_size,
        skip-append 32 p.stop (p.transform ∷ (p.output ++ p.class_policy)) h.stop_size,
        not-below 1 p.transform h.transform_in,
        skip_if-append (p.transform == 1) 32 p.output p.class_policy h.output_size,
        skip-all 32 p.class_policy h.class_size,
      )
      refl

check_policy-append : (p : Policy) → IsPolicy p → check_policy (policy_bytes p) ≡ ok tt
unfolding check_policy take take_one
check_policy-append p h =
    rw
      (
        not-below 4 p.tag h.tag_in,
        skip_if-append (p.tag == 4) 2 p.detail (tail_bytes p) h.detail_size,
      )
      (check_tail-append p h)

if-at_most : (b : Bool) (n : ℕ) → (if b then n else 0) ≤ n
if-at_most true n = omega arith
if-at_most false n = omega arith

policy_bytes-small : (p : Policy) → IsPolicy p → length (policy_bytes p) ≤ 256
policy_bytes-small p h =
    let a = if-at_most (p.tag == 4) 2 in
    let b = if-at_most (p.transform == 1) 32 in
    let d : length p.detail ≤ 2 = subst (λ n. n ≤ 2) (sym h.detail_size) a in
    let o : length p.output ≤ 32 = subst (λ n. n ≤ 32) (sym h.output_size) b in
    omega (
      arith,
      d,
      o,
      h.tokenizer_size,
      h.sampling_size,
      h.stop_size,
      h.class_size,
      length-append p.detail (tail_bytes p),
      length-append p.tokenizer
          (p.sampling ++ (p.stop ++ (p.transform ∷ (p.output ++ p.class_policy)))),
      length-append p.sampling (p.stop ++ (p.transform ∷ (p.output ++ p.class_policy))),
      length-append p.stop (p.transform ∷ (p.output ++ p.class_policy)),
      length-append p.output p.class_policy,
    )

-- The parts that a tail was cut into.
pub record Tail (raw : List ℕ) : Type 0 where
  pub tokenizer : List ℕ
  pub sampling : List ℕ
  pub stop : List ℕ
  pub transform : ℕ
  pub output : List ℕ
  pub class_policy : List ℕ
  pub tokenizer_size : length tokenizer ≡ 32
  pub sampling_size : length sampling ≡ 26
  pub stop_size : length stop ≡ 32
  pub transform_in : transform ≤ 1
  pub output_size : length output ≡ (if transform == 1 then 32 else 0)
  pub class_size : length class_policy ≡ 32
  pub raw_is : raw ≡ tokenizer ++ (sampling ++ (stop ++ (transform ∷ (output ++ class_policy))))

check_tail-Tail : (raw : List ℕ) → check_tail raw ≡ ok tt → Tail raw
unfolding check_tail
check_tail-Tail raw h =
    let (r1, q1, h1) = >>=-eq-ok (skip 32 raw) _ h in
    let (r2, q2, h2) = >>=-eq-ok (skip 26 r1) _ h1 in
    let (r3, q3, h3) = >>=-eq-ok (skip 32 r2) _ h2 in
    let ((t, r4), q4, h4) = >>=-eq-ok (take_one r3) _ h3 in
    let (g, h5) = >>-eq-ok (raise_if (ltb 1 t) WireError.unknown_output_transform) _ h4 in
    let (r5, q5, h6) = >>=-eq-ok (skip_if (t == 1) 32 r4) _ h5 in
    let (r6, q6, h7) = >>=-eq-ok (skip 32 r5) _ h6 in
    let e : r6 ≡ [] = empty-is r6 (raise_if-eq-ok (not (is_empty r6)) _ h7) in
    let (a, ta) = skip-Taken 32 raw r1 q1 in
    let (b, tb) = skip-Taken 26 r1 r2 q2 in
    let (c, tc) = skip-Taken 32 r2 r3 q3 in
    let (o, to) = skip_if-Taken (t == 1) 32 r4 r5 q5 in
    let (k, tk) = skip-Taken 32 r5 r6 q6 in
    record {
      tokenizer = a;
      sampling = b;
      stop = c;
      transform = t;
      output = o;
      class_policy = k;
      tokenizer_size = ta.size;
      sampling_size = tb.size;
      stop_size = tc.size;
      transform_in = below 1 t (raise_if-eq-ok (ltb 1 t) _ g);
      output_size = to.size;
      class_size = tk.size;
      raw_is =
          joined raw r1 r2 r3 r4 r5 r6 a b c o k t ta.raw_is tb.raw_is tc.raw_is
            (take_one-cons r3 t r4 q4) to.raw_is tk.raw_is e;
    }
  where
    joined :
        (raw r1 r2 r3 r4 r5 r6 a b c o k : List ℕ) (t : ℕ)
        → raw ≡ a ++ r1
        → r1 ≡ b ++ r2
        → r2 ≡ c ++ r3
        → r3 ≡ t ∷ r4
        → r4 ≡ o ++ r5
        → r5 ≡ k ++ r6
        → r6 ≡ []
        → raw ≡ a ++ (b ++ (c ++ (t ∷ (o ++ k))))
    joined raw r1 r2 r3 r4 r5 r6 a b c o k t e1 e2 e3 e4 e5 e6 e7 =
        e1
        ∙ ap (λ v. a ++ v)
            (e2
              ∙ ap (λ v. b ++ v)
                  (e3
                    ∙ ap (λ v. c ++ v)
                        (e4
                          ∙ ap (λ (v : List ℕ). t ∷ v)
                              (e5 ∙ ap (λ v. o ++ v) (e6 ∙ ap (λ v. k ++ v) e7 ∙ append-nil k)))))

policy_of_tail : ℕ → List ℕ → (raw : List ℕ) → Tail raw → Policy
policy_of_tail tag detail raw t = record {
  tag = tag;
  detail = detail;
  tokenizer = t.tokenizer;
  sampling = t.sampling;
  stop = t.stop;
  transform = t.transform;
  output = t.output;
  class_policy = t.class_policy;
}

check_policy-IsPolicy :
    (raw : List ℕ) → check_policy raw ≡ ok tt → (p : Policy) × IsPolicy p × (raw ≡ policy_bytes p)
unfolding check_policy policy_of_tail
check_policy-IsPolicy raw h =
    let ((v, r1), q1, h1) = >>=-eq-ok (take 2 raw) _ h in
    let (g, h2) =
      >>-eq-ok (raise_if (not (is_version_one v)) WireError.unknown_policy_version) _ h1 in
    let ((tag, r2), q2, h3) = >>=-eq-ok (take_one r1) _ h2 in
    let (k, h4) = >>-eq-ok (raise_if (ltb 4 tag) WireError.unknown_policy_class) _ h3 in
    let (r3, q3, h5) = >>=-eq-ok (skip_if (tag == 4) 2 r2) _ h4 in
    let (d, td) = skip_if-Taken (tag == 4) 2 r2 r3 q3 in
    let t = check_tail-Tail r3 h5 in
    let tv = take-Taken 2 raw v r1 q1 in
    (
      policy_of_tail tag d r3 t,
      record {
        tag_in = below 4 tag (raise_if-eq-ok (ltb 4 tag) _ k);
        detail_size = td.size;
        tokenizer_size = t.tokenizer_size;
        sampling_size = t.sampling_size;
        stop_size = t.stop_size;
        transform_in = t.transform_in;
        output_size = t.output_size;
        class_size = t.class_size;
      },
      joined raw v r1 r2 r3 d tag _ tv.raw_is
          (version-is v (raise_if-eq-ok (not (is_version_one v)) _ g)) (take_one-cons r1 tag r2 q2)
          td.raw_is t.raw_is,
    )
  where
    joined :
        (raw v r1 r2 r3 d : List ℕ) (tag : ℕ) (tail : List ℕ)
        → raw ≡ v ++ r1
        → v ≡ 1 ∷ 0 ∷ []
        → r1 ≡ tag ∷ r2
        → r2 ≡ d ++ r3
        → r3 ≡ tail
        → raw ≡ 1 ∷ 0 ∷ tag ∷ (d ++ tail)
    joined raw v r1 r2 r3 d tag tail e1 e2 e3 e4 e5 =
        e1
        ∙ ap (λ x. x ++ r1) e2
        ∙ ap (λ (x : List ℕ). 1 ∷ 0 ∷ x)
            (e3 ∙ ap (λ (x : List ℕ). tag ∷ x) (e4 ∙ ap (λ x. d ++ x) e5))

-- Bytes have a policy hash exactly if they are those of a well-formed policy: version 1, a tag of at
-- most 4 with two bytes more for tag 4 alone, the parts of fixed size, a transform of at most 1 with
-- an output hash for transform 1 alone, and nothing behind; the hash is that of the domain and exactly
-- these bytes.
pub decode_policy_hash-IsEncoded :
    (sha256 : List ℕ → List ℕ) (raw digest : List ℕ)
    → (decode_policy_hash sha256 (bytes raw) ≡ ok digest) ↔ IsEncoded sha256 raw digest
unfolding decode_policy_hash
decode_policy_hash-IsEncoded sha256 raw digest = (forth, back)
  where
    forth : decode_policy_hash sha256 (bytes raw) ≡ ok digest → IsEncoded sha256 raw digest
    forth h =
        let (_, h1) =
          >>-eq-ok (raise_if (ltb 256 (length raw)) WireError.decode_policy_invalid) _ h in
        let (c, h2) = >>-eq-ok (check_policy raw) _ h1 in
        let (p, f, e) = check_policy-IsPolicy raw c in
        record { policy = p; formed = f; raw_is = e; digest_is = sym (ok-injective h2) }

    back : IsEncoded sha256 raw digest → decode_policy_hash sha256 (bytes raw) ≡ ok digest
    back h =
        let c : check_policy raw ≡ ok tt =
          ap check_policy h.raw_is ∙ check_policy-append h.policy h.formed in
        let s : length raw ≤ 256 =
          subst (λ v. length v ≤ 256) (sym h.raw_is) (policy_bytes-small h.policy h.formed) in
        rw (not-below 256 (length raw) s, c) (ap ok (sym h.digest_is))
