-- ===== src/WireEvidence/Binding.antt =====
-- What the signed text and the capability material say of the operation.
use Prim.Native.String.{String}
use flop_agent_intelligence.Common.{
  ℕ, ◌≡◌, refl, sym, ap, ◌∙◌, Bool, true, false, not, ◌||◌, List, [], ◌∷◌, ◌++◌, ltb, ◌==◌,
  if◌then◌else◌, arith, length,
}
use flop_agent_intelligence.Common.Text.{
  is_room_codes, is_room_code, is_digit, is_revision, all_codes,
}
use flop_agent_intelligence.Common.Result.{ok, raise_if, raise_if-eq-ok, >>-eq-ok, ok-injective}
use flop_agent_intelligence.WireEvidence.Types.{
  max_protocol_nonce, room_invalid, nonce_invalid, frame_utf8_invalid, frame_too_large,
  frame_multiline, frame_syntax_invalid, signing_context_mismatch, action_invalid, revision_invalid,
  binding_invalid,
}
use flop_agent_intelligence.WireEvidence.Nonce.{is_nonce_text, decimal}
use flop_agent_intelligence.WireEvidence.Signing.{
  is_public_room, has_surrogate, utf8_length, has_line_end, is_empty, SigningContext, Challenge,
  mismatches, canonical_text, ActionClass, is_reviewed, Material, subject_of, material_builder,
  new_context, context_builder,
}

-- The part of a text before its first bar, and the part behind it.
abbrev pub until_bar : List ℕ → List ℕ
until_bar [] = []
until_bar (c ∷ cs) = if c == b'|' then [] else c ∷ until_bar cs

abbrev pub beyond_bar : List ℕ → List ℕ
beyond_bar [] = []
beyond_bar (c ∷ cs) = if c == b'|' then cs else beyond_bar cs

-- No character of a text that passes `test` everywhere is a bar.
module _ (test : ℕ → Bool) (no_bar : (c : ℕ) → test c ≡ true → (c == b'|') ≡ false) where
  until_bar-append :
      (cs rest : List ℕ) → all_codes test cs ≡ true → until_bar (cs ++ (b'|' ∷ rest)) ≡ cs
  unfolding all_codes
  until_bar-append [] rest h = refl
  until_bar-append (c ∷ cs) rest h =
      let here : test c ≡ true = ground arith in
      let there : all_codes test cs ≡ true = ground arith in
      rw (no_bar c here, until_bar-append cs rest there) refl

  beyond_bar-append :
      (cs rest : List ℕ) → all_codes test cs ≡ true → beyond_bar (cs ++ (b'|' ∷ rest)) ≡ rest
  unfolding all_codes
  beyond_bar-append [] rest h = refl
  beyond_bar-append (c ∷ cs) rest h =
      let here : test c ≡ true = ground arith in
      let there : all_codes test cs ≡ true = ground arith in
      rw (no_bar c here, beyond_bar-append cs rest there) refl

is_room_code-no_bar : (c : ℕ) → is_room_code c ≡ true → (c == b'|') ≡ false
is_room_code-no_bar c h = ground arith

is_digit-no_bar : (c : ℕ) → is_digit c ≡ true → (c == b'|') ≡ false
is_digit-no_bar c h = ground arith

is_public_room-all : (cs : List ℕ) → is_public_room cs ≡ true → all_codes is_room_code cs ≡ true
unfolding is_public_room is_room_codes all_codes
is_public_room-all [] h = refl
is_public_room-all (c ∷ cs) h = ground arith

is_nonce_text-all : (cs : List ℕ) → is_nonce_text cs ≡ true → all_codes is_digit cs ≡ true
unfolding is_nonce_text all_codes
is_nonce_text-all [] h = refl
is_nonce_text-all (c ∷ cs) h = ground arith

or-first : (a b : Bool) → (not a || b) ≡ false → a ≡ true
or-first true b h = refl
or-first false b h = cc

not-true : (a : Bool) → not a ≡ false → a ≡ true
not-true true h = refl
not-true false h = cc

abbrev pub material_of : SigningContext → ActionClass → List ℕ → String → List ℕ → List ℕ → Material
material_of context action target revision config purpose = record {
  subject = subject_of context action target revision config;
  target = target;
  payload = context.canonical;
  purpose = purpose;
}

material_builder-Material :
    (c : SigningContext) (action : ActionClass) (target : List ℕ) (revision : String)
    (config purpose : List ℕ) (m : Material)
    → material_builder c action target revision config purpose ≡ ok m
    → material_of c action target revision config purpose ≡ m
unfolding material_builder
material_builder-Material c action target revision config purpose m h =
    let (_, h1) = >>-eq-ok (raise_if (not (is_reviewed action)) action_invalid) _ h in
    let (_, h2) = >>-eq-ok (raise_if (not (is_revision revision)) revision_invalid) _ h1 in
    let blank = is_empty target || is_empty config || is_empty purpose in
    let (_, h3) = >>-eq-ok (raise_if blank binding_invalid) _ h2 in ok-injective h3

module _ (sha256 : List ℕ → String) where
  -- What a context says that was built for a room, a nonce and a text.
  pub record IsBuilt (room nonce text : List ℕ) (c : SigningContext) : Type 0 where
    pub public_room : is_public_room room ≡ true
    pub nonce_text : is_nonce_text nonce ≡ true
    pub built : new_context sha256 room nonce text ≡ c

  context_builder-IsBuilt :
      (room nonce text : List ℕ) (challenge : Challenge) (c : SigningContext)
      → context_builder sha256 room nonce text challenge ≡ ok c
      → IsBuilt room nonce text c
  unfolding context_builder
  context_builder-IsBuilt room nonce text challenge c h =
      let canonical = canonical_text room nonce text in
      let (g1, h1) = >>-eq-ok (raise_if (not (is_public_room room)) room_invalid) _ h in
      let out = not (is_nonce_text nonce) || ltb max_protocol_nonce (decimal nonce) in
      let (g2, h2) = >>-eq-ok (raise_if out nonce_invalid) _ h1 in
      let (_, h3) = >>-eq-ok (raise_if (has_surrogate text) frame_utf8_invalid) _ h2 in
      let large = ltb 16384 (utf8_length text) || ltb 4096 (length text) in
      let (_, h4) = >>-eq-ok (raise_if large frame_too_large) _ h3 in
      let (_, h5) = >>-eq-ok (raise_if (has_line_end text) frame_multiline) _ h4 in
      let (_, h6) = >>-eq-ok (raise_if (is_empty text) frame_syntax_invalid) _ h5 in
      let mismatch = mismatches challenge canonical in
      let (_, h7) = >>-eq-ok (raise_if mismatch signing_context_mismatch) _ h6 in
      record {
        public_room =
            not-true (is_public_room room)
              (raise_if-eq-ok (not (is_public_room room)) room_invalid g1);
        nonce_text =
            or-first (is_nonce_text nonce) (ltb max_protocol_nonce (decimal nonce))
              (raise_if-eq-ok out nonce_invalid g2);
        built = ok-injective h7;
      }

  -- The room, the nonce and the text of a signing context can be read back from the text that is
  -- signed, by cutting it at its first two bars.
  pub context_builder-canonical :
      (room nonce text : List ℕ) (challenge : Challenge) (c : SigningContext)
      → context_builder sha256 room nonce text challenge ≡ ok c
      → (until_bar c.canonical ≡ room)
        × (until_bar (beyond_bar c.canonical) ≡ nonce)
        × (beyond_bar (beyond_bar c.canonical) ≡ text)
  unfolding canonical_text
  context_builder-canonical room nonce text challenge c h =
      let b = context_builder-IsBuilt room nonce text challenge c h in
      let in_room = is_public_room-all room b.public_room in
      let in_nonce = is_nonce_text-all nonce b.nonce_text in
      let rest = nonce ++ (b'|' ∷ text) in
      let same : canonical_text room nonce text ≡ c.canonical =
        ap (λ (x : SigningContext). x.canonical) b.built in
      let first : until_bar c.canonical ≡ room =
        ap until_bar (sym same)
        ∙ until_bar-append is_room_code is_room_code-no_bar room rest in_room in
      let behind : beyond_bar c.canonical ≡ rest =
        ap beyond_bar (sym same)
        ∙ beyond_bar-append is_room_code is_room_code-no_bar room rest in_room in
      (
        first,
        ap until_bar behind ∙ until_bar-append is_digit is_digit-no_bar nonce text in_nonce,
        ap beyond_bar behind ∙ beyond_bar-append is_digit is_digit-no_bar nonce text in_nonce,
      )

  -- Two contexts that were built and whose capability materials are equal are for the same room,
  -- nonce and text, and the same action, target, revision, configuration and purpose.
  pub material_builder-binds :
      (room nonce text room' nonce' text' : List ℕ) (challenge challenge' : Challenge)
      (c c' : SigningContext) (action action' : ActionClass) (target target' : List ℕ)
      (revision revision' : String) (config config' purpose purpose' : List ℕ) (m : Material)
      → context_builder sha256 room nonce text challenge ≡ ok c
      → context_builder sha256 room' nonce' text' challenge' ≡ ok c'
      → material_builder c action target revision config purpose ≡ ok m
      → material_builder c' action' target' revision' config' purpose' ≡ ok m
      → ((room ≡ room') × (nonce ≡ nonce') × (text ≡ text'))
        × ((action ≡ action')
            × (target ≡ target')
            × (revision ≡ revision')
            × (config ≡ config')
            × (purpose ≡ purpose'))
  material_builder-binds room nonce text room' nonce' text' k k' c c' a a' t t' r r' v v' p p' m h
        h' g g' =
      let e =
        material_builder-Material c a t r v p m g
        ∙ sym (material_builder-Material c' a' t' r' v' p' m g') in
      let same : c.canonical ≡ c'.canonical = ap (λ (x : Material). x.payload) e in
      let (x, y, z) = context_builder-canonical room nonce text k c h in
      let (x', y', z') = context_builder-canonical room' nonce' text' k' c' h' in
      (
        (
          sym x ∙ ap until_bar same ∙ x',
          sym y ∙ ap (λ cs. until_bar (beyond_bar cs)) same ∙ y',
          sym z ∙ ap (λ cs. beyond_bar (beyond_bar cs)) same ∙ z',
        ),
        (
          ap (λ (x : Material). x.subject.action_class) e,
          ap (λ (x : Material). x.target) e,
          ap (λ (x : Material). x.subject.revision) e,
          ap (λ (x : Material). x.subject.config_version) e,
          ap (λ (x : Material). x.purpose) e,
        ),
      )
