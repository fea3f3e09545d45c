-- ===== src/Handoff/Append.antt =====
-- What an append leaves behind: the file as it was, or a file whose last record is the new one.
use Prim.Native.String.{String}
use flop_agent_intelligence.Common.{
  ℕ, ◌≡◌, refl, ◌⊎◌, inl, inr, Bool, true, false, not, Option, some, List, [], ◌∷◌, ◌++◌, map,
  arith,
}
use flop_agent_intelligence.Common.Result.{Result, ok, err, >>=-eq-ok}
use flop_agent_intelligence.Common.{ap, ◌∙◌}
use flop_agent_intelligence.Common.Exec.{pure, lift, resume, raise_when, ◌>>=◌, ◌>>◌}
use flop_agent_intelligence.Handoff.Types.{
  JournalState, Event, HandoffError, journal_transition_invalid, Binding, Body, Record, event_state,
}
use flop_agent_intelligence.Handoff.Decode.{
  is_next, row, read_chunk, Cursor, initial_cursor, check_record, advance, decode_from,
  decode_records,
}
use flop_agent_intelligence.Handoff.Journal.{
  Codec, World, Handoff, WriteFault, Approval, last_state, read_file, read, approval_hash_of,
  new_record, replace_file, append, inspect,
}

module _ (binding : Binding) (record_hash : Body → String) where
  -- Decoding rows gives the rows themselves, if it succeeds.
  decode_from-rows :
      (rs xs : List Record) (c : Cursor)
      → decode_from binding record_hash c (map row rs) ≡ ok xs
      → xs ≡ rs
  unfolding decode_from read_chunk
  decode_from-rows [] xs c h = cc
  decode_from-rows (r ∷ rs) xs c h =
      let (s, hs, h1) = >>=-eq-ok (check_record binding record_hash c r) _ h in
      let (ys, hys, h2) =
        >>=-eq-ok (decode_from binding record_hash (advance binding record_hash c r s) (map row rs))
          _ h1 in
      cc (decode_from-rows rs ys (advance binding record_hash c r s) hys)

  pub decode-rows :
      (size : ℕ) (rs xs : List Record)
      → decode_records binding record_hash size (map row rs) ≡ ok xs
      → xs ≡ rs
  unfolding decode_records
  decode-rows size [] xs h = cc
  decode-rows size (r ∷ rs) xs h = decode_from-rows (r ∷ rs) xs initial_cursor (ground arith)

last_state-snoc :
    (rs : List Record) (r : Record) (s : JournalState)
    → r.state ≡ some s
    → last_state (rs ++ r ∷ []) ≡ ok s
unfolding last_state
last_state-snoc [] r s h = rw h
last_state-snoc (x ∷ []) r s h = rw h
last_state-snoc (x ∷ y ∷ rs) r s h = last_state-snoc (y ∷ rs) r s h

module _ (codec : Codec) where
  -- The state that `inspect` reports.
  abbrev pub state_of : World → Result HandoffError JournalState
  state_of w = (inspect codec w).0

  inspect-eq :
      (w : World) (rs : List Record) → read_file codec w.file ≡ ok rs → state_of w ≡ last_state rs
  unfolding inspect read ◌>>=◌
  inspect-eq w rs e = ap (λ r. (resume r w (λ xs. lift (last_state xs))).0) e

  -- The state is read from the file, whatever else the world holds.
  pub state_of-file : (w w' : World) → w.file ≡ w'.file → state_of w ≡ state_of w'
  unfolding inspect read ◌>>=◌
  state_of-file w w' e =
      ap (λ f. (resume (read_file codec f) w (λ xs. lift (last_state xs))).0) e
      ∙ go (read_file codec w'.file)
    where
      go :
          (r : Result HandoffError (List Record))
          → (resume r w (λ xs. lift (last_state xs))).0
            ≡ (resume r w' (λ xs. lift (last_state xs))).0
      go (ok xs) = refl
      go (err x) = refl

  -- After an append: nothing changed, or a step was taken from the state before it.
  pub record Stepped (event : Event) (w w' : World) : Type 0 where
    pub prior : JournalState
    pub from : state_of w ≡ ok prior
    pub is_step : is_next prior (event_state event) ≡ true
    pub to : state_of w' ≡ ok (event_state event)
    pub posts : w'.posts ≡ w.posts
    pub signatures : w'.signatures ≡ w.signatures

  module _ (event : Event) (approval : Approval) (http_status : Option ℕ)
      (receipt_status : Option String) (created_at : String) (fault : WriteFault) (w : World) where
    abbrev pub appended : Result HandoffError Record × World
    appended = append codec event approval http_status receipt_status created_at fault w

    abbrev pub Outcome : Result HandoffError Record × World → Type 0
    Outcome (ok r, w') = Stepped event w w'
    Outcome (err e, w') = (w' ≡ w) ⊎ Stepped event w w'

    abbrev candidate_of : List Record → String → List Record
    candidate_of rs hash =
        rs ++ new_record codec rs event hash http_status receipt_status created_at ∷ []

    abbrev published : List Record → World
    published cand = record w { file = some (codec.file_size cand, map row cand) }

    published-Stepped :
        (rs : List Record) (prior : JournalState) (hash : String) (xs : List Record)
        → read_file codec w.file ≡ ok rs
        → last_state rs ≡ ok prior
        → is_next prior (event_state event) ≡ true
        → decode_records codec.binding codec.record_hash
            (codec.file_size (candidate_of rs hash))
            (map row (candidate_of rs hash))
          ≡ ok xs
        → Stepped event w (published (candidate_of rs hash))
    unfolding new_record read_file
    published-Stepped rs prior hash xs e l n d = record {
      prior = prior;
      from = inspect-eq w rs e ∙ l;
      is_step = n;
      to =
          inspect-eq (published (candidate_of rs hash)) (candidate_of rs hash)
            (d ∙ ap ok (decode-rows codec.binding codec.record_hash _ (candidate_of rs hash) xs d))
          ∙ last_state-snoc rs _ (event_state event) refl;
      posts = refl;
      signatures = refl;
    }

    with_fault :
        (rs : List Record) (prior : JournalState) (hash : String) (xs : List Record)
        → Stepped event w (published (candidate_of rs hash))
        → (f : WriteFault)
        → Outcome (
            (replace_file codec (candidate_of rs hash) f
                >> pure (new_record codec rs event hash http_status receipt_status created_at))
              w)
    unfolding replace_file ◌>>=◌
    with_fault rs prior hash xs st WriteFault.no_fault = st
    with_fault rs prior hash xs st WriteFault.before_replace = inl refl
    with_fault rs prior hash xs st WriteFault.after_replace = inr st

    decoded :
        (rs : List Record) (prior : JournalState) (hash : String)
        → read_file codec w.file ≡ ok rs
        → last_state rs ≡ ok prior
        → is_next prior (event_state event) ≡ true
        → (d : Result HandoffError (List Record))
        → decode_records codec.binding codec.record_hash
            (codec.file_size (candidate_of rs hash))
            (map row (candidate_of rs hash))
          ≡ d
        → Outcome (
            resume d w (λ _.
              replace_file codec (candidate_of rs hash) fault
              >> pure (new_record codec rs event hash http_status receipt_status created_at)))
    unfolding ◌>>=◌
    decoded rs prior hash e l n (err x) q = inl refl
    decoded rs prior hash e l n (ok xs) q =
        with_fault rs prior hash xs (published-Stepped rs prior hash xs e l n q) fault

    -- The rest of an append, from the approval's hash on.
    abbrev rest : List Record → String → Handoff Record
    rest rs hash = do
      lift (
          decode_records codec.binding codec.record_hash (codec.file_size (candidate_of rs hash))
            (map row (candidate_of rs hash)))
      replace_file codec (candidate_of rs hash) fault
      pure (new_record codec rs event hash http_status receipt_status created_at)

    hashed :
        (rs : List Record) (prior : JournalState)
        → read_file codec w.file ≡ ok rs
        → last_state rs ≡ ok prior
        → is_next prior (event_state event) ≡ true
        → (h : Result HandoffError String) → Outcome (resume h w (rest rs))
    unfolding ◌>>=◌
    hashed rs prior e l n (err x) = inl refl
    hashed rs prior e l n (ok hash) = decoded rs prior hash e l n _ refl

    checked :
        (rs : List Record) (prior : JournalState)
        → read_file codec w.file ≡ ok rs
        → last_state rs ≡ ok prior
        → (b : Bool) → is_next prior (event_state event) ≡ b
        → Outcome (
            (raise_when (not b) journal_transition_invalid
                >> (lift (approval_hash_of codec approval) >>= rest rs))
              w)
    unfolding ◌>>=◌
    checked rs prior e l true n = hashed rs prior e l n (approval_hash_of codec approval)
    checked rs prior e l false n = inl refl

    from_state :
        (rs : List Record)
        → read_file codec w.file ≡ ok rs
        → (p : Result HandoffError JournalState) → last_state rs ≡ p
        → Outcome (
            resume p w (λ prior.
              raise_when (not (is_next prior (event_state event))) journal_transition_invalid
              >> (lift (approval_hash_of codec approval) >>= rest rs)))
    unfolding ◌>>=◌
    from_state rs e (err x) l = inl refl
    from_state rs e (ok prior) l = checked rs prior e l _ refl

    from_file :
        (r : Result HandoffError (List Record))
        → read_file codec w.file ≡ r
        → Outcome (
            resume r w (λ rs. lift (last_state rs) >>= λ prior.
            raise_when (not (is_next prior (event_state event))) journal_transition_invalid
            >> (lift (approval_hash_of codec approval) >>= rest rs)))
    unfolding ◌>>=◌
    from_file (err x) e = inl refl
    from_file (ok rs) e = from_state rs e _ refl

    -- An append that returns has taken a step of the transition table to the state of its event and
    -- called neither signer nor transport; one that raises has done so too, or changed nothing.
    pub append-Outcome : Outcome appended
    unfolding append read ◌>>=◌
    append-Outcome = from_file _ refl
