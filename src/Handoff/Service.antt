-- ===== src/Handoff/Service.antt =====
-- `execute` and `reconcile` of `_build_handoff` in sonnet_registration_handoff.py.
use Prim.Native.String.{String}
use Prim.Native.Char.{code}
use text.Mathlib.Text.{◌==◌ as str_eq}
use flop_agent_intelligence.Common.{
  ℕ, suc, Bool, true, false, not, ◌&&◌, ◌||◌, Option, none, some, List, [], ◌∷◌, ltb, leb, ◌==◌,
  if◌then◌else◌,
}
use flop_agent_intelligence.Common.Result.{Result, ok, err, or_raise}
use flop_agent_intelligence.Common.Exec.{pure, raise, lift, modify, raise_when, ◌>>=◌, ◌>>◌}
use flop_agent_intelligence.Handoff.Types.{
  max_response_bytes, JournalState, not_started, awaiting_referee_receipt, write_outcome_unknown,
  receipt_accepted, receipt_rejected, Event, intent, local_signature, post_attempt, post_response,
  await_receipt, accepted, rejected, outcome_unknown, HandoffError, journal_already_used,
  journal_intent_required, journal_locked, approval_not_issued, approval_id_mismatch,
  approval_already_used, registration_state_unresolved, identity_did_mismatch, signature_invalid,
  request_body_size_invalid, receipt_already_recorded, receipt_unverified, other_error, Record,
}
use flop_agent_intelligence.Handoff.Decode.{same_state}
use flop_agent_intelligence.Handoff.Journal.{
  Codec, World, WriteFault, Handoff, by_id, by_hash, read, append, inspect,
}
use flop_agent_intelligence.Handoff.Approval.{Artifact, validate_approval}
use flop_agent_intelligence.Common.Text.{is_member}

-- Where a fault can be injected, and what it does: nothing, an error that the handler of the
-- transport catches, or another one.
pub data TripPoint : Type 0 where
  after_intent after_local_signature before_post_attempt_record after_post_attempt : TripPoint
  after_transport_invocation : TripPoint

pub data TripResult : Type 0 where
  go_on raise_transport raise_other : TripResult

pub record Observation : Type 0 where
  pub status_code : ℕ
  pub final_url : String
  pub body_length : ℕ
  pub body_is_object : Bool
  pub redirected : Bool
  pub complete : Bool
  pub tls_valid : Bool

pub data TransportResult : Type 0 where
  responded : Observation → TransportResult
  transport_error other_failure : TransportResult

pub record Config : Type 0 where
  pub participant_did : String
  pub post_url : String
  pub expected : List (String × String)
  pub approvals : List (String × Artifact)
  pub reviewers : List String

-- What one call meets: the packet or the refusal of `validate_candidate`, the registration check,
-- the clock, the lock, the signer, the transport, the faults.
pub record Surroundings : Type 0 where
  pub candidate : Result HandoffError String
  pub no_conflict : Bool
  pub now : ℕ
  pub created_at : String
  pub locked : Bool
  pub signer : Option (String × String)
  pub transport : TransportResult
  pub trips : TripPoint → TripResult
  pub faults : Event → WriteFault

pub record ExecuteResult : Type 0 where
  pub status : JournalState
  pub transport_invocations : ℕ

unfoldable pub find_approval : String → List (String × Artifact) → Option Artifact
find_approval id [] = none
find_approval id ((k, a) ∷ rest) = if str_eq k id then some a else find_approval id rest

-- base64url digits
is_signature_char : ℕ → Bool
is_signature_char c =
    (leb b'A' c && leb c b'Z')
    || (leb b'a' c && leb c b'z')
    || (leb b'0' c && leb c b'9')
    || c == b'-'
    || c == b'_'

all_signature : String → Bool
unfolding is_signature_char
all_signature String.[] = true
all_signature (String.◌∷◌ c s) = is_signature_char (code c) && all_signature s

count_chars : String → ℕ
count_chars String.[] = 0
count_chars (String.◌∷◌ c s) = suc (count_chars s)

unfoldable pub is_signature : String → Bool
unfolding count_chars all_signature
is_signature s = count_chars s == 86 && all_signature s

unfoldable pub response_invalid : String → Observation → Bool
response_invalid post_url o =
    o.redirected
    || not (str_eq o.final_url post_url)
    || not o.tls_valid
    || not o.complete
    || not (leb 200 o.status_code && ltb o.status_code 300)
    || ltb max_response_bytes o.body_length
    || not o.body_is_object

unfoldable pub trip : Surroundings → TripPoint → Handoff (Unit {0})
trip env point = elim (env.trips point) [ go_on ↦ pure tt | _ ↦ raise other_error ]

abbrev pub call_signer : Surroundings → Handoff (String × String)
call_signer env w = (or_raise env.signer other_error, record w { signatures = suc w.signatures })

abbrev pub mark_used : String → World → World
mark_used id w = record w { used = id ∷ w.used }

abbrev pub guard_unused : String → Handoff (Unit {0})
guard_unused id w = raise_when (is_member id w.used) approval_already_used w

-- The transport's outcome, with the fault that may follow the call: what the handler catches is
-- `none`, and every other error goes through.
unfoldable pub invoke_transport : Surroundings → Handoff (Option Observation)
invoke_transport env w = (
  elim env.transport [
    | transport_error ↦ ok none
    | other_failure ↦ err other_error
    | responded o ↦ elim (env.trips after_transport_invocation) [
      | go_on ↦ ok (some o)
      | raise_transport ↦ ok none
      | raise_other ↦ err other_error
    ]
  ],
  record w { posts = suc w.posts },
)

module _ (codec : Codec) (config : Config) where
  -- The checks before the lock.
  unfoldable pub prepare : Surroundings → String → Handoff String
  prepare env approval_id = do
    packet ← lift env.candidate
    raise_when (not env.no_conflict) registration_state_unresolved
    artifact ← lift (or_raise (find_approval approval_id config.approvals) approval_not_issued)
    validated ← lift (validate_approval config.expected config.reviewers artifact env.now)
    raise_when (not (str_eq validated.approval_id approval_id)) approval_id_mismatch
    pure packet

  unfoldable pub record_event : Surroundings → String → Event → Option ℕ → Handoff Record
  record_event env approval_id event status =
      append codec event (by_id approval_id) status none env.created_at (env.faults event)

  -- The intent is on disk before the key is used.
  unfoldable pub sign : Surroundings → String → Handoff (String × String)
  sign env approval_id = do
    guard_unused approval_id
    state ← inspect codec
    raise_when (not (same_state state not_started)) journal_already_used
    record_event env approval_id intent none
    modify (mark_used approval_id)
    trip env after_intent
    signed ← call_signer env
    raise_when (not (str_eq signed.0 config.participant_did)) identity_did_mismatch
    raise_when (not (is_signature signed.1)) signature_invalid
    record_event env approval_id local_signature none
    trip env after_local_signature
    pure signed

  unfoldable pub unknown_outcome : Surroundings → String → Handoff ExecuteResult
  unknown_outcome env approval_id = do
    record_event env approval_id outcome_unknown none
    pure (record { status = write_outcome_unknown; transport_invocations = 1 })

  unfoldable pub settle : Surroundings → String → Option Observation → Handoff ExecuteResult
  settle env approval_id none = unknown_outcome env approval_id
  settle env approval_id (some response) =
      if response_invalid config.post_url response then unknown_outcome env approval_id else do
        record_event env approval_id post_response (some response.status_code)
        record_event env approval_id await_receipt none
        pure (record { status = awaiting_referee_receipt; transport_invocations = 1 })

  -- The attempt is on disk before the one call of the transport.
  unfoldable pub post : Surroundings → String → String → String × String → Handoff ExecuteResult
  post env approval_id packet signed = do
    raise_when
        (not (codec.request_length signed.0 signed.1 packet == codec.request_body_byte_length))
        request_body_size_invalid
    trip env before_post_attempt_record
    record_event env approval_id post_attempt none
    trip env after_post_attempt
    response ← invoke_transport env
    settle env approval_id response

  unfoldable pub execute : Surroundings → String → Handoff ExecuteResult
  execute env approval_id = do
    packet ← prepare env approval_id
    raise_when env.locked journal_locked
    signed ← sign env approval_id
    post env approval_id packet signed

  abbrev pub first_approval : List Record → Result HandoffError String
  first_approval [] = err other_error
  first_approval (r ∷ _) = ok r.approval_id_sha256

  -- `outcome` is what `receipt_classifier` makes of the receipt: accepted, rejected or neither.
  unfoldable pub receipt_event : Option Bool → Result HandoffError Event
  receipt_event none = err receipt_unverified
  receipt_event (some true) = ok accepted
  receipt_event (some false) = ok rejected

  unfoldable pub receipt_text : Event → Option String
  receipt_text accepted = some "accepted"
  receipt_text _ = some "rejected"

  unfoldable pub reconcile : Surroundings → Option Bool → Handoff Event
  reconcile env outcome = do
    raise_when env.locked journal_locked
    state ← inspect codec
    raise_when (same_state state not_started) journal_intent_required
    raise_when (same_state state receipt_accepted || same_state state receipt_rejected)
        receipt_already_recorded
    event ← lift (receipt_event outcome)
    records ← read codec
    hash ← lift (first_approval records)
    append codec event (by_hash hash) none (receipt_text event) env.created_at (env.faults event)
    pure event
