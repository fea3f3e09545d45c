-- ===== src/Handoff/Tests.antt =====
-- A registration from its intent to its receipt, and instances of the theorems.
use Prim.Native.String.{String}
use flop_agent_intelligence.Common.{arith, ◌≤◌, ◌≡◌, refl, true, false, none, some, [], ◌∷◌}
use flop_agent_intelligence.Common.Result.{ok, err}
use flop_agent_intelligence.Common.Exec.{◌>>=◌}
use flop_agent_intelligence.Common.Text.{is_sha256, is_member}
use flop_agent_intelligence.Handoff.Types.{
  intent, awaiting_referee_receipt, receipt_accepted, HandoffError, event_state,
}
use flop_agent_intelligence.Handoff.Decode.{
  is_next, same_state, read_chunk, same_binding, status_invalid, receipt_of, check_record,
  decode_from, decode_records,
}
use flop_agent_intelligence.Handoff.Approval.{get, has_all, validate_approval}
use flop_agent_intelligence.Handoff.Journal.{
  by_id, Codec, World, WriteFault, last_state, last_hash, read_file, read, approval_hash_of,
  new_record, replace_file, append, inspect,
}
use flop_agent_intelligence.Handoff.Service.{
  Surroundings, Config, responded, go_on, find_approval, is_signature, response_invalid, trip,
  invoke_transport, prepare, record_event, sign, unknown_outcome, settle, post, execute,
  receipt_event, receipt_text, reconcile,
}
use flop_agent_intelligence.Handoff.Append.{Outcome, append-Outcome, state_of}
use flop_agent_intelligence.Handoff.OneShot.{post_bound, sign_bound}
use flop_agent_intelligence.Handoff.History.{
  fresh, executed, reconciled, begun, then, reach-IsOneShot, execute-reports,
}
use flop_agent_intelligence.Handoff.Blocked.{execute-blocked}

abbrev hash : String
hash = "00112233445566778899aabbccddeeff00112233445566778899aabbccddeeff"

abbrev codec : Codec
codec = record {
  binding = record {
    schema = "journal";
    journal_id = "j";
    registration_id = "r";
    packet_sha256 = hash;
    signing_target_sha256 = hash;
    nonce = "n";
  };
  record_hash = λ body. hash;
  approval_hash = λ id. hash;
  file_size = λ records. 100;
  request_length = λ did signature packet. 7;
  request_body_byte_length = 7;
}

abbrev config : Config
config = record {
  participant_did = "did";
  post_url = "url";
  expected = ("decision", "APPROVED") ∷ [];
  approvals =
      (
        hash,
        record {
          fields = ("decision", "APPROVED") ∷ [];
          approval_id = hash;
          reviewer = "alice";
          issued_at = some 1000;
          expires_at = some 2000;
        },
      )
      ∷ [];
  reviewers = "alice" ∷ [];
}

abbrev calm : Surroundings
calm = record {
  candidate = ok "packet";
  no_conflict = true;
  now = 1500;
  created_at = "now";
  locked = false;
  signer = some (
    "did", "AAAAAAAAAAAAAAAAAAAAAAAAAAAAAAAAAAAAAAAAAAAAAAAAAAAAAAAAAAAAAAAAAAAAAAAAAAAAAAAAAAAAAA",
  );
  transport = responded (record {
    status_code = 201;
    final_url = "url";
    body_length = 10;
    body_is_object = true;
    redirected = false;
    complete = true;
    tls_valid = true;
  });
  trips = λ point. go_on;
  faults = λ event. WriteFault.no_fault;
}

abbrev registered : World
registered = (execute codec config calm hash fresh).1

abbrev settled : World
settled = (reconcile codec config calm (some true) registered).1

registered-state : state_of codec registered ≡ ok awaiting_referee_receipt
unfolding execute prepare sign post settle unknown_outcome record_event append read read_file
    inspect last_state last_hash new_record approval_hash_of replace_file decode_records decode_from
    check_record is_next same_state is_sha256 read_chunk same_binding status_invalid receipt_of
    event_state find_approval get has_all is_member validate_approval is_signature response_invalid
    trip invoke_transport reconcile receipt_event receipt_text ◌>>=◌
registered-state = refl

settled-state : state_of codec settled ≡ ok receipt_accepted
unfolding execute prepare sign post settle unknown_outcome record_event append read read_file
    inspect last_state last_hash new_record approval_hash_of replace_file decode_records decode_from
    check_record is_next same_state is_sha256 read_chunk same_binding status_invalid receipt_of
    event_state find_approval get has_all is_member validate_approval is_signature response_invalid
    trip invoke_transport reconcile receipt_event receipt_text ◌>>=◌
settled-state = refl

settled-counts : settled.posts ≡ 1
unfolding execute prepare sign post settle unknown_outcome record_event append read read_file
    inspect last_state last_hash new_record approval_hash_of replace_file decode_records decode_from
    check_record is_next same_state is_sha256 read_chunk same_binding status_invalid receipt_of
    event_state find_approval get has_all is_member validate_approval is_signature response_invalid
    trip invoke_transport reconcile receipt_event receipt_text ◌>>=◌
settled-counts = refl

reach-IsOneShot_example :
    (settled.posts ≤ 1)
    × (settled.signatures ≤ 1)
    × (settled.posts ≤ post_bound (state_of codec settled))
    × (settled.signatures ≤ sign_bound (state_of codec settled))
reach-IsOneShot_example =
    reach-IsOneShot codec
      (then (then begun (executed config calm hash)) (reconciled config calm (some true)))

execute-reports_example : state_of codec registered ≡ ok awaiting_referee_receipt
unfolding execute prepare sign post settle unknown_outcome record_event append read read_file
    inspect last_state last_hash new_record approval_hash_of replace_file decode_records decode_from
    check_record is_next same_state is_sha256 read_chunk same_binding status_invalid receipt_of
    event_state find_approval get has_all is_member validate_approval is_signature response_invalid
    trip invoke_transport reconcile receipt_event receipt_text ◌>>=◌
execute-reports_example =
    execute-reports codec config calm hash
      (record { status = awaiting_referee_receipt; transport_invocations = 1 }) fresh registered
      begun refl

execute-blocked_example :
    (e : HandoffError) × (execute codec config calm hash registered ≡ (err e, registered))
unfolding execute prepare sign post settle unknown_outcome record_event append read read_file
    inspect last_state last_hash new_record approval_hash_of replace_file decode_records decode_from
    check_record is_next same_state is_sha256 read_chunk same_binding status_invalid receipt_of
    event_state find_approval get has_all is_member validate_approval is_signature response_invalid
    trip invoke_transport reconcile receipt_event receipt_text ◌>>=◌
execute-blocked_example =
    execute-blocked codec config calm hash registered awaiting_referee_receipt refl
      (λ e. grind arith)

append-Outcome_example :
    Outcome codec intent
      (by_id hash)
      none
      none
      "now"
      WriteFault.after_replace
      fresh
      (append codec intent (by_id hash) none none "now" WriteFault.after_replace fresh)
append-Outcome_example =
    append-Outcome codec intent (by_id hash) none none "now" WriteFault.after_replace fresh
