-- ===== src/Workflow/Signal.antt =====
-- `prepare_signal`, `approve_signal`, `reject_signal`, `signer_handoff` and `validate_publish_approval`
-- of workflow.py.
use Prim.Native.String.{String}
use text.Mathlib.Text.{◌==◌ as str_eq}
use flop_agent_intelligence.Common.{
  ℕ, Bool, true, false, not, ◌||◌, Option, none, some, if◌then◌else◌,
}
use flop_agent_intelligence.Common.Text.{is_blank}
use flop_agent_intelligence.Common.Result.{Result, ok, ◌>>=◌, ◌>>◌, raise_if}

pub data WorkflowState : Type 0 where
  detected review_required approved published rejected : WorkflowState

pub data SafetyResult : Type 0 where
  pass quarantined : SafetyResult

pub data WorkflowError : Type 0 where
  not_in_review not_safe reviewer_missing reason_missing : WorkflowError
  not_approved publish_not_safe text_differs : WorkflowError

pub record SignalEnvelope : Type 0 where
  pub state : WorkflowState
  pub classification : String
  pub source_id : String
  pub source_tier : ℕ
  pub source_evidence : String
  pub summary : String
  pub safety_result : SafetyResult
  pub recommended_text : String
  pub detected_at : String
  pub approval_status : WorkflowState
  pub approved_at : Option String
  pub approved_by : Option String
  pub rejection_reason : Option String

-- What the classifier and the source policy say of a text and its source.
pub record Assessed : Type 0 where
  pub source_id : String
  pub source_tier : ℕ
  pub category : String
  pub security_review_required : Bool

abbrev pub is_in_review : WorkflowState → Bool
is_in_review review_required = true
is_in_review _ = false

abbrev pub is_approved : WorkflowState → Bool
is_approved approved = true
is_approved _ = false

abbrev pub passes : SafetyResult → Bool
passes pass = true
passes quarantined = false

-- `given or now`
abbrev pub or_now : Option String → String → String
or_now none now = now
or_now (some given) now = if str_eq given "" then now else given

unfoldable pub prepare_signal :
    Assessed → String → String → String → Option String → String → SignalEnvelope
prepare_signal a source_evidence summary recommended_text detected_at now = record {
  state = review_required;
  classification = a.category;
  source_id = a.source_id;
  source_tier = a.source_tier;
  source_evidence = source_evidence;
  summary = summary;
  safety_result =
      if a.security_review_required || str_eq a.category "IGNORE" then quarantined else pass;
  recommended_text = recommended_text;
  detected_at = or_now detected_at now;
  approval_status = review_required;
  approved_at = none;
  approved_by = none;
  rejection_reason = none;
}

pub record Handoff : Type 0 where
  pub classification : String
  pub source : String
  pub summary : String
  pub recommended_text : String
  pub approval_status : WorkflowState
  pub approved_at : Option String
  pub approved_by : Option String

unfoldable pub signer_handoff : SignalEnvelope → Result WorkflowError Handoff
signer_handoff s = do
  raise_if (not (is_approved s.state)) not_approved
  ok (record {
    classification = s.classification;
    source = s.source_evidence;
    summary = s.summary;
    recommended_text = s.recommended_text;
    approval_status = s.approval_status;
    approved_at = s.approved_at;
    approved_by = s.approved_by;
  })

unfoldable pub validate_publish_approval : SignalEnvelope → String → Result WorkflowError (Unit {0})
validate_publish_approval s text = do
  handoff ← signer_handoff s
  raise_if (not (passes s.safety_result)) publish_not_safe
  raise_if (not (str_eq s.recommended_text text)) text_differs

-- `strip` is `str.strip`.
module _ (strip : String → String) where
  abbrev pub approved_signal : SignalEnvelope → String → Option String → String → SignalEnvelope
  approved_signal s reviewer approved_at now = record s {
    state = approved;
    approval_status = approved;
    approved_at = some (or_now approved_at now);
    approved_by = some (strip reviewer);
  }

  unfoldable pub approve_signal :
      SignalEnvelope → String → Option String → String → Result WorkflowError SignalEnvelope
  approve_signal s reviewer approved_at now = do
    raise_if (not (is_in_review s.state)) not_in_review
    raise_if (not (passes s.safety_result)) not_safe
    raise_if (is_blank reviewer) reviewer_missing
    ok (approved_signal s reviewer approved_at now)

  abbrev pub rejected_signal : SignalEnvelope → String → SignalEnvelope
  rejected_signal s reason = record s {
    state = rejected;
    approval_status = rejected;
    rejection_reason = some (strip reason);
  }

  unfoldable pub reject_signal : SignalEnvelope → String → Result WorkflowError SignalEnvelope
  reject_signal s reason = do
    raise_if (not (is_in_review s.state)) not_in_review
    raise_if (is_blank reason) reason_missing
    ok (rejected_signal s reason)
