-- ===== src/Workflow/Gate.antt =====
-- The signals that the workflow's operations make, and the gate before publication.
use Prim.Native.String.{String}
use mathlib.Core.Path.{subst}
use text.Mathlib.Text.{◌==◌ as str_eq}
use flop_agent_intelligence.Common.{
  ◌≡◌, refl, sym, ap, ◌∙◌, Bool, true, false, not, ◌||◌, Option, some, if◌then◌else◌,
}
use flop_agent_intelligence.Common.Text.{is_blank, str_eq→eq}
use flop_agent_intelligence.Common.Result.{
  ok, raise_if, raise_if-eq-ok, >>=-eq-ok, >>-eq-ok, ok-injective,
}
use flop_agent_intelligence.Workflow.Signal.{
  pass, quarantined, WorkflowError, not_in_review, not_safe, reviewer_missing, reason_missing,
  not_approved, publish_not_safe, text_differs, SignalEnvelope, Assessed, is_in_review, is_approved,
  passes, prepare_signal, signer_handoff, validate_publish_approval, approve_signal, reject_signal,
}

module _ (strip : String → String) where
  -- One operation on a signal.
  pub data Step : SignalEnvelope → SignalEnvelope → Type 0 where
    approval :
        (s : SignalEnvelope) (reviewer : String) (at : Option String) (now : String)
        (s' : SignalEnvelope)
        → approve_signal strip s reviewer at now ≡ ok s'
        → Step s s'
    rejection :
        (s : SignalEnvelope) (reason : String) (s' : SignalEnvelope)
        → reject_signal strip s reason ≡ ok s'
        → Step s s'

  -- The signals that can be made of a prepared one.
  pub data Reach (start : SignalEnvelope) : SignalEnvelope → Type 0 where
    prepared : Reach start start
    followed : (s s' : SignalEnvelope) → Reach start s → Step s s' → Reach start s'

  -- A reviewer who gave a name has approved.
  pub record IsApprovedBy (s : SignalEnvelope) : Type 0 where
    pub reviewer : String
    pub named : is_blank reviewer ≡ false
    pub approved_by : s.approved_by ≡ some (strip reviewer)

  pub record IsGated (start s : SignalEnvelope) : Type 0 where
    pub text : s.recommended_text ≡ start.recommended_text
    pub safety : s.safety_result ≡ start.safety_result
    pub by_reviewer : is_approved s.state ≡ true → IsApprovedBy s

  step-IsGated : (start s s' : SignalEnvelope) → IsGated start s → Step s s' → IsGated start s'
  unfolding approve_signal reject_signal
  step-IsGated start _ _ h (approval s reviewer at now s' k) =
      let (_, h1) = >>-eq-ok (raise_if (not (is_in_review s.state)) not_in_review) _ k in
      let (_, h2) = >>-eq-ok (raise_if (not (passes s.safety_result)) not_safe) _ h1 in
      let (g, h3) = >>-eq-ok (raise_if (is_blank reviewer) reviewer_missing) _ h2 in
      subst (IsGated start) (ok-injective h3) (record {
        text = h.text;
        safety = h.safety;
        by_reviewer = λ _. record {
          reviewer = reviewer;
          named = raise_if-eq-ok (is_blank reviewer) reviewer_missing g;
          approved_by = refl;
        };
      })
  step-IsGated start _ _ h (rejection s reason s' k) =
      let (_, h1) = >>-eq-ok (raise_if (not (is_in_review s.state)) not_in_review) _ k in
      let (_, h2) = >>-eq-ok (raise_if (is_blank reason) reason_missing) _ h1 in
      subst (IsGated start) (ok-injective h2)
        (record { text = h.text; safety = h.safety; by_reviewer = λ q. cc q })

  reach-IsGated :
      (start s : SignalEnvelope) → is_approved start.state ≡ false → Reach start s → IsGated start s
  reach-IsGated start _ u prepared = record {
    text = refl;
    safety = refl;
    by_reviewer = λ q. cc (q, u);
  }
  reach-IsGated start _ u (followed m s r k) = step-IsGated start m s (reach-IsGated start m u r) k

not-passed : (b : Bool) (e : WorkflowError) → raise_if (not b) e ≡ ok tt → b ≡ true
not-passed true e h = refl
not-passed false e h = cc

-- Why a signal may be published: its text, its safety, its approval.
pub record IsPublishable (s : SignalEnvelope) (text : String) : Type 0 where
  pub same_text : s.recommended_text ≡ text
  pub safe : passes s.safety_result ≡ true
  pub decided : is_approved s.state ≡ true

validate_publish_approval-IsPublishable :
    (s : SignalEnvelope) (text : String)
    → validate_publish_approval s text ≡ ok tt
    → IsPublishable s text
unfolding validate_publish_approval signer_handoff
validate_publish_approval-IsPublishable s text h =
    let (handoff, h0, h1) = >>=-eq-ok (signer_handoff s) _ h in
    let (g, _) = >>-eq-ok (raise_if (not (is_approved s.state)) not_approved) _ h0 in
    let (safe, last) = >>-eq-ok (raise_if (not (passes s.safety_result)) publish_not_safe) _ h1 in
    let equal = not-passed (str_eq s.recommended_text text) text_differs last in
    record {
      same_text = str_eq→eq s.recommended_text text equal;
      safe = not-passed (passes s.safety_result) publish_not_safe safe;
      decided = not-passed (is_approved s.state) not_approved g;
    }

passes-no_review : (b : Bool) → passes (if b then quarantined else pass) ≡ true → b ≡ false
passes-no_review true h = cc
passes-no_review false h = refl

-- Whatever is done to a signal after its preparation, it may be published only with the text that was
-- recommended when it was prepared, if the classifier asked for no review and did not tell to ignore
-- it, and after a reviewer with a name has approved it.
pub publish-IsGated :
    (strip : String → String) (a : Assessed) (source_evidence summary recommended_text : String)
    (detected_at : Option String) (now : String) (s : SignalEnvelope) (text : String)
    → Reach strip (prepare_signal a source_evidence summary recommended_text detected_at now) s
    → validate_publish_approval s text ≡ ok tt
    → (text ≡ recommended_text)
      × ((a.security_review_required || str_eq a.category "IGNORE") ≡ false)
      × IsApprovedBy strip s
unfolding prepare_signal
publish-IsGated strip a evidence summary recommended at now s text reach h =
    let start = prepare_signal a evidence summary recommended at now in
    let g = reach-IsGated strip start s refl reach in
    let p = validate_publish_approval-IsPublishable s text h in
    (
      sym p.same_text ∙ g.text,
      passes-no_review (a.security_review_required || str_eq a.category "IGNORE")
          (ap passes (sym g.safety) ∙ p.safe),
      g.by_reviewer p.decided,
    )
