-- ===== src/Orchestrator/Resume.antt =====
-- `resume`, `resume_external` and `complete_external_call`: an approved action runs once, under the
-- policy of the moment; an action that another runtime ran is completed.
use defiant_agent_harness.Common.{
  String, Bool, true, false, ◌&&◌, ◌||◌, Option, none, some, ltb, ◌==◌, if◌then◌else◌,
}
use defiant_agent_harness.Contracts.{ResultStatus}
use defiant_agent_harness.Policy.Types.{Action}
use defiant_agent_harness.Approvals.Types.{
  Attestation, Approval, is_pending, is_approved, is_executing,
}
use defiant_agent_harness.Approvals.Checks.{is_ended}
use defiant_agent_harness.Approvals.Queries.{validate_decision}
use defiant_agent_harness.Approvals.Operations.{decide, begin_execution, mark_consumed}
use defiant_agent_harness.Budgets.Operations.{release}
use defiant_agent_harness.Budgets.Journaled.{reservation_for}
use defiant_agent_harness.Journal.Types.{AttestationValue, Details}
use defiant_agent_harness.Orchestrator.Types.{
  Request, Cause, Guardrail, Detail, HarnessError, Host, Harness, Supply, ActionOutcome,
}
use defiant_agent_harness.Orchestrator.Monad.{
  M, ◌>>=◌, ◌>>◌, pure, require, refuse, when, lift, on_budget, ask_budget, on_approvals,
}
use defiant_agent_harness.Orchestrator.Reading.{get_approval}
use defiant_agent_harness.Orchestrator.Held.{Held, held}
use defiant_agent_harness.Orchestrator.Records.{
  sealed, control_decision, particulars, append_record,
}
use defiant_agent_harness.Orchestrator.Recovery.{amount}
use defiant_agent_harness.Orchestrator.Expiry.{draft, ids_of, perform, ending, catch_up}
use defiant_agent_harness.Orchestrator.Execute.{authorize_external, execute_action}
use defiant_agent_harness.Orchestrator.Handle.{is_block, resume_decision}

abbrev pub attestation_value : Option Attestation → AttestationValue Attestation
attestation_value none = AttestationValue.null
attestation_value (some t) = AttestationValue.object t

module _ (host : Host) (harness : Harness) where
  -- What an entry point does before it reads the approval.
  unfoldable pub settled_approval : String → Supply → M Approval
  settled_approval approval_id supply = do catch_up host harness supply; get_approval approval_id

  -- The decision of the moment: other rules than those of the approval block.
  unfoldable pub current_decision : Action → Request → Guardrail → Guardrail
  current_decision action request original =
      if original.ruleset_hash == harness.engine.ruleset_hash
      then resume_decision host harness action request
      else control_decision harness
          (Cause.policy_changed original.ruleset_hash harness.engine.ruleset_hash)

  -- `_release_reservation`
  unfoldable pub release_reservation : Approval → Supply → M (Unit {0})
  release_reservation a supply = do
    live ← ask_budget (reservation_for a.action_id)
    when (ltb 0 live) (do
      on_budget (release host.writes_budget a.request_id a.action_id supply.release_at)
      pure tt)

  -- An approval that the policy of the moment no longer supports is consumed without a run.
  unfoldable pub block_resumed :
      Approval → Action → Request → Guardrail → Option String → Supply → M ActionOutcome
  block_resumed a action request decision by supply = do
    release_reservation a supply
    r ←
        append_record host harness
          (record (particulars action request decision ResultStatus.blocked Detail.reason) {
            approved_by = by;
          })
          supply.first
    on_approvals
        (mark_consumed host.approvals a.approval_id r.body.content.record_id supply.consume_stamp)
    pure (record {
      action = action;
      decision = decision;
      status = ResultStatus.blocked;
      evidence_record_id = r.body.content.record_id;
      approval_id = a.approval_id;
      result = none;
    })

  -- The execution of an approved action: it begins in the approval store, then it is blocked or run.
  unfoldable pub run_approved :
      String → Approval → Held → Option String → Bool → Supply → M ActionOutcome
  run_approved approval_id a h by external supply = do
    let action = sealed host h.action
    let decision = current_decision action h.request h.decision
    on_approvals (
        begin_execution host.approvals approval_id action.action_id action.authorization_hash
          supply.begin_now supply.begin_stamp)
    if is_block decision.decision
        then block_resumed a action h.request decision by supply
        else if external
        then authorize_external host harness action h.request decision by approval_id supply.first
        else (do
          estimate ← ask_budget (reservation_for action.action_id)
          execute_action host harness action h.request decision estimate by approval_id supply)

  -- `resume_external`
  unfoldable pub resume_external : String → Supply → M ActionOutcome
  resume_external approval_id supply = do
    refuse harness.execution_disabled HarnessError.execution_disabled
    a ← settled_approval approval_id supply
    require (is_approved a.status) HarnessError.wrong_status
    h ← lift (λ e. e) (held host a)
    run_approved approval_id a h a.decided_by true supply

  -- The rejection of a held action, through the journal.
  unfoldable pub reject_held :
      Approval → Held → String → String → Option Attestation → Supply → M ActionOutcome
  reject_held a h decided_by note attestation supply = do
    let action = sealed host h.action
    (by, text) ← on_approvals (
        validate_decision host.approvals a.approval_id false decided_by note attestation
          supply.decide_now)
    content ←
        ending host harness
          (record (particulars action h.request h.decision ResultStatus.rejected
            (if text == "" then Detail.rejected else Detail.noted text)) { approved_by = some by })
          a supply.first
    perform host supply.first "approval_reject" (record {
      details = Details.rejects (record {
        ids = ids_of a;
        decided_by = some by;
        note = some text;
        attestation = attestation_value attestation;
      });
      amount = amount a.reserved;
      evidence = some (draft content);
    })
    pure (record {
      action = action;
      decision = h.decision;
      status = ResultStatus.rejected;
      evidence_record_id = content.record_id;
      approval_id = a.approval_id;
      result = none;
    })

  -- `resume`
  unfoldable pub resume :
      String → Bool → String → String → Option Attestation → Supply → M ActionOutcome
  resume approval_id approved decided_by note attestation supply = do
    refuse (approved && harness.execution_disabled) HarnessError.execution_disabled
    a ← settled_approval approval_id supply
    refuse (is_executing a.status || is_ended a.status) HarnessError.wrong_status
    h ← lift (λ e. e) (held host a)
    if approved
        then (do
          decided ←
              if is_pending a.status
              then on_approvals (
                  decide host.approvals approval_id true decided_by note attestation
                    supply.decide_now supply.decide_stamp)
              else pure a
          run_approved approval_id decided h (some decided_by) false supply)
        else (do
          require (is_pending a.status) HarnessError.cannot_be_rejected
          reject_held a h decided_by note attestation supply)
