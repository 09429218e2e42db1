-- ===== src/Orchestrator/Operator.antt =====
-- `reconcile_execution` and `reconcile_authorization`: what an operator reports of an execution whose
-- outcome the harness does not know.
use defiant_agent_harness.Common.{
  ℕ, String, Bool, true, false, ◌&&◌, ◌||◌, Option, none, some, ◌==◌,
}
use defiant_agent_harness.Common.Text.{strip}
use defiant_agent_harness.Contracts.{ResultStatus}
use defiant_agent_harness.Policy.Types.{Action}
use defiant_agent_harness.Approvals.Types.{Approval, Attestation}
use defiant_agent_harness.Approvals.Types.{Outcome as ApprovalOutcome}
use defiant_agent_harness.Approvals.Reconcile.{begin_reconciliation, mark_reconciled}
use defiant_agent_harness.Budgets.Types.{Outcome, Reconciliation}
use defiant_agent_harness.Budgets.Operations.{exposure_for}
use defiant_agent_harness.Budgets.Journaled.{prior_debit_for}
use defiant_agent_harness.Budgets.Reconcile.{reconcile_reservation, same_outcome}
use defiant_agent_harness.Evidence.Types.{Content, EvidenceRecord}
use defiant_agent_harness.Journal.Types.{AuthorizationSubject, AttestationValue, Details}
use defiant_agent_harness.Journal.Validate.{is_status}
use defiant_agent_harness.Tools.Types.{ToolStatus, Summary, Output, ToolResult}
use defiant_agent_harness.Orchestrator.Types.{
  Request, Guardrail, Detail, HarnessError, Host, Harness, Supply, ActionOutcome,
}
use defiant_agent_harness.Orchestrator.Monad.{
  M, ◌>>=◌, ◌>>◌, pure, require, refuse, or_raise, lift, on_budget, ask_budget, on_approvals,
}
use defiant_agent_harness.Orchestrator.Reading.{
  get_record, authorization_terminal, get_approval, require_no_approval, authorization_of,
  require_authorization_identity,
}
use defiant_agent_harness.Orchestrator.Held.{held_action, held_request, held_decision}
use defiant_agent_harness.Orchestrator.Records.{sealed, particulars, append_record}
use defiant_agent_harness.Orchestrator.Recovery.{amount, recover_operation}
use defiant_agent_harness.Orchestrator.Expiry.{draft, require_safe, perform}

-- `terminal_outcomes` of `reconcile_execution`.
unfoldable pub outcome_of_status : ResultStatus → Option Outcome
outcome_of_status ResultStatus.succeeded = some Outcome.succeeded
outcome_of_status ResultStatus.failed = some Outcome.failed
outcome_of_status ResultStatus.not_executed = some Outcome.not_executed
outcome_of_status ResultStatus.blocked = some Outcome.not_executed
outcome_of_status ResultStatus.rejected = some Outcome.not_executed
outcome_of_status ResultStatus.expired = some Outcome.not_executed
outcome_of_status s = none

unfoldable pub status_of : Outcome → ResultStatus
status_of Outcome.succeeded = ResultStatus.succeeded
status_of Outcome.failed = ResultStatus.failed
status_of Outcome.not_executed = ResultStatus.not_executed

unfoldable pub name_of : Outcome → String
name_of Outcome.succeeded = "succeeded"
name_of Outcome.failed = "failed"
name_of Outcome.not_executed = "not_executed"

abbrev pub for_approval : Outcome → ApprovalOutcome
for_approval Outcome.succeeded = ApprovalOutcome.succeeded
for_approval Outcome.failed = ApprovalOutcome.failed
for_approval Outcome.not_executed = ApprovalOutcome.not_executed

abbrev pub is_outcome : Outcome → Option Outcome → Bool
is_outcome o none = false
is_outcome o (some p) = same_outcome p o

-- The operator's outcome agrees with the terminal evidence that is there.
unfoldable pub agrees_with : Outcome → Option EvidenceRecord → Bool
agrees_with o none = true
agrees_with o (some r) = is_outcome o (outcome_of_status r.body.content.result_status)

-- The result that an operator's outcome stands for; an action that did not run has none.
unfoldable pub reconciled_result : Outcome → ℕ → Option ToolResult
reconciled_result Outcome.not_executed charged = none
reconciled_result o charged = some (record {
  status = elim o [ Outcome.succeeded ↦ ToolStatus.succeeded | _ ↦ ToolStatus.failed ];
  summary = Summary.said "operator reconciled an uncertain execution";
  output = Output.value "operator_reconciled";
  cost = charged;
  dry_run = false;
})

-- `_validate_existing_authorization_reconciliation`
unfoldable pub is_same_reconciliation : Content → Outcome → String → String → Bool
is_same_reconciliation c o by note =
    is_status c.result_status (status_of o)
    && c.reconciliation_outcome == name_of o
    && c.reconciled_by == by
    && c.reconciliation_note == note

-- The cost that evidence of a reconciled authorization states: a debit that was made, else the
-- exposure of an action that ran.
unfoldable pub evidence_cost : Option ℕ → Outcome → ℕ → ℕ
evidence_cost (some debited) o expected = debited
evidence_cost none Outcome.not_executed expected = 0
evidence_cost none o expected = expected

abbrev pub attestation_value : Option String → AttestationValue String
attestation_value none = AttestationValue.null
attestation_value (some t) = AttestationValue.object t

module _ (host : Host) (harness : Harness) where
  -- The text of the instant at which the operator's intent was stored.
  unfoldable pub instant_text : Option ℕ → Option String
  instant_text none = none
  instant_text (some n) = some (host.timestamp_text n)

  -- `attestation["signed_at"] if attestation is not None else utc_now()`
  unfoldable pub signing_time : Option String → String → String
  signing_time none now = now
  signing_time (some t) now = host.signed_at t

  -- `_make_authorization_reconciliation_record`: the authority's own fields are kept.
  unfoldable pub reconciliation_record :
      Content → ℕ → Outcome → String → String → String → Supply → Content
  reconciliation_record authority cost o by at note supply = record authority {
    record_id = supply.first.record_id;
    timestamp = supply.first.timestamp;
    result_status = status_of o;
    cost = cost;
    reconciliation_outcome = name_of o;
    reconciled_by = by;
    reconciled_at = some at;
    reconciliation_note = note;
    others = host.reconciled_text authority o;
  }

  -- The terminal record of a reconciled execution: the one that is there, or a new one.
  unfoldable pub reconciled_end :
      Option EvidenceRecord
      → Action
      → Request
      → Guardrail
      → Approval
      → Outcome
      → Reconciliation
      → Supply
      → M EvidenceRecord
  reconciled_end (some r) action request decision a o m supply = pure r
  reconciled_end none action request decision a o m supply =
      append_record host harness
        (record (particulars action request decision (status_of o)
          (Detail.reconciliation o m.disposition)) {
            approved_by = a.decided_by;
            result = reconciled_result o m.charged;
            reconciliation_outcome = name_of o;
            reconciled_by = a.reconciled_by;
            reconciled_at = instant_text a.reconciliation_started_at;
            reconciliation_note = a.reconciliation_note;
          })
        supply.first

  -- `reconcile_execution`
  unfoldable pub reconcile_execution :
      String → Outcome → String → String → Option Attestation → Supply → M ActionOutcome
  reconcile_execution approval_id o reconciled_by note attestation supply = do
    recover_operation host supply.recovery
    require_safe host
    existing ← get_approval approval_id
    held ← lift (λ e. e) (held_action host existing)
    let action = sealed host held
    terminal ← authorization_terminal action.action_id action.authorization_hash
    require (agrees_with o terminal) HarnessError.conflicting_outcome
    a ← on_approvals (
        begin_reconciliation host.approvals approval_id (for_approval o) reconciled_by note
          attestation supply.begin_stamp)
    request ← lift (λ e. e) (held_request host a)
    decision ← lift (λ e. e) (held_decision host a)
    m ← on_budget (
        reconcile_reservation host.writes_budget (amount a.reserved) a.request_id a.action_id o
          a.reconciled_by a.reconciliation_note "" "" none supply.reserved_at
          supply.reserve_entry_at)
    r ← reconciled_end terminal action request decision a o m supply
    on_approvals
        (mark_reconciled host.approvals approval_id r.body.content.record_id supply.consume_stamp)
    pure (record {
      action = action;
      decision = decision;
      status = r.body.content.result_status;
      evidence_record_id = r.body.content.record_id;
      approval_id = approval_id;
      result = none;
    })

  -- The reconciliation of an authorization without terminal evidence, through the journal.
  unfoldable pub reconcile_open :
      EvidenceRecord
      → AuthorizationSubject
      → Outcome
      → String
      → String
      → Option String
      → Supply
      → M Content
  reconcile_open authority subject o by note attestation supply = do
    expected ← ask_budget (exposure_for subject.request_id subject.action_id)
    prior ← ask_budget (prior_debit_for subject.request_id subject.action_id)
    let content =
        reconciliation_record authority.body.content (evidence_cost prior o expected) o by
          (signing_time attestation supply.first.prepared_at) note supply
    perform host supply.first "authorization_reconcile" (record {
      details = Details.reconciles (record {
        authority = some subject;
        outcome = some (name_of o);
        reconciled_by = some by;
        note = some note;
        attestation = attestation_value attestation;
      });
      amount = amount expected;
      evidence = some (draft content);
    })
    pure content

  -- The terminal evidence of an authorization that is reconciled: the record that is there, with the same
  -- input, or a new one.
  unfoldable pub end_authorization :
      Option EvidenceRecord
      → EvidenceRecord
      → AuthorizationSubject
      → Outcome
      → String
      → String
      → Option String
      → Supply
      → M Content
  end_authorization (some r) authority subject o by note attestation supply = do
    require (is_same_reconciliation r.body.content o by note) HarnessError.different_input
    pure r.body.content
  end_authorization none authority subject o by note attestation supply =
      reconcile_open authority subject o by note attestation supply

  -- `reconcile_authorization`: the record id and the status of the terminal evidence.
  unfoldable pub reconcile_authorization :
      String → Outcome → String → String → Option String → Supply → M Content
  reconcile_authorization authority_record_id o reconciled_by text attestation supply = do
    recover_operation host supply.recovery
    require_safe host
    let by = strip reconciled_by
    let note = strip text
    refuse (by == "" || note == "") HarnessError.blank_text
    found ← get_record authority_record_id
    authority ← or_raise found HarnessError.unknown_authority
    subject ← authorization_of host authority
    require_no_approval subject.action_id
    require_authorization_identity host subject o by note attestation
    terminal ← authorization_terminal subject.action_id subject.authorization_hash
    end_authorization terminal authority subject o by note attestation supply
