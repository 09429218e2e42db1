-- ===== src/Orchestrator/Records.antt =====
-- `_control_decision`, `_make_record` and `_record`: the evidence that the harness writes.
use defiant_agent_harness.Common.{ℕ, String, Bool, Option, none, some}
use defiant_agent_harness.Common.Int.{ℤ}
use defiant_agent_harness.Common.Result.{Result, ok, err}
use defiant_agent_harness.Contracts.{Decision, ResultStatus}
use defiant_agent_harness.Policy.Types.{Action}
use defiant_agent_harness.Budgets.Types.{Ledger, BudgetError}
use defiant_agent_harness.Budgets.State.{validate, available}
use defiant_agent_harness.Evidence.Types.{Content, EvidenceRecord}
use defiant_agent_harness.Evidence.Store.{append}
use defiant_agent_harness.Tools.Types.{surface_of, ToolResult}
use defiant_agent_harness.Orchestrator.Types.{
  Request, Cause, Guardrail, Detail, Host, Harness, Making, ActionOutcome,
}
use defiant_agent_harness.Orchestrator.Monad.{M, ◌>>=◌, pure, on_evidence, ask_budget}
use defiant_agent_harness.Orchestrator.Basis.{basis_for_action}

-- `seal_fingerprints`, of the live fields.
unfoldable pub sealed : Host → Action → Action
sealed host a = record a {
  payload_hash = host.payload_digest a.payload;
  authorization_hash = host.tools.digest (surface_of a);
}

-- A decision of the harness itself: every one of them blocks.
abbrev pub control_decision : Harness → Cause → Guardrail
control_decision harness cause = record {
  decision = Decision.block;
  ruleset_hash = harness.engine.ruleset_hash;
  cause = cause;
}

-- `balance_usd`
unfoldable pub balance : Ledger → Result BudgetError ℤ
balance file = elim (validate file) [ ok d ↦ ok (available d) | err e ↦ err e ]

-- The arguments of `_make_record`.
pub record Particulars : Type 0 where
  pub action : Action
  pub request : Request
  pub decision : Guardrail
  pub status : ResultStatus
  pub approved_by : Option String
  pub result : Option ToolResult
  pub detail : Detail
  pub reconciliation_outcome : String
  pub reconciled_by : String
  pub reconciled_at : Option String
  pub reconciliation_note : String
  pub remaining : Option ℤ

-- The call with its other arguments left at their defaults.
abbrev pub particulars : Action → Request → Guardrail → ResultStatus → Detail → Particulars
particulars action request decision status detail = record {
  action = action;
  request = request;
  decision = decision;
  status = status;
  approved_by = none;
  result = none;
  detail = detail;
  reconciliation_outcome = "";
  reconciled_by = "";
  reconciled_at = none;
  reconciliation_note = "";
  remaining = none;
}

abbrev pub cost_of : Option ToolResult → ℕ
cost_of none = 0
cost_of (some r) = r.cost

abbrev pub dry_run_of : Harness → Option ToolResult → Bool
dry_run_of harness none = harness.dry_run
dry_run_of harness (some r) = r.dry_run

-- The record that `_make_record` constructs, once the basis and the balance are read.
unfoldable pub content_of : Host → Harness → Particulars → Making → String → ℤ → Content
content_of host harness p making basis remaining = record {
  record_id = making.record_id;
  timestamp = making.timestamp;
  request_id = p.request.request_id;
  action_id = p.action.action_id;
  tool_name = p.action.tool_name;
  decision = p.decision.decision;
  result_status = p.status;
  enforcement_basis = basis;
  ruleset_hash = p.decision.ruleset_hash;
  authorization_hash = p.action.authorization_hash;
  cost = cost_of p.result;
  reconciliation_outcome = p.reconciliation_outcome;
  reconciled_by = p.reconciled_by;
  reconciled_at = p.reconciled_at;
  reconciliation_note = p.reconciliation_note;
  others = host.rest_text (record {
    action = p.action;
    request = p.request;
    decision = p.decision;
    approved_by = p.approved_by;
    result = p.result;
    detail = p.detail;
    remaining = remaining;
    dry_run = dry_run_of harness p.result;
  });
}

module _ (host : Host) (harness : Harness) where
  unfoldable pub remaining_of : Option ℤ → M ℤ
  remaining_of none = ask_budget balance
  remaining_of (some n) = pure n

  unfoldable pub make_record : Particulars → Making → M Content
  make_record p making = do
    basis ← basis_for_action harness p.action.action_id
    remaining ← remaining_of p.remaining
    pure (content_of host harness p making basis remaining)

  -- `_record`
  unfoldable pub append_record : Particulars → Making → M EvidenceRecord
  append_record p making = do
    content ← make_record p making
    on_evidence (append host.evidence content making.readings.checkpoint_at)

  -- `_terminal`: the action ends as decided.
  unfoldable pub terminal : Action → Request → Guardrail → ResultStatus → Making → M ActionOutcome
  terminal action request decision status making = do
    r ← append_record (particulars action request decision status Detail.reason) making
    pure (record {
      action = action;
      decision = decision;
      status = status;
      evidence_record_id = r.body.content.record_id;
      approval_id = "";
      result = none;
    })
