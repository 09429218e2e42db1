-- ===== src/Orchestrator/External.antt =====
-- `complete_external_call`: the result of an action that another runtime ran under a sealed authorization.
use defiant_agent_harness.Common.{
  String, Bool, false, not, ◌&&◌, Option, none, some, List, [], ◌∷◌, any, ◌==◌, if◌then◌else◌,
}
use defiant_agent_harness.Contracts.{ResultStatus}
use defiant_agent_harness.Policy.Types.{Action}
use defiant_agent_harness.Approvals.Types.{is_executing}
use defiant_agent_harness.Approvals.Checks.{is_given}
use defiant_agent_harness.Budgets.Journaled.{reservation_for}
use defiant_agent_harness.Evidence.Types.{EvidenceRecord}
use defiant_agent_harness.Evidence.Store.{is_skipped, is_terminal}
use defiant_agent_harness.Journal.Validate.{decision_value, is_status}
use defiant_agent_harness.Tools.Types.{ToolStatus, Summary, Output, ToolResult}
use defiant_agent_harness.Orchestrator.Types.{
  Request, Guardrail, HarnessError, Host, Harness, Supply, ActionOutcome,
}
use defiant_agent_harness.Orchestrator.Monad.{
  M, ◌>>=◌, ◌>>◌, pure, require, refuse, or_raise, ask_budget,
}
use defiant_agent_harness.Orchestrator.Basis.{remember_action_basis}
use defiant_agent_harness.Orchestrator.Reading.{records_of, last_where, get_approval}
use defiant_agent_harness.Orchestrator.Records.{sealed}
use defiant_agent_harness.Orchestrator.Recovery.{recover_operation}
use defiant_agent_harness.Orchestrator.Expiry.{require_safe}
use defiant_agent_harness.Orchestrator.Execute.{actual_cost, complete_known_result}

-- The sealed authorization that an external completion answers.
unfoldable pub authorizes : String → EvidenceRecord → Bool
authorizes authorization_hash r =
    is_skipped r.body.content.result_status
    && r.body.content.authorization_hash == authorization_hash

-- The terminal statuses of `complete_external_call`, which leave out `not_executed`.
unfoldable pub is_observed_end : EvidenceRecord → Bool
is_observed_end r =
    is_terminal r.body.content.result_status
    && not (is_status r.body.content.result_status ResultStatus.not_executed)

module _ (host : Host) (harness : Harness) where
  -- The approval that an external completion names: executing, and for this very action.
  unfoldable pub executing_approval : String → Action → M (Option String)
  executing_approval approval_id action = if approval_id == "" then pure none else (do
    a ← get_approval approval_id
    require (is_executing a.status) HarnessError.not_executing
    refuse (is_given a.reconciliation_outcome) HarnessError.reconciling
    require (a.action_id == action.action_id) HarnessError.wrong_approval
    require (a.authorization_hash == action.authorization_hash) HarnessError.changed_action
    pure a.decided_by)

  -- The basis of the action's first record; there is one where an authorization was found.
  unfoldable pub remember_first : String → List EvidenceRecord → M (Unit {0})
  remember_first action_id [] = pure tt
  remember_first action_id (r ∷ rs) = do
    remember_action_basis action_id r.body.content.enforcement_basis
    pure tt

  -- `complete_external_call`; `response` is the reported response's text.
  unfoldable pub complete_external_call :
      Action → Request → Guardrail → String → String → Supply → M ActionOutcome
  complete_external_call reported request decision response approval_id supply = do
    refuse harness.execution_disabled HarnessError.execution_disabled
    recover_operation host supply.recovery
    require_safe host
    let action = sealed host reported
    rs ← records_of action.action_id
    authorization ←
        or_raise (last_where (authorizes action.authorization_hash) rs)
          HarnessError.no_authorization
    remember_first action.action_id rs
    let c = authorization.body.content
    require (c.request_id == request.request_id) HarnessError.wrong_request
    require (decision_value c.decision == decision_value decision.decision)
        HarnessError.wrong_decision
    require (c.ruleset_hash == decision.ruleset_hash) HarnessError.wrong_ruleset
    refuse (any is_observed_end rs) HarnessError.already_ended
    by ← executing_approval approval_id action
    estimate ← ask_budget (reservation_for action.action_id)
    let r : ToolResult = record {
      status = ToolStatus.succeeded;
      summary = Summary.said action.tool_name;
      output = Output.value response;
      cost = 0;
      dry_run = false;
    }
    content ←
        complete_known_result host harness authorization action request decision r estimate by
          approval_id supply.last
    pure (record {
      action = action;
      decision = decision;
      status = ResultStatus.succeeded;
      evidence_record_id = content.record_id;
      approval_id = approval_id;
      result = some (record r { cost = actual_cost r estimate });
    })
