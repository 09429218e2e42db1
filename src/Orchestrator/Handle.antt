-- ===== src/Orchestrator/Handle.antt =====
-- `_handle`, `handle_call` and `preflight_external_call`: one proposed action, from its proposal to the
-- record of what became of it. The adapter's translation of a call into the action is its argument.
use Prim.Native.Nat.{max}
use defiant_agent_harness.Common.{
  ℕ, String, Bool, true, false, not, Option, none, some, List, [], ◌∷◌, any, ltb, ◌==◌,
  if◌then◌else◌,
}
use defiant_agent_harness.Common.Dict.{Dict, lookup}
use defiant_agent_harness.Common.Int.{pos, ◌-ℤ◌}
use defiant_agent_harness.Common.Result.{Result, ok, err}
use defiant_agent_harness.Contracts.{Decision, ResultStatus}
use defiant_agent_harness.Policy.Types.{Action}
use defiant_agent_harness.Policy.Evaluate.{evaluate}
use defiant_agent_harness.Approvals.Types.{ActionSnapshot}
use defiant_agent_harness.Approvals.Queries.{Proposal}
use defiant_agent_harness.Approvals.Queries
use defiant_agent_harness.Budgets.Types.{Verdict, BudgetCheck, Ledger, BudgetError}
use defiant_agent_harness.Budgets.Operations.{preflight, reserve}
use defiant_agent_harness.Evidence.Types.{EvidenceRecord}
use defiant_agent_harness.Journal.Types.{Details}
use defiant_agent_harness.Tools.Types.{ToolError}
use defiant_agent_harness.Tools.Registry.{validate_action}
use defiant_agent_harness.Orchestrator.Types.{
  Request, Cause, Guardrail, Detail, HarnessError, Host, Harness, Supply, ActionOutcome,
}
use defiant_agent_harness.Orchestrator.Monad.{
  M, ◌>>=◌, ◌>>◌, pure, refuse, when, lift, on_budget, ask_budget,
}
use defiant_agent_harness.Orchestrator.Basis.{basis_of, first_of, remember_action_basis}
use defiant_agent_harness.Orchestrator.Records.{
  sealed, control_decision, balance, particulars, make_record, terminal,
}
use defiant_agent_harness.Orchestrator.Recovery.{amount}
use defiant_agent_harness.Orchestrator.Expiry.{draft, perform, catch_up}
use defiant_agent_harness.Orchestrator.Execute.{authorize_external, execute_action}

-- `_context`
abbrev pub context : Request → Dict String
context request =
    ("sensitivity", request.sensitivity)
    ∷ ("task_type", request.task_type)
    ∷ ("workspace_id", request.workspace_id)
    ∷ []

-- `request.allowed_tools and action.tool_name not in request.allowed_tools`
unfoldable pub is_out_of_scope : Request → Action → Bool
is_out_of_scope request action = elim request.allowed_tools [
  | [] ↦ false
  | t ∷ ts ↦ not (any (λ tool. tool == action.tool_name) (t ∷ ts))
]

abbrev pub is_block : Decision → Bool
is_block Decision.block = true
is_block d = false

abbrev pub needs_approval : Decision → Bool
needs_approval Decision.approval_required = true
needs_approval d = false

abbrev pub is_within : Verdict → Bool
is_within Verdict.within = true
is_within v = false

abbrev pub action_snapshot : Action → ActionSnapshot
action_snapshot a = record {
  action_id = a.action_id;
  request_id = a.request_id;
  tool_name = a.tool_name;
  target = a.target;
  payload_hash = a.payload_hash;
  authorization_hash = a.authorization_hash;
}

module _ (host : Host) (harness : Harness) where
  -- The policy's decision, with the hash of the rules that it was made by.
  unfoldable pub policy_decision : Action → Request → Guardrail
  policy_decision action request =
      let g = evaluate host.platform harness.engine action (some (context request)) in
      record {
        decision = g.decision;
        ruleset_hash = harness.engine.ruleset_hash;
        cause = Cause.policy g;
      }

  -- `_tool_contract_error`
  unfoldable pub tool_contract_error : Action → Option ToolError
  tool_contract_error action = elim (validate_action host.tools harness.registry action) [
    | ok spec ↦ none
    | err e ↦ some e
  ]

  -- The decision on an action without records, before the budget: its contract, the request's
  -- scope, the policy. `_resume_decision` makes the same one,
  -- but for the decision inputs of a scope refusal, where `_handle` alone lists the allowed tools.
  unfoldable pub resume_decision : Action → Request → Guardrail
  resume_decision action request = elim (tool_contract_error action) [
    | some e ↦ control_decision harness (Cause.tool_contract e)
    | none ↦
        if is_out_of_scope request action
        then control_decision harness (Cause.request_scope request.allowed_tools)
        else policy_decision action request
  ]

  -- `_spec_cost`
  unfoldable pub spec_cost : Action → ℕ
  spec_cost action = elim (lookup action.tool_name harness.registry.tools) [
    | none ↦ 0
    | some spec ↦ spec.cost_estimate
  ]

  unfoldable pub estimate_of : Action → ℕ
  estimate_of action = max action.estimated_cost (spec_cost action)

  -- `self.budget.preflight(...)`, which is asked only for an action that costs something.
  unfoldable pub budget_block : Action → Request → Ledger → Result BudgetError (Option BudgetCheck)
  budget_block action request file =
      if ltb 0 (estimate_of action)
      then (elim (preflight (amount (estimate_of action))
          (elim request.budget_limit [ none ↦ none | some n ↦ some (amount n) ]) file) [
            | err e ↦ err e
            | ok check ↦ ok (if is_within check.verdict then none else some check)
          ])
      else ok none

  abbrev pub proposal : Action → Request → Guardrail → String → String → Proposal
  proposal action request decision owner key =
      let s = host.decision_snapshot decision in
      record {
        action = action_snapshot action;
        payload_preview = host.payload_preview action.payload;
        approval_scope = s.approval_scope;
        reason = s.reason;
        policy_ids = s.policy_ids;
        request = some request.request_id;
        decision = some s;
        reserved = estimate_of action;
        execution_owner = owner;
        execution_key = key;
      }

  -- The action is held: the approval, the reservation and the record are one journaled operation.
  unfoldable pub hold : Action → Request → Guardrail → String → String → Supply → M ActionOutcome
  hold action request decision owner key supply = do
    pending ← lift HarnessError.approvals (
        Queries.prepare (proposal action request decision owner key) harness.approval_ttl_minutes
          supply.approval_id supply.approval_now supply.approval_stamp)
    free ← ask_budget balance
    content ←
        make_record host harness
          (record (particulars action request decision ResultStatus.pending_approval
            (Detail.held_for pending.approval_id)) {
              remaining = some (free -ℤ pos (estimate_of action));
            })
          supply.first
    perform host supply.first "approval_create" (record {
      details = Details.creates pending;
      amount = amount pending.reserved;
      evidence = some (draft content);
    })
    pure (record {
      action = action;
      decision = decision;
      status = ResultStatus.pending_approval;
      evidence_record_id = content.record_id;
      approval_id = pending.approval_id;
      result = none;
    })

  -- `if estimate > ZERO: self.budget.reserve(...)`
  unfoldable pub reserve_estimate : Action → Request → Supply → M (Unit {0})
  reserve_estimate action request supply = when (ltb 0 (estimate_of action)) (
      on_budget (
        reserve host.writes_budget (amount (estimate_of action)) request.request_id action.action_id
          supply.reserved_at supply.reserve_entry_at))

  -- The action is allowed: its estimate is reserved, and it runs here or in another runtime.
  unfoldable pub proceed : Action → Request → Guardrail → Bool → Supply → M ActionOutcome
  proceed action request decision external supply = do
    reserve_estimate action request supply
    if external
        then authorize_external host harness action request decision none "" supply.first
        else execute_action host harness action request decision (estimate_of action) none "" supply

  -- After the budget's answer: a block, the approval or the run.
  unfoldable pub after_budget :
      Option BudgetCheck
      → Action
      → Request
      → Guardrail
      → String
      → String
      → Bool
      → Supply
      → M ActionOutcome
  after_budget (some check) action request decision owner key external supply =
      terminal host harness action request (control_decision harness (Cause.budget_limit check))
        ResultStatus.blocked supply.first
  after_budget none action request decision owner key external supply =
      if needs_approval decision.decision
      then hold action request decision owner key supply
      else proceed action request decision external supply

  -- After the policy.
  unfoldable pub dispatch :
      Action → Request → Guardrail → String → String → Bool → Supply → M ActionOutcome
  dispatch action request decision owner key external supply =
      if is_block decision.decision
      then terminal host harness action request decision ResultStatus.blocked supply.first
      else (do
        over ← ask_budget (budget_block action request)
        after_budget over action request decision owner key external supply)

  -- What precedes the decision: recovery, the approvals that are due, the audit, and the action's
  -- first record.
  unfoldable pub prior_of : Action → Supply → M (Option EvidenceRecord)
  prior_of action supply = do
    catch_up host harness supply
    prior ← first_of action.action_id
    remember_action_basis action.action_id (basis_of harness prior)
    pure prior

  -- An action id with a record is refused.
  unfoldable pub decide_new :
      Option EvidenceRecord → Action → Request → String → String → Bool → Supply → M ActionOutcome
  decide_new (some r) action request owner key external supply =
      terminal host harness action request (control_decision harness Cause.duplicate_action)
        ResultStatus.blocked supply.first
  decide_new none action request owner key external supply =
      dispatch action request (resume_decision action request) owner key external supply

  -- `_handle`
  unfoldable pub handle_action :
      Action → Request → String → String → Bool → Supply → M ActionOutcome
  handle_action proposed request owner key external supply = do
    let action = sealed host proposed
    prior ← prior_of action supply
    decide_new prior action request owner key external supply

  -- `handle_call`, and `preflight_external_call` with `external`.
  unfoldable pub handle : Action → Request → String → String → Bool → Supply → M ActionOutcome
  handle proposed request owner key external supply = do
    refuse harness.execution_disabled HarnessError.execution_disabled
    handle_action proposed request owner key external supply

  -- `run`: the proposals of a task, one after another, each with its readings.
  unfoldable pub run_proposals : List (Action × Supply) → Request → M (List ActionOutcome)
  run_proposals [] request = pure []
  run_proposals ((action, supply) ∷ rest) request = do
    outcome ← handle action request "" "" false supply
    outcomes ← run_proposals rest request
    pure (outcome ∷ outcomes)

  unfoldable pub run : List (Action × Supply) → Request → M (List ActionOutcome)
  run proposals request = do
    refuse harness.execution_disabled HarnessError.execution_disabled
    run_proposals proposals request
