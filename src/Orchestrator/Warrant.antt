-- ===== src/Orchestrator/Warrant.antt =====
-- What holds when a tool's function is called for an approval.
use defiant_agent_harness.Common.{
  ℕ, String, false, some, List, ◌∷◌, ◌++◌, ◌≡◌, ap, ◌∙◌, inl, inr, arith, Bool-cases, ◌==◌,
}
use defiant_agent_harness.Common.Dict.{lookup}
use defiant_agent_harness.Common.Result.{Result-cases, ok}
use defiant_agent_harness.Policy.Types.{Action}
use defiant_agent_harness.Policy.Evaluate.{evaluate}
use defiant_agent_harness.Approvals.Types.{Approval}
use defiant_agent_harness.Approvals.SingleUse.{chances, chances-le, MayExecute}
use defiant_agent_harness.Evidence.Types.{EvidenceRecord, Line, entry}
use defiant_agent_harness.Tools.Types.{ToolSpec}
use defiant_agent_harness.Tools.Registry.{validate_action}
use defiant_agent_harness.Orchestrator.Types.{Request, Guardrail, World, Host, Harness}
use defiant_agent_harness.Orchestrator.Handle.{
  context, is_out_of_scope, is_block, resume_decision, tool_contract_error, policy_decision,
}
use defiant_agent_harness.Orchestrator.Resume.{current_decision}
use defiant_agent_harness.Orchestrator.Called.{SameCalls, SameCalls-IsFrame}
use defiant_agent_harness.Orchestrator.Execution.{IsSealedAt}
use defiant_agent_harness.Orchestrator.Spending.{Spends}

-- A tool's function was called for an approval: the one stored before was granted, in time and for this
-- very action, tool, scope and policy support the action still, and the approval is used up; the last
-- thing before the call was a sealed record that authorizes this very action.
pub record RanApproved (host : Host) (harness : Harness) (id : String) (before w w' : World)
    : Type 0 where
  pub real : harness.dry_run ≡ false
  pub action : Action
  pub request : Request
  pub approval : Approval
  pub stored : lookup id before.approvals ≡ some approval
  pub now : ℕ
  pub may : MayExecute host.approvals approval action.action_id action.authorization_hash now
  pub registered :
      (spec : ToolSpec) × (validate_action host.tools harness.registry action ≡ ok spec)
  pub in_scope : is_out_of_scope request action ≡ false
  pub supported :
      is_block (evaluate host.platform harness.engine action (some (context request))).decision
      ≡ false
  pub authorization : EvidenceRecord
  pub front : List Line
  pub back : List Line
  pub recorded : w'.evidence.lines ≡ front ++ entry authorization ∷ back
  pub sealed_at : IsSealedAt host front authorization
  pub for_action : authorization.body.content.action_id ≡ action.action_id
  pub for_content : authorization.body.content.authorization_hash ≡ action.authorization_hash
  pub called : w'.invoked ≡ action ∷ w.invoked
  pub unspent : chances (lookup id w.approvals) ≡ 1
  pub spent : chances (lookup id w'.approvals) ≡ 0

module _ (host : Host) (harness : Harness) (id : String) where
  pub RanApproved-after :
      (before w v w' : World)
      → SameCalls w v
      → Spends id w v
      → RanApproved host harness id before v w'
      → RanApproved host harness id before w w'
  RanApproved-after before w v w' same less ran = record {
    real = ran.real;
    action = ran.action;
    request = ran.request;
    approval = ran.approval;
    stored = ran.stored;
    now = ran.now;
    may = ran.may;
    registered = ran.registered;
    in_scope = ran.in_scope;
    supported = ran.supported;
    authorization = ran.authorization;
    front = ran.front;
    back = ran.back;
    recorded = ran.recorded;
    sealed_at = ran.sealed_at;
    for_action = ran.for_action;
    for_content = ran.for_content;
    called = ran.called ∙ ap (λ l. ran.action ∷ l) same;
    unspent =
        (let most = chances-le host.approvals id (lookup id w.approvals) in
          let one = ran.unspent in omega (arith, most, less, one));
    spent = ran.spent;
  }

  pub current_decision_supported :
      (action : Action) (request : Request) (original : Guardrail)
      → is_block (current_decision host harness action request original).decision ≡ false
      → ((spec : ToolSpec) × (validate_action host.tools harness.registry action ≡ ok spec))
        × (is_out_of_scope request action ≡ false)
        × (is_block (evaluate host.platform harness.engine action (some (context request))).decision
            ≡ false)
  unfolding current_decision resume_decision tool_contract_error policy_decision
  current_decision_supported action request original nb =
      elim (Bool-cases (original.ruleset_hash == harness.engine.ruleset_hash)) [
        | inr changed ↦ absurd (ground (arith, changed, nb))
        | inl same ↦ elim (Result-cases (validate_action host.tools harness.registry action)) [
          | inr (e, f) ↦ absurd (ground (arith, same, f, nb))
          | inl (spec, f) ↦ elim (Bool-cases (is_out_of_scope request action)) [
            | inl out ↦ absurd (ground (arith, same, f, out, nb))
            | inr within ↦ ((spec, f), within, ground (arith, same, f, within, nb))
          ]
        ]
      ]
