-- ===== src/Orchestrator/Frame/Running.antt =====
-- Every frame that the call of a tool's function keeps is kept by `handle_call` and `run`.
use defiant_agent_harness.Common.{ℕ, String, Bool, Option, none, some}
use defiant_agent_harness.Policy.Types.{Action}
use defiant_agent_harness.Budgets.Types.{BudgetCheck}
use defiant_agent_harness.Evidence.Types.{EvidenceRecord}
use defiant_agent_harness.Tools.Types.{CapabilityGrant}
use defiant_agent_harness.Orchestrator.Types.{Request, Guardrail, World, Host, Harness, Supply}
use defiant_agent_harness.Orchestrator.Execute.{run_tool, after_authorization, execute_action}
use defiant_agent_harness.Orchestrator.Handle.{
  proceed, after_budget, dispatch, decide_new, handle_action, handle,
}
use defiant_agent_harness.Orchestrator.Frame.{IsFrame, Keeps, keeping}
use defiant_agent_harness.Orchestrator.Frame.Methods.{
  Keeps-terminal, Keeps-hold, Keeps-prior_of, Keeps-reserve_estimate, Keeps-complete_known_result,
  Keeps-seal_authorization, Keeps-authorize_external,
}

module _ {R : World → World → Type 0} ⦃frame : IsFrame R⦄ (host : Host) (harness : Harness)
    (tool : (action : Action) (g : CapabilityGrant)
      → Keeps R (run_tool host harness action g)) where
  pub Keeps-after_authorization :
      (r : EvidenceRecord) (action : Action) (request : Request) (decision : Guardrail)
      (estimate : ℕ) (by : Option String) (id : String) (supply : Supply)
      → Keeps R (after_authorization host harness r action request decision estimate by id supply)
  unfolding after_authorization
  Keeps-after_authorization r action request decision estimate by id supply =
      search (keeping, tool, Keeps-complete_known_result)

  pub Keeps-execute_action :
      (action : Action) (request : Request) (decision : Guardrail) (estimate : ℕ)
      (by : Option String) (id : String) (supply : Supply)
      → Keeps R (execute_action host harness action request decision estimate by id supply)
  unfolding execute_action
  Keeps-execute_action action request decision estimate by id supply =
      search (keeping, Keeps-seal_authorization, Keeps-after_authorization)

  Keeps-proceed :
      (action : Action) (request : Request) (decision : Guardrail) (external : Bool)
      (supply : Supply)
      → Keeps R (proceed host harness action request decision external supply)
  unfolding proceed
  Keeps-proceed action request decision external supply =
      search (keeping, Keeps-reserve_estimate, Keeps-execute_action, Keeps-authorize_external)

  Keeps-after_budget :
      (over : Option BudgetCheck) (action : Action) (request : Request) (decision : Guardrail)
      (owner key : String) (external : Bool) (supply : Supply)
      → Keeps R (after_budget host harness over action request decision owner key external supply)
  unfolding after_budget
  Keeps-after_budget (some check) action request decision owner key external supply =
      Keeps-terminal host harness action request _ _ supply.first
  Keeps-after_budget none action request decision owner key external supply =
      search (keeping, Keeps-hold, Keeps-proceed)

  Keeps-dispatch :
      (action : Action) (request : Request) (decision : Guardrail) (owner key : String)
      (external : Bool) (supply : Supply)
      → Keeps R (dispatch host harness action request decision owner key external supply)
  unfolding dispatch
  Keeps-dispatch action request decision owner key external supply =
      search (keeping, Keeps-terminal, Keeps-after_budget)

  Keeps-decide_new :
      (prior : Option EvidenceRecord) (action : Action) (request : Request) (owner key : String)
      (external : Bool) (supply : Supply)
      → Keeps R (decide_new host harness prior action request owner key external supply)
  unfolding decide_new
  Keeps-decide_new (some r) action request owner key external supply =
      Keeps-terminal host harness action request _ _ supply.first
  Keeps-decide_new none action request owner key external supply =
      Keeps-dispatch action request _ owner key external supply

  pub Keeps-handle :
      (action : Action) (request : Request) (owner key : String) (external : Bool) (supply : Supply)
      → Keeps R (handle host harness action request owner key external supply)
  unfolding handle handle_action
  Keeps-handle action request owner key external supply =
      search (keeping, Keeps-prior_of, Keeps-decide_new)
