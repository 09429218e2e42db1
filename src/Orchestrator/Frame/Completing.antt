-- ===== src/Orchestrator/Frame/Completing.antt =====
-- Every frame is kept by `complete_external_call` and by the operators' reconciliations, which run no
-- tool.
use defiant_agent_harness.Common.{ℕ, String, Option, none, some, List, [], ◌∷◌, refl}
use defiant_agent_harness.Policy.Types.{Action}
use defiant_agent_harness.Approvals.Types.{Attestation, Approval}
use defiant_agent_harness.Approvals.Types.{Outcome as ApprovalOutcome}
use defiant_agent_harness.Approvals.Reconcile.{begin_reconciliation, mark_reconciled}
use defiant_agent_harness.Approvals.Calls.{Call, call}
use defiant_agent_harness.Budgets.Types.{Outcome, Reconciliation}
use defiant_agent_harness.Evidence.Types.{EvidenceRecord}
use defiant_agent_harness.Journal.Types.{AuthorizationSubject}
use defiant_agent_harness.Orchestrator.Types.{Request, Guardrail, World, Host, Harness, Supply}
use defiant_agent_harness.Orchestrator.Monad.{on_approvals}
use defiant_agent_harness.Orchestrator.External.{
  executing_approval, remember_first, complete_external_call,
}
use defiant_agent_harness.Orchestrator.Operator.{
  reconciled_end, reconcile_execution, reconcile_open, end_authorization, reconcile_authorization,
}
use defiant_agent_harness.Orchestrator.Frame.{
  IsFrame, Keeps, keeping, Keeps-pure, Keeps-on_approvals,
}
use defiant_agent_harness.Orchestrator.Frame.Recovery.{
  Keeps-recover_operation, Keeps-records_of, Keeps-get_approval, Keeps-get_record,
  Keeps-authorization_terminal, Keeps-authorization_of, Keeps-require_no_approval,
  Keeps-require_authorization_identity,
}
use defiant_agent_harness.Orchestrator.Frame.Methods.{
  Keeps-remember, Keeps-require_safe, Keeps-append_record, Keeps-perform,
  Keeps-complete_known_result,
}

module _ {R : World → World → Type 0} ⦃frame : IsFrame R⦄ (host : Host) (harness : Harness) where
  Keeps-executing_approval :
      (id : String) (action : Action) → Keeps R (executing_approval host harness id action)
  unfolding executing_approval
  Keeps-executing_approval id action = search (keeping, Keeps-get_approval) depth 30

  Keeps-remember_first :
      (id : String) (rs : List EvidenceRecord) → Keeps R (remember_first host harness id rs)
  unfolding remember_first
  Keeps-remember_first id [] = Keeps-pure tt
  Keeps-remember_first id (r ∷ rs) = search (keeping, Keeps-remember)

  pub Keeps-complete_external_call :
      (action : Action) (request : Request) (decision : Guardrail) (response id : String)
      (supply : Supply)
      → Keeps R (complete_external_call host harness action request decision response id supply)
  unfolding complete_external_call
  Keeps-complete_external_call action request decision response id supply =
      search
        (
          keeping, Keeps-recover_operation, Keeps-require_safe, Keeps-records_of,
          Keeps-remember_first, Keeps-executing_approval, Keeps-complete_known_result,
        )
        depth 30

  Keeps-begin_reconciliation :
      (id : String) (o : ApprovalOutcome) (by note : String) (t : Option Attestation) (stamp : ℕ)
      → Keeps R (on_approvals (begin_reconciliation host.approvals id o by note t stamp))
  unfolding call
  Keeps-begin_reconciliation id o by note t stamp =
      Keeps-on_approvals _ host.approvals (Call.begin_reconciliation id o by note t stamp)
        (λ s. refl)

  Keeps-mark_reconciled :
      (id record_id : String) (stamp : ℕ)
      → Keeps R (on_approvals (mark_reconciled host.approvals id record_id stamp))
  unfolding call
  Keeps-mark_reconciled id record_id stamp =
      Keeps-on_approvals _ host.approvals (Call.mark_reconciled id record_id stamp) (λ s. refl)

  Keeps-reconciled_end :
      (o : Option EvidenceRecord) (action : Action) (request : Request) (decision : Guardrail)
      (a : Approval) (outcome : Outcome) (m : Reconciliation) (supply : Supply)
      → Keeps R (reconciled_end host harness o action request decision a outcome m supply)
  unfolding reconciled_end
  Keeps-reconciled_end (some r) action request decision a outcome m supply = Keeps-pure r
  Keeps-reconciled_end none action request decision a outcome m supply =
      Keeps-append_record host harness _ supply.first

  pub Keeps-reconcile_execution :
      (id : String) (o : Outcome) (by note : String) (t : Option Attestation) (supply : Supply)
      → Keeps R (reconcile_execution host harness id o by note t supply)
  unfolding reconcile_execution
  Keeps-reconcile_execution id o by note t supply =
      search
        (
          keeping, Keeps-recover_operation, Keeps-require_safe, Keeps-get_approval,
          Keeps-authorization_terminal, Keeps-begin_reconciliation, Keeps-reconciled_end,
          Keeps-mark_reconciled,
        )
        depth 30

  Keeps-reconcile_open :
      (authority : EvidenceRecord) (subject : AuthorizationSubject) (o : Outcome) (by note : String)
      (t : Option String) (supply : Supply)
      → Keeps R (reconcile_open host harness authority subject o by note t supply)
  unfolding reconcile_open
  Keeps-reconcile_open authority subject o by note t supply =
      search (keeping, Keeps-perform) depth 30

  Keeps-end_authorization :
      (terminal : Option EvidenceRecord) (authority : EvidenceRecord)
      (subject : AuthorizationSubject) (o : Outcome) (by note : String) (t : Option String)
      (supply : Supply)
      → Keeps R (end_authorization host harness terminal authority subject o by note t supply)
  unfolding end_authorization
  Keeps-end_authorization (some r) authority subject o by note t supply = search keeping
  Keeps-end_authorization none authority subject o by note t supply =
      Keeps-reconcile_open authority subject o by note t supply

  pub Keeps-reconcile_authorization :
      (id : String) (o : Outcome) (by text : String) (t : Option String) (supply : Supply)
      → Keeps R (reconcile_authorization host harness id o by text t supply)
  unfolding reconcile_authorization
  Keeps-reconcile_authorization id o by text t supply =
      search
        (
          keeping, Keeps-recover_operation, Keeps-require_safe, Keeps-get_record,
          Keeps-authorization_of, Keeps-require_no_approval, Keeps-require_authorization_identity,
          Keeps-authorization_terminal, Keeps-end_authorization,
        )
        depth 30
