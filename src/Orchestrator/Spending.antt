-- ===== src/Orchestrator/Spending.antt =====
-- How often an approval may still begin to execute, over the methods of the harness.
use defiant_agent_harness.Common.{◌≤◌, String, Bool, Option, some, ap, inl, inr, arith, eq_iff}
use defiant_agent_harness.Common.Dict.{lookup, lookup-insert}
use defiant_agent_harness.Policy.Types.{Action}
use defiant_agent_harness.Approvals.Types.{Attestation, Approval}
use defiant_agent_harness.Approvals.Store.{Store, Config}
use defiant_agent_harness.Approvals.Operations.{create_prepared}
use defiant_agent_harness.Approvals.Creation.{create_prepared_leaves}
use defiant_agent_harness.Approvals.Evolution.{call-Evolves}
use defiant_agent_harness.Approvals.SingleUse.{chances, chances-Evolves, chances-le}
use defiant_agent_harness.Tools.Types.{CapabilityGrant}
use defiant_agent_harness.Orchestrator.Types.{World, Host, Harness, Supply}
use defiant_agent_harness.Orchestrator.Held.{Held}
use defiant_agent_harness.Orchestrator.Execute.{run_tool}
use defiant_agent_harness.Orchestrator.Resume.{run_approved, resume_external, resume}
use defiant_agent_harness.Orchestrator.Frame.{IsFrame, Keeps, keeping}
use defiant_agent_harness.Orchestrator.Frame.Methods.{Keeps-authorize_external}
use defiant_agent_harness.Orchestrator.Frame.Running.{Keeps-execute_action}
use defiant_agent_harness.Orchestrator.Frame.Resuming.{
  Keeps-settled_approval, Keeps-decide, Keeps-begin_execution, Keeps-block_resumed,
  Keeps-reject_held,
}
use defiant_agent_harness.Orchestrator.Called.{SameCalls-IsFrame, run_tool-stores}

-- The chances of an approval to be executed only fall.
abbrev pub Spends : String → World → World → Type 0
Spends j w w' = chances (lookup j w'.approvals) ≤ chances (lookup j w.approvals)

pub create_prepared-chances :
    (config : Config) (j : String) (a : Approval) (s : Store)
    → chances (lookup j (create_prepared config a s).1) ≤ chances (lookup j s)
create_prepared-chances config j a s = elim (create_prepared_leaves config a s) [
  | inl kept ↦ rw kept (omega arith)
  | inr (written, fresh, free) ↦
      let found = lookup-insert a.approval_id j a s in
      let here = eq_iff a.approval_id j in
      ground (arith, written, fresh, found, here, chances-le config j (some a))
]

abbrev pub Spends-IsFrame : (j : String) → IsFrame (Spends j)
Spends-IsFrame j = record {
  same = λ w. omega arith;
  chain = λ u v w h k. omega (arith, h, k);
  evidence = λ w log extra h. omega arith;
  budget = λ w l. omega arith;
  approvals = λ w config c. chances-Evolves config j _ _ (call-Evolves config j c w.approvals);
  creation = λ w config a. create_prepared-chances config j a w.approvals;
  journal = λ w f. omega arith;
  bases = λ w d. omega arith;
}

module _ (host : Host) (harness : Harness) (id : String) where
  pub run_tool-Spends :
      (action : Action) (g : CapabilityGrant) → Keeps (Spends id) (run_tool host harness action g)
  run_tool-Spends action g = record {
    at = λ w.
        let same = ap (λ v. v.approvals) (run_tool-stores host harness action g w) in
        rw same (omega arith);
  }

  module _ {R : World → World → Type 0} ⦃frame : IsFrame R⦄
      (tool : (action : Action) (g : CapabilityGrant)
        → Keeps R (run_tool host harness action g)) where
    Keeps-run_approved :
        (a : Approval) (h : Held) (by : Option String) (external : Bool) (supply : Supply)
        → Keeps R (run_approved host harness id a h by external supply)
    unfolding run_approved
    Keeps-run_approved a h by external supply = search (
      keeping, Keeps-begin_execution, Keeps-block_resumed, Keeps-authorize_external,
      Keeps-execute_action,
    )

    pub Keeps-resume :
        (approved : Bool) (by note : String) (t : Option Attestation) (supply : Supply)
        → Keeps R (resume host harness id approved by note t supply)
    unfolding resume
    Keeps-resume approved by note t supply =
        search
          (keeping, Keeps-settled_approval, Keeps-decide, Keeps-run_approved, Keeps-reject_held)
          depth 30

    pub Keeps-resume_external : (supply : Supply) → Keeps R (resume_external host harness id supply)
    unfolding resume_external
    Keeps-resume_external supply = search (keeping, Keeps-settled_approval, Keeps-run_approved)
