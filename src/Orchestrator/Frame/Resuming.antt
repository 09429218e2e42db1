-- ===== src/Orchestrator/Frame/Resuming.antt =====
-- What `resume` does besides running the action keeps every frame.
use defiant_agent_harness.Common.{
  ℕ, String, Bool, Option, Option-cases, inl, inr, ◌≡◌, refl, arith, if◌then◌else◌,
}
use defiant_agent_harness.Common.Text.{strip}
use defiant_agent_harness.Common.Dict.{lookup}
use defiant_agent_harness.Policy.Types.{Action}
use defiant_agent_harness.Approvals.Types.{Purpose, Verdict, Attestation, Approval}
use defiant_agent_harness.Approvals.Store.{Store, Config, read_all_cases}
use defiant_agent_harness.Approvals.Queries.{validate_decision}
use defiant_agent_harness.Approvals.Operations
use defiant_agent_harness.Approvals.Operations.{
  decide, begin_execution, mark_consumed, require_attestation-store,
}
use defiant_agent_harness.Approvals.Calls.{Call, call}
use defiant_agent_harness.Orchestrator.Types.{Request, Guardrail, World, Host, Harness, Supply}
use defiant_agent_harness.Orchestrator.Monad.{on_approvals}
use defiant_agent_harness.Orchestrator.Held.{Held}
use defiant_agent_harness.Orchestrator.Resume.{
  settled_approval, release_reservation, block_resumed, reject_held,
}
use defiant_agent_harness.Orchestrator.Frame.{
  IsFrame, Keeps, keeping, Keeps-on_approvals, Keeps-read_approvals,
}
use defiant_agent_harness.Orchestrator.Frame.Recovery.{Keeps-get_approval}
use defiant_agent_harness.Orchestrator.Frame.Methods.{
  Keeps-append_record, Keeps-catch_up, Keeps-ending, Keeps-perform,
}

decision_terms-store :
    (config : Config) (a : Approval) (ok? : Bool) (by note : String) (t : Option Attestation)
    (s : Store)
    → (Operations.validate_decision config a ok? by note t s).1 ≡ s
unfolding Operations.validate_decision
decision_terms-store config a ok? by note t s =
    let kept =
      require_attestation-store config t a Purpose.decision
        (if ok? then Verdict.approved else Verdict.rejected) (strip by) (strip note) s in
    ground (arith, kept)

validate_decision-store :
    (config : Config) (id : String) (ok? : Bool) (by note : String) (t : Option Attestation)
    (now : ℕ) (s : Store)
    → (validate_decision config id ok? by note t now s).1 ≡ s
unfolding validate_decision
validate_decision-store config id ok? by note t now s = elim (Option-cases (lookup id s)) [
  | inl absent ↦ ground (arith, read_all_cases s)
  | inr (a, found) ↦ ground (arith, read_all_cases s, decision_terms-store config a ok? by note t s)
]

module _ {R : World → World → Type 0} ⦃frame : IsFrame R⦄ (host : Host) (harness : Harness) where
  pub Keeps-settled_approval :
      (id : String) (supply : Supply) → Keeps R (settled_approval host harness id supply)
  unfolding settled_approval
  Keeps-settled_approval id supply = search (keeping, Keeps-catch_up, Keeps-get_approval)

  pub Keeps-decide :
      (id : String) (ok? : Bool) (by note : String) (t : Option Attestation) (now stamp : ℕ)
      → Keeps R (on_approvals (decide host.approvals id ok? by note t now stamp))
  unfolding call
  Keeps-decide id ok? by note t now stamp =
      Keeps-on_approvals _ host.approvals (Call.decide id ok? by note t now stamp) (λ s. refl)

  pub Keeps-begin_execution :
      (id action_id hash : String) (now stamp : ℕ)
      → Keeps R (on_approvals (begin_execution host.approvals id action_id hash now stamp))
  unfolding call
  Keeps-begin_execution id action_id hash now stamp =
      Keeps-on_approvals _ host.approvals (Call.begin_execution id action_id hash now stamp)
        (λ s. refl)

  Keeps-mark_consumed :
      (id record_id : String) (stamp : ℕ)
      → Keeps R (on_approvals (mark_consumed host.approvals id record_id stamp))
  unfolding call
  Keeps-mark_consumed id record_id stamp =
      Keeps-on_approvals _ host.approvals (Call.mark_consumed id record_id stamp) (λ s. refl)

  Keeps-validate_decision :
      (id : String) (ok? : Bool) (by note : String) (t : Option Attestation) (now : ℕ)
      → Keeps R (on_approvals (validate_decision host.approvals id ok? by note t now))
  Keeps-validate_decision id ok? by note t now =
      Keeps-read_approvals _ (validate_decision-store host.approvals id ok? by note t now)

  Keeps-release_reservation :
      (a : Approval) (supply : Supply) → Keeps R (release_reservation host harness a supply)
  unfolding release_reservation
  Keeps-release_reservation a supply = search keeping

  pub Keeps-block_resumed :
      (a : Approval) (action : Action) (request : Request) (decision : Guardrail)
      (by : Option String) (supply : Supply)
      → Keeps R (block_resumed host harness a action request decision by supply)
  unfolding block_resumed
  Keeps-block_resumed a action request decision by supply =
      search (keeping, Keeps-release_reservation, Keeps-append_record, Keeps-mark_consumed)

  pub Keeps-reject_held :
      (a : Approval) (h : Held) (by note : String) (t : Option Attestation) (supply : Supply)
      → Keeps R (reject_held host harness a h by note t supply)
  unfolding reject_held
  Keeps-reject_held a h by note t supply =
      search (keeping, Keeps-validate_decision, Keeps-ending, Keeps-perform) depth 30
