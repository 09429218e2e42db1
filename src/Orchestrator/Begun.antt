-- ===== src/Orchestrator/Begun.antt =====
-- What an execution that begins for an approval comes to.
use defiant_agent_harness.Common.{
  ℕ, String, Bool, false, Option, ◌∷◌, ◌≡◌, refl, sym, ap, ◌∙◌, subst, ◌⊎◌, inl, inr, arith,
  Bool-cases, if◌then◌else◌,
}
use defiant_agent_harness.Common.Result.{Result, Result-cases, ok}
use defiant_agent_harness.Policy.Types.{Action}
use defiant_agent_harness.Approvals.Types.{Approval, ApprovalError}
use defiant_agent_harness.Approvals.Store.{Store}
use defiant_agent_harness.Approvals.Operations.{begin_execution}
use defiant_agent_harness.Approvals.SingleUse.{begin_execution-MayExecute}
use defiant_agent_harness.Budgets.Journaled.{reservation_for}
use defiant_agent_harness.Tools.Types.{CapabilityGrant}
use defiant_agent_harness.Orchestrator.Types.{
  Request, Guardrail, World, Host, Harness, Supply, ActionOutcome,
}
use defiant_agent_harness.Orchestrator.Monad.{M, ◌>>=◌, on_approvals, ask_budget}
use defiant_agent_harness.Orchestrator.Records.{sealed}
use defiant_agent_harness.Orchestrator.Held.{Held}
use defiant_agent_harness.Orchestrator.Execute.{authorize_external, run_tool, execute_action}
use defiant_agent_harness.Orchestrator.Handle.{is_block}
use defiant_agent_harness.Orchestrator.Resume.{current_decision, block_resumed, run_approved}
use defiant_agent_harness.Orchestrator.Frame.{IsFrame, Keeps, keeping, bind_cases}
use defiant_agent_harness.Orchestrator.Frame.Methods.{Keeps-authorize_external}
use defiant_agent_harness.Orchestrator.Frame.Running.{Keeps-execute_action}
use defiant_agent_harness.Orchestrator.Frame.Resuming.{Keeps-begin_execution, Keeps-block_resumed}
use defiant_agent_harness.Orchestrator.Dispatching.{ask_budget-stores}
use defiant_agent_harness.Orchestrator.Called.{SameCalls, SameCalls-IsFrame}
use defiant_agent_harness.Orchestrator.Execution.{Executed, execute_action_cases}
use defiant_agent_harness.Orchestrator.Spending.{Spends, Spends-IsFrame, run_tool-Spends}
use defiant_agent_harness.Orchestrator.Warrant.{RanApproved, current_decision_supported}

module _ (host : Host) (harness : Harness) (id : String) where
  -- What follows the beginning of an execution.
  abbrev begun :
      Approval → Action → Request → Guardrail → Option String → Bool → Supply → M ActionOutcome
  begun a action request decision by external supply =
      if is_block decision.decision
      then block_resumed host harness a action request decision by supply
      else if external
      then authorize_external host harness action request decision by id supply.first
      else (do
        estimate ← ask_budget (reservation_for action.action_id)
        execute_action host harness action request decision estimate by id supply)

  module _ {R : World → World → Type 0} ⦃frame : IsFrame R⦄
      (tool : (action : Action) (g : CapabilityGrant)
        → Keeps R (run_tool host harness action g)) where
    Keeps-begun :
        (a : Approval) (action : Action) (request : Request) (decision : Guardrail)
        (by : Option String) (external : Bool) (supply : Supply)
        → Keeps R (begun a action request decision by external supply)
    Keeps-begun a action request decision by external supply =
        search (keeping, Keeps-block_resumed, Keeps-authorize_external, Keeps-execute_action)

  -- What a run of an approved action comes to.
  abbrev Begun : Action → Guardrail → Bool → Bool → World → World → Type 0
  Begun action decision blocked external w w' =
      SameCalls w w'
      ⊎ ((external ≡ false)
          × (blocked ≡ false)
          × Executed host harness action decision.decision w w')

  begun_cases :
      (a : Approval) (action : Action) (request : Request) (decision : Guardrail)
      (by : Option String) (external : Bool) (supply : Supply) (w : World)
      → Begun action decision
          (is_block decision.decision)
          external
          w
          (begun a action request decision by external supply w).1
  begun_cases a action request decision by external supply w =
      elim (Bool-cases (is_block decision.decision)) [
        | inl b ↦ rw b (
            inl (
              (Keeps-block_resumed {R = SameCalls} host harness a action request decision by
                  supply).at
                w))
        | inr nb ↦ elim (Bool-cases external) [
          | inl out ↦
              rw (nb, out)
                (inl (
                  (Keeps-authorize_external {R = SameCalls} host harness action request decision by
                      id supply.first).at
                    w))
          | inr internal ↦
              let asking = ask_budget (reservation_for action.action_id) in
              let k = λ (estimate : ℕ).
                execute_action host harness action request decision estimate by id supply in
              let kept = ask_budget-stores (reservation_for action.action_id) w in
              rw (nb, internal)
                (elim (bind_cases asking k w) [
                  | inl (e, h) ↦
                      subst (λ q. Begun action decision false false w q.1) (sym h)
                        (inl (ap (λ v. v.invoked) kept))
                  | inr (estimate, _, h) ↦
                      subst (λ q. Begun action decision false false w q.1) (sym h)
                        (subst (λ v. Begun action decision false false w (k estimate v).1)
                          (sym kept)
                          (elim (execute_action_cases host harness action request decision estimate
                            by id supply w) [
                              | inl quiet ↦ inl quiet
                              | inr ran ↦ inr (refl, refl, ran)
                            ]))
                ])
        ]
      ]

  on_approvals_ok :
      {A : Type 0} (f : Store → Result ApprovalError A × Store) (w w' : World) (a : A)
      → on_approvals f w ≡ (ok a, w')
      → f w.approvals ≡ (ok a, w'.approvals)
  unfolding on_approvals
  on_approvals_ok f w w' a h = ground (arith, Result-cases (f w.approvals).0)

  -- A run of an approved action in this or another runtime.
  abbrev pub Ended : Bool → World → World → World → Type 0
  Ended external before w w' =
      SameCalls w w' ⊎ ((external ≡ false) × RanApproved host harness id before w w')

  begun-Ended :
      (a a' : Approval) (h : Held) (by : Option String) (external : Bool) (supply : Supply)
      (w v : World)
      → let action = sealed host h.action in
        let decision = current_decision host harness action h.request h.decision in
        on_approvals
            (begin_execution host.approvals id action.action_id action.authorization_hash
              supply.begin_now supply.begin_stamp)
            w
          ≡ (ok a', v)
        → SameCalls w v
        → Ended external w w (begun a action h.request decision by external supply v).1
  begun-Ended a a' h by external supply w v began same =
      let action = sealed host h.action in
      let decision = current_decision host harness action h.request h.decision in
      let (approval, stored, may, after) =
        begin_execution-MayExecute host.approvals id action.action_id action.authorization_hash
          supply.begin_now supply.begin_stamp w.approvals v.approvals a'
          (on_approvals_ok _ w v a' began) in
      let falls =
        (Keeps-begun {R = Spends id} ⦃frame = Spends-IsFrame id⦄ (run_tool-Spends host harness id) a
            action h.request decision by external supply).at
          v in
      elim (begun_cases a action h.request decision by external supply v) [
        | inl quiet ↦ inl (quiet ∙ same)
        | inr
              (
                internal,
                nb,
                (
                  r,
                  front,
                  back,
                  recorded,
                  at,
                  more,
                  for_id,
                  for_hash,
                  pending,
                  decided,
                  (joined, real),
                ),
              ) ↦
            let (spec, scope, agreed) =
              current_decision_supported host harness id action h.request h.decision nb in
            inr (
              internal,
              record {
                real = real;
                action = action;
                request = h.request;
                approval = approval;
                stored = stored;
                now = supply.begin_now;
                may = may;
                registered = spec;
                in_scope = scope;
                supported = agreed;
                authorization = r;
                front = front;
                back = back;
                recorded = recorded;
                sealed_at = at;
                for_action = for_id;
                for_content = for_hash;
                called = joined ∙ ap (λ l. action ∷ l) same;
                unspent = ground (arith, stored, may.granted);
                spent = ground (arith, after, falls);
              },
            )
      ]

  pub run_approved_cases :
      (a : Approval) (h : Held) (by : Option String) (external : Bool) (supply : Supply) (w : World)
      → Ended external w w (run_approved host harness id a h by external supply w).1
  unfolding run_approved
  run_approved_cases a h by external supply w =
      let action = sealed host h.action in
      let decision = current_decision host harness action h.request h.decision in
      let beginning = on_approvals (
        begin_execution host.approvals id action.action_id action.authorization_hash
          supply.begin_now supply.begin_stamp) in
      let same =
        (Keeps-begin_execution {R = SameCalls} host harness id action.action_id
            action.authorization_hash supply.begin_now supply.begin_stamp).at
          w in
      elim (bind_cases beginning
        (λ (_ : Approval). begun a action h.request decision by external supply) w) [
          | inl (e, went) ↦ inl (ap (λ q. q.1.invoked) went ∙ same)
          | inr (a', began, went) ↦
              subst (λ q. Ended external w w q.1) (sym went)
                (begun-Ended a a' h by external supply w (beginning w).1 began same)
        ]
