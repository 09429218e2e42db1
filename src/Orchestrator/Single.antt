-- ===== src/Orchestrator/Single.antt =====
-- The entry points of `Harness` in any order: an approval runs a tool at most once.
use defiant_agent_harness.Common.{
  ℕ, ◌+◌, ◌≤◌, String, Bool, true, Option, List, [], ◌∷◌, ◌≡◌, inl, inr, arith, Bool-cases, ◌==◌,
  eq_iff, ltb, length, if◌then◌else◌, subst,
}
use defiant_agent_harness.Common.Dict.{lookup}
use defiant_agent_harness.Approvals.Types.{Attestation}
use defiant_agent_harness.Approvals.SingleUse.{chances, chances-le}
use defiant_agent_harness.Budgets.Types.{Outcome}
use defiant_agent_harness.Policy.Types.{Action}
use defiant_agent_harness.Orchestrator.Types.{
  Request, Guardrail, World, Host, Harness, Readings, Supply,
}
use defiant_agent_harness.Orchestrator.Recovery.{recover_operation}
use defiant_agent_harness.Orchestrator.Expiry.{reconcile_expired_approvals}
use defiant_agent_harness.Orchestrator.External.{complete_external_call}
use defiant_agent_harness.Orchestrator.Operator.{reconcile_execution, reconcile_authorization}
use defiant_agent_harness.Orchestrator.Frame.Recovery.{Keeps-recover_operation}
use defiant_agent_harness.Orchestrator.Frame.Methods.{Keeps-expired}
use defiant_agent_harness.Orchestrator.Frame.Completing.{
  Keeps-complete_external_call, Keeps-reconcile_execution, Keeps-reconcile_authorization,
}
use defiant_agent_harness.Orchestrator.Resume.{resume, resume_external}
use defiant_agent_harness.Orchestrator.Frame.Running.{Keeps-handle}
use defiant_agent_harness.Orchestrator.Once.{Handling, after_call}
use defiant_agent_harness.Orchestrator.Spending.{
  Spends, Spends-IsFrame, run_tool-Spends, Keeps-resume, Keeps-resume_external,
}
use defiant_agent_harness.Orchestrator.Approved.{resume-RanApproved}

-- What a caller gives `resume` besides the approval's id, with the readings.
pub record Answer : Type 0 where
  pub approved : Bool
  pub decided_by : String
  pub note : String
  pub attestation : Option Attestation
  pub supply : Supply

pub data Step : Type 0 where
  handles : Handling → Step
  resumes : String → Answer → Step
  resumes_external : String → Supply → Step
  completes_external : Action → Request → Guardrail → String → String → Supply → Step
  reconciles_execution : String → Outcome → String → String → Option Attestation → Supply → Step
  reconciles_authorization : String → Outcome → String → String → Option String → Supply → Step
  expires : Supply → Step
  recovers : Readings → Step

module _ (host : Host) (harness : Harness) where
  -- The stores after one call, which may have raised.
  unfoldable pub step : Step → World → World
  step (Step.handles h) w = after_call host harness h w
  step (Step.resumes id a) w =
      (resume host harness id a.approved a.decided_by a.note a.attestation a.supply w).1
  step (Step.resumes_external id supply) w = (resume_external host harness id supply w).1
  step (Step.completes_external action request decision response id supply) w =
      (complete_external_call host harness action request decision response id supply w).1
  step (Step.reconciles_execution id o by note t supply) w =
      (reconcile_execution host harness id o by note t supply w).1
  step (Step.reconciles_authorization id o by note t supply) w =
      (reconcile_authorization host harness id o by note t supply w).1
  step (Step.expires supply) w = (reconcile_expired_approvals host harness supply w).1
  step (Step.recovers readings) w = (recover_operation host readings w).1

  -- Whether the step is a `resume` of this approval that called a tool's function: 1 or 0.
  unfoldable pub runs_in : String → Step → World → ℕ
  runs_in j (Step.resumes id a) w =
      let more = ltb (length w.invoked) (length (step (Step.resumes id a) w).invoked) in
      if id == j then (if more then 1 else 0) else 0
  runs_in j other w = 0

  -- How often tools' functions were called for an approval.
  unfoldable pub runs : String → List Step → World → ℕ
  runs j [] w = 0
  runs j (s ∷ ss) w = runs_in j s w + runs j ss (step s w)

  module _ (j : String) where
    step-Spends : (s : Step) (w : World) → Spends j w (step s w)
    unfolding step
    step-Spends (Step.handles h) w =
        (Keeps-handle {R = Spends j} ⦃frame = Spends-IsFrame j⦄ host harness
            (run_tool-Spends host harness j) h.action h.request h.owner h.key h.external
            h.supply).at
          w
    step-Spends (Step.resumes id a) w =
        (Keeps-resume host harness id {R = Spends j} ⦃frame = Spends-IsFrame j⦄
            (run_tool-Spends host harness j) a.approved a.decided_by a.note a.attestation
            a.supply).at
          w
    step-Spends (Step.resumes_external id supply) w =
        (Keeps-resume_external host harness id {R = Spends j} ⦃frame = Spends-IsFrame j⦄
            (run_tool-Spends host harness j) supply).at
          w
    step-Spends (Step.completes_external action request decision response id supply) w =
        (Keeps-complete_external_call {R = Spends j} ⦃frame = Spends-IsFrame j⦄ host harness action
            request decision response id supply).at
          w
    step-Spends (Step.reconciles_execution id o by note t supply) w =
        (Keeps-reconcile_execution {R = Spends j} ⦃frame = Spends-IsFrame j⦄ host harness id o by
            note t supply).at
          w
    step-Spends (Step.reconciles_authorization id o by note t supply) w =
        (Keeps-reconcile_authorization {R = Spends j} ⦃frame = Spends-IsFrame j⦄ host harness id o
            by note t supply).at
          w
    step-Spends (Step.expires supply) w =
        (Keeps-expired {R = Spends j} ⦃frame = Spends-IsFrame j⦄ host harness supply).at w
    step-Spends (Step.recovers readings) w =
        (Keeps-recover_operation {R = Spends j} ⦃frame = Spends-IsFrame j⦄ host readings).at w

    ran_here :
        (id : String) (a : Answer) (w : World)
        → (id == j) ≡ true
        → runs_in j (Step.resumes id a) w
            + chances (lookup j (step (Step.resumes id a) w).approvals)
          ≤ chances (lookup j w.approvals)
    unfolding runs_in step
    ran_here id a w here =
        let less = step-Spends (Step.resumes id a) w in
        let same : id ≡ j = ground (arith, here, eq_iff id j) in
        elim (resume-RanApproved host harness id a.approved a.decided_by a.note a.attestation
          a.supply w) [
            | inl quiet ↦ rw here (rw quiet (ground (arith, less)))
            | inr (given, ran) ↦
                let before = subst (λ i. chances (lookup i w.approvals) ≡ 1) same ran.unspent in
                let after =
                  subst (λ i. chances (lookup i (step (Step.resumes id a) w).approvals) ≡ 0) same
                    ran.spent in
                ground (arith, here, before, after)
          ]

    runs_in-chances :
        (s : Step) (w : World)
        → runs_in j s w + chances (lookup j (step s w).approvals) ≤ chances (lookup j w.approvals)
    unfolding runs_in
    runs_in-chances (Step.resumes id a) w = elim (Bool-cases (id == j)) [
      | inl here ↦ ran_here id a w here
      | inr elsewhere ↦ rw elsewhere (omega (arith, step-Spends (Step.resumes id a) w))
    ]
    runs_in-chances s w = omega (arith, step-Spends s w)

    runs_bounded : (ss : List Step) (w : World) → runs j ss w ≤ chances (lookup j w.approvals)
    unfolding runs
    runs_bounded [] w = omega arith
    runs_bounded (s ∷ ss) w = omega (arith, runs_in-chances s w, runs_bounded ss (step s w))

    -- Over any sequence of the harness's entry points, from any stores and whatever fails in between,
    -- `resume` calls a tool's function at most once for each approval id.
    pub runs-le-one : (ss : List Step) (w : World) → runs j ss w ≤ 1
    runs-le-one ss w =
        omega (arith, runs_bounded ss w, chances-le host.approvals j (lookup j w.approvals))
