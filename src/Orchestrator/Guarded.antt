-- ===== src/Orchestrator/Guarded.antt =====
-- `handle_call` guards every call of a tool's function: what is decided, and what is sealed before.
use defiant_agent_harness.Common.{
  String, Bool, true, false, Option, none, some, List, ◌∷◌, ◌++◌, ◌≡◌, ◌≢◌, refl, sym, ap, ◌∙◌,
  subst, ◌⊎◌, inl, inr, arith,
}
use defiant_agent_harness.Common.Result.{ok}
use defiant_agent_harness.Contracts.{Decision, ResultStatus}
use defiant_agent_harness.Policy.Types.{Action}
use defiant_agent_harness.Policy.Evaluate.{evaluate}
use defiant_agent_harness.Evidence.Types.{EvidenceRecord, Line, entry}
use defiant_agent_harness.Evidence.Store.{first_by_action}
use defiant_agent_harness.Tools.Types.{ToolSpec}
use defiant_agent_harness.Tools.Registry.{validate_action}
use defiant_agent_harness.Orchestrator.Types.{Request, HarnessError, World, Host, Harness, Supply}
use defiant_agent_harness.Orchestrator.Monad.{refuse}
use defiant_agent_harness.Orchestrator.Records.{sealed}
use defiant_agent_harness.Orchestrator.Handle.{
  context, is_out_of_scope, resume_decision, decide_new, prior_of, handle_action, handle,
}
use defiant_agent_harness.Orchestrator.Frame.{bind_cases}
use defiant_agent_harness.Orchestrator.Frame.Methods.{Keeps-terminal, Keeps-prior_of}
use defiant_agent_harness.Orchestrator.Called.{SameCalls, SameCalls-IsFrame, Grows-IsFrame}
use defiant_agent_harness.Orchestrator.Execution.{IsSealedAt}
use defiant_agent_harness.Orchestrator.Dispatching.{
  resume_decision_allow, prior_none, dispatch_cases,
}

-- A tool's function was called for this action: it was registered, in the request's scope, allowed by
-- the policy and without records; the last thing before was a sealed record that authorizes it.
pub record Ran (host : Host) (harness : Harness) (action : Action) (request : Request)
    (w w' : World) : Type 0 where
  pub enabled : harness.execution_disabled ≡ false
  pub real : harness.dry_run ≡ false
  pub registered :
      (spec : ToolSpec) × (validate_action host.tools harness.registry action ≡ ok spec)
  pub in_scope : is_out_of_scope request action ≡ false
  pub allowed :
      (evaluate host.platform harness.engine action (some (context request))).decision
      ≡ Decision.allow
  pub fresh : (r : EvidenceRecord) → first_by_action action.action_id w.evidence.lines ≢ ok (some r)
  pub authorization : EvidenceRecord
  pub front : List Line
  pub back : List Line
  pub recorded : w'.evidence.lines ≡ front ++ entry authorization ∷ back
  pub sealed_at : IsSealedAt host front authorization
  pub for_action : authorization.body.content.action_id ≡ action.action_id
  pub for_content : authorization.body.content.authorization_hash ≡ action.authorization_hash
  pub pending : authorization.body.content.result_status ≡ ResultStatus.skipped
  pub decided : authorization.body.content.decision ≡ Decision.allow
  pub called : w'.invoked ≡ action ∷ w.invoked

refuse-stores : (b : Bool) (e : HarnessError) (w : World) → (refuse b e w).1 ≡ w
unfolding refuse
refuse-stores true e w = refl
refuse-stores false e w = refl

refuse_ok : (b : Bool) (e : HarnessError) (w v : World) → refuse b e w ≡ (ok tt, v) → b ≡ false
unfolding refuse
refuse_ok true e w v h = absurd (ground (arith, ap (λ q. q.0) h))
refuse_ok false e w v h = refl

module _ (host : Host) (harness : Harness) (proposed : Action) (request : Request)
    (owner key : String) (external : Bool) (supply : Supply) where
  -- What a call of `handle_call` comes to.
  abbrev Handled : World → World → Type 0
  Handled w w' =
      SameCalls w w' ⊎ ((external ≡ false) × Ran host harness (sealed host proposed) request w w')

  decide_new_cases :
      (prior : Option EvidenceRecord) (w v : World)
      → harness.execution_disabled ≡ false
      → SameCalls w v
      → prior_of host harness (sealed host proposed) supply w ≡ (ok prior, v)
      → Handled w
          (decide_new host harness prior
            (sealed host proposed)
            request
            owner
            key
            external
            supply
            v).1
  unfolding decide_new
  decide_new_cases (some r) w v on same h = inl (
      (Keeps-terminal {R = SameCalls} host harness (sealed host proposed) request _
          ResultStatus.blocked supply.first).at
        v
      ∙ same)
  decide_new_cases none w v on same h =
      let action = sealed host proposed in
      let decision = resume_decision host harness action request in
      elim (dispatch_cases host harness action request supply decision owner key external v) [
        | inl quiet ↦ inl (quiet ∙ same)
        | inr
              (
                internal,
                allowed,
                (r, front, back, recorded, at, more, id, hash, pending, decided, (joined, real)),
              ) ↦
            let (spec, scope, agreed) = resume_decision_allow host harness action request allowed in
            inr (
              internal,
              record {
                enabled = on;
                real = real;
                registered = spec;
                in_scope = scope;
                allowed = agreed;
                fresh = prior_none host harness action request supply w v h;
                authorization = r;
                front = front;
                back = back;
                recorded = recorded;
                sealed_at = at;
                for_action = id;
                for_content = hash;
                pending = pending;
                decided = decided;
                called = joined ∙ ap (λ l. action ∷ l) same;
              },
            )
      ]

  handle_action_cases :
      (w : World)
      → harness.execution_disabled ≡ false
      → Handled w (handle_action host harness proposed request owner key external supply w).1
  unfolding handle_action
  handle_action_cases w on =
      let action = sealed host proposed in
      let looking = prior_of host harness action supply in
      let same = (Keeps-prior_of {R = SameCalls} host harness action supply).at w in
      elim (bind_cases looking
        (λ prior. decide_new host harness prior action request owner key external supply) w) [
          | inl (e, h) ↦ inl (ap (λ q. q.1.invoked) h ∙ same)
          | inr (prior, looked, h) ↦
              subst (λ q. Handled w q.1) (sym h)
                (decide_new_cases prior w (looking w).1 on same looked)
        ]

  -- Whatever the stores, `handle_call` calls no tool's function, or the call is not external and it calls
  -- exactly one, for the proposed action: execution is then enabled and no dry run, the tool is
  -- registered for the action, the request allows it, the policy decides allow, the action's id had no
  -- record, and a record that authorizes this very action was sealed on an intact chain (`Ran`).
  pub handle-Ran :
      (w : World)
      → let w' = (handle host harness proposed request owner key external supply w).1 in
        (w'.invoked ≡ w.invoked)
        ⊎ ((external ≡ false) × Ran host harness (sealed host proposed) request w w')
  unfolding handle
  handle-Ran w =
      let guard = refuse harness.execution_disabled HarnessError.execution_disabled in
      let kept = refuse-stores harness.execution_disabled HarnessError.execution_disabled w in
      let k =
        λ (_ : Unit {0}). handle_action host harness proposed request owner key external supply in
      elim (bind_cases guard k w) [
        | inl (e, h) ↦ inl (ap (λ q. q.1.invoked) h ∙ ap (λ v. v.invoked) kept)
        | inr (_, passed, h) ↦
            subst (λ q. Handled w q.1) (sym h)
              (subst (λ v. Handled w (k tt v).1) (sym kept)
                (handle_action_cases w (
                  refuse_ok harness.execution_disabled HarnessError.execution_disabled w _ passed)))
      ]
