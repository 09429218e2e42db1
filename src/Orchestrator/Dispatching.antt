-- ===== src/Orchestrator/Dispatching.antt =====
-- What `_handle` comes to from the decision of a new action on.
use defiant_agent_harness.Common.{
  String, Bool, true, false, Option, none, some, List, [], ◌∷◌, ◌++◌, ◌≡◌, ◌≢◌, refl, sym, ap, ◌∙◌,
  subst, ◌⊎◌, inl, inr, arith, Bool-cases,
}
use defiant_agent_harness.Common.Result.{Result, Result-cases, ok}
use defiant_agent_harness.Contracts.{Decision, ResultStatus}
use defiant_agent_harness.Policy.Types.{Action}
use defiant_agent_harness.Policy.Evaluate.{evaluate}
use defiant_agent_harness.Budgets.Types.{Ledger, BudgetCheck, BudgetError}
use defiant_agent_harness.Evidence.Types.{EvidenceRecord, Line, blank, unreadable, entry}
use defiant_agent_harness.Evidence.Store.{first_record, first_by_action}
use defiant_agent_harness.Tools.Types.{ToolSpec}
use defiant_agent_harness.Tools.Registry.{validate_action}
use defiant_agent_harness.Orchestrator.Types.{Request, Guardrail, World, Host, Harness, Supply}
use defiant_agent_harness.Orchestrator.Monad.{pure, lift, ask_budget}
use defiant_agent_harness.Orchestrator.Basis.{first_of}
use defiant_agent_harness.Orchestrator.Execute.{execute_action}
use defiant_agent_harness.Orchestrator.Expiry.{catch_up}
use defiant_agent_harness.Orchestrator.Handle.{
  context, is_out_of_scope, is_block, needs_approval, tool_contract_error, policy_decision,
  resume_decision, estimate_of, budget_block, reserve_estimate, proceed, after_budget, dispatch,
  prior_of,
}
use defiant_agent_harness.Orchestrator.Frame.{Keeps-bind, bind_cases, bind_ok}
use defiant_agent_harness.Orchestrator.Frame.Methods.{
  Keeps-terminal, Keeps-catch_up, Keeps-hold, Keeps-reserve_estimate, Keeps-authorize_external,
}
use defiant_agent_harness.Orchestrator.Called.{
  SameCalls, SameCalls-IsFrame, Grows, Grows-IsFrame, Grows-chain,
}
use defiant_agent_harness.Orchestrator.Execution.{Executed, execute_action_cases}

-- A record that was found stays the first of its action.
pub first_record-append :
    (p : EvidenceRecord → Bool) (lines more : List Line) (r : EvidenceRecord)
    → first_record p lines ≡ ok (some r)
    → first_record p (lines ++ more) ≡ ok (some r)
unfolding first_record
first_record-append p [] more r h = absurd (ground (arith, h))
first_record-append p (blank ∷ lines) more r h = first_record-append p lines more r h
first_record-append p (unreadable e ∷ lines) more r h = absurd (ground (arith, h))
first_record-append p (entry x ∷ lines) more r h = elim (Bool-cases (p x)) [
  | inl yes' ↦ ground (arith, yes')
  | inr no' ↦ rw no' (first_record-append p lines more r (ground (arith, no')))
]

pub first_by_action-append :
    (id : String) (lines more : List Line) (r : EvidenceRecord)
    → first_by_action id lines ≡ ok (some r)
    → first_by_action id (lines ++ more) ≡ ok (some r)
unfolding first_by_action
first_by_action-append id lines more r h = first_record-append _ lines more r h

first_of_ok :
    (id : String) (w : World) (o : Option EvidenceRecord)
    → first_of id w ≡ (ok o, (first_of id w).1)
    → first_by_action id w.evidence.lines ≡ ok o
unfolding first_of lift
first_of_ok id w o h = ground (arith, Result-cases (first_by_action id w.evidence.lines))

pub ask_budget-stores :
    {A : Type 0} (f : Ledger → Result BudgetError A) (w : World) → (ask_budget f w).1 ≡ w
unfolding ask_budget
ask_budget-stores f w = elim (Result-cases (f w.budget)) [
  | inl (a, e) ↦ rw (e, ask_budget) refl
  | inr (x, e) ↦ rw (e, ask_budget) refl
]

decision_allow : (d : Decision) → is_block d ≡ false → needs_approval d ≡ false → d ≡ Decision.allow
decision_allow Decision.allow b a = refl
decision_allow Decision.block b a = absurd (ground (arith, b))
decision_allow Decision.approval_required b a = absurd (ground (arith, a))

module _ (host : Host) (harness : Harness) (action : Action) (request : Request) where
  pub resume_decision_allow :
      (resume_decision host harness action request).decision ≡ Decision.allow
      → ((spec : ToolSpec) × (validate_action host.tools harness.registry action ≡ ok spec))
        × (is_out_of_scope request action ≡ false)
        × ((evaluate host.platform harness.engine action (some (context request))).decision
            ≡ Decision.allow)
  unfolding resume_decision tool_contract_error policy_decision
  resume_decision_allow h =
      elim (Result-cases (validate_action host.tools harness.registry action)) [
        | inr (e, f) ↦ absurd (ground (arith, f))
        | inl (spec, f) ↦ elim (Bool-cases (is_out_of_scope request action)) [
          | inl out ↦ absurd (ground (arith, f, out))
          | inr within ↦ ((spec, f), within, ground (arith, f, within))
        ]
      ]

  -- Where no prior record was found, there was none before the call either.
  pub prior_none :
      (supply : Supply) (w v : World)
      → prior_of host harness action supply w ≡ (ok none, v)
      → (r : EvidenceRecord) → first_by_action action.action_id w.evidence.lines ≢ ok (some r)
  unfolding prior_of pure
  prior_none supply w v h r found =
      let catching = catch_up host harness supply in
      let (_, _, h1) = bind_ok catching _ w v none h in
      let u = (catching w).1 in
      let (extra, grown) = (Keeps-catch_up {R = Grows} host harness supply).at w in
      let (prior, read, h2) = bind_ok _ _ u v none h1 in
      let (_, _, h3) = bind_ok _ _ _ v none h2 in
      let kept : first_by_action action.action_id u.evidence.lines ≡ ok (some r) =
        ap (first_by_action action.action_id) grown
        ∙ first_by_action-append action.action_id w.evidence.lines extra r found in
      let fell : prior ≡ none = ground (arith, ap (λ q. q.0) h3) in
      ground (arith, first_of_ok action.action_id u prior read, kept, fell)

module _ (host : Host) (harness : Harness) (action : Action) (request : Request)
    (supply : Supply) where
  pub Executed-after :
      (decision : Decision) (u v w : World)
      → SameCalls u v
      → Grows u v
      → Executed host harness action decision v w
      → Executed host harness action decision u w
  Executed-after decision u v w same grown
        (r, front, back, recorded, at, more, id, hash, pending, decided, (joined, real)) =
      (
        r,
        front,
        back,
        recorded,
        at,
        Grows-chain u v w grown more,
        id,
        hash,
        pending,
        decided,
        (joined ∙ ap (λ l. action ∷ l) same, real),
      )

  proceed_cases :
      (decision : Guardrail) (external : Bool) (w : World)
      → let w' = (proceed host harness action request decision external supply w).1 in
        SameCalls w w' ⊎ ((external ≡ false) × Executed host harness action decision.decision w w')
  unfolding proceed
  proceed_cases decision true w = inl (
      (Keeps-bind {R = SameCalls} _ _ (Keeps-reserve_estimate host harness action request supply)
          (λ _.
            Keeps-authorize_external host harness action request decision none "" supply.first)).at
        w)
  proceed_cases decision false w =
      let reserving = reserve_estimate host harness action request supply in
      let running = λ (_ : Unit {0}).
        execute_action host harness action request decision (estimate_of host harness action) none
          "" supply in
      let same = (Keeps-reserve_estimate {R = SameCalls} host harness action request supply).at w in
      let grown = (Keeps-reserve_estimate {R = Grows} host harness action request supply).at w in
      elim (bind_cases reserving running w) [
        | inl (e, h) ↦ inl (ap (λ q. q.1.invoked) h ∙ same)
        | inr (_, _, h) ↦
            elim (execute_action_cases host harness action request decision
              (estimate_of host harness action) none "" supply (reserving w).1) [
                | inl quiet ↦ inl (ap (λ q. q.1.invoked) h ∙ quiet ∙ same)
                | inr ran ↦ inr (
                  refl,
                  subst (λ q. Executed host harness action decision.decision w q.1) (sym h)
                      (Executed-after decision.decision w (reserving w).1
                        (running tt (reserving w).1).1 same grown ran),
                )
              ]
      ]

  -- What a dispatch comes to.
  abbrev pub Dispatched : Guardrail → Bool → World → World → Type 0
  Dispatched decision external w w' =
      SameCalls w w'
      ⊎ ((external ≡ false)
          × (decision.decision ≡ Decision.allow)
          × Executed host harness action Decision.allow w w')

  -- A guardrail that allows lets a dispatch proceed.
  proceed-Dispatched :
      (decision : Guardrail) (external : Bool) (w : World)
      → decision.decision ≡ Decision.allow
      → Dispatched decision external w
          (proceed host harness action request decision external supply w).1
  proceed-Dispatched decision external w allowed =
      let w' = (proceed host harness action request decision external supply w).1 in
      elim (proceed_cases decision external w) [
        | inl same ↦ inl same
        | inr (internal, ran) ↦
            inr (internal, allowed, subst (λ d. Executed host harness action d w w') allowed ran)
      ]

  after_budget_cases :
      (over : Option BudgetCheck) (decision : Guardrail) (owner key : String) (external : Bool)
      (w : World)
      → is_block decision.decision ≡ false
      → Dispatched decision external w
          (after_budget host harness over action request decision owner key external supply w).1
  unfolding after_budget
  after_budget_cases (some check) decision owner key external w nb = inl (
      (Keeps-terminal {R = SameCalls} host harness action request _ ResultStatus.blocked
          supply.first).at
        w)
  after_budget_cases none decision owner key external w nb =
      elim (Bool-cases (needs_approval decision.decision)) [
        | inl a ↦
            rw (a, after_budget)
              (inl (
                (Keeps-hold {R = SameCalls} host harness action request decision owner key
                    supply).at
                  w))
        | inr na ↦
            let allowed = decision_allow decision.decision nb na in
            rw (na, after_budget) (proceed-Dispatched decision external w allowed)
      ]

  pub dispatch_cases :
      (decision : Guardrail) (owner key : String) (external : Bool) (w : World)
      → Dispatched decision external w
          (dispatch host harness action request decision owner key external supply w).1
  unfolding dispatch
  dispatch_cases decision owner key external w = elim (Bool-cases (is_block decision.decision)) [
    | inl b ↦
        rw (b, dispatch)
          (inl (
            (Keeps-terminal {R = SameCalls} host harness action request decision
                ResultStatus.blocked supply.first).at
              w))
    | inr nb ↦
        let asking = ask_budget (budget_block host harness action request) in
        let k = λ (over : Option BudgetCheck).
          after_budget host harness over action request decision owner key external supply in
        rw (nb, dispatch)
          (elim (bind_cases asking k w) [
            | inl (e, h) ↦
                subst (λ q. Dispatched decision external w q.1) (sym h)
                  (inl (ap (λ v. v.invoked) (ask_budget-stores _ w)))
            | inr (over, _, h) ↦
                subst (λ q. Dispatched decision external w q.1) (sym h)
                  (subst (λ v. Dispatched decision external w (k over v).1)
                    (sym (ask_budget-stores _ w))
                    (after_budget_cases over decision owner key external w nb))
          ])
  ]
