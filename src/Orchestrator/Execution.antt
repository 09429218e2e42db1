-- ===== src/Orchestrator/Execution.antt =====
-- When `_handle` calls a tool's function: what holds of the action, and what is sealed before.
use mathlib.Core.List.{append-nil, append_assoc}
use defiant_agent_harness.Common.{
  ℕ, String, true, Option, some, List, [], ◌∷◌, ◌++◌, ◌≡◌, refl, sym, ap, ◌∙◌, subst, ◌⊎◌, inl, inr,
  arith,
}
use defiant_agent_harness.Common.Int.{ℤ}
use defiant_agent_harness.Common.Result.{Result, Result-cases, ok, err}
use defiant_agent_harness.Contracts.{Decision, ResultStatus}
use defiant_agent_harness.Policy.Types.{Action}
use defiant_agent_harness.Evidence.Types.{Content, EvidenceRecord, Line, entry, EvidenceError}
use defiant_agent_harness.Evidence.Chain.{raw, verify_evidence_records}
use defiant_agent_harness.Evidence.Append.{append-IsOpen}
use defiant_agent_harness.Evidence.Store.{Log}
use defiant_agent_harness.Tools.Types.{CapabilityGrant}
use defiant_agent_harness.Tools.Registry.{Cell}
use defiant_agent_harness.Orchestrator.Types.{
  Request, Guardrail, Detail, HarnessError, World, Host, Harness, Making, Supply,
}
use defiant_agent_harness.Orchestrator.Monad.{lift, on_evidence, pure}
use defiant_agent_harness.Orchestrator.Records.{
  Particulars, particulars, content_of, make_record, append_record,
}
use defiant_agent_harness.Orchestrator.Execute.{
  run_tool, seal_authorization, after_authorization, execute_action,
}
use defiant_agent_harness.Orchestrator.Frame.{keeping, bind_cases, bind_ok}
use defiant_agent_harness.Orchestrator.Frame.Methods.{
  Keeps-append_record, Keeps-complete_known_result,
}
use defiant_agent_harness.Orchestrator.Called.{
  SameCalls, SameCalls-IsFrame, Grows, Grows-chain, Grows-IsFrame, Joined, execute_calls,
  run_tool-stores, content-seal, Called, Called-then, then-Called,
}

lift-stores :
    {E A : Type 0} (name : E → HarnessError) (r : Result E A) (w : World) → (lift name r w).1 ≡ w
unfolding lift
lift-stores name (ok a) w = refl
lift-stores name (err e) w = refl

-- The lines up to this record can be read, and are an intact chain.
abbrev pub IsSealedAt : Host → List Line → EvidenceRecord → Type 0
IsSealedAt host front r =
    (records : List EvidenceRecord) × (raw (front ++ entry r ∷ []) ≡ ok records)
    × ((verify_evidence_records host.evidence.sha256 (front ++ entry r ∷ [])).is_ok ≡ true)

-- The action's call followed a sealed record of this decision that authorizes this very action.
abbrev pub Executed : Host → Harness → Action → Decision → World → World → Type 0
Executed host harness action decision w w' =
    (r : EvidenceRecord) × (front : List Line) × (back : List Line) × (w'.evidence.lines
      ≡ front ++ entry r ∷ back)
    × IsSealedAt host front r
    × Grows w w'
    × (r.body.content.action_id ≡ action.action_id)
    × (r.body.content.authorization_hash ≡ action.authorization_hash)
    × (r.body.content.result_status ≡ ResultStatus.skipped)
    × (r.body.content.decision ≡ decision)
    × Joined harness action w w'

module _ (host : Host) (harness : Harness) where
  make_record-content :
      (p : Particulars) (making : Making) (w w' : World) (c : Content)
      → make_record host harness p making w ≡ (ok c, w')
      → (basis : String) × (remaining : ℤ) × (c ≡ content_of host harness p making basis remaining)
  unfolding make_record pure
  make_record-content p making w w' c h =
      let (basis, _, h1) = bind_ok _ _ w w' c h in
      let (remaining, _, h2) = bind_ok _ _ _ w' c h1 in
      (basis, remaining, ground (arith, ap (λ q. q.0) h2))

  on_evidence_ok :
      {A : Type 0} (f : Log → Result EvidenceError A × Log) (w w' : World) (a : A)
      → on_evidence f w ≡ (ok a, w')
      → (f w.evidence ≡ (ok a, w'.evidence)) × (w' ≡ record w { evidence = w'.evidence })
  unfolding on_evidence
  on_evidence_ok f w w' a h = ground (arith, Result-cases (f w.evidence).0)

  -- A record that `_record` returns is the last line, and says what it was asked to say.
  pub append_record-sealed :
      (p : Particulars) (making : Making) (w : World) (r : EvidenceRecord)
      → append_record host harness p making w ≡ (ok r, (append_record host harness p making w).1)
      → (front : List Line) × (basis : String) × (remaining : ℤ) × ((append_record host harness p
            making w).1.evidence.lines
          ≡ front ++ entry r ∷ [])
        × IsSealedAt host front r
        × (r.body.content ≡ content_of host harness p making basis remaining)
  unfolding append_record
  append_record-sealed p making w r h =
      let (content, made, h1) = bind_ok _ _ w _ r h in
      let (basis, remaining, shape) = make_record-content p making w _ content made in
      let (appended, _) = on_evidence_ok _ _ _ r h1 in
      let (added, sealed, o, intact) =
        append-IsOpen host.evidence making.readings.checkpoint_at content _ _ r appended in
      (
        _,
        basis,
        remaining,
        added,
        (
          _,
          ap raw (sym added) ∙ o.read,
          ap (λ l. (verify_evidence_records host.evidence.sha256 l).is_ok) (sym added) ∙ intact,
        ),
        ap (λ x. x.body.content) sealed ∙ content-seal host.evidence.sha256 content _ ∙ shape,
      )

  Called-run_tool :
      (action : Action) (g : CapabilityGrant) (u : World)
      → Called harness action u (run_tool host harness action g u).1
  Called-run_tool action g u =
      let c : Cell = record { grant = some g; invoked = u.invoked } in
      let stores = run_tool-stores host harness action g u in
      elim (execute_calls host harness action c) [
        | inl same ↦ inl (ap (λ v. v.invoked) stores ∙ same)
        | inr (joined, real) ↦ inr (
          (ap (λ v. v.invoked) stores ∙ joined, real),
          ([], ap (λ v. v.evidence.lines) stores ∙ sym (append-nil u.evidence.lines)),
        )
      ]

  run_and_complete :
      (authorization : EvidenceRecord) (action : Action) (request : Request) (decision : Guardrail)
      (estimate : ℕ) (by : Option String) (id : String) (supply : Supply) (u : World)
      → Called harness action u
          (after_authorization host harness authorization action request decision estimate by id
            supply u).1
  unfolding after_authorization
  run_and_complete authorization action request decision estimate by id supply u =
      then-Called harness action _ _ u (lift-stores _ _ u) λ grant.
        Called-then harness action (run_tool host harness action grant) _ u
          (Called-run_tool action grant u) (λ r. search (keeping, Keeps-complete_known_result))
          (λ r. search (keeping, Keeps-complete_known_result))

  -- What an execution leaves: it called no tool's function, or it called one after a record was sealed
  -- that authorizes this very action.
  pub execute_action_cases :
      (action : Action) (request : Request) (decision : Guardrail) (estimate : ℕ)
      (by : Option String) (id : String) (supply : Supply) (w : World)
      → let w' = (execute_action host harness action request decision estimate by id supply w).1 in
        SameCalls w w' ⊎ Executed host harness action decision.decision w w'
  unfolding execute_action seal_authorization content_of
  execute_action_cases action request decision estimate by id supply w =
      let p : Particulars =
        record (particulars action request decision ResultStatus.skipped
          Detail.authorized_execution) { approved_by = by } in
      let sealing = append_record host harness p supply.first in
      let rest = λ (r : EvidenceRecord).
        after_authorization host harness r action request decision estimate by id supply in
      let quiet = (Keeps-append_record {R = SameCalls} host harness p supply.first).at w in
      let grown = (Keeps-append_record {R = Grows} host harness p supply.first).at w in
      elim (bind_cases sealing rest w) [
        | inl (e, h) ↦ inl (ap (λ q. q.1.invoked) h ∙ quiet)
        | inr (r, sealed, h) ↦
            let v = (sealing w).1 in
            let (front, basis, remaining, added, sealed_at, shape) =
              append_record-sealed p supply.first w r sealed in
            elim (run_and_complete r action request decision estimate by id supply v) [
              | inl same ↦ inl (ap (λ q. q.1.invoked) h ∙ same ∙ quiet)
              | inr ((joined, real), (back, more)) ↦ inr (
                r,
                front,
                back,
                ap (λ q. q.1.evidence.lines) h
                    ∙ more
                    ∙ ap (λ l. l ++ back) added
                    ∙ append_assoc front (entry r ∷ []) back,
                sealed_at,
                subst (λ q. Grows w q.1) (sym h) (Grows-chain w v (rest r v).1 grown (back, more)),
                ap (λ c. c.action_id) shape,
                ap (λ c. c.authorization_hash) shape,
                ap (λ c. c.result_status) shape,
                ap (λ c. c.decision) shape,
                (ap (λ q. q.1.invoked) h ∙ joined ∙ ap (λ l. action ∷ l) quiet, real),
              )
            ]
      ]
