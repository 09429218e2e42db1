-- ===== src/Orchestrator/Frame/Methods.antt =====
-- Every frame is kept by the methods that run no tool: the making of records, the expiry of approvals,
-- the holding of an action, and the completion of a known result.
use defiant_agent_harness.Common.{
  ℕ, suc, String, Option, none, some, List, [], ◌∷◌, inl, inr, Option-cases,
}
use defiant_agent_harness.Common.Int.{ℤ}
use defiant_agent_harness.Common.Dict.{lookup}
use defiant_agent_harness.Common.Result.{Result, ok, err}
use defiant_agent_harness.Contracts.{ResultStatus}
use defiant_agent_harness.Policy.Types.{Action}
use defiant_agent_harness.Approvals.Types.{Approval}
use defiant_agent_harness.Evidence.Types.{EvidenceRecord}
use defiant_agent_harness.Journal.Types.{Payload}
use defiant_agent_harness.Tools.Types.{ToolResult}
use defiant_agent_harness.Orchestrator.Types.{
  Request, Guardrail, Detail, HarnessError, World, Host, Harness, Making, Supply,
}
use defiant_agent_harness.Orchestrator.Monad.{◌>>=◌, pure, raise}
use defiant_agent_harness.Orchestrator.Basis.{
  remember, remember_action_basis, basis_of, first_of, basis_for_action,
}
use defiant_agent_harness.Orchestrator.Held.{Held, held}
use defiant_agent_harness.Orchestrator.Records.{
  Particulars, remaining_of, make_record, append_record, terminal,
}
use defiant_agent_harness.Orchestrator.Expiry.{
  require_safe, perform, ending, expire_held, expire_each, reconcile_expired_approvals, catch_up,
}
use defiant_agent_harness.Orchestrator.Execute.{
  complete_known_result, seal_authorization, authorize_external,
}
use defiant_agent_harness.Orchestrator.Handle.{hold, prior_of, reserve_estimate}
use defiant_agent_harness.Orchestrator.Frame.{
  IsFrame, Keeps, keeping, Keeps-raise, Keeps-bind, Keeps-require, Keeps-lift,
}
use defiant_agent_harness.Orchestrator.Frame.Recovery.{
  Keeps-append, Keeps-completion_of, Keeps-recover, Keeps-recover_operation, Keeps-due,
}

module _ {R : World → World → Type 0} ⦃frame : IsFrame R⦄ where
  pub Keeps-remember : (id basis : String) → Keeps R (remember_action_basis id basis)
  unfolding remember_action_basis pure
  Keeps-remember id basis =
      Keeps-bind _ _ (Keeps-require _ _)
        (λ _. record { at = λ w. frame.bases w (remember id basis w.bases) })

  Keeps-first_of : (id : String) → Keeps R (first_of id)
  unfolding first_of
  Keeps-first_of id = record { at = λ w. (Keeps-lift {R = R} _ _).at w }

  Keeps-basis_for_action : (harness : Harness) (id : String) → Keeps R (basis_for_action harness id)
  unfolding basis_for_action pure
  Keeps-basis_for_action harness id = record {
    at = λ w. elim (Option-cases (lookup id w.bases)) [
      | inl e ↦
          rw (e, basis_for_action)
            ((Keeps-bind {R = R} _ _ (Keeps-first_of id)
                (λ prior. Keeps-remember id (basis_of harness prior))).at
              w)
      | inr (b, e) ↦ rw (e, basis_for_action) (frame.bases w _)
    ];
  }

ruleset bases = (Keeps-remember, Keeps-first_of, Keeps-basis_for_action)

module _ {R : World → World → Type 0} ⦃frame : IsFrame R⦄ (host : Host) (harness : Harness) where
  Keeps-remaining_of : (o : Option ℤ) → Keeps R (remaining_of host harness o)
  unfolding remaining_of
  Keeps-remaining_of none = search keeping
  Keeps-remaining_of (some n) = search keeping

  Keeps-make_record :
      (p : Particulars) (making : Making) → Keeps R (make_record host harness p making)
  unfolding make_record
  Keeps-make_record p making = search (keeping, bases, Keeps-remaining_of)

  pub Keeps-append_record :
      (p : Particulars) (making : Making) → Keeps R (append_record host harness p making)
  unfolding append_record
  Keeps-append_record p making = search (keeping, Keeps-make_record, Keeps-append)

  pub Keeps-terminal :
      (action : Action) (request : Request) (decision : Guardrail) (status : ResultStatus)
      (making : Making)
      → Keeps R (terminal host harness action request decision status making)
  unfolding terminal
  Keeps-terminal action request decision status making = search (keeping, Keeps-append_record)

  pub Keeps-perform :
      (making : Making) (kind : String) (payload : Payload)
      → Keeps R (perform host making kind payload)
  unfolding perform
  Keeps-perform making kind payload = search (keeping, Keeps-recover)

  pub Keeps-require_safe : Keeps R (require_safe host)
  unfolding require_safe
  Keeps-require_safe = record { at = λ w. (Keeps-require {R = R} _ _).at w }

  pub Keeps-ending :
      (p : Particulars) (a : Approval) (making : Making) → Keeps R (ending host harness p a making)
  unfolding ending
  Keeps-ending p a making = search (keeping, Keeps-make_record)

  Keeps-expire_held :
      (a : Approval) (h : Held) (making : Making) → Keeps R (expire_held host harness a h making)
  unfolding expire_held
  Keeps-expire_held a h making = search (keeping, Keeps-ending, Keeps-perform)

  Keeps-expire_each :
      (makings : ℕ → Making) (i : ℕ) (as' : List Approval)
      → Keeps R (expire_each host harness makings i as')
  unfolding expire_each
  Keeps-expire_each makings i [] = search keeping
  Keeps-expire_each makings i (a ∷ as') =
      ended (held host a) (Keeps-expire_each makings (suc i) as')
    where
      ended :
          (r : Result HarnessError Held)
          → Keeps R (expire_each host harness makings (suc i) as')
          → Keeps R (elim r [
            | err HarnessError.no_snapshot ↦ expire_each host harness makings (suc i) as'
            | err e ↦ raise e
            | ok h ↦ do
              outcome ← expire_held host harness a h (makings i)
              outcomes ← expire_each host harness makings (suc i) as'
              pure (outcome ∷ outcomes)
          ])
      ended (ok h) rest = search (keeping, Keeps-expire_held)
      ended (err HarnessError.no_snapshot) rest = rest
      ended (err e) rest = Keeps-raise e

  pub Keeps-expired : (supply : Supply) → Keeps R (reconcile_expired_approvals host harness supply)
  unfolding reconcile_expired_approvals
  Keeps-expired supply =
      search (keeping, Keeps-recover_operation, Keeps-require_safe, Keeps-due, Keeps-expire_each)

  pub Keeps-catch_up : (supply : Supply) → Keeps R (catch_up host harness supply)
  unfolding catch_up
  Keeps-catch_up supply =
      search (keeping, Keeps-recover_operation, Keeps-expired, Keeps-require_safe)

  pub Keeps-prior_of :
      (action : Action) (supply : Supply) → Keeps R (prior_of host harness action supply)
  unfolding prior_of
  Keeps-prior_of action supply = search (keeping, bases, Keeps-catch_up)

  pub Keeps-hold :
      (action : Action) (request : Request) (decision : Guardrail) (owner key : String)
      (supply : Supply)
      → Keeps R (hold host harness action request decision owner key supply)
  unfolding hold
  Keeps-hold action request decision owner key supply =
      search (keeping, Keeps-make_record, Keeps-perform) depth 30

  pub Keeps-reserve_estimate :
      (action : Action) (request : Request) (supply : Supply)
      → Keeps R (reserve_estimate host harness action request supply)
  unfolding reserve_estimate
  Keeps-reserve_estimate action request supply = search keeping

  pub Keeps-complete_known_result :
      (authorization : EvidenceRecord) (action : Action) (request : Request) (decision : Guardrail)
      (r : ToolResult) (estimate : ℕ) (approved_by : Option String) (approval_id : String)
      (making : Making)
      → Keeps R (
          complete_known_result host harness authorization action request decision r estimate
            approved_by approval_id making)
  unfolding complete_known_result
  Keeps-complete_known_result authorization action request decision r estimate approved_by
        approval_id making =
      search (keeping, Keeps-make_record, Keeps-completion_of, Keeps-perform) depth 30

  pub Keeps-seal_authorization :
      (action : Action) (request : Request) (decision : Guardrail) (by : Option String)
      (detail : Detail) (making : Making)
      → Keeps R (seal_authorization host harness action request decision by detail making)
  unfolding seal_authorization
  Keeps-seal_authorization action request decision by detail making = Keeps-append_record _ _

  pub Keeps-authorize_external :
      (action : Action) (request : Request) (decision : Guardrail) (by : Option String)
      (id : String) (making : Making)
      → Keeps R (authorize_external host harness action request decision by id making)
  unfolding authorize_external
  Keeps-authorize_external action request decision by id making =
      search (keeping, Keeps-seal_authorization)
