-- ===== src/Orchestrator/Held.antt =====
-- What an approval holds of the call that it was made for: `held_action`, `held_request` and
-- `held_decision` of approvals/store.py.
use defiant_agent_harness.Common.{Option, none, some}
use defiant_agent_harness.Common.Result.{Result, ok, err, ◌>>=◌}
use defiant_agent_harness.Policy.Types.{Action}
use defiant_agent_harness.Approvals.Types.{Approval}
use defiant_agent_harness.Orchestrator.Types.{Request, Guardrail, HarnessError, Host}

pub record Held : Type 0 where
  pub action : Action
  pub request : Request
  pub decision : Guardrail

-- A snapshot that is absent is an error of the approval; one that is there is decoded.
abbrev pub decoded : {S A : Type 0} → (S → Option A) → Option S → Result HarnessError A
decoded decode none = err HarnessError.no_snapshot
decoded decode (some s) = elim (decode s) [ none ↦ err HarnessError.bad_snapshot | some a ↦ ok a ]

module _ (host : Host) (a : Approval) where
  unfoldable pub held_action : Result HarnessError Action
  held_action = decoded host.decode_action a.action_snapshot

  unfoldable pub held_request : Result HarnessError Request
  held_request = decoded host.decode_request a.request_snapshot

  unfoldable pub held_decision : Result HarnessError Guardrail
  held_decision = decoded host.decode_decision a.decision_snapshot

  unfoldable pub held : Result HarnessError Held
  held = do
    action ← held_action
    request ← held_request
    decision ← held_decision
    ok (record { action = action; request = request; decision = decision })
