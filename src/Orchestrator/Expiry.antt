-- ===== src/Orchestrator/Expiry.antt =====
-- `reconcile_expired_approvals`: every approval that is due ends as expired, through the journal.
use defiant_agent_harness.Common.{ℕ, suc, String, none, some, List, [], ◌∷◌}
use defiant_agent_harness.Common.Int.{pos, ◌+ℤ◌}
use defiant_agent_harness.Common.Result.{ok, err}
use defiant_agent_harness.Contracts.{ResultStatus}
use defiant_agent_harness.Approvals.Types.{Approval}
use defiant_agent_harness.Approvals.Queries.{due}
use defiant_agent_harness.Evidence.Types.{Content}
use defiant_agent_harness.Journal.Types.{Draft, Ids, Details, Payload}
use defiant_agent_harness.Journal.Store.{prepare}
use defiant_agent_harness.Orchestrator.Types.{
  Detail, HarnessError, Host, Harness, Making, Supply, ActionOutcome,
}
use defiant_agent_harness.Orchestrator.Monad.{
  M, ◌>>=◌, ◌>>◌, pure, raise, require, ask_budget, on_approvals, on_journal,
}
use defiant_agent_harness.Orchestrator.Held.{Held, held}
use defiant_agent_harness.Orchestrator.Records.{
  sealed, balance, Particulars, particulars, make_record,
}
use defiant_agent_harness.Orchestrator.Recovery.{amount, recover, recover_operation}

-- `record.to_dict()` of a prepared record.
abbrev pub draft : Content → Draft
draft content = record { content = content; previous_record_hash = ""; record_hash = "" }

-- `self.state_integrity.require_safe()`
unfoldable pub require_safe : Host → M (Unit {0})
require_safe host w = (require (host.is_safe w) HarnessError.unsafe_state) w

-- An operation is prepared in the journal and then recovered as if it had been found there.
unfoldable pub perform : Host → Making → String → Payload → M (Unit {0})
perform host making kind payload = do
  op ←
      on_journal
        (prepare host.journal (some kind) (some payload) making.operation_id making.prepared_at)
  recover host making.readings op

abbrev pub ids_of : Approval → Ids
ids_of a = record {
  approval_id = some a.approval_id;
  action_id = some a.action_id;
  request_id = some a.request_id;
}

-- A record of how an approval ended, with the balance that will be free of its reservation.
unfoldable pub ending : Host → Harness → Particulars → Approval → Making → M Content
ending host harness p a making = do
  free ← ask_budget balance
  make_record host harness (record p { remaining = some (free +ℤ pos a.reserved) }) making

module _ (host : Host) (harness : Harness) where
  -- The body of the loop.
  unfoldable pub expire_held : Approval → Held → Making → M ActionOutcome
  expire_held a h making = do
    let action = sealed host h.action
    content ←
        ending host harness
          (particulars action h.request h.decision ResultStatus.expired Detail.expired) a making
    perform host making "approval_expire" (record {
      details = Details.expires (ids_of a);
      amount = amount a.reserved;
      evidence = some (draft content);
    })
    pure (record {
      action = action;
      decision = h.decision;
      status = ResultStatus.expired;
      evidence_record_id = content.record_id;
      approval_id = a.approval_id;
      result = none;
    })

  -- An approval without its snapshots stays as it is.
  unfoldable pub expire_each : (ℕ → Making) → ℕ → List Approval → M (List ActionOutcome)
  expire_each makings i [] = pure []
  expire_each makings i (a ∷ as') =
      let rest = expire_each makings (suc i) as' in
      elim (held host a) [
        | err HarnessError.no_snapshot ↦ rest
        | err e ↦ raise e
        | ok h ↦ do
          outcome ← expire_held a h (makings i)
          outcomes ← rest
          pure (outcome ∷ outcomes)
      ]

  unfoldable pub reconcile_expired_approvals : Supply → M (List ActionOutcome)
  reconcile_expired_approvals supply = do
    recover_operation host supply.expiry_recovery
    require_safe host
    as' ← on_approvals (due supply.due_at)
    expire_each supply.expiries 0 as'

  -- What an entry point does before it looks at the action or at the approval.
  unfoldable pub catch_up : Supply → M (Unit {0})
  catch_up supply = do
    recover_operation host supply.recovery
    reconcile_expired_approvals supply
    require_safe host
