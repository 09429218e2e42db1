-- ===== src/Orchestrator/Execute.antt =====
-- `_execute`, `_authorize_external` and `_complete_known_result`: an authorization is sealed, the tool
-- runs on a grant for it, and its result is journaled before any store is settled.
use defiant_agent_harness.Common.{ℕ, String, Bool, ◌||◌, Option, none, some, ltb, if◌then◌else◌}
use defiant_agent_harness.Common.Int.{ℤ}
use defiant_agent_harness.Common.Result.{Result}
use defiant_agent_harness.Contracts.{ResultStatus}
use defiant_agent_harness.Policy.Types.{Action}
use defiant_agent_harness.Budgets.Types.{Ledger, BudgetError}
use defiant_agent_harness.Budgets.Operations.{preview_settlement}
use defiant_agent_harness.Evidence.Types.{Content, EvidenceRecord}
use defiant_agent_harness.Journal.Types.{CompletionSubject, Details, Payload}
use defiant_agent_harness.Tools.Types.{CapabilityGrant, Evidence, ToolStatus, ToolResult}
use defiant_agent_harness.Tools.Registry.{authorize, execute}
use defiant_agent_harness.Orchestrator.Types.{
  Request, Guardrail, Detail, HarnessError, Host, Harness, Making, Supply, ActionOutcome,
}
use defiant_agent_harness.Orchestrator.Monad.{M, ◌>>=◌, ◌>>◌, pure, lift, ask_budget}
use defiant_agent_harness.Orchestrator.Reading.{completion_of}
use defiant_agent_harness.Orchestrator.Records.{
  balance, Particulars, particulars, make_record, append_record,
}
use defiant_agent_harness.Orchestrator.Recovery.{amount}
use defiant_agent_harness.Orchestrator.Expiry.{draft, perform}

-- What an action is charged: nothing for a dry run, the cost that the tool reported, or the estimate
-- where it reported none.
unfoldable pub actual_cost : ToolResult → ℕ → ℕ
actual_cost r estimate = if r.dry_run then 0 else if ltb 0 r.cost then r.cost else estimate

unfoldable pub status_of_result : ToolStatus → ResultStatus
status_of_result ToolStatus.succeeded = ResultStatus.succeeded
status_of_result ToolStatus.failed = ResultStatus.failed

-- `disposition == "settle"`
unfoldable pub settles : ℕ → ℕ → Bool
settles estimate actual = ltb 0 estimate || ltb 0 actual

-- The balance that the record states.
unfoldable pub remaining_after : ℕ → ℕ → String → String → Ledger → Result BudgetError ℤ
remaining_after estimate actual request_id action_id file =
    if settles estimate actual
    then preview_settlement (amount estimate) (amount actual) request_id action_id file
    else balance file

-- The payload that the journal keeps of a known result.
abbrev pub completion_payload : CompletionSubject → String → ℕ → ℕ → Content → Payload
completion_payload subject approval_id estimate actual content = record {
  details = Details.completes (record {
    authority = some subject;
    approval_id = some approval_id;
    actual = amount actual;
    budget_disposition = some (if settles estimate actual then "settle" else "none");
  });
  amount = amount estimate;
  evidence = some (draft content);
}

-- The record of a known result.
abbrev pub result_particulars :
    Action → Request → Guardrail → ToolResult → ℕ → Option String → ℤ → Particulars
result_particulars action request decision r actual approved_by remaining =
    record (particulars action request decision (status_of_result r.status)
      (Detail.summary r.summary)) {
        approved_by = approved_by;
        result = some (record r { cost = actual });
        remaining = some remaining;
      }

module _ (host : Host) (harness : Harness) where
  -- `_complete_known_result`
  unfoldable pub complete_known_result :
      EvidenceRecord
      → Action
      → Request
      → Guardrail
      → ToolResult
      → ℕ
      → Option String
      → String
      → Making
      → M Content
  complete_known_result authorization action request decision r estimate approved_by approval_id
        making =
      do
        let actual = actual_cost r estimate
        remaining ← ask_budget (remaining_after estimate actual request.request_id action.action_id)
        content ←
            make_record host harness
              (result_particulars action request decision r actual approved_by remaining) making
        subject ← completion_of authorization
        perform host making "execution_complete"
            (completion_payload subject approval_id estimate actual content)
        pure content

  -- The fields of a sealed record that a grant rests on.
  unfoldable pub grant_evidence : EvidenceRecord → Evidence
  grant_evidence r = record {
    record_id = r.body.content.record_id;
    record_hash = r.record_hash;
    body = host.body_text r.body;
    action_id = r.body.content.action_id;
    tool_name = r.body.content.tool_name;
    authorization_hash = r.body.content.authorization_hash;
    result_status = r.body.content.result_status;
    decision = r.body.content.decision;
  }

  -- `self.tools.execute(action, grant, dry_run=self.dry_run)`
  unfoldable pub run_tool : Action → CapabilityGrant → M ToolResult
  run_tool action grant w =
      let (r, cell) =
        execute host.tools harness.registry action (some harness.dry_run)
          (record { grant = some grant; invoked = w.invoked }) in
      (lift HarnessError.tools r) (record w { invoked = cell.invoked })

  -- The sealed record that an execution starts from.
  unfoldable pub seal_authorization :
      Action → Request → Guardrail → Option String → Detail → Making → M EvidenceRecord
  seal_authorization action request decision approved_by detail making =
      append_record host harness
        (record (particulars action request decision ResultStatus.skipped detail) {
          approved_by = approved_by;
        })
        making

  -- `_authorize_external`
  unfoldable pub authorize_external :
      Action → Request → Guardrail → Option String → String → Making → M ActionOutcome
  authorize_external action request decision approved_by approval_id making = do
    r ← seal_authorization action request decision approved_by Detail.authorized_external making
    pure (record {
      action = action;
      decision = decision;
      status = ResultStatus.skipped;
      evidence_record_id = r.body.content.record_id;
      approval_id = approval_id;
      result = none;
    })

  -- The rest of `_execute`, once its authorization is sealed.
  unfoldable pub after_authorization :
      EvidenceRecord
      → Action
      → Request
      → Guardrail
      → ℕ
      → Option String
      → String
      → Supply
      → M ActionOutcome
  after_authorization authorization action request decision estimate approved_by approval_id
        supply =
      do
        grant ← lift HarnessError.tools (
            authorize host.tools harness.registry action (grant_evidence authorization)
              supply.grant_id supply.issued_at)
        r ← run_tool action grant
        content ←
            complete_known_result authorization action request decision r estimate approved_by
              approval_id supply.last
        pure (record {
          action = action;
          decision = decision;
          status = content.result_status;
          evidence_record_id = content.record_id;
          approval_id = approval_id;
          result = some (record r { cost = actual_cost r estimate });
        })

  -- `_execute`
  unfoldable pub execute_action :
      Action → Request → Guardrail → ℕ → Option String → String → Supply → M ActionOutcome
  execute_action action request decision estimate approved_by approval_id supply = do
    authorization ←
        seal_authorization action request decision approved_by Detail.authorized_execution
          supply.first
    after_authorization authorization action request decision estimate approved_by approval_id
        supply
