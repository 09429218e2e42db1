-- ===== src/Orchestrator/Types.antt =====
-- What orchestrator/harness.py works on: the request, its decisions, the stores that it drives, and
-- what the clock and the generator of ids give it.
use defiant_agent_harness.Common.Files.{Saved}
use defiant_agent_harness.Common.{ℕ, String, Bool, Option, List}
use defiant_agent_harness.Common.Dict.{Dict}
use defiant_agent_harness.Common.Int.{ℤ}
use defiant_agent_harness.Money.{MoneyError}
use defiant_agent_harness.Contracts.{Decision, ResultStatus}
use defiant_agent_harness.Policy.Types.{Action, Payload, Platform, GuardrailDecision}
use defiant_agent_harness.Policy.Evaluate.{Engine}
use defiant_agent_harness.Approvals.Types.{ActionSnapshot, DecisionSnapshot, ApprovalError}
use defiant_agent_harness.Approvals.Store.{Store, Config as ApprovalConfig}
use defiant_agent_harness.Budgets.Types.{Ledger, BudgetCheck, BudgetError, Outcome, Disposition}
use defiant_agent_harness.Evidence.Types.{Body, Content, ReadError, EvidenceError}
use defiant_agent_harness.Evidence.Store.{Log, Config as EvidenceConfig}
use defiant_agent_harness.Journal.Types.{
  AuthorizationSubject, File, JournalError, Host as JournalHost,
}
use defiant_agent_harness.Tools.Types.{Registry, Summary, ToolResult, ToolError, Host as ToolHost}

-- A sealed `HarnessRequest`: the fields that the harness reads.
pub record Request : Type 0 where
  pub request_id : String
  pub task_type : String
  pub sensitivity : String
  pub workspace_id : String
  pub allowed_tools : List String
  pub budget_limit : Option ℕ

-- Who decided: the policy, or one of the harness's own controls, which its policy id names.
pub data Cause : Type 0 where
  policy : GuardrailDecision → Cause
  duplicate_action : Cause
  tool_contract : ToolError → Cause
  request_scope : List String → Cause
  budget_limit : BudgetCheck → Cause
  policy_changed : String → String → Cause

-- The `GuardrailDecision` that is recorded: the reason and the decision inputs follow from the cause.
pub record Guardrail : Type 0 where
  pub decision : Decision
  pub ruleset_hash : String
  pub cause : Cause

-- The texts that the harness writes into a record's summary.
pub data Detail : Type 0 where
  reason authorized_execution authorized_external rejected expired : Detail
  held_for noted : String → Detail
  summary : Summary → Detail
  reconciliation : Outcome → Disposition → Detail
  authorization_reconciliation : Outcome → Detail

-- What a record is made of besides the fields of `Content`.
pub record Rest : Type 0 where
  pub action : Action
  pub request : Request
  pub decision : Guardrail
  pub approved_by : Option String
  pub result : Option ToolResult
  pub detail : Detail
  pub remaining : ℤ
  pub dry_run : Bool

pub data HarnessError : Type 0 where
  evidence : EvidenceError → HarnessError
  unreadable : ReadError → HarnessError
  budget : BudgetError → HarnessError
  approvals : ApprovalError → HarnessError
  journal : JournalError → HarnessError
  tools : ToolError → HarnessError
  amount : MoneyError → HarnessError
  execution_disabled unsafe_state invalid_basis : HarnessError
  broken_chain sealed_draft unsupported_operation unknown_authority changed_authority : HarnessError
  not_an_authorization belongs_to_approval unknown_approval wrong_approval : HarnessError
  not_recoverable other_evidence reconciling untrusted conflicting_terminal : HarnessError
  live_reservation no_snapshot bad_snapshot wrong_status cannot_be_rejected : HarnessError
  no_authorization wrong_request wrong_decision wrong_ruleset already_ended : HarnessError
  not_executing changed_action conflicting_outcome different_input blank_text : HarnessError

-- The stores, with `_action_bases` from the least to the most recently used, and the calls of tools'
-- functions so far, the latest first.
pub record World : Type 0 where
  pub evidence : Log
  pub budget : Ledger
  pub approvals : Store
  pub journal : File
  pub bases : Dict String
  pub invoked : List Action

-- What the harness relies on: the files' systems and digests, the audit of state_integrity.py, the
-- text of a record's other fields and of its hashed body, the text of an instant and the time in a
-- signed statement, the reading of the stored snapshots, and the operator keys' answer on an
-- authorization that is to be reconciled.
pub record Host : Type 0 where
  pub evidence : EvidenceConfig
  pub writes_budget : Ledger → Saved
  pub approvals : ApprovalConfig
  pub journal : JournalHost
  pub tools : ToolHost
  pub platform : Platform
  pub is_safe : World → Bool
  pub payload_digest : Payload → String
  pub rest_text : Rest → String
  pub reconciled_text : Content → Outcome → String
  pub body_text : Body → String
  pub timestamp_text : ℕ → String
  pub signed_at : String → String
  pub payload_preview : Payload → String
  pub decision_snapshot : Guardrail → DecisionSnapshot
  pub decode_action : ActionSnapshot → Option Action
  pub decode_request : String → Option Request
  pub decode_decision : DecisionSnapshot → Option Guardrail
  pub authorization_trust :
      Option (String → AuthorizationSubject → Outcome → String → String → Bool)

-- The fields of a `Harness` that are no stores.
pub record Harness : Type 0 where
  pub engine : Engine
  pub registry : Registry
  pub dry_run : Bool
  pub execution_disabled : Bool
  pub evidence_basis : String
  pub approval_ttl_minutes : ℕ

-- The readings of the clock while an operation is recovered.
pub record Readings : Type 0 where
  pub budget_at : String
  pub budget_entry_at : String
  pub checkpoint_at : String
  pub now : ℕ
  pub stamp : ℕ

-- A new record's id and time, with the readings while it is appended or its operation recovered, and
-- the id and time of that operation.
pub record Making : Type 0 where
  pub record_id : String
  pub timestamp : String
  pub operation_id : String
  pub prepared_at : String
  pub readings : Readings

-- What one entry point reads: to recover, to expire what is due (one making for each approval), to
-- hold or to run the action, and to seal its end.
pub record Supply : Type 0 where
  pub recovery : Readings
  pub expiry_recovery : Readings
  pub due_at : ℕ
  pub expiries : ℕ → Making
  pub reserved_at : String
  pub reserve_entry_at : String
  pub approval_id : String
  pub approval_now : ℕ
  pub approval_stamp : ℕ
  pub decide_now : ℕ
  pub decide_stamp : ℕ
  pub begin_now : ℕ
  pub begin_stamp : ℕ
  pub release_at : String
  pub consume_stamp : ℕ
  pub grant_id : String
  pub issued_at : String
  pub first : Making
  pub last : Making

pub record ActionOutcome : Type 0 where
  pub action : Action
  pub decision : Guardrail
  pub status : ResultStatus
  pub evidence_record_id : String
  pub approval_id : String
  pub result : Option ToolResult
