-- ===== src/Approvals/Types.antt =====
-- `PendingApproval` of approvals/store.py as a record. A timestamp is an instant; an empty or
-- absent one is `none`. Of the three snapshots the fields are kept that the checks read.
use native.Mathlib.Decide.{ℕ_discrete}
use defiant_agent_harness.Common.{ℕ, String, Bool, true, false, Option, List}
use defiant_agent_harness.Common.Text.{String-discrete}

pub data Status : Type 0 where
  pending approved rejected expired executing consumed : Status

pub data Outcome : Type 0 where
  succeeded failed not_executed : Outcome

-- What an operator signs: an attestation is for one purpose and says one outcome.
pub data Purpose : Type 0 where
  decision reconciliation : Purpose

pub data Verdict : Type 0 where
  approved rejected : Verdict
  reconciled : Outcome → Verdict

pub record Attestation : Type 0 where
  pub purpose : Purpose
  pub outcome : Verdict
  pub operator : String
  pub note : String
  pub signed_at : ℕ
  pub key_id : String
  pub signature : String

-- The action as the approval binds it.
pub record ActionSnapshot : Type 0 where
  pub action_id : String
  pub request_id : String
  pub tool_name : String
  pub target : String
  pub payload_hash : String
  pub authorization_hash : String

pub record DecisionSnapshot : Type 0 where
  pub reason : String
  pub approval_scope : String
  pub policy_ids : List String

pub record Approval : Type 0 where
  pub action_id : String
  pub request_id : String
  pub tool_name : String
  pub target : String
  pub payload_hash : String
  pub authorization_hash : String
  pub payload_preview : String
  pub approval_scope : String
  pub reason : String
  pub policy_ids : List String
  pub expires_at : Option ℕ
  pub created_at : ℕ
  pub approval_id : String
  pub status : Status
  pub decided_by : Option String
  pub decided_at : Option ℕ
  pub note : String
  pub decision_attestation : Option Attestation
  pub reserved : ℕ
  pub action_snapshot : Option ActionSnapshot
  pub request_snapshot : Option String
  pub decision_snapshot : Option DecisionSnapshot
  pub execution_record_id : String
  pub consumed_at : Option ℕ
  pub execution_owner : String
  pub execution_key : String
  pub reconciliation_outcome : Option Outcome
  pub reconciled_by : String
  pub reconciliation_note : String
  pub reconciliation_started_at : Option ℕ
  pub reconciliation_completed_at : Option ℕ
  pub reconciliation_attestation : Option Attestation

pub data ApprovalError : Type 0 where
  missing_id invalid_policy_ids unpaired_execution_key : ApprovalError
  undecided not_ended no_evidence : ApprovalError
  bad_reconciliation reconciliation_status : ApprovalError
  completion_without_intent completion_status completion_missing : ApprovalError
  action_binding request_binding decision_binding : ApprovalError
  bad_key write_failed bad_ttl : ApprovalError
  conflicts active_exists unknown : ApprovalError
  wrong_status not_due has_expired journal_mismatch : ApprovalError
  blank_operator blank_note no_trust_keys untrusted : ApprovalError
  wrong_action changed_action : ApprovalError
  reconciling different_input different_evidence no_intent blank_record_id : ApprovalError

abbrev pub is_pending : Status → Bool
is_pending Status.pending = true
is_pending _ = false

abbrev pub is_approved : Status → Bool
is_approved Status.approved = true
is_approved _ = false

abbrev pub is_rejected : Status → Bool
is_rejected Status.rejected = true
is_rejected _ = false

abbrev pub is_executing : Status → Bool
is_executing Status.executing = true
is_executing _ = false

abbrev pub is_consumed : Status → Bool
is_consumed Status.consumed = true
is_consumed _ = false

-- `status in {"pending", "approved"}`
abbrev pub is_open : Status → Bool
is_open Status.pending = true
is_open Status.approved = true
is_open _ = false

-- `status in {"pending", "approved", "executing"}`
abbrev pub is_active : Status → Bool
is_active Status.executing = true
is_active s = is_open s

-- `existing.to_dict() == pending.to_dict()` is equality of the records.
unfoldable pub Approval-discrete : Discrete Approval
unfolding String-discrete
Approval-discrete = hlevel (ℕ_discrete, String-discrete)

unfoldable pub Attestation-discrete : Discrete Attestation
unfolding String-discrete
Attestation-discrete = hlevel (ℕ_discrete, String-discrete)
