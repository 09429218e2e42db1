-- ===== src/Approvals/Checks.antt =====
-- `PendingApproval._from_snapshot`: what every stored approval has to satisfy, in the order of the
-- source. The checks of types and of field names are what the record's type says.
use defiant_agent_harness.Common.{
  String, Bool, true, false, not, ◌&&◌, ◌||◌, Option, none, some, List, [], ◌∷◌, all, ◌==◌,
  if◌then◌else◌, ◌≡◌, ◌⊎◌, arith,
}
use defiant_agent_harness.Common.Text.{strip}
use defiant_agent_harness.Common.Result.{Result, Result-cases, ok, err, ◌>>◌, require, refuse}
use defiant_agent_harness.Approvals.Types.{
  Status, ActionSnapshot, DecisionSnapshot, Approval, ApprovalError, is_executing, is_consumed,
}

abbrev pub nonempty : String → Bool
nonempty s = not (s == "")

abbrev pub is_given {ℓ} : {A : Type ℓ} → Option A → Bool
is_given none = false
is_given (some _) = true

-- A text that is there and not empty.
abbrev pub is_filled : Option String → Bool
is_filled none = false
is_filled (some s) = nonempty s

abbrev pub same_texts : List String → List String → Bool
same_texts [] [] = true
same_texts (s ∷ ss) (t ∷ ts) = s == t && same_texts ss ts
same_texts _ _ = false

-- `status in {"approved", "executing", "consumed", "rejected"}`
abbrev pub is_decided : Status → Bool
is_decided Status.pending = false
is_decided Status.expired = false
is_decided _ = true

-- `status in {"consumed", "rejected", "expired"}`
abbrev pub is_ended : Status → Bool
is_ended Status.consumed = true
is_ended Status.rejected = true
is_ended Status.expired = true
is_ended _ = false

-- The identities, the policies and the execution key.
unfoldable pub check_identity : Approval → Result ApprovalError (Unit {0})
check_identity a = do
  require
      (nonempty a.action_id
        && nonempty a.request_id
        && nonempty a.tool_name
        && nonempty a.approval_id)
      ApprovalError.missing_id
  require (all nonempty a.policy_ids) ApprovalError.invalid_policy_ids
  require
      (if nonempty a.execution_owner
        then nonempty a.execution_key
        else not (nonempty a.execution_key))
      ApprovalError.unpaired_execution_key

-- What the status requires of the decision and the end of the approval.
unfoldable pub check_status : Approval → Result ApprovalError (Unit {0})
check_status a = do
  require (not (is_decided a.status) || (is_filled a.decided_by && is_given a.decided_at))
      ApprovalError.undecided
  require (not (is_ended a.status) || is_given a.consumed_at) ApprovalError.not_ended
  require (not (is_consumed a.status) || nonempty a.execution_record_id) ApprovalError.no_evidence

-- `any(reconciliation_values)` and `all(reconciliation_values)`
abbrev pub has_intent : Approval → Bool
has_intent a =
    is_given a.reconciliation_outcome
    || nonempty a.reconciled_by
    || nonempty a.reconciliation_note
    || is_given a.reconciliation_started_at

abbrev pub has_whole_intent : Approval → Bool
has_whole_intent a =
    is_given a.reconciliation_outcome
    && nonempty a.reconciled_by
    && nonempty a.reconciliation_note
    && is_given a.reconciliation_started_at

unfoldable pub check_reconciliation : Approval → Result ApprovalError (Unit {0})
check_reconciliation a = do
  require
      (not (has_intent a)
        || (is_given a.reconciliation_outcome
            && nonempty (strip a.reconciled_by)
            && nonempty (strip a.reconciliation_note)
            && is_given a.reconciliation_started_at))
      ApprovalError.bad_reconciliation
  require (not (has_intent a) || (is_executing a.status || is_consumed a.status))
      ApprovalError.reconciliation_status
  if is_given a.reconciliation_completed_at
      then (do
        require (has_whole_intent a) ApprovalError.completion_without_intent
        require (is_consumed a.status && nonempty a.execution_record_id)
            ApprovalError.completion_status)
      else refuse (is_consumed a.status && is_given a.reconciliation_outcome)
          ApprovalError.completion_missing

abbrev pub binds_action : Option ActionSnapshot → Approval → Bool
binds_action none a = true
binds_action (some s) a =
    s.action_id == a.action_id
    && s.request_id == a.request_id
    && s.tool_name == a.tool_name
    && s.target == a.target
    && s.payload_hash == a.payload_hash
    && s.authorization_hash == a.authorization_hash

abbrev pub binds_request : Option String → Approval → Bool
binds_request none a = true
binds_request (some request_id) a = request_id == a.request_id

abbrev pub binds_decision : Option DecisionSnapshot → Approval → Bool
binds_decision none a = true
binds_decision (some s) a =
    s.reason == a.reason
    && s.approval_scope == a.approval_scope
    && same_texts s.policy_ids a.policy_ids

-- The bindings of the three snapshots. That of the action to the request follows from the two.
unfoldable pub check_bindings : Approval → Result ApprovalError (Unit {0})
check_bindings a = do
  require (binds_action a.action_snapshot a) ApprovalError.action_binding
  require (binds_request a.request_snapshot a) ApprovalError.request_binding
  require (binds_decision a.decision_snapshot a) ApprovalError.decision_binding

-- `PendingApproval.from_dict`, and `with_updates` of an updated record.
unfoldable pub from_dict : Approval → Result ApprovalError Approval
from_dict a = do check_identity a; check_status a; check_reconciliation a; check_bindings a; ok a

-- The checks return the record that they were given, or an error.
pub from_dict_cases :
    (a : Approval) → (from_dict a ≡ ok a) ⊎ ((e : ApprovalError) × (from_dict a ≡ err e))
unfolding from_dict
from_dict_cases a = ground (
  arith,
  Result-cases (check_identity a),
  Result-cases (check_status a),
  Result-cases (check_reconciliation a),
  Result-cases (check_bindings a),
)
