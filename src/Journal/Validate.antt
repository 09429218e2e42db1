-- ===== src/Journal/Validate.antt =====
-- `_validate_payload` and `_validate_execution_completion`: what a payload of each kind must agree on.
use text.Mathlib.Text.{starts_with}
use defiant_agent_harness.Common.{
  ℕ, String, Bool, true, false, ◌&&◌, ◌||◌, not, Option, none, some, eqb, leb, ◌==◌, if◌then◌else◌,
}
use defiant_agent_harness.Common.Text.{strip, len}
use defiant_agent_harness.Common.Digest.{is_sha256}
use defiant_agent_harness.Common.Result.{Result, ok, err, ◌>>=◌, ◌>>◌, require, refuse}
use defiant_agent_harness.Money.{MoneyLike, money}
use defiant_agent_harness.Contracts.{Decision, ResultStatus}
use defiant_agent_harness.Approvals.Types.{Approval, Status}
use defiant_agent_harness.Approvals.Checks.{from_dict}
use defiant_agent_harness.Journal.Types.{
  Kind, Draft, CompletionSubject, AuthorizationSubject, AttestationValue, Text, Ids, Rejection,
  Reconciliation, Completion, Details, Payload, JournalError,
}

abbrev pub Checked : Type 0
Checked = Result JournalError (Unit {0})

unfoldable pub amount_of : MoneyLike → JournalError → Result JournalError ℕ
amount_of m e = elim (money m) [ ok n ↦ ok n | err x ↦ err e ]

-- `isinstance(value, str) and value.strip()`
unfoldable pub is_filled : Text → Bool
is_filled none = false
is_filled (some t) = not (strip t == "")

-- `value == s`, where `s` is a text.
unfoldable pub is_value : Text → String → Bool
is_value none s = false
is_value (some t) s = t == s

-- `value.strip() == s`, of a text.
unfoldable pub strips_to : Text → String → Bool
strips_to none s = false
strips_to (some t) s = strip t == s

unfoldable pub decision_value : Decision → String
decision_value Decision.allow = "allow"
decision_value Decision.block = "block"
decision_value Decision.approval_required = "approval_required"

-- `evidence.result_status is s`
unfoldable pub is_status : ResultStatus → ResultStatus → Bool
is_status ResultStatus.succeeded ResultStatus.succeeded = true
is_status ResultStatus.failed ResultStatus.failed = true
is_status ResultStatus.blocked ResultStatus.blocked = true
is_status ResultStatus.skipped ResultStatus.skipped = true
is_status ResultStatus.pending_approval ResultStatus.pending_approval = true
is_status ResultStatus.expired ResultStatus.expired = true
is_status ResultStatus.rejected ResultStatus.rejected = true
is_status ResultStatus.not_executed ResultStatus.not_executed = true
is_status s t = false

-- `{"succeeded": ..., "failed": ..., "not_executed": ...}.get(outcome)`
unfoldable pub status_of_outcome : Text → Option ResultStatus
status_of_outcome none = none
status_of_outcome (some o) =
    if o == "succeeded"
    then some ResultStatus.succeeded
    else if o == "failed"
    then some ResultStatus.failed
    else if o == "not_executed"
    then some ResultStatus.not_executed
    else none

unfoldable pub is_expected : Option ResultStatus → ResultStatus → Bool
is_expected none s = false
is_expected (some t) s = is_status t s

-- `ExecutionCompletionSubject.__post_init__`
unfoldable pub is_completion_subject : CompletionSubject → Bool
is_completion_subject s =
    is_filled (some s.authority_record_id)
    && is_filled (some s.authority_record_hash)
    && is_filled (some s.action_id)
    && is_filled (some s.request_id)
    && is_filled (some s.authorization_hash)
    && is_filled (some s.decision)
    && is_sha256 s.authority_record_hash
    && is_sha256 s.authorization_hash
    && (s.decision == "allow" || s.decision == "approval_required")

-- `_bounded_text`
abbrev pub max_note_chars : ℕ
max_note_chars = 4096

unfoldable pub is_bounded_text : ℕ → String → Bool
is_bounded_text n t = is_filled (some t) && leb (len t) n

-- `AuthorizationReconciliationSubject.__post_init__`
unfoldable pub is_authorization_subject : (String → Bool) → AuthorizationSubject → Bool
is_authorization_subject is_timestamp s =
    is_bounded_text max_note_chars s.authority_record_id
    && is_bounded_text max_note_chars s.authority_record_hash
    && is_bounded_text max_note_chars s.action_id
    && is_bounded_text max_note_chars s.request_id
    && is_bounded_text max_note_chars s.authorization_hash
    && is_bounded_text max_note_chars s.authorized_at
    && is_sha256 s.authority_record_hash
    && is_sha256 s.authorization_hash
    && is_bounded_text 128 s.authorized_at
    && is_timestamp s.authorized_at

-- `approval_id.startswith("apr_")` and the decision that goes with it, or none of either.
unfoldable pub check_approval_id : String → String → Checked
check_approval_id approval_id decision =
    if approval_id == "" then require (decision == "allow") JournalError.wrong_decision else (do
      require (starts_with approval_id "apr_") JournalError.bad_approval_id
      require (decision == "approval_required") JournalError.wrong_decision)

unfoldable pub check_disposition : Text → ℕ → ℕ → Checked
check_disposition d reserved actual = do
  require (is_value d "settle" || is_value d "none") JournalError.bad_disposition
  refuse (is_value d "settle" && eqb reserved 0 && eqb actual 0) JournalError.zero_settlement
  refuse (is_value d "none" && not (eqb reserved 0 && eqb actual 0)) JournalError.free_settlement

unfoldable pub is_reconciled : Draft → Bool
is_reconciled e =
    not (e.content.reconciliation_outcome == "")
    || not (e.content.reconciled_by == "")
    || elim e.content.reconciled_at [ none ↦ false | some t ↦ true ]
    || not (e.content.reconciliation_note == "")

-- The authority names the action, the request and the hash of the evidence.
unfoldable pub binds_completion : CompletionSubject → Draft → Bool
binds_completion a e =
    a.action_id == e.content.action_id
    && a.request_id == e.content.request_id
    && a.authorization_hash == e.content.authorization_hash
    && a.decision == decision_value e.content.decision

unfoldable pub check_completion_of :
    CompletionSubject → String → Completion → Draft → ℕ → ℕ → Checked
check_completion_of a approval_id c e reserved actual = do
  check_approval_id approval_id a.decision
  require
      (is_status e.content.result_status ResultStatus.succeeded
        || is_status e.content.result_status ResultStatus.failed)
      JournalError.not_a_result
  require (binds_completion a e) JournalError.wrong_authority
  check_disposition c.budget_disposition reserved actual
  require (eqb e.content.cost actual) JournalError.wrong_cost
  refuse (is_reconciled e) JournalError.reconciled_already

unfoldable pub check_subject : Option CompletionSubject → Result JournalError CompletionSubject
check_subject none = err JournalError.bad_authority
check_subject (some a) = if is_completion_subject a then ok a else err JournalError.bad_authority

unfoldable pub check_text : Text → JournalError → Result JournalError String
check_text none e = err e
check_text (some t) e = ok t

-- `_validate_execution_completion`
unfoldable pub validate_execution_completion : Completion → Draft → ℕ → Checked
validate_execution_completion c e reserved = do
  a ← check_subject c.authority
  actual ← amount_of c.actual JournalError.bad_amount
  approval_id ← check_text c.approval_id JournalError.bad_approval_id
  check_completion_of a approval_id c e reserved actual

unfoldable pub check_attestation : {A : Type 0} → AttestationValue A → Checked
check_attestation AttestationValue.null = ok tt
check_attestation (AttestationValue.object t) = ok tt
check_attestation AttestationValue.another = err JournalError.bad_attestation

unfoldable pub binds_authorization : AuthorizationSubject → Draft → Bool
binds_authorization a e =
    a.action_id == e.content.action_id
    && a.request_id == e.content.request_id
    && a.authorization_hash == e.content.authorization_hash

unfoldable pub check_authority :
    (String → Bool) → Option AuthorizationSubject → Result JournalError AuthorizationSubject
check_authority is_timestamp none = err JournalError.bad_authority
check_authority is_timestamp (some a) =
    if is_authorization_subject is_timestamp a then ok a else err JournalError.bad_authority

unfoldable pub check_reconciliation : (String → Bool) → Reconciliation → Draft → Checked
check_reconciliation is_timestamp r e = do
  require (is_expected (status_of_outcome r.outcome) e.content.result_status)
      JournalError.wrong_status
  a ← check_authority is_timestamp r.authority
  require (binds_authorization a e) JournalError.wrong_authority
  require (is_filled r.reconciled_by && is_filled r.note) JournalError.bad_text
  require (is_value r.outcome e.content.reconciliation_outcome) JournalError.wrong_outcome
  require
      (strips_to r.reconciled_by e.content.reconciled_by
        && strips_to r.note e.content.reconciliation_note)
      JournalError.wrong_operator
  check_attestation r.attestation

unfoldable pub is_pending : Status → Bool
is_pending Status.pending = true
is_pending s = false

unfoldable pub check_creation : Approval → Draft → ℕ → Checked
check_creation a e reserved = do
  require (is_status e.content.result_status ResultStatus.pending_approval)
      JournalError.wrong_status
  elim (from_dict a) [
    | err x ↦ err JournalError.bad_approval
    | ok b ↦
        require
          (is_pending b.status
            && b.action_id == e.content.action_id
            && b.request_id == e.content.request_id
            && eqb b.reserved reserved)
          JournalError.wrong_approval
  ]

unfoldable pub check_ids : Ids → Draft → Checked
check_ids ids e = do
  require (is_filled ids.approval_id && is_filled ids.action_id && is_filled ids.request_id)
      JournalError.bad_text
  require
      (is_value ids.action_id e.content.action_id && is_value ids.request_id e.content.request_id)
      JournalError.wrong_ids

unfoldable pub is_text : Text → Bool
is_text none = false
is_text (some t) = true

unfoldable pub check_rejection : Rejection → Draft → Checked
check_rejection r e = do
  require (is_status e.content.result_status ResultStatus.rejected) JournalError.wrong_status
  check_ids r.ids e
  require (is_filled r.decided_by) JournalError.bad_text
  require (is_text r.note) JournalError.bad_text
  check_attestation r.attestation

unfoldable pub check_expiry : Ids → Draft → Checked
check_expiry ids e = do
  require (is_status e.content.result_status ResultStatus.expired) JournalError.wrong_status
  check_ids ids e

-- The fields of the payload are those of the kind.
unfoldable pub has_fields : Kind → Details → Bool
has_fields Kind.approval_create (Details.creates a) = true
has_fields Kind.approval_reject (Details.rejects r) = true
has_fields Kind.approval_expire (Details.expires i) = true
has_fields Kind.authorization_reconcile (Details.reconciles r) = true
has_fields Kind.execution_complete (Details.completes c) = true
has_fields k d = false

unfoldable pub check_details : (String → Bool) → Details → Draft → ℕ → Checked
check_details is_timestamp (Details.creates a) e reserved = check_creation a e reserved
check_details is_timestamp (Details.rejects r) e reserved = check_rejection r e
check_details is_timestamp (Details.expires i) e reserved = check_expiry i e
check_details is_timestamp (Details.reconciles r) e reserved = check_reconciliation is_timestamp r e
check_details is_timestamp (Details.completes c) e reserved =
    validate_execution_completion c e reserved
check_details is_timestamp Details.others e reserved = err JournalError.bad_fields

unfoldable pub check_evidence : Option Draft → Result JournalError Draft
check_evidence none = err JournalError.bad_evidence
check_evidence (some e) =
    if e.record_hash == "" && e.previous_record_hash == "" then ok e else err JournalError.sealed

unfoldable pub validate_payload : (String → Bool) → Kind → Payload → Checked
validate_payload is_timestamp kind p = do
  require (has_fields kind p.details) JournalError.bad_fields
  reserved ← amount_of p.amount JournalError.bad_amount
  e ← check_evidence p.evidence
  check_details is_timestamp p.details e reserved
