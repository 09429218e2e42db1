-- ===== src/Approvals/Operations.antt =====
-- The methods of `ApprovalStore` that change an approval.
use defiant_agent_harness.Common.{
  ℕ, String, Bool, false, not, ◌&&◌, ◌||◌, Option, none, some, any, ◌==◌, if◌then◌else◌, ◌≡◌, ◌⊎◌,
  arith,
}
use defiant_agent_harness.Common.Dict.{lookup}
use defiant_agent_harness.Common.Text.{strip}
use defiant_agent_harness.Common.Result.{ok, err}
use defiant_agent_harness.Approvals.Types.{
  Status, Purpose, Verdict, Attestation, Approval, Approval-discrete, ApprovalError, is_pending,
  is_approved, is_rejected, is_executing, is_open, is_active,
}
use defiant_agent_harness.Approvals.Checks.{nonempty, is_given, from_dict}
use defiant_agent_harness.Approvals.Store.{
  Store, M, ◌>>=◌, ◌>>◌, pure, raise, lift, require, refuse, read_all, find, is_expired, attests,
  Config, put,
}

-- `decision_identity(approval).ok`: a missing attestation and missing keys are no identity.
unfoldable pub decision_identity : Config → Approval → Bool
decision_identity config a = elim config.operator_trust [
  | none ↦ false
  | some verify ↦
      attests verify a.decision_attestation a Purpose.decision
        (if is_rejected a.status then Verdict.rejected else Verdict.approved)
        (text_or_empty a.decided_by) a.note
]
  where
    text_or_empty : Option String → String
    text_or_empty none = ""
    text_or_empty (some s) = s

-- `_require_decision_identity`
unfoldable pub require_decision_identity : Config → Approval → M (Unit {0})
require_decision_identity config a = elim config.operator_trust [
  | none ↦ pure tt
  | some _ ↦ require (decision_identity config a) ApprovalError.untrusted
]

-- `operator_trust.require` where keys are pinned; without keys no attestation is accepted.
unfoldable pub require_attestation :
    Config → Option Attestation → Approval → Purpose → Verdict → String → String → M (Unit {0})
require_attestation config attestation a purpose outcome operator note =
    elim config.operator_trust [
      | none ↦ refuse (is_given attestation) ApprovalError.no_trust_keys
      | some verify ↦
          require (attests verify attestation a purpose outcome operator note)
            ApprovalError.untrusted
    ]

-- `attestation["signed_at"] if attestation is not None else utc_now()`
abbrev pub time_of : Option Attestation → ℕ → ℕ
time_of none stamp = stamp
time_of (some t) stamp = t.signed_at

-- `_validate_decision`: the operator and the note, stripped.
unfoldable pub validate_decision :
    Config → Approval → Bool → String → String → Option Attestation → M (String × String)
validate_decision config a approved decided_by note attestation = do
  require (nonempty (strip decided_by)) ApprovalError.blank_operator
  require_attestation config attestation a Purpose.decision
      (if approved then Verdict.approved else Verdict.rejected) (strip decided_by) (strip note)
  pure (strip decided_by, strip note)

-- The checks of identity read the file and leave it.
pub require_decision_identity_cases :
    (config : Config) (a : Approval) (s : Store)
    → (require_decision_identity config a s ≡ (ok tt, s))
      ⊎ (require_decision_identity config a s ≡ (err ApprovalError.untrusted, s))
unfolding require_decision_identity
require_decision_identity_cases config a s = ground arith

pub require_attestation-store :
    (config : Config) (t : Option Attestation) (a : Approval) (p : Purpose) (v : Verdict)
    (operator note : String) (s : Store)
    → (require_attestation config t a p v operator note s).1 ≡ s
unfolding require_attestation
require_attestation-store config t a p v operator note s = ground arith

-- The end of an approval that was not used in time.
abbrev pub expired : Approval → ℕ → Approval
expired a stamp = record a { status = Status.expired; consumed_at = some stamp }

module _ (config : Config) where
  -- `create_prepared`
  unfoldable pub create_prepared : Approval → M Approval
  create_prepared pending = do
    d ← read_all
    elim (lookup pending.approval_id d) [
      | some existing ↦ elim (Approval-discrete existing pending) [
        | yes _ ↦ pure existing
        | no _ ↦ raise ApprovalError.conflicts
      ]
      | none ↦ do
        refuse (any (λ e. e.1.action_id == pending.action_id && is_active e.1.status) d)
            ApprovalError.active_exists
        put config d pending.approval_id pending
    ]

  unfoldable pub expire_one : String → ℕ → ℕ → M Approval
  expire_one id now stamp = do
    d ← read_all
    a ← find d id
    elim a.status [
      | Status.expired ↦ pure a
      | other ↦ do
        require (is_open other) ApprovalError.wrong_status
        require (is_expired now a) ApprovalError.not_due
        a' ← lift (from_dict (expired a stamp))
        put config d id a'
    ]

  unfoldable pub decide : String → Bool → String → String → Option Attestation → ℕ → ℕ → M Approval
  decide id approved decided_by note attestation now stamp = do
    d ← read_all
    a ← find d id
    require (is_pending a.status) ApprovalError.wrong_status
    refuse (is_expired now a) ApprovalError.has_expired
    (operator, text) ← validate_decision config a approved decided_by note attestation
    let decided_at = time_of attestation stamp
    a' ← lift (
        from_dict (record a {
          status = if approved then Status.approved else Status.rejected;
          decided_by = some operator;
          decided_at = some decided_at;
          note = text;
          decision_attestation = attestation;
          consumed_at = if approved then none else some decided_at;
        }))
    put config d id a'

  -- `begin_execution`: an approval found expired is written as expired, and the call raises.
  unfoldable pub begin_execution : String → String → String → ℕ → ℕ → M Approval
  begin_execution id action_id authorization_hash now stamp = do
    d ← read_all
    a ← find d id
    require (is_approved a.status) ApprovalError.wrong_status
    if is_expired now a
        then (do
          a' ← lift (from_dict (expired a stamp))
          put config d id a'
          raise ApprovalError.has_expired)
        else (do
          require (a.action_id == action_id) ApprovalError.wrong_action
          require (a.authorization_hash == authorization_hash) ApprovalError.changed_action
          require_decision_identity config a
          a' ← lift (from_dict (record a { status = Status.executing }))
          put config d id a')

  -- `validate_for` reads only.
  unfoldable pub validate_for : String → String → String → ℕ → M Approval
  validate_for id action_id authorization_hash now = do
    d ← read_all
    a ← find d id
    require (is_approved a.status || is_executing a.status) ApprovalError.wrong_status
    refuse (is_expired now a && not (is_executing a.status)) ApprovalError.has_expired
    require (a.action_id == action_id) ApprovalError.wrong_action
    require (a.authorization_hash == authorization_hash) ApprovalError.changed_action
    require_decision_identity config a
    pure a

  -- The last part of `mark_consumed` and of `ensure_consumed`.
  unfoldable pub consume : Store → String → Approval → String → ℕ → M Approval
  consume d id a record_id stamp = do
    require (is_executing a.status) ApprovalError.wrong_status
    refuse (is_given a.reconciliation_outcome) ApprovalError.reconciling
    a' ← lift (
        from_dict (record a {
          status = Status.consumed;
          execution_record_id = record_id;
          consumed_at = some stamp;
        }))
    put config d id a'

  unfoldable pub mark_consumed : String → String → ℕ → M Approval
  mark_consumed id record_id stamp = do d ← read_all; a ← find d id; consume d id a record_id stamp

  unfoldable pub ensure_consumed : String → String → ℕ → M Approval
  ensure_consumed id record_id stamp = do
    require (nonempty record_id) ApprovalError.blank_record_id
    d ← read_all
    a ← find d id
    elim a.status [
      | Status.consumed ↦ do
        require (a.execution_record_id == record_id) ApprovalError.different_evidence
        pure a
      | _ ↦ consume d id a record_id stamp
    ]
