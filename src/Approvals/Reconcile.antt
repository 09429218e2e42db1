-- ===== src/Approvals/Reconcile.antt =====
-- The methods of `ApprovalStore` that reconcile an execution whose outcome only the operator
-- knows, that recovery replays, and that expire what is due.
use defiant_agent_harness.Common.{
  ℕ, String, Bool, true, false, not, ◌&&◌, ◌||◌, Option, none, some, List, [], ◌∷◌, ◌==◌,
  if◌then◌else◌,
}
use defiant_agent_harness.Common.Text.{strip}
use defiant_agent_harness.Common.Result.{Result, ok, err}
use defiant_agent_harness.Approvals.Types.{
  Status, Outcome, Purpose, Verdict, Attestation, Attestation-discrete, Approval, ApprovalError,
  is_pending, is_rejected, is_executing, is_consumed, is_open,
}
use defiant_agent_harness.Approvals.Checks.{nonempty, is_given, from_dict}
use defiant_agent_harness.Approvals.Store.{
  Store, M, ◌>>=◌, ◌>>◌, pure, lift, require, read_all, find, is_expired, attests, same_outcome,
  Config, write_all, put,
}
use defiant_agent_harness.Approvals.Operations.{
  require_attestation, require_decision_identity, time_of, expired, decide,
}

-- `reconciliation_identity(approval).ok`
unfoldable pub reconciliation_identity : Config → Approval → Bool
reconciliation_identity config a = elim config.operator_trust [
  | none ↦ false
  | some verify ↦ elim a.reconciliation_outcome [
    | none ↦ false
    | some outcome ↦
        attests verify a.reconciliation_attestation a Purpose.reconciliation
          (Verdict.reconciled outcome) a.reconciled_by a.reconciliation_note
  ]
]

-- The input is the one that the intent was made from.
unfoldable pub same_intent : Approval → Outcome → String → String → Bool
same_intent a outcome reconciled_by note =
    (elim a.reconciliation_outcome [ none ↦ false | some o ↦ same_outcome o outcome ])
    && a.reconciled_by == reconciled_by
    && a.reconciliation_note == note

abbrev pub is_text : String → Option String → Bool
is_text s none = false
is_text s (some t) = t == s

-- `==` of two attestations, `None` included.
abbrev pub is_attestation : Option Attestation → Option Attestation → Bool
is_attestation none none = true
is_attestation (some t) (some u) = elim (Attestation-discrete u t) [ yes _ ↦ true | no _ ↦ false ]
is_attestation _ _ = false

module _ (config : Config) where
  -- `begin_reconciliation`: the operator's decision is made durable before another store is touched.
  unfoldable pub begin_reconciliation :
      String → Outcome → String → String → Option Attestation → ℕ → M Approval
  begin_reconciliation id outcome reconciled_by note attestation stamp = do
    require (nonempty (strip reconciled_by)) ApprovalError.blank_operator
    require (nonempty (strip note)) ApprovalError.blank_note
    d ← read_all
    a ← find d id
    if is_given a.reconciliation_outcome
        then (do
          require (same_intent a outcome (strip reconciled_by) (strip note))
              ApprovalError.different_input
          require (is_executing a.status || is_consumed a.status) ApprovalError.wrong_status
          require (not (is_given config.operator_trust) || reconciliation_identity config a)
              ApprovalError.untrusted
          pure a)
        else (do
          require (is_executing a.status) ApprovalError.wrong_status
          require_attestation config attestation a Purpose.reconciliation
              (Verdict.reconciled outcome) (strip reconciled_by) (strip note)
          a' ← lift (
              from_dict (record a {
                reconciliation_outcome = some outcome;
                reconciled_by = strip reconciled_by;
                reconciliation_note = strip note;
                reconciliation_started_at = some (time_of attestation stamp);
                reconciliation_attestation = attestation;
              }))
          put config d id a')

  unfoldable pub mark_reconciled : String → String → ℕ → M Approval
  mark_reconciled id record_id stamp = do
    require (nonempty record_id) ApprovalError.blank_record_id
    d ← read_all
    a ← find d id
    require (is_given a.reconciliation_outcome) ApprovalError.no_intent
    if is_consumed a.status
        then (do
          require (a.execution_record_id == record_id) ApprovalError.different_evidence
          pure a)
        else (do
          require (is_executing a.status) ApprovalError.wrong_status
          a' ← lift (
              from_dict (record a {
                status = Status.consumed;
                execution_record_id = record_id;
                consumed_at = some stamp;
                reconciliation_completed_at = some stamp;
              }))
          put config d id a')

  -- A rejection that is there with the same operator, note and attestation is recognised.
  unfoldable pub ensure_rejected :
      String → String → String → Option Attestation → ℕ → ℕ → M Approval
  ensure_rejected id decided_by note attestation now stamp = do
    d ← read_all
    a ← find d id
    if is_pending a.status
        then decide config id false decided_by note attestation now stamp
        else (do
          require
              (is_rejected a.status
                && is_text (strip decided_by) a.decided_by
                && a.note == strip note
                && is_attestation attestation a.decision_attestation)
              ApprovalError.journal_mismatch
          require_decision_identity config a
          pure a)

-- The loop of `expire_due`: the approvals that it ends, and the document with them. It stops at a
-- record that its checks refuse.
unfoldable pub expire_loop : ℕ → ℕ → Store → Result ApprovalError (List Approval × Store)
expire_loop now stamp [] = ok ([], [])
expire_loop now stamp ((id, a) ∷ s) =
    let rest = expire_loop now stamp s in
    if is_open a.status && is_expired now a
    then (elim (from_dict (expired a stamp)) [
      | ok a' ↦ elim rest [ ok (as', s') ↦ ok (a' ∷ as', (id, a') ∷ s') | err e ↦ err e ]
      | err e ↦ err e
    ])
    else (elim rest [ ok (as', s') ↦ ok (as', (id, a) ∷ s') | err e ↦ err e ])

unfoldable pub expire_due : Config → ℕ → ℕ → M (List Approval)
expire_due config now stamp = do
  d ← read_all
  (ended, d') ← lift (expire_loop now stamp d)
  elim ended [ [] ↦ pure [] | a ∷ as' ↦ (do write_all config d'; pure (a ∷ as')) ]
