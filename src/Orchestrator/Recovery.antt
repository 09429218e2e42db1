-- ===== src/Orchestrator/Recovery.antt =====
-- `_recover_operation` and `recover_operation`: the steps of a journaled operation, each of which is
-- made or recognised as made, and last the journal is emptied.
use defiant_agent_harness.Common.{
  ℕ, String, not, ◌&&◌, ◌||◌, Option, none, some, ltb, eqb, ◌==◌, if◌then◌else◌,
}
use defiant_agent_harness.Common.Int.{pos}
use defiant_agent_harness.Common.Result.{ok, err}
use defiant_agent_harness.Money.{MoneyLike, money}
use defiant_agent_harness.Approvals.Types.{Approval, is_executing, is_consumed}
use defiant_agent_harness.Approvals.Checks.{from_dict, is_given}
use defiant_agent_harness.Approvals.Operations.{
  decision_identity, create_prepared, expire_one, ensure_consumed,
}
use defiant_agent_harness.Approvals.Reconcile.{ensure_rejected}
use defiant_agent_harness.Budgets.Operations.{ensure_reservation}
use defiant_agent_harness.Budgets.Journaled.{ensure_settlement, ensure_release, reservation_for}
use defiant_agent_harness.Budgets.Reconcile.{reconcile_reservation}
use defiant_agent_harness.Evidence.Types.{Content}
use defiant_agent_harness.Evidence.Store.{append_idempotent}
use defiant_agent_harness.Journal.Types.{
  CompletionSubject, Reconciliation, Text, Ids, Rejection, Completion, Details, Kind, Operation,
  JournalError,
}
use defiant_agent_harness.Journal.Validate.{is_value}
use defiant_agent_harness.Journal.Store.{active, complete}
use defiant_agent_harness.Orchestrator.Types.{HarnessError, Host, Readings}
use defiant_agent_harness.Orchestrator.Monad.{
  M, ◌>>=◌, ◌>>◌, pure, raise, require, refuse, when, or_raise, lift, on_evidence, on_budget,
  ask_budget, on_approvals, on_journal,
}
use defiant_agent_harness.Orchestrator.Reading.{
  require_intact, get_record, authorization_terminal, is_this_or_none, get_approval,
  require_no_approval, completion_of, same_completion, authorization_of, same_authorization,
  check_draft, text_of, attestation_of, outcome_named, require_authorization_identity,
}

abbrev pub amount : ℕ → MoneyLike
amount n = MoneyLike.finite (pos n)

module _ (host : Host) (t : Readings) where
  -- The two steps with which every operation but a completion ends.
  unfoldable pub finish : String → Content → M (Unit {0})
  finish operation_id content = do
    on_evidence (append_idempotent host.evidence content t.checkpoint_at)
    on_journal (complete host.journal operation_id)

  unfoldable pub recover_creation : Approval → ℕ → M (Unit {0})
  recover_creation a reserved = do
    pending ← lift HarnessError.approvals (from_dict a)
    when (ltb 0 reserved) (
        on_budget (
          ensure_reservation host.writes_budget (amount reserved) pending.request_id
            pending.action_id t.budget_at t.budget_entry_at))
    on_approvals (create_prepared host.approvals pending)
    pure tt

  -- `_validate_journaled_approval`
  unfoldable pub validate_journaled_approval : Ids → ℕ → M (Unit {0})
  validate_journaled_approval ids reserved = do
    approval_id ← text_of ids.approval_id
    a ← get_approval approval_id
    require
        (is_value ids.action_id a.action_id
          && is_value ids.request_id a.request_id
          && eqb a.reserved reserved)
        HarnessError.wrong_approval

  unfoldable pub give_back : Ids → ℕ → M (Unit {0})
  give_back ids reserved = do
    request_id ← text_of ids.request_id
    action_id ← text_of ids.action_id
    when (ltb 0 reserved) (do
      on_budget
          (ensure_release host.writes_budget (amount reserved) request_id action_id t.budget_at)
      pure tt)

  unfoldable pub recover_rejection : Rejection → ℕ → M (Unit {0})
  recover_rejection r reserved = do
    validate_journaled_approval r.ids reserved
    approval_id ← text_of r.ids.approval_id
    decided_by ← text_of r.decided_by
    note ← text_of r.note
    attestation ← attestation_of r.attestation
    on_approvals
        (ensure_rejected host.approvals approval_id decided_by note attestation t.now t.stamp)
    give_back r.ids reserved

  unfoldable pub recover_expiry : Ids → ℕ → M (Unit {0})
  recover_expiry ids reserved = do
    validate_journaled_approval ids reserved
    approval_id ← text_of ids.approval_id
    on_approvals (expire_one host.approvals approval_id t.now t.stamp)
    give_back ids reserved

  unfoldable pub recover_authorization : Reconciliation → Content → ℕ → M (Unit {0})
  recover_authorization r content reserved = do
    subject ← or_raise r.authority (HarnessError.journal JournalError.bad_authority)
    found ← get_record subject.authority_record_id
    authority ← or_raise found HarnessError.unknown_authority
    recorded ← authorization_of host authority
    require (same_authorization recorded subject) HarnessError.changed_authority
    require_no_approval subject.action_id
    outcome_text ← text_of r.outcome
    outcome ←
        or_raise (outcome_named outcome_text) (HarnessError.journal JournalError.wrong_outcome)
    by ← text_of r.reconciled_by
    note ← text_of r.note
    attestation ← attestation_of r.attestation
    require_authorization_identity host subject outcome by note attestation
    terminal ← authorization_terminal subject.action_id subject.authorization_hash
    require (is_this_or_none content.record_id terminal) HarnessError.conflicting_terminal
    on_budget (
        reconcile_reservation host.writes_budget (amount reserved) subject.request_id
          subject.action_id outcome by note subject.authority_record_id
          subject.authority_record_hash attestation t.budget_at t.budget_entry_at)
    pure tt

  -- The approval that a completion consumes: executing, or consumed by this very record.
  unfoldable pub check_completion_approval : CompletionSubject → String → Approval → M (Unit {0})
  check_completion_approval subject record_id a = do
    require
        (a.action_id == subject.action_id
          && a.request_id == subject.request_id
          && a.authorization_hash == subject.authorization_hash)
        HarnessError.wrong_approval
    require (is_executing a.status || is_consumed a.status) HarnessError.not_recoverable
    refuse (is_consumed a.status && not (a.execution_record_id == record_id))
        HarnessError.other_evidence
    refuse (is_given a.reconciliation_outcome) HarnessError.reconciling
    refuse (is_given host.approvals.operator_trust && not (decision_identity host.approvals a))
        HarnessError.untrusted

  -- The guards of a completion, which read only.
  unfoldable pub check_completion : CompletionSubject → String → String → M (Unit {0})
  check_completion subject approval_id record_id = do
    found ← get_record subject.authority_record_id
    authority ← or_raise found HarnessError.unknown_authority
    recorded ← completion_of authority
    require (same_completion recorded subject) HarnessError.changed_authority
    if approval_id == ""
        then require_no_approval subject.action_id
        else (do a ← get_approval approval_id; check_completion_approval subject record_id a)
    terminal ← authorization_terminal subject.action_id subject.authorization_hash
    require (is_this_or_none record_id terminal) HarnessError.conflicting_terminal

  unfoldable pub settle_completion :
      CompletionSubject → Text → MoneyLike → ℕ → String → M (Unit {0})
  settle_completion subject disposition actual reserved record_id =
      if is_value disposition "settle"
      then (do
        on_budget (
            ensure_settlement host.writes_budget (amount reserved) actual subject.request_id
              subject.action_id record_id t.budget_at)
        pure tt)
      else (do
        live ← ask_budget (reservation_for subject.action_id)
        refuse (ltb 0 live) HarnessError.live_reservation)

  unfoldable pub consume_completion : String → String → M (Unit {0})
  consume_completion approval_id record_id =
      if approval_id == ""
      then pure tt
      else (do on_approvals (ensure_consumed host.approvals approval_id record_id t.stamp); pure tt)

  unfoldable pub recover_completion : String → Completion → Content → ℕ → M (Unit {0})
  recover_completion operation_id c content reserved = do
    subject ← or_raise c.authority (HarnessError.journal JournalError.bad_authority)
    approval_id ← text_of c.approval_id
    check_completion subject approval_id content.record_id
    settle_completion subject c.budget_disposition c.actual reserved content.record_id
    on_evidence (append_idempotent host.evidence content t.checkpoint_at)
    consume_completion approval_id content.record_id
    on_journal (complete host.journal operation_id)

  -- The branches on the kind; a payload with the fields of another kind has no such keys.
  unfoldable pub recover_details : String → Kind → Details → Content → ℕ → M (Unit {0})
  recover_details id Kind.approval_create (Details.creates a) content reserved =
      recover_creation a reserved >> finish id content
  recover_details id Kind.approval_reject (Details.rejects r) content reserved =
      recover_rejection r reserved >> finish id content
  recover_details id Kind.approval_expire (Details.expires i) content reserved =
      recover_expiry i reserved >> finish id content
  recover_details id Kind.authorization_reconcile (Details.reconciles r) content reserved =
      recover_authorization r content reserved >> finish id content
  recover_details id Kind.execution_complete (Details.completes c) content reserved =
      recover_completion id c content reserved
  recover_details id k d content reserved = raise HarnessError.unsupported_operation

  -- `_recover_operation`
  unfoldable pub recover : Operation → M (Unit {0})
  recover op = do
    require_intact host
    content ← check_draft op.payload.evidence
    reserved ← lift HarnessError.amount (money op.payload.amount)
    recover_details op.operation_id op.kind op.payload.details content reserved

  -- `recover_operation`
  unfoldable pub recover_operation : M (Option Operation)
  recover_operation w = elim (active host.journal w.journal) [
    | err e ↦ (err (HarnessError.journal e), w)
    | ok none ↦ (ok none, w)
    | ok (some op) ↦ (do recover op; pure (some op)) w
  ]
