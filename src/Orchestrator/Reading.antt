-- ===== src/Orchestrator/Reading.antt =====
-- What the harness reads of the stores before it acts: the chain, the records of an action, the
-- approvals of an action, and the subjects that a journaled operation names.
use defiant_agent_harness.Common.{
  String, Bool, true, false, ◌&&◌, Option, none, some, List, [], ◌∷◌, ltb, length, ◌==◌,
  if◌then◌else◌,
}
use defiant_agent_harness.Common.Dict.{lookup}
use defiant_agent_harness.Common.Result.{ok, err}
use defiant_agent_harness.Contracts.{Decision}
use defiant_agent_harness.Approvals.Types.{Approval}
use defiant_agent_harness.Approvals.Store.{read_all}
use defiant_agent_harness.Approvals.Queries.{for_action}
use defiant_agent_harness.Budgets.Types.{Outcome}
use defiant_agent_harness.Evidence.Types.{Content, EvidenceRecord}
use defiant_agent_harness.Evidence.Chain.{raw, verify_evidence_records}
use defiant_agent_harness.Evidence.Store.{by_action, get, is_terminal, is_skipped}
use defiant_agent_harness.Journal.Types.{
  Draft, CompletionSubject, AuthorizationSubject, AttestationValue, Text, JournalError,
}
use defiant_agent_harness.Journal.Validate.{
  decision_value, is_completion_subject, is_authorization_subject,
}
use defiant_agent_harness.Orchestrator.Types.{HarnessError, Host}
use defiant_agent_harness.Orchestrator.Monad.{
  M, ◌>>=◌, ◌>>◌, pure, raise, require, refuse, or_raise, lift, on_approvals,
}

-- `chain = self.evidence.verify()`, refused unless it is intact.
unfoldable pub require_intact : Host → M (Unit {0})
require_intact host w =
    (require (verify_evidence_records host.evidence.sha256 w.evidence.lines).is_ok
        HarnessError.broken_chain)
      w

-- `self.evidence.get(record_id)`
unfoldable pub get_record : String → M (Option EvidenceRecord)
get_record id w = (lift HarnessError.unreadable (get id w.evidence.lines)) w

-- `self.evidence.by_action(action_id)`
unfoldable pub records_of : String → M (List EvidenceRecord)
records_of action_id w = elim (raw w.evidence.lines) [
  | ok rs ↦ (ok (by_action action_id rs), w)
  | err e ↦ (err (HarnessError.unreadable e), w)
]

-- `next((r for r in reversed(records) if p(r)), None)`
unfoldable pub last_where : (EvidenceRecord → Bool) → List EvidenceRecord → Option EvidenceRecord
last_where p [] = none
last_where p (r ∷ rs) = elim (last_where p rs) [
  | some t ↦ some t
  | none ↦ if p r then some r else none
]

-- A terminal record of this authorization.
unfoldable pub ends : String → EvidenceRecord → Bool
ends authorization_hash r =
    r.body.content.authorization_hash == authorization_hash
    && is_terminal r.body.content.result_status

-- `_authorization_terminal`, of the subject's action and hash.
unfoldable pub authorization_terminal : String → String → M (Option EvidenceRecord)
authorization_terminal action_id authorization_hash = do
  rs ← records_of action_id
  pure (last_where (ends authorization_hash) rs)

-- The guard on a terminal record that is there: it is the one with this id.
unfoldable pub is_this_or_none : String → Option EvidenceRecord → Bool
is_this_or_none id none = true
is_this_or_none id (some r) = r.body.content.record_id == id

-- `self.approvals.get(approval_id)`, refused where there is none.
unfoldable pub get_approval : String → M Approval
get_approval id = do d ← on_approvals read_all; or_raise (lookup id d) HarnessError.unknown_approval

-- `if self.approvals.for_action(action_id): raise`
unfoldable pub require_no_approval : String → M (Unit {0})
require_no_approval action_id = do
  as' ← on_approvals (for_action action_id)
  refuse (ltb 0 (length as')) HarnessError.belongs_to_approval

-- `ExecutionCompletionSubject.from_record`
unfoldable pub completion_subject : EvidenceRecord → CompletionSubject
completion_subject r = record {
  authority_record_id = r.body.content.record_id;
  authority_record_hash = r.record_hash;
  action_id = r.body.content.action_id;
  request_id = r.body.content.request_id;
  authorization_hash = r.body.content.authorization_hash;
  decision = decision_value r.body.content.decision;
}

unfoldable pub completion_of : EvidenceRecord → M CompletionSubject
completion_of r = do
  require (is_skipped r.body.content.result_status) HarnessError.not_an_authorization
  require (is_completion_subject (completion_subject r))
      (HarnessError.journal JournalError.bad_authority)
  pure (completion_subject r)

unfoldable pub same_completion : CompletionSubject → CompletionSubject → Bool
same_completion a b =
    a.authority_record_id == b.authority_record_id
    && a.authority_record_hash == b.authority_record_hash
    && a.action_id == b.action_id
    && a.request_id == b.request_id
    && a.authorization_hash == b.authorization_hash
    && a.decision == b.decision

abbrev pub is_allowed : Decision → Bool
is_allowed Decision.allow = true
is_allowed d = false

-- `AuthorizationReconciliationSubject.from_record`
unfoldable pub authorization_subject : EvidenceRecord → AuthorizationSubject
authorization_subject r = record {
  authority_record_id = r.body.content.record_id;
  authority_record_hash = r.record_hash;
  action_id = r.body.content.action_id;
  request_id = r.body.content.request_id;
  authorization_hash = r.body.content.authorization_hash;
  authorized_at = r.body.content.timestamp;
}

unfoldable pub authorization_of : Host → EvidenceRecord → M AuthorizationSubject
authorization_of host r = do
  require (is_skipped r.body.content.result_status && is_allowed r.body.content.decision)
      HarnessError.not_an_authorization
  require (is_authorization_subject host.journal.is_timestamp (authorization_subject r))
      (HarnessError.journal JournalError.bad_authority)
  pure (authorization_subject r)

unfoldable pub same_authorization : AuthorizationSubject → AuthorizationSubject → Bool
same_authorization a b =
    a.authority_record_id == b.authority_record_id
    && a.authority_record_hash == b.authority_record_hash
    && a.action_id == b.action_id
    && a.request_id == b.request_id
    && a.authorization_hash == b.authorization_hash
    && a.authorized_at == b.authorized_at

-- `EvidenceRecord(**payload["evidence"])`, which must not be sealed.
unfoldable pub check_draft : Option Draft → M Content
check_draft none = raise (HarnessError.journal JournalError.bad_evidence)
check_draft (some e) = do
  require (e.record_hash == "" && e.previous_record_hash == "") HarnessError.sealed_draft
  pure e.content

-- A payload's text, which its validation has found to be one.
unfoldable pub text_of : Text → M String
text_of t = or_raise t (HarnessError.journal JournalError.bad_text)

-- The attestation of a payload: `none` for null.
unfoldable pub attestation_of : {A : Type 0} → AttestationValue A → M (Option A)
attestation_of AttestationValue.null = pure none
attestation_of (AttestationValue.object t) = pure (some t)
attestation_of AttestationValue.another = raise (HarnessError.journal JournalError.bad_attestation)

-- The outcomes of a reconciliation, by their names.
unfoldable pub outcome_named : String → Option Outcome
outcome_named s =
    if s == "succeeded"
    then some Outcome.succeeded
    else if s == "failed"
    then some Outcome.failed
    else if s == "not_executed"
    then some Outcome.not_executed
    else none

-- `_require_authorization_reconciliation_identity`; the attestation is canonical JSON.
unfoldable pub require_authorization_identity :
    Host → AuthorizationSubject → Outcome → String → String → Option String → M (Unit {0})
require_authorization_identity host subject outcome by note attestation =
    elim host.authorization_trust [
      | none ↦ elim attestation [ none ↦ pure tt | some t ↦ raise HarnessError.untrusted ]
      | some attests ↦ elim attestation [
        | none ↦ raise HarnessError.untrusted
        | some t ↦ require (attests t subject outcome by note) HarnessError.untrusted
      ]
    ]
