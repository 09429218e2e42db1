-- ===== src/Orchestrator/Frame/Recovery.antt =====
-- Every frame is kept by recovery, whatever fails on the way.
use defiant_agent_harness.Common.{ℕ, String, Bool, Option, none, some, ◌≡◌, refl, inl, inr, arith}
use defiant_agent_harness.Common.Result.{Result-cases}
use defiant_agent_harness.Approvals.Types.{Approval, Attestation}
use defiant_agent_harness.Approvals.Store.{Store, read_all}
use defiant_agent_harness.Approvals.Queries.{for_action, due}
use defiant_agent_harness.Approvals.Operations.{expire_one, ensure_consumed}
use defiant_agent_harness.Approvals.Reconcile.{ensure_rejected}
use defiant_agent_harness.Budgets.Types.{Outcome}
use defiant_agent_harness.Evidence.Chain.{raw}
use defiant_agent_harness.Journal.Store.{active}
use defiant_agent_harness.Approvals.Calls.{Call, call}
use defiant_agent_harness.Evidence.Types.{Content, EvidenceRecord}
use defiant_agent_harness.Evidence.Store.{append, append_idempotent}
use defiant_agent_harness.Evidence.History.{Call as EvidenceCall, call as evidence_call, call-Adds}
use defiant_agent_harness.Journal.Types.{
  Draft, AttestationValue, CompletionSubject, AuthorizationSubject, Reconciliation, Text, Ids,
  Rejection, Completion, Details, Kind, Operation,
}
use defiant_agent_harness.Money.{MoneyLike}
use defiant_agent_harness.Orchestrator.Types.{HarnessError, World, Host, Readings}
use defiant_agent_harness.Orchestrator.Monad.{pure, raise, require, on_approvals, on_evidence}
use defiant_agent_harness.Orchestrator.Frame.{
  IsFrame, Keeps, keeping, Keeps-pure, Keeps-raise, Keeps-bind, Keeps-on_approvals, Keeps-require,
  Keeps-lift, Keeps-create_prepared, Keeps-read_approvals, Keeps-on_evidence,
}
use defiant_agent_harness.Orchestrator.Reading.{
  require_intact, get_record, records_of, authorization_terminal, get_approval, require_no_approval,
  completion_of, authorization_of, check_draft, text_of, attestation_of,
  require_authorization_identity,
}
use defiant_agent_harness.Orchestrator.Recovery.{
  finish, recover_creation, validate_journaled_approval, give_back, recover_rejection,
  recover_expiry, recover_authorization, check_completion_approval, check_completion,
  settle_completion, consume_completion, recover_completion, recover_details, recover,
  recover_operation,
}

read_all-store : (s : Store) → (read_all s).1 ≡ s
unfolding read_all
read_all-store s = ground arith

for_action-store : (id : String) (s : Store) → (for_action id s).1 ≡ s
unfolding for_action
for_action-store id s = ground (arith, read_all-store s)

due-store : (now : ℕ) (s : Store) → (due now s).1 ≡ s
unfolding due
due-store now s = ground (arith, read_all-store s)

module _ {R : World → World → Type 0} ⦃frame : IsFrame R⦄ where
  Keeps-read_all : Keeps R (on_approvals read_all)
  Keeps-read_all = Keeps-read_approvals read_all read_all-store

  Keeps-for_action : (id : String) → Keeps R (on_approvals (for_action id))
  Keeps-for_action id = Keeps-read_approvals (for_action id) (for_action-store id)

  pub Keeps-due : (now : ℕ) → Keeps R (on_approvals (due now))
  Keeps-due now = Keeps-read_approvals (due now) (due-store now)

  pub Keeps-append :
      (host : Host) (content : Content) (now : String)
      → Keeps R (on_evidence (append host.evidence content now))
  unfolding evidence_call
  Keeps-append host content now =
      Keeps-on_evidence _ (λ log. call-Adds host.evidence (EvidenceCall.append content now) log)

  pub Keeps-append_idempotent :
      (host : Host) (content : Content) (now : String)
      → Keeps R (on_evidence (append_idempotent host.evidence content now))
  unfolding evidence_call
  Keeps-append_idempotent host content now =
      Keeps-on_evidence _
        (λ log. call-Adds host.evidence (EvidenceCall.append_idempotent content now) log)

  -- The reads.
  pub Keeps-require_intact : (host : Host) → Keeps R (require_intact host)
  unfolding require_intact
  Keeps-require_intact host = record { at = λ w. (Keeps-require {R = R} _ _).at w }

  pub Keeps-get_record : (id : String) → Keeps R (get_record id)
  unfolding get_record
  Keeps-get_record id = record { at = λ w. (Keeps-lift {R = R} _ _).at w }

  pub Keeps-records_of : (id : String) → Keeps R (records_of id)
  unfolding records_of
  Keeps-records_of id = record {
    at = λ w. elim (Result-cases (raw w.evidence.lines)) [
      | inl (a, e) ↦ rw (e, records_of) (frame.same w)
      | inr (x, e) ↦ rw (e, records_of) (frame.same w)
    ];
  }

  pub Keeps-authorization_terminal : (id hash : String) → Keeps R (authorization_terminal id hash)
  unfolding authorization_terminal
  Keeps-authorization_terminal id hash = search (keeping, Keeps-records_of)

  pub Keeps-get_approval : (id : String) → Keeps R (get_approval id)
  unfolding get_approval
  Keeps-get_approval id = search (keeping, Keeps-read_all)

  pub Keeps-require_no_approval : (id : String) → Keeps R (require_no_approval id)
  unfolding require_no_approval
  Keeps-require_no_approval id = search (keeping, Keeps-for_action)

  pub Keeps-completion_of : (r : EvidenceRecord) → Keeps R (completion_of r)
  unfolding completion_of
  Keeps-completion_of r = search keeping

  pub Keeps-authorization_of :
      (host : Host) (r : EvidenceRecord) → Keeps R (authorization_of host r)
  unfolding authorization_of
  Keeps-authorization_of host r = search keeping

  pub Keeps-check_draft : (d : Option Draft) → Keeps R (check_draft d)
  unfolding check_draft
  Keeps-check_draft none = search keeping
  Keeps-check_draft (some e) = search keeping

  pub Keeps-text_of : (t : Text) → Keeps R (text_of t)
  unfolding text_of
  Keeps-text_of t = search keeping

  pub Keeps-attestation_of : {A : Type 0} (t : AttestationValue A) → Keeps R (attestation_of t)
  unfolding attestation_of
  Keeps-attestation_of AttestationValue.null = search keeping
  Keeps-attestation_of (AttestationValue.object t) = search keeping
  Keeps-attestation_of AttestationValue.another = search keeping

  pub Keeps-require_authorization_identity :
      (host : Host) (subject : AuthorizationSubject) (o : Outcome) (by note : String)
      (t : Option String)
      → Keeps R (require_authorization_identity host subject o by note t)
  unfolding require_authorization_identity
  Keeps-require_authorization_identity host subject o by note t =
      identified host.authorization_trust t
    where
      identified :
          (trust : Option (String → AuthorizationSubject → Outcome → String → String → Bool))
          (u : Option String)
          → Keeps R (elim trust [
            | none ↦ elim u [ none ↦ pure tt | some x ↦ raise HarnessError.untrusted ]
            | some attests ↦ elim u [
              | none ↦ raise HarnessError.untrusted
              | some x ↦ require (attests x subject o by note) HarnessError.untrusted
            ]
          ])
      identified none none = Keeps-pure tt
      identified none (some x) = Keeps-raise _
      identified (some attests) none = Keeps-raise _
      identified (some attests) (some x) = Keeps-require _ _

ruleset reading = (
  Keeps-require_intact, Keeps-get_record, Keeps-records_of, Keeps-authorization_terminal,
  Keeps-get_approval, Keeps-require_no_approval, Keeps-completion_of, Keeps-authorization_of,
  Keeps-check_draft, Keeps-text_of, Keeps-attestation_of, Keeps-require_authorization_identity,
)

module _ {R : World → World → Type 0} ⦃frame : IsFrame R⦄ (host : Host) where
  -- The methods of the approval store that the harness calls.
  pub Keeps-ensure_rejected :
      (id by note : String) (t : Option Attestation) (now stamp : ℕ)
      → Keeps R (on_approvals (ensure_rejected host.approvals id by note t now stamp))
  unfolding call
  Keeps-ensure_rejected id by note t now stamp =
      Keeps-on_approvals _ host.approvals (Call.ensure_rejected id by note t now stamp) (λ s. refl)

  pub Keeps-expire_one :
      (id : String) (now stamp : ℕ)
      → Keeps R (on_approvals (expire_one host.approvals id now stamp))
  unfolding call
  Keeps-expire_one id now stamp =
      Keeps-on_approvals _ host.approvals (Call.expire_one id now stamp) (λ s. refl)

  pub Keeps-ensure_consumed :
      (id record_id : String) (stamp : ℕ)
      → Keeps R (on_approvals (ensure_consumed host.approvals id record_id stamp))
  unfolding call
  Keeps-ensure_consumed id record_id stamp =
      Keeps-on_approvals _ host.approvals (Call.ensure_consumed id record_id stamp) (λ s. refl)

  -- The steps of recovery.
  Keeps-recover_creation :
      (t : Readings) (a : Approval) (reserved : ℕ) → Keeps R (recover_creation host t a reserved)
  unfolding recover_creation
  Keeps-recover_creation t a reserved = search (keeping, Keeps-create_prepared)

  Keeps-validate_journaled_approval :
      (t : Readings) (ids : Ids) (reserved : ℕ)
      → Keeps R (validate_journaled_approval host t ids reserved)
  unfolding validate_journaled_approval
  Keeps-validate_journaled_approval t ids reserved = search (keeping, reading)

  Keeps-give_back :
      (t : Readings) (ids : Ids) (reserved : ℕ) → Keeps R (give_back host t ids reserved)
  unfolding give_back
  Keeps-give_back t ids reserved = search (keeping, reading)

  Keeps-recover_rejection :
      (t : Readings) (r : Rejection) (reserved : ℕ) → Keeps R (recover_rejection host t r reserved)
  unfolding recover_rejection
  Keeps-recover_rejection t r reserved =
      search
        (
          keeping, reading, Keeps-ensure_rejected, Keeps-validate_journaled_approval,
          Keeps-give_back,
        )
        depth 30 fits 3000

  Keeps-recover_expiry :
      (t : Readings) (ids : Ids) (reserved : ℕ) → Keeps R (recover_expiry host t ids reserved)
  unfolding recover_expiry
  Keeps-recover_expiry t ids reserved =
      search
        (keeping, reading, Keeps-expire_one, Keeps-validate_journaled_approval, Keeps-give_back)

  Keeps-recover_authorization :
      (t : Readings) (r : Reconciliation) (content : Content) (reserved : ℕ)
      → Keeps R (recover_authorization host t r content reserved)
  unfolding recover_authorization
  Keeps-recover_authorization t r content reserved = search (keeping, reading) depth 30 fits 3000

  Keeps-check_completion_approval :
      (t : Readings) (subject : CompletionSubject) (id : String) (a : Approval)
      → Keeps R (check_completion_approval host t subject id a)
  unfolding check_completion_approval
  Keeps-check_completion_approval t subject id a = search keeping

  Keeps-check_completion :
      (t : Readings) (subject : CompletionSubject) (approval_id record_id : String)
      → Keeps R (check_completion host t subject approval_id record_id)
  unfolding check_completion
  Keeps-check_completion t subject approval_id record_id =
      search (keeping, reading, Keeps-check_completion_approval) depth 30 fits 3000

  Keeps-settle_completion :
      (t : Readings) (subject : CompletionSubject) (d : Text) (actual : MoneyLike) (reserved : ℕ)
      (id : String)
      → Keeps R (settle_completion host t subject d actual reserved id)
  unfolding settle_completion
  Keeps-settle_completion t subject d actual reserved id = search keeping

  Keeps-consume_completion :
      (t : Readings) (approval_id record_id : String)
      → Keeps R (consume_completion host t approval_id record_id)
  unfolding consume_completion
  Keeps-consume_completion t approval_id record_id = search (keeping, Keeps-ensure_consumed)

  Keeps-recover_completion :
      (t : Readings) (id : String) (c : Completion) (content : Content) (reserved : ℕ)
      → Keeps R (recover_completion host t id c content reserved)
  unfolding recover_completion
  Keeps-recover_completion t id c content reserved =
      search
        (
          keeping, reading, Keeps-check_completion, Keeps-settle_completion,
          Keeps-append_idempotent, Keeps-consume_completion,
        )
        depth 30 fits 3000

  Keeps-finish :
      (t : Readings) (id : String) (content : Content) → Keeps R (finish host t id content)
  unfolding finish
  Keeps-finish t id content = search (keeping, Keeps-append_idempotent)

ruleset recovering = (
  Keeps-recover_creation, Keeps-recover_rejection, Keeps-recover_expiry,
  Keeps-recover_authorization, Keeps-recover_completion, Keeps-finish,
)

module _ {R : World → World → Type 0} ⦃frame : IsFrame R⦄ (host : Host) where
  Keeps-recover_details :
      (t : Readings) (id : String) (k : Kind) (d : Details) (content : Content) (reserved : ℕ)
      → Keeps R (recover_details host t id k d content reserved)
  unfolding recover_details
  Keeps-recover_details t id Kind.approval_create (Details.creates a) content reserved =
      search (keeping, recovering)
  Keeps-recover_details t id Kind.approval_reject (Details.rejects r) content reserved =
      search (keeping, recovering)
  Keeps-recover_details t id Kind.approval_expire (Details.expires i) content reserved =
      search (keeping, recovering)
  Keeps-recover_details t id Kind.authorization_reconcile (Details.reconciles r) content reserved =
      search (keeping, recovering)
  Keeps-recover_details t id Kind.execution_complete (Details.completes c) content reserved =
      search (keeping, recovering)
  Keeps-recover_details t id k d content reserved = search keeping

  -- Recovery of any operation, whatever fails on the way.
  pub Keeps-recover : (t : Readings) (op : Operation) → Keeps R (recover host t op)
  unfolding recover
  Keeps-recover t op = search (keeping, reading, Keeps-recover_details)

  pub Keeps-recover_operation : (t : Readings) → Keeps R (recover_operation host t)
  unfolding recover_operation
  Keeps-recover_operation t = record {
    at = λ w. elim (Result-cases (active host.journal w.journal)) [
      | inr (x, e) ↦ rw (e, recover_operation) (frame.same w)
      | inl (none, e) ↦ rw (e, recover_operation) (frame.same w)
      | inl (some op, e) ↦
          rw (e, recover_operation)
            ((Keeps-bind (recover host t op) (λ _. pure (some op)) (Keeps-recover t op)
                (λ _. Keeps-pure (some op))).at
              w)
    ];
  }
