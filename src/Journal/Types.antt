-- ===== src/Journal/Types.antt =====
-- The journal's operations, their payloads and the file.
use defiant_agent_harness.Common.{String, Bool, Option}
use defiant_agent_harness.Common.Files.{Saved}
use defiant_agent_harness.Money.{MoneyLike}
use defiant_agent_harness.Approvals.Types.{Attestation, Approval}
use defiant_agent_harness.Evidence.Types.{Content}

-- `OPERATION_KINDS`
pub data Kind : Type 0 where
  approval_create approval_reject approval_expire : Kind
  authorization_reconcile execution_complete : Kind

-- An `EvidenceRecord` as a payload has it.
pub record Draft : Type 0 where
  pub content : Content
  pub previous_record_hash : String
  pub record_hash : String

-- The fields of `ExecutionCompletionSubject`.
pub record CompletionSubject : Type 0 where
  pub authority_record_id : String
  pub authority_record_hash : String
  pub action_id : String
  pub request_id : String
  pub authorization_hash : String
  pub decision : String

-- The fields of `AuthorizationReconciliationSubject`.
pub record AuthorizationSubject : Type 0 where
  pub authority_record_id : String
  pub authority_record_hash : String
  pub action_id : String
  pub request_id : String
  pub authorization_hash : String
  pub authorized_at : String

-- An operator's signed statement, or another value in its place.
pub data AttestationValue (A : Type 0) : Type 0 where
  null : AttestationValue A
  object : A → AttestationValue A
  another : AttestationValue A

-- A text, or `none` for a value that is no text.
abbrev pub Text : Type 0
Text = Option String

pub record Ids : Type 0 where
  pub approval_id : Text
  pub action_id : Text
  pub request_id : Text

pub record Rejection : Type 0 where
  pub ids : Ids
  pub decided_by : Text
  pub note : Text
  pub attestation : AttestationValue Attestation

-- `none` for an authority with other fields or with a value that is no text, here and below; the
-- attestation is canonical JSON.
pub record Reconciliation : Type 0 where
  pub authority : Option AuthorizationSubject
  pub outcome : Text
  pub reconciled_by : Text
  pub note : Text
  pub attestation : AttestationValue String

pub record Completion : Type 0 where
  pub authority : Option CompletionSubject
  pub approval_id : Text
  pub actual : MoneyLike
  pub budget_disposition : Text

-- The fields of a payload that differ by kind; `fields` of another set are `others`.
pub data Details : Type 0 where
  creates : Approval → Details
  rejects : Rejection → Details
  expires : Ids → Details
  reconciles : Reconciliation → Details
  completes : Completion → Details
  others : Details

-- A non-empty payload: its details, its amount and its evidence, `none` where the record's own
-- contract refuses it.
pub record Payload : Type 0 where
  pub details : Details
  pub amount : MoneyLike
  pub evidence : Option Draft

pub record Operation : Type 0 where
  pub operation_id : String
  pub kind : Kind
  pub prepared_at : String
  pub payload : Payload
  pub payload_hash : String

-- An operation as the file has it: any text may stand for its kind, and the payload may be absent,
-- empty or no object.
pub record Entry : Type 0 where
  pub operation_id : Text
  pub kind : Text
  pub prepared_at : Text
  pub payload : Option Payload
  pub payload_hash : Text

pub data Active : Type 0 where
  null not_object wrong_fields : Active
  prepared : Entry → Active

-- The file: absent, unreadable, with other fields, or with the schema's three.
pub data File : Type 0 where
  missing broken wrong_fields : File
  holds : Text → Text → Active → File

pub data JournalError : Type 0 where
  bad_id bad_kind bad_prepared_at bad_payload bad_hash oversized bad_fields : JournalError
  bad_amount bad_evidence sealed wrong_status bad_authority wrong_authority bad_text : JournalError
  wrong_outcome wrong_operator bad_attestation bad_approval wrong_approval wrong_ids : JournalError
  bad_approval_id wrong_decision not_a_result bad_disposition zero_settlement : JournalError
  free_settlement wrong_cost reconciled_already : JournalError
  unreadable bad_schema bad_version not_an_object requires_recovery : JournalError
  nothing_active wrong_id write_failed unsynced : JournalError

-- What the host decides: the digest of a payload's canonical text; whether a payload, and whether a
-- whole operation, is within `MAX_OPERATION_JOURNAL_BYTES` and the depth of a canonical value; whether
-- `read_json`, which limits the nesting of brackets, can read the file of an operation; what a write of
-- the file comes to; and which texts are times.
pub record Host : Type 0 where
  pub digest : Payload → String
  pub is_bounded : Payload → Bool
  pub is_bounded_operation : Entry → Bool
  pub is_readable : Operation → Bool
  pub saves : Option Operation → Saved
  pub is_timestamp : String → Bool
