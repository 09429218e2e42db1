-- ===== src/Journal/Store.antt =====
-- `JournalOperation` and `OperationJournal`: preparing an operation, reading it back, completing it.
use text.Mathlib.Text.{starts_with}
use defiant_agent_harness.Common.{
  String, Bool, false, not, Option, none, some, List, [], ◌∷◌, any, ◌==◌, if◌then◌else◌,
}
use defiant_agent_harness.Common.Files.{Saved}
use defiant_agent_harness.Common.Result.{Result, ok, err, ◌>>=◌, ◌>>◌, require}
use defiant_agent_harness.Journal.Types.{
  Kind, Text, Payload, Operation, Entry, Active, File, JournalError, Host,
}
use defiant_agent_harness.Journal.Validate.{is_value, is_filled, check_text, validate_payload}

abbrev pub journal_schema : String
journal_schema = "defiant.operation_journal"

abbrev pub journal_version : String
journal_version = "0.4.0"

abbrev pub supported_journal_versions : List String
supported_journal_versions = "0.1.0" ∷ "0.2.0" ∷ "0.3.0" ∷ journal_version ∷ []

unfoldable pub kind_named : String → Option Kind
kind_named k =
    if k == "approval_create"
    then some Kind.approval_create
    else if k == "approval_reject"
    then some Kind.approval_reject
    else if k == "approval_expire"
    then some Kind.approval_expire
    else if k == "authorization_reconcile"
    then some Kind.authorization_reconcile
    else if k == "execution_complete"
    then some Kind.execution_complete
    else none

unfoldable pub name_of : Kind → String
name_of Kind.approval_create = "approval_create"
name_of Kind.approval_reject = "approval_reject"
name_of Kind.approval_expire = "approval_expire"
name_of Kind.authorization_reconcile = "authorization_reconcile"
name_of Kind.execution_complete = "execution_complete"

unfoldable pub check_kind : Text → Result JournalError Kind
check_kind none = err JournalError.bad_kind
check_kind (some k) = elim (kind_named k) [ none ↦ err JournalError.bad_kind | some q ↦ ok q ]

unfoldable pub check_payload : Option Payload → Result JournalError Payload
check_payload none = err JournalError.bad_payload
check_payload (some p) = ok p

unfoldable pub starts_as_id : String → Bool
starts_as_id id = starts_with id "op_"

unfoldable pub is_operation_id : Text → Bool
is_operation_id none = false
is_operation_id (some id) = starts_as_id id

unfoldable pub is_given : Text → Bool
is_given none = false
is_given (some t) = not (t == "")

module _ (host : Host) where
  -- `JournalOperation.prepare`, with the new id and the reading of the clock.
  unfoldable pub prepare_operation :
      Text → Option Payload → String → String → Result JournalError Operation
  prepare_operation kind payload id now = do
    require (is_filled kind) JournalError.bad_kind
    k ← check_kind kind
    p ← check_payload payload
    require (host.is_bounded p) JournalError.oversized
    validate_payload host.is_timestamp k p
    ok (record {
      operation_id = id;
      kind = k;
      prepared_at = now;
      payload = p;
      payload_hash = host.digest p;
    })

  -- `JournalOperation.from_dict`
  unfoldable pub from_dict : Entry → Result JournalError Operation
  from_dict e = do
    require (host.is_bounded_operation e) JournalError.oversized
    require (is_operation_id e.operation_id) JournalError.bad_id
    k ← check_kind e.kind
    require (is_given e.prepared_at) JournalError.bad_prepared_at
    p ← check_payload e.payload
    require (host.is_bounded p) JournalError.oversized
    require (is_value e.payload_hash (host.digest p)) JournalError.bad_hash
    validate_payload host.is_timestamp k p
    id ← check_text e.operation_id JournalError.bad_id
    at ← check_text e.prepared_at JournalError.bad_prepared_at
    ok (record {
      operation_id = id;
      kind = k;
      prepared_at = at;
      payload = p;
      payload_hash = host.digest p;
    })

  unfoldable pub read_active : Active → Result JournalError (Option Operation)
  read_active Active.null = ok none
  read_active Active.not_object = err JournalError.not_an_object
  read_active Active.wrong_fields = err JournalError.bad_fields
  read_active (Active.prepared e) = do op ← from_dict e; ok (some op)

  -- `raw.get("schema_version") in _SUPPORTED_JOURNAL_VERSIONS`
  unfoldable pub is_supported : Text → Bool
  is_supported v = any (λ s. is_value v s) supported_journal_versions

  unfoldable pub active : File → Result JournalError (Option Operation)
  active File.missing = ok none
  active File.broken = err JournalError.unreadable
  active File.wrong_fields = err JournalError.bad_fields
  active (File.holds schema version a) = do
    require (is_value schema journal_schema) JournalError.bad_schema
    require (is_supported version) JournalError.bad_version
    read_active a

-- `to_dict`
unfoldable pub to_dict : Operation → Entry
to_dict op = record {
  operation_id = some op.operation_id;
  kind = some (name_of op.kind);
  prepared_at = some op.prepared_at;
  payload = some op.payload;
  payload_hash = some op.payload_hash;
}

unfoldable pub document : Option Operation → File
document none = File.holds (some journal_schema) (some journal_version) Active.null
document (some op) =
    File.holds (some journal_schema) (some journal_version) (Active.prepared (to_dict op))

module _ (host : Host) where
  -- The file that `_write` makes. What was prepared may nest deeper than the reader allows.
  unfoldable pub stored : Option Operation → File
  stored none = document none
  stored (some op) = if host.is_readable op then document (some op) else File.broken

  -- `_write`, which may raise after the new document took the file's place.
  unfoldable pub write : {A : Type 0} → A → Option Operation → File → Result JournalError A × File
  write a op file = elim (host.saves op) [
    | Saved.saved ↦ (ok a, stored op)
    | Saved.refused ↦ (err JournalError.write_failed, file)
    | Saved.unsynced ↦ (err JournalError.unsynced, stored op)
  ]

  -- The body of `prepare` under the lock, once `active` has answered.
  unfoldable pub prepare_over :
      Operation → Option Operation → File → Result JournalError Operation × File
  prepare_over op (some other) file = (err JournalError.requires_recovery, file)
  prepare_over op none file = write op (some op) file

  unfoldable pub prepare :
      Text → Option Payload → String → String → File → Result JournalError Operation × File
  prepare kind payload id now file = elim (prepare_operation host kind payload id now) [
    | err e ↦ (err e, file)
    | ok op ↦ elim (active host file) [
      | err e ↦ (err e, file)
      | ok current ↦ prepare_over op current file
    ]
  ]

  unfoldable pub complete_over :
      String → Option Operation → File → Result JournalError (Unit {0}) × File
  complete_over id none file = (err JournalError.nothing_active, file)
  complete_over id (some op) file =
      if op.operation_id == id then write tt none file else (err JournalError.wrong_id, file)

  unfoldable pub complete : String → File → Result JournalError (Unit {0}) × File
  complete id file = elim (active host file) [
    | err e ↦ (err e, file)
    | ok current ↦ complete_over id current file
  ]
