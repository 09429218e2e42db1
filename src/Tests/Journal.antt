-- ===== src/Tests/Journal.antt =====
-- Concrete runs of the operation journal.
use defiant_agent_harness.Common.{String, true, ◌&&◌, ◌≡◌, refl, none, some, List, [], ◌∷◌}
use defiant_agent_harness.Common.Digest.{is_sha256, from_char, all_hex}
use defiant_agent_harness.Common.Files.{Saved}
use defiant_agent_harness.Common.Int.{pos}
use defiant_agent_harness.Common.Text.{len, strip, lstrip, rstrip, is_space}
use defiant_agent_harness.Common.Result.{ok}
use defiant_agent_harness.Contracts.{Decision, ResultStatus}
use defiant_agent_harness.Money.{MoneyLike, money}
use defiant_agent_harness.Journal.Types.{
  Kind, Draft, CompletionSubject, Details, Payload, Operation, File, Host,
}
use defiant_agent_harness.Journal.Validate.{
  is_filled, is_value, amount_of, is_completion_subject, validate_execution_completion,
  validate_payload, has_fields, check_evidence, check_details, check_subject, check_text,
  check_completion_of, check_approval_id, is_status, binds_completion, decision_value,
  check_disposition, is_reconciled,
}
use defiant_agent_harness.Journal.Store.{
  active, prepare, prepare_over, write, prepare_operation, check_kind, kind_named, check_payload,
  starts_as_id,
}
use defiant_agent_harness.Journal.Binding.{
  passes, agrees, completion, validate_execution_completion-agrees,
}
use defiant_agent_harness.Journal.Alternation.{
  Call, prepares, completes, events, Alternates, prepare-active, events-Alternates,
}

abbrev hash : String
hash = "sha256:1111111111111111111111111111111111111111111111111111111111111111"

abbrev subject : CompletionSubject
subject = record {
  authority_record_id = "evd_1";
  authority_record_hash = hash;
  action_id = "a1";
  request_id = "r1";
  authorization_hash = hash;
  decision = "allow";
}

abbrev evidence : Draft
evidence = record {
  content = record {
    record_id = "evd_2";
    timestamp = "t1";
    tool_name = "mail.send";
    enforcement_basis = "mcp_proxy";
    ruleset_hash = "";
    others = "";
    request_id = "r1";
    action_id = "a1";
    decision = Decision.allow;
    result_status = ResultStatus.succeeded;
    authorization_hash = hash;
    cost = 2;
    reconciliation_outcome = "";
    reconciled_by = "";
    reconciled_at = none;
    reconciliation_note = "";
  };
  previous_record_hash = "";
  record_hash = "";
}

abbrev payload : Payload
payload = record {
  details = Details.completes (completion subject "" (MoneyLike.finite (pos 2)) (some "settle"));
  amount = MoneyLike.finite (pos 3);
  evidence = some evidence;
}

abbrev host : Host
host = record {
  digest = λ p. hash;
  is_bounded = λ p. true;
  is_bounded_operation = λ e. true;
  is_readable = λ o. true;
  saves = λ o. Saved.saved;
  is_timestamp = λ t. true;
}

abbrev operation : Operation
operation = record {
  operation_id = "op_1";
  kind = Kind.execution_complete;
  prepared_at = "t1";
  payload = payload;
  payload_hash = hash;
}

validate_execution_completion-agrees_example :
    passes (
      validate_execution_completion
        (completion subject "" (MoneyLike.finite (pos 2)) (some "settle"))
        evidence
        3)
    ≡ (is_completion_subject subject && agrees subject "" (some "settle") evidence 3 2)
unfolding money
validate_execution_completion-agrees_example =
    validate_execution_completion-agrees subject "" (MoneyLike.finite (pos 2)) (some "settle")
      evidence 3 2 refl

prepared :
    (prepare host (some "execution_complete") (some payload) "op_1" "t1" File.missing).0
    ≡ ok operation
unfolding prepare prepare_over write prepare_operation active is_filled strip lstrip rstrip is_space
    check_kind kind_named check_payload validate_payload has_fields amount_of money check_evidence
    check_details validate_execution_completion check_subject is_completion_subject is_sha256
    from_char all_hex len check_text check_completion_of check_approval_id is_status
    binds_completion decision_value check_disposition is_value is_reconciled
prepared = refl

fresh_id : starts_as_id "op_1" ≡ true
unfolding starts_as_id
fresh_id = refl

prepare-active_example :
    active host (prepare host (some "execution_complete") (some payload) "op_1" "t1" File.missing).1
    ≡ ok (some operation)
prepare-active_example =
    prepare-active host (some "execution_complete") (some payload) "op_1" "t1" File.missing
      operation fresh_id refl refl refl prepared

abbrev calls : List Call
calls =
    prepares (some "execution_complete") (some payload) "op_1" "t1"
    ∷ prepares (some "execution_complete") (some payload) "op_1" "t2"
    ∷ completes "op_1"
    ∷ []

nothing_active : active host File.missing ≡ ok none
unfolding active
nothing_active = refl

events-Alternates_example : Alternates none (events host calls File.missing)
events-Alternates_example =
    events-Alternates host calls File.missing none ((fresh_id, refl), ((fresh_id, refl), (tt, tt)))
      nothing_active
