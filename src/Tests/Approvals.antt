-- ===== src/Tests/Approvals.antt =====
-- Concrete runs of the approval store.
use defiant_agent_harness.Common.{◌≤◌, ◌≡◌, refl, none, some, List, [], ◌∷◌}
use defiant_agent_harness.Common.Files.{Saved}
use defiant_agent_harness.Common.Dict.{lookup, insert}
use defiant_agent_harness.Common.Text.{strip}
use defiant_agent_harness.Common.Result.{Result, ok}
use defiant_agent_harness.Approvals.Types.{Status, Outcome, Approval, ApprovalError}
use defiant_agent_harness.Approvals.Checks.{
  check_identity, check_status, check_reconciliation, check_bindings, from_dict,
}
use defiant_agent_harness.Approvals.Store.{
  Store, Config, check_store, read_all, is_expired, write_all, replaced, put,
}
use defiant_agent_harness.Approvals.Operations.{
  require_decision_identity, begin_execution, consume, ensure_consumed,
}
use defiant_agent_harness.Approvals.Reconcile.{mark_reconciled}
use defiant_agent_harness.Approvals.Queries.{Proposal, proposed}
use defiant_agent_harness.Approvals.Calls.{Call, call, serve, executions, status_of}
use defiant_agent_harness.Approvals.Evolution.{IsEntry, Evolves, call-Evolves}
use defiant_agent_harness.Approvals.SingleUse.{
  MayExecute, executing, begin_execution-MayExecute, executions-le-one,
}
use defiant_agent_harness.Approvals.OneActive.{OneActive, serve-OneActive}

abbrev config : Config
config = record { operator_trust = none; writes = λ s. Saved.saved }

abbrev proposal : Proposal
proposal = record {
  action = record {
    action_id = "a1";
    request_id = "r1";
    tool_name = "mail.send";
    target = "x@y";
    payload_hash = "p1";
    authorization_hash = "h1";
  };
  payload_preview = "";
  approval_scope = "one message";
  reason = "external send";
  policy_ids = "p" ∷ [];
  request = none;
  decision = none;
  reserved = 0;
  execution_owner = "";
  execution_key = "";
}

abbrev waiting : Approval
waiting = proposed proposal 60 "apr_1" 1000 1000

abbrev approved : Approval
approved = record waiting {
  status = Status.approved;
  decided_by = some "op";
  decided_at = some 1100;
}

abbrev file : Store
file = ("apr_1", approved) ∷ []

abbrev calls : List Call
calls =
    Call.begin_execution "apr_1" "a1" "h1" 1200 1200
    ∷ Call.begin_execution "apr_1" "a1" "h1" 1201 1201
    ∷ Call.mark_consumed "apr_1" "evd_1" 1300
    ∷ Call.begin_execution "apr_1" "a1" "h1" 1400 1400
    ∷ []

executions-le-one_example : executions config "apr_1" calls file ≤ 1
executions-le-one_example = executions-le-one config "apr_1" calls file

abbrev beginning : Result ApprovalError Approval × Store
beginning = begin_execution config "apr_1" "a1" "h1" 1200 1200 file

abbrev started : Store
started = ("apr_1", executing approved) ∷ []

beginning_runs : beginning ≡ (ok (executing approved), started)
unfolding begin_execution check_identity check_status check_reconciliation check_bindings from_dict
    check_store read_all is_expired write_all replaced put require_decision_identity lookup insert
    strip
beginning_runs = refl

begin_execution-MayExecute_example :
    (a : Approval) × (lookup "apr_1" file ≡ some a)
    × MayExecute config a "a1" "h1" 1200
    × (lookup "apr_1" started ≡ some (executing a))
begin_execution-MayExecute_example =
    begin_execution-MayExecute config "apr_1" "a1" "h1" 1200 1200 file started (executing approved)
      beginning_runs

call-Evolves_example :
    Evolves
      (IsEntry (Call.begin_execution "apr_1" "a1" "h1" 1200 1200))
      (lookup "apr_1" file)
      (lookup "apr_1" (call config (Call.begin_execution "apr_1" "a1" "h1" 1200 1200) file))
call-Evolves_example =
    call-Evolves config "apr_1" (Call.begin_execution "apr_1" "a1" "h1" 1200 1200) file

abbrev rejected_file : Store
rejected_file = ("apr_1", record approved { status = Status.rejected }) ∷ []

rejected_status : status_of "apr_1" rejected_file ≡ some Status.rejected
unfolding status_of lookup
rejected_status = refl

empty-OneActive : OneActive []
unfolding lookup
empty-OneActive action_id i j x y = cc

abbrev creations : List Call
creations =
    Call.create proposal 60 "apr_1" 1000 1000 ∷ Call.create proposal 60 "apr_2" 1001 1001 ∷ []

serve-OneActive_example : OneActive (serve config creations [])
serve-OneActive_example = serve-OneActive config creations [] empty-OneActive

abbrev done : Approval
done = record (executing approved) {
  status = Status.consumed;
  execution_record_id = "evd_1";
  consumed_at = some 1300;
}

abbrev done_file : Store
done_file = ("apr_1", done) ∷ []

done_reads : read_all done_file ≡ (ok done_file, done_file)
unfolding check_identity check_status check_reconciliation check_bindings from_dict check_store
    read_all is_expired write_all replaced put require_decision_identity lookup insert strip
done_reads = refl

consumed_runs : ensure_consumed config "apr_1" "evd_1" 1300 started ≡ (ok done, done_file)
unfolding ensure_consumed consume check_identity check_status check_reconciliation check_bindings
    from_dict check_store read_all is_expired write_all replaced put require_decision_identity
    lookup insert strip
consumed_runs = refl

-- The operator found that the execution had succeeded.
abbrev under_reconciliation : Approval
under_reconciliation = record (executing approved) {
  reconciliation_outcome = some Outcome.succeeded;
  reconciled_by = "op";
  reconciliation_note = "seen";
  reconciliation_started_at = some 1250;
}

abbrev reconciled : Approval
reconciled = record under_reconciliation {
  status = Status.consumed;
  execution_record_id = "evd_1";
  consumed_at = some 1300;
  reconciliation_completed_at = some 1300;
}

abbrev reconciled_file : Store
reconciled_file = ("apr_1", reconciled) ∷ []

reconciled_reads : read_all reconciled_file ≡ (ok reconciled_file, reconciled_file)
unfolding check_identity check_status check_reconciliation check_bindings from_dict check_store
    read_all is_expired write_all replaced put require_decision_identity lookup insert strip
reconciled_reads = refl

reconciled_runs :
    mark_reconciled config "apr_1" "evd_1" 1300 (("apr_1", under_reconciliation) ∷ [])
    ≡ (ok reconciled, reconciled_file)
unfolding mark_reconciled check_identity check_status check_reconciliation check_bindings from_dict
    check_store read_all is_expired write_all replaced put require_decision_identity lookup insert
    strip
reconciled_runs = refl
