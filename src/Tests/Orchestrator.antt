-- ===== src/Tests/Orchestrator.antt =====
-- Concrete runs of the harness: an action that the policy allows, and an approval of one.
use defiant_agent_harness.Common.{
  List, ◌≤◌, ◌≡◌, refl, String, true, false, ◌⊎◌, ◌==◌, none, some, [], ◌∷◌,
}
use defiant_agent_harness.Common.Files.{Saved}
use defiant_agent_harness.Common.Int.{pos}
use defiant_agent_harness.Contracts.{SideEffect, Decision}
use defiant_agent_harness.Policy.Types.{scalar, Action, Rule}
use defiant_agent_harness.Policy.Evaluate.{Engine}
use defiant_agent_harness.Approvals.Types.{Approval}
use defiant_agent_harness.Approvals.Queries.{proposed}
use defiant_agent_harness.Evidence.Types.{HeadFile}
use defiant_agent_harness.Evidence.Store.{Written}
use defiant_agent_harness.Journal.Types.{File}
use defiant_agent_harness.Tools.Types.{
  TargetScope, ToolStatus, Summary, Output, Run, Registry, Host as ToolHost,
}
use defiant_agent_harness.Orchestrator.Types.{
  Request, Cause, Guardrail, World, Host, Harness, Readings, Making, Supply,
}
use defiant_agent_harness.Orchestrator.Records.{sealed}
use defiant_agent_harness.Orchestrator.Handle.{proposal, handle}
use defiant_agent_harness.Orchestrator.Resume.{resume, resume_external}
use defiant_agent_harness.Orchestrator.Guarded.{Ran, handle-Ran}
use defiant_agent_harness.Orchestrator.Once.{Handling, calls_for, after_calls, after_calls-once}
use defiant_agent_harness.Orchestrator.Warrant.{RanApproved}
use defiant_agent_harness.Orchestrator.Approved.{
  until_begun, resume-RanApproved, resume_external-SameCalls,
}
use defiant_agent_harness.Budgets.Types.{Outcome}
use defiant_agent_harness.Orchestrator.Single.{Answer, Step, runs, runs-le-one}

abbrev hash : String
hash = "sha256:1111111111111111111111111111111111111111111111111111111111111111"

abbrev sends : Action
sends = record {
  action_id = "a1";
  request_id = "r1";
  tool_name = "mail.send";
  target = "x@y";
  payload = scalar "hello";
  side_effect_level = SideEffect.external_send;
  payload_sources = [];
  estimated_cost = 1;
  payload_hash = "p1";
  authorization_hash = hash;
}

abbrev request : Request
request = record {
  request_id = "r1";
  task_type = "mail";
  sensitivity = "client";
  workspace_id = "w";
  allowed_tools = "mail.send" ∷ [];
  budget_limit = some 5;
}

abbrev tools : ToolHost
tools = record {
  sha256 = λ s. s;
  digest = λ s. hash;
  sign = λ c. c.grant_id;
  target_allowed = λ scope target. true;
  run = λ name a. Run.returned (record {
    status = ToolStatus.succeeded;
    summary = Summary.said "sent";
    output = Output.nothing;
    cost = 1;
    dry_run = false;
  });
}

abbrev registry : Registry
registry = record {
  tools =
      (
        "mail.send",
        record {
          name = "mail.send";
          side_effect_level = SideEffect.external_send;
          cost_estimate = 1;
          supports_dry_run = true;
          target_scope = TargetScope.anywhere;
        },
      )
      ∷ [];
  dry_run = false;
}

abbrev mail_rule : Rule
mail_rule = record {
  id = "mail";
  description = "";
  tools = "mail.send" ∷ [];
  side_effect_at_least = none;
  targets = [];
  payload_contains = [];
  max_payload_trust = none;
  sensitivities = [];
  effect = Decision.allow;
  reason = "";
  approval_scope = "";
  redactions = [];
}

abbrev engine : Engine
engine = record {
  name = "pack";
  version = "1";
  ruleset_hash = hash;
  rules = mail_rule ∷ [];
  known_tools = "mail.send" ∷ [];
}

abbrev harness : Harness
harness = record {
  engine = engine;
  registry = registry;
  dry_run = false;
  execution_disabled = false;
  evidence_basis = "harness_control_loop";
  approval_ttl_minutes = 60;
}

abbrev allowed : Guardrail
allowed = record { decision = Decision.allow; ruleset_hash = hash; cause = Cause.duplicate_action }

abbrev host : Host
host = record {
  evidence = record {
    sha256 = λ b. hash;
    profile = none;
    line_bytes = λ r. 100;
    writes = λ lines r. Written.whole;
    saves = λ s. true;
  };
  writes_budget = λ l. Saved.saved;
  approvals = record { operator_trust = none; writes = λ s. Saved.saved };
  journal = record {
    digest = λ p. hash;
    is_bounded = λ p. true;
    is_bounded_operation = λ e. true;
    is_readable = λ o. true;
    saves = λ o. Saved.saved;
    is_timestamp = λ t. true;
  };
  tools = tools;
  platform = record {
    normcase = λ s. s;
    lower = λ s. s;
    fnmatchcase = λ s p. s == p;
    is_in = λ term text. term == text;
    concat = λ l. "";
  };
  is_safe = λ w. true;
  payload_digest = λ p. "p1";
  rest_text = λ r. "";
  reconciled_text = λ c o. "";
  body_text = λ b. hash;
  timestamp_text = λ n. "t";
  signed_at = λ s. s;
  payload_preview = λ p. "";
  decision_snapshot = λ d. record { approval_scope = ""; reason = ""; policy_ids = [] };
  decode_action = λ s. some sends;
  decode_request = λ s. some request;
  decode_decision = λ s. some allowed;
  authorization_trust = none;
}

abbrev readings : Readings
readings = record {
  budget_at = "t1";
  budget_entry_at = "t1";
  checkpoint_at = "t1";
  now = 1100;
  stamp = 1100;
}

abbrev making : String → Making
making id = record {
  record_id = id;
  timestamp = "t1";
  operation_id = "op_1";
  prepared_at = "t1";
  readings = readings;
}

abbrev supply : Supply
supply = record {
  recovery = readings;
  expiry_recovery = readings;
  due_at = 1100;
  expiries = λ i. making "evd_x";
  reserved_at = "t1";
  reserve_entry_at = "t1";
  approval_id = "apr_1";
  approval_now = 1000;
  approval_stamp = 1000;
  decide_now = 1100;
  decide_stamp = 1100;
  begin_now = 1100;
  begin_stamp = 1100;
  release_at = "t1";
  consume_stamp = 1100;
  grant_id = "grant_1";
  issued_at = "t1";
  first = making "evd_1";
  last = making "evd_2";
}

abbrev world : World
world = record {
  evidence = record { lines = []; head = HeadFile.missing; allow_head_profile_rebind = false };
  budget = record {
    balance = pos 100;
    total_spent = pos 0;
    total_estimated = pos 0;
    reservations = [];
    reconciliations = [];
    entries = [];
  };
  approvals = [];
  journal = File.missing;
  bases = [];
  invoked = [];
}

abbrev sending : Handling
sending = record {
  action = sends;
  request = request;
  owner = "";
  key = "";
  external = false;
  supply = supply;
}

abbrev sent : World
sent = (handle host harness sends request "" "" false supply world).1

handle-Ran_example :
    (sent.invoked ≡ [])
    ⊎ ((false ≡ false) × Ran host harness (sealed host sends) request world sent)
handle-Ran_example = handle-Ran host harness sends request "" "" false supply world

after_calls-once_example :
    calls_for "a1" (after_calls host harness (sending ∷ sending ∷ []) world).invoked ≤ 1
unfolding calls_for
after_calls-once_example = after_calls-once host harness "a1" (sending ∷ sending ∷ []) world refl

-- An approval waits for the action.
abbrev waiting : Approval
waiting = proposed (proposal host harness sends request allowed "" "") 60 "apr_1" 1000 1000

abbrev held_world : World
held_world = record world { approvals = ("apr_1", waiting) ∷ [] }

abbrev granting : Answer
granting = record {
  approved = true;
  decided_by = "op";
  note = "";
  attestation = none;
  supply = supply;
}

resume-RanApproved_example :
    ((resume host harness "apr_1" true "op" "" none supply held_world).1.invoked ≡ [])
    ⊎ ((true ≡ true)
        × RanApproved host harness "apr_1"
            (until_begun host harness "apr_1" true "op" "" none supply held_world).1
            held_world
            (resume host harness "apr_1" true "op" "" none supply held_world).1)
resume-RanApproved_example =
    resume-RanApproved host harness "apr_1" true "op" "" none supply held_world

resume_external-SameCalls_example :
    (resume_external host harness "apr_1" supply held_world).1.invoked ≡ []
resume_external-SameCalls_example = resume_external-SameCalls host harness "apr_1" supply held_world

abbrev steps : List Step
steps =
    Step.resumes "apr_1" granting
    ∷ Step.handles sending
    ∷ Step.resumes "apr_1" granting
    ∷ Step.reconciles_execution "apr_1" Outcome.succeeded "op" "seen" none supply
    ∷ []

runs-le-one_example : runs host harness "apr_1" steps held_world ≤ 1
runs-le-one_example = runs-le-one host harness "apr_1" steps held_world
