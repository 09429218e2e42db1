-- ===== src/Tests/Tools.antt =====
-- Concrete runs of the tool registry.
use defiant_agent_harness.Common.{
  ◌+◌, ◌≤◌, ◌≡◌, refl, Bool, true, false, ◌⊎◌, Option, none, some, List, [], ◌∷◌, length,
}
use defiant_agent_harness.Common.Dict.{lookup}
use defiant_agent_harness.Common.Text.{strip}
use defiant_agent_harness.Common.Result.{ok}
use defiant_agent_harness.Contracts.{SideEffect, Decision, ResultStatus, side_effect_rank}
use defiant_agent_harness.Policy.Types.{scalar, Action}
use defiant_agent_harness.Tools.Types.{
  TargetScope, surface_of, CapabilityGrant, Evidence, ToolStatus, Summary, Output, Run, Host,
  Registry,
}
use defiant_agent_harness.Tools.Registry.{Cell, validate_action, authorize, execute, execute_all}
use defiant_agent_harness.Tools.Grants.{execute_once, execute-authorize, authorized_surface}

-- A host whose digest of an action is its target.
abbrev host : Host
host = record {
  sha256 = λ s. s;
  digest = λ s. s.target;
  sign = λ c. c.grant_id;
  target_allowed = λ scope target. true;
  run = λ name a. Run.returned (record {
    status = ToolStatus.succeeded;
    summary = Summary.said "sent";
    output = Output.nothing;
    cost = 1;
    dry_run = false;
  });
}

abbrev registry : Registry
registry = record {
  tools =
      (
        "mail.send",
        record {
          name = "mail.send";
          side_effect_level = SideEffect.external_send;
          cost_estimate = 1;
          supports_dry_run = true;
          target_scope = TargetScope.anywhere;
        },
      )
      ∷ [];
  dry_run = false;
}

abbrev sends : Action
sends = record {
  action_id = "a1";
  request_id = "r1";
  tool_name = "mail.send";
  target = "x@y";
  payload = scalar "hello";
  side_effect_level = SideEffect.external_send;
  payload_sources = [];
  estimated_cost = 1;
  payload_hash = "p1";
  authorization_hash = "x@y";
}

-- The same call to another target.
abbrev diverted : Action
diverted = record sends { target = "z@y" }

abbrev evidence : Evidence
evidence = record {
  record_id = "evd_1";
  record_hash = "body";
  body = "body";
  action_id = "a1";
  tool_name = "mail.send";
  authorization_hash = "x@y";
  result_status = ResultStatus.skipped;
  decision = Decision.allow;
}

abbrev grant : CapabilityGrant
grant = record {
  claims = record {
    action_id = "a1";
    tool_name = "mail.send";
    authorization_hash = "x@y";
    evidence_record_id = "evd_1";
    evidence_record_hash = "body";
    issued_at = "t1";
    grant_id = "grant_1";
  };
  signature = "grant_1";
  spent = false;
}

authorize_runs : authorize host registry sends evidence "grant_1" "t1" ≡ ok grant
unfolding authorize validate_action lookup side_effect_rank strip
authorize_runs = refl

abbrev start : Cell
start = record { grant = some grant; invoked = [] }

abbrev calls : List (Action × Option Bool)
calls = (diverted, none) ∷ (sends, none) ∷ (sends, some false) ∷ []

execute_once_example : length (execute_all host registry calls start).invoked ≤ 0 + 1
execute_once_example = execute_once host registry calls start

execute-authorize_example :
    (execute host registry sends none start).1
    ≡ record { grant = some (record grant { spent = true }); invoked = sends ∷ [] }
execute-authorize_example =
    execute-authorize host registry sends evidence "grant_1" "t1" grant none [] refl refl refl
      authorize_runs

authorized_surface_example :
    ((execute host registry diverted none start).1.invoked ≡ [])
    ⊎ ((diverted.action_id ≡ sends.action_id)
        × (diverted.tool_name ≡ sends.tool_name)
        × (host.digest (surface_of diverted) ≡ host.digest (surface_of sends)))
authorized_surface_example =
    authorized_surface host registry sends diverted evidence "grant_1" "t1" grant none [] refl
      authorize_runs
