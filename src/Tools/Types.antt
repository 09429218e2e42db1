-- ===== src/Tools/Types.antt =====
-- What tools/registry.py works on: specifications, grants, the evidence that a grant rests on, and
-- the result of a tool.
use defiant_agent_harness.Common.{ℕ, String, Bool, List}
use defiant_agent_harness.Common.Dict.{Dict}
use defiant_agent_harness.Contracts.{SideEffect, Decision, ResultStatus, ContentRef}
use defiant_agent_harness.Policy.Types.{Payload, Action}

pub data TargetScope : Type 0 where
  anywhere workspace workspace_path : TargetScope

pub record ToolSpec : Type 0 where
  pub name : String
  pub side_effect_level : SideEffect
  pub cost_estimate : ℕ
  pub supports_dry_run : Bool
  pub target_scope : TargetScope

-- `_authorization_surface`: what an authorization binds of an action.
pub record Surface : Type 0 where
  pub action_id : String
  pub request_id : String
  pub tool_name : String
  pub target : String
  pub payload : Payload
  pub side_effect_level : SideEffect
  pub payload_sources : List ContentRef
  pub estimated_cost : ℕ

abbrev pub surface_of : Action → Surface
surface_of a = record {
  action_id = a.action_id;
  request_id = a.request_id;
  tool_name = a.tool_name;
  target = a.target;
  payload = a.payload;
  side_effect_level = a.side_effect_level;
  payload_sources = a.payload_sources;
  estimated_cost = a.estimated_cost;
}

-- `claims` of a grant: what its signature covers.
pub record Claims : Type 0 where
  pub action_id : String
  pub tool_name : String
  pub authorization_hash : String
  pub evidence_record_id : String
  pub evidence_record_hash : String
  pub issued_at : String
  pub grant_id : String

-- The texts of a grant do not change after construction; `_spent` does.
pub record CapabilityGrant : Type 0 where
  pub claims : Claims
  pub signature : String
  pub spent : Bool

-- The fields of an evidence record that `authorize` reads; `body` is the hashed text.
pub record Evidence : Type 0 where
  pub record_id : String
  pub record_hash : String
  pub body : String
  pub action_id : String
  pub tool_name : String
  pub authorization_hash : String
  pub result_status : ResultStatus
  pub decision : Decision

pub data ToolStatus : Type 0 where
  succeeded failed : ToolStatus

pub data Summary : Type 0 where
  said : String → Summary
  raised : String → Summary
  no_dry_run : String → Summary
  would_execute : String → String → Summary

pub data Output : Type 0 where
  nothing : Output
  value : String → Output
  dry : String → Payload → Output

pub record ToolResult : Type 0 where
  pub status : ToolStatus
  pub summary : Summary
  pub output : Output
  pub cost : ℕ
  pub dry_run : Bool

-- How a call of a tool's function ends.
pub data Run : Type 0 where
  returned : ToolResult → Run
  contract_error invalid_result : Run
  exception : String → Run

pub data ToolError : Type 0 where
  unregistered misclassified target_refused : ToolError
  unsealed bad_seal action_mismatch tool_mismatch hash_mismatch : ToolError
  not_pending blocked bad_grant : ToolError
  no_grant bad_signature already_spent changed_action result_contract : ToolError

-- What the registry relies on: the two digests, the keyed signature, whether a target lies where
-- its scope wants it and outside the protected roots, and the functions of the tools.
pub record Host : Type 0 where
  pub sha256 : String → String
  pub digest : Surface → String
  pub sign : Claims → String
  pub target_allowed : TargetScope → String → Bool
  pub run : String → Action → Run

pub record Registry : Type 0 where
  pub tools : Dict ToolSpec
  pub dry_run : Bool
