-- ===== src/Policy/Types.antt =====
-- What policy/engine.py works on: rules, the governed action, the ceilings of limits.py, and the
-- decision with the inputs that it records.
use defiant_agent_harness.Common.{ℕ, String, Option, List, Bool}
use defiant_agent_harness.Contracts.{SideEffect, Trust, Decision, ContentRef}

-- A payload: containers in their order, and any other value as the text that `str` gives.
mutual
  pub data Payload : Type 0 where
    scalar : String → Payload
    items : Payloads → Payload
    mapping : Entries → Payload

  pub data Payloads : Type 0 where
    nil : Payloads
    cons : Payload → Payloads → Payloads

  pub data Entries : Type 0 where
    end : Entries
    entry : String → Payload → Entries → Entries

pub record Action : Type 0 where
  pub action_id : String
  pub request_id : String
  pub tool_name : String
  pub target : String
  pub payload : Payload
  pub side_effect_level : SideEffect
  pub payload_sources : List ContentRef
  pub estimated_cost : ℕ
  pub payload_hash : String
  pub authorization_hash : String

pub record Rule : Type 0 where
  pub id : String
  pub description : String
  pub tools : List String
  pub side_effect_at_least : Option SideEffect
  pub targets : List String
  pub payload_contains : List String
  pub max_payload_trust : Option Trust
  pub sensitivities : List String
  pub effect : Decision
  pub reason : String
  pub approval_scope : String
  pub redactions : List String

-- `limit_enforced` of a refusal.
pub data Limit : Type 0 where
  glob_matching payload_matching : Limit
  context_entries context_key_characters context_value_characters context_characters context_type :
      Limit

-- limits.py
abbrev pub max_policy_context_entries : ℕ
max_policy_context_entries = 64

abbrev pub max_policy_context_key_characters : ℕ
max_policy_context_key_characters = 256

abbrev pub max_policy_context_value_characters : ℕ
max_policy_context_value_characters = 4096

abbrev pub max_policy_context_characters : ℕ
max_policy_context_characters = 262144

abbrev pub max_policy_match_tool_name_characters : ℕ
max_policy_match_tool_name_characters = 4096

abbrev pub max_policy_match_target_characters : ℕ
max_policy_match_target_characters = 1048576

abbrev pub max_policy_glob_match_work_units : ℕ
max_policy_glob_match_work_units = 67108864

abbrev pub max_policy_payload_match_work_units : ℕ
max_policy_payload_match_work_units = 67108864

abbrev pub max_policy_match_payload_nesting_depth : ℕ
max_policy_match_payload_nesting_depth = 64

abbrev pub max_policy_match_payload_nodes : ℕ
max_policy_match_payload_nodes = 100000

abbrev pub max_policy_match_payload_characters : ℕ
max_policy_match_payload_characters = 1048576

-- What the host and the language's library decide: `os.path.normcase`, `str.lower`,
-- `fnmatch.fnmatchcase`, the substring test `in`, and `"".join`.
pub record Platform : Type 0 where
  pub normcase : String → String
  pub lower : String → String
  pub fnmatchcase : String → String → Bool
  pub is_in : String → String → Bool
  pub concat : List String → String

-- Why a decision was made; the source's `reason` is a sentence made from it.
pub data Ground : Type 0 where
  unknown_tool no_side_effect default_deny : Ground
  limit : Limit → Ground
  by_rules : List String → Ground

-- The scope that a rule states, or the text made from the tool and the target.
pub data ApprovalScope : Type 0 where
  stated : String → ApprovalScope
  execute : String → String → ApprovalScope

pub record GuardrailDecision : Type 0 where
  pub decision : Decision
  pub ground : Ground
  pub approval_scope : ApprovalScope
  pub redactions : List String
