-- ===== src/Approvals/Queries.antt =====
-- The methods of `ApprovalStore` that read the queue, and `prepare`, which builds an approval.
use defiant_agent_harness.Common.{
  ℕ, String, Bool, not, ◌&&◌, ◌||◌, Option, none, some, List, [], ◌∷◌, ◌+◌, ◌*◌, ltb, leb, ◌==◌,
  map, if◌then◌else◌, select,
}
use defiant_agent_harness.Common.Result.{Result, err}
use defiant_agent_harness.Approvals.Types.{
  Status, ActionSnapshot, DecisionSnapshot, Attestation, Approval, ApprovalError, is_pending,
  is_rejected, is_executing, is_open, is_active,
}
use defiant_agent_harness.Approvals.Checks.{nonempty, from_dict}
use defiant_agent_harness.Approvals.Store.{
  Store, M, ◌>>=◌, ◌>>◌, pure, lift, require, refuse, read_all, find, is_expired, Config,
}
use defiant_agent_harness.Approvals.Operations
use defiant_agent_harness.Approvals.Operations.{create_prepared}

-- `sorted(..., key=lambda approval: approval.created_at)` keeps the order of equal keys.
unfoldable pub place : Approval → List Approval → List Approval
place a [] = a ∷ []
place a (b ∷ bs) =
    let rest = place a bs in if leb a.created_at b.created_at then a ∷ b ∷ bs else b ∷ rest

unfoldable pub by_created_at : List Approval → List Approval
by_created_at [] = []
by_created_at (a ∷ as') = place a (by_created_at as')

abbrev pub values : Store → List Approval
values s = map (λ e. e.1) s

unfoldable pub for_action : String → M (List Approval)
for_action action_id = do d ← read_all; pure (select (λ a. a.action_id == action_id) (values d))

unfoldable pub list_pending : ℕ → M (List Approval)
list_pending now = do
  d ← read_all
  pure (by_created_at (select (λ a. is_pending a.status && not (is_expired now a)) (values d)))

-- An execution that began stays actionable after the expiry.
abbrev pub is_actionable : ℕ → Approval → Bool
is_actionable now a = is_active a.status && (is_executing a.status || not (is_expired now a))

unfoldable pub list_actionable : ℕ → M (List Approval)
list_actionable now = do d ← read_all; pure (by_created_at (select (is_actionable now) (values d)))

unfoldable pub due : ℕ → M (List Approval)
due now = do
  d ← read_all
  pure (by_created_at (select (λ a. is_open a.status && is_expired now a) (values d)))

-- `max(active, key=..., default=None)`: the first of the latest.
unfoldable pub latest : List Approval → Option Approval
latest [] = none
latest (a ∷ as') = elim (latest as') [
  | none ↦ some a
  | some b ↦ if ltb a.created_at b.created_at then some b else some a
]

-- `validate_decision`, which reads only.
unfoldable pub validate_decision :
    Config → String → Bool → String → String → Option Attestation → ℕ → M (String × String)
validate_decision config id approved decided_by note attestation now = do
  d ← read_all
  a ← find d id
  require (is_pending a.status) ApprovalError.wrong_status
  refuse (is_expired now a) ApprovalError.has_expired
  Operations.validate_decision config a approved decided_by note attestation

abbrev pub is_held_for : String → String → ℕ → Approval → Bool
is_held_for owner key now a =
    a.execution_owner == owner
    && a.execution_key == key
    && (is_active a.status || is_rejected a.status)
    && (is_executing a.status || not (is_expired now a))

unfoldable pub find_execution : String → String → ℕ → M (Option Approval)
find_execution owner key now =
    if nonempty owner && nonempty key
    then (do d ← read_all; pure (latest (select (is_held_for owner key now) (values d))))
    else pure none

-- What `prepare` is given: the action's snapshot, the decision, the request and the terms.
pub record Proposal : Type 0 where
  pub action : ActionSnapshot
  pub payload_preview : String
  pub approval_scope : String
  pub reason : String
  pub policy_ids : List String
  pub request : Option String
  pub decision : Option DecisionSnapshot
  pub reserved : ℕ
  pub execution_owner : String
  pub execution_key : String

-- The approval that `prepare` builds. Instants are counted in seconds; `id` is `new_id("apr")`.
abbrev pub proposed : Proposal → ℕ → String → ℕ → ℕ → Approval
proposed p ttl_minutes id now stamp = record {
  action_id = p.action.action_id;
  request_id = p.action.request_id;
  tool_name = p.action.tool_name;
  target = p.action.target;
  payload_hash = p.action.payload_hash;
  authorization_hash = p.action.authorization_hash;
  payload_preview = p.payload_preview;
  approval_scope = p.approval_scope;
  reason = p.reason;
  policy_ids = p.policy_ids;
  expires_at = some (now + ttl_minutes * 60);
  created_at = stamp;
  approval_id = id;
  status = Status.pending;
  decided_by = none;
  decided_at = none;
  note = "";
  decision_attestation = none;
  reserved = p.reserved;
  action_snapshot = some p.action;
  request_snapshot = p.request;
  decision_snapshot = p.decision;
  execution_record_id = "";
  consumed_at = none;
  execution_owner = p.execution_owner;
  execution_key = p.execution_key;
  reconciliation_outcome = none;
  reconciled_by = "";
  reconciliation_note = "";
  reconciliation_started_at = none;
  reconciliation_completed_at = none;
  reconciliation_attestation = none;
}

unfoldable pub prepare : Proposal → ℕ → String → ℕ → ℕ → Result ApprovalError Approval
prepare p ttl_minutes id now stamp =
    if ltb 0 ttl_minutes
    then from_dict (proposed p ttl_minutes id now stamp)
    else err ApprovalError.bad_ttl

-- `create`
unfoldable pub create : Config → Proposal → ℕ → String → ℕ → ℕ → M Approval
create config p ttl_minutes id now stamp = do
  a ← lift (prepare p ttl_minutes id now stamp)
  create_prepared config a
