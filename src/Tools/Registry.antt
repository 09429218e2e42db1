-- ===== src/Tools/Registry.antt =====
-- `ToolRegistry`: an action is checked against its registered contract, a grant is signed on sealed
-- evidence, and a tool runs only on a grant, which is spent first.
use defiant_agent_harness.Common.{
  String, Bool, true, false, not, ◌&&◌, ◌||◌, Option, none, some, List, [], ◌∷◌, eqb, ◌==◌,
  if◌then◌else◌,
}
use defiant_agent_harness.Common.Dict.{lookup}
use defiant_agent_harness.Common.Text.{strip}
use defiant_agent_harness.Common.Result.{Result, ok, err, ◌>>=◌, ◌>>◌, require, refuse, or_raise}
use defiant_agent_harness.Contracts.{Decision, ResultStatus, side_effect_rank}
use defiant_agent_harness.Policy.Types.{Action}
use defiant_agent_harness.Tools.Types.{
  TargetScope, ToolSpec, surface_of, Claims, CapabilityGrant, Evidence, ToolStatus, Summary, Output,
  ToolResult, Run, ToolError, Host, Registry,
}

-- A grant with the calls of tools' functions so far, the latest first.
pub record Cell : Type 0 where
  pub grant : Option CapabilityGrant
  pub invoked : List Action

abbrev pub filled : String → Bool
filled s = not (strip s == "")

abbrev pub is_skipped : ResultStatus → Bool
is_skipped ResultStatus.skipped = true
is_skipped _ = false

abbrev pub is_blocked : Decision → Bool
is_blocked Decision.block = true
is_blocked _ = false

abbrev pub is_anywhere : TargetScope → Bool
is_anywhere TargetScope.anywhere = true
is_anywhere _ = false

-- `_validate_contract` of the grant that `authorize` makes.
abbrev pub has_texts : Claims → Bool
has_texts c =
    filled c.action_id
    && filled c.tool_name
    && filled c.authorization_hash
    && filled c.evidence_record_id
    && filled c.evidence_record_hash
    && filled c.grant_id

-- The dry run, which calls no tool.
unfoldable pub rehearse : ToolSpec → Action → ToolResult
rehearse spec a =
    if spec.supports_dry_run
    then record {
      status = ToolStatus.succeeded;
      summary = Summary.would_execute spec.name a.target;
      output = Output.dry a.target a.payload;
      cost = 0;
      dry_run = true;
    }
    else record {
      status = ToolStatus.failed;
      summary = Summary.no_dry_run spec.name;
      output = Output.nothing;
      cost = 0;
      dry_run = true;
    }

-- What `execute` makes of the end of a call.
unfoldable pub conclude : ToolSpec → Run → Result ToolError ToolResult
conclude spec (Run.returned r) = ok (record r { dry_run = false })
conclude spec Run.contract_error = err ToolError.result_contract
conclude spec Run.invalid_result = err ToolError.result_contract
conclude spec (Run.exception text) = ok (record {
  status = ToolStatus.failed;
  summary = Summary.raised text;
  output = Output.nothing;
  cost = spec.cost_estimate;
  dry_run = false;
})

-- `dry_run` of the call, else the registry's.
abbrev pub effective : Registry → Option Bool → Bool
effective registry none = registry.dry_run
effective registry (some b) = b

module _ (host : Host) where
  -- The specification under which the action is registered.
  unfoldable pub validate_action : Registry → Action → Result ToolError ToolSpec
  validate_action registry a = do
    spec ← or_raise (lookup a.tool_name registry.tools) ToolError.unregistered
    require (eqb (side_effect_rank a.side_effect_level) (side_effect_rank spec.side_effect_level))
        ToolError.misclassified
    require (is_anywhere spec.target_scope || host.target_allowed spec.target_scope a.target)
        ToolError.target_refused
    ok spec

  unfoldable pub authorize :
      Registry → Action → Evidence → String → String → Result ToolError CapabilityGrant
  authorize registry a e grant_id issued_at = do
    spec ← validate_action registry a
    require (not (e.record_hash == "")) ToolError.unsealed
    require (host.sha256 e.body == e.record_hash) ToolError.bad_seal
    require (e.action_id == a.action_id) ToolError.action_mismatch
    require (e.tool_name == a.tool_name) ToolError.tool_mismatch
    require (e.authorization_hash == a.authorization_hash) ToolError.hash_mismatch
    require (is_skipped e.result_status) ToolError.not_pending
    refuse (is_blocked e.decision) ToolError.blocked
    let claims : Claims = record {
      action_id = a.action_id;
      tool_name = a.tool_name;
      authorization_hash = a.authorization_hash;
      evidence_record_id = e.record_id;
      evidence_record_hash = e.record_hash;
      issued_at = issued_at;
      grant_id = grant_id;
    }
    require (has_texts claims) ToolError.bad_grant
    ok (record { claims = claims; signature = host.sign claims; spent = false })

  -- `_verify`
  unfoldable pub verify : CapabilityGrant → Result ToolError (Unit {0})
  verify g =
      require (not (g.signature == "") && g.signature == host.sign g.claims) ToolError.bad_signature

  -- `CapabilityGrant.spend`: the live fields of the action are hashed again.
  unfoldable pub spend : Action → CapabilityGrant → Result ToolError CapabilityGrant
  spend a g = do
    refuse g.spent ToolError.already_spent
    require (a.action_id == g.claims.action_id) ToolError.action_mismatch
    require (a.tool_name == g.claims.tool_name) ToolError.tool_mismatch
    require (host.digest (surface_of a) == g.claims.authorization_hash) ToolError.changed_action
    ok (record g { spent = true })

  -- What `execute` does before the tool: the specification and the spent grant.
  unfoldable pub admit :
      Registry → Action → CapabilityGrant → Result ToolError (ToolSpec × CapabilityGrant)
  admit registry a g = do verify g; spec ← validate_action registry a; g' ← spend a g; ok (spec, g')

  unfoldable pub execute :
      Registry → Action → Option Bool → Cell → Result ToolError ToolResult × Cell
  execute registry a dry_run c = elim c.grant [
    | none ↦ (err ToolError.no_grant, c)
    | some g ↦ elim (admit registry a g) [
      | err e ↦ (err e, c)
      | ok (spec, g') ↦
          if effective registry dry_run
          then (ok (rehearse spec a), record c { grant = some g' })
          else (
            conclude spec (host.run a.tool_name a),
            record { grant = some g'; invoked = a ∷ c.invoked },
          )
    ]
  ]

  -- Calls of `execute` that present the same grant.
  unfoldable pub execute_all : Registry → List (Action × Option Bool) → Cell → Cell
  execute_all registry [] c = c
  execute_all registry ((a, dry_run) ∷ calls) c =
      execute_all registry calls (execute registry a dry_run c).1
