-- ===== src/Policy/Evaluate.antt =====
-- `PolicyEngine.evaluate`: the context is observed, the tool classified, every rule matched, and
-- the strictest outcome returned. A ceiling that is exceeded anywhere blocks the action.
use defiant_agent_harness.Common.{
  ℕ, ◌+◌, ◌-◌, String, Bool, true, false, ◌&&◌, Option, none, some, List, [], ◌∷◌, any, select,
  length, ltb, ◌==◌, map, if◌then◌else◌,
}
use defiant_agent_harness.Common.Dict.{Dict}
use defiant_agent_harness.Common.Text.{len}
use defiant_agent_harness.Common.Result.{Result, ok, err}
use defiant_agent_harness.Contracts.{SideEffect, Decision}
use defiant_agent_harness.Policy.Types.{
  Action, Rule, Limit, Platform, Ground, ApprovalScope, GuardrailDecision,
  max_policy_context_entries, max_policy_context_key_characters,
  max_policy_context_value_characters, max_policy_context_characters,
  max_policy_match_tool_name_characters,
}
use defiant_agent_harness.Policy.Match.{
  fresh, Matching, ◌>>=◌, pure, matches_any_glob, matches, is_empty,
}

pub record Engine : Type 0 where
  pub name : String
  pub version : String
  pub ruleset_hash : String
  pub rules : List Rule
  pub known_tools : List String

-- The two loops of `_policy_context_snapshot`: the keys with the characters counted so far, and
-- the values.
unfoldable pub count_keys : List String → List (String × String) → ℕ → Result Limit ℕ
count_keys seen [] characters = ok characters
count_keys seen ((key, value) ∷ rest) characters =
    let more = count_keys (key ∷ seen) rest (characters + len key) in
    if ltb max_policy_context_key_characters (len key)
    then err Limit.context_key_characters
    else if ltb (max_policy_context_characters - characters) (len key)
    then err Limit.context_characters
    else if any (λ k. k == key) seen
    then err Limit.context_type
    else more

unfoldable pub count_values : List (String × String) → ℕ → Result Limit ℕ
count_values [] characters = ok characters
count_values ((key, value) ∷ rest) characters =
    let more = count_values rest (characters + len value) in
    if ltb max_policy_context_value_characters (len value)
    then err Limit.context_value_characters
    else if ltb (max_policy_context_characters - characters) (len value)
    then err Limit.context_characters
    else more

-- `_policy_context_snapshot` of a mapping from texts to texts.
unfoldable pub policy_context_snapshot : Option (Dict String) → Result Limit (Dict String)
policy_context_snapshot none = ok []
policy_context_snapshot (some context) =
    if ltb max_policy_context_entries (length context)
    then err Limit.context_entries
    else (elim (count_keys [] context 0) [
      | err e ↦ err e
      | ok characters ↦ elim (count_values context characters) [ err e ↦ err e | ok _ ↦ ok context ]
    ])

-- `_SEVERITY`
abbrev pub severity : Decision → ℕ
severity Decision.allow = 0
severity Decision.approval_required = 1
severity Decision.block = 2

-- `max(matched, key=...)`: the first of the most severe.
unfoldable pub worst : Rule → List Rule → Rule
worst r [] = r
worst r (s ∷ rest) = worst (if ltb (severity r.effect) (severity s.effect) then s else r) rest

abbrev pub same_decision : Decision → Decision → Bool
same_decision Decision.allow Decision.allow = true
same_decision Decision.block Decision.block = true
same_decision Decision.approval_required Decision.approval_required = true
same_decision _ _ = false

abbrev pub has_no_effect : SideEffect → Bool
has_no_effect SideEffect.none = true
has_no_effect _ = false

abbrev pub refusal : Ground → GuardrailDecision
refusal ground = record {
  decision = Decision.block;
  ground = ground;
  approval_scope = ApprovalScope.stated "";
  redactions = [];
}

-- The redactions that the agreeing rules name, each once; the source also sorts them.
unfoldable pub redactions_of : List Rule → List String
redactions_of [] = []
redactions_of (r ∷ rest) = union r.redactions (redactions_of rest)
  where
    union : List String → List String → List String
    union [] ys = ys
    union (x ∷ xs) ys = let more = union xs ys in if any (λ y. y == x) more then more else x ∷ more

-- The outcome, from the rules that matched.
unfoldable pub outcome : Action → List Rule → GuardrailDecision
outcome a [] = record {
  decision = if has_no_effect a.side_effect_level then Decision.allow else Decision.block;
  ground = if has_no_effect a.side_effect_level then Ground.no_side_effect else Ground.default_deny;
  approval_scope = ApprovalScope.stated "";
  redactions = [];
}
outcome a (r ∷ rest) =
    let chosen = worst r rest in
    let agreeing = select (λ s. same_decision s.effect chosen.effect) (r ∷ rest) in
    record {
      decision = chosen.effect;
      ground = Ground.by_rules (map (λ s. s.id) agreeing);
      approval_scope =
          if chosen.approval_scope == "" && same_decision chosen.effect Decision.approval_required
          then ApprovalScope.execute a.tool_name a.target
          else ApprovalScope.stated chosen.approval_scope;
      redactions = redactions_of agreeing;
    }

module _ (platform : Platform) where
  -- `is_known_tool`
  unfoldable pub is_known_tool : Engine → String → Matching Bool
  is_known_tool engine tool_name =
      if is_empty engine.known_tools
      then pure true
      else matches_any_glob platform tool_name engine.known_tools
          max_policy_match_tool_name_characters

  -- `[rule for rule in rules if rule.matches(...)]`
  unfoldable pub matched_rules : List Rule → Action → Dict String → Matching (List Rule)
  matched_rules [] a context = pure []
  matched_rules (r ∷ rules) a context = do
    hit ← matches platform r a context
    rest ← matched_rules rules a context
    pure (if hit then r ∷ rest else rest)

  -- The body of the `try`: `none` for a tool that no pack declares.
  unfoldable pub classify : Engine → Action → Dict String → Matching (Option (List Rule))
  classify engine a context = do
    known ← is_known_tool engine a.tool_name
    elim known [
      | false ↦ pure none
      | true ↦ do matched ← matched_rules engine.rules a context; pure (some matched)
    ]

  unfoldable pub evaluate : Engine → Action → Option (Dict String) → GuardrailDecision
  evaluate engine a context = elim (policy_context_snapshot context) [
    | err e ↦ refusal (Ground.limit e)
    | ok snapshot ↦ elim (classify engine a snapshot fresh) [
      | err e ↦ refusal (Ground.limit e)
      | ok (none, _) ↦ refusal Ground.unknown_tool
      | ok (some matched, _) ↦ outcome a matched
    ]
  ]
