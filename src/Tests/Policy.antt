-- ===== src/Tests/Policy.antt =====
-- Concrete runs of the policy engine, on a host whose patterns are literal and whose texts are lower case.
use defiant_agent_harness.Common.{
  ◌≤◌, String, ◌≡◌, ◌≢◌, refl, true, ◌||◌, ◌⊎◌, Option, none, some, List, [], ◌∷◌, ◌==◌, Any, head,
  tail,
}
use defiant_agent_harness.Common.Dict.{Dict, lookup}
use defiant_agent_harness.Common.Text.{len}
use defiant_agent_harness.Contracts.{SideEffect, Decision, side_effect_rank, worst_trust}
use defiant_agent_harness.Policy.Types.{
  scalar, mapping, entry, end, Action, Rule, Limit, Platform, Ground,
}
use defiant_agent_harness.Policy.Payload.{
  append, enter, visit, visit_items, visit_entries, bounded_payload_text,
}
use defiant_agent_harness.Policy.Match.{
  charge_payload_work, charge_glob_work, trust_satisfies, matches_side_effect, matches_trust,
  matches_sensitivity, match_globs, matches_any_glob, payload_text_for, match_terms, matches_tools,
  matches_targets, matches_payload, matches, is_empty,
}
use defiant_agent_harness.Policy.Evaluate.{
  Engine, count_keys, count_values, policy_context_snapshot, severity, worst, redactions_of,
  outcome, is_known_tool, matched_rules, classify, evaluate, refusal,
}
use defiant_agent_harness.Policy.Spec.{holds, fits_any}
use defiant_agent_harness.Policy.Strictness.{
  observed, reference, evaluate-reference, strictest, default_deny,
}

abbrev last_of : List String → String
last_of [] = ""
last_of (s ∷ []) = s
last_of (s ∷ t ∷ rest) = last_of (t ∷ rest)

abbrev host : Platform
host = record {
  normcase = λ s. s;
  lower = λ s. s;
  fnmatchcase = λ s p. s == p;
  is_in = λ term text. term == text;
  concat = last_of;
}

abbrev plain_rule : Rule
plain_rule = record {
  id = "mail";
  description = "";
  tools = "mail.send" ∷ [];
  side_effect_at_least = none;
  targets = [];
  payload_contains = [];
  max_payload_trust = none;
  sensitivities = [];
  effect = Decision.allow;
  reason = "";
  approval_scope = "";
  redactions = [];
}

-- Mail that says "secret" needs an approval.
abbrev secret_rule : Rule
secret_rule = record plain_rule {
  id = "secret";
  side_effect_at_least = some SideEffect.external_send;
  payload_contains = "secret" ∷ [];
  sensitivities = "client" ∷ [];
  effect = Decision.approval_required;
}

abbrev engine : Engine
engine = record {
  name = "pack";
  version = "1";
  ruleset_hash = "";
  rules = plain_rule ∷ secret_rule ∷ [];
  known_tools = "mail.send" ∷ [];
}

abbrev sends : Action
sends = record {
  action_id = "a1";
  request_id = "r1";
  tool_name = "mail.send";
  target = "x@y";
  payload = mapping (entry "body" (scalar "secret") end);
  side_effect_level = SideEffect.external_send;
  payload_sources = [];
  estimated_cost = 0;
  payload_hash = "p1";
  authorization_hash = "h1";
}

abbrev context : Option (Dict String)
context = some (("sensitivity", "client") ∷ [])

evaluate-reference_example :
    (evaluate host engine sends context ≡ reference host engine sends (observed context))
    ⊎ ((e : Limit) × (evaluate host engine sends context ≡ refusal (Ground.limit e)))
evaluate-reference_example = evaluate-reference host engine sends context

secret_holds : holds host sends (observed context) secret_rule ≡ true
unfolding evaluate classify matched_rules is_known_tool outcome redactions_of worst
    policy_context_snapshot count_values count_keys matches matches_payload matches_targets
    matches_tools match_terms payload_text_for matches_any_glob match_globs matches_sensitivity
    matches_trust matches_side_effect trust_satisfies charge_glob_work charge_payload_work
    bounded_payload_text visit visit_items visit_entries enter append holds lookup side_effect_rank
    worst_trust len
secret_holds = refl

strictest_example :
    severity Decision.approval_required ≤ severity (evaluate host engine sends context).decision
strictest_example = strictest host engine sends context secret_rule (tail (head refl)) secret_holds

evaluate_runs : (evaluate host engine sends context).decision ≡ Decision.approval_required
unfolding evaluate classify matched_rules is_known_tool outcome redactions_of worst
    policy_context_snapshot count_values count_keys matches matches_payload matches_targets
    matches_tools match_terms payload_text_for matches_any_glob match_globs matches_sensitivity
    matches_trust matches_side_effect trust_satisfies charge_glob_work charge_payload_work
    bounded_payload_text visit visit_items visit_entries enter append holds lookup side_effect_rank
    worst_trust len
evaluate_runs = refl

not_blocked : (evaluate host engine sends context).decision ≢ Decision.block
not_blocked e = let r = evaluate_runs in cc

default_deny_example :
    ((is_empty engine.known_tools || fits_any host sends.tool_name engine.known_tools) ≡ true)
    × ((sends.side_effect_level ≡ SideEffect.none)
        ⊎ Any
            (λ r.
              (holds host sends (observed context) r ≡ true)
              × (r.effect ≡ (evaluate host engine sends context).decision))
            engine.rules)
default_deny_example = default_deny host engine sends context not_blocked
