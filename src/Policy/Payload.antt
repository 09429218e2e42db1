-- ===== src/Policy/Payload.antt =====
-- `_bounded_payload_text`: the payload flattened to one text, under three ceilings.
use defiant_agent_harness.Common.{ℕ, ◌+◌, ◌-◌, String, Bool, true, false, List, [], ◌∷◌, ◌++◌, ltb}
use defiant_agent_harness.Common.Text.{len}
use defiant_agent_harness.Common.Result.{Result, ok, ◌>>=◌, ◌>>◌, refuse}
use defiant_agent_harness.Policy.Types.{
  Payload, scalar, items, mapping, Payloads, nil, cons, Entries, end, entry, Limit, Platform,
  max_policy_match_payload_nesting_depth, max_policy_match_payload_nodes,
  max_policy_match_payload_characters,
}

-- `parts`, `character_count` and `node_count`.
pub record Walk : Type 0 where
  pub parts : List String
  pub characters : ℕ
  pub nodes : ℕ

abbrev pub start : Walk
start = record { parts = []; characters = 0; nodes = 0 }

unfoldable pub append : String → Walk → Result Limit Walk
append text w = do
  refuse (ltb (max_policy_match_payload_characters - w.characters) (len text))
      Limit.payload_matching
  ok (record w { parts = w.parts ++ text ∷ []; characters = w.characters + len text })

-- The two tests at the head of `visit`.
unfoldable pub enter : ℕ → Walk → Result Limit Walk
enter depth w = do
  refuse (ltb max_policy_match_payload_nesting_depth depth) Limit.payload_matching
  let w' = record w { nodes = w.nodes + 1 }
  refuse (ltb max_policy_match_payload_nodes w'.nodes) Limit.payload_matching
  ok w'

-- `if index: append(" ")`
abbrev pub separate : Bool → Walk → Result Limit Walk
separate true w = ok w
separate false w = append " " w

-- `visit`; the flag of the two loops says that the child is the first.
unfoldable mutual
  pub visit : Payload → ℕ → Walk → Result Limit Walk
  visit (scalar text) depth w = do w' ← enter depth w; append text w'
  visit (items xs) depth w = do w' ← enter depth w; visit_items xs true (depth + 1) w'
  visit (mapping fs) depth w = do w' ← enter depth w; visit_entries fs true (depth + 1) w'

  pub visit_items : Payloads → Bool → ℕ → Walk → Result Limit Walk
  visit_items nil first depth w = ok w
  visit_items (cons x xs) first depth w = do
    w' ← separate first w
    w'' ← visit x depth w'
    visit_items xs false depth w''

  pub visit_entries : Entries → Bool → ℕ → Walk → Result Limit Walk
  visit_entries end first depth w = ok w
  visit_entries (entry k x fs) first depth w = do
    w' ← separate first w
    w'' ← visit x depth w'
    visit_entries fs false depth w''

unfoldable pub bounded_payload_text : Platform → Payload → Result Limit String
bounded_payload_text platform payload = do
  w ← visit payload 1 start
  let lowered = platform.lower (platform.concat w.parts)
  refuse (ltb max_policy_match_payload_characters (len lowered)) Limit.payload_matching
  ok lowered
