-- ===== src/Policy/Match.antt =====
-- `_PolicyMatchState` and `Rule.matches`: matching under a work budget that one decision shares.
use defiant_agent_harness.Common.{
  ℕ, ◌+◌, ◌-◌, String, Bool, true, false, not, ◌&&◌, ◌||◌, Option, none, some, List, [], ◌∷◌, any,
  ltb, ◌==◌, if◌then◌else◌,
}
use defiant_agent_harness.Common.Dict.{Dict, lookup}
use defiant_agent_harness.Common.Text.{len}
use defiant_agent_harness.Common.Result.{Result, ok, err}
use defiant_agent_harness.Contracts.{Trust, side_effect_rank, worst_trust}
use defiant_agent_harness.Policy.Types.{
  Payload, Action, Rule, Limit, Platform, max_policy_match_tool_name_characters,
  max_policy_match_target_characters, max_policy_glob_match_work_units,
  max_policy_payload_match_work_units,
}
use defiant_agent_harness.Policy.Payload.{bounded_payload_text}

pub record MatchState : Type 0 where
  pub payload_work_used : ℕ
  pub glob_work_used : ℕ
  pub payload_text : Option String

abbrev pub fresh : MatchState
fresh = record { payload_work_used = 0; glob_work_used = 0; payload_text = none }

-- A computation that spends the budget, or exceeds a ceiling.
abbrev pub Matching : Type 0 → Type 0
Matching A = MatchState → Result Limit (A × MatchState)

infixl 5 ◌>>=◌ ◌>>◌
abbrev pub ◌>>=◌ : {A B : Type 0} → Matching A → (A → Matching B) → Matching B
◌>>=◌ m f st = elim (m st) [ ok (a, st') ↦ f a st' | err e ↦ err e ]

abbrev pub ◌>>◌ : {A B : Type 0} → Matching A → Matching B → Matching B
m >> k = m >>= λ _. k

abbrev pub pure : {A : Type 0} → A → Matching A
pure a st = ok (a, st)

unfoldable pub charge_payload_work : ℕ → Matching (Unit {0})
charge_payload_work units st =
    if ltb (max_policy_payload_match_work_units - st.payload_work_used) units
    then err Limit.payload_matching
    else ok (tt, record st { payload_work_used = st.payload_work_used + units })

unfoldable pub charge_glob_work : ℕ → Matching (Unit {0})
charge_glob_work units st =
    if ltb (max_policy_glob_match_work_units - st.glob_work_used) units
    then err Limit.glob_matching
    else ok (tt, record st { glob_work_used = st.glob_work_used + units })

abbrev pub trust_rank : Trust → ℕ
trust_rank Trust.trusted = 0
trust_rank Trust.derived = 1
trust_rank Trust.untrusted = 2

-- `_trust_satisfies`: the rule fires where the payload is worse than its ceiling.
unfoldable pub trust_satisfies : Trust → Trust → Bool
trust_satisfies actual required_max = ltb (trust_rank required_max) (trust_rank actual)

abbrev pub is_empty {ℓ} : {A : Type ℓ} → List A → Bool
is_empty [] = true
is_empty (_ ∷ _) = false

-- The three conditions that need no text matching, `true` where the rule does not state them.
unfoldable pub matches_side_effect : Rule → Action → Bool
matches_side_effect r a = elim r.side_effect_at_least [
  | none ↦ true
  | some threshold ↦ not (ltb (side_effect_rank a.side_effect_level) (side_effect_rank threshold))
]

unfoldable pub matches_trust : Rule → Action → Bool
matches_trust r a = elim r.max_payload_trust [
  | none ↦ true
  | some ceiling ↦ trust_satisfies (worst_trust a.payload_sources) ceiling
]

abbrev pub text_or_empty : Option String → String
text_or_empty none = ""
text_or_empty (some s) = s

unfoldable pub matches_sensitivity : Rule → Dict String → Bool
matches_sensitivity r context =
    is_empty r.sensitivities
    || any (λ s. s == text_or_empty (lookup "sensitivity" context)) r.sensitivities

module _ (platform : Platform) where
  open platform use {normcase, lower, fnmatchcase, is_in}

  -- The loop of `matches_any_glob`, on the normalised subject.
  unfoldable pub match_globs : String → List String → Matching Bool
  match_globs subject [] = pure false
  match_globs subject (pattern' ∷ patterns) = do
    charge_glob_work (len subject + len (normcase pattern'))
    elim (fnmatchcase subject (normcase pattern')) [
      | true ↦ pure true
      | false ↦ match_globs subject patterns
    ]

  unfoldable pub matches_any_glob : String → List String → ℕ → Matching Bool
  matches_any_glob subject patterns maximum =
      if ltb maximum (len subject)
      then (λ st. err Limit.glob_matching)
      else if ltb maximum (len (normcase subject))
      then (λ st. err Limit.glob_matching)
      else match_globs (normcase subject) patterns

  -- `payload_text_for`: the text is made once.
  unfoldable pub payload_text_for : Payload → Matching String
  payload_text_for payload st = elim st.payload_text [
    | some text ↦ ok (text, st)
    | none ↦ elim (bounded_payload_text platform payload) [
      | ok text ↦ ok (text, record st { payload_text = some text })
      | err e ↦ err e
    ]
  ]

  -- The loop over `payload_contains`.
  unfoldable pub match_terms : String → List String → Matching Bool
  match_terms text [] = pure false
  match_terms text (term ∷ terms) = do
    charge_payload_work (len text + len (lower term))
    elim (is_in (lower term) text) [ true ↦ pure true | false ↦ match_terms text terms ]

  -- The conditions of `matches`, each `true` where the rule does not state it.
  unfoldable pub matches_tools : Rule → Action → Matching Bool
  matches_tools r a =
      if is_empty r.tools
      then pure true
      else matches_any_glob a.tool_name r.tools max_policy_match_tool_name_characters

  unfoldable pub matches_targets : Rule → Action → Matching Bool
  matches_targets r a =
      if is_empty r.targets
      then pure true
      else matches_any_glob a.target r.targets max_policy_match_target_characters

  unfoldable pub matches_payload : Rule → Action → Matching Bool
  matches_payload r a =
      if is_empty r.payload_contains
      then pure true
      else (do text ← payload_text_for a.payload; match_terms text r.payload_contains)

  -- `Rule.matches`: the conditions in their order, each evaluated if those before it hold.
  unfoldable pub matches : Rule → Action → Dict String → Matching Bool
  matches r a context = do
    tools ← matches_tools r a
    elim (tools && matches_side_effect r a) [
      | false ↦ pure false
      | true ↦ do
        targets ← matches_targets r a
        elim targets [
          | false ↦ pure false
          | true ↦ do
            payload ← matches_payload r a
            pure (payload && matches_trust r a && matches_sensitivity r context)
        ]
    ]
