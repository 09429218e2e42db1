-- ===== src/Policy/Strictness.antt =====
-- What the decision of `PolicyEngine.evaluate` promises: it is the plain reference decision or a
-- refusal at a ceiling, it is as strict as every rule that holds, and it is never looser by default.
use defiant_agent_harness.Common.{
  ℕ, String, ◌≡◌, ◌≢◌, ◌≤◌, refl, sym, ◌∙◌, ap, ◌⊎◌, inl, inr, Bool, true, false, ◌||◌, Option,
  none, some, List, [], ◌∷◌, select, arith, subst, ltb, ltb→lt, head, tail, Any, if◌then◌else◌,
  Bool-cases,
}
use defiant_agent_harness.Common.Dict.{Dict}
use defiant_agent_harness.Common.Result.{ok, Result-cases}
use defiant_agent_harness.Contracts.{SideEffect, Decision}
use defiant_agent_harness.Policy.Types.{Action, Rule, Limit, Platform, Ground, GuardrailDecision}
use defiant_agent_harness.Policy.Match.{MatchState, fresh, is_empty}
use defiant_agent_harness.Policy.Evaluate.{
  Engine, policy_context_snapshot, severity, worst, outcome, refusal, is_known_tool, matched_rules,
  classify, evaluate, has_no_effect,
}
use defiant_agent_harness.Policy.Spec.{
  holds, fits_any, matched_rules-value, known-Computes, bind-eq-ok,
}

-- The context that the rules see.
abbrev pub observed : Option (Dict String) → Dict String
observed none = []
observed (some context) = context

-- The decision without a work budget: an undeclared tool is blocked, else the rules that hold decide.
unfoldable pub reference : Platform → Engine → Action → Dict String → GuardrailDecision
reference platform engine a context =
    if is_empty engine.known_tools || fits_any platform a.tool_name engine.known_tools
    then outcome a (select (holds platform a context) engine.rules)
    else refusal Ground.unknown_tool

observed-snapshot :
    (context : Option (Dict String)) (c : Dict String)
    → policy_context_snapshot context ≡ ok c
    → c ≡ observed context
unfolding policy_context_snapshot
observed-snapshot none c h = ground arith
observed-snapshot (some context) c h = ground arith

abbrev rank : Rule → ℕ
rank r = severity r.effect

worst_ge_first : (r : Rule) (rest : List Rule) → rank r ≤ rank (worst r rest)
unfolding worst
worst_ge_first r [] = omega arith
worst_ge_first r (x ∷ rest) = elim (Bool-cases (ltb (rank r) (rank x))) [
  | inl e ↦ rw (e, worst) (omega (arith, worst_ge_first x rest, ltb→lt _ _ e))
  | inr e ↦ rw (e, worst) (worst_ge_first r rest)
]

Any-split :
    {P : Rule → Type 0} {r : Rule} {rules : List Rule} → Any P (r ∷ rules) → P r ⊎ Any P rules
Any-split (head p) = inl p
Any-split (tail m) = inr m

worst-ge :
    (s r : Rule) (rest : List Rule) → Any (λ x. x ≡ s) (r ∷ rest) → rank s ≤ rank (worst r rest)
unfolding worst
worst-ge s r [] m = elim (Any-split m) [
  | inl e ↦ omega (arith, ap (λ x. rank x) e)
  | inr m' ↦ elim m' [ ]
]
worst-ge s r (x ∷ rest) m = elim (Any-split m) [
  | inl e ↦ omega (arith, worst_ge_first r (x ∷ rest), ap (λ x. rank x) e)
  | inr m' ↦ elim (Any-split m') [
    | inr m'' ↦ worst-ge s (if ltb (rank r) (rank x) then x else r) rest (tail m'')
    | inl e ↦ elim (Bool-cases (ltb (rank r) (rank x))) [
      | inl l ↦ rw (l, worst) (omega (arith, worst_ge_first x rest, ap (λ x. rank x) e))
      | inr l ↦ rw (l, worst) (ground (arith, worst_ge_first r rest, ap (λ x. rank x) e))
    ]
  ]
]

worst-Any : (r : Rule) (rest : List Rule) → Any (λ x. x ≡ worst r rest) (r ∷ rest)
unfolding worst
worst-Any r [] = head refl
worst-Any r (x ∷ rest) = elim (Bool-cases (ltb (rank r) (rank x))) [
  | inl l ↦ rw (l, worst) (tail (worst-Any x rest))
  | inr l ↦ rw (l, worst) (elim (worst-Any r rest) [ head e ↦ head e | tail m ↦ tail (tail m) ])
]

select-Any :
    (p : Rule → Bool) (s : Rule) (rules : List Rule)
    → p s ≡ true
    → Any (λ x. x ≡ s) rules
    → Any (λ x. x ≡ s) (select p rules)
select-Any p s [] t m = elim m [ ]
select-Any p s (r ∷ rules) t (head e) = rw (ap p e ∙ t) (head e)
select-Any p s (r ∷ rules) t (tail m) = elim (Bool-cases (p r)) [
  | inl l ↦ rw l (tail (select-Any p s rules t m))
  | inr l ↦ rw l (select-Any p s rules t m)
]

Any-if :
    {P : Rule → Type 0} (b : Bool) {r : Rule} {rules : List Rule}
    → Any P (if b then r ∷ rules else rules)
    → ((b ≡ true) × P r) ⊎ Any P rules
Any-if true (head p) = inl (refl, p)
Any-if true (tail m) = inr m
Any-if false m = inr m

Any-select :
    (p : Rule → Bool) (s : Rule) (rules : List Rule)
    → Any (λ x. x ≡ s) (select p rules)
    → Any (λ x. (p x ≡ true) × (x.effect ≡ s.effect)) rules
Any-select p s [] m = elim m [ ]
Any-select p s (r ∷ rules) m = elim (Any-if (p r) m) [
  | inl (t, e) ↦ head (t, ap (λ x. x.effect) e)
  | inr m' ↦ tail (Any-select p s rules m')
]

outcome-ge :
    (a : Action) (s : Rule) (matched : List Rule)
    → Any (λ x. x ≡ s) matched
    → rank s ≤ severity (outcome a matched).decision
unfolding outcome
outcome-ge a s [] m = elim m [ ]
outcome-ge a s (r ∷ rest) m = worst-ge s r rest m

SideEffect-cases : (s : SideEffect) → (s ≡ SideEffect.none) ⊎ (has_no_effect s ≡ false)
SideEffect-cases SideEffect.none = inl refl
SideEffect-cases SideEffect.local_write = inr refl
SideEffect-cases SideEffect.external_send = inr refl
SideEffect-cases SideEffect.external_publish = inr refl
SideEffect-cases SideEffect.spend = inr refl
SideEffect-cases SideEffect.destructive = inr refl

-- An outcome other than a block comes from a matched rule of that effect, or has no side effect.
outcome-Any :
    (a : Action) (matched : List Rule)
    → (outcome a matched).decision ≢ Decision.block
    → (a.side_effect_level ≡ SideEffect.none)
      ⊎ ((s : Rule) × Any (λ x. x ≡ s) matched × (s.effect ≡ (outcome a matched).decision))
unfolding outcome
outcome-Any a [] n = elim (SideEffect-cases a.side_effect_level) [
  | inl e ↦ inl e
  | inr e ↦ absurd (n (rw e refl))
]
outcome-Any a (r ∷ rest) n = inr (worst r rest, worst-Any r rest, refl)

module _ (platform : Platform) (engine : Engine) (a : Action) (context : Option (Dict String)) where
  classify-value :
      (c : Dict String) (m : Option (List Rule)) (st : MatchState)
      → classify platform engine a c fresh ≡ ok (m, st)
      → m ≡ (
          if is_empty engine.known_tools || fits_any platform a.tool_name engine.known_tools
          then some (select (holds platform a c) engine.rules)
          else none)
  unfolding classify
  classify-value c m st h =
      let (known, st1, e1, h1) = bind-eq-ok (is_known_tool platform engine a.tool_name) _ fresh h in
      let (v1, k1) = known-Computes platform engine a fresh st1 known (inl refl) e1 in
      elim (Bool-cases known) [
        | inr f ↦ ground (arith, f, v1)
        | inl t ↦
            let (matched, st2, e2, h2) =
              bind-eq-ok (matched_rules platform engine.rules a c) (λ x s. ok (some x, s)) st1
                {r = (m, st)} (ground (arith, t)) in
            let v2 = matched_rules-value platform engine.rules a c st1 st2 matched k1 e2 in
            ground (arith, t, v1, v2)
      ]

  -- The decision is the reference decision on the observed context, or a refusal at a ceiling.
  pub evaluate-reference :
      (evaluate platform engine a context ≡ reference platform engine a (observed context))
      ⊎ ((e : Limit) × (evaluate platform engine a context ≡ refusal (Ground.limit e)))
  unfolding evaluate reference
  evaluate-reference = elim (Result-cases (policy_context_snapshot context)) [
    | inr (e, f) ↦ inr (e, ground (arith, f))
    | inl (c, f) ↦ elim (Result-cases (classify platform engine a c fresh)) [
      | inr (e, g) ↦ inr (e, ground (arith, f, g))
      | inl ((m, st), g) ↦
          inl (ground (arith, f, g, observed-snapshot context c f, classify-value c m st g))
    ]
  ]

  -- The decision is at least as strict as the effect of each of the engine's rules that holds of the action.
  pub strictest :
      (r : Rule)
      → Any (λ x. x ≡ r) engine.rules
      → holds platform a (observed context) r ≡ true
      → severity r.effect ≤ severity (evaluate platform engine a context).decision
  unfolding reference
  strictest r m t = elim evaluate-reference [
    | inr (e, f) ↦ rw f (ground arith)
    | inl f ↦
        rw f
          (elim (Bool-cases
            (is_empty engine.known_tools || fits_any platform a.tool_name engine.known_tools)) [
              | inl k ↦ rw k (
                  outcome-ge a r _
                    (select-Any (holds platform a (observed context)) r engine.rules t m))
              | inr k ↦ rw k (ground arith)
            ])
  ]

  -- An action that is not blocked names a tool that the engine knows, if it declares any; and it
  -- has no side effect, or one of the engine's rules holds of it and has exactly that effect.
  pub default_deny :
      (evaluate platform engine a context).decision ≢ Decision.block
      → ((is_empty engine.known_tools || fits_any platform a.tool_name engine.known_tools) ≡ true)
        × ((a.side_effect_level ≡ SideEffect.none)
            ⊎ Any
                (λ r.
                  (holds platform a (observed context) r ≡ true)
                  × (r.effect ≡ (evaluate platform engine a context).decision))
                engine.rules)
  unfolding reference
  default_deny n =
      let holding = select (holds platform a (observed context)) engine.rules in
      elim evaluate-reference [
        | inr (e, f) ↦ absurd (n (ap (λ d. d.decision) f))
        | inl f ↦
            elim (Bool-cases
              (is_empty engine.known_tools || fits_any platform a.tool_name engine.known_tools)) [
                | inr k ↦ absurd (n (rw (f, k) refl))
                | inl k ↦
                    let same =
                      f
                      ∙ ap (λ t. if t then outcome a holding else refusal Ground.unknown_tool) k in
                    elim (outcome-Any a holding (λ e. n (ap (λ d. d.decision) same ∙ e))) [
                      | inl e ↦ (k, inl e)
                      | inr (s, m, e) ↦ (
                        k,
                        inr (
                            subst
                              (λ d.
                                Any
                                  (λ r.
                                    (holds platform a (observed context) r ≡ true) × (r.effect ≡ d))
                                  engine.rules)
                              (e ∙ sym (ap (λ d. d.decision) same))
                              (Any-select (holds platform a (observed context)) s engine.rules m)),
                      )
                    ]
              ]
      ]
