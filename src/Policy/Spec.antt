-- ===== src/Policy/Spec.antt =====
-- What the budgeted matcher of policy/engine.py computes where no ceiling stops it: a plain test of
-- one rule on one action.
use defiant_agent_harness.Common.{
  ℕ, ◌+◌, String, ◌≡◌, ◌∙◌, ◌⊎◌, inl, inr, Bool, true, false, ◌&&◌, ◌||◌, none, some, List, [], ◌∷◌,
  any, arith, ap, select, if◌then◌else◌, Bool-cases,
}
use defiant_agent_harness.Common.Dict.{Dict}
use defiant_agent_harness.Common.Text.{len}
use defiant_agent_harness.Common.Result.{Result, ok, err, Result-cases}
use defiant_agent_harness.Policy.Types.{Payload, Action, Rule, Limit, Platform}
use defiant_agent_harness.Policy.Payload.{bounded_payload_text}
use defiant_agent_harness.Policy.Evaluate.{Engine, matched_rules, is_known_tool}
use defiant_agent_harness.Policy.Match.{
  MatchState, Matching, ◌>>=◌, pure, charge_glob_work, charge_payload_work, match_globs,
  matches_any_glob, payload_text_for, match_terms, is_empty, matches_tools, matches_side_effect,
  matches_targets, matches_payload, matches_trust, matches_sensitivity, matches,
}

abbrev pub text_of : Result Limit String → String
text_of (ok text) = text
text_of (err _) = ""

-- Inversion of a successful bind.
pub bind-eq-ok :
    {A B : Type 0} (m : Matching A) (f : A → Matching B) (st : MatchState) {r : B × MatchState}
    → (m >>= f) st ≡ ok r
    → (a : A) × (st' : MatchState) × (m st ≡ ok (a, st')) × (f a st' ≡ ok r)
bind-eq-ok m f st h = elim (Result-cases (m st)) [
  | inl ((a, st1), e) ↦ (a, st1, e, ground arith)
  | inr (e, e') ↦ cc
]

module _ (platform : Platform) where
  open platform use {normcase, lower, fnmatchcase, is_in}

  -- Some pattern fits the subject.
  abbrev pub fits_any : String → List String → Bool
  fits_any subject patterns =
      any (λ pattern'. fnmatchcase (normcase subject) (normcase pattern')) patterns

  -- Some term stands in the payload's text.
  abbrev pub mentions_any : Payload → List String → Bool
  mentions_any payload terms =
      any (λ term. is_in (lower term) (text_of (bounded_payload_text platform payload))) terms

  -- Every condition that the rule states holds of the action.
  unfoldable pub holds : Action → Dict String → Rule → Bool
  holds a context r =
      ((is_empty r.tools || fits_any a.tool_name r.tools) && matches_side_effect r a)
      && ((is_empty r.targets || fits_any a.target r.targets)
          && ((is_empty r.payload_contains || mentions_any a.payload r.payload_contains)
              && matches_trust r a
              && matches_sensitivity r context))

  -- A text that was kept is the payload's.
  abbrev pub Keeps : Payload → MatchState → Type 0
  Keeps payload st =
      (st.payload_text ≡ none)
      ⊎ ((text : String) × (st.payload_text ≡ some text)
          × (bounded_payload_text platform payload ≡ ok text))

  charge_glob_work-keeps :
      (units : ℕ) (st st' : MatchState)
      → charge_glob_work units st ≡ ok (tt, st')
      → st'.payload_text ≡ st.payload_text
  unfolding charge_glob_work
  charge_glob_work-keeps units st st' h = ground arith

  charge_payload_work-keeps :
      (units : ℕ) (st st' : MatchState)
      → charge_payload_work units st ≡ ok (tt, st')
      → st'.payload_text ≡ st.payload_text
  unfolding charge_payload_work
  charge_payload_work-keeps units st st' h = ground arith

  match_globs-value :
      (subject : String) (patterns : List String) (st st' : MatchState) (b : Bool)
      → match_globs platform subject patterns st ≡ ok (b, st')
      → (b ≡ any (λ pattern'. fnmatchcase subject (normcase pattern')) patterns)
        × (st'.payload_text ≡ st.payload_text)
  unfolding match_globs
  match_globs-value subject [] st st' b h = (ground arith, ground arith)
  match_globs-value subject (p ∷ ps) st st' b h =
      let (_, st1, charged, rest) =
        bind-eq-ok (charge_glob_work (len subject + len (normcase p))) _ st h in
      let kept = charge_glob_work-keeps _ st st1 charged in
      elim (Bool-cases (fnmatchcase subject (normcase p))) [
        | inl e ↦ ground (arith, e, kept)
        | inr e ↦
            let (value, keeps) = match_globs-value subject ps st1 st' b (ground (arith, e)) in
            (ground (arith, e), keeps ∙ kept)
      ]

  matches_any_glob-value :
      (subject : String) (patterns : List String) (maximum : ℕ) (st st' : MatchState) (b : Bool)
      → matches_any_glob platform subject patterns maximum st ≡ ok (b, st')
      → (b ≡ fits_any subject patterns) × (st'.payload_text ≡ st.payload_text)
  unfolding matches_any_glob
  matches_any_glob-value subject patterns maximum st st' b h =
      match_globs-value (normcase subject) patterns st st' b (ground arith)

  match_terms-value :
      (text : String) (terms : List String) (st st' : MatchState) (b : Bool)
      → match_terms platform text terms st ≡ ok (b, st')
      → (b ≡ any (λ term. is_in (lower term) text) terms) × (st'.payload_text ≡ st.payload_text)
  unfolding match_terms
  match_terms-value text [] st st' b h = (ground arith, ground arith)
  match_terms-value text (t ∷ ts) st st' b h =
      let (_, st1, charged, rest) =
        bind-eq-ok (charge_payload_work (len text + len (lower t))) _ st h in
      let kept = charge_payload_work-keeps _ st st1 charged in
      elim (Bool-cases (is_in (lower t) text)) [
        | inl e ↦ ground (arith, e, kept)
        | inr e ↦
            let (value, keeps) = match_terms-value text ts st1 st' b (ground (arith, e)) in
            (ground (arith, e), keeps ∙ kept)
      ]

  payload_text_for-value :
      (payload : Payload) (st st' : MatchState) (text : String)
      → Keeps payload st
      → payload_text_for platform payload st ≡ ok (text, st')
      → (bounded_payload_text platform payload ≡ ok text) × (st'.payload_text ≡ some text)
  unfolding payload_text_for
  payload_text_for-value payload st st' text k h =
      ground (arith, Result-cases (bounded_payload_text platform payload))

  Keeps-same :
      (payload : Payload) (st st' : MatchState)
      → st'.payload_text ≡ st.payload_text
      → Keeps payload st
      → Keeps payload st'
  Keeps-same payload st st' same (inl e) = inl (same ∙ e)
  Keeps-same payload st st' same (inr (text, e, t)) = inr (text, same ∙ e, t)

  -- A computed test of a rule, with the kept text still the payload's.
  abbrev Computes : Payload → Matching Bool → Bool → Type 0
  Computes payload m value =
      (st st' : MatchState) (b : Bool)
      → Keeps payload st
      → m st ≡ ok (b, st')
      → (b ≡ value) × Keeps payload st'

  pure-Computes : (payload : Payload) (value : Bool) → Computes payload (pure value) value
  pure-Computes payload value st st' b k h =
      (ground arith, Keeps-same payload st st' (ground arith) k)

  -- A condition that holds where the rule does not state it.
  unless-Computes :
      (payload : Payload) (t : Bool) {m : Matching Bool} {value : Bool}
      → Computes payload m value
      → Computes payload (if t then pure true else m) (t || value)
  unless-Computes payload true c = pure-Computes payload true
  unless-Computes payload false c = c

  glob-Computes :
      (payload : Payload) (subject : String) (patterns : List String) (maximum : ℕ)
      → Computes payload
          (matches_any_glob platform subject patterns maximum)
          (fits_any subject patterns)
  glob-Computes payload subject patterns maximum st st' b k h =
      let (value, same) = matches_any_glob-value subject patterns maximum st st' b h in
      (value, Keeps-same payload st st' same k)

  payload-Computes :
      (payload : Payload) (terms : List String)
      → Computes payload
          (do text ← payload_text_for platform payload; match_terms platform text terms)
          (mentions_any payload terms)
  payload-Computes payload terms st st' b k h =
      let (text, st1, kept, rest) = bind-eq-ok (payload_text_for platform payload) _ st h in
      let (made, same) = payload_text_for-value payload st st1 text k kept in
      let (value, after) = match_terms-value text terms st1 st' b rest in
      (rw made value, inr (text, after ∙ same, made))

  -- A test that is followed by the others only where it holds.
  and-Computes :
      (payload : Payload) (f : Bool → Bool) {m n : Matching Bool} {v w : Bool}
      → Computes payload m v
      → Computes payload n w
      → Computes payload (m >>= λ x. elim (f x) [ false ↦ pure false | true ↦ n ]) (f v && w)
  and-Computes payload f {m} {n} {v} {w} first then' st st' b k h =
      let (x, st1, e, h1) = bind-eq-ok m _ st h in
      let (value, k1) = first st st1 x k e in
      elim (Bool-cases (f x)) [
        | inl t ↦
            let (value', k2) = then' st1 st' b k1 (ground (arith, t)) in
            (ground (arith, ap f value, t), k2)
        | inr t ↦ (ground (arith, ap f value, t), Keeps-same payload st1 st' (ground (arith, t)) k1)
      ]

  then-Computes :
      (payload : Payload) (f : Bool → Bool) {m : Matching Bool} {v : Bool}
      → Computes payload m v
      → Computes payload (m >>= λ x. pure (f x)) (f v)
  then-Computes payload f {m} {v} first st st' b k h =
      let (x, st1, e, h1) = bind-eq-ok m _ st h in
      let (value, k1) = first st st1 x k e in
      (ground (arith, ap f value), Keeps-same payload st1 st' (ground arith) k1)

  -- Where `matches` of a rule returns, it returns what `holds` says.
  pub matches-Computes :
      (r : Rule) (a : Action) (context : Dict String)
      → Computes a.payload (matches platform r a context) (holds a context r)
  unfolding matches matches_tools matches_targets matches_payload holds
  matches-Computes r a context =
      and-Computes a.payload (λ x. x && matches_side_effect r a)
        (unless-Computes a.payload (is_empty r.tools) (glob-Computes a.payload _ _ _))
        (and-Computes a.payload (λ x. x)
          (unless-Computes a.payload (is_empty r.targets) (glob-Computes a.payload _ _ _))
          (then-Computes a.payload (λ x. x && matches_trust r a && matches_sensitivity r context)
            (unless-Computes a.payload (is_empty r.payload_contains)
              (payload-Computes a.payload _))))

  -- The rules that matched are those that hold.
  pub matched_rules-value :
      (rules : List Rule) (a : Action) (context : Dict String) (st st' : MatchState)
      (matched : List Rule)
      → Keeps a.payload st
      → matched_rules platform rules a context st ≡ ok (matched, st')
      → matched ≡ select (holds a context) rules
  unfolding matched_rules
  matched_rules-value [] a context st st' matched k h = ground arith
  matched_rules-value (r ∷ rules) a context st st' matched k h =
      let (hit, st1, e, h1) = bind-eq-ok (matches platform r a context) _ st h in
      let (value, k1) = matches-Computes r a context st st1 hit k e in
      let (rest, st2, e2, h2) = bind-eq-ok (matched_rules platform rules a context) _ st1 h1 in
      let same = matched_rules-value rules a context st1 st2 rest k1 e2 in
      ground (arith, value, same, Bool-cases hit)

  pub known-Computes :
      (engine : Engine) (a : Action)
      → Computes a.payload
          (is_known_tool platform engine a.tool_name)
          (is_empty engine.known_tools || fits_any a.tool_name engine.known_tools)
  unfolding is_known_tool
  known-Computes engine a =
      unless-Computes a.payload (is_empty engine.known_tools) (glob-Computes a.payload _ _ _)
