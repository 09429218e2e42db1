-- ===== src/StrictJson/Preflight.antt =====
-- What the pass over the characters accepts, in terms of the text's lexemes.
use Prim.Native.Char.{Char}
use defiant_agent_harness.Common.{
  ℕ, suc, ◌≤◌, String, Bool, true, false, ◌&&◌, ◌≡◌, refl, ◌∙◌, List, ◌∷◌, inl, inr, leb,
  if◌then◌else◌, Bool-cases, arith,
}
use defiant_agent_harness.Common.Result.{Result, ok, err}
use defiant_agent_harness.StrictJson.Scan.{
  max_json_nesting_depth, max_json_lexical_tokens, max_json_string_token_characters,
  max_json_number_token_characters, StrictJsonError, Scan, is_quote, is_backslash, ends_scalar,
  step_string, step_scalar, step, scan, preflight_structure,
}
use defiant_agent_harness.StrictJson.Lexemes.{
  Lexeme, quoted, scalar, Class, class, Mode, between, inside, within, lex, token_count, is_short,
  is_shallow,
}
use defiant_agent_harness.StrictJson.State.{
  fits, state, IsFine, ends_scalar-class, accepts-step, Reads, accepts_after,
}
use defiant_agent_harness.StrictJson.Steps.{grow_inside, grow_within, outside}

counted : (w : Bool) (i t : ℕ) → IsFine (within w i) t → suc t ≤ max_json_lexical_tokens
counted true i t f = f.0
counted false i t f = f

-- At the end of a scalar the text is read on from its next character.
scalar_by :
    (k : Class) (w : Bool) (i : ℕ) (c : Char) (s : String)
    → class c ≡ k
    → lex (within w i) (String.◌∷◌ c s) ≡ (
        if elim k [ Class.word ↦ false | _ ↦ true ]
        then scalar w i ∷ lex between (String.◌∷◌ c s)
        else lex (within w (suc i)) s)
unfolding lex
scalar_by Class.quote w i c s h = rw (h, lex) refl
scalar_by Class.opening w i c s h = rw (h, lex) refl
scalar_by Class.closing w i c s h = rw (h, lex) refl
scalar_by Class.gap w i c s h = rw (h, lex) refl
scalar_by Class.word w i c s h = rw (h, lex) refl

scalar-lex :
    (w : Bool) (i : ℕ) (c : Char) (s : String)
    → lex (within w i) (String.◌∷◌ c s) ≡ (
        if ends_scalar c
        then scalar w i ∷ lex between (String.◌∷◌ c s)
        else lex (within w (suc i)) s)
scalar-lex w i c s = rw (ends_scalar-class c) (scalar_by (class c) w i c s refl)

fits-scalar :
    (w : Bool) (i d t : ℕ) (ls : List Lexeme)
    → IsFine (within w i) t
    → fits d (suc t) ls ≡ fits d t (scalar w i ∷ ls)
unfolding is_shallow is_short token_count
fits-scalar true i d t ls f = ground (arith, f)
fits-scalar false i d t ls f = ground (arith, f)

fits-quoted :
    (i d t : ℕ) (ls : List Lexeme)
    → i ≤ max_json_string_token_characters
    → fits d (suc t) ls ≡ fits d t (quoted i ∷ ls)
unfolding is_shallow is_short token_count
fits-quoted i d t ls f = ground (arith, f)

module _ (c : Char) (s : String) (reads : Reads s) where
  after_inside :
      (e : Bool) (i d t k : ℕ) (b : Bool) (n : ℕ)
      → IsFine (inside e i) t
      → accepts_after (step_string (state (inside e i) d t k b n) c) s
        ≡ fits d t (lex (inside e i) (String.◌∷◌ c s))
  unfolding step_string lex
  after_inside true i d t k b n f = grow_inside s reads false i d t k b n f.0
  after_inside false i d t k b n f = elim (Bool-cases (is_backslash c)) [
    | inl e ↦ rw e (grow_inside s reads true i d t k b n f.0)
    | inr e1 ↦ elim (Bool-cases (is_quote c)) [
      | inl e ↦
          rw (e1, e) (reads between d (suc t) i b n f.0 ∙ fits-quoted i d t (lex between s) f.1)
      | inr e ↦ rw (e1, e) (grow_inside s reads false i d t k b n f.0)
    ]
  ]

  after_within :
      (w : Bool) (i d t k : ℕ) (b : Bool) (n : ℕ)
      → IsFine (within w i) t
      → accepts_after (step_scalar (state (within w i) d t k b n) c) s
        ≡ fits d t (lex (within w i) (String.◌∷◌ c s))
  unfolding step_scalar
  after_within w i d t k b n f = elim (Bool-cases (ends_scalar c)) [
    | inl e ↦
        rw (scalar-lex w i c s, e)
          (outside s reads c d (suc t) k false 0 (counted w i t f)
            ∙ fits-scalar w i d t (lex between (String.◌∷◌ c s)) f)
    | inr e ↦ rw (scalar-lex w i c s, e) (grow_within s reads w i d t k b n f)
  ]

  after_step :
      (m : Mode) (d t k : ℕ) (b : Bool) (n : ℕ)
      → IsFine m t
      → accepts_after (step (state m d t k b n) c) s ≡ fits d t (lex m (String.◌∷◌ c s))
  unfolding step
  after_step between d t k b n f = outside s reads c d t k b n f
  after_step (inside e i) d t k b n f = after_inside e i d t k b n f
  after_step (within w i) d t k b n f = after_within w i d t k b n f

text_accepted : (text : String) → Reads text
unfolding scan lex is_shallow is_short token_count
text_accepted String.[] between d t k b n f = ground arith
text_accepted String.[] (inside e i) d t k b n f = ground arith
text_accepted String.[] (within true i) d t k b n f = ground arith
text_accepted String.[] (within false i) d t k b n f = ground arith
text_accepted (String.◌∷◌ c s) m d t k b n f =
    accepts-step (state m d t k b n) c s ∙ after_step c s (text_accepted s) m d t k b n f

unfoldable pub accepted : Result StrictJsonError Scan → Bool
accepted (ok t) = true
accepted (err e) = false

-- The text is accepted exactly when its lexemes, strings and numbers are within the limits.
pub preflight_structure-lex :
    (text : String)
    → accepted (preflight_structure text) ≡ (
        is_shallow max_json_nesting_depth 0 (lex between text)
        && is_short max_json_string_token_characters max_json_number_token_characters
            (lex between text)
        && leb (token_count (lex between text)) max_json_lexical_tokens)
unfolding preflight_structure accepted
preflight_structure-lex text =
    ground (arith, text_accepted text between 0 0 0 false 0 (omega arith))
