-- ===== src/StrictJson/State.antt =====
-- The loop of `_preflight_structure` against the modes of the lexemes: its states and what they accept.
use Prim.Native.Char.{Char}
use defiant_agent_harness.Common.{
  ℕ, suc, ◌+◌, ◌≤◌, ◌<◌, String, Bool, true, false, ◌&&◌, ◌≡◌, refl, List, ◌∷◌, leb, arith,
}
use defiant_agent_harness.Common.Result.{Result, ok, err, ◌>>=◌}
use defiant_agent_harness.StrictJson.Scan.{
  max_json_nesting_depth, max_json_lexical_tokens, max_json_string_token_characters,
  max_json_number_token_characters, StrictJsonError, Scan, ends_scalar, starts_number, step, scan,
}
use defiant_agent_harness.StrictJson.Lexemes.{
  Lexeme, opens, closes, Class, class, Mode, between, inside, within, lex, token_count, is_short,
  is_shallow,
}

abbrev pub accepts : Scan → String → Bool
accepts s text = elim (scan s text) [ ok t ↦ true | err e ↦ false ]

-- The lexemes fit, read from a depth and after a number of tokens.
abbrev pub fits : ℕ → ℕ → List Lexeme → Bool
fits d t ls =
    is_shallow max_json_nesting_depth d ls
    && is_short max_json_string_token_characters max_json_number_token_characters ls
    && leb (t + token_count ls) max_json_lexical_tokens

-- The loop's variables in a mode, where what the mode leaves open is given.
abbrev pub state : Mode → ℕ → ℕ → ℕ → Bool → ℕ → Scan
state between d t k b n = record {
  depth = d;
  tokens = t;
  in_string = false;
  escaped = false;
  string_characters = k;
  in_scalar = false;
  scalar_is_number = b;
  scalar_characters = n;
}
state (inside e i) d t k b n = record {
  depth = d;
  tokens = suc t;
  in_string = true;
  escaped = e;
  string_characters = i;
  in_scalar = false;
  scalar_is_number = b;
  scalar_characters = n;
}
state (within w i) d t k b n = record {
  depth = d;
  tokens = suc t;
  in_string = false;
  escaped = false;
  string_characters = k;
  in_scalar = true;
  scalar_is_number = w;
  scalar_characters = i;
}

abbrev pub IsFine : Mode → ℕ → Type 0
IsFine between t = t ≤ max_json_lexical_tokens
IsFine (inside e i) t = (suc t ≤ max_json_lexical_tokens) × (i ≤ max_json_string_token_characters)
IsFine (within true i) t =
    (suc t ≤ max_json_lexical_tokens) × (i ≤ max_json_number_token_characters)
IsFine (within false i) t = suc t ≤ max_json_lexical_tokens

pub ends_scalar-class :
    (c : Char) → ends_scalar c ≡ elim (class c) [ Class.word ↦ false | _ ↦ true ]
unfolding ends_scalar class
ends_scalar-class c = ground arith

-- A lexeme that has grown too long stays so, and the lexeme under way is counted.
pub long_inside :
    (e : Bool) (n p q : ℕ) (text : String) → p < n → is_short p q (lex (inside e n) text) ≡ false
unfolding lex is_short
long_inside e n p q String.[] h = ground arith
long_inside true n p q (String.◌∷◌ c s) h = long_inside false (suc n) p q s (omega arith)
long_inside false n p q (String.◌∷◌ c s) h =
    ground (arith, long_inside true (suc n) p q s, long_inside false (suc n) p q s)

pub long_within :
    (n p q : ℕ) (text : String) → q < n → is_short p q (lex (within true n) text) ≡ false
unfolding lex is_short
long_within n p q String.[] h = ground arith
long_within n p q (String.◌∷◌ c s) h = ground (arith, long_within (suc n) p q s)

pub count_inside : (e : Bool) (n : ℕ) (text : String) → 1 ≤ token_count (lex (inside e n) text)
unfolding lex token_count
count_inside e n String.[] = omega arith
count_inside true n (String.◌∷◌ c s) = count_inside false (suc n) s
count_inside false n (String.◌∷◌ c s) =
    ground (arith, count_inside true (suc n) s, count_inside false (suc n) s)

pub count_within : (b : Bool) (n : ℕ) (text : String) → 1 ≤ token_count (lex (within b n) text)
unfolding lex token_count
count_within b n String.[] = omega arith
count_within b n (String.◌∷◌ c s) = ground (arith, count_within b (suc n) s)

-- How the text is read on from a character of a class.
abbrev pub from_class : Class → Char → String → List Lexeme
from_class Class.quote c s = lex (inside false 0) s
from_class Class.opening c s = opens ∷ lex between s
from_class Class.closing c s = closes ∷ lex between s
from_class Class.gap c s = lex between s
from_class Class.word c s = lex (within (starts_number c) 1) s

pub lex-class :
    (k : Class) (c : Char) (s : String)
    → class c ≡ k
    → lex between (String.◌∷◌ c s) ≡ from_class k c s
unfolding lex
lex-class Class.quote c s h = rw (h, lex) refl
lex-class Class.opening c s h = rw (h, lex) refl
lex-class Class.closing c s h = rw (h, lex) refl
lex-class Class.gap c s h = rw (h, lex) refl
lex-class Class.word c s h = rw (h, lex) refl

-- What the theorem below says of the rest of a text.
abbrev pub Reads : String → Type 0
Reads s =
    (m : Mode) (d t k : ℕ) (b : Bool) (n : ℕ)
    → IsFine m t
    → accepts (state m d t k b n) s ≡ fits d t (lex m s)

abbrev pub accepts_after : Result StrictJsonError Scan → String → Bool
accepts_after (ok t) s = accepts t s
accepts_after (err e) s = false

accepts_bind :
    (r : Result StrictJsonError Scan) (cs : String)
    → elim (r >>= (λ t. scan t cs)) [ ok t ↦ true | err e ↦ false ] ≡ accepts_after r cs
accepts_bind (ok t) cs = refl
accepts_bind (err e) cs = refl

pub accepts-step :
    (s : Scan) (c : Char) (cs : String) → accepts s (String.◌∷◌ c cs) ≡ accepts_after (step s c) cs
unfolding scan
accepts-step s c cs = accepts_bind (step s c) cs
