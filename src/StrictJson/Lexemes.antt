-- ===== src/StrictJson/Lexemes.antt =====
-- The lexemes of a JSON text, and their measures.
use Prim.Native.Char.{Char}
use defiant_agent_harness.Common.{
  ℕ, suc, ◌-◌, String, Bool, true, false, ◌&&◌, not, ◌||◌, List, [], ◌∷◌, leb, if◌then◌else◌,
}
use defiant_agent_harness.Common.Text.{is_space}
use defiant_agent_harness.StrictJson.Scan.{
  is_quote, is_backslash, is_opening, is_closing, is_separator, starts_number,
}

-- A string with its characters between the quotes, an opening or closing bracket, or a scalar with
-- its characters.
pub data Lexeme : Type 0 where
  quoted : ℕ → Lexeme
  opens closes : Lexeme
  scalar : Bool → ℕ → Lexeme

pub data Class : Type 0 where
  quote opening closing gap word : Class

unfoldable pub class : Char → Class
class c =
    if is_quote c
    then Class.quote
    else if is_opening c
    then Class.opening
    else if is_closing c
    then Class.closing
    else if is_space c || is_separator c
    then Class.gap
    else Class.word

-- Where in a lexeme the reading stands.
pub data Mode : Type 0 where
  between : Mode
  inside : Bool → ℕ → Mode
  within : Bool → ℕ → Mode

-- What a mode's unfinished lexeme is when it ends.
abbrev pub finish : Mode → List Lexeme → List Lexeme
finish between ls = ls
finish (inside e n) ls = quoted n ∷ ls
finish (within b n) ls = scalar b n ∷ ls

unfoldable pub lex : Mode → String → List Lexeme
lex m String.[] = finish m []
lex between (String.◌∷◌ c s) = elim (class c) [
  | Class.quote ↦ lex (inside false 0) s
  | Class.opening ↦ opens ∷ lex between s
  | Class.closing ↦ closes ∷ lex between s
  | Class.gap ↦ lex between s
  | Class.word ↦ lex (within (starts_number c) 1) s
]
lex (inside true n) (String.◌∷◌ c s) = lex (inside false (suc n)) s
lex (inside false n) (String.◌∷◌ c s) =
    let escape = lex (inside true (suc n)) s in
    let ended = quoted n ∷ lex between s in
    let longer = lex (inside false (suc n)) s in
    if is_backslash c then escape else if is_quote c then ended else longer
lex (within b n) (String.◌∷◌ c s) = elim (class c) [
  | Class.quote ↦ scalar b n ∷ lex (inside false 0) s
  | Class.opening ↦ scalar b n ∷ opens ∷ lex between s
  | Class.closing ↦ scalar b n ∷ closes ∷ lex between s
  | Class.gap ↦ scalar b n ∷ lex between s
  | Class.word ↦ lex (within b (suc n)) s
]

-- Everything but a closing bracket counts.
unfoldable pub token_count : List Lexeme → ℕ
token_count [] = 0
token_count (quoted n ∷ ls) = suc (token_count ls)
token_count (opens ∷ ls) = suc (token_count ls)
token_count (closes ∷ ls) = token_count ls
token_count (scalar b n ∷ ls) = suc (token_count ls)

-- No string is longer than the first bound, and no number than the second.
unfoldable pub is_short : ℕ → ℕ → List Lexeme → Bool
is_short p q [] = true
is_short p q (quoted n ∷ ls) = leb n p && is_short p q ls
is_short p q (opens ∷ ls) = is_short p q ls
is_short p q (closes ∷ ls) = is_short p q ls
is_short p q (scalar b n ∷ ls) = (not b || leb n q) && is_short p q ls

-- Read from a depth, no bracket opens deeper than the bound; a closing bracket at depth 0 is ignored.
unfoldable pub is_shallow : ℕ → ℕ → List Lexeme → Bool
is_shallow p d [] = true
is_shallow p d (quoted n ∷ ls) = is_shallow p d ls
is_shallow p d (opens ∷ ls) = leb (suc d) p && is_shallow p (suc d) ls
is_shallow p d (closes ∷ ls) = is_shallow p (d - 1) ls
is_shallow p d (scalar b n ∷ ls) = is_shallow p d ls
