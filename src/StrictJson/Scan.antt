-- ===== src/StrictJson/Scan.antt =====
-- `_preflight_structure`: one pass over the characters of a JSON text.
use Prim.Native.Char.{Char, code}
use defiant_agent_harness.Common.{
  ℕ, suc, ◌-◌, String, Bool, true, false, ◌&&◌, ◌||◌, eqb, ltb, leb, if◌then◌else◌,
}
use defiant_agent_harness.Common.Text.{is_space}
use defiant_agent_harness.Common.Result.{Result, ok, ◌>>=◌, ◌>>◌, refuse}

abbrev pub max_json_nesting_depth : ℕ
max_json_nesting_depth = 64

abbrev pub max_json_lexical_tokens : ℕ
max_json_lexical_tokens = 1000000

abbrev pub max_json_string_token_characters : ℕ
max_json_string_token_characters = 8388608

abbrev pub max_json_number_token_characters : ℕ
max_json_number_token_characters = 1024

pub data StrictJsonError : Type 0 where
  too_deep too_many_tokens string_too_long number_too_long duplicate_key : StrictJsonError

-- The variables of the loop.
pub record Scan : Type 0 where
  pub depth : ℕ
  pub tokens : ℕ
  pub in_string : Bool
  pub escaped : Bool
  pub string_characters : ℕ
  pub in_scalar : Bool
  pub scalar_is_number : Bool
  pub scalar_characters : ℕ

abbrev pub start : Scan
start = record {
  depth = 0;
  tokens = 0;
  in_string = false;
  escaped = false;
  string_characters = 0;
  in_scalar = false;
  scalar_is_number = false;
  scalar_characters = 0;
}

abbrev pub is_quote : Char → Bool
is_quote c = eqb (code c) 34

abbrev pub is_backslash : Char → Bool
is_backslash c = eqb (code c) 92

-- `c in "[{"`, `c in "]}"`, `c in ",:"`
abbrev pub is_opening : Char → Bool
is_opening c = eqb (code c) 91 || eqb (code c) 123

abbrev pub is_closing : Char → Bool
is_closing c = eqb (code c) 93 || eqb (code c) 125

abbrev pub is_separator : Char → Bool
is_separator c = eqb (code c) 44 || eqb (code c) 58

-- `c.isspace() or c in '{}[],:"'`
unfoldable pub ends_scalar : Char → Bool
ends_scalar c = is_space c || is_opening c || is_closing c || is_separator c || is_quote c

-- `c in "-0123456789"`
unfoldable pub starts_number : Char → Bool
starts_number c = eqb (code c) 45 || (leb 48 (code c) && leb (code c) 57)

-- The body under `if in_string`.
unfoldable pub count_character : Scan → Result StrictJsonError Scan
count_character s = do
  refuse (ltb max_json_string_token_characters (suc s.string_characters))
      StrictJsonError.string_too_long
  ok (record s { string_characters = suc s.string_characters })

unfoldable pub step_string : Scan → Char → Result StrictJsonError Scan
step_string s c =
    if s.escaped
    then count_character (record s { escaped = false })
    else if is_backslash c
    then count_character (record s { escaped = true })
    else if is_quote c
    then ok (record s { in_string = false })
    else count_character s

-- The last test of the body.
unfoldable pub check_tokens : Scan → Result StrictJsonError Scan
check_tokens s = do
  refuse (ltb max_json_lexical_tokens s.tokens) StrictJsonError.too_many_tokens
  ok s

-- The body outside strings and scalars.
unfoldable pub step_outside : Scan → Char → Result StrictJsonError Scan
step_outside s c =
    if is_quote c
    then check_tokens (record s { in_string = true; string_characters = 0; tokens = suc s.tokens })
    else if is_opening c
    then (do
      refuse (ltb max_json_nesting_depth (suc s.depth)) StrictJsonError.too_deep
      check_tokens (record s { depth = suc s.depth; tokens = suc s.tokens }))
    else if is_closing c
    then check_tokens (record s { depth = s.depth - 1 })
    else if is_space c || is_separator c
    then ok s
    else (do
      refuse (starts_number c && ltb max_json_number_token_characters 1)
          StrictJsonError.number_too_long
      check_tokens (record s {
        in_scalar = true;
        scalar_is_number = starts_number c;
        scalar_characters = 1;
        tokens = suc s.tokens;
      }))

-- The body under `if in_scalar`, which goes on with the rest of the body where the scalar ends.
unfoldable pub step_scalar : Scan → Char → Result StrictJsonError Scan
step_scalar s c =
    if ends_scalar c
    then step_outside
        (record s { in_scalar = false; scalar_is_number = false; scalar_characters = 0 }) c
    else (do
      refuse (s.scalar_is_number && ltb max_json_number_token_characters (suc s.scalar_characters))
          StrictJsonError.number_too_long
      ok (record s { scalar_characters = suc s.scalar_characters }))

unfoldable pub step : Scan → Char → Result StrictJsonError Scan
step s c =
    if s.in_string
    then step_string s c
    else if s.in_scalar
    then step_scalar s c
    else step_outside s c

-- `for character in text`
unfoldable pub scan : Scan → String → Result StrictJsonError Scan
scan s String.[] = ok s
scan s (String.◌∷◌ c cs) = do t ← step s c; scan t cs

unfoldable pub preflight_structure : String → Result StrictJsonError Scan
preflight_structure text = scan start text
