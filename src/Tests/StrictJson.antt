-- ===== src/Tests/StrictJson.antt =====
-- Concrete runs of the strict JSON reader.
use defiant_agent_harness.Common.{
  ℕ, ◌&&◌, String, true, false, ◌≡◌, refl, List, [], ◌∷◌, leb, if◌then◌else◌,
}
use defiant_agent_harness.Common.Dict.{lookup}
use defiant_agent_harness.Common.Text.{is_space}
use defiant_agent_harness.Common.Result.{ok, err}
use defiant_agent_harness.StrictJson.Scan.{
  StrictJsonError, max_json_nesting_depth, max_json_lexical_tokens,
  max_json_string_token_characters, max_json_number_token_characters, preflight_structure,
  starts_number,
}
use defiant_agent_harness.StrictJson.Lexemes.{
  quoted, opens, closes, scalar, between, class, lex, token_count, is_short, is_shallow,
}
use defiant_agent_harness.StrictJson.Preflight.{accepted, preflight_structure-lex}
use defiant_agent_harness.StrictJson.Hooks.{
  has_key, unique_object, are_distinct, are_digits, unique_object-distinct,
}

abbrev document : String
document = "{\"a\": [-1, true]}"

-- The escaped quote is a part of the string.
document_lexemes :
    lex between "{\"a\\\"\": [-1, true]}"
    ≡ opens ∷ quoted 3 ∷ opens ∷ scalar true 2 ∷ scalar false 4 ∷ closes ∷ closes ∷ []
unfolding lex class is_space starts_number
document_lexemes = refl

preflight_structure-lex_example : accepted (preflight_structure document) ≡ (
    is_shallow max_json_nesting_depth 0 (lex between document)
    && is_short max_json_string_token_characters max_json_number_token_characters
        (lex between document)
    && leb (token_count (lex between document)) max_json_lexical_tokens)
preflight_structure-lex_example = preflight_structure-lex document

abbrev repeated : List (String × ℕ)
repeated = ("role", 1) ∷ ("name", 2) ∷ ("role", 3) ∷ []

unique_object-distinct_example :
    unique_object repeated
    ≡ (if are_distinct repeated then ok repeated else err StrictJsonError.duplicate_key)
unique_object-distinct_example = unique_object-distinct repeated

repeated_refused : are_distinct repeated ≡ false
unfolding are_distinct has_key lookup
repeated_refused = refl

are_digits_test : are_digits "1024" ≡ true
unfolding are_digits
are_digits_test = refl
