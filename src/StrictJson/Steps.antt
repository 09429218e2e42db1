-- ===== src/StrictJson/Steps.antt =====
-- What one character outside strings, or within a growing lexeme, does to what is accepted.
use Prim.Native.Char.{Char}
use defiant_agent_harness.Common.{
  ℕ, suc, ◌-◌, ◌≤◌, String, Bool, true, false, ◌&&◌, ◌||◌, ◌≡◌, ◌∷◌, inl, inr, ltb, Bool-cases,
  arith,
}
use defiant_agent_harness.Common.Text.{is_space}
use defiant_agent_harness.Common.Result.{ok, ◌>>◌, refuse}
use defiant_agent_harness.StrictJson.Scan.{
  max_json_nesting_depth, max_json_lexical_tokens, max_json_string_token_characters,
  max_json_number_token_characters, StrictJsonError, is_quote, is_opening, is_closing, is_separator,
  starts_number, count_character, check_tokens, step_outside,
}
use defiant_agent_harness.StrictJson.Lexemes.{
  opens, closes, Class, class, between, inside, within, lex, token_count, is_short, is_shallow,
}
use defiant_agent_harness.StrictJson.State.{
  fits, state, IsFine, long_inside, long_within, count_inside, count_within, lex-class, Reads,
  accepts_after,
}

module _ (s : String) (reads : Reads s) where
  pub grow_inside :
      (e : Bool) (i d t k : ℕ) (b : Bool) (n : ℕ)
      → suc t ≤ max_json_lexical_tokens
      → accepts_after (count_character (state (inside e i) d t k b n)) s
        ≡ fits d t (lex (inside e (suc i)) s)
  unfolding count_character
  grow_inside e i d t k b n f = elim (Bool-cases (ltb max_json_string_token_characters (suc i))) [
    | inl h ↦ rw h (
        ground (
          arith,
          h,
          long_inside e (suc i) max_json_string_token_characters max_json_number_token_characters s,
        ))
    | inr h ↦ rw h (reads (inside e (suc i)) d t k b n (f, ground (arith, h)))
  ]

  pub grow_within :
      (w : Bool) (i d t k : ℕ) (b : Bool) (n : ℕ)
      → IsFine (within w i) t
      → accepts_after
          (refuse
              (w && ltb max_json_number_token_characters (suc i))
              StrictJsonError.number_too_long
            >> ok (state (within w (suc i)) d t k b n))
          s
        ≡ fits d t (lex (within w (suc i)) s)
  grow_within true i d t k b n f =
      elim (Bool-cases (ltb max_json_number_token_characters (suc i))) [
        | inl h ↦ rw h (
            ground (
              arith,
              h,
              long_within (suc i) max_json_string_token_characters max_json_number_token_characters
                  s,
            ))
        | inr h ↦ rw h (reads (within true (suc i)) d t k b n (f.0, ground (arith, h)))
      ]
  grow_within false i d t k b n f = reads (within false (suc i)) d t k b n f

  token_inside :
      (d t k : ℕ) (b : Bool) (n : ℕ)
      → accepts_after (check_tokens (state (inside false 0) d t k b n)) s
        ≡ fits d t (lex (inside false 0) s)
  unfolding check_tokens
  token_inside d t k b n = elim (Bool-cases (ltb max_json_lexical_tokens (suc t))) [
    | inl h ↦ rw h (ground (arith, h, count_inside false 0 s))
    | inr h ↦ rw h (reads (inside false 0) d t k b n (ground (arith, h), omega arith))
  ]

  token_within :
      (d t k : ℕ) (w : Bool)
      → accepts_after (check_tokens (state (within w 1) d t k w 1)) s
        ≡ fits d t (lex (within w 1) s)
  unfolding check_tokens
  token_within d t k w = elim (Bool-cases (ltb max_json_lexical_tokens (suc t))) [
    | inl h ↦ rw h (ground (arith, h, count_within w 1 s))
    | inr h ↦ rw h (reads (within w 1) d t k w 1 (ground (arith, h)))
  ]

  opened :
      (d t k : ℕ) (b : Bool) (n : ℕ)
      → accepts_after
          (refuse (ltb max_json_nesting_depth (suc d)) StrictJsonError.too_deep
            >> check_tokens (state between (suc d) (suc t) k b n))
          s
        ≡ fits d t (opens ∷ lex between s)
  unfolding is_shallow is_short token_count check_tokens
  opened d t k b n = elim (Bool-cases (ltb max_json_nesting_depth (suc d))) [
    | inl h ↦ rw h (ground (arith, h))
    | inr h ↦ elim (Bool-cases (ltb max_json_lexical_tokens (suc t))) [
      | inl g ↦ rw (h, g) (ground (arith, g))
      | inr g ↦
          rw (h, g) (ground (arith, h, g, reads between (suc d) (suc t) k b n (ground (arith, g))))
    ]
  ]

  closed :
      (d t k : ℕ) (b : Bool) (n : ℕ)
      → t ≤ max_json_lexical_tokens
      → accepts_after (check_tokens (state between (d - 1) t k b n)) s
        ≡ fits d t (closes ∷ lex between s)
  unfolding is_shallow is_short token_count check_tokens
  closed d t k b n f =
      let e : ltb max_json_lexical_tokens t ≡ false = ground (arith, f) in
      rw e (reads between (d - 1) t k b n f)

  scalar_starts :
      (c : Char) (d t k : ℕ)
      → accepts_after
          (refuse
              (starts_number c && ltb max_json_number_token_characters 1)
              StrictJsonError.number_too_long
            >> check_tokens (state (within (starts_number c) 1) d t k (starts_number c) 1))
          s
        ≡ fits d t (lex (within (starts_number c) 1) s)
  scalar_starts c d t k =
      let e : (starts_number c && ltb max_json_number_token_characters 1) ≡ false = ground arith in
      rw e (token_within d t k (starts_number c))

  pub outside :
      (c : Char) (d t k : ℕ) (b : Bool) (n : ℕ)
      → t ≤ max_json_lexical_tokens
      → accepts_after (step_outside (state between d t k b n) c) s
        ≡ fits d t (lex between (String.◌∷◌ c s))
  unfolding step_outside class
  outside c d t k b n f = elim (Bool-cases (is_quote c)) [
    | inl e ↦ rw (lex-class Class.quote c s (ground (arith, e)), e) (token_inside d t k b n)
    | inr e1 ↦ elim (Bool-cases (is_opening c)) [
      | inl e ↦ rw (lex-class Class.opening c s (ground (arith, e1, e)), e1, e) (opened d t k b n)
      | inr e2 ↦ elim (Bool-cases (is_closing c)) [
        | inl e ↦
            rw (lex-class Class.closing c s (ground (arith, e1, e2, e)), e1, e2, e)
              (closed d t k b n f)
        | inr e3 ↦ elim (Bool-cases (is_space c || is_separator c)) [
          | inl e ↦
              rw (lex-class Class.gap c s (ground (arith, e1, e2, e3, e)), e1, e2, e3, e)
                (reads between d t k b n f)
          | inr e4 ↦
              rw (lex-class Class.word c s (ground (arith, e1, e2, e3, e4)), e1, e2, e3, e4)
                (scalar_starts c d t k)
        ]
      ]
    ]
  ]
