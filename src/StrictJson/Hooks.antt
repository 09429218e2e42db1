-- ===== src/StrictJson/Hooks.antt =====
-- The hooks that strict_json.py gives the parser: `_unique_object` and `_decimal_integer`.
use Prim.Native.Char.{Char, code}
use native.Mathlib.Nat.{pow-suc, mul-le-mul_right, add-mul, mul_assoc, mul_comm}
use mathlib.Core.List.{append-nil, append_assoc}
use defiant_agent_harness.Common.{
  ℕ, suc, ◌+◌, ◌*◌, ◌-◌, ◌^◌, ◌≤◌, ◌<◌, String, Bool, true, false, ◌&&◌, ◌||◌, not, ◌≡◌, refl, ◌∙◌,
  none, some, List, [], ◌∷◌, ◌++◌, eqb, leb, ◌==◌, eq_iff, if◌then◌else◌, inl, inr, Bool-cases,
  arith,
}
use defiant_agent_harness.Common.Dict.{Dict, lookup, insert}
use defiant_agent_harness.Common.Int.{ℤ, pos, sub_ℕ}
use defiant_agent_harness.Common.Text.{len}
use defiant_agent_harness.Common.Result.{Result, ok, err}
use defiant_agent_harness.StrictJson.Scan.{StrictJsonError}

module _ {ℓ} {V : Type ℓ} where
  -- `key in result`
  unfoldable pub has_key : String → Dict V → Bool
  has_key k d = elim (lookup k d) [ none ↦ false | some v ↦ true ]

  -- The loop of `_unique_object`.
  unfoldable pub unique_from : Dict V → List (String × V) → Result StrictJsonError (Dict V)
  unique_from result [] = ok result
  unique_from result ((k, v) ∷ pairs) =
      let rest = unique_from (insert k v result) pairs in
      if has_key k result then err StrictJsonError.duplicate_key else rest

  unfoldable pub unique_object : List (String × V) → Result StrictJsonError (Dict V)
  unique_object pairs = unique_from [] pairs

  -- No key of the pairs is used twice.
  unfoldable pub are_distinct : List (String × V) → Bool
  are_distinct [] = true
  are_distinct ((k, v) ∷ pairs) = not (has_key k pairs) && are_distinct pairs

  -- No key of the pairs is used in the other.
  unfoldable pub are_new : Dict V → List (String × V) → Bool
  are_new d [] = true
  are_new d ((k, v) ∷ pairs) = not (has_key k d) && are_new d pairs

  insert_new :
      (k : String) (v : V) (d : Dict V) → has_key k d ≡ false → insert k v d ≡ d ++ (k, v) ∷ []
  unfolding insert has_key lookup
  insert_new k v [] h = refl
  insert_new k v ((j, w) ∷ d) h = ground (arith, insert_new k v d)

  has_key-append :
      (j k : String) (v : V) (d : Dict V) → has_key j (d ++ (k, v) ∷ []) ≡ (has_key j d || k == j)
  unfolding has_key lookup
  has_key-append j k v [] = ground arith
  has_key-append j k v ((i, w) ∷ d) = ground (arith, has_key-append j k v d)

  are_new-append :
      (k : String) (v : V) (d : Dict V) (pairs : List (String × V))
      → are_new (d ++ (k, v) ∷ []) pairs ≡ (are_new d pairs && not (has_key k pairs))
  unfolding are_new has_key lookup
  are_new-append k v d [] = ground arith
  are_new-append k v d ((j, w) ∷ pairs) =
      ground (arith, are_new-append k v d pairs, has_key-append j k v d, eq_iff j k, eq_iff k j)

  unique_from-distinct :
      (d : Dict V) (pairs : List (String × V))
      → unique_from d pairs ≡ (
          if are_new d pairs && are_distinct pairs
          then ok (d ++ pairs)
          else err StrictJsonError.duplicate_key)
  unfolding unique_from are_new are_distinct
  unique_from-distinct d [] = rw (append-nil d) refl
  unique_from-distinct d ((k, v) ∷ pairs) = elim (Bool-cases (has_key k d)) [
    | inl e ↦ rw e refl
    | inr e ↦
        rw
          (
            e,
            insert_new k v d e,
            unique_from-distinct (d ++ (k, v) ∷ []) pairs,
            are_new-append k v d pairs,
            append_assoc d ((k, v) ∷ []) pairs,
          )
          (ground arith)
  ]

  are_new-nil : (pairs : List (String × V)) → are_new [] pairs ≡ true
  unfolding are_new has_key lookup
  are_new-nil [] = refl
  are_new-nil ((k, v) ∷ pairs) = are_new-nil pairs

  -- An object is accepted exactly when no key stands in it twice, and then with its pairs as they
  -- stand; otherwise the error is that of a duplicate key.
  pub unique_object-distinct :
      (pairs : List (String × V))
      → unique_object pairs
        ≡ (if are_distinct pairs then ok pairs else err StrictJsonError.duplicate_key)
  unfolding unique_object
  unique_object-distinct pairs = rw (unique_from-distinct [] pairs, are_new-nil pairs) refl

-- `ord(character) - ord("0")`, of a digit.
abbrev pub digit_of : Char → ℕ
digit_of c = code c - 48

-- The loop of `_decimal_integer`.
unfoldable pub decimal_from : ℕ → String → ℕ
decimal_from result String.[] = result
decimal_from result (String.◌∷◌ c s) = decimal_from (result * 10 + digit_of c) s

unfoldable pub decimal_integer : String → ℤ
decimal_integer String.[] = pos 0
decimal_integer (String.◌∷◌ c s) =
    if eqb (code c) 45 then sub_ℕ 0 (decimal_from 0 s) else pos (decimal_from 0 (String.◌∷◌ c s))

-- Each digit times the power of ten of its place.
unfoldable pub place_value : String → ℕ
place_value String.[] = 0
place_value (String.◌∷◌ c s) = digit_of c * 10 ^ len s + place_value s

unfoldable pub are_digits : String → Bool
are_digits String.[] = true
are_digits (String.◌∷◌ c s) = (leb 48 (code c) && leb (code c) 57) && are_digits s

digit_bound : (d p : ℕ) → d ≤ 9 → d * p ≤ 9 * p
digit_bound d p h = mul-le-mul_right p h

shift_digit : (r d p q v : ℕ) → q ≡ p * 10 → (r * 10 + d) * p + v ≡ r * q + (d * p + v)
shift_digit r d p q v h =
    rw (h, add-mul (r * 10) d p, mul_assoc r 10 p, mul_comm 10 p) (omega arith)

decimal_from-place_value : (r : ℕ) (s : String) → decimal_from r s ≡ r * 10 ^ len s + place_value s
unfolding decimal_from place_value len
decimal_from-place_value r String.[] = omega arith
decimal_from-place_value r (String.◌∷◌ c s) =
    decimal_from-place_value (r * 10 + digit_of c) s
    ∙ shift_digit r (digit_of c) (10 ^ len s) (10 ^ suc (len s)) (place_value s)
        (pow-suc 10 (len s))

place_value-lt : (s : String) → are_digits s ≡ true → place_value s < 10 ^ len s
unfolding place_value are_digits len
place_value-lt String.[] h = omega arith
place_value-lt (String.◌∷◌ c s) h =
    ground (arith, place_value-lt s, digit_bound (digit_of c) (10 ^ len s), pow-suc 10 (len s))

horner_lem : (s : String) → decimal_from 0 s ≡ place_value s
horner_lem s = omega (arith, decimal_from-place_value 0 s)

-- A token of digits is the number that it writes in base ten, less than ten to its length; with a
-- minus sign before it, that number's negation.
pub decimal_integer-place_value :
    (s : String)
    → are_digits s ≡ true
    → (decimal_integer s ≡ pos (place_value s))
      × (decimal_integer (String.◌∷◌ "-" s) ≡ sub_ℕ 0 (place_value s))
      × (place_value s < 10 ^ len s)
unfolding decimal_integer are_digits decimal_from place_value
decimal_integer-place_value String.[] h = (refl, refl, place_value-lt "" h)
decimal_integer-place_value (String.◌∷◌ c s) h = (
  ground (arith, horner_lem (String.◌∷◌ c s)),
  rw (horner_lem (String.◌∷◌ c s)) refl,
  place_value-lt (String.◌∷◌ c s) h,
)
