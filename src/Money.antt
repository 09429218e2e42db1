-- ===== src/Money.antt =====
-- money.py: validated amounts of money. A finite decimal is a whole number of a fixed smallest
-- unit, so an accepted amount is a natural number; sums of amounts are exact.
use defiant_agent_harness.Common.{ℕ}
use defiant_agent_harness.Common.Int.{ℤ, pos, negsuc}
use defiant_agent_harness.Common.Result.{Result, ok, err}

-- What a caller may hand over as an amount: a number, or what `Decimal` makes of anything else.
pub data MoneyLike : Type 0 where
  boolean : MoneyLike
  malformed : MoneyLike
  nan : MoneyLike
  infinite : MoneyLike
  finite : ℤ → MoneyLike

pub data MoneyError : Type 0 where
  is_boolean : MoneyError
  not_a_number : MoneyError
  not_finite : MoneyError
  is_negative : MoneyError

unfoldable pub money : MoneyLike → Result MoneyError ℕ
money MoneyLike.boolean = err MoneyError.is_boolean
money MoneyLike.malformed = err MoneyError.not_a_number
money MoneyLike.nan = err MoneyError.not_finite
money MoneyLike.infinite = err MoneyError.not_finite
money (MoneyLike.finite (pos n)) = ok n
money (MoneyLike.finite (negsuc n)) = err MoneyError.is_negative
