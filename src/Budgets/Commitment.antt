-- ===== src/Budgets/Commitment.antt =====
-- What a reservation commits: `reserve` of budgets/ledger.py against the available balance.
use defiant_agent_harness.Common.Files.{Saved}
use defiant_agent_harness.Common.{ℕ, String, ◌≡◌, ◌<◌, some, none, arith}
use defiant_agent_harness.Common.Int.{pos, ◌+ℤ◌, ◌≤ℤ◌, int_laws, parts_of_eq}
use defiant_agent_harness.Common.Dict.{lookup, total-insert, lookup-insert_self}
use defiant_agent_harness.Common.Result.{ok}
use defiant_agent_harness.Money.{MoneyLike}
use defiant_agent_harness.Budgets.Types.{Reservation, Ledger}
use defiant_agent_harness.Budgets.State.{validate, available, validate_cases, write_inv}
use defiant_agent_harness.Budgets.Operations.{record_reservation, reserve}

abbrev pub reservation : ℕ → String → String → Reservation
reservation amount request_id created_at = record {
  request_id = request_id;
  amount = amount;
  created_at = created_at;
}

-- The new reservation takes its amount from the available balance.
pub available-record_reservation :
    (n : ℕ) (request_id action_id created_at at : String) (l : Ledger)
    → lookup action_id l.reservations ≡ none
    → available (record_reservation n request_id action_id created_at at l) +ℤ pos n ≡ available l
unfolding available record_reservation
available-record_reservation n request_id action_id created_at at l absent = omega (
  int_laws,
  total-insert (λ (r : Reservation). r.amount) action_id (reservation n request_id created_at)
      l.reservations absent,
)

module _ (writes : Ledger → Saved) (n : ℕ) (request_id action_id created_at at : String)
    (l l' : Ledger)
    (reserved : reserve writes (MoneyLike.finite (pos n)) request_id action_id created_at at l
      ≡ ok (tt, l')) where
  pub reserve_inv :
      (lookup action_id l.reservations ≡ none)
      × (pos n ≤ℤ available l)
      × (l' ≡ record_reservation n request_id action_id created_at at l)
      × (validate l' ≡ ok l')
      × (0 < n)
  unfolding reserve
  reserve_inv = ground (
    arith,
    validate_cases l,
    write_inv writes (record_reservation n request_id action_id created_at at l),
  )

  -- A successful `reserve` of a positive amount for an action without a reservation writes exactly
  -- that reservation, lowers the available balance by its amount, and leaves it at 0 or more.
  pub available-reserve :
      (available l' +ℤ pos n ≡ available l)
      × (pos 0 ≤ℤ available l')
      × (lookup action_id l'.reservations ≡ some (reservation n request_id created_at))
      × (0 < n)
  available-reserve =
      let (absent, fits, shape, _, positive) = reserve_inv in
      let taken = available-record_reservation n request_id action_id created_at at l absent in
      rw shape (
        taken,
        omega (int_laws, parts_of_eq taken, fits),
        unfold record_reservation in
            lookup-insert_self action_id (reservation n request_id created_at) l.reservations,
        positive,
      )
