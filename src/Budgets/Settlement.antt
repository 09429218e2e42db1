-- ===== src/Budgets/Settlement.antt =====
-- Settling what was reserved: `preview_settlement` and `ensure_settlement` of budgets/ledger.py.
use defiant_agent_harness.Common.Files.{Saved}
use defiant_agent_harness.Common.{
  ℕ, String, ◌≡◌, Option, some, true, false, arith, List, [], Option-cases, inl, inr, length,
  eq_nil_of_length,
}
use defiant_agent_harness.Common.Int.{ℤ, pos, ◌+ℤ◌, ◌-ℤ◌, int_laws, parts_of_eq}
use defiant_agent_harness.Common.Dict.{lookup, erase, IsUnique, total-erase}
use defiant_agent_harness.Common.Result.{ok}
use defiant_agent_harness.Money.{MoneyLike}
use defiant_agent_harness.Budgets.Types.{Reservation, LedgerEntry, Ledger}
use defiant_agent_harness.Budgets.State.{available, validate_cases, prior_dispositions}
use defiant_agent_harness.Budgets.Operations.{record_debit, preview_settlement}
use defiant_agent_harness.Budgets.Journaled.{ensure_settlement, settled_before, settle_once}

-- What the three answers of `settled_before` say of the dispositions that it was given.
pub settled_before_inv :
    (expected actual : ℕ) (record_id : String) (prior : List LedgerEntry)
    → settled_before expected actual record_id prior ≡ ok false
    → (prior ≡ []) × (expected ≡ 0)
unfolding settled_before
settled_before_inv expected actual record_id prior h = ground (arith, eq_nil_of_length prior)

pub settled_before-true :
    (expected actual : ℕ) (record_id : String) (prior : List LedgerEntry)
    → settled_before expected actual record_id prior ≡ ok true
    → length prior ≡ 1
unfolding settled_before
settled_before-true expected actual record_id prior h = ground arith

-- The balance less the live reservations, after a debit.
pub available-record_debit :
    (reserved actual : ℕ) (request_id action_id : String) (id : Option String) (at : String)
    (l : Ledger)
    → available (record_debit reserved actual request_id action_id id at l) +ℤ pos actual
      ≡ available l
unfolding available record_debit
available-record_debit reserved actual request_id action_id id at l = omega int_laws

-- Taking a reservation away frees its amount.
pub available-erase :
    (action_id : String) (r : Reservation) (l : Ledger)
    → IsUnique l.reservations
    → lookup action_id l.reservations ≡ some r
    → available (record l { reservations = erase action_id l.reservations })
      ≡ available l +ℤ pos r.amount
unfolding available
available-erase action_id r l unique found = omega (
  int_laws,
  total-erase (λ (x : Reservation). x.amount) action_id {v = r} l.reservations unique found,
)

-- The balance that `preview_settlement` computes is the one after the debit, with the reservation
-- and without.
available-settled :
    (expected actual : ℕ) (request_id action_id : String) (id : Option String) (at : String)
    (r : Reservation) (l : Ledger)
    → IsUnique l.reservations
    → lookup action_id l.reservations ≡ some r
    → r.amount ≡ expected
    → available (
        record_debit expected actual request_id action_id id at
          (record l { reservations = erase action_id l.reservations }))
      ≡ available l +ℤ pos expected -ℤ pos actual
available-settled expected actual request_id action_id id at r l unique found same = rw (← same) (
    omega (
      int_laws,
      parts_of_eq (available-erase action_id r l unique found),
      parts_of_eq (
          available-record_debit r.amount actual request_id action_id id at
            (record l { reservations = erase action_id l.reservations })),
    ))

available-unreserved :
    (expected actual : ℕ) (request_id action_id : String) (id : Option String) (at : String)
    (l : Ledger)
    → expected ≡ 0
    → available (record_debit expected actual request_id action_id id at l)
      ≡ available l +ℤ pos expected -ℤ pos actual
available-unreserved expected actual request_id action_id id at l none_reserved =
    omega
      (int_laws, parts_of_eq (available-record_debit expected actual request_id action_id id at l))

module _ (writes : Ledger → Saved) (expected actual : ℕ)
    (request_id action_id record_id at : String) (l l' : Ledger) (v w : ℤ) where
  -- What `preview_settlement` accepted, `ensure_settlement` leaves exactly the balance that was
  -- previewed, if no action has two reservations.
  pub preview-ensure_settlement :
      IsUnique l.reservations
      → preview_settlement
          (MoneyLike.finite (pos expected))
          (MoneyLike.finite (pos actual))
          request_id
          action_id
          l
        ≡ ok v
      → ensure_settlement writes
          (MoneyLike.finite (pos expected))
          (MoneyLike.finite (pos actual))
          request_id
          action_id
          record_id
          at
          l
        ≡ ok (w, l')
      → w ≡ v
  unfolding preview_settlement ensure_settlement settle_once
  preview-ensure_settlement unique p e = elim (Option-cases (lookup action_id l.reservations)) [
    | inl absent ↦ ground (
      arith,
      absent,
      validate_cases l,
      settled_before_inv expected actual record_id (prior_dispositions l request_id action_id),
      settled_before-true expected actual record_id (prior_dispositions l request_id action_id),
      available-unreserved expected actual request_id action_id (some record_id) at l,
    )
    | inr (r, found) ↦ ground (
      arith,
      found,
      validate_cases l,
      available-settled expected actual request_id action_id (some record_id) at r l unique found,
    )
  ]
