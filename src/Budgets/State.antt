-- ===== src/Budgets/State.antt =====
-- Reading, checking and writing the ledger file, and what it says of one action.
use text.Mathlib.Text.{starts_with}
use mathlib.Core.List.{reverse}
use native.Mathlib.Omega.{arith}
use mathlib.Core.Path.{◌≡◌}
use mathlib.Core.Logic.{◌⊎◌, inl, inr}
use defiant_agent_harness.Common.Files.{Saved, Saved-cases}
use defiant_agent_harness.Common.{
  ℕ, String, Option, none, some, List, [], ◌∷◌, Bool, true, false, ◌&&◌, not, all, select, eqb,
  ◌==◌, if◌then◌else◌,
}
use defiant_agent_harness.Common.Int.{ℤ, pos, ◌-ℤ◌}
use defiant_agent_harness.Common.Dict.{lookup, erase, total}
use defiant_agent_harness.Common.Text.{strip}
use defiant_agent_harness.Common.Result.{Result, ok, err, ◌>>=◌, ◌>>◌, require, or_raise}
use defiant_agent_harness.Money.{MoneyLike, money}
use defiant_agent_harness.Budgets.Types.{
  Kind, Reservation, Reconciliation, LedgerEntry, Authority, Ledger, BudgetError,
}

abbrev pub nonempty : String → Bool
nonempty s = not (s == "")

-- A text that is not blank: `bool(s.strip())`.
unfoldable pub filled : String → Bool
filled s = nonempty (strip s)

-- `_text(value, name, required=True)` of a text.
abbrev pub required_text : String → Result BudgetError (Unit {0})
required_text s = require (nonempty s) BudgetError.missing_text

-- `money(value, field_name=...)`
unfoldable pub amount_of : MoneyLike → Result BudgetError ℕ
unfolding money
amount_of m = elim (money m) [ ok n ↦ ok n | err e ↦ err (BudgetError.bad_money e) ]

-- The three loops of `_validate`.
unfoldable pub check_reservation : String × Reservation → Bool
check_reservation (action_id, r) =
    nonempty action_id && not (eqb r.amount 0) && nonempty r.request_id && nonempty r.created_at

abbrev pub check_authority : Option Authority → Bool
check_authority none = true
check_authority (some a) = filled a.record_id && filled a.record_hash

unfoldable pub check_reconciliation : String × Reconciliation → Bool
check_reconciliation (action_id, r) =
    nonempty action_id
    && filled r.request_id
    && filled r.reconciled_by
    && filled r.note
    && filled r.at
    && check_authority r.authority

abbrev pub check_record_id : Option String → Bool
check_record_id none = true
check_record_id (some id) = starts_with id "evd_"

unfoldable pub check_entry : LedgerEntry → Bool
check_entry e = nonempty e.at && check_record_id e.completion_record_id

-- `_validate`
unfoldable pub validate : Ledger → Result BudgetError Ledger
validate d = do
  require (all check_reservation d.reservations) BudgetError.invalid_reservation
  require (all check_reconciliation d.reconciliations) BudgetError.invalid_reconciliation
  require (all check_entry d.entries) BudgetError.invalid_entry
  ok d

-- `_available`: the balance less all live reservations.
unfoldable pub available : Ledger → ℤ
available d = d.balance -ℤ pos (total (λ r. r.amount) d.reservations)

-- `_pop_reservation`
unfoldable pub pop_reservation : Ledger → String → String → Result BudgetError (ℕ × Ledger)
pop_reservation d request_id action_id = do
  reservation ← or_raise (lookup action_id d.reservations) BudgetError.no_reservation
  require (reservation.request_id == request_id) BudgetError.request_mismatch
  ok (reservation.amount, record d { reservations = erase action_id d.reservations })

-- An entry is about one request and action.
abbrev pub concerns : String → String → LedgerEntry → Bool
concerns request_id action_id e = e.request_id == request_id && e.action_id == action_id

abbrev pub is_disposition : Kind → Bool
is_disposition Kind.debit = true
is_disposition Kind.release = true
is_disposition Kind.reconcile = true
is_disposition _ = false

abbrev pub is_reserve : Kind → Bool
is_reserve Kind.reserve = true
is_reserve _ = false

abbrev pub is_debit : Kind → Bool
is_debit Kind.debit = true
is_debit _ = false

abbrev pub is_release : Kind → Bool
is_release Kind.release = true
is_release _ = false

-- The entries that already disposed of the action's budget.
unfoldable pub prior_dispositions : Ledger → String → String → List LedgerEntry
prior_dispositions d request_id action_id =
    select (λ e. concerns request_id action_id e && is_disposition e.kind) d.entries

-- `_latest_budget_disposition`, on the entries from the last to the first.
pub data Latest : Type 0 where
  debited released undisposed : Latest

abbrev pub disposition_of : Kind → Option Latest
disposition_of Kind.debit = some Latest.debited
disposition_of Kind.reconcile_debit = some Latest.debited
disposition_of Kind.release = some Latest.released
disposition_of Kind.reconcile_release = some Latest.released
disposition_of _ = none

unfoldable pub latest_from : String → String → List LedgerEntry → Latest
latest_from request_id action_id [] = Latest.undisposed
latest_from request_id action_id (e ∷ es) =
    let rest = latest_from request_id action_id es in
    if concerns request_id action_id e
    then (elim (disposition_of e.kind) [ some l ↦ l | none ↦ rest ])
    else rest

unfoldable pub latest_budget_disposition : List LedgerEntry → String → String → Latest
latest_budget_disposition entries request_id action_id =
    latest_from request_id action_id (reverse entries)

-- What stands in the file after a call that raised.
unfoldable pub left_by : BudgetError → Ledger → Ledger
left_by (BudgetError.unsynced d) l = d
left_by e l = l

-- What an answer of the file system comes to. A file that was replaced may raise still, and the error
-- then carries what stands in the file.
unfoldable pub outcome : Saved → Ledger → Result BudgetError (Unit {0})
outcome Saved.saved d = ok tt
outcome Saved.refused d = err BudgetError.write_failed
outcome Saved.unsynced d = err (BudgetError.unsynced d)

-- `_write` and the end of `_append`: the document is checked, and replaces the file if it can be
-- written. `writes` is the file system's answer, its size limit included.
module _ (writes : Ledger → Saved) where
  unfoldable pub write : Ledger → Result BudgetError (Unit {0})
  write d = do document ← validate d; outcome (writes document) document

-- What is read is what the file holds, or one of three errors.
pub validate_outcomes :
    (d : Ledger)
    → (validate d ≡ ok d)
      ⊎ (validate d ≡ err BudgetError.invalid_reservation)
      ⊎ (validate d ≡ err BudgetError.invalid_reconciliation)
      ⊎ (validate d ≡ err BudgetError.invalid_entry)
unfolding validate
validate_outcomes d = ground arith

pub validate_cases : (d : Ledger) → (validate d ≡ ok d) ⊎ ((e : BudgetError) × (validate d ≡ err e))
validate_cases d = elim (validate_outcomes d) [
  | inl h ↦ inl h
  | inr (inl h) ↦ inr (BudgetError.invalid_reservation, h)
  | inr (inr (inl h)) ↦ inr (BudgetError.invalid_reconciliation, h)
  | inr (inr (inr h)) ↦ inr (BudgetError.invalid_entry, h)
]

-- A write ends, raises with the document in the file's place, or raises one of four errors before.
pub write_outcomes :
    (writes : Ledger → Saved) (d : Ledger)
    → (write writes d ≡ ok tt)
      ⊎ (write writes d ≡ err (BudgetError.unsynced d))
      ⊎ (write writes d ≡ err BudgetError.write_failed)
      ⊎ (write writes d ≡ err BudgetError.invalid_reservation)
      ⊎ (write writes d ≡ err BudgetError.invalid_reconciliation)
      ⊎ (write writes d ≡ err BudgetError.invalid_entry)
unfolding write outcome
write_outcomes writes d = ground (arith, validate_outcomes d, Saved-cases (writes d))

-- What was written passed the checks.
pub write_inv :
    (writes : Ledger → Saved) (d : Ledger)
    → write writes d ≡ ok tt
    → (validate d ≡ ok d) × (writes d ≡ Saved.saved)
unfolding write outcome
write_inv writes d h = ground (arith, validate_cases d)
