-- ===== src/Budgets/History.antt =====
-- A ledger file under any sequence of calls: what every one of them keeps.
use defiant_agent_harness.Common.Files.{Saved}
use defiant_agent_harness.Common.{ℕ, String, Option, List, [], ◌∷◌, ◌+◌}
use defiant_agent_harness.Common.Int.{ℤ, ◌+ℤ◌}
use defiant_agent_harness.Common.Result.{Result, ok, err}
use defiant_agent_harness.Money.{MoneyLike}
use defiant_agent_harness.Budgets.Types.{Outcome, Ledger, BudgetError}
use defiant_agent_harness.Budgets.State.{amount_of, left_by}
use defiant_agent_harness.Budgets.Operations
use defiant_agent_harness.Budgets.Operations.{
  record_reservation, record_debit, record_release, with_entry, entry,
}
use defiant_agent_harness.Budgets.Journaled
use defiant_agent_harness.Budgets.Reconcile.{reconcile_reservation}

-- A call of an operation that may write the file, with its arguments and the clock's readings.
pub data Call : Type 0 where
  grant : MoneyLike → String → String → Call
  reserve : MoneyLike → String → String → String → String → Call
  ensure_reservation : MoneyLike → String → String → String → String → Call
  settle : MoneyLike → String → String → String → Call
  ensure_settlement : MoneyLike → MoneyLike → String → String → String → String → Call
  release : String → String → String → Call
  ensure_release : MoneyLike → String → String → String → Call
  reconcile :
      MoneyLike
      → String
      → String
      → Outcome
      → String
      → String
      → String
      → String
      → Option String
      → String
      → String
      → Call

abbrev pub sum_of : MoneyLike → ℕ
sum_of m = elim (amount_of m) [ ok n ↦ n | err _ ↦ 0 ]

abbrev pub file_of : {A : Type 0} → Result BudgetError (A × Ledger) → Ledger → Ledger
file_of (ok (_, l')) l = l'
file_of (err e) l = left_by e l

module _ (writes : Ledger → Saved) where
  -- The file after one call, which may have raised.
  unfoldable pub call : Call → Ledger → Ledger
  call (Call.grant m note at) l = file_of (Operations.grant writes m note at l) l
  call (Call.reserve m r a c at) l = file_of (Operations.reserve writes m r a c at l) l
  call (Call.ensure_reservation m r a c at) l =
      file_of (Operations.ensure_reservation writes m r a c at l) l
  call (Call.settle m r a at) l = file_of (Operations.settle writes m r a at l) l
  call (Call.ensure_settlement e m r a id at) l =
      file_of (Journaled.ensure_settlement writes e m r a id at l) l
  call (Call.release r a at) l = file_of (Operations.release writes r a at l) l
  call (Call.ensure_release e r a at) l = file_of (Journaled.ensure_release writes e r a at l) l
  call (Call.reconcile e r a o by note id hash att at at') l =
      file_of (reconcile_reservation writes e r a o by note id hash att at at' l) l

  unfoldable pub serve : List Call → Ledger → Ledger
  serve [] l = l
  serve (c ∷ cs) l = serve cs (call c l)

  -- The amount that a call adds to the ledger: that of a grant whose document took the file's place,
  -- whether the call then returned or raised.
  unfoldable pub granted_by : Call → Ledger → ℕ
  granted_by (Call.grant m note at) l = elim (Operations.grant writes m note at l) [
    | ok _ ↦ sum_of m
    | err (BudgetError.unsynced d) ↦ sum_of m
    | err _ ↦ 0
  ]
  granted_by _ l = 0

  unfoldable pub granted : List Call → Ledger → ℕ
  granted [] l = 0
  granted (c ∷ cs) l = granted_by c l + granted cs (call c l)

-- Whatever was ever granted: what is left and what was spent.
abbrev pub funds : Ledger → ℤ
funds l = l.balance +ℤ l.total_spent
