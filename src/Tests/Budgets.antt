-- ===== src/Tests/Budgets.antt =====
-- Concrete runs of the budget ledger.
use defiant_agent_harness.Common.Files.{Saved}
use defiant_agent_harness.Common.{String, ◌≡◌, ◌≢◌, ◌⊎◌, ◌<◌, refl, none, some, List, [], ◌∷◌}
use defiant_agent_harness.Common.Int.{ℤ, pos, ◌+ℤ◌, ◌-ℤ◌, ◌≤ℤ◌}
use defiant_agent_harness.Common.Dict.{IsUnique, lookup, insert, erase, total}
use defiant_agent_harness.Common.Text.{strip}
use defiant_agent_harness.Common.Result.{Result, ok}
use defiant_agent_harness.Money.{MoneyLike, money}
use defiant_agent_harness.Budgets.Types.{Outcome, Disposition, Ledger, Reconciliation, BudgetError}
use defiant_agent_harness.Budgets.State.{
  amount_of, validate, available, write, outcome, check_reservation, check_reconciliation,
  check_entry, filled, pop_reservation, prior_dispositions, latest_from, latest_budget_disposition,
}
use defiant_agent_harness.Budgets.Operations.{
  reserve, record_reservation, record_debit, preview_settlement,
}
use defiant_agent_harness.Budgets.Journaled.{settled_before, settle_once, ensure_settlement}
use defiant_agent_harness.Budgets.Reconcile.{
  Supplied, matches_supplied, dispose, check_live, record_reconciliation, reconcile_supplied,
}
use defiant_agent_harness.Budgets.Commitment.{available-reserve, reservation}
use defiant_agent_harness.Budgets.Settlement.{preview-ensure_settlement}
use defiant_agent_harness.Budgets.Idempotence.{ensure_settlement_twice}
use defiant_agent_harness.Budgets.History.{Call, file_of, serve, granted, funds}
use defiant_agent_harness.Budgets.Conservation.{funds-serve}
use defiant_agent_harness.Budgets.Disposition.{reconcile_twice, reconcile_sums}

abbrev writes : Ledger → Saved
writes l = Saved.saved

abbrev untouched : Ledger
untouched = record {
  balance = pos 100;
  total_spent = pos 0;
  total_estimated = pos 0;
  reservations = [];
  reconciliations = [];
  entries = [];
}

-- 30 of the 100 are reserved for the action a1 of the request r1.
abbrev reserved : Ledger
reserved = record {
  balance = pos 100;
  total_spent = pos 0;
  total_estimated = pos 30;
  reservations = ("a1", reservation 30 "r1" "t0") ∷ [];
  reconciliations = [];
  entries = [];
}

abbrev reserving : Result BudgetError (Unit {0} × Ledger)
reserving = reserve writes (MoneyLike.finite (pos 30)) "r1" "a1" "t0" "t1" untouched

abbrev after_reserve : Ledger
after_reserve = file_of reserving untouched

reserve_runs : reserving ≡ ok (tt, after_reserve)
unfolding reserve write outcome validate available record_reservation check_reservation
    check_reconciliation check_entry filled pop_reservation prior_dispositions latest_from
    latest_budget_disposition amount_of money record_debit preview_settlement settled_before
    settle_once ensure_settlement matches_supplied dispose check_live record_reconciliation
    reconcile_supplied lookup insert erase total ◌+ℤ◌ ◌-ℤ◌ strip
reserve_runs = refl

available-reserve_example :
    (available after_reserve +ℤ pos 30 ≡ available untouched)
    × (pos 0 ≤ℤ available after_reserve)
    × (lookup "a1" after_reserve.reservations ≡ some (reservation 30 "r1" "t0"))
    × (0 < 30)
available-reserve_example =
    available-reserve writes 30 "r1" "a1" "t0" "t1" untouched after_reserve reserve_runs

-- The reserved action cost 25.
abbrev settling : String → Ledger → Result BudgetError (ℤ × Ledger)
settling at l =
    ensure_settlement writes (MoneyLike.finite (pos 30)) (MoneyLike.finite (pos 25)) "r1" "a1"
      "evd_1" at l

abbrev after_settlement : Ledger
after_settlement = file_of (settling "t1" reserved) reserved

settlement_runs : settling "t1" reserved ≡ ok (pos 75, after_settlement)
unfolding reserve write outcome validate available record_reservation check_reservation
    check_reconciliation check_entry filled pop_reservation prior_dispositions latest_from
    latest_budget_disposition amount_of money record_debit preview_settlement settled_before
    settle_once ensure_settlement matches_supplied dispose check_live record_reconciliation
    reconcile_supplied lookup insert erase total ◌+ℤ◌ ◌-ℤ◌ strip
settlement_runs = refl

ensure_settlement_twice_example : settling "t2" after_settlement ≡ ok (pos 75, after_settlement)
ensure_settlement_twice_example =
    ensure_settlement_twice writes 30 25 "r1" "a1" "evd_1" "t1" "t2" reserved after_settlement
      (pos 75) settlement_runs

reserved-IsUnique : IsUnique reserved.reservations
unfolding lookup
reserved-IsUnique = (refl, tt)

preview_runs :
    preview_settlement (MoneyLike.finite (pos 30)) (MoneyLike.finite (pos 25)) "r1" "a1" reserved
    ≡ ok (pos 75)
unfolding reserve write outcome validate available record_reservation check_reservation
    check_reconciliation check_entry filled pop_reservation prior_dispositions latest_from
    latest_budget_disposition amount_of money record_debit preview_settlement settled_before
    settle_once ensure_settlement matches_supplied dispose check_live record_reconciliation
    reconcile_supplied lookup insert erase total ◌+ℤ◌ ◌-ℤ◌ strip
preview_runs = refl

preview-ensure_settlement_example : pos 75 ≡ pos 75
preview-ensure_settlement_example =
    preview-ensure_settlement writes 30 25 "r1" "a1" "evd_1" "t1" reserved after_settlement (pos 75)
      (pos 75) reserved-IsUnique preview_runs settlement_runs

abbrev calls : List Call
calls =
    Call.grant (MoneyLike.finite (pos 50)) "top-up" "t0"
    ∷ Call.reserve (MoneyLike.finite (pos 30)) "r1" "a1" "t1" "t1"
    ∷ Call.reserve (MoneyLike.finite (pos 900)) "r1" "a2" "t2" "t2"
    ∷ Call.ensure_settlement (MoneyLike.finite (pos 30)) (MoneyLike.finite (pos 25)) "r1" "a1"
        "evd_1" "t3"
    ∷ []

funds-serve_example :
    funds (serve writes calls untouched) ≡ funds untouched +ℤ pos (granted writes calls untouched)
funds-serve_example = funds-serve writes calls untouched

-- The operator finds that the reserved action was not executed.
abbrev supplied : Supplied
supplied = record {
  request_id = "r1";
  outcome = Outcome.not_executed;
  reconciled_by = "op";
  note = "checked";
  expected = 30;
  authority = none;
}

abbrev reconciling : String → Ledger → Result BudgetError (Reconciliation × Ledger)
reconciling at l = reconcile_supplied writes supplied "a1" at at l

abbrev reconciliation : Reconciliation
reconciliation = record {
  request_id = "r1";
  outcome = Outcome.not_executed;
  reconciled_by = "op";
  note = "checked";
  expected = 30;
  authority = none;
  charged = 0;
  released = 30;
  disposition = Disposition.reservation_released;
  remaining = pos 100;
  at = "t1";
}

abbrev after_reconciliation : Ledger
after_reconciliation = file_of (reconciling "t1" reserved) reserved

reconciliation_runs : reconciling "t1" reserved ≡ ok (reconciliation, after_reconciliation)
unfolding reserve write outcome validate available record_reservation check_reservation
    check_reconciliation check_entry filled pop_reservation prior_dispositions latest_from
    latest_budget_disposition amount_of money record_debit preview_settlement settled_before
    settle_once ensure_settlement matches_supplied dispose check_live record_reconciliation
    reconcile_supplied lookup insert erase total ◌+ℤ◌ ◌-ℤ◌ strip
reconciliation_runs = refl

reconcile_twice_example :
    reconciling "t2" after_reconciliation ≡ ok (reconciliation, after_reconciliation)
reconcile_twice_example =
    reconcile_twice writes supplied "a1" "t1" "t1" reserved after_reconciliation reconciliation "t2"
      "t2" reconciliation_runs

reconcile_sums_example :
    (after_reconciliation.balance +ℤ pos 0 ≡ reserved.balance)
    × (after_reconciliation.total_spent ≡ reserved.total_spent +ℤ pos 0)
    × (((Outcome.not_executed ≡ Outcome.not_executed)
          × (reconciliation.charged ≡ 0)
          × (available after_reconciliation ≡ available reserved +ℤ pos 30))
        ⊎ ((Outcome.not_executed ≢ Outcome.not_executed)
            × (reconciliation.released ≡ 0)
            × (available after_reconciliation ≤ℤ available reserved)))
unfolding lookup
reconcile_sums_example =
    reconcile_sums writes supplied "a1" "t1" "t1" reserved after_reconciliation reconciliation
      reserved-IsUnique refl reconciliation_runs
