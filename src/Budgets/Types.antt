-- ===== src/Budgets/Types.antt =====
-- What budgets/ledger.py keeps: the ledger file as a record. A balance may be negative, since an
-- action can cost more than it reserved; an amount may not.
use defiant_agent_harness.Common.{ℕ, String, Option}
use defiant_agent_harness.Common.Int.{ℤ}
use defiant_agent_harness.Common.Dict.{Dict}
use defiant_agent_harness.Money.{MoneyError}
use defiant_agent_harness.Common.{List}

pub data Outcome : Type 0 where
  succeeded failed not_executed : Outcome

-- `kind` of an entry. The last three are read from older files and never written.
pub data Kind : Type 0 where
  grant reserve debit release reconcile : Kind
  reconcile_debit reconcile_release other : Kind

pub data Disposition : Type 0 where
  reservation_released prior_debit_preserved no_live_reservation : Disposition
  reservation_charged missing_reservation_charged no_budget_exposure : Disposition

-- The note of an entry: the caller's words, or one of the three texts that the ledger composes.
pub data Note : Type 0 where
  text : String → Note
  reserved : ℕ → Note
  did_not_execute : Note
  reconciled : Outcome → String → Disposition → String → Note

pub record LedgerEntry : Type 0 where
  pub kind : Kind
  pub amount : ℕ
  pub balance_after : ℤ
  pub request_id : String
  pub action_id : String
  pub note : Note
  pub at : String
  pub completion_record_id : Option String

pub record Reservation : Type 0 where
  pub request_id : String
  pub amount : ℕ
  pub created_at : String

-- The sealed authorization that a reconciliation without an approval rests on; the attestation is
-- the operator's signed statement as canonical JSON.
pub record Authority : Type 0 where
  pub record_id : String
  pub record_hash : String
  pub attestation : Option String

pub record Reconciliation : Type 0 where
  pub request_id : String
  pub outcome : Outcome
  pub reconciled_by : String
  pub note : String
  pub expected : ℕ
  pub authority : Option Authority
  pub charged : ℕ
  pub released : ℕ
  pub disposition : Disposition
  pub remaining : ℤ
  pub at : String

pub record Ledger : Type 0 where
  pub balance : ℤ
  pub total_spent : ℤ
  pub total_estimated : ℤ
  pub reservations : Dict Reservation
  pub reconciliations : Dict Reconciliation
  pub entries : List LedgerEntry

-- `ok` of a check, with the reason where it is false.
pub data Verdict : Type 0 where
  within over_request_limit over_balance : Verdict

pub record BudgetCheck : Type 0 where
  pub verdict : Verdict
  pub remaining : ℤ
  pub estimate : ℕ

pub data BudgetError : Type 0 where
  bad_money : MoneyError → BudgetError
  missing_text : BudgetError
  invalid_reservation invalid_reconciliation invalid_entry : BudgetError
  zero_reservation already_reserved insufficient_balance : BudgetError
  reservation_conflict no_reservation request_mismatch amount_mismatch : BudgetError
  prior_disposition unexpected_reservation bad_record_id : BudgetError
  missing_authority_ids different_input : BudgetError
  write_failed : BudgetError
  unsynced : Ledger → BudgetError
