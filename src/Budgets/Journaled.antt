-- ===== src/Budgets/Journaled.antt =====
-- The operations that recovery replays: each applies its change, or recognises that it was made.
use text.Mathlib.Text.{starts_with}
use mathlib.Core.List.{reverse}
use defiant_agent_harness.Common.Files.{Saved}
use defiant_agent_harness.Common.{
  ℕ, String, Option, none, some, List, [], ◌∷◌, Bool, ◌&&◌, true, false, select, eqb, ltb, length,
  ◌==◌, if◌then◌else◌,
}
use defiant_agent_harness.Common.Int.{ℤ}
use defiant_agent_harness.Common.Dict.{lookup, erase}
use defiant_agent_harness.Common.Result.{Result, ok, err, ◌>>=◌, ◌>>◌, require, refuse}
use defiant_agent_harness.Money.{MoneyLike}
use defiant_agent_harness.Budgets.Types.{Note, LedgerEntry, Ledger, BudgetError}
use defiant_agent_harness.Budgets.State.{
  required_text, amount_of, validate, available, pop_reservation, concerns, is_debit, is_release,
  prior_dispositions, write,
}
use defiant_agent_harness.Budgets.Operations.{record_debit, record_release}

abbrev pub is_reserved_note : ℕ → Note → Bool
is_reserved_note n (Note.reserved m) = eqb m n
is_reserved_note n _ = false

abbrev pub names_record : String → Option String → Bool
names_record id none = false
names_record id (some id') = id' == id

-- The debit that this very settlement wrote.
abbrev pub is_settlement : ℕ → ℕ → String → LedgerEntry → Bool
is_settlement expected actual record_id e =
    is_debit e.kind
    && eqb e.amount actual
    && is_reserved_note expected e.note
    && names_record record_id e.completion_record_id

-- The test `len(prior) == 1 and len(matching) == 1`, then the errors, of `ensure_settlement`
-- where no reservation is live. `true`: the settlement was made before.
unfoldable pub settled_before : ℕ → ℕ → String → List LedgerEntry → Result BudgetError Bool
settled_before expected actual record_id prior =
    let matching = select (is_settlement expected actual record_id) prior in
    if eqb (length prior) 1 && eqb (length matching) 1
    then ok true
    else if ltb 0 (length prior)
    then err BudgetError.prior_disposition
    else if ltb 0 expected
    then err BudgetError.no_reservation
    else ok false

-- `prior_debit_for`
unfoldable pub prior_debit_for : String → String → Ledger → Result BudgetError (Option ℕ)
prior_debit_for request_id action_id file = do
  required_text request_id
  required_text action_id
  d ← validate file
  ok (latest_debit (reverse d.entries))
  where
    latest_debit : List LedgerEntry → Option ℕ
    latest_debit [] = none
    latest_debit (e ∷ es) =
        let rest = latest_debit es in
        if is_debit e.kind && concerns request_id action_id e then some e.amount else rest

-- `reservation_for`
unfoldable pub reservation_for : String → Ledger → Result BudgetError ℕ
reservation_for action_id file = do
  required_text action_id
  d ← validate file
  elim (lookup action_id d.reservations) [ some r ↦ ok r.amount | none ↦ ok 0 ]

module _ (writes : Ledger → Saved) where
  -- `ensure_settlement` from the lock on, on the ledger that was read.
  unfoldable pub settle_once :
      ℕ → ℕ → String → String → String → String → Ledger → Result BudgetError (ℤ × Ledger)
  settle_once expected actual request_id action_id record_id at d =
      let prior = prior_dispositions d request_id action_id in
      let post =
        λ (d' : Ledger). record_debit expected actual request_id action_id (some record_id) at d' in
      elim (lookup action_id d.reservations) [
        | none ↦ do
          done ← settled_before expected actual record_id prior
          if done
              then ok (available d, d)
              else (do write writes (post d); ok (available (post d), post d))
        | some r ↦ do
          refuse (ltb 0 (length prior)) BudgetError.prior_disposition
          require (r.request_id == request_id && eqb r.amount expected) BudgetError.amount_mismatch
          let d' = record d { reservations = erase action_id d.reservations }
          write writes (post d')
          ok (available (post d'), post d')
      ]

  unfoldable pub ensure_settlement :
      MoneyLike
      → MoneyLike
      → String
      → String
      → String
      → String
      → Ledger
      → Result BudgetError (ℤ × Ledger)
  unfolding amount_of
  ensure_settlement expected_usd actual_usd request_id action_id record_id at file = do
    expected ← amount_of expected_usd
    actual ← amount_of actual_usd
    required_text request_id
    required_text action_id
    required_text record_id
    require (starts_with record_id "evd_") BudgetError.bad_record_id
    d ← validate file
    settle_once expected actual request_id action_id record_id at d

  -- `ensure_release` from the lock on.
  unfoldable pub release_once :
      ℕ → String → String → String → Ledger → Result BudgetError (ℤ × Ledger)
  release_once expected request_id action_id at d = elim (lookup action_id d.reservations) [
    | none ↦
        let matching =
          select
            (λ e. is_release e.kind && concerns request_id action_id e && eqb e.amount expected)
            d.entries in
        if ltb 0 (length matching) then ok (available d, d) else err BudgetError.no_reservation
    | some r ↦ do
      require (r.request_id == request_id && eqb r.amount expected) BudgetError.reservation_conflict
      (reserved, d') ← pop_reservation d request_id action_id
      let d'' = record_release reserved request_id action_id at d'
      write writes d''
      ok (available d'', d'')
  ]

  unfoldable pub ensure_release :
      MoneyLike → String → String → String → Ledger → Result BudgetError (ℤ × Ledger)
  unfolding amount_of
  ensure_release expected_usd request_id action_id at file = do
    expected ← amount_of expected_usd
    required_text request_id
    required_text action_id
    d ← validate file
    if eqb expected 0 then ok (available d, d) else release_once expected request_id action_id at d
