-- ===== src/Budgets/Operations.antt =====
-- The operations of `BudgetLedger` that reserve, release and settle. Each takes the ledger file as
-- it stands and returns its answer with the file that it leaves; a raised error leaves the file, or
-- carries the document that took its place.
-- The clock's readings are arguments.
use mathlib.Core.List.{reverse}
use defiant_agent_harness.Common.Files.{Saved}
use defiant_agent_harness.Common.{
  ℕ, String, Option, none, some, List, [], ◌∷◌, ◌++◌, ◌&&◌, eqb, ltb, length, ◌==◌, if◌then◌else◌,
}
use defiant_agent_harness.Common.Int.{ℤ, pos, ◌+ℤ◌, ◌-ℤ◌, ltb_ℤ}
use defiant_agent_harness.Common.Dict.{lookup, insert}
use defiant_agent_harness.Common.Result.{Result, ok, err, ◌>>=◌, ◌>>◌, require, refuse}
use defiant_agent_harness.Money.{MoneyLike}
use defiant_agent_harness.Budgets.Types.{
  Kind, Note, Verdict, BudgetCheck, Reservation, LedgerEntry, Ledger, BudgetError,
}
use defiant_agent_harness.Budgets.State.{
  required_text, amount_of, validate, available, pop_reservation, concerns, is_reserve,
  prior_dispositions, write,
}

-- `LedgerEntry(kind, amount, balance_after, request_id=..., action_id=..., note=...)`
abbrev pub entry : Kind → ℕ → ℤ → String → String → Note → String → LedgerEntry
entry kind amount balance_after request_id action_id note at = record {
  kind = kind;
  amount = amount;
  balance_after = balance_after;
  request_id = request_id;
  action_id = action_id;
  note = note;
  at = at;
  completion_record_id = none;
}

abbrev pub with_entry : Ledger → LedgerEntry → Ledger
with_entry d e = record d { entries = d.entries ++ e ∷ [] }

-- The new reservation, the estimate and the entry of `reserve`.
unfoldable pub record_reservation : ℕ → String → String → String → String → Ledger → Ledger
record_reservation amount request_id action_id created_at at d =
    let r : Reservation = record {
      request_id = request_id;
      amount = amount;
      created_at = created_at;
    } in
    let d' = record d {
      reservations = insert action_id r d.reservations;
      total_estimated = d.total_estimated +ℤ pos amount;
    } in
    with_entry d' (entry Kind.reserve amount (available d') request_id action_id (Note.text "") at)

-- The estimate and the entry of `release`, after the reservation was popped.
unfoldable pub record_release : ℕ → String → String → String → Ledger → Ledger
record_release reserved request_id action_id at d =
    let d' = record d { total_estimated = d.total_estimated -ℤ pos reserved } in
    with_entry d'
      (entry Kind.release reserved (available d') request_id action_id Note.did_not_execute at)

-- The balance, the sum spent and the debit entry of a settlement. `record_id` is the terminal
-- evidence that a journaled settlement names.
unfoldable pub record_debit : ℕ → ℕ → String → String → Option String → String → Ledger → Ledger
record_debit reserved actual request_id action_id record_id at d =
    let d' = record d {
      balance = d.balance -ℤ pos actual;
      total_spent = d.total_spent +ℤ pos actual;
    } in
    let e =
      entry Kind.debit actual (available d') request_id action_id (Note.reserved reserved) at in
    with_entry d' (record e { completion_record_id = record_id })

-- `preflight`, on the available balance.
unfoldable pub preflight : MoneyLike → Option MoneyLike → Ledger → Result BudgetError BudgetCheck
unfolding amount_of
preflight worst_case_estimate request_limit file = do
  estimate ← amount_of worst_case_estimate
  d ← validate file
  let remaining = available d
  let against_balance : BudgetCheck = record {
    verdict = if ltb_ℤ remaining (pos estimate) then Verdict.over_balance else Verdict.within;
    remaining = remaining;
    estimate = estimate;
  }
  elim request_limit [
    | none ↦ ok against_balance
    | some limit ↦ do
      request_limit' ← amount_of limit
      ok (
          if ltb request_limit' estimate
          then record {
            verdict = Verdict.over_request_limit;
            remaining = remaining;
            estimate = estimate;
          }
          else against_balance)
  ]

abbrev latest_reserve : String → String → List LedgerEntry → ℕ
latest_reserve request_id action_id [] = 0
latest_reserve request_id action_id (e ∷ es) =
    let rest = latest_reserve request_id action_id es in
    if is_reserve e.kind && concerns request_id action_id e then e.amount else rest

-- `exposure_for`
unfoldable pub exposure_for : String → String → Ledger → Result BudgetError ℕ
exposure_for request_id action_id file = do
  required_text request_id
  required_text action_id
  d ← validate file
  elim (lookup action_id d.reservations) [
    | some r ↦ do require (r.request_id == request_id) BudgetError.request_mismatch; ok r.amount
    | none ↦ ok (latest_reserve request_id action_id (reverse d.entries))
  ]

-- The guards of `preview_settlement`, then the balance that the settlement will leave.
unfoldable pub preview_settlement :
    MoneyLike → MoneyLike → String → String → Ledger → Result BudgetError ℤ
unfolding amount_of
preview_settlement expected_usd actual_usd request_id action_id file = do
  expected ← amount_of expected_usd
  actual ← amount_of actual_usd
  required_text request_id
  required_text action_id
  d ← validate file
  refuse (ltb 0 (length (prior_dispositions d request_id action_id))) BudgetError.prior_disposition
  elim (lookup action_id d.reservations) [
    | some r ↦ do
      require (ltb 0 expected) BudgetError.unexpected_reservation
      require (r.request_id == request_id && eqb r.amount expected) BudgetError.amount_mismatch
    | none ↦ refuse (ltb 0 expected) BudgetError.no_reservation
  ]
  ok (available d +ℤ pos expected -ℤ pos actual)

module _ (writes : Ledger → Saved) where
  unfoldable pub grant : MoneyLike → String → String → Ledger → Result BudgetError (ℤ × Ledger)
  unfolding amount_of
  grant amount_usd note at file = do
    amount ← amount_of amount_usd
    d ← validate file
    let d' = record d { balance = d.balance +ℤ pos amount }
    let d'' = with_entry d' (entry Kind.grant amount (available d') "" "" (Note.text note) at)
    write writes d''
    ok (available d', d'')

  unfoldable pub reserve :
      MoneyLike
      → String
      → String
      → String
      → String
      → Ledger
      → Result BudgetError (Unit {0} × Ledger)
  unfolding amount_of
  reserve amount_usd request_id action_id created_at at file = do
    amount ← amount_of amount_usd
    required_text request_id
    required_text action_id
    refuse (eqb amount 0) BudgetError.zero_reservation
    d ← validate file
    elim (lookup action_id d.reservations) [
      | some _ ↦ err BudgetError.already_reserved
      | none ↦ ok tt
    ]
    refuse (ltb_ℤ (available d) (pos amount)) BudgetError.insufficient_balance
    let d' = record_reservation amount request_id action_id created_at at d
    write writes d'
    ok (tt, d')

  -- A reservation that is there with the same terms is recognised, and nothing is written.
  unfoldable pub ensure_reservation :
      MoneyLike
      → String
      → String
      → String
      → String
      → Ledger
      → Result BudgetError (Unit {0} × Ledger)
  unfolding amount_of
  ensure_reservation amount_usd request_id action_id created_at at file = do
    amount ← amount_of amount_usd
    required_text request_id
    required_text action_id
    refuse (eqb amount 0) BudgetError.zero_reservation
    d ← validate file
    elim (lookup action_id d.reservations) [
      | some r ↦ do
        require (r.request_id == request_id && eqb r.amount amount) BudgetError.reservation_conflict
        ok (tt, d)
      | none ↦ do
        refuse (ltb_ℤ (available d) (pos amount)) BudgetError.insufficient_balance
        let d' = record_reservation amount request_id action_id created_at at d
        write writes d'
        ok (tt, d')
    ]

  unfoldable pub settle :
      MoneyLike → String → String → String → Ledger → Result BudgetError (ℤ × Ledger)
  unfolding amount_of
  settle actual_usd request_id action_id at file = do
    actual ← amount_of actual_usd
    required_text request_id
    required_text action_id
    d ← validate file
    (reserved, d') ← pop_reservation d request_id action_id
    let d'' = record_debit reserved actual request_id action_id none at d'
    write writes d''
    ok (available d'', d'')

  unfoldable pub release : String → String → String → Ledger → Result BudgetError (ℤ × Ledger)
  release request_id action_id at file = do
    required_text request_id
    required_text action_id
    d ← validate file
    (reserved, d') ← pop_reservation d request_id action_id
    let d'' = record_release reserved request_id action_id at d'
    write writes d''
    ok (available d'', d'')
