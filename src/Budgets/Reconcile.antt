-- ===== src/Budgets/Reconcile.antt =====
-- `reconcile_reservation`: the budget of an execution whose outcome only the operator knows.
use defiant_agent_harness.Common.Files.{Saved}
use defiant_agent_harness.Common.{
  ℕ, String, Option, none, some, Bool, ◌&&◌, ◌||◌, true, false, eqb, ltb, ◌==◌, if◌then◌else◌,
}
use defiant_agent_harness.Common.Int.{ℤ, pos, ◌+ℤ◌, ◌-ℤ◌}
use defiant_agent_harness.Common.Dict.{lookup, insert, erase}
use defiant_agent_harness.Common.Text.{strip}
use defiant_agent_harness.Common.Result.{Result, ok, ◌>>=◌, ◌>>◌, require}
use defiant_agent_harness.Money.{MoneyLike}
use defiant_agent_harness.Budgets.Types.{
  Outcome, Kind, Disposition, Note, Authority, Reservation, Reconciliation, Ledger, BudgetError,
}
use defiant_agent_harness.Budgets.State.{
  nonempty, required_text, amount_of, validate, available, Latest, latest_budget_disposition, write,
}
use defiant_agent_harness.Budgets.Operations.{entry, with_entry}

-- The operator's input, after `_text`: the identity and the note are stripped.
pub record Supplied : Type 0 where
  pub request_id : String
  pub outcome : Outcome
  pub reconciled_by : String
  pub note : String
  pub expected : ℕ
  pub authority : Option Authority

abbrev pub same_outcome : Outcome → Outcome → Bool
same_outcome Outcome.succeeded Outcome.succeeded = true
same_outcome Outcome.failed Outcome.failed = true
same_outcome Outcome.not_executed Outcome.not_executed = true
same_outcome _ _ = false

abbrev pub same_text? : Option String → Option String → Bool
same_text? none none = true
same_text? (some s) (some t) = s == t
same_text? _ _ = false

-- The keys of `supplied` only: a marker with more of them still matches.
abbrev pub same_authority : Option Authority → Option Authority → Bool
same_authority existing none = true
same_authority (some a) (some b) =
    a.record_id == b.record_id
    && a.record_hash == b.record_hash
    && same_text? a.attestation b.attestation
same_authority none (some b) = false

unfoldable pub matches_supplied : Reconciliation → Supplied → Bool
matches_supplied r s =
    r.request_id == s.request_id
    && same_outcome r.outcome s.outcome
    && r.reconciled_by == s.reconciled_by
    && r.note == s.note
    && eqb r.expected s.expected
    && same_authority r.authority s.authority

-- What the reconciliation does to the sums, by the outcome, the live reservation and the latest
-- disposition: the amount charged, the amount released, and the word for it.
unfoldable pub dispose : Outcome → Option Reservation → Latest → ℕ → ℕ × ℕ × Disposition
dispose Outcome.not_executed (some r) prior expected =
    (0, r.amount, Disposition.reservation_released)
dispose Outcome.not_executed none Latest.debited expected =
    (0, 0, Disposition.prior_debit_preserved)
dispose Outcome.not_executed none _ expected = (0, 0, Disposition.no_live_reservation)
dispose _ (some r) prior expected = (r.amount, 0, Disposition.reservation_charged)
dispose _ none Latest.debited expected = (0, 0, Disposition.prior_debit_preserved)
dispose _ none _ expected =
    if ltb 0 expected
    then (expected, 0, Disposition.missing_reservation_charged)
    else (0, 0, Disposition.no_budget_exposure)

abbrev pub is_undisposed : Latest → Bool
is_undisposed Latest.undisposed = true
is_undisposed _ = false

-- The guards on a live reservation.
unfoldable pub check_live : Option Reservation → String → ℕ → Latest → Result BudgetError (Unit {0})
check_live none request_id expected prior = ok tt
check_live (some r) request_id expected prior = do
  require (r.request_id == request_id) BudgetError.request_mismatch
  require (eqb r.amount expected) BudgetError.amount_mismatch
  require (is_undisposed prior) BudgetError.prior_disposition

abbrev pub is_given : Option String → Bool
is_given none = false
is_given (some _) = true

-- The sealed authority ids are supplied together or not at all.
unfoldable pub authority_of :
    String → String → Option String → Result BudgetError (Option Authority)
authority_of record_id record_hash attestation =
    if nonempty record_id || nonempty record_hash || is_given attestation
    then (do
      require (nonempty record_id && nonempty record_hash) BudgetError.missing_authority_ids
      ok (
          some (record {
            record_id = record_id;
            record_hash = record_hash;
            attestation = attestation;
          })))
    else ok none

-- The marker of this reconciliation.
abbrev pub marker : Supplied → ℕ → ℕ → Disposition → ℤ → String → Reconciliation
marker s charged released disposition remaining at = record {
  request_id = s.request_id;
  outcome = s.outcome;
  reconciled_by = s.reconciled_by;
  note = s.note;
  expected = s.expected;
  authority = s.authority;
  charged = charged;
  released = released;
  disposition = disposition;
  remaining = remaining;
  at = at;
}

-- The document after the reconciliation, and its marker.
unfoldable pub record_reconciliation :
    Supplied
    → String
    → Option Reservation
    → Latest
    → String
    → String
    → Ledger
    → Reconciliation × Ledger
record_reconciliation s action_id reservation prior at entry_at d =
    let (charged, released, disposition) = dispose s.outcome reservation prior s.expected in
    let d₁ = record d {
      reservations = erase action_id d.reservations;
      total_estimated = d.total_estimated -ℤ pos released;
      balance = d.balance -ℤ pos charged;
      total_spent = d.total_spent +ℤ pos charged;
    } in
    let m = marker s charged released disposition (available d₁) at in
    let d₂ = record d₁ { reconciliations = insert action_id m d₁.reconciliations } in
    (
      m,
      with_entry d₂ (
          entry Kind.reconcile (if ltb 0 charged then charged else released) (available d₁)
            s.request_id action_id (Note.reconciled s.outcome s.reconciled_by disposition s.note)
            entry_at),
    )

module _ (writes : Ledger → Saved) where
  -- From the lock on. A marker that is there answers the call, if the input is the same.
  unfoldable pub reconcile_supplied :
      Supplied → String → String → String → Ledger → Result BudgetError (Reconciliation × Ledger)
  reconcile_supplied s action_id at entry_at d = elim (lookup action_id d.reconciliations) [
    | some m ↦ do require (matches_supplied m s) BudgetError.different_input; ok (m, d)
    | none ↦ do
      let reservation = lookup action_id d.reservations
      let prior = latest_budget_disposition d.entries s.request_id action_id
      check_live reservation s.request_id s.expected prior
      let (m, d') = record_reconciliation s action_id reservation prior at entry_at d
      write writes d'
      ok (m, d')
  ]

  unfoldable pub reconcile_reservation :
      MoneyLike
      → String
      → String
      → Outcome
      → String
      → String
      → String
      → String
      → Option String
      → String
      → String
      → Ledger
      → Result BudgetError (Reconciliation × Ledger)
  unfolding amount_of
  reconcile_reservation expected_usd request_id action_id outcome reconciled_by note
        authority_record_id authority_record_hash attestation at entry_at file =
      do
        expected ← amount_of expected_usd
        required_text request_id
        required_text action_id
        required_text (strip reconciled_by)
        required_text (strip note)
        d ← validate file
        authority ← authority_of authority_record_id authority_record_hash attestation
        let s : Supplied = record {
          request_id = request_id;
          outcome = outcome;
          reconciled_by = strip reconciled_by;
          note = strip note;
          expected = expected;
          authority = authority;
        }
        reconcile_supplied s action_id at entry_at d
