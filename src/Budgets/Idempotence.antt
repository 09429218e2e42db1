-- ===== src/Budgets/Idempotence.antt =====
-- Recovery may run a journaled budget step again: the operations of budgets/ledger.py that it
-- replays recognise their own work.
use defiant_agent_harness.Common.Files.{Saved}
use defiant_agent_harness.Common.{
  ℕ, String, ◌≡◌, refl, Option, some, true, arith, [], Option-cases, inl, inr, eq_refl,
  select-append, eqb_refl, eq_nil_of_length,
}
use defiant_agent_harness.Common.Int.{ℤ, pos}
use defiant_agent_harness.Common.Dict.{lookup, erase, lookup-erase_self}
use defiant_agent_harness.Common.Result.{ok}
use defiant_agent_harness.Money.{MoneyLike}
use defiant_agent_harness.Budgets.Types.{Ledger}
use defiant_agent_harness.Budgets.State.{validate, validate_cases, write_inv, prior_dispositions}
use defiant_agent_harness.Budgets.Operations.{record_debit}
use defiant_agent_harness.Budgets.Settlement.{settled_before_inv}
use defiant_agent_harness.Budgets.Journaled.{ensure_settlement, settled_before, settle_once}

reservations-record_debit :
    (expected actual : ℕ) (request_id action_id : String) (id : Option String) (at : String)
    (l : Ledger)
    → (record_debit expected actual request_id action_id id at l).reservations ≡ l.reservations
unfolding record_debit
reservations-record_debit expected actual request_id action_id id at l = refl

prior-erase :
    (action_id request_id : String) (l : Ledger)
    → prior_dispositions
        (record l { reservations = erase action_id l.reservations })
        request_id
        action_id
      ≡ prior_dispositions l request_id action_id
unfolding prior_dispositions
prior-erase action_id request_id l = refl

module _ (expected actual : ℕ) (request_id action_id record_id at : String) (l : Ledger)
    (undisposed : prior_dispositions l request_id action_id ≡ []) where
  -- After the debit it is found again as the one disposition.
  settled_before-record_debit :
      settled_before expected actual record_id (
        prior_dispositions
          (record_debit expected actual request_id action_id (some record_id) at l)
          request_id
          action_id)
      ≡ ok true
  unfolding settled_before record_debit prior_dispositions
  settled_before-record_debit = simp (select-append, undisposed, eq_refl, eqb_refl)

module _ (writes : Ledger → Saved) (expected actual : ℕ)
    (request_id action_id record_id at at' : String) (l l' : Ledger) (v : ℤ) where
  settle_once-twice :
      settle_once writes expected actual request_id action_id record_id at l ≡ ok (v, l')
      → settle_once writes expected actual request_id action_id record_id at' l' ≡ ok (v, l')
  unfolding settle_once
  settle_once-twice e = elim (Option-cases (lookup action_id l.reservations)) [
    | inl absent ↦ ground (
      arith,
      absent,
      settled_before_inv expected actual record_id (prior_dispositions l request_id action_id),
      reservations-record_debit expected actual request_id action_id (some record_id) at l,
      settled_before-record_debit expected actual request_id action_id record_id at l,
    )
    | inr (r, found) ↦
        let d : Ledger = record l { reservations = erase action_id l.reservations } in
        ground (
          arith,
          found,
          lookup-erase_self action_id l.reservations,
          eq_nil_of_length (prior_dispositions l request_id action_id),
          prior-erase action_id request_id l,
          reservations-record_debit expected actual request_id action_id (some record_id) at d,
          settled_before-record_debit expected actual request_id action_id record_id at d,
        )
  ]

  settle_once-valid :
      validate l ≡ ok l
      → settle_once writes expected actual request_id action_id record_id at l ≡ ok (v, l')
      → validate l' ≡ ok l'
  unfolding settle_once
  settle_once-valid valid e =
      let d : Ledger = record l { reservations = erase action_id l.reservations } in
      ground (
        arith,
        write_inv writes (record_debit expected actual request_id action_id (some record_id) at l),
        write_inv writes (record_debit expected actual request_id action_id (some record_id) at d),
      )

  -- A settlement that succeeded, run again on the ledger that it left, at any later time, returns
  -- the same balance and changes nothing: no amount is debited twice.
  pub ensure_settlement_twice :
      ensure_settlement writes
          (MoneyLike.finite (pos expected))
          (MoneyLike.finite (pos actual))
          request_id
          action_id
          record_id
          at
          l
        ≡ ok (v, l')
      → ensure_settlement writes
          (MoneyLike.finite (pos expected))
          (MoneyLike.finite (pos actual))
          request_id
          action_id
          record_id
          at'
          l'
        ≡ ok (v, l')
  unfolding ensure_settlement
  ensure_settlement_twice e = ground (arith, validate_cases l, settle_once-twice, settle_once-valid)
