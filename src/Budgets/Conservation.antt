-- ===== src/Budgets/Conservation.antt =====
-- Money is conserved: what the ledger has left and what it spent, over any sequence of calls.
use defiant_agent_harness.Common.Files.{Saved}
use defiant_agent_harness.Common.{ℕ, String, ◌≡◌, refl, ◌⊎◌, Option, arith, List, [], ◌∷◌}
use defiant_agent_harness.Common.Int.{ℤ, pos, ◌+ℤ◌, ◌-ℤ◌, int_laws, parts_of_eq}
use defiant_agent_harness.Common.Result.{ok, err}
use defiant_agent_harness.Common.Dict.{lookup}
use defiant_agent_harness.Money.{MoneyLike}
use defiant_agent_harness.Budgets.Types.{BudgetError, Kind, Note, Outcome, Ledger}
use defiant_agent_harness.Budgets.State.{
  available, latest_budget_disposition, validate_outcomes, write_outcomes, pop_reservation, left_by,
}
use defiant_agent_harness.Budgets.Operations
use defiant_agent_harness.Budgets.History.{Call, file_of, call, serve, granted_by, granted, funds}
use defiant_agent_harness.Budgets.Operations.{
  record_reservation, record_debit, record_release, with_entry, entry,
}
use defiant_agent_harness.Budgets.Journaled
use defiant_agent_harness.Budgets.Reconcile.{
  reconcile_reservation, reconcile_supplied, record_reconciliation, Supplied, dispose, check_live,
  authority_of,
}

-- Spending moves an amount from the balance to what was spent.
funds_moved : (b t : ℤ) (n : ℕ) → (b -ℤ pos n) +ℤ (t +ℤ pos n) ≡ b +ℤ t
funds_moved b t n = omega int_laws

funds_granted : (b t : ℤ) (n : ℕ) → (b +ℤ pos n) +ℤ t ≡ b +ℤ t +ℤ pos n
funds_granted b t n = omega int_laws

funds_same : (z : ℤ) → z +ℤ pos 0 ≡ z
funds_same z = omega int_laws

funds-record_debit :
    (e n : ℕ) (r a : String) (id : Option String) (at : String) (l : Ledger)
    → funds (record_debit e n r a id at l) ≡ funds l
unfolding record_debit
funds-record_debit e n r a id at l = funds_moved l.balance l.total_spent n

funds-record_release :
    (n : ℕ) (r a at : String) (l : Ledger) → funds (record_release n r a at l) ≡ funds l
unfolding record_release
funds-record_release n r a at l = refl

funds-record_reservation :
    (n : ℕ) (r a c at : String) (l : Ledger) → funds (record_reservation n r a c at l) ≡ funds l
unfolding record_reservation
funds-record_reservation n r a c at l = refl

module _ (writes : Ledger → Saved) where
  -- The document that a grant writes.
  abbrev with_grant : ℕ → String → String → Ledger → Ledger
  with_grant n note at l =
      let d : Ledger = record l { balance = l.balance +ℤ pos n } in
      with_entry d (entry Kind.grant n (available d) "" "" (Note.text note) at)

  -- A grant of an amount writes its document, raises with it in the file's place, or raises before.
  grant_outcomes :
      (n : ℕ) (note at : String) (l : Ledger)
      → let r = Operations.grant writes (MoneyLike.finite (pos n)) note at l in
        (r ≡ ok (available (record l { balance = l.balance +ℤ pos n }), with_grant n note at l))
        ⊎ (r ≡ err (BudgetError.unsynced (with_grant n note at l)))
        ⊎ (r ≡ err BudgetError.write_failed)
        ⊎ (r ≡ err BudgetError.invalid_reservation)
        ⊎ (r ≡ err BudgetError.invalid_reconciliation)
        ⊎ (r ≡ err BudgetError.invalid_entry)
  unfolding Operations.grant
  grant_outcomes n note at l =
      ground (arith, validate_outcomes l, write_outcomes writes (with_grant n note at l))

  funds-grant :
      (m : MoneyLike) (note at : String) (l : Ledger)
      → funds (call writes (Call.grant m note at) l)
        ≡ funds l +ℤ pos (granted_by writes (Call.grant m note at) l)
  unfolding call granted_by Operations.grant left_by
  funds-grant (MoneyLike.finite (pos n)) note at l = ground (
    arith,
    grant_outcomes n note at l,
    funds_granted l.balance l.total_spent n,
    funds_same (funds l),
  )
  funds-grant _ note at l = rw funds_same

  funds-reserve :
      (m : MoneyLike) (r a c at : String) (l : Ledger)
      → funds (call writes (Call.reserve m r a c at) l) ≡ funds l
  unfolding call Operations.reserve record_reservation left_by
  funds-reserve m r a c at l = grind (arith, validate_outcomes, write_outcomes writes)

  funds-ensure_reservation :
      (m : MoneyLike) (r a c at : String) (l : Ledger)
      → funds (call writes (Call.ensure_reservation m r a c at) l) ≡ funds l
  unfolding call Operations.ensure_reservation record_reservation left_by
  funds-ensure_reservation m r a c at l = grind (arith, validate_outcomes, write_outcomes writes)

  funds-settle :
      (m : MoneyLike) (r a at : String) (l : Ledger)
      → funds (call writes (Call.settle m r a at) l) ≡ funds l
  unfolding call Operations.settle pop_reservation record_debit left_by
  funds-settle (MoneyLike.finite (pos n)) r a at l =
      grind (arith, validate_outcomes, write_outcomes writes, funds_moved)
  funds-settle _ r a at l = refl

  funds-settle_once :
      (e n : ℕ) (r a id at : String) (l : Ledger)
      → funds (file_of (Journaled.settle_once writes e n r a id at l) l) ≡ funds l
  unfolding Journaled.settle_once Journaled.settled_before record_debit left_by
  funds-settle_once e n r a id at l = grind (arith, write_outcomes writes, funds_moved)

  funds-ensure_settlement :
      (e m : MoneyLike) (r a id at : String) (l : Ledger)
      → funds (call writes (Call.ensure_settlement e m r a id at) l) ≡ funds l
  unfolding call Journaled.ensure_settlement left_by
  funds-ensure_settlement (MoneyLike.finite (pos e)) (MoneyLike.finite (pos n)) r a id at l =
      ground (arith, validate_outcomes l, funds-settle_once e n r a id at l)
  funds-ensure_settlement (MoneyLike.finite (pos e)) _ r a id at l = refl
  funds-ensure_settlement _ m r a id at l = refl

  funds-release :
      (r a at : String) (l : Ledger) → funds (call writes (Call.release r a at) l) ≡ funds l
  unfolding call Operations.release pop_reservation record_release left_by
  funds-release r a at l = grind (arith, validate_outcomes, write_outcomes writes)

  funds-ensure_release :
      (m : MoneyLike) (r a at : String) (l : Ledger)
      → funds (call writes (Call.ensure_release m r a at) l) ≡ funds l
  unfolding call Journaled.ensure_release Journaled.release_once pop_reservation record_release
      left_by
  funds-ensure_release m r a at l = grind (arith, validate_outcomes, write_outcomes writes)

  funds-reconcile_supplied :
      (s : Supplied) (a at at' : String) (l : Ledger)
      → funds (file_of (reconcile_supplied writes s a at at' l) l) ≡ funds l
  unfolding reconcile_supplied record_reconciliation check_live left_by
  funds-reconcile_supplied s a at at' l =
      let prior = latest_budget_disposition l.entries s.request_id a in
      let reservation = lookup a l.reservations in
      ground (
        arith,
        write_outcomes writes (record_reconciliation s a reservation prior at at' l).1,
        funds_moved l.balance l.total_spent (dispose s.outcome reservation prior s.expected).0,
      )

  funds-reconcile :
      (e : MoneyLike) (r a : String) (o : Outcome) (by note id hash : String) (att : Option String)
      (at at' : String) (l : Ledger)
      → funds (call writes (Call.reconcile e r a o by note id hash att at at') l) ≡ funds l
  unfolding call reconcile_reservation authority_of left_by
  funds-reconcile e r a o by note id hash att at at' l =
      grind (arith, validate_outcomes, funds-reconcile_supplied)

  -- One call changes the funds by the amount that it grants.
  funds-call :
      (c : Call) (l : Ledger) → funds (call writes c l) ≡ funds l +ℤ pos (granted_by writes c l)
  unfolding granted_by
  funds-call (Call.grant m note at) l = funds-grant m note at l
  funds-call (Call.reserve m r a c at) l = rw funds_same (funds-reserve m r a c at l)
  funds-call (Call.ensure_reservation m r a c at) l =
      rw funds_same (funds-ensure_reservation m r a c at l)
  funds-call (Call.settle m r a at) l = rw funds_same (funds-settle m r a at l)
  funds-call (Call.ensure_settlement e m r a id at) l =
      rw funds_same (funds-ensure_settlement e m r a id at l)
  funds-call (Call.release r a at) l = rw funds_same (funds-release r a at l)
  funds-call (Call.ensure_release e r a at) l = rw funds_same (funds-ensure_release e r a at l)
  funds-call (Call.reconcile e r a o by note id hash att at at') l =
      rw funds_same (funds-reconcile e r a o by note id hash att at at' l)

  -- Over any sequence of calls, each of which may return or raise, before or after its document took
  -- the file's place, the balance and the sum spent add up to what they were at the start and what
  -- those grants added whose document took the file's place; the amounts are exact.
  pub funds-serve :
      (cs : List Call) (l : Ledger)
      → funds (serve writes cs l) ≡ funds l +ℤ pos (granted writes cs l)
  unfolding serve granted
  funds-serve [] l = rw funds_same
  funds-serve (c ∷ cs) l =
      omega (int_laws, parts_of_eq (funds-call c l), parts_of_eq (funds-serve cs (call writes c l)))
