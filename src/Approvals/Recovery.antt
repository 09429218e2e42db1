-- ===== src/Approvals/Recovery.antt =====
-- Recovery may run an approval step again: the methods of approvals/store.py that it replays
-- recognise their own work.
use defiant_agent_harness.Common.{ℕ, String, ◌≡◌, inl, inr, arith, Option-cases, eq_refl}
use defiant_agent_harness.Common.Dict.{lookup, lookup-insert_self}
use defiant_agent_harness.Common.Result.{ok}
use defiant_agent_harness.Approvals.Types.{Approval}
use defiant_agent_harness.Approvals.Checks.{from_dict_cases}
use defiant_agent_harness.Approvals.Store.{Store, Config, read_all, read_all_cases, put_cases}
use defiant_agent_harness.Approvals.Operations.{ensure_consumed, consume}
use defiant_agent_harness.Approvals.Reconcile.{mark_reconciled}
use defiant_agent_harness.Approvals.Endings.{consumed_by, reconciled_by}

module _ (config : Config) (id record_id : String) (stamp stamp' : ℕ) (s s' : Store) (a' : Approval)
    (readable : read_all s' ≡ (ok s', s')) where
  -- A completion that went through, run again with the same evidence at any later time on the file
  -- that it left, if that file can be read, returns the same approval and writes nothing.
  pub ensure_consumed_twice :
      ensure_consumed config id record_id stamp s ≡ (ok a', s')
      → ensure_consumed config id record_id stamp' s' ≡ (ok a', s')
  unfolding ensure_consumed consume
  ensure_consumed_twice e = elim (Option-cases (lookup id s)) [
    | inl absent ↦ absurd (ground (arith, read_all_cases s))
    | inr (a, found) ↦
        let b = consumed_by a record_id stamp in
        ground (
          arith,
          read_all_cases s,
          from_dict_cases b,
          put_cases config s s id b,
          lookup-insert_self id b s,
          eq_refl record_id,
        )
  ]

  -- A reconciliation that was marked as completed, marked again with the same evidence at any later
  -- time on the file that it left, if that file can be read, returns the same approval and writes
  -- nothing.
  pub mark_reconciled_twice :
      mark_reconciled config id record_id stamp s ≡ (ok a', s')
      → mark_reconciled config id record_id stamp' s' ≡ (ok a', s')
  unfolding mark_reconciled
  mark_reconciled_twice e = elim (Option-cases (lookup id s)) [
    | inl absent ↦ absurd (ground (arith, read_all_cases s))
    | inr (a, found) ↦
        let b = reconciled_by a record_id stamp in
        ground (
          arith,
          read_all_cases s,
          from_dict_cases b,
          put_cases config s s id b,
          lookup-insert_self id b s,
          eq_refl record_id,
        )
  ]
