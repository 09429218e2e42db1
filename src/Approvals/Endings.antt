-- ===== src/Approvals/Endings.antt =====
-- The steps of the life of an approval that end it: consumption, reconciliation, rejection.
use defiant_agent_harness.Common.{
  ℕ, String, ◌≡◌, refl, inl, inr, false, Option, some, arith, Option-cases, Bool-cases, subst, sym,
}
use defiant_agent_harness.Common.Dict.{lookup}
use defiant_agent_harness.Common.Text.{strip}
use defiant_agent_harness.Approvals.Types.{
  Status, Outcome, Purpose, Verdict, Attestation, Approval, is_pending,
}
use defiant_agent_harness.Approvals.Checks.{from_dict_cases}
use defiant_agent_harness.Approvals.Store.{Store, Config, read_all_cases, put_cases}
use defiant_agent_harness.Approvals.Operations.{
  require_attestation-store, require_decision_identity_cases, time_of, decide, consume,
  mark_consumed, ensure_consumed,
}
use defiant_agent_harness.Approvals.Reconcile.{
  begin_reconciliation, mark_reconciled, ensure_rejected,
}
use defiant_agent_harness.Approvals.Lifecycle.{OneStep, one_step, decide-OneStep}

abbrev pub consumed_by : Approval → String → ℕ → Approval
consumed_by a record_id stamp = record a {
  status = Status.consumed;
  execution_record_id = record_id;
  consumed_at = some stamp;
}

abbrev pub reconciled_by : Approval → String → ℕ → Approval
reconciled_by a record_id stamp = record a {
  status = Status.consumed;
  execution_record_id = record_id;
  consumed_at = some stamp;
  reconciliation_completed_at = some stamp;
}

abbrev pub with_intent : Approval → Outcome → String → String → Option Attestation → ℕ → Approval
with_intent a o by note t stamp = record a {
  reconciliation_outcome = some o;
  reconciled_by = strip by;
  reconciliation_note = strip note;
  reconciliation_started_at = some (time_of t stamp);
  reconciliation_attestation = t;
}

module _ (config : Config) (id : String) (s : Store) where
  pub mark_consumed-OneStep :
      (record_id : String) (stamp : ℕ) → OneStep id s (mark_consumed config id record_id stamp s).1
  unfolding mark_consumed consume
  mark_consumed-OneStep record_id stamp = elim (Option-cases (lookup id s)) [
    | inl absent ↦ inl (ground (arith, read_all_cases s))
    | inr (a, found) ↦
        let a' = consumed_by a record_id stamp in
        one_step id s _ a a' found refl
          (ground (arith, read_all_cases s, from_dict_cases a', put_cases config s s id a'))
  ]

  pub ensure_consumed-OneStep :
      (record_id : String) (stamp : ℕ)
      → OneStep id s (ensure_consumed config id record_id stamp s).1
  unfolding ensure_consumed consume
  ensure_consumed-OneStep record_id stamp = elim (Option-cases (lookup id s)) [
    | inl absent ↦ inl (ground (arith, read_all_cases s))
    | inr (a, found) ↦
        let a' = consumed_by a record_id stamp in
        one_step id s _ a a' found refl
          (ground (arith, read_all_cases s, from_dict_cases a', put_cases config s s id a'))
  ]

  pub mark_reconciled-OneStep :
      (record_id : String) (stamp : ℕ)
      → OneStep id s (mark_reconciled config id record_id stamp s).1
  unfolding mark_reconciled
  mark_reconciled-OneStep record_id stamp = elim (Option-cases (lookup id s)) [
    | inl absent ↦ inl (ground (arith, read_all_cases s))
    | inr (a, found) ↦
        let a' = reconciled_by a record_id stamp in
        one_step id s _ a a' found refl
          (ground (arith, read_all_cases s, from_dict_cases a', put_cases config s s id a'))
  ]

  pub begin_reconciliation-OneStep :
      (o : Outcome) (by note : String) (t : Option Attestation) (stamp : ℕ)
      → OneStep id s (begin_reconciliation config id o by note t stamp s).1
  unfolding begin_reconciliation
  begin_reconciliation-OneStep o by note t stamp = elim (Option-cases (lookup id s)) [
    | inl absent ↦ inl (ground (arith, read_all_cases s))
    | inr (a, found) ↦
        let a' = with_intent a o by note t stamp in
        one_step id s _ a a' found refl (
          ground (
            arith,
            read_all_cases s,
            require_attestation-store config t a Purpose.reconciliation (Verdict.reconciled o)
                (strip by) (strip note) s,
            from_dict_cases a',
            put_cases config s s id a',
          ))
  ]

  pub ensure_rejected-OneStep :
      (by note : String) (t : Option Attestation) (now stamp : ℕ)
      → OneStep id s (ensure_rejected config id by note t now stamp s).1
  unfolding ensure_rejected
  ensure_rejected-OneStep by note t now stamp = elim (Option-cases (lookup id s)) [
    | inl absent ↦ inl (ground (arith, read_all_cases s))
    | inr (a, found) ↦ elim (Bool-cases (is_pending a.status)) [
      | inl waits ↦ elim (read_all_cases s) [
        | inl (_, read) ↦
            let same : (ensure_rejected config id by note t now stamp s).1
                ≡ (decide config id false by note t now stamp s).1 =
              ground (arith, read, found, waits) in
            subst (OneStep id s) (sym same) (decide-OneStep config id s false by note t now stamp)
        | inr (_, refused) ↦ inl (ground (arith, refused))
      ]
      | inr other ↦
          inl (ground (arith, read_all_cases s, require_decision_identity_cases config a s))
    ]
  ]
