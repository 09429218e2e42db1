-- ===== src/Approvals/Calls.antt =====
-- The approval file under any sequence of calls.
use defiant_agent_harness.Common.{
  ℕ, String, Bool, Option, none, some, List, [], ◌∷◌, ◌+◌, ◌==◌, if◌then◌else◌,
}
use defiant_agent_harness.Common.Dict.{lookup}
use defiant_agent_harness.Common.Result.{Result, ok, err}
use defiant_agent_harness.Approvals.Types.{Status, Outcome, Attestation, Approval}
use defiant_agent_harness.Approvals.Store.{Store, Config}
use defiant_agent_harness.Approvals.Queries.{Proposal}
use defiant_agent_harness.Approvals.Queries
use defiant_agent_harness.Approvals.Operations
use defiant_agent_harness.Approvals.Reconcile

-- A call of a method that may write the file, with its arguments and the clock's readings. One reading
-- stands for those that `expire_due` takes, one for each approval.
pub data Call : Type 0 where
  create : Proposal → ℕ → String → ℕ → ℕ → Call
  create_prepared : Approval → Call
  expire_one : String → ℕ → ℕ → Call
  expire_due : ℕ → ℕ → Call
  decide : String → Bool → String → String → Option Attestation → ℕ → ℕ → Call
  ensure_rejected : String → String → String → Option Attestation → ℕ → ℕ → Call
  begin_execution : String → String → String → ℕ → ℕ → Call
  mark_consumed : String → String → ℕ → Call
  ensure_consumed : String → String → ℕ → Call
  begin_reconciliation : String → Outcome → String → String → Option Attestation → ℕ → Call
  mark_reconciled : String → String → ℕ → Call

module _ (config : Config) where
  -- The file after one call, which may have raised.
  unfoldable pub call : Call → Store → Store
  call (Call.create p ttl id now stamp) s = (Queries.create config p ttl id now stamp s).1
  call (Call.create_prepared a) s = (Operations.create_prepared config a s).1
  call (Call.expire_one id now stamp) s = (Operations.expire_one config id now stamp s).1
  call (Call.expire_due now stamp) s = (Reconcile.expire_due config now stamp s).1
  call (Call.decide id ok? by note att now stamp) s =
      (Operations.decide config id ok? by note att now stamp s).1
  call (Call.ensure_rejected id by note att now stamp) s =
      (Reconcile.ensure_rejected config id by note att now stamp s).1
  call (Call.begin_execution id action hash now stamp) s =
      (Operations.begin_execution config id action hash now stamp s).1
  call (Call.mark_consumed id record_id stamp) s =
      (Operations.mark_consumed config id record_id stamp s).1
  call (Call.ensure_consumed id record_id stamp) s =
      (Operations.ensure_consumed config id record_id stamp s).1
  call (Call.begin_reconciliation id o by note att stamp) s =
      (Reconcile.begin_reconciliation config id o by note att stamp s).1
  call (Call.mark_reconciled id record_id stamp) s =
      (Reconcile.mark_reconciled config id record_id stamp s).1

  unfoldable pub serve : List Call → Store → Store
  serve [] s = s
  serve (c ∷ cs) s = serve cs (call c s)

  abbrev pub succeeded : {A : Type 0} → Result A Approval × Store → ℕ
  succeeded (ok _, s) = 1
  succeeded (err _, s) = 0

  -- Whether the call is a `begin_execution` of this approval which succeeded: 1 or 0.
  unfoldable pub begins : String → Call → Store → ℕ
  begins id (Call.begin_execution id' action hash now stamp) s =
      if id' == id
      then succeeded (Operations.begin_execution config id' action hash now stamp s)
      else 0
  begins id _ s = 0

  -- How often the execution of an approval began.
  unfoldable pub executions : String → List Call → Store → ℕ
  executions id [] s = 0
  executions id (c ∷ cs) s = begins id c s + executions id cs (call c s)

-- The status under which an approval is stored.
unfoldable pub status_of : String → Store → Option Status
status_of id s = elim (lookup id s) [ none ↦ none | some a ↦ some a.status ]
