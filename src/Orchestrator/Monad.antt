-- ===== src/Orchestrator/Monad.antt =====
-- A method of the harness: it takes the stores as they stand and returns its answer or the error
-- that it raises, with the stores that it leaves; what was written stays written.
use defiant_agent_harness.Common.{Bool, true, false, Option, none, some}
use defiant_agent_harness.Common.Result.{Result, ok, err}
use defiant_agent_harness.Approvals.Types.{ApprovalError}
use defiant_agent_harness.Approvals.Store.{Store}
use defiant_agent_harness.Budgets.Types.{Ledger, BudgetError}
use defiant_agent_harness.Evidence.Types.{EvidenceError}
use defiant_agent_harness.Evidence.Store.{Log}
use defiant_agent_harness.Budgets.State.{left_by}
use defiant_agent_harness.Journal.Types.{File, JournalError}
use defiant_agent_harness.Orchestrator.Types.{World, HarnessError}

abbrev pub M : Type 0 → Type 0
M A = World → Result HarnessError A × World

infixl 5 ◌>>=◌ ◌>>◌
unfoldable pub ◌>>=◌ : {A B : Type 0} → M A → (A → M B) → M B
◌>>=◌ m f w = let (r, w') = m w in elim r [ ok a ↦ f a w' | err e ↦ (err e, w') ]

abbrev pub ◌>>◌ : {A B : Type 0} → M A → M B → M B
m >> k = m >>= λ _. k

unfoldable pub pure : {A : Type 0} → A → M A
pure a w = (ok a, w)

unfoldable pub raise : {A : Type 0} → HarnessError → M A
raise e w = (err e, w)

unfoldable pub require : Bool → HarnessError → M (Unit {0})
require true e w = (ok tt, w)
require false e w = (err e, w)

unfoldable pub refuse : Bool → HarnessError → M (Unit {0})
refuse true e w = (err e, w)
refuse false e w = (ok tt, w)

-- `if b: m`
unfoldable pub when : Bool → M (Unit {0}) → M (Unit {0})
when true m = m
when false m = pure tt

unfoldable pub or_raise : {A : Type 0} → Option A → HarnessError → M A
or_raise none e w = (err e, w)
or_raise (some a) e w = (ok a, w)

-- An answer that touches no store, with its error named as the harness sees it.
unfoldable pub lift : {E A : Type 0} → (E → HarnessError) → Result E A → M A
lift name (ok a) w = (ok a, w)
lift name (err e) w = (err (name e), w)

-- A method of one store.
unfoldable pub on_evidence : {A : Type 0} → (Log → Result EvidenceError A × Log) → M A
on_evidence m w =
    let (r, log) = m w.evidence in
    elim r [
      | ok a ↦ (ok a, record w { evidence = log })
      | err e ↦ (err (HarnessError.evidence e), record w { evidence = log })
    ]

unfoldable pub on_budget : {A : Type 0} → (Ledger → Result BudgetError (A × Ledger)) → M A
on_budget m w = elim (m w.budget) [
  | ok (a, l) ↦ (ok a, record w { budget = l })
  | err e ↦ (err (HarnessError.budget e), record w { budget = left_by e w.budget })
]

unfoldable pub ask_budget : {A : Type 0} → (Ledger → Result BudgetError A) → M A
ask_budget f w = elim (f w.budget) [ ok a ↦ (ok a, w) | err e ↦ (err (HarnessError.budget e), w) ]

unfoldable pub on_approvals : {A : Type 0} → (Store → Result ApprovalError A × Store) → M A
on_approvals m w =
    let (r, s) = m w.approvals in
    elim r [
      | ok a ↦ (ok a, record w { approvals = s })
      | err e ↦ (err (HarnessError.approvals e), record w { approvals = s })
    ]

unfoldable pub on_journal : {A : Type 0} → (File → Result JournalError A × File) → M A
on_journal m w =
    let (r, f) = m w.journal in
    elim r [
      | ok a ↦ (ok a, record w { journal = f })
      | err e ↦ (err (HarnessError.journal e), record w { journal = f })
    ]
