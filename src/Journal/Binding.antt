-- ===== src/Journal/Binding.antt =====
-- What a payload that passes `_validate_execution_completion` promises of the money and the authority.
use text.Mathlib.Text.{starts_with}
use mathlib.Core.Bool.{false≢true}
use defiant_agent_harness.Common.{
  ℕ, String, Bool, true, false, ◌&&◌, ◌||◌, not, Option, ◌≡◌, refl, sym, ◌∙◌, none, some, inl, inr,
  eqb, ◌==◌, eq_iff, if◌then◌else◌, Bool-cases, arith,
}
use defiant_agent_harness.Common.Result.{Result, ok, err, ◌>>◌, require, refuse}
use defiant_agent_harness.Contracts.{Decision, ResultStatus}
use defiant_agent_harness.Money.{MoneyLike, money}
use defiant_agent_harness.Journal.Types.{Draft, CompletionSubject, Text, Completion, JournalError}
use defiant_agent_harness.Journal.Validate.{
  amount_of, is_value, is_status, is_completion_subject, check_approval_id, check_disposition,
  is_reconciled, binds_completion, decision_value, check_completion_of, check_subject, check_text,
  validate_execution_completion,
}

abbrev pub is_outcome : ResultStatus → Bool
is_outcome ResultStatus.succeeded = true
is_outcome ResultStatus.failed = true
is_outcome s = false

abbrev pub names_decision : String → Decision → Bool
names_decision t Decision.allow = t == "allow"
names_decision t Decision.block = t == "block"
names_decision t Decision.approval_required = t == "approval_required"

abbrev pub is_missing : Option String → Bool
is_missing none = true
is_missing (some t) = false

-- What a consistent completion is: the approval id goes with the decision; the evidence is of a tool
-- that ran and names the action, the request, the hash and the decision of the authority; the
-- disposition is "none" where nothing was reserved or charged and "settle" where something was; the
-- cost is the amount charged; and no field of an operator's reconciliation is there.
unfoldable pub agrees : CompletionSubject → String → Text → Draft → ℕ → ℕ → Bool
agrees a approval_id disposition e reserved actual =
    (if approval_id == ""
      then a.decision == "allow"
      else starts_with approval_id "apr_" && a.decision == "approval_required")
    && is_outcome e.content.result_status
    && a.action_id == e.content.action_id
    && a.request_id == e.content.request_id
    && a.authorization_hash == e.content.authorization_hash
    && names_decision a.decision e.content.decision
    && is_value disposition (if eqb reserved 0 && eqb actual 0 then "none" else "settle")
    && eqb e.content.cost actual
    && e.content.reconciliation_outcome == ""
    && e.content.reconciled_by == ""
    && is_missing e.content.reconciled_at
    && e.content.reconciliation_note == ""

unfoldable pub passes : Result JournalError (Unit {0}) → Bool
passes (ok u) = true
passes (err x) = false

passes-then : (m k : Result JournalError (Unit {0})) → passes (m >> k) ≡ (passes m && passes k)
unfolding passes
passes-then (ok tt) k = refl
passes-then (err x) k = refl

passes-require : (b : Bool) (x : JournalError) → passes (require b x) ≡ b
unfolding passes
passes-require true x = refl
passes-require false x = refl

passes-refuse : (b : Bool) (x : JournalError) → passes (refuse b x) ≡ not b
unfolding passes
passes-refuse true x = refl
passes-refuse false x = refl

ruleset passing = (passes-then, passes-require, passes-refuse)

check_approval_id-passes :
    (id decision : String)
    → passes (check_approval_id id decision) ≡ (
        if id == ""
        then decision == "allow"
        else starts_with id "apr_" && decision == "approval_required")
unfolding check_approval_id
check_approval_id-passes id decision = elim (Bool-cases (id == "")) [
  | inl e ↦ rw e (simp passing)
  | inr e ↦ rw e (simp passing)
]

settle_none : (t : String) → t ≡ "settle" → t ≡ "none" → ⊥
settle_none t e f =
    let g : ("settle" == "none") ≡ true = (eq_iff "settle" "none").1 (sym e ∙ f) in
    absurd (false≢true g)

check_disposition-passes :
    (d : Text) (reserved actual : ℕ)
    → passes (check_disposition d reserved actual)
      ≡ is_value d (if eqb reserved 0 && eqb actual 0 then "none" else "settle")
unfolding check_disposition is_value
check_disposition-passes none reserved actual = simp passing
check_disposition-passes (some t) reserved actual =
    simp passing (ground (arith, eq_iff t "settle", eq_iff t "none", settle_none t))

is_status-is_outcome :
    (s : ResultStatus)
    → (is_status s ResultStatus.succeeded || is_status s ResultStatus.failed) ≡ is_outcome s
unfolding is_status
is_status-is_outcome s = ground arith

binds_completion-names :
    (a : CompletionSubject) (e : Draft)
    → binds_completion a e ≡ (
        a.action_id == e.content.action_id
        && a.request_id == e.content.request_id
        && a.authorization_hash == e.content.authorization_hash
        && names_decision a.decision e.content.decision)
unfolding binds_completion decision_value
binds_completion-names a e = ground arith

not-is_reconciled :
    (e : Draft)
    → not (is_reconciled e) ≡ (
        e.content.reconciliation_outcome == ""
        && e.content.reconciled_by == ""
        && is_missing e.content.reconciled_at
        && e.content.reconciliation_note == "")
unfolding is_reconciled
not-is_reconciled e = ground arith

check_completion_of-passes :
    (a : CompletionSubject) (id : String) (c : Completion) (e : Draft) (reserved actual : ℕ)
    → passes (check_completion_of a id c e reserved actual)
      ≡ agrees a id c.budget_disposition e reserved actual
unfolding check_completion_of agrees
check_completion_of-passes a id c e reserved actual =
    simp
      (
        passing, check_approval_id-passes, check_disposition-passes, is_status-is_outcome,
        binds_completion-names, not-is_reconciled,
      )
      (ground arith)

amount_of-money : (m : MoneyLike) (n : ℕ) (x : JournalError) → money m ≡ ok n → amount_of m x ≡ ok n
unfolding amount_of
amount_of-money m n x h = rw (h, amount_of) refl

abbrev pub completion : CompletionSubject → String → MoneyLike → Text → Completion
completion a id m d = record {
  authority = some a;
  approval_id = some id;
  actual = m;
  budget_disposition = d;
}

-- A completion whose fields can be read passes exactly when the authority is well formed and all parts
-- agree: the approval id with the decision, the evidence's status, action, request, hash and decision
-- with the authority, the disposition and the cost with the amounts, and no operator's reconciliation
-- stands in the evidence.
pub validate_execution_completion-agrees :
    (a : CompletionSubject) (id : String) (m : MoneyLike) (d : Text) (e : Draft)
    (reserved actual : ℕ)
    → money m ≡ ok actual
    → passes (validate_execution_completion (completion a id m d) e reserved)
      ≡ (is_completion_subject a && agrees a id d e reserved actual)
unfolding validate_execution_completion check_subject check_text passes
validate_execution_completion-agrees a id m d e reserved actual h =
    elim (Bool-cases (is_completion_subject a)) [
      | inl s ↦
          rw (s, amount_of-money m actual JournalError.bad_amount h)
            (check_completion_of-passes a id (completion a id m d) e reserved actual)
      | inr s ↦ rw s refl
    ]
