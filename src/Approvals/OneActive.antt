-- ===== src/Approvals/OneActive.antt =====
-- No action has two active approvals: approvals/store.py over any history.
use defiant_agent_harness.Common.{
  ℕ, String, ◌≡◌, sym, ◌∙◌, ◌⊎◌, inl, inr, true, false, Option, none, some, arith, Bool-cases, List,
  [], ◌∷◌, ◌==◌, eq_iff,
}
use mathlib.Core.Bool.{false≢true}
use defiant_agent_harness.Common.Dict.{lookup, insert, lookup-insert}
use defiant_agent_harness.Approvals.Types.{Status, Approval, is_active}
use defiant_agent_harness.Approvals.Store.{Store, Config}
use defiant_agent_harness.Approvals.Lifecycle.{
  follows, OneStep, expire_one-OneStep, decide-OneStep, begin_execution-OneStep,
}
use defiant_agent_harness.Approvals.Endings.{
  mark_consumed-OneStep, ensure_consumed-OneStep, mark_reconciled-OneStep,
  begin_reconciliation-OneStep, ensure_rejected-OneStep,
}
use defiant_agent_harness.Approvals.Creation.{
  Enters, create-Enters, create_prepared-Enters, is_claimed, Expires, expire_due-Expires,
}
use defiant_agent_harness.Approvals.Evolution.{Evolves, call-Evolves}
use defiant_agent_harness.Approvals.Calls.{Call, call, serve}

-- An active approval for an action, stored under an id.
pub record IsActiveFor (action_id id : String) (s : Store) : Type 0 where
  pub approval : Approval
  pub stored : lookup id s ≡ some approval
  pub active : is_active approval.status ≡ true
  pub same_action : approval.action_id ≡ action_id

-- Two active approvals for one action are one.
abbrev pub OneActive : Store → Type 0
OneActive s =
    (action_id i j : String) → IsActiveFor action_id i s → IsActiveFor action_id j s → i ≡ j

is_claimed_of :
    (action_id id : String) (s : Store) {a : Approval}
    → lookup id s ≡ some a
    → is_active a.status ≡ true
    → a.action_id ≡ action_id
    → is_claimed action_id s ≡ true
unfolding lookup
is_claimed_of action_id id [] found active same = absurd (ground arith)
is_claimed_of action_id id ((j, b) ∷ s) {a} found active same = elim (Bool-cases (j == id)) [
  | inl here ↦ ground (arith, here, eq_iff b.action_id action_id)
  | inr elsewhere ↦ ground (arith, elsewhere, is_claimed_of action_id id s {a = a})
]

follows_active : (t u : Status) → follows t u ≡ true → is_active u ≡ true → is_active t ≡ true
follows_active t u f h = ground arith

-- Where nothing enters, what is active was active before.
active_before :
    {P : Approval → Type 0} (action_id j : String) (s s' : Store)
    → Evolves P (lookup j s) (lookup j s')
    → (lookup j s ≡ none → lookup j s' ≡ none)
    → IsActiveFor action_id j s'
    → IsActiveFor action_id j s
active_before action_id j s s' (inl kept) none_enters x = record {
  approval = x.approval;
  stored = sym kept ∙ x.stored;
  active = x.active;
  same_action = x.same_action;
}
active_before action_id j s s' (inr (inl (a, absent, entered, waits))) none_enters x =
    absurd (ground (arith, none_enters absent, x.stored))
active_before action_id j s s' (inr (inr (a, a', was, became, step, same))) none_enters x = record {
  approval = a;
  stored = was;
  active = follows_active a.status a'.status step (ground (arith, became, x.stored, x.active));
  same_action = ground (arith, became, x.stored, x.same_action, same);
}

OneStep-none :
    (id j : String) (s s' : Store) → OneStep id s s' → lookup j s ≡ none → lookup j s' ≡ none
OneStep-none id j s s' (inl kept) h = rw kept h
OneStep-none id j s s' (inr (a, a', found, written, step, same)) h =
    rw (written, lookup-insert) (ground (arith, eq_iff id j, found, h))

Expires-none :
    (now stamp : ℕ) (o o' : Option Approval) → Expires now stamp o o' → o ≡ none → o' ≡ none
Expires-none now stamp o o' (inl kept) h = kept ∙ h
Expires-none now stamp o o' (inr (a, was, became, opened, late)) h = absurd (ground arith)

new_or_old :
    (action_id i k : String) (a : Approval) (s : Store)
    → IsActiveFor action_id i (insert k a s)
    → ((k ≡ i) × (a.action_id ≡ action_id)) ⊎ IsActiveFor action_id i s
new_or_old action_id i k a s x = elim (Bool-cases (k == i)) [
  | inl here ↦
      inl
        ((eq_iff k i).0 here, ground (arith, here, lookup-insert k i a s, x.stored, x.same_action))
  | inr elsewhere ↦ inr (record {
    approval = x.approval;
    stored = ground (arith, elsewhere, lookup-insert k i a s, x.stored);
    active = x.active;
    same_action = x.same_action;
  })
]

not_claimed :
    {P : Type 0} (action_id j : String) (a : Approval) (s : Store)
    → is_claimed a.action_id s ≡ false
    → a.action_id ≡ action_id
    → IsActiveFor action_id j s
    → P
not_claimed action_id j a s free same x =
    let claimed =
      is_claimed_of a.action_id j s {a = x.approval} x.stored x.active (x.same_action ∙ sym same) in
    absurd (false≢true (sym free ∙ claimed))

Enters-OneActive :
    {P : Approval → Type 0} (s s' : Store) → Enters P s s' → OneActive s → OneActive s'
Enters-OneActive s s' (inl kept) h = rw kept h
Enters-OneActive s s' (inr (a, written, fresh, free, waits)) h = rw written (λ action_id i j x y.
    let k = a.approval_id in
    elim (new_or_old action_id i k a s x) [
      | inl (new_i, same_i) ↦ elim (new_or_old action_id j k a s y) [
        | inl (new_j, same_j) ↦ sym new_i ∙ new_j
        | inr old_j ↦ not_claimed action_id j a s free same_i old_j
      ]
      | inr old_i ↦ elim (new_or_old action_id j k a s y) [
        | inl (new_j, same_j) ↦ not_claimed action_id i a s free same_j old_i
        | inr old_j ↦ h action_id i j old_i old_j
      ]
    ])

module _ (config : Config) where
  kept_by :
      (c : Call) (s : Store)
      → ((j : String) → lookup j s ≡ none → lookup j (call config c s) ≡ none)
      → OneActive s
      → OneActive (call config c s)
  kept_by c s none_enters h action_id i j x y =
      h action_id i j (active_before action_id i s _ (call-Evolves config i c s) (none_enters i) x)
        (active_before action_id j s _ (call-Evolves config j c s) (none_enters j) y)

  call-OneActive : (c : Call) (s : Store) → OneActive s → OneActive (call config c s)
  unfolding call
  call-OneActive (Call.create p ttl id now stamp) s h =
      Enters-OneActive s _ (create-Enters config p ttl id now stamp s) h
  call-OneActive (Call.create_prepared a) s h =
      Enters-OneActive s _ (create_prepared-Enters config a s) h
  call-OneActive (Call.expire_one id now stamp) s h =
      kept_by (Call.expire_one id now stamp) s
        (λ j. OneStep-none id j s _ (expire_one-OneStep config id s now stamp)) h
  call-OneActive (Call.expire_due now stamp) s h =
      kept_by (Call.expire_due now stamp) s
        (λ j. Expires-none now stamp _ _ (expire_due-Expires config now stamp j s)) h
  call-OneActive (Call.decide id v by note t now stamp) s h =
      kept_by (Call.decide id v by note t now stamp) s
        (λ j. OneStep-none id j s _ (decide-OneStep config id s v by note t now stamp)) h
  call-OneActive (Call.ensure_rejected id by note t now stamp) s h =
      kept_by (Call.ensure_rejected id by note t now stamp) s
        (λ j. OneStep-none id j s _ (ensure_rejected-OneStep config id s by note t now stamp)) h
  call-OneActive (Call.begin_execution id action hash now stamp) s h =
      kept_by (Call.begin_execution id action hash now stamp) s
        (λ j. OneStep-none id j s _ (begin_execution-OneStep config id s action hash now stamp)) h
  call-OneActive (Call.mark_consumed id record_id stamp) s h =
      kept_by (Call.mark_consumed id record_id stamp) s
        (λ j. OneStep-none id j s _ (mark_consumed-OneStep config id s record_id stamp)) h
  call-OneActive (Call.ensure_consumed id record_id stamp) s h =
      kept_by (Call.ensure_consumed id record_id stamp) s
        (λ j. OneStep-none id j s _ (ensure_consumed-OneStep config id s record_id stamp)) h
  call-OneActive (Call.begin_reconciliation id o by note t stamp) s h =
      kept_by (Call.begin_reconciliation id o by note t stamp) s
        (λ j. OneStep-none id j s _ (begin_reconciliation-OneStep config id s o by note t stamp)) h
  call-OneActive (Call.mark_reconciled id record_id stamp) s h =
      kept_by (Call.mark_reconciled id record_id stamp) s
        (λ j. OneStep-none id j s _ (mark_reconciled-OneStep config id s record_id stamp)) h

  -- From a file in which no action has two active approvals, any calls lead to such a file.
  pub serve-OneActive : (cs : List Call) (s : Store) → OneActive s → OneActive (serve config cs s)
  unfolding serve
  serve-OneActive [] s h = h
  serve-OneActive (c ∷ cs) s h = serve-OneActive cs (call config c s) (call-OneActive c s h)
