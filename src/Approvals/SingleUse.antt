-- ===== src/Approvals/SingleUse.antt =====
-- An approval is used at most once: `begin_execution` of approvals/store.py over any history.
use defiant_agent_harness.Common.{
  ℕ, ◌+◌, ◌≤◌, String, ◌≡◌, ◌⊎◌, inl, inr, true, false, Option, none, some, arith, Bool-cases,
  Option-cases, List, [], ◌∷◌, ◌==◌, eq_iff, if◌then◌else◌, ap,
}
use defiant_agent_harness.Common.Dict.{lookup, lookup-insert_self}
use defiant_agent_harness.Common.Result.{ok, Result-cases}
use defiant_agent_harness.Approvals.Types.{Status, Approval}
use defiant_agent_harness.Approvals.Checks.{from_dict_cases}
use defiant_agent_harness.Approvals.Store.{Store, Config, read_all_cases, put_cases, is_expired}
use defiant_agent_harness.Approvals.Operations.{
  begin_execution, require_decision_identity, require_decision_identity_cases, decision_identity,
  expired,
}
use defiant_agent_harness.Approvals.Evolution.{Evolves, call-Evolves}
use defiant_agent_harness.Approvals.Calls.{Call, call, begins, executions, succeeded}

abbrev pub executing : Approval → Approval
executing a = record a { status = Status.executing }

-- What an execution needs: the approval was granted, is in time, and binds this very action; where
-- operator keys are pinned, its decision is attested.
pub record MayExecute (config : Config) (a : Approval) (action_id hash : String) (now : ℕ)
    : Type 0 where
  pub granted : a.status ≡ Status.approved
  pub in_time : is_expired now a ≡ false
  pub same_action : a.action_id ≡ action_id
  pub same_content : a.authorization_hash ≡ hash
  pub attested : (config.operator_trust ≡ none) ⊎ (decision_identity config a ≡ true)

identity_inv :
    (config : Config) (a : Approval) (s : Store)
    → require_decision_identity config a s ≡ (ok tt, s)
    → (config.operator_trust ≡ none) ⊎ (decision_identity config a ≡ true)
unfolding require_decision_identity
identity_inv config a s h = elim (Option-cases config.operator_trust) [
  | inl unpinned ↦ inl unpinned
  | inr (verify, pinned) ↦ inr (ground (arith, pinned))
]

module _ (config : Config) (id action_id hash : String) (now stamp : ℕ) (s s' : Store)
    (a' : Approval)
    (began : begin_execution config id action_id hash now stamp s ≡ (ok a', s')) where
  -- Where `begin_execution` succeeds, the stored approval was approved and not expired, it is for
  -- this action and this content, its decision is attested if keys are pinned, and what is stored
  -- afterwards is that approval in the status `executing`.
  pub begin_execution-MayExecute :
      (a : Approval) × (lookup id s ≡ some a)
      × MayExecute config a action_id hash now
      × (lookup id s' ≡ some (executing a))
  unfolding begin_execution
  begin_execution-MayExecute = elim (Option-cases (lookup id s)) [
    | inl absent ↦ absurd (ground (arith, read_all_cases s))
    | inr (a, found) ↦ elim (require_decision_identity_cases config a s) [
      | inr refused ↦ absurd (
          ground (
            arith,
            read_all_cases s,
            refused,
            from_dict_cases (expired a stamp),
            put_cases config s s id (expired a stamp),
          ))
      | inl passed ↦ (
        a,
        found,
        record {
          granted = ground (arith, read_all_cases s);
          in_time = ground (
            arith,
            read_all_cases s,
            from_dict_cases (expired a stamp),
            put_cases config s s id (expired a stamp),
          );
          same_action = ground (
            arith,
            read_all_cases s,
            eq_iff a.action_id action_id,
            from_dict_cases (expired a stamp),
            put_cases config s s id (expired a stamp),
          );
          same_content = ground (
            arith,
            read_all_cases s,
            eq_iff a.authorization_hash hash,
            from_dict_cases (expired a stamp),
            put_cases config s s id (expired a stamp),
          );
          attested = identity_inv config a s passed;
        },
        ground (
          arith,
          read_all_cases s,
          passed,
          from_dict_cases (expired a stamp),
          put_cases config s s id (expired a stamp),
          from_dict_cases (executing a),
          put_cases config s s id (executing a),
          lookup-insert_self id (executing a) s,
        ),
      )
    ]
  ]

-- How often an approval may still begin to execute.
abbrev pub chances : Option Approval → ℕ
chances none = 1
chances (some a) = elim a.status [ Status.pending ↦ 1 | Status.approved ↦ 1 | _ ↦ 0 ]

module _ (config : Config) (j : String) where
  pub chances-Evolves :
      {P : Approval → Type 0} (o o' : Option Approval) → Evolves P o o' → chances o' ≤ chances o
  chances-Evolves o o' (inl kept) = ground (arith, kept)
  chances-Evolves o o' (inr (inl (a, absent, entered, waits))) = ground arith
  chances-Evolves o o' (inr (inr (a, a', was, became, step, same))) = ground arith

  -- A success uses up the one chance.
  began_here :
      (id action hash : String) (now stamp : ℕ) (s : Store)
      → (id == j) ≡ true
      → (if id == j
            then succeeded config (begin_execution config id action hash now stamp s)
            else 0)
          + chances (lookup j (call config (Call.begin_execution id action hash now stamp) s))
        ≤ chances (lookup j s)
  unfolding call
  began_here id action hash now stamp s here =
      let outcome = begin_execution config id action hash now stamp s in
      let kept =
        chances-Evolves _ _
          (call-Evolves config j (Call.begin_execution id action hash now stamp) s) in
      elim (Result-cases outcome.0) [
        | inr (e, failed) ↦ ground (arith, failed, kept)
        | inl (a', began) ↦
            let (a, found, may, after) =
              begin_execution-MayExecute config id action hash now stamp s outcome.1 a'
                (ap (λ r. (r, outcome.1)) began) in
            ground (arith, began, found, may.granted, after, eq_iff id j)
      ]

  begins-chances :
      (c : Call) (s : Store)
      → begins config j c s + chances (lookup j (call config c s)) ≤ chances (lookup j s)
  unfolding begins
  begins-chances (Call.begin_execution id action hash now stamp) s = elim (Bool-cases (id == j)) [
    | inr elsewhere ↦ rw elsewhere (
        omega (
          arith,
          chances-Evolves _ _
              (call-Evolves config j (Call.begin_execution id action hash now stamp) s),
        ))
    | inl here ↦ began_here id action hash now stamp s here
  ]
  begins-chances c s = omega (arith, chances-Evolves _ _ (call-Evolves config j c s))

  executions_bounded :
      (cs : List Call) (s : Store) → executions config j cs s ≤ chances (lookup j s)
  unfolding executions
  executions_bounded [] s = omega arith
  executions_bounded (c ∷ cs) s =
      omega (arith, begins-chances c s, executions_bounded cs (call config c s))

  pub chances-le : (o : Option Approval) → chances o ≤ 1
  chances-le none = omega arith
  chances-le (some a) = ground arith

  -- Whatever calls are made, whatever file they start from and whatever fails in between,
  -- `begin_execution` succeeds at most once for each approval.
  pub executions-le-one : (cs : List Call) (s : Store) → executions config j cs s ≤ 1
  executions-le-one cs s = omega (arith, executions_bounded cs s, chances-le (lookup j s))
