-- ===== src/Approvals/Lifecycle.antt =====
-- The life of an approval: which status may follow which.
use defiant_agent_harness.Common.{
  ℕ, String, ◌≡◌, refl, ◌⊎◌, inl, inr, Bool, true, false, Option, none, some, arith, Option-cases,
  Bool-cases, if◌then◌else◌,
}
use defiant_agent_harness.Common.Dict.{lookup, insert}
use defiant_agent_harness.Common.Text.{strip}
use defiant_agent_harness.Approvals.Types.{Status, Purpose, Verdict, Attestation, Approval}
use defiant_agent_harness.Approvals.Checks.{from_dict_cases}
use defiant_agent_harness.Approvals.Store.{Store, Config, read_all_cases, is_expired, put_cases}
use defiant_agent_harness.Approvals.Operations.{
  require_decision_identity_cases, require_attestation-store, validate_decision, time_of, expired,
  expire_one, decide, begin_execution,
}

-- The diagram: `follows s t` where `t` may come next after `s`, or is `s`.
abbrev pub follows : Status → Status → Bool
follows Status.pending Status.consumed = false
follows Status.pending Status.executing = false
follows Status.pending _ = true
follows Status.approved Status.approved = true
follows Status.approved Status.expired = true
follows Status.approved Status.executing = true
follows Status.executing Status.executing = true
follows Status.executing Status.consumed = true
follows Status.rejected Status.rejected = true
follows Status.expired Status.expired = true
follows Status.consumed Status.consumed = true
follows _ _ = false

-- The file is as it was, or one approval of it took a step of the diagram and kept its action.
abbrev pub OneStep : String → Store → Store → Type 0
OneStep id s s' =
    (s' ≡ s)
    ⊎ ((a a' : Approval) × (lookup id s ≡ some a)
        × (s' ≡ insert id a' s)
        × (follows a.status a'.status ≡ true)
        × (a'.action_id ≡ a.action_id))

-- What a method leaves where `a` was stored and `a'` may be written for it.
abbrev pub Leaves : String → Store → Approval → Approval → Store → Type 0
Leaves id s a a' s' = (s' ≡ s) ⊎ ((s' ≡ insert id a' s) × (follows a.status a'.status ≡ true))

pub one_step :
    (id : String) (s s' : Store) (a a' : Approval)
    → lookup id s ≡ some a
    → a'.action_id ≡ a.action_id
    → Leaves id s a a' s'
    → OneStep id s s'
one_step id s s' a a' found same (inl kept) = inl kept
one_step id s s' a a' found same (inr (written, ok?)) = inr (a, a', found, written, ok?, same)

module _ (config : Config) (id : String) (s : Store) where
  pub expire_one-OneStep : (now stamp : ℕ) → OneStep id s (expire_one config id now stamp s).1
  unfolding expire_one
  expire_one-OneStep now stamp = elim (Option-cases (lookup id s)) [
    | inl absent ↦ inl (ground (arith, read_all_cases s))
    | inr (a, found) ↦ one_step id s _ a (expired a stamp) found refl (
        ground (
          arith,
          read_all_cases s,
          from_dict_cases (expired a stamp),
          put_cases config s s id (expired a stamp),
        ))
  ]

  pub begin_execution-OneStep :
      (action hash : String) (now stamp : ℕ)
      → OneStep id s (begin_execution config id action hash now stamp s).1
  unfolding begin_execution
  begin_execution-OneStep action hash now stamp = elim (Option-cases (lookup id s)) [
    | inl absent ↦ inl (ground (arith, read_all_cases s))
    | inr (a, found) ↦ elim (Bool-cases (is_expired now a)) [
      | inl late ↦ one_step id s _ a (expired a stamp) found refl (
          ground (
            arith,
            read_all_cases s,
            from_dict_cases (expired a stamp),
            put_cases config s s id (expired a stamp),
          ))
      | inr in_time ↦
          let a' : Approval = record a { status = Status.executing } in
          one_step id s _ a a' found refl (
            ground (
              arith,
              read_all_cases s,
              require_decision_identity_cases config a s,
              from_dict_cases a',
              put_cases config s s id a',
            ))
    ]
  ]

  pub decide-OneStep :
      (approved : Bool) (by note : String) (t : Option Attestation) (now stamp : ℕ)
      → OneStep id s (decide config id approved by note t now stamp s).1
  unfolding decide validate_decision
  decide-OneStep approved by note t now stamp = elim (Option-cases (lookup id s)) [
    | inl absent ↦ inl (ground (arith, read_all_cases s))
    | inr (a, found) ↦
        let a' : Approval = record a {
          status = if approved then Status.approved else Status.rejected;
          decided_by = some (strip by);
          decided_at = some (time_of t stamp);
          note = strip note;
          decision_attestation = t;
          consumed_at = if approved then none else some (time_of t stamp);
        } in
        one_step id s _ a a' found refl (
          ground (
            arith,
            read_all_cases s,
            require_attestation-store config t a Purpose.decision
                (if approved then Verdict.approved else Verdict.rejected) (strip by) (strip note) s,
            from_dict_cases a',
            put_cases config s s id a',
          ))
  ]
