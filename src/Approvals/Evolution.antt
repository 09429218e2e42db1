-- ===== src/Approvals/Evolution.antt =====
-- One approval under any call: the diagram of statuses, over the whole interface.
use defiant_agent_harness.Common.{
  ℕ, String, ◌≡◌, refl, ◌⊎◌, inl, inr, true, Option, none, some, arith, Bool-cases, List, [], ◌∷◌,
  ◌==◌, eq_iff,
}
use defiant_agent_harness.Common.Dict.{lookup, lookup-insert}
use defiant_agent_harness.Approvals.Types.{Status, Approval, is_open}
use defiant_agent_harness.Approvals.Checks.{is_ended}
use defiant_agent_harness.Approvals.Store.{Store, Config}
use defiant_agent_harness.Approvals.Operations.{expired}
use defiant_agent_harness.Approvals.Lifecycle.{
  follows, OneStep, expire_one-OneStep, decide-OneStep, begin_execution-OneStep,
}
use defiant_agent_harness.Approvals.Endings.{
  mark_consumed-OneStep, ensure_consumed-OneStep, mark_reconciled-OneStep,
  begin_reconciliation-OneStep, ensure_rejected-OneStep,
}
use defiant_agent_harness.Approvals.Creation.{
  IsPending, Enters, create-Enters, create_prepared-Enters, Expires, expire_due-Expires,
}
use defiant_agent_harness.Approvals.Calls.{Call, call, serve, status_of}

-- The approvals that a call may bring into the file: `create` a pending one, `create_prepared` the one
-- that it is given, and no other call any.
abbrev pub IsEntry : Call → Approval → Type 0
IsEntry (Call.create p ttl id now stamp) a = IsPending a
IsEntry (Call.create_prepared b) a = a ≡ b
IsEntry c a = ⊥

-- An approval stays, enters as one of the given kind, or takes a step of the diagram and keeps its action.
abbrev pub Evolves : (Approval → Type 0) → Option Approval → Option Approval → Type 0
Evolves P o o' =
    (o' ≡ o)
    ⊎ ((a : Approval) × (o ≡ none) × (o' ≡ some a) × P a)
    ⊎ ((a a' : Approval) × (o ≡ some a)
        × (o' ≡ some a')
        × (follows a.status a'.status ≡ true)
        × (a'.action_id ≡ a.action_id))

OneStep-Evolves :
    {P : Approval → Type 0} (id j : String) (s s' : Store)
    → OneStep id s s'
    → Evolves P (lookup j s) (lookup j s')
OneStep-Evolves id j s s' (inl kept) = rw kept (inl refl)
OneStep-Evolves id j s s' (inr (a, a', found, written, step, same)) =
    rw (written, lookup-insert)
      (elim (Bool-cases (id == j)) [
        | inl here ↦
            rw here (inr (inr (a, a', rw (← (eq_iff id j).0 here) found, refl, step, same)))
        | inr elsewhere ↦ rw elsewhere (inl refl)
      ])

Enters-Evolves :
    {P : Approval → Type 0} (j : String) (s s' : Store)
    → Enters P s s'
    → Evolves P (lookup j s) (lookup j s')
Enters-Evolves j s s' (inl kept) = rw kept (inl refl)
Enters-Evolves j s s' (inr (a, written, fresh, free, waits)) =
    rw (written, lookup-insert)
      (elim (Bool-cases (a.approval_id == j)) [
        | inl here ↦
            rw here (inr (inl (a, rw (← (eq_iff a.approval_id j).0 here) fresh, refl, waits)))
        | inr elsewhere ↦ rw elsewhere (inl refl)
      ])

follows-expired : (t : Status) → is_open t ≡ true → follows t Status.expired ≡ true
follows-expired t h = ground arith

Expires-Evolves :
    {P : Approval → Type 0} (now stamp : ℕ) (o o' : Option Approval)
    → Expires now stamp o o'
    → Evolves P o o'
Expires-Evolves now stamp o o' (inl kept) = inl kept
Expires-Evolves now stamp o o' (inr (a, found, ended, opened, late)) =
    inr (inr (a, expired a stamp, found, ended, follows-expired a.status opened, refl))

module _ (config : Config) (j : String) where
  -- Whatever the call and whether it succeeds or raises, each approval of the file stays as it was,
  -- enters (by `create` as pending, by `create_prepared` as the one given, by no other call), or goes
  -- from its status to one that the diagram allows, for the same action.
  pub call-Evolves :
      (c : Call) (s : Store) → Evolves (IsEntry c) (lookup j s) (lookup j (call config c s))
  unfolding call
  call-Evolves (Call.create p ttl id now stamp) s =
      Enters-Evolves j s _ (create-Enters config p ttl id now stamp s)
  call-Evolves (Call.create_prepared a) s = Enters-Evolves j s _ (create_prepared-Enters config a s)
  call-Evolves (Call.expire_one id now stamp) s =
      OneStep-Evolves id j s _ (expire_one-OneStep config id s now stamp)
  call-Evolves (Call.expire_due now stamp) s =
      Expires-Evolves now stamp _ _ (expire_due-Expires config now stamp j s)
  call-Evolves (Call.decide id v by note t now stamp) s =
      OneStep-Evolves id j s _ (decide-OneStep config id s v by note t now stamp)
  call-Evolves (Call.ensure_rejected id by note t now stamp) s =
      OneStep-Evolves id j s _ (ensure_rejected-OneStep config id s by note t now stamp)
  call-Evolves (Call.begin_execution id action hash now stamp) s =
      OneStep-Evolves id j s _ (begin_execution-OneStep config id s action hash now stamp)
  call-Evolves (Call.mark_consumed id record_id stamp) s =
      OneStep-Evolves id j s _ (mark_consumed-OneStep config id s record_id stamp)
  call-Evolves (Call.ensure_consumed id record_id stamp) s =
      OneStep-Evolves id j s _ (ensure_consumed-OneStep config id s record_id stamp)
  call-Evolves (Call.begin_reconciliation id o by note t stamp) s =
      OneStep-Evolves id j s _ (begin_reconciliation-OneStep config id s o by note t stamp)
  call-Evolves (Call.mark_reconciled id record_id stamp) s =
      OneStep-Evolves id j s _ (mark_reconciled-OneStep config id s record_id stamp)

  -- One call keeps the status of an approval that has ended.
  call_keeps_ended :
      (c : Call) (s : Store) (t : Status)
      → status_of j s ≡ some t
      → is_ended t ≡ true
      → status_of j (call config c s) ≡ some t
  unfolding status_of
  call_keeps_ended c s t h ended = elim (call-Evolves c s) [
    | inl kept ↦ ground (arith, kept)
    | inr (inl (b, absent, entered, waits)) ↦ absurd (ground arith)
    | inr (inr (b, b', was, became, step, same)) ↦ ground (arith, was, became)
  ]

  -- An approval that was rejected, expired or consumed has that status after any calls.
  pub ended_stays :
      (cs : List Call) (s : Store) (t : Status)
      → status_of j s ≡ some t
      → is_ended t ≡ true
      → status_of j (serve config cs s) ≡ some t
  unfolding serve
  ended_stays [] s t h ended = h
  ended_stays (c ∷ cs) s t h ended =
      ended_stays cs (call config c s) t (call_keeps_ended c s t h ended) ended
