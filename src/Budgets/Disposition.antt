-- ===== src/Budgets/Disposition.antt =====
-- What `reconcile_reservation` of budgets/ledger.py does to the sums, and that it does it once.
use defiant_agent_harness.Common.Files.{Saved}
use defiant_agent_harness.Common.{
  ℕ, String, ◌≡◌, ◌≢◌, ◌⊎◌, refl, Option, some, none, arith, true, Option-cases, inl, inr, eq_refl,
  eqb_refl, ◌≤◌,
}
use defiant_agent_harness.Common.Int.{ℤ, pos, ◌+ℤ◌, ◌-ℤ◌, ◌≤ℤ◌, int_laws, parts_of_eq}
use defiant_agent_harness.Common.Dict.{
  IsUnique, lookup, erase, lookup-insert_self, total, total-erase, erase_absent,
}
use defiant_agent_harness.Common.Result.{ok}
use defiant_agent_harness.Budgets.Types.{
  Outcome, Disposition, Ledger, Reservation, Reconciliation, Authority,
}
use defiant_agent_harness.Budgets.State.{Latest, available, latest_budget_disposition}
use defiant_agent_harness.Budgets.Reconcile.{
  Supplied, matches_supplied, same_outcome, same_authority, same_text?, dispose, reconcile_supplied,
  record_reconciliation, marker,
}

same_outcome_refl : (o : Outcome) → same_outcome o o ≡ true
same_outcome_refl Outcome.succeeded = refl
same_outcome_refl Outcome.failed = refl
same_outcome_refl Outcome.not_executed = refl

same_text_refl : (t : Option String) → same_text? t t ≡ true
same_text_refl none = refl
same_text_refl (some t) = eq_refl t

same_authority_refl : (a : Option Authority) → same_authority a a ≡ true
same_authority_refl none = refl
same_authority_refl (some a) = simp (eq_refl, same_text_refl)

-- A marker matches the input that it was made from.
matches_supplied-marker :
    (s : Supplied) (c r : ℕ) (d : Disposition) (z : ℤ) (at : String)
    → matches_supplied (marker s c r d z at) s ≡ true
unfolding matches_supplied
matches_supplied-marker s c r d z at =
    simp (eq_refl, eqb_refl, same_outcome_refl, same_authority_refl)

marker_found :
    (s : Supplied) (a : String) (r : Option Reservation) (p : Latest) (at at' : String) (l : Ledger)
    → lookup a (record_reconciliation s a r p at at' l).1.reconciliations
      ≡ some (record_reconciliation s a r p at at' l).0
unfolding record_reconciliation
marker_found s a r p at at' l = lookup-insert_self a _ l.reconciliations

marker_matches :
    (s : Supplied) (a : String) (r : Option Reservation) (p : Latest) (at at' : String) (l : Ledger)
    → matches_supplied (record_reconciliation s a r p at at' l).0 s ≡ true
unfolding record_reconciliation
marker_matches s a r p at at' l = matches_supplied-marker s _ _ _ _ at

-- The balance that stays available once the reservation is gone and `c` was charged.
charged-available :
    (c : ℕ) (a : String) (r : Reservation) (l : Ledger)
    → IsUnique l.reservations
    → lookup a l.reservations ≡ some r
    → l.balance -ℤ pos c -ℤ pos (total (λ x. x.amount) (erase a l.reservations)) +ℤ pos c
      ≡ available l +ℤ pos r.amount
unfolding available
charged-available c a r l u found =
    omega (int_laws, total-erase (λ (x : Reservation). x.amount) a {v = r} l.reservations u found)

charged-available_absent :
    (c : ℕ) (a : String) (l : Ledger)
    → lookup a l.reservations ≡ none
    → l.balance -ℤ pos c -ℤ pos (total (λ x. x.amount) (erase a l.reservations)) +ℤ pos c
      ≡ available l +ℤ pos 0
unfolding available
charged-available_absent c a l absent = rw (erase_absent a l.reservations absent) (omega int_laws)

charge_back : (b : ℤ) (n : ℕ) → b -ℤ pos n +ℤ pos n ≡ b
charge_back b n = omega int_laws

-- What `dispose` decides, against the live reservation.
abbrev backing : Option Reservation → ℕ
backing none = 0
backing (some r) = r.amount

dispose_not_executed :
    (o : Outcome) (r : Option Reservation) (p : Latest) (n : ℕ)
    → o ≡ Outcome.not_executed
    → ((dispose o r p n).0 ≡ 0) × ((dispose o r p n).1 ≡ backing r)
unfolding dispose
dispose_not_executed o r p n h = ground arith

dispose_executed :
    (o : Outcome) (r : Option Reservation) (p : Latest) (n : ℕ)
    → o ≢ Outcome.not_executed
    → ((dispose o r p n).1 ≡ 0) × (backing r ≤ (dispose o r p n).0)
unfolding dispose
dispose_executed o r p n h = ground arith

available-reconciled :
    (s : Supplied) (a : String) (p : Latest) (at at' : String) (l : Ledger)
    → IsUnique l.reservations
    → let (m, l') = record_reconciliation s a (lookup a l.reservations) p at at' l in
      available l' +ℤ pos m.charged ≡ available l +ℤ pos (backing (lookup a l.reservations))
unfolding record_reconciliation available
available-reconciled s a p at at' l u = elim (Option-cases (lookup a l.reservations)) [
  | inl absent ↦ rw absent (charged-available_absent _ a l absent)
  | inr (r, found) ↦ rw found (charged-available _ a r l u found)
]

-- What a reconciliation with this outcome moves from `l` to `l'`.
abbrev HasSums : Outcome → Ledger → Ledger → Reconciliation → Type 0
HasSums o l l' m =
    (l'.balance +ℤ pos m.charged ≡ l.balance)
    × (l'.total_spent ≡ l.total_spent +ℤ pos m.charged)
    × (((o ≡ Outcome.not_executed)
          × (m.charged ≡ 0)
          × (available l' ≡ available l +ℤ pos m.released))
        ⊎ ((o ≢ Outcome.not_executed) × (m.released ≡ 0) × (available l' ≤ℤ available l)))

Outcome-cases : (o : Outcome) → (o ≡ Outcome.not_executed) ⊎ (o ≢ Outcome.not_executed)
Outcome-cases Outcome.succeeded = inr (λ e. cc)
Outcome-cases Outcome.failed = inr (λ e. cc)
Outcome-cases Outcome.not_executed = inl refl

released_eq : (x y : ℤ) (c n b : ℕ) → x +ℤ pos c ≡ y +ℤ pos b → c ≡ 0 → n ≡ b → x ≡ y +ℤ pos n
released_eq x y c n b h z e = omega (int_laws, parts_of_eq h)

charged-le : (x y : ℤ) (c b : ℕ) → x +ℤ pos c ≡ y +ℤ pos b → b ≤ c → x ≤ℤ y
charged-le x y c b h z = omega (int_laws, parts_of_eq h)

record_sums :
    (s : Supplied) (a : String) (p : Latest) (at at' : String) (l : Ledger)
    → IsUnique l.reservations
    → let (m, l') = record_reconciliation s a (lookup a l.reservations) p at at' l in
      HasSums s.outcome l l' m
unfolding record_reconciliation
record_sums s a p at at' l u =
    let r = lookup a l.reservations in
    let left = available-reconciled s a p at at' l u in
    (
      charge_back l.balance _,
      refl,
      elim (Outcome-cases s.outcome) [
        | inl e ↦
            let (none_charged, all_freed) = dispose_not_executed s.outcome r p s.expected e in
            inl (e, none_charged, released_eq _ _ _ _ _ left none_charged all_freed)
        | inr e ↦
            let (none_freed, covered) = dispose_executed s.outcome r p s.expected e in
            inr (e, none_freed, charged-le _ _ _ _ left covered)
      ],
    )

module _ (writes : Ledger → Saved) (s : Supplied) (action_id at entry_at : String) (l l' : Ledger)
    (m : Reconciliation) where
  -- A reconciliation that went through, run again with the same input on the ledger that it left,
  -- returns the same marker and changes nothing.
  pub reconcile_twice :
      (at' entry_at' : String)
      → reconcile_supplied writes s action_id at entry_at l ≡ ok (m, l')
      → reconcile_supplied writes s action_id at' entry_at' l' ≡ ok (m, l')
  unfolding reconcile_supplied
  reconcile_twice at' entry_at' e =
      let r = lookup action_id l.reservations in
      let p = latest_budget_disposition l.entries s.request_id action_id in
      ground (
        arith,
        marker_found s action_id r p at entry_at l,
        marker_matches s action_id r p at entry_at l,
      )

  -- A first reconciliation, on a file where no action has two reservations. For an action that
  -- was not executed nothing is charged and the available balance grows by what the marker says
  -- was released; otherwise nothing is released, the charge of the marker moves from the balance to
  -- the sum spent, and no balance becomes available.
  pub reconcile_sums :
      IsUnique l.reservations
      → lookup action_id l.reconciliations ≡ none
      → reconcile_supplied writes s action_id at entry_at l ≡ ok (m, l')
      → (l'.balance +ℤ pos m.charged ≡ l.balance)
        × (l'.total_spent ≡ l.total_spent +ℤ pos m.charged)
        × (((s.outcome ≡ Outcome.not_executed)
              × (m.charged ≡ 0)
              × (available l' ≡ available l +ℤ pos m.released))
            ⊎ ((s.outcome ≢ Outcome.not_executed)
                × (m.released ≡ 0)
                × (available l' ≤ℤ available l)))
  unfolding reconcile_supplied
  reconcile_sums u fresh e = ground (
    arith,
    record_sums s action_id (latest_budget_disposition l.entries s.request_id action_id) at entry_at
        l u,
  )
