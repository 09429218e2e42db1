-- ===== src/Approvals/Creation.antt =====
-- How an approval enters the file and how it leaves the queue unused: `create_prepared` and
-- `expire_due`.
use defiant_agent_harness.Common.{
  ℕ, String, ◌≡◌, refl, ◌⊎◌, inl, inr, Bool, true, false, Option, none, some, arith, Bool-cases,
  List, [], ◌∷◌, any, ◌&&◌, ◌==◌,
}
use defiant_agent_harness.Common.Dict.{lookup, insert}
use defiant_agent_harness.Common.Result.{ok, Result-cases}
use defiant_agent_harness.Approvals.Types.{Status, Approval, is_active, is_open}
use defiant_agent_harness.Approvals.Checks.{from_dict_cases}
use defiant_agent_harness.Approvals.Store.{
  Store, Config, read_all_cases, put_cases, write_all_cases, is_expired,
}
use defiant_agent_harness.Approvals.Operations.{create_prepared, expired}
use defiant_agent_harness.Approvals.Reconcile.{expire_loop, expire_due}
use defiant_agent_harness.Approvals.Queries.{Proposal, prepare, proposed, create}

-- Some active approval of the file is for this action.
abbrev pub is_claimed : String → Store → Bool
is_claimed action_id s = any (λ e. e.1.action_id == action_id && is_active e.1.status) s

-- The file is as it was, or has a new approval of the kind given for an action that had no active one.
abbrev pub Enters : (Approval → Type 0) → Store → Store → Type 0
Enters P s s' =
    (s' ≡ s)
    ⊎ ((a : Approval) × (s' ≡ insert a.approval_id a s)
        × (lookup a.approval_id s ≡ none)
        × (is_claimed a.action_id s ≡ false)
        × P a)

abbrev pub IsPending : Approval → Type 0
IsPending a = a.status ≡ Status.pending

pub create_prepared_leaves :
    (config : Config) (a : Approval) (s : Store)
    → ((create_prepared config a s).1 ≡ s)
      ⊎ (((create_prepared config a s).1 ≡ insert a.approval_id a s)
          × (lookup a.approval_id s ≡ none)
          × (is_claimed a.action_id s ≡ false))
unfolding create_prepared
create_prepared_leaves config a s =
    ground (arith, read_all_cases s, put_cases config s s a.approval_id a)

pub create_prepared-Enters :
    (config : Config) (a : Approval) (s : Store)
    → Enters (λ b. b ≡ a) s (create_prepared config a s).1
create_prepared-Enters config a s = elim (create_prepared_leaves config a s) [
  | inl kept ↦ inl kept
  | inr (written, fresh, free) ↦ inr (a, written, fresh, free, refl)
]

prepare-status :
    (p : Proposal) (ttl : ℕ) (id : String) (now stamp : ℕ) (a : Approval)
    → prepare p ttl id now stamp ≡ ok a
    → a.status ≡ Status.pending
unfolding prepare
prepare-status p ttl id now stamp a h =
    ground (arith, from_dict_cases (proposed p ttl id now stamp))

pub create-Enters :
    (config : Config) (p : Proposal) (ttl : ℕ) (id : String) (now stamp : ℕ) (s : Store)
    → Enters IsPending s (create config p ttl id now stamp s).1
unfolding create
create-Enters config p ttl id now stamp s = elim (Result-cases (prepare p ttl id now stamp)) [
  | inr (e, refused) ↦ inl (rw refused)
  | inl (a, made) ↦ rw made (elim (create_prepared_leaves config a s) [
    | inl kept ↦ inl kept
    | inr (written, fresh, free) ↦
        inr (a, written, fresh, free, prepare-status p ttl id now stamp a made)
  ])
]

-- What the loop does to the approval under one id: nothing, or it expires it when it is due.
abbrev pub Expires : ℕ → ℕ → Option Approval → Option Approval → Type 0
Expires now stamp o o' =
    (o' ≡ o)
    ⊎ ((a : Approval) × (o ≡ some a)
        × (o' ≡ some (expired a stamp))
        × (is_open a.status ≡ true)
        × (is_expired now a ≡ true))

expire_loop-Expires :
    (now stamp : ℕ) (id : String) (s : Store) {ended : List Approval} {s' : Store}
    → expire_loop now stamp s ≡ ok (ended, s')
    → Expires now stamp (lookup id s) (lookup id s')
unfolding expire_loop lookup
expire_loop-Expires now stamp id [] h = inl (ground arith)
expire_loop-Expires now stamp id ((j, a) ∷ s) {ended} {s'} h =
    elim (Result-cases (expire_loop now stamp s)) [
      | inr (e, failed) ↦ absurd (ground (arith, from_dict_cases (expired a stamp)))
      | inl ((ended', rest), went) ↦
          let below = expire_loop-Expires now stamp id s {ended = ended'} {s' = rest} went in
          elim (Bool-cases (is_open a.status && is_expired now a)) [
            | inl is_due ↦
                let shape : s' ≡ (j, expired a stamp) ∷ rest =
                  ground (arith, from_dict_cases (expired a stamp)) in
                rw shape (elim (Bool-cases (j == id)) [
                  | inl same ↦
                      rw same (inr (a, refl, refl, ground (arith, is_due), ground (arith, is_due)))
                  | inr other ↦ rw other below
                ])
            | inr alive ↦
                let shape : s' ≡ (j, a) ∷ rest = ground (arith, alive) in
                rw shape (elim (Bool-cases (j == id)) [
                  | inl same ↦ rw same (inl refl)
                  | inr other ↦ rw other below
                ])
          ]
    ]

pub expire_due-Expires :
    (config : Config) (now stamp : ℕ) (id : String) (s : Store)
    → Expires now stamp (lookup id s) (lookup id (expire_due config now stamp s).1)
unfolding expire_due
expire_due-Expires config now stamp id s = elim (Result-cases (expire_loop now stamp s)) [
  | inr (e, failed) ↦
      let kept : (expire_due config now stamp s).1 ≡ s = ground (arith, read_all_cases s, failed) in
      rw kept (inl refl)
  | inl ((ended, s'), went) ↦
      let kept : ((expire_due config now stamp s).1 ≡ s)
          ⊎ ((expire_due config now stamp s).1 ≡ s') =
        ground (arith, read_all_cases s, went, write_all_cases config s' s) in
      elim kept [
        | inl same ↦ rw same (inl refl)
        | inr written ↦ rw written (expire_loop-Expires now stamp id s went)
      ]
]
