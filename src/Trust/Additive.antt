-- ===== src/Trust/Additive.antt =====
-- Keys are never lost: what a state that is read, and a rotation, keep of the bindings before.
use defiant_agent_harness.Common.{
  ℕ, suc, ◌+◌, String, Bool, true, ◌&&◌, ◌≡◌, refl, sym, ap, subst, ◌∙◌, some, List, [], ◌∷◌, ◌⊎◌,
  inl, inr, any, all, ◌==◌, eq_iff, Bool-cases, Option-cases, arith,
}
use defiant_agent_harness.Common.Dict.{lookup}
use defiant_agent_harness.Common.Result.{ok, or_raise, Result-cases}
use defiant_agent_harness.Trust.Types.{
  Bindings, Attestation, Transition, State, File, TrustError, Host, Bindings-discrete,
}
use defiant_agent_harness.Trust.Store.{
  binds, covers, is_additive, same_bindings, follow, from_dict, get, timestamp, check_bindings,
  verify, rotated, write_state, successor, rotate_from, rotate, has_signer, is_last,
}

-- Every key of an operator in the first is one of the same operator in the second.
abbrev pub Keeps : Bindings → Bindings → Type 0
Keeps a b = (operator key : String) → binds a operator key ≡ true → binds b operator key ≡ true

any-all :
    (key : String) (ks : List String) (p : String → Bool)
    → any (λ k. k == key) ks ≡ true
    → all p ks ≡ true
    → p key ≡ true
any-all key [] p h g = absurd (ground (arith, h))
any-all key (k ∷ ks) p h g = elim (Bool-cases (k == key)) [
  | inl e ↦ subst (λ x. p x ≡ true) ((eq_iff k key).0 e) (ground (arith, g))
  | inr n ↦ any-all key ks p (ground (arith, h, n)) (ground (arith, g))
]

covers-binds :
    (b : Bindings) (operator key : String) (ks : List String)
    → covers b operator ks ≡ true
    → any (λ k. k == key) ks ≡ true
    → binds b operator key ≡ true
unfolding binds covers
covers-binds b operator key ks h g = elim (Option-cases (lookup operator b)) [
  | inl e ↦ absurd (ground (arith, e, h))
  | inr (ls, e) ↦
      rw (e, binds) (any-all key ks (λ x. any (λ k. k == x) ls) g (ground (arith, e, h)))
]

covered :
    (d b : Bindings) (operator key : String)
    → all (λ e. covers b e.0 e.1) d ≡ true
    → binds d operator key ≡ true
    → binds b operator key ≡ true
unfolding binds lookup
covered [] b operator key h g = absurd (ground (arith, g))
covered ((o, ks) ∷ d) b operator key h g = elim (Bool-cases (o == operator)) [
  | inl e ↦
      let same = (eq_iff o operator).0 e in
      covers-binds b operator key ks (subst (λ x. covers b x ks ≡ true) same (ground (arith, h)))
        (ground (arith, e, g))
  | inr n ↦ covered d b operator key (ground (arith, h)) (ground (arith, n, g))
]

is_additive-Keeps : (a b : Bindings) → is_additive a b ≡ true → Keeps a b
unfolding is_additive
is_additive-Keeps a b h operator key g = covered a b operator key (ground (arith, h)) g

same_bindings-Keeps : (a b : Bindings) → same_bindings a b ≡ true → a ≡ b
unfolding same_bindings
same_bindings-Keeps a b h = elim (Bindings-discrete a b) [
  | yes p ↦ p
  | no n ↦ absurd (ground (arith, h, n))
]

module _ (host : Host) (now : ℕ) where
  follow-Keeps :
      (index : ℕ) (previous : Bindings) (hash : String) (time : ℕ) (ts : List Transition)
      (reached : Bindings) (hash' : String) (time' : ℕ)
      → follow host now index previous hash time ts ≡ ok (reached, hash', time')
      → Keeps previous reached
  unfolding follow
  follow-Keeps index previous hash time [] reached hash' time' h operator key g =
      let same : previous ≡ reached = ground (arith, h) in
      subst (λ b. binds b operator key ≡ true) same g
  follow-Keeps index previous hash time (t ∷ ts) reached hash' time' h operator key g =
      elim (Result-cases (check_bindings t.bindings)) [
        | inr (e, f) ↦ absurd (ground (arith, f, h))
        | inl (u, e1) ↦
            elim (Result-cases (or_raise t.attestation.signed_at TrustError.bad_timestamp)) [
              | inr (e, f) ↦ absurd (ground (arith, e1, f, h))
              | inl (signed_at, e2) ↦ elim (Result-cases (timestamp host now signed_at)) [
                | inr (e, f) ↦ absurd (ground (arith, e1, e2, f, h))
                | inl (i, e3) ↦
                    let additive : is_additive previous t.bindings ≡ true = ground (arith, e1, h) in
                    let rest : follow host now (suc index) t.bindings (host.digest t.bindings) i ts
                        ≡ ok (reached, hash', time') =
                      ground (arith, e1, e2, e3, h) in
                    follow-Keeps (suc index) t.bindings (host.digest t.bindings) i ts reached hash'
                      time' rest operator key
                      (is_additive-Keeps previous t.bindings additive operator key g)
              ]
            ]
      ]

  -- Every key that was enrolled at first is a key of the same operator in a state that is read.
  from_dict-Keeps :
      (s t : State) → from_dict host now s ≡ ok t → (s ≡ t) × Keeps s.initial_bindings s.bindings
  unfolding from_dict
  from_dict-Keeps s t h = elim (Result-cases (timestamp host now s.enrolled_at)) [
    | inr (e, f) ↦ absurd (ground (arith, f, h))
    | inl (enrolled, e1) ↦ elim (Result-cases (timestamp host now s.updated_at)) [
      | inr (e, f) ↦ absurd (ground (arith, e1, f, h))
      | inl (updated, e2) ↦ elim (Result-cases (check_bindings s.initial_bindings)) [
        | inr (e, f) ↦ absurd (ground (arith, e1, e2, f, h))
        | inl (u, e3) ↦ elim (Result-cases (check_bindings s.bindings)) [
          | inr (e, f) ↦ absurd (ground (arith, e1, e2, e3, f, h))
          | inl (v, e4) ↦
              elim (Result-cases (
                follow host now 1 s.initial_bindings s.initial_bindings_hash enrolled
                  s.transitions)) [
                    | inr (e, f) ↦ absurd (ground (arith, e1, e2, e3, e4, f, h))
                    | inl ((reached, hash, time), e5) ↦
                        let arrived : same_bindings reached s.bindings ≡ true =
                          ground (arith, e1, e2, e3, e4, e5, h) in
                        let same : s ≡ t = ground (arith, e1, e2, e3, e4, e5, h) in
                        (
                          same,
                          subst (Keeps s.initial_bindings)
                              (same_bindings-Keeps reached s.bindings arrived)
                              (follow-Keeps 1 s.initial_bindings s.initial_bindings_hash enrolled
                                s.transitions reached hash time e5),
                        )
                  ]
        ]
      ]
    ]
  ]

  verify-same : (s : State) (policy : Bindings) → verify host s policy ≡ ok tt → policy ≡ s.bindings
  unfolding verify
  verify-same s policy h = same_bindings-Keeps policy s.bindings (ground (arith, h))

  -- What a rotation adds to a state: one generation, signed by a key that was bound before.
  abbrev pub Follows : State → Attestation → State → Type 0
  Follows s a u =
      (u.generation ≡ s.generation + 1)
      × (has_signer s.bindings a ≡ true)
      × Keeps s.bindings u.bindings

  successor-Follows :
      (s u : State) (current candidate : Bindings) (a : Attestation)
      → successor host now s current candidate a ≡ ok u
      → Follows s a u
  unfolding successor
  successor-Follows s u current candidate a h = elim (Result-cases (verify host s current)) [
    | inr (e, f) ↦ absurd (ground (arith, f, h))
    | inl (v, e1) ↦ elim (Result-cases (or_raise a.signed_at TrustError.bad_timestamp)) [
      | inr (e, f) ↦ absurd (ground (arith, e1, f, h))
      | inl (signed_at, e2) ↦
          elim (Result-cases (from_dict host now (rotated host s candidate a signed_at))) [
            | inr (e, f) ↦ absurd (ground (arith, e1, e2, f, h))
            | inl (w, e3) ↦
                let made = (from_dict-Keeps (rotated host s candidate a signed_at) w e3).0 in
                let same : w ≡ u =
                  ground (arith, e1, e2, e3, h, Result-cases (verify host w candidate)) in
                let additive : is_additive current candidate ≡ true = ground (arith, e1, h) in
                let signed : has_signer s.bindings a ≡ true = ground (arith, e1, h) in
                subst (Follows s a) (made ∙ same) (
                  refl,
                  signed,
                  subst (λ b. Keeps b candidate) (verify-same s current e1)
                      (is_additive-Keeps current candidate additive),
                )
          ]
    ]
  ]

  -- Where `rotate` returns a state, it is the enrolled one and the file stays, or it has one generation
  -- more, the attestation names a key of the enrolled generation, every key that was bound before is
  -- bound to its operator, and the file holds the state.
  pub rotate-Follows :
      (current candidate : Bindings) (a : Attestation) (file left : File) (s u : State)
      → get host now file ≡ ok (some s)
      → rotate host now current candidate a file ≡ (ok u, left)
      → ((u ≡ s) × (left ≡ file)) ⊎ (Follows s a u × (left ≡ File.holds u))
  unfolding rotate rotate_from write_state
  rotate-Follows current candidate a file left s u g h =
      elim (Bool-cases (same_bindings s.bindings candidate && is_last s.transitions a)) [
        | inl b ↦ elim (Result-cases (verify host s candidate)) [
          | inr (e, f) ↦ absurd (ground (arith, g, b, f, h))
          | inl (v, f) ↦ inl (ground (arith, g, b, f, h), ground (arith, g, b, f, h))
        ]
        | inr b ↦ elim (Result-cases (successor host now s current candidate a)) [
          | inr (e, f) ↦ absurd (ground (arith, g, b, f, h))
          | inl (w, e1) ↦ elim (Result-cases (from_dict host now w)) [
            | inr (e, f) ↦ absurd (ground (arith, g, b, e1, f, h))
            | inl (t, e2) ↦ elim (Bool-cases (host.saves t)) [
              | inr f ↦ absurd (ground (arith, g, b, e1, e2, f, h))
              | inl e3 ↦
                  let same : w ≡ u = ground (arith, g, b, e1, e2, e3, h) in
                  let written : left ≡ File.holds t = ground (arith, g, b, e1, e2, e3, h) in
                  let read = (from_dict-Keeps w t e2).0 in
                  inr (
                    subst (Follows s a) same (successor-Follows s w current candidate a e1),
                    written ∙ ap (λ x. File.holds x) (sym read ∙ same),
                  )
            ]
          ]
        ]
      ]
