-- ===== src/Tools/Grants.antt =====
-- What a capability grant promises: one run, of the action that was authorized.
use defiant_agent_harness.Common.{
  ℕ, ◌+◌, ◌≤◌, String, ◌≡◌, refl, ◌∙◌, ap, ◌⊎◌, inl, inr, Bool, true, false, Option, none, some,
  List, [], ◌∷◌, length, arith, ◌==◌, eq_iff, eq_refl, Bool-cases, Option-cases,
}
use defiant_agent_harness.Common.Result.{ok, Result-cases}
use defiant_agent_harness.Policy.Types.{Action}
use defiant_agent_harness.Tools.Types.{
  surface_of, CapabilityGrant, Evidence, ToolSpec, Host, Registry,
}
use defiant_agent_harness.Tools.Registry.{
  Cell, validate_action, authorize, verify, spend, admit, effective, execute, execute_all,
}

-- How many runs a grant is still good for.
abbrev chances : Option CapabilityGrant → ℕ
chances none = 0
chances (some g) = elim g.spent [ true ↦ 0 | false ↦ 1 ]

module _ (host : Host) (registry : Registry) where
  spend_inv :
      (a : Action) (g g' : CapabilityGrant)
      → spend host a g ≡ ok g'
      → (g.spent ≡ false)
        × (g' ≡ record g { spent = true })
        × ((a.action_id == g.claims.action_id) ≡ true)
        × ((a.tool_name == g.claims.tool_name) ≡ true)
        × ((host.digest (surface_of a) == g.claims.authorization_hash) ≡ true)
  unfolding spend
  spend_inv a g g' h = ground arith

  -- A grant that is admitted was unspent, fits the live action, and is spent now.
  admit_inv :
      (a : Action) (g g' : CapabilityGrant) (spec : ToolSpec)
      → admit host registry a g ≡ ok (spec, g')
      → (g.spent ≡ false)
        × (g' ≡ record g { spent = true })
        × (a.action_id ≡ g.claims.action_id)
        × (a.tool_name ≡ g.claims.tool_name)
        × (host.digest (surface_of a) ≡ g.claims.authorization_hash)
  unfolding admit
  admit_inv a g g' spec h =
      let spending : spend host a g ≡ ok g' = ground (
        arith,
        Result-cases (verify host g),
        Result-cases (validate_action host registry a),
        Result-cases (spend host a g),
      ) in
      let (fresh, used, action, tool, surface) = spend_inv a g g' spending in
      (
        fresh,
        used,
        (eq_iff a.action_id g.claims.action_id).0 action,
        (eq_iff a.tool_name g.claims.tool_name).0 tool,
        (eq_iff (host.digest (surface_of a)) g.claims.authorization_hash).0 surface,
      )

  execute_bounded :
      (a : Action) (dry_run : Option Bool) (c : Cell)
      → let c' = (execute host registry a dry_run c).1 in
        length c'.invoked + chances c'.grant ≤ length c.invoked + chances c.grant
  unfolding execute
  execute_bounded a dry_run c = elim (Option-cases c.grant) [
    | inl e ↦ ground (arith, e)
    | inr (g, e) ↦ elim (Result-cases (admit host registry a g)) [
      | inr (error, f) ↦ ground (arith, e, f)
      | inl ((spec, g'), f) ↦
          let (fresh, used, _, _, _) = admit_inv a g g' spec f in
          elim (Bool-cases (effective registry dry_run)) [
            | inl d ↦ ground (arith, e, f, d, fresh, ap (λ x. x.spent) used)
            | inr d ↦ ground (arith, e, f, d, fresh, ap (λ x. x.spent) used)
          ]
    ]
  ]

  execute_all_bounded :
      (calls : List (Action × Option Bool)) (c : Cell)
      → let c' = execute_all host registry calls c in
        length c'.invoked + chances c'.grant ≤ length c.invoked + chances c.grant
  unfolding execute_all
  execute_all_bounded [] c = omega arith
  execute_all_bounded ((a, dry_run) ∷ calls) c = omega (
    arith,
    execute_bounded a dry_run c,
    execute_all_bounded calls (execute host registry a dry_run c).1,
  )

  chances-le-one : (g : Option CapabilityGrant) → chances g ≤ 1
  chances-le-one g = ground arith

  -- However often one grant is presented, and with whatever actions, at most one call of a tool's
  -- function is made.
  pub execute_once :
      (calls : List (Action × Option Bool)) (c : Cell)
      → length (execute_all host registry calls c).invoked ≤ length c.invoked + 1
  execute_once calls c = omega (arith, execute_all_bounded calls c, chances-le-one c.grant)

  -- A run that was made presented a grant of this action's id and tool whose authorization hash is
  -- that of the action's live fields; otherwise no call of a tool's function was made.
  pub execute-authorized :
      (a : Action) (dry_run : Option Bool) (g : CapabilityGrant) (invoked : List Action)
      → let c =
          (execute host registry a dry_run (record { grant = some g; invoked = invoked })).1 in
        (c.invoked ≡ invoked)
        ⊎ ((c.invoked ≡ a ∷ invoked)
            × (c.grant ≡ some (record g { spent = true }))
            × (g.spent ≡ false)
            × (a.action_id ≡ g.claims.action_id)
            × (a.tool_name ≡ g.claims.tool_name)
            × (host.digest (surface_of a) ≡ g.claims.authorization_hash))
  unfolding execute
  execute-authorized a dry_run g invoked = elim (Result-cases (admit host registry a g)) [
    | inr (error, f) ↦ inl (ground (arith, f))
    | inl ((spec, g'), f) ↦
        let (fresh, used, action, tool, surface) = admit_inv a g g' spec f in
        elim (Bool-cases (effective registry dry_run)) [
          | inl d ↦ inl (ground (arith, f, d))
          | inr d ↦
              inr (ground (arith, f, d), ground (arith, f, d, used), fresh, action, tool, surface)
        ]
  ]

  authorize_inv :
      (a : Action) (e : Evidence) (grant_id issued_at : String) (g : CapabilityGrant)
      → authorize host registry a e grant_id issued_at ≡ ok g
      → ((spec : ToolSpec) × (validate_action host registry a ≡ ok spec))
        × (g.spent ≡ false)
        × (g.signature ≡ host.sign g.claims)
        × (g.claims.action_id ≡ a.action_id)
        × (g.claims.tool_name ≡ a.tool_name)
        × (g.claims.authorization_hash ≡ a.authorization_hash)
  unfolding authorize
  authorize_inv a e grant_id issued_at g h = elim (Result-cases (validate_action host registry a)) [
    | inr (error, f) ↦ absurd (ground (arith, f))
    | inl (spec, f) ↦ (
      (spec, f),
      ground (arith, f),
      ground (arith, f),
      ground (arith, f),
      ground (arith, f),
      ground (arith, f),
    )
  ]

  verify-ok :
      (g : CapabilityGrant)
      → (host.sign g.claims == "") ≡ false
      → g.signature ≡ host.sign g.claims
      → verify host g ≡ ok tt
  unfolding verify
  verify-ok g signed same = rw (same, signed, eq_refl (host.sign g.claims)) refl

  spend-ok :
      (a : Action) (g : CapabilityGrant)
      → g.spent ≡ false
      → g.claims.action_id ≡ a.action_id
      → g.claims.tool_name ≡ a.tool_name
      → g.claims.authorization_hash ≡ host.digest (surface_of a)
      → spend host a g ≡ ok (record g { spent = true })
  unfolding spend
  spend-ok a g fresh action tool surface =
      rw
        (
          fresh,
          action,
          tool,
          surface,
          eq_refl a.action_id,
          eq_refl a.tool_name,
          eq_refl (host.digest (surface_of a)),
        )
        refl

  -- A grant that `authorize` issued for an action whose sealed hash is that of its live fields, where
  -- signatures are never empty: executed at once and not as a dry run, the tool's function is called
  -- exactly once, and the grant is spent.
  pub execute-authorize :
      (a : Action) (e : Evidence) (grant_id issued_at : String) (g : CapabilityGrant)
      (dry_run : Option Bool) (invoked : List Action)
      → (host.sign g.claims == "") ≡ false
      → a.authorization_hash ≡ host.digest (surface_of a)
      → effective registry dry_run ≡ false
      → authorize host registry a e grant_id issued_at ≡ ok g
      → (execute host registry a dry_run (record { grant = some g; invoked = invoked })).1
        ≡ record { grant = some (record g { spent = true }); invoked = a ∷ invoked }
  unfolding execute admit
  execute-authorize a e grant_id issued_at g dry_run invoked signed sealed real issued =
      let ((spec, valid), fresh, signature, action, tool, surface) =
        authorize_inv a e grant_id issued_at g issued in
      let verified = verify-ok g signed signature in
      let spent = spend-ok a g fresh action tool (surface ∙ sealed) in
      ground (arith, verified, valid, spent, real)

  -- A grant that `authorize` issued for the action `a`, whose sealed hash is that of its live fields,
  -- presented with any action `b`: no tool's function is called, or `b` has the id, the tool and the
  -- digest of all bound fields of `a`.
  pub authorized_surface :
      (a b : Action) (e : Evidence) (grant_id issued_at : String) (g : CapabilityGrant)
      (dry_run : Option Bool) (invoked : List Action)
      → a.authorization_hash ≡ host.digest (surface_of a)
      → authorize host registry a e grant_id issued_at ≡ ok g
      → let c =
          (execute host registry b dry_run (record { grant = some g; invoked = invoked })).1 in
        (c.invoked ≡ invoked)
        ⊎ ((b.action_id ≡ a.action_id)
            × (b.tool_name ≡ a.tool_name)
            × (host.digest (surface_of b) ≡ host.digest (surface_of a)))
  authorized_surface a b e grant_id issued_at g dry_run invoked sealed issued =
      let (valid, fresh, signature, action, tool, surface) =
        authorize_inv a e grant_id issued_at g issued in
      elim (execute-authorized b dry_run g invoked) [
        | inl none_run ↦ inl none_run
        | inr (ran, spent, unspent, action', tool', surface') ↦
            inr (action' ∙ action, tool' ∙ tool, surface' ∙ surface ∙ sealed)
      ]
