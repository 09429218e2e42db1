-- ===== src/Orchestrator/Called.antt =====
-- What `_execute` changes: whether a tool's function was called, and that evidence was only added.
use mathlib.Core.List.{append-nil, append_assoc}
use defiant_agent_harness.Common.{
  String, false, some, List, [], ◌∷◌, ◌++◌, ◌≡◌, refl, sym, ap, ◌∙◌, subst, ◌⊎◌, inl, inr, arith,
  Bool-cases, Option-cases,
}
use defiant_agent_harness.Common.Result.{Result-cases}
use defiant_agent_harness.Policy.Types.{Action}
use defiant_agent_harness.Evidence.Types.{Content, Line}
use defiant_agent_harness.Evidence.Chain.{Digest}
use defiant_agent_harness.Evidence.Store.{seal}
use defiant_agent_harness.Tools.Types.{CapabilityGrant}
use defiant_agent_harness.Tools.Registry.{Cell, execute, admit}
use defiant_agent_harness.Orchestrator.Types.{World, Host, Harness}
use defiant_agent_harness.Orchestrator.Monad.{M, ◌>>=◌, lift}
use defiant_agent_harness.Orchestrator.Execute.{run_tool}
use defiant_agent_harness.Orchestrator.Frame.{IsFrame, Keeps, bind_cases}

-- No tool's function was called in between.
abbrev pub SameCalls : World → World → Type 0
SameCalls w w' = w'.invoked ≡ w.invoked

instance abbrev pub SameCalls-IsFrame : IsFrame SameCalls
SameCalls-IsFrame = record {
  same = λ w. refl;
  chain = λ u v w h k. k ∙ h;
  evidence = λ w log extra h. refl;
  budget = λ w l. refl;
  approvals = λ w config c. refl;
  creation = λ w config a. refl;
  journal = λ w f. refl;
  bases = λ w d. refl;
}

-- Lines of evidence were only added.
abbrev pub Grows : World → World → Type 0
Grows w w' = (extra : List Line) × (w'.evidence.lines ≡ w.evidence.lines ++ extra)

pub Grows-same : (w : World) → Grows w w
Grows-same w = ([], sym (append-nil w.evidence.lines))

pub Grows-chain : (u v w : World) → Grows u v → Grows v w → Grows u w
Grows-chain u v w (xs, h) (ys, k) =
    (xs ++ ys, k ∙ ap (λ l. l ++ ys) h ∙ append_assoc u.evidence.lines xs ys)

instance abbrev pub Grows-IsFrame : IsFrame Grows
Grows-IsFrame = record {
  same = Grows-same;
  chain = Grows-chain;
  evidence = λ w log extra h. (extra, h);
  budget = λ w l. Grows-same w;
  approvals = λ w config c. Grows-same w;
  creation = λ w config a. Grows-same w;
  journal = λ w f. Grows-same w;
  bases = λ w d. Grows-same w;
}

-- The action joined the calls of tools' functions, and the harness makes no dry runs.
abbrev pub Joined : Harness → Action → World → World → Type 0
Joined harness action w w' = (w'.invoked ≡ action ∷ w.invoked) × (harness.dry_run ≡ false)

pub execute_calls :
    (host : Host) (harness : Harness) (action : Action) (c : Cell)
    → let c' = (execute host.tools harness.registry action (some harness.dry_run) c).1 in
      (c'.invoked ≡ c.invoked) ⊎ ((c'.invoked ≡ action ∷ c.invoked) × (harness.dry_run ≡ false))
unfolding execute
execute_calls host harness action c = elim (Option-cases c.grant) [
  | inl e ↦ inl (ground (arith, e))
  | inr (g, e) ↦ elim (Result-cases (admit host.tools harness.registry action g)) [
    | inr (x, f) ↦ inl (ground (arith, e, f))
    | inl ((spec, g'), f) ↦ elim (Bool-cases harness.dry_run) [
      | inl d ↦ inl (ground (arith, e, f, d))
      | inr d ↦ inr (ground (arith, e, f, d), d)
    ]
  ]
]

pub run_tool-stores :
    (host : Host) (harness : Harness) (action : Action) (g : CapabilityGrant) (w : World)
    → (run_tool host harness action g w).1 ≡ record w {
      invoked =
          (execute host.tools harness.registry action
            (some harness.dry_run)
            (record { grant = some g; invoked = w.invoked })).1.invoked;
    }
unfolding run_tool lift
run_tool-stores host harness action g w =
    let c : Cell = record { grant = some g; invoked = w.invoked } in
    elim (Result-cases (execute host.tools harness.registry action (some harness.dry_run) c).0) [
      | inr (e, h) ↦ rw (h, run_tool) refl
      | inl (r, h) ↦ rw (h, run_tool) refl
    ]

pub content-seal : (sha256 : Digest) (c : Content) (p : String) → (seal sha256 c p).body.content ≡ c
unfolding seal
content-seal sha256 c p = refl

-- No call was made, or the action's, and lines of evidence were only added.
abbrev pub Called : Harness → Action → World → World → Type 0
Called harness action u w = SameCalls u w ⊎ (Joined harness action u w × Grows u w)

pub Called-then :
    {A B : Type 0} (harness : Harness) (action : Action) (m : M A) (f : A → M B) (u : World)
    → Called harness action u (m u).1
    → ((a : A) → Keeps SameCalls (f a))
    → ((a : A) → Keeps Grows (f a))
    → Called harness action u ((m >>= f) u).1
Called-then harness action m f u c k g = elim (bind_cases m f u) [
  | inl (e, h) ↦ subst (λ q. Called harness action u q.1) (sym h) c
  | inr (a, _, h) ↦
      subst (λ q. Called harness action u q.1) (sym h)
        (elim c [
          | inl same ↦ inl ((k a).at (m u).1 ∙ same)
          | inr ((joined, real), grown) ↦ inr (
            ((k a).at (m u).1 ∙ joined, real),
            Grows-chain u (m u).1 (f a (m u).1).1 grown ((g a).at (m u).1),
          )
        ])
]

pub then-Called :
    {A B : Type 0} (harness : Harness) (action : Action) (m : M A) (f : A → M B) (u : World)
    → (m u).1 ≡ u
    → ((a : A) → Called harness action u (f a u).1)
    → Called harness action u ((m >>= f) u).1
then-Called harness action m f u kept c = elim (bind_cases m f u) [
  | inl (e, h) ↦ inl (ap (λ q. q.1.invoked) h ∙ ap (λ v. v.invoked) kept)
  | inr (a, _, h) ↦
      subst (λ q. Called harness action u q.1) (sym h)
        (subst (λ v. Called harness action u (f a v).1) (sym kept) (c a))
]
