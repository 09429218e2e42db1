-- ===== src/Orchestrator/Approved.antt =====
-- `resume` and `resume_external`: what holds when an approved action's tool function is called.
use defiant_agent_harness.Common.{
  ◌&&◌, ◌||◌, String, Bool, true, false, not, Option, some, ◌≡◌, sym, ap, ◌∙◌, subst, ◌⊎◌, inl, inr,
  arith, if◌then◌else◌,
}
use defiant_agent_harness.Common.Result.{ok}
use defiant_agent_harness.Approvals.Types.{Attestation, Approval, is_pending, is_executing}
use defiant_agent_harness.Approvals.Checks.{is_ended}
use defiant_agent_harness.Approvals.Operations.{decide}
use defiant_agent_harness.Orchestrator.Types.{HarnessError, World, Host, Harness, Supply}
use defiant_agent_harness.Orchestrator.Monad.{
  lift, refuse, M, ◌>>=◌, ◌>>◌, pure, require, on_approvals,
}
use defiant_agent_harness.Orchestrator.Held.{Held, held}
use defiant_agent_harness.Orchestrator.Resume.{
  settled_approval, reject_held, run_approved, resume_external, resume,
}
use defiant_agent_harness.Orchestrator.Frame.{
  IsFrame, Keeps, bind_cases, Keeps-if, Keeps-pure, Keeps-refuse, Keeps-require, Keeps-lift,
  Keeps-bind,
}
use defiant_agent_harness.Orchestrator.Frame.Resuming.{
  Keeps-settled_approval, Keeps-decide, Keeps-reject_held,
}
use defiant_agent_harness.Orchestrator.Called.{SameCalls, SameCalls-IsFrame}
use defiant_agent_harness.Orchestrator.Spending.{Spends, Spends-IsFrame}
use defiant_agent_harness.Orchestrator.Warrant.{RanApproved, RanApproved-after}
use defiant_agent_harness.Orchestrator.Begun.{Ended, run_approved_cases}

module _ (host : Host) (harness : Harness) (id : String) where
  -- No tool's function was called, and the approval has no more chances than before.
  abbrev Still : World → World → Type 0
  Still w w' = SameCalls w w' × Spends id w w'

  abbrev Still-IsFrame : IsFrame Still
  Still-IsFrame =
      let calls = SameCalls-IsFrame in
      let spends = Spends-IsFrame id in
      record {
        same = λ w. (calls.same w, spends.same w);
        chain = λ u v w h k. (calls.chain u v w h.0 k.0, spends.chain u v w h.1 k.1);
        evidence = λ w log extra h. (calls.evidence w log extra h, spends.evidence w log extra h);
        budget = λ w l. (calls.budget w l, spends.budget w l);
        approvals = λ w config c. (calls.approvals w config c, spends.approvals w config c);
        creation = λ w config a. (calls.creation w config a, spends.creation w config a);
        journal = λ w f. (calls.journal w f, spends.journal w f);
        bases = λ w d. (calls.bases w d, spends.bases w d);
      }

  bind_went :
      {A B : Type 0} (m : M A) (f : A → M B) (w v : World) (a : A)
      → m w ≡ (ok a, v)
      → (m >>= f) w ≡ f a v
  unfolding ◌>>=◌
  bind_went m f w v a went = ap (λ q. ((λ (u : World). q) >>= f) w) went

  -- A block of statements that calls no tool's function, or the approval's, after the stores that `p`
  -- leaves.
  record Leads {A : Type 0} (external : Bool) (p : M (Unit {0})) (m : M A) : Type 0 where
    pub at : (w : World) → Ended host harness id external (p w).1 w (m w).1

  Leads-bind :
      {A B : Type 0} {external : Bool} (m : M A) (p : A → M (Unit {0})) (f : A → M B)
      → Keeps Still m
      → ((a : A) → Leads external (p a) (f a))
      → Leads external (m >>= p) (m >>= f)
  Leads-bind {external = external} m p f k l = record {
    at = λ w.
        let (same, less) = k.at w in
        elim (bind_cases m f w) [
          | inl (e, ended) ↦ inl (ap (λ q. q.1.invoked) ended ∙ same)
          | inr (a, went, goes) ↦
              let v = (m w).1 in
              let after : Ended host harness id external (p a v).1 w (f a v).1 = elim ((l a).at v) [
                | inl quiet ↦ inl (quiet ∙ same)
                | inr (internal, ran) ↦ inr (
                  internal,
                  RanApproved-after host harness id (p a v).1 w v (f a v).1 same less ran,
                )
              ] in
              subst (λ q. Ended host harness id external q.1 w ((m >>= f) w).1)
                (sym (bind_went m p w v a went))
                (subst (λ q. Ended host harness id external (p a v).1 w q.1) (sym goes) after)
        ];
  }

  -- A run of the approved action starts from the stores as they are.
  run_approved-Leads :
      (a : Approval) (h : Held) (by : Option String) (external : Bool) (supply : Supply)
      → Leads external (pure tt) (run_approved host harness id a h by external supply)
  unfolding pure
  run_approved-Leads a h by external supply = record {
    at = run_approved_cases host harness id a h by external supply;
  }

  -- `resume_external` calls no tool's function, whatever the stores and the approval.
  pub resume_external-SameCalls :
      (supply : Supply) (w : World) → SameCalls w (resume_external host harness id supply w).1
  unfolding resume_external
  resume_external-SameCalls supply w =
      elim ((Leads-bind _ _ _ (Keeps-refuse ⦃frame = Still-IsFrame⦄ _ _) (λ _.
        Leads-bind _ _ _ (Keeps-settled_approval ⦃frame = Still-IsFrame⦄ host harness id supply)
          (λ a. Leads-bind _ _ _ (Keeps-require ⦃frame = Still-IsFrame⦄ _ _) (λ _.
            Leads-bind _ _ _ (Keeps-lift ⦃frame = Still-IsFrame⦄ _ _)
              (λ h. run_approved-Leads a h a.decided_by true supply))))).at
        w) [ inl same ↦ same | inr (internal, ran) ↦ absurd (ground (arith, internal)) ]

  decided_or_pending :
      (a : Approval) (by note : String) (t : Option Attestation) (supply : Supply)
      → Keeps Still (
          if is_pending a.status
          then on_approvals
              (decide host.approvals id true by note t supply.decide_now supply.decide_stamp)
          else pure a)
  decided_or_pending a by note t supply =
      Keeps-if ⦃frame = Still-IsFrame⦄ (is_pending a.status) _ _
        (Keeps-decide ⦃frame = Still-IsFrame⦄ host harness id true by note t supply.decide_now
          supply.decide_stamp)
        (Keeps-pure ⦃frame = Still-IsFrame⦄ a)

  -- The approval that `resume` is to run: it is decided where it is pending.
  abbrev pub decided_approval :
      Approval → String → String → Option Attestation → Supply → M Approval
  decided_approval a by note t supply =
      if is_pending a.status
      then on_approvals
          (decide host.approvals id true by note t supply.decide_now supply.decide_stamp)
      else pure a

  -- What `resume` does before it begins to execute an approval.
  unfoldable pub until_begun : Bool → String → String → Option Attestation → Supply → M (Unit {0})
  until_begun approved by note t supply = do
    refuse (approved && harness.execution_disabled) HarnessError.execution_disabled
    a ← settled_approval host harness id supply
    refuse (is_executing a.status || is_ended a.status) HarnessError.wrong_status
    h ← lift (λ e. e) (held host a)
    if approved then (do decided ← decided_approval a by note t supply; pure tt) else pure tt

  decided_Leads :
      (approved : Bool) (a : Approval) (h : Held) (by note : String) (t : Option Attestation)
      (supply : Supply)
      → Leads
          (not approved)
          (if approved
            then (do decided ← decided_approval a by note t supply; pure tt)
            else pure tt)
          (if approved
            then (do
              decided ← decided_approval a by note t supply
              run_approved host harness id decided h (some by) false supply)
            else (do
              require (is_pending a.status) HarnessError.cannot_be_rejected
              reject_held host harness a h by note t supply))
  decided_Leads true a h by note t supply =
      Leads-bind _ _ _ (decided_or_pending a by note t supply)
        (λ decided. run_approved-Leads decided h (some by) false supply)
  decided_Leads false a h by note t supply = record {
    at = λ w. inl (
        (Keeps-bind {R = SameCalls} _ _ (Keeps-require _ _)
            (λ _. Keeps-reject_held host harness a h by note t supply)).at
          w);
  }

  -- Whatever the stores, `resume` calls no tool's function, or the call was approved and it calls exactly
  -- one: the approval that was stored when the execution was to begin was then granted, in time, for
  -- this very action and attested where keys are pinned, tool, scope and policy still support the
  -- action, a record that authorizes it was sealed on an intact chain, and the approval is used up
  -- (`RanApproved`).
  pub resume-RanApproved :
      (approved : Bool) (by note : String) (t : Option Attestation) (supply : Supply) (w : World)
      → let before = (until_begun approved by note t supply w).1 in
        let w' = (resume host harness id approved by note t supply w).1 in
        (w'.invoked ≡ w.invoked) ⊎ ((approved ≡ true) × RanApproved host harness id before w w')
  unfolding resume until_begun
  resume-RanApproved approved by note t supply w =
      elim ((Leads-bind _ _ _ (Keeps-refuse ⦃frame = Still-IsFrame⦄ _ _) (λ _.
        Leads-bind _ _ _ (Keeps-settled_approval ⦃frame = Still-IsFrame⦄ host harness id supply)
          (λ a. Leads-bind _ _ _ (Keeps-refuse ⦃frame = Still-IsFrame⦄ _ _) (λ _.
            Leads-bind _ _ _ (Keeps-lift ⦃frame = Still-IsFrame⦄ _ _)
              (λ h. decided_Leads approved a h by note t supply))))).at
        w) [ inl same ↦ inl same | inr (given, ran) ↦ inr (ground (arith, given), ran) ]
