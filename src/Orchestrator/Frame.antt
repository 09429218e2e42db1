-- ===== src/Orchestrator/Frame.antt =====
-- What every method of the harness that runs no tool leaves as it is: a relation between the stores
-- before and after that each change of one store keeps is kept by every method.
pub mod Recovery
pub mod Methods
pub mod Running
pub mod Resuming
pub mod Completing
use defiant_agent_harness.Common.{
  String, Bool, true, false, Option, none, some, List, ◌++◌, ◌≡◌, refl, sym, ap, ◌∙◌, ◌⊎◌, arith,
  inl, inr, if◌then◌else◌,
}
use defiant_agent_harness.Common.Dict.{Dict}
use defiant_agent_harness.Common.Result.{Result, Result-cases, ok, err}
use defiant_agent_harness.Approvals.Types.{Approval, ApprovalError}
use defiant_agent_harness.Approvals.Operations.{create_prepared}
use defiant_agent_harness.Approvals.Store.{Store, Config}
use defiant_agent_harness.Approvals.Calls.{Call, call}
use defiant_agent_harness.Budgets.State.{left_by}
use defiant_agent_harness.Budgets.Types.{Ledger, BudgetError}
use defiant_agent_harness.Evidence.Types.{Line, EvidenceError}
use defiant_agent_harness.Evidence.Store.{Log}
use defiant_agent_harness.Journal.Types.{File, JournalError}
use defiant_agent_harness.Orchestrator.Types.{HarnessError, World}
use defiant_agent_harness.Orchestrator.Monad.{
  M, ◌>>=◌, pure, raise, require, refuse, when, or_raise, lift, on_evidence, on_budget, ask_budget,
  on_approvals, on_journal,
}

-- The changes of one store that the methods make: lines of evidence are added, and approvals are created
-- or changed by the calls of their store.
pub record IsFrame (R : World → World → Type 0) : Type 0 where
  pub same : (w : World) → R w w
  pub chain : (u v w : World) → R u v → R v w → R u w
  pub evidence :
      (w : World) (log : Log) (extra : List Line)
      → log.lines ≡ w.evidence.lines ++ extra
      → R w (record w { evidence = log })
  pub budget : (w : World) (l : Ledger) → R w (record w { budget = l })
  pub approvals :
      (w : World) (config : Config) (c : Call)
      → R w (record w { approvals = call config c w.approvals })
  pub creation :
      (w : World) (config : Config) (a : Approval)
      → R w (record w { approvals = (create_prepared config a w.approvals).1 })
  pub journal : (w : World) (f : File) → R w (record w { journal = f })
  pub bases : (w : World) (d : Dict String) → R w (record w { bases = d })

-- The stores after `m`, whether it returns or raises, are related to those before it.
pub record Keeps {A : Type 0} (R : World → World → Type 0) (m : M A) : Type 0 where
  pub at : (w : World) → R w (m w).1

module _ {R : World → World → Type 0} ⦃frame : IsFrame R⦄ where
  pub Keeps-pure : {A : Type 0} (a : A) → Keeps R (pure a)
  unfolding pure
  Keeps-pure a = record { at = λ w. frame.same w }

  pub Keeps-raise : {A : Type 0} (e : HarnessError) → Keeps R (raise {A = A} e)
  unfolding raise
  Keeps-raise e = record { at = λ w. frame.same w }

  pub Keeps-require : (b : Bool) (e : HarnessError) → Keeps R (require b e)
  unfolding require
  Keeps-require true e = record { at = λ w. frame.same w }
  Keeps-require false e = record { at = λ w. frame.same w }

  pub Keeps-refuse : (b : Bool) (e : HarnessError) → Keeps R (refuse b e)
  unfolding refuse
  Keeps-refuse true e = record { at = λ w. frame.same w }
  Keeps-refuse false e = record { at = λ w. frame.same w }

  pub Keeps-or_raise : {A : Type 0} (o : Option A) (e : HarnessError) → Keeps R (or_raise o e)
  unfolding or_raise
  Keeps-or_raise none e = record { at = λ w. frame.same w }
  Keeps-or_raise (some a) e = record { at = λ w. frame.same w }

  pub Keeps-lift : {E A : Type 0} (name : E → HarnessError) (r : Result E A) → Keeps R (lift name r)
  unfolding lift
  Keeps-lift name (ok a) = record { at = λ w. frame.same w }
  Keeps-lift name (err e) = record { at = λ w. frame.same w }

  pub Keeps-when : (b : Bool) (m : M (Unit {0})) → Keeps R m → Keeps R (when b m)
  unfolding when
  Keeps-when true m k = k
  Keeps-when false m k = Keeps-pure tt

  pub Keeps-if :
      {A : Type 0} (b : Bool) (m n : M A) → Keeps R m → Keeps R n → Keeps R (if b then m else n)
  Keeps-if true m n k l = k
  Keeps-if false m n k l = l

  continue :
      {A B : Type 0} (w v : World) (r : Result HarnessError A) (f : A → M B)
      → R w v
      → ((a : A) → Keeps R (f a))
      → R w (((λ (u : World). (r, v)) >>= f) w).1
  unfolding ◌>>=◌
  continue w v (ok a) f h k = frame.chain w v _ h ((k a).at v)
  continue w v (err e) f h k = h

  pub Keeps-bind :
      {A B : Type 0} (m : M A) (f : A → M B)
      → Keeps R m
      → ((a : A) → Keeps R (f a))
      → Keeps R (m >>= f)
  unfolding ◌>>=◌
  Keeps-bind m f h k = record { at = λ w. continue w (m w).1 (m w).0 f (h.at w) k }

  pub Keeps-ask_budget : {A : Type 0} (f : Ledger → Result BudgetError A) → Keeps R (ask_budget f)
  unfolding ask_budget
  Keeps-ask_budget f = record {
    at = λ w. elim (Result-cases (f w.budget)) [
      | inl (a, e) ↦ rw (e, ask_budget) (frame.same w)
      | inr (x, e) ↦ rw (e, ask_budget) (frame.same w)
    ];
  }

  pub Keeps-on_budget :
      {A : Type 0} (f : Ledger → Result BudgetError (A × Ledger)) → Keeps R (on_budget f)
  unfolding on_budget
  Keeps-on_budget f = record {
    at = λ w. elim (Result-cases (f w.budget)) [
      | inl ((a, l), e) ↦ rw (e, on_budget) (frame.budget w l)
      | inr (x, e) ↦ rw (e, on_budget) (frame.budget w (left_by x w.budget))
    ];
  }

  pub Keeps-on_journal :
      {A : Type 0} (f : File → Result JournalError A × File) → Keeps R (on_journal f)
  unfolding on_journal
  Keeps-on_journal f = record {
    at = λ w. elim (Result-cases (f w.journal).0) [
      | inl (a, e) ↦ rw (e, on_journal) (frame.journal w (f w.journal).1)
      | inr (x, e) ↦ rw (e, on_journal) (frame.journal w (f w.journal).1)
    ];
  }

  -- A method of the approval store that leaves the file as one of its calls does, or as it was.
  pub Keeps-on_approvals :
      {A : Type 0} (f : Store → Result ApprovalError A × Store) (config : Config) (c : Call)
      → ((s : Store) → (f s).1 ≡ call config c s)
      → Keeps R (on_approvals f)
  unfolding on_approvals
  Keeps-on_approvals f config c h = record {
    at = λ w. elim (Result-cases (f w.approvals).0) [
      | inl (a, e) ↦ rw (e, on_approvals, h w.approvals) (frame.approvals w config c)
      | inr (x, e) ↦ rw (e, on_approvals, h w.approvals) (frame.approvals w config c)
    ];
  }

  pub Keeps-create_prepared :
      (config : Config) (a : Approval) → Keeps R (on_approvals (create_prepared config a))
  unfolding on_approvals
  Keeps-create_prepared config a = record {
    at = λ w. elim (Result-cases (create_prepared config a w.approvals).0) [
      | inl (b, e) ↦ rw (e, on_approvals) (frame.creation w config a)
      | inr (x, e) ↦ rw (e, on_approvals) (frame.creation w config a)
    ];
  }

  pub Keeps-read_approvals :
      {A : Type 0} (f : Store → Result ApprovalError A × Store)
      → ((s : Store) → (f s).1 ≡ s)
      → Keeps R (on_approvals f)
  unfolding on_approvals
  Keeps-read_approvals f h = record {
    at = λ w. elim (Result-cases (f w.approvals).0) [
      | inl (a, e) ↦ rw (e, on_approvals, h w.approvals) (frame.same w)
      | inr (x, e) ↦ rw (e, on_approvals, h w.approvals) (frame.same w)
    ];
  }

  pub Keeps-on_evidence :
      {A : Type 0} (f : Log → Result EvidenceError A × Log)
      → ((log : Log) → (extra : List Line) × ((f log).1.lines ≡ log.lines ++ extra))
      → Keeps R (on_evidence f)
  unfolding on_evidence
  Keeps-on_evidence f h = record {
    at = λ w.
        let (extra, added) = h w.evidence in
        elim (Result-cases (f w.evidence).0) [
          | inl (a, e) ↦ rw (e, on_evidence) (frame.evidence w (f w.evidence).1 extra added)
          | inr (x, e) ↦ rw (e, on_evidence) (frame.evidence w (f w.evidence).1 extra added)
        ];
  }

-- A step that raised ends the block; one that returned hands on its answer and the stores it left.
pub bind_cases :
    {A B : Type 0} (m : M A) (f : A → M B) (w : World)
    → ((e : HarnessError) × ((m >>= f) w ≡ (err e, (m w).1)))
      ⊎ ((a : A) × (m w ≡ (ok a, (m w).1)) × ((m >>= f) w ≡ f a (m w).1))
unfolding ◌>>=◌
bind_cases m f w = elim (Result-cases (m w).0) [
  | inr (e, h) ↦ inl (e, rw (h, ◌>>=◌) refl)
  | inl (a, h) ↦ inr (a, ap (λ r. (r, (m w).1)) h, rw (h, ◌>>=◌) refl)
]

pub bind_ok :
    {A B : Type 0} (m : M A) (f : A → M B) (w w' : World) (b : B)
    → (m >>= f) w ≡ (ok b, w')
    → (a : A) × (m w ≡ (ok a, (m w).1)) × (f a (m w).1 ≡ (ok b, w'))
bind_ok m f w w' b h = elim (bind_cases m f w) [
  | inl (e, g) ↦ absurd (ground (arith, ap (λ p. p.0) (sym g ∙ h)))
  | inr (a, went, g) ↦ (a, went, sym g ∙ h)
]

pub ruleset keeping = (
  Keeps-pure, Keeps-raise, Keeps-require, Keeps-refuse, Keeps-or_raise, Keeps-lift, Keeps-when,
  Keeps-if, Keeps-bind, Keeps-ask_budget, Keeps-on_budget, Keeps-on_journal,
)
