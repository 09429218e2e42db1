-- ===== src/Orchestrator/Once.antt =====
-- `handle_call` over any sequence of calls: a tool's function is called at most once for an action id.
use mathlib.Core.List.{append-nil}
use defiant_agent_harness.Common.{
  ℕ, ◌+◌, ◌≤◌, String, Bool, true, some, List, [], ◌∷◌, ◌++◌, ◌≡◌, sym, ap, ◌∙◌, subst, ◌⊎◌, inl,
  inr, arith, Bool-cases, ◌==◌, eq_iff, if◌then◌else◌,
}
use defiant_agent_harness.Common.Result.{Result-cases, ok}
use defiant_agent_harness.Policy.Types.{Action}
use defiant_agent_harness.Evidence.Types.{EvidenceRecord, Line, blank, unreadable, entry}
use defiant_agent_harness.Evidence.Chain.{raw}
use defiant_agent_harness.Evidence.Store.{first_record, first_by_action}
use defiant_agent_harness.Tools.Types.{CapabilityGrant}
use defiant_agent_harness.Orchestrator.Types.{Request, World, Host, Harness, Supply}
use defiant_agent_harness.Orchestrator.Records.{sealed}
use defiant_agent_harness.Orchestrator.Execute.{run_tool}
use defiant_agent_harness.Orchestrator.Handle.{handle}
use defiant_agent_harness.Orchestrator.Frame.{Keeps}
use defiant_agent_harness.Orchestrator.Frame.Running.{Keeps-handle}
use defiant_agent_harness.Orchestrator.Called.{Grows, Grows-IsFrame, run_tool-stores}
use defiant_agent_harness.Orchestrator.Dispatching.{first_by_action-append}
use defiant_agent_harness.Orchestrator.Guarded.{Ran, handle-Ran}

-- The action id has a record, and all lines before it can be read.
abbrev pub IsRecorded : String → List Line → Type 0
IsRecorded id lines = (r : EvidenceRecord) × (first_by_action id lines ≡ ok (some r))

first_record-found :
    (p : EvidenceRecord → Bool) (front back : List Line) (r : EvidenceRecord)
    (records : List EvidenceRecord)
    → raw (front ++ entry r ∷ []) ≡ ok records
    → p r ≡ true
    → (x : EvidenceRecord) × (first_record p (front ++ entry r ∷ back) ≡ ok (some x))
unfolding first_record raw
first_record-found p [] back r records h yes' = (r, ground (arith, yes'))
first_record-found p (blank ∷ front) back r records h yes' =
    first_record-found p front back r records h yes'
first_record-found p (unreadable e ∷ front) back r records h yes' = absurd (ground (arith, h))
first_record-found p (entry x ∷ front) back r records h yes' =
    elim (Result-cases (raw (front ++ entry r ∷ []))) [
      | inr (e, g) ↦ absurd (ground (arith, g, h))
      | inl (rs, g) ↦
          let (y, found) = first_record-found p front back r rs g yes' in
          elim (Bool-cases (p x)) [
            | inl first ↦ (x, ground (arith, first))
            | inr other ↦ (y, ground (arith, other, found))
          ]
    ]

-- A record of the action, after lines that can be read.
pub sealed-IsRecorded :
    (id : String) (front back : List Line) (r : EvidenceRecord) (records : List EvidenceRecord)
    → raw (front ++ entry r ∷ []) ≡ ok records
    → r.body.content.action_id ≡ id
    → IsRecorded id (front ++ entry r ∷ back)
unfolding first_by_action
sealed-IsRecorded id front back r records h same =
    first_record-found _ front back r records h (ground (arith, eq_iff r.body.content.action_id id))

IsRecorded-Grows :
    (id : String) (w w' : World)
    → Grows w w'
    → IsRecorded id w.evidence.lines
    → IsRecorded id w'.evidence.lines
IsRecorded-Grows id w w' (extra, grown) (r, found) =
    (r, ap (first_by_action id) grown ∙ first_by_action-append id w.evidence.lines extra r found)

-- How often a tool's function was called for an action of this id.
unfoldable pub calls_for : String → List Action → ℕ
calls_for id [] = 0
calls_for id (a ∷ as') = let n = calls_for id as' in if a.action_id == id then n + 1 else n

-- An id was not called for, or once, and then it has a record.
abbrev IsOnce : String → World → Type 0
IsOnce id w =
    (calls_for id w.invoked ≡ 0) ⊎ ((calls_for id w.invoked ≡ 1) × IsRecorded id w.evidence.lines)

pub run_tool-Grows :
    (host : Host) (harness : Harness) (action : Action) (g : CapabilityGrant)
    → Keeps Grows (run_tool host harness action g)
run_tool-Grows host harness action g = record {
  at = λ w. (
    [],
    ap (λ v. v.evidence.lines) (run_tool-stores host harness action g w)
        ∙ sym (append-nil w.evidence.lines),
  );
}

-- A call of `handle_call` or `preflight_external_call`, with its readings.
pub record Handling : Type 0 where
  pub action : Action
  pub request : Request
  pub owner : String
  pub key : String
  pub external : Bool
  pub supply : Supply

module _ (host : Host) (harness : Harness) where
  -- The stores after one call, which may have raised.
  abbrev pub after_call : Handling → World → World
  after_call h w = (handle host harness h.action h.request h.owner h.key h.external h.supply w).1

  -- The stores after a sequence of calls.
  unfoldable pub after_calls : List Handling → World → World
  after_calls [] w = w
  after_calls (h ∷ hs) w = after_calls hs (after_call h w)

  pub handle-Grows : (h : Handling) (w : World) → Grows w (after_call h w)
  handle-Grows h w =
      (Keeps-handle {R = Grows} host harness (run_tool-Grows host harness) h.action h.request
          h.owner h.key h.external h.supply).at
        w

  Ran-IsOnce :
      (id : String) (action : Action) (request : Request) (w w' : World)
      → Grows w w'
      → Ran host harness action request w w'
      → IsOnce id w
      → IsOnce id w'
  unfolding calls_for
  Ran-IsOnce id action request w w' grown ran once =
      let (records, read, intact) = ran.sealed_at in
      let recorded = subst (IsRecorded action.action_id) (sym ran.recorded) (
        sealed-IsRecorded action.action_id ran.front ran.back ran.authorization records read
          ran.for_action) in
      elim (Bool-cases (action.action_id == id)) [
        | inl this ↦
            let same : action.action_id ≡ id = ground (arith, eq_iff action.action_id id) in
            elim once [
              | inl never ↦ inr (
                ap (calls_for id) ran.called ∙ ground (arith, this, never),
                subst (λ i. IsRecorded i w'.evidence.lines) same recorded,
              )
              | inr (_, (r, found)) ↦
                  absurd (ran.fresh r (ap (λ i. first_by_action i w.evidence.lines) same ∙ found))
            ]
        | inr other ↦ elim once [
          | inl never ↦ inl (ap (calls_for id) ran.called ∙ ground (arith, other, never))
          | inr (one, known) ↦ inr (
            ap (calls_for id) ran.called ∙ ground (arith, other, one),
            IsRecorded-Grows id w w' grown known,
          )
        ]
      ]

  handle-IsOnce :
      (id : String) (h : Handling) (w : World) → IsOnce id w → IsOnce id (after_call h w)
  handle-IsOnce id h w once =
      let grown = handle-Grows h w in
      elim (handle-Ran host harness h.action h.request h.owner h.key h.external h.supply w) [
        | inl same ↦ elim once [
          | inl never ↦ inl (ap (calls_for id) same ∙ never)
          | inr (one, known) ↦
              inr (ap (calls_for id) same ∙ one, IsRecorded-Grows id w (after_call h w) grown known)
        ]
        | inr (internal, ran) ↦
            Ran-IsOnce id (sealed host h.action) h.request w (after_call h w) grown ran once
      ]

  after_calls-IsOnce :
      (id : String) (hs : List Handling) (w : World) → IsOnce id w → IsOnce id (after_calls hs w)
  unfolding after_calls
  after_calls-IsOnce id [] w once = once
  after_calls-IsOnce id (h ∷ hs) w once =
      after_calls-IsOnce id hs (after_call h w) (handle-IsOnce id h w once)

  -- Whatever calls follow whatever stores, and whatever fails in between, a tool's function that was
  -- called for no action of an id is called for it at most once.
  pub after_calls-once :
      (id : String) (hs : List Handling) (w : World)
      → calls_for id w.invoked ≡ 0
      → calls_for id (after_calls hs w).invoked ≤ 1
  after_calls-once id hs w never = elim (after_calls-IsOnce id hs w (inl never)) [
    | inl zero' ↦ omega (arith, zero')
    | inr (one, _) ↦ omega (arith, one)
  ]
