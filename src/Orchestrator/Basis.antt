-- ===== src/Orchestrator/Basis.antt =====
-- `enforcement_basis` of contracts.py, and `_action_bases`: which origin each action was recorded
-- under, kept for the 1024 actions that were used last.
use defiant_agent_harness.Common.{
  ℕ, String, Bool, ◌||◌, Option, none, some, [], ◌∷◌, ◌++◌, length, drop, ltb, ◌==◌, if◌then◌else◌,
}
use defiant_agent_harness.Common.Dict.{Dict, lookup, insert, erase}
use defiant_agent_harness.Evidence.Types.{EvidenceRecord}
use defiant_agent_harness.Evidence.Store.{first_by_action}
use defiant_agent_harness.Orchestrator.Types.{HarnessError, Harness}
use defiant_agent_harness.Orchestrator.Monad.{M, ◌>>=◌, ◌>>◌, pure, require, lift}

unfoldable pub is_basis : String → Bool
is_basis s =
    s == "" || s == "native_hook_preview" || s == "mcp_proxy" || s == "harness_control_loop"

-- `OrderedDict.move_to_end`, of a key that is there.
unfoldable pub move_to_end : String → Dict String → Dict String
move_to_end k d = elim (lookup k d) [ none ↦ d | some v ↦ erase k d ++ (k, v) ∷ [] ]

abbrev pub max_action_bases : ℕ
max_action_bases = 1024

-- The assignment, the move and the eviction of the least recently used action.
unfoldable pub remember : String → String → Dict String → Dict String
remember action_id basis d =
    let d' = move_to_end action_id (insert action_id basis d) in
    if ltb max_action_bases (length d') then drop 1 d' else d'

-- `_remember_action_basis`
unfoldable pub remember_action_basis : String → String → M String
remember_action_basis action_id basis = do
  require (is_basis basis) HarnessError.invalid_basis
  (λ w. (pure basis) (record w { bases = remember action_id basis w.bases }))

-- The origin that an action's first record names, or the harness's for an action without records.
unfoldable pub basis_of : Harness → Option EvidenceRecord → String
basis_of harness none = harness.evidence_basis
basis_of harness (some r) = r.body.content.enforcement_basis

unfoldable pub first_of : String → M (Option EvidenceRecord)
first_of action_id w = (lift HarnessError.unreadable (first_by_action action_id w.evidence.lines)) w

-- `_basis_for_action`
unfoldable pub basis_for_action : Harness → String → M String
basis_for_action harness action_id w = elim (lookup action_id w.bases) [
  | some basis ↦ (pure basis) (record w { bases = move_to_end action_id w.bases })
  | none ↦
      (do prior ← first_of action_id; remember_action_basis action_id (basis_of harness prior)) w
]
