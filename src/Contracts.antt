-- ===== src/Contracts.antt =====
-- The shared vocabulary of contracts.py: side effects, trust, decisions and result statuses.
use defiant_agent_harness.Common.{ℕ, String, Bool, true, false, List, [], ◌∷◌, any, if◌then◌else◌}

pub data SideEffect : Type 0 where
  none local_write external_send external_publish spend destructive : SideEffect

-- `SIDE_EFFECT_ORDER.index(level)`
unfoldable pub side_effect_rank : SideEffect → ℕ
side_effect_rank SideEffect.none = 0
side_effect_rank SideEffect.local_write = 1
side_effect_rank SideEffect.external_send = 2
side_effect_rank SideEffect.external_publish = 3
side_effect_rank SideEffect.spend = 4
side_effect_rank SideEffect.destructive = 5

pub data Trust : Type 0 where
  trusted untrusted derived : Trust

pub data Decision : Type 0 where
  allow block approval_required : Decision

pub data ResultStatus : Type 0 where
  succeeded failed blocked skipped pending_approval expired rejected not_executed : ResultStatus

-- `ContentRef`: where a piece of the payload came from.
pub record ContentRef : Type 0 where
  pub ref_id : String
  pub origin : String
  pub trust : Trust
  pub content_hash : String
  pub label : String

abbrev pub is_untrusted : Trust → Bool
is_untrusted Trust.untrusted = true
is_untrusted _ = false

abbrev pub is_derived : Trust → Bool
is_derived Trust.derived = true
is_derived _ = false

unfoldable pub worst_trust : List ContentRef → Trust
worst_trust [] = Trust.derived
worst_trust (r ∷ refs) =
    if any (λ ref. is_untrusted ref.trust) (r ∷ refs)
    then Trust.untrusted
    else if any (λ ref. is_derived ref.trust) (r ∷ refs)
    then Trust.derived
    else Trust.trusted
