-- ===== src/Trust/Types.antt =====
-- The durable state of operator trust and its transitions.
use native.Mathlib.Decide.{ℕ_discrete}
use defiant_agent_harness.Common.{ℕ, String, Bool, Option, List}
use defiant_agent_harness.Common.Dict.{Dict}
use defiant_agent_harness.Common.Text.{String-discrete}

-- The ids of the keys of each operator.
abbrev pub Bindings : Type 0
Bindings = Dict (List String)

-- What the store reads of a transition's attestation, `none` for a missing or mistyped value; `others`
-- is the canonical text of the rest, the signature included.
pub record Attestation : Type 0 where
  pub operator : Option String
  pub key_id : Option String
  pub note : Option String
  pub from_generation : Option ℕ
  pub to_generation : Option ℕ
  pub from_bindings_hash : Option String
  pub to_bindings_hash : Option String
  pub signed_at : Option String
  pub others : String

pub record Transition : Type 0 where
  pub attestation : Attestation
  pub bindings : Bindings

-- `OperatorTrustState`
pub record State : Type 0 where
  pub generation : ℕ
  pub enrolled_at : String
  pub updated_at : String
  pub initial_bindings : Bindings
  pub initial_bindings_hash : String
  pub bindings : Bindings
  pub bindings_hash : String
  pub transitions : List Transition

-- The file: absent, unreadable, without the schema's fields and types, or with them.
pub data File : Type 0 where
  missing broken wrong_fields : File
  holds : State → File

pub data TrustError : Type 0 where
  unreadable bad_fields bad_generation bad_timestamp early_update bad_bindings bad_hash : TrustError
  wrong_hash too_many_transitions wrong_count not_additive not_contiguous unbound : TrustError
  out_of_order not_reached wrong_update : TrustError
  not_configured unsigned refused_signature not_enrolled bad_signer keys_required write_failed :
      TrustError

-- What the host decides: the digest of bindings, the instant of a text with a time zone in
-- microseconds, whether an attestation has the form of a transition's statement and the key of an id
-- has signed it, and whether the file is written.
pub record Host : Type 0 where
  pub digest : Bindings → String
  pub instant : String → Option ℕ
  pub verifies : String → Attestation → Bool
  pub saves : State → Bool

unfoldable pub Bindings-discrete : Discrete Bindings
unfolding String-discrete
Bindings-discrete = hlevel (String-discrete)

unfoldable pub Attestation-discrete : Discrete Attestation
unfolding String-discrete
Attestation-discrete = hlevel (String-discrete, ℕ_discrete)
