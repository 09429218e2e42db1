-- ===== src/Evidence/Types.antt =====
-- An evidence record, the file of records, and the checkpoint of its head.
use native.Mathlib.Decide.{ℕ_discrete}
use defiant_agent_harness.Common.{ℕ, String, Bool, Option}
use defiant_agent_harness.Common.Text.{String-discrete}
use defiant_agent_harness.Contracts.{Decision, ResultStatus}

-- The fields of `EvidenceRecord` that the store, the journal or the harness reads or compares;
-- `others` is the canonical text of all remaining ones.
pub record Content : Type 0 where
  pub record_id : String
  pub timestamp : String
  pub request_id : String
  pub action_id : String
  pub tool_name : String
  pub decision : Decision
  pub result_status : ResultStatus
  pub enforcement_basis : String
  pub ruleset_hash : String
  pub authorization_hash : String
  pub cost : ℕ
  pub reconciliation_outcome : String
  pub reconciled_by : String
  pub reconciled_at : Option String
  pub reconciliation_note : String
  pub others : String

-- What the record's own hash covers: `body()`.
pub record Body : Type 0 where
  pub content : Content
  pub previous_record_hash : String

pub record EvidenceRecord : Type 0 where
  pub body : Body
  pub record_hash : String

-- Why a line of the file cannot be read.
pub data ReadError : Type 0 where
  too_long bad_value bad_utf8 duplicate_key bad_json not_an_object : ReadError
  too_deep too_many_tokens string_too_long number_too_long : ReadError
  unavailable : ReadError

-- A line of the file as `_read_existing` finds it.
pub data Line : Type 0 where
  blank : Line
  unreadable : ReadError → Line
  entry : EvidenceRecord → Line

pub data Detail : Type 0 where
  chain_intact wrong_link wrong_hash : Detail
  read_failed : ReadError → Detail

pub record ChainStatus : Type 0 where
  pub is_ok : Bool
  pub count : ℕ
  pub broken_at : Option ℕ
  pub detail : Detail

-- `EvidenceHeadState`
pub record HeadState : Type 0 where
  pub profile_hash : String
  pub record_count : ℕ
  pub head_hash : String
  pub checkpointed_at : String

-- The checkpoint's file: what it holds is parsed, or it is missing or cannot be read.
pub data HeadFile : Type 0 where
  missing broken : HeadFile
  holds : HeadState → HeadFile

pub data HeadError : Type 0 where
  head_unreadable bad_hash bad_count not_genesis wrong_profile rollback diverged : HeadError
  not_initialized changed no_advance head_write_failed : HeadError

pub data EvidenceError : Type 0 where
  already_sealed unconfigured oversized append_failed conflict missing_store : EvidenceError
  broken_chain : Detail → EvidenceError
  unreadable_record : ReadError → EvidenceError
  head : HeadError → EvidenceError

unfoldable pub Body-discrete : Discrete Body
unfolding String-discrete
Body-discrete = hlevel (ℕ_discrete, String-discrete)

unfoldable pub Content-discrete : Discrete Content
unfolding String-discrete
Content-discrete = hlevel (ℕ_discrete, String-discrete)
