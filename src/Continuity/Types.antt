-- ===== src/Continuity/Types.antt =====
-- The anchor of authority_publication_continuity.py, its document and its file.
use defiant_agent_harness.Common.{ℕ, String, Bool}
use defiant_agent_harness.Common.Dict.{Dict}
use defiant_agent_harness.Common.Int.{ℤ}

-- `AuthorityPublicationContinuityState`
pub record State : Type 0 where
  pub sequence : ℕ
  pub checkpoint_hash : String
  pub prior_checkpoint_hash : String
  pub anchored_at : String
  pub record_hash : String

-- A value of the document, as the reader returns it.
pub data Value : Type 0 where
  number : ℤ → Value
  text : String → Value
  other : Value

abbrev pub Document : Type 0
Document = Dict Value

pub data ContinuityError : Type 0 where
  bad_fields bad_schema bad_version bad_sequence bad_hash bad_timestamp : ContinuityError
  record_hash_mismatch did_not_advance wrong_predecessor late_start : ContinuityError
  not_an_object unreadable write_failed : ContinuityError

-- The file: absent, not readable as bounded JSON, some other JSON value, or an object.
pub data File : Type 0 where
  missing broken not_object : File
  holds : Document → File

-- What the host decides: the digest of the covered fields, which texts are times with a zone, and
-- whether a document can be written.
pub record Host : Type 0 where
  pub record_digest : ℕ → String → String → String → String
  pub is_timestamp : String → Bool
  pub saves : Document → Bool
