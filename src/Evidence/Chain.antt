-- ===== src/Evidence/Chain.antt =====
-- `verify_evidence_records`: the links and the hashes, from the first record to the first fault.
use defiant_agent_harness.Common.{
  ℕ, ◌+◌, String, ◌≡◌, true, false, none, some, List, [], ◌∷◌, ◌==◌, if◌then◌else◌,
}
use defiant_agent_harness.Common.Digest.{genesis}
use defiant_agent_harness.Common.Result.{Result, ok, err}
use defiant_agent_harness.Evidence.Types.{
  Body, EvidenceRecord, ReadError, Line, blank, unreadable, entry, Detail, ChainStatus,
}

-- The status of a chain whose first fault is at an index, after `count` records were counted.
abbrev pub failure : ℕ → ℕ → Detail → ChainStatus
failure count at detail = record {
  is_ok = false;
  count = count;
  broken_at = some at;
  detail = detail;
}

abbrev pub intact : ℕ → ChainStatus
intact count = record {
  is_ok = true;
  count = count;
  broken_at = none;
  detail = Detail.chain_intact;
}

-- What a reader sees of the file: each record, up to the first line that cannot be read.
unfoldable pub readable : List Line → List EvidenceRecord
readable [] = []
readable (blank ∷ lines) = readable lines
readable (unreadable e ∷ lines) = []
readable (entry r ∷ lines) = r ∷ readable lines

-- `list(self._raw())`
unfoldable pub raw : List Line → Result ReadError (List EvidenceRecord)
raw [] = ok []
raw (blank ∷ lines) = raw lines
raw (unreadable e ∷ lines) = err e
raw (entry r ∷ lines) = elim (raw lines) [ ok rs ↦ ok (r ∷ rs) | err e ↦ err e ]

-- `sha256_of` of a record's body.
abbrev pub Digest : Type 0
Digest = Body → String

module _ (sha256 : Digest) where
  -- The loop of `verify_evidence_records`, after `index` records with the hash `previous` last.
  unfoldable pub verify_from : String → ℕ → List Line → ChainStatus
  verify_from previous index [] = intact index
  verify_from previous index (blank ∷ lines) = verify_from previous index lines
  verify_from previous index (unreadable e ∷ lines) = failure index index (Detail.read_failed e)
  verify_from previous index (entry r ∷ lines) =
      let rest = verify_from r.record_hash (index + 1) lines in
      if r.body.previous_record_hash == previous
      then (if sha256 r.body == r.record_hash
          then rest
          else failure (index + 1) index Detail.wrong_hash)
      else failure (index + 1) index Detail.wrong_link

  unfoldable pub verify_evidence_records : List Line → ChainStatus
  verify_evidence_records lines = verify_from genesis 0 lines

  -- The same with `require_complete_read`: the rest is drained, and a read error is raised.
  unfoldable pub verify_complete : List Line → Result ReadError ChainStatus
  verify_complete lines = elim (raw lines) [
    | ok rs ↦ ok (verify_evidence_records lines)
    | err e ↦ err e
  ]

  -- Each record carries the hash before it and its own hash.
  abbrev pub IsChain : String → List EvidenceRecord → Type 0
  IsChain previous [] = Unit
  IsChain previous (r ∷ rs) =
      (r.body.previous_record_hash ≡ previous)
      × (sha256 r.body ≡ r.record_hash)
      × IsChain r.record_hash rs

-- The hash that the next record is to carry: `_head_hash_unchecked`.
unfoldable pub last_hash : String → List EvidenceRecord → String
last_hash previous [] = previous
last_hash previous (r ∷ rs) = last_hash r.record_hash rs
