-- ===== src/Evidence/Store.antt =====
-- `EvidenceStore` of evidence/store.py: the file of records with its checkpoint, and the methods that
-- write or read them. The file lock makes a method one step.
use defiant_agent_harness.Common.{
  ℕ, ◌+◌, String, Bool, true, false, not, ◌&&◌, Option, none, some, List, [], ◌∷◌, ◌++◌, any,
  select, ltb, length, ◌==◌, if◌then◌else◌,
}
use defiant_agent_harness.Common.Digest.{genesis}
use defiant_agent_harness.Common.Result.{Result, ok, err}
use defiant_agent_harness.Contracts.{ResultStatus}
use defiant_agent_harness.Evidence.Types.{
  Content, Content-discrete, Body, EvidenceRecord, ReadError, Line, blank, unreadable, entry,
  ChainStatus, HeadState, HeadFile, EvidenceError,
}
use defiant_agent_harness.Evidence.Chain.{
  Digest, raw, verify_evidence_records, verify_complete, last_hash,
}
use defiant_agent_harness.Evidence.Head.{reconcile_for_authority, advance}

-- limits.py
abbrev pub max_evidence_record_bytes : ℕ
max_evidence_record_bytes = 16777216

-- The file, the checkpoint's file, and the flag that allows one rebinding of the profile.
pub record Log : Type 0 where
  pub lines : List Line
  pub head : HeadFile
  pub allow_head_profile_rebind : Bool

-- What became of a line that was to be written: a write that fails may leave a part of it. The model
-- takes such a part as one that can't be read: a write that loses only the final newline, after which
-- the record can be read but the next line is added onto it, is outside the model.
pub data Written : Type 0 where
  whole nothing torn : Written

-- `profile` is present where a head store is configured. `line_bytes` is the length of a serialized
-- record; `writes` and `saves` are the file system's answers.
pub record Config : Type 0 where
  pub sha256 : Digest
  pub profile : Option String
  pub line_bytes : EvidenceRecord → ℕ
  pub writes : List Line → EvidenceRecord → Written
  pub saves : HeadState → Bool

abbrev pub is_terminal : ResultStatus → Bool
is_terminal ResultStatus.succeeded = true
is_terminal ResultStatus.failed = true
is_terminal ResultStatus.blocked = true
is_terminal ResultStatus.rejected = true
is_terminal ResultStatus.expired = true
is_terminal ResultStatus.not_executed = true
is_terminal _ = false

abbrev pub is_skipped : ResultStatus → Bool
is_skipped ResultStatus.skipped = true
is_skipped _ = false

-- `record.seal(previous)`
unfoldable pub seal : Digest → Content → String → EvidenceRecord
seal sha256 content previous =
    let body : Body = record { content = content; previous_record_hash = previous } in
    record { body = body; record_hash = sha256 body }

-- The record of this id, if one is there.
unfoldable pub find_record : String → List EvidenceRecord → Option EvidenceRecord
find_record id [] = none
find_record id (r ∷ rs) = if r.body.content.record_id == id then some r else find_record id rs

abbrev pub same_content : Content → Content → Bool
same_content a b = elim (Content-discrete a b) [ yes p ↦ true | no p ↦ false ]

-- The file after a line was to be added. A line that is written whole is taken to be one that can be
-- read: a record that nests deeper than the reader allows is outside the model too.
abbrev pub with_line : Written → EvidenceRecord → List Line → List Line
with_line Written.whole r lines = lines ++ entry r ∷ []
with_line Written.nothing r lines = lines
with_line Written.torn r lines = lines ++ unreadable ReadError.bad_json ∷ []

abbrev pub is_whole : Written → Bool
is_whole Written.whole = true
is_whole _ = false

module _ (config : Config) where
  abbrev pub M : Type 0 → Type 0
  M A = Log → Result EvidenceError A × Log

  -- `_reconcile_head_unlocked`, on records that were read.
  unfoldable pub reconcile_head : List EvidenceRecord → String → M (Unit {0})
  reconcile_head records now log = elim config.profile [
    | none ↦ (ok tt, log)
    | some profile ↦
        let (answer, file) =
          reconcile_for_authority config.saves profile records log.allow_head_profile_rebind now
            log.head in
        elim answer [
          | err e ↦ (err (EvidenceError.head e), record log { head = file })
          | ok s ↦ (ok tt, record log { head = file; allow_head_profile_rebind = false })
        ]
  ]

  -- `_advance_head`
  unfoldable pub advance_head : ℕ → String → String → String → M (Unit {0})
  advance_head count previous head now log = elim config.profile [
    | none ↦ (ok tt, log)
    | some profile ↦
        let (answer, file) =
          advance config.saves profile count previous (count + 1) head now log.head in
        elim answer [
          | err e ↦ (err (EvidenceError.head e), record log { head = file })
          | ok s ↦ (ok tt, record log { head = file })
        ]
  ]

  -- The end of both `append` methods: seal, write, advance.
  unfoldable pub extend : Content → List EvidenceRecord → String → M EvidenceRecord
  extend content records now log =
      let previous = last_hash genesis records in
      let r = seal config.sha256 content previous in
      if ltb max_evidence_record_bytes (config.line_bytes r)
      then (err EvidenceError.oversized, log)
      else (let written = config.writes log.lines r in
          let log' = record log { lines = with_line written r log.lines } in
          if is_whole written
          then (let (answer, log'') =
                advance_head (length records) previous r.record_hash now log' in
              elim answer [ ok _ ↦ (ok r, log'') | err e ↦ (err e, log'') ])
          else (err EvidenceError.append_failed, log'))

  -- The head of both: the chain is verified and the checkpoint reconciled.
  unfoldable pub opened : {A : Type 0} → String → (List EvidenceRecord → M A) → M A
  opened now continue log =
      let status = verify_evidence_records config.sha256 log.lines in
      if status.is_ok
      then (elim (raw log.lines) [
        | err e ↦ (err (EvidenceError.unreadable_record e), log)
        | ok records ↦
            let (answer, log') = reconcile_head records now log in
            elim answer [ err e ↦ (err e, log') | ok _ ↦ continue records log' ]
      ])
      else (err (EvidenceError.broken_chain status.detail), log)

  -- `append` of a record that is not sealed.
  unfoldable pub append : Content → String → M EvidenceRecord
  append content now = opened now (λ records. extend content records now)

  -- `append_idempotent`: a record of this id that is there answers, if it is the same.
  unfoldable pub append_idempotent : Content → String → M EvidenceRecord
  append_idempotent content now = opened now (λ records log.
      elim (find_record content.record_id records) [
        | none ↦ extend content records now log
        | some r ↦
            if same_content r.body.content content
            then (ok r, log)
            else (err EvidenceError.conflict, log)
      ])

  -- `_reconcile_head`, when the store is opened.
  unfoldable pub reconcile : String → M (Unit {0})
  reconcile now = opened now (λ records log. (ok tt, log))

  -- `head_hash`
  unfoldable pub head_hash : Log → Result EvidenceError String
  head_hash log =
      let status = verify_evidence_records config.sha256 log.lines in
      if status.is_ok
      then (elim (raw log.lines) [
        | err e ↦ err (EvidenceError.unreadable_record e)
        | ok records ↦ ok (last_hash genesis records)
      ])
      else err (EvidenceError.broken_chain status.detail)

-- `open_authorizations`: the sealed authorizations that no terminal record names.
unfoldable pub open_authorizations : List EvidenceRecord → List EvidenceRecord
open_authorizations records =
    select
      (λ r.
        is_skipped r.body.content.result_status
        && not (
            any
              (λ t.
                is_terminal t.body.content.result_status
                && t.body.content.authorization_hash == r.body.content.authorization_hash)
              records))
      records

unfoldable pub open_authorization : String → List EvidenceRecord → Option EvidenceRecord
open_authorization id records = find_record id (open_authorizations records)

unfoldable pub by_request : String → List EvidenceRecord → List EvidenceRecord
by_request id = select (λ r. r.body.content.request_id == id)

unfoldable pub by_action : String → List EvidenceRecord → List EvidenceRecord
by_action id = select (λ r. r.body.content.action_id == id)

-- The first record that a test accepts; the file is read no further.
unfoldable pub first_record :
    (EvidenceRecord → Bool) → List Line → Result ReadError (Option EvidenceRecord)
first_record p [] = ok none
first_record p (blank ∷ lines) = first_record p lines
first_record p (unreadable e ∷ lines) = err e
first_record p (entry r ∷ lines) =
    let rest = first_record p lines in if p r then ok (some r) else rest

unfoldable pub first_by_action : String → List Line → Result ReadError (Option EvidenceRecord)
first_by_action id = first_record (λ r. r.body.content.action_id == id)

unfoldable pub get : String → List Line → Result ReadError (Option EvidenceRecord)
get id = first_record (λ r. r.body.content.record_id == id)

-- `export_existing_request`, without the clock: the records of a request, the status, and the head
-- where the chain is intact.
pub record Export : Type 0 where
  pub records : List EvidenceRecord
  pub status : ChainStatus
  pub chain_head_hash : Option String

unfoldable pub export_request : Digest → String → List Line → Result EvidenceError Export
export_request sha256 id lines = elim (verify_complete sha256 lines) [
  | err e ↦ err (EvidenceError.unreadable_record e)
  | ok status ↦ elim (raw lines) [
    | err e ↦ err (EvidenceError.unreadable_record e)
    | ok records ↦ ok (record {
      records = by_request id records;
      status = status;
      chain_head_hash = if status.is_ok then some (last_hash genesis records) else none;
    })
  ]
]
