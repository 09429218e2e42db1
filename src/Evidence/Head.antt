-- ===== src/Evidence/Head.antt =====
-- evidence_head.py: the durable checkpoint of the evidence head, bound to an authority profile.
use defiant_agent_harness.Common.{
  ℕ, zero, suc, ◌-◌, String, Bool, ◌&&◌, not, Option, none, some, List, [], ◌∷◌, length, eqb, ltb,
  leb, ◌==◌, if◌then◌else◌,
}
use defiant_agent_harness.Common.Digest.{is_sha256, genesis}
use defiant_agent_harness.Common.Result.{Result, ok, err, ◌>>=◌, ◌>>◌, require, refuse}
use defiant_agent_harness.Evidence.Types.{EvidenceRecord, HeadState, HeadFile, HeadError}
use defiant_agent_harness.Evidence.Chain.{last_hash}

-- `assess_evidence_head` answers one of four words.
pub data Position : Type 0 where
  verified forward_recovery rollback diverged : Position

-- `records[i]["record_hash"]`
unfoldable pub hash_at : List EvidenceRecord → ℕ → String
hash_at [] i = ""
hash_at (r ∷ rs) zero = r.record_hash
hash_at (r ∷ rs) (suc i) = hash_at rs i

unfoldable pub assess_evidence_head : HeadState → List EvidenceRecord → Position
assess_evidence_head s records =
    if eqb (length records) s.record_count
    then (if last_hash genesis records == s.head_hash then Position.verified else Position.diverged)
    else if ltb (length records) s.record_count
    then Position.rollback
    else if eqb s.record_count 0
    then (if s.head_hash == genesis then Position.forward_recovery else Position.diverged)
    else if hash_at records (s.record_count - 1) == s.head_hash
    then Position.forward_recovery
    else Position.diverged

-- `_from_snapshot`, on a document with the schema's fields.
unfoldable pub check_state : HeadState → Result HeadError HeadState
check_state s = do
  require (is_sha256 s.profile_hash) HeadError.bad_hash
  require (is_sha256 s.head_hash) HeadError.bad_hash
  refuse (eqb s.record_count 0 && not (s.head_hash == genesis)) HeadError.not_genesis
  ok s

-- `get`
unfoldable pub get : HeadFile → Result HeadError (Option HeadState)
get HeadFile.missing = ok none
get HeadFile.broken = err HeadError.head_unreadable
get (HeadFile.holds s) = do state ← check_state s; ok (some state)

-- The answer of a method, and the file that it leaves. `saves` is the file system's answer.
abbrev pub Answer : Type 0
Answer = Result HeadError HeadState × HeadFile

-- `_write`
unfoldable pub write : (HeadState → Bool) → String → ℕ → String → String → HeadFile → Answer
write saves profile count head now file =
    let s : HeadState = record {
      profile_hash = profile;
      record_count = count;
      head_hash = head;
      checkpointed_at = now;
    } in
    elim (check_state s) [
      | err e ↦ (err e, file)
      | ok state ↦
          if saves state
          then (ok state, HeadFile.holds state)
          else (err HeadError.head_write_failed, file)
    ]

-- What `reconcile_for_authority` does at each position of the checkpoint.
unfoldable pub settle_position : Position → HeadState → Answer → HeadFile → Answer
settle_position Position.verified s written file = (ok s, file)
settle_position Position.forward_recovery s written file = written
settle_position Position.rollback s written file = (err HeadError.rollback, file)
settle_position Position.diverged s written file = (err HeadError.diverged, file)

-- The same under another profile, which is written in either good case.
unfoldable pub rebind_position : Position → Answer → HeadFile → Answer
rebind_position Position.verified written file = written
rebind_position Position.forward_recovery written file = written
rebind_position Position.rollback written file = (err HeadError.rollback, file)
rebind_position Position.diverged written file = (err HeadError.diverged, file)

unfoldable pub reconcile_for_authority :
    (HeadState → Bool) → String → List EvidenceRecord → Bool → String → HeadFile → Answer
reconcile_for_authority saves profile records allow_profile_rebind now file =
    let written = write saves profile (length records) (last_hash genesis records) now file in
    if is_sha256 profile
    then (elim (get file) [
      | err e ↦ (err e, file)
      | ok none ↦ written
      | ok (some s) ↦
          if s.profile_hash == profile
          then settle_position (assess_evidence_head s records) s written file
          else if allow_profile_rebind
          then rebind_position (assess_evidence_head s records) written file
          else (err HeadError.wrong_profile, file)
    ])
    else (err HeadError.bad_hash, file)

unfoldable pub advance :
    (HeadState → Bool) → String → ℕ → String → ℕ → String → String → HeadFile → Answer
advance saves profile previous_count previous_head count head now file =
    if is_sha256 profile && is_sha256 previous_head && is_sha256 head
    then (if leb count previous_count then (err HeadError.no_advance, file) else (elim (get file) [
      | err e ↦ (err e, file)
      | ok none ↦ (err HeadError.not_initialized, file)
      | ok (some s) ↦
          if s.profile_hash == profile
          then (if eqb s.record_count count && s.head_hash == head
              then (ok s, file)
              else if eqb s.record_count previous_count && s.head_hash == previous_head
              then write saves profile count head now file
              else (err HeadError.changed, file))
          else (err HeadError.wrong_profile, file)
    ]))
    else (err HeadError.bad_hash, file)
