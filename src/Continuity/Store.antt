-- ===== src/Continuity/Store.antt =====
-- `AuthorityPublicationContinuityState` and `AuthorityPublicationContinuityStore`.
use defiant_agent_harness.Common.{
  ℕ, ◌+◌, String, Bool, false, ◌&&◌, Option, none, some, List, [], ◌∷◌, map, any, all, eqb, leb,
  ◌==◌, if◌then◌else◌,
}
use defiant_agent_harness.Common.Dict.{lookup}
use defiant_agent_harness.Common.Int.{ℤ, pos, negsuc}
use defiant_agent_harness.Common.Digest.{is_sha256}
use defiant_agent_harness.Common.Result.{Result, ok, err, ◌>>=◌, ◌>>◌, require}
use defiant_agent_harness.Continuity.Types.{
  State, Value, number, text, other, Document, ContinuityError, File, Host,
}

abbrev pub schema_name : String
schema_name = "defiant.authority_publication_continuity"

abbrev pub schema_version : String
schema_version = "0.1.0"

abbrev pub state_fields : List String
state_fields =
    "schema_name" ∷ "schema_version" ∷ "sequence" ∷ "checkpoint_hash" ∷ "prior_checkpoint_hash"
    ∷ "anchored_at" ∷ "record_hash" ∷ []

-- `set(snapshot) == _STATE_FIELDS`
unfoldable pub has_fields : Document → Bool
has_fields d =
    let keys = map (λ kv. kv.0) d in
    all (λ k. any (λ f. f == k) state_fields) keys && all (λ f. any (λ k. k == f) keys) state_fields

-- `snapshot.get(k) == s`, for a text `s`.
unfoldable pub is_text : Option Value → String → Bool
is_text (some (text t)) s = t == s
is_text (some (number n)) s = false
is_text (some other) s = false
is_text none s = false

-- `_sequence`
unfoldable pub sequence_of : Option Value → Result ContinuityError ℕ
sequence_of (some (number (pos n))) = if leb 1 n then ok n else err ContinuityError.bad_sequence
sequence_of (some (number (negsuc n))) = err ContinuityError.bad_sequence
sequence_of (some (text t)) = err ContinuityError.bad_sequence
sequence_of (some other) = err ContinuityError.bad_sequence
sequence_of none = err ContinuityError.bad_sequence

-- `_hash`
unfoldable pub hash_of : Option Value → Result ContinuityError String
hash_of (some (text t)) = if is_sha256 t then ok t else err ContinuityError.bad_hash
hash_of (some (number n)) = err ContinuityError.bad_hash
hash_of (some other) = err ContinuityError.bad_hash
hash_of none = err ContinuityError.bad_hash

-- `_checkpoint_link`
unfoldable pub link_of : Option Value → Result ContinuityError String
link_of v = if is_text v "GENESIS" then ok "GENESIS" else hash_of v

module _ (host : Host) where
  -- `_timestamp`
  unfoldable pub timestamp_of : Option Value → Result ContinuityError String
  timestamp_of (some (text t)) =
      if host.is_timestamp t then ok t else err ContinuityError.bad_timestamp
  timestamp_of (some (number n)) = err ContinuityError.bad_timestamp
  timestamp_of (some other) = err ContinuityError.bad_timestamp
  timestamp_of none = err ContinuityError.bad_timestamp

  unfoldable pub expected_record_hash : State → String
  expected_record_hash s =
      host.record_digest s.sequence s.checkpoint_hash s.prior_checkpoint_hash s.anchored_at

  unfoldable pub from_dict : Document → Result ContinuityError State
  from_dict d = do
    require (has_fields d) ContinuityError.bad_fields
    require (is_text (lookup "schema_name" d) schema_name) ContinuityError.bad_schema
    require (is_text (lookup "schema_version" d) schema_version) ContinuityError.bad_version
    n ← sequence_of (lookup "sequence" d)
    checkpoint ← hash_of (lookup "checkpoint_hash" d)
    prior ← link_of (lookup "prior_checkpoint_hash" d)
    at ← timestamp_of (lookup "anchored_at" d)
    hash ← hash_of (lookup "record_hash" d)
    let s : State = record {
      sequence = n;
      checkpoint_hash = checkpoint;
      prior_checkpoint_hash = prior;
      anchored_at = at;
      record_hash = hash;
    }
    require (hash == expected_record_hash s) ContinuityError.record_hash_mismatch
    ok s

  -- The new state whose record hash is computed; `now` is the reading of the clock.
  unfoldable pub create : ℤ → String → String → String → Result ContinuityError State
  create sequence checkpoint_hash prior_checkpoint_hash now = do
    n ← sequence_of (some (number sequence))
    checkpoint ← hash_of (some (text checkpoint_hash))
    prior ← link_of (some (text prior_checkpoint_hash))
    ok (record {
      sequence = n;
      checkpoint_hash = checkpoint;
      prior_checkpoint_hash = prior;
      anchored_at = now;
      record_hash = host.record_digest n checkpoint prior now;
    })

  unfoldable pub get : File → Result ContinuityError (Option State)
  get File.missing = ok none
  get File.broken = err ContinuityError.unreadable
  get File.not_object = err ContinuityError.not_an_object
  get (File.holds d) = do s ← from_dict d; ok (some s)

unfoldable pub to_dict : State → Document
to_dict s =
    ("schema_name", text schema_name)
    ∷ ("schema_version", text schema_version)
    ∷ ("sequence", number (pos s.sequence))
    ∷ ("checkpoint_hash", text s.checkpoint_hash)
    ∷ ("prior_checkpoint_hash", text s.prior_checkpoint_hash)
    ∷ ("anchored_at", text s.anchored_at)
    ∷ ("record_hash", text s.record_hash)
    ∷ []

-- The answer of a call, and the file that it leaves.
abbrev pub Answer : Type 0
Answer = Result ContinuityError State × File

-- `current` is the candidate, apart from the time.
unfoldable pub is_repeat : State → State → Bool
is_repeat current candidate =
    eqb current.sequence candidate.sequence
    && current.checkpoint_hash == candidate.checkpoint_hash
    && current.prior_checkpoint_hash == candidate.prior_checkpoint_hash

module _ (host : Host) where
  -- `atomic_write_json`
  unfoldable pub write : State → File → Answer
  write s file =
      if host.saves (to_dict s)
      then (ok s, File.holds (to_dict s))
      else (err ContinuityError.write_failed, file)

  -- `advance`, on the candidate and what `get` found.
  unfoldable pub replace : State → Option State → File → Answer
  replace s none file =
      if eqb s.sequence 1 then write s file else (err ContinuityError.late_start, file)
  replace s (some current) file =
      if is_repeat current s
      then (ok current, file)
      else if eqb s.sequence (current.sequence + 1)
      then (if s.prior_checkpoint_hash == current.checkpoint_hash
          then write s file
          else (err ContinuityError.wrong_predecessor, file))
      else (err ContinuityError.did_not_advance, file)

  unfoldable pub advance : ℤ → String → String → String → File → Answer
  advance sequence checkpoint_hash prior_checkpoint_hash now file =
      elim (create host sequence checkpoint_hash prior_checkpoint_hash now) [
        | err e ↦ (err e, file)
        | ok s ↦ elim (get host file) [
          | err e ↦ (err e, file)
          | ok current ↦ replace s current file
        ]
      ]
