-- ===== src/Continuity/Document.antt =====
-- The document of an anchor and the reading of it.
use defiant_agent_harness.Common.{
  ℕ, String, Bool, true, ◌&&◌, ◌||◌, ◌≡◌, Option, some, inl, inr, leb, ◌==◌, eq_iff, eq_refl,
  Bool-cases, arith,
}
use defiant_agent_harness.Common.Dict.{lookup}
use defiant_agent_harness.Common.Int.{ℤ}
use defiant_agent_harness.Common.Digest.{is_sha256}
use defiant_agent_harness.Common.Result.{ok, Result-cases}
use defiant_agent_harness.Continuity.Types.{State, Value, number, text, Document, Host}
use defiant_agent_harness.Continuity.Store.{
  has_fields, is_text, sequence_of, hash_of, link_of, timestamp_of, expected_record_hash, from_dict,
  create, to_dict,
}

module _ (host : Host) where
  -- What every state that is read fulfils.
  unfoldable pub is_sound : State → Bool
  is_sound s =
      leb 1 s.sequence
      && is_sha256 s.checkpoint_hash
      && (s.prior_checkpoint_hash == "GENESIS" || is_sha256 s.prior_checkpoint_hash)
      && host.is_timestamp s.anchored_at
      && is_sha256 s.record_hash
      && s.record_hash == expected_record_hash host s

  link_sound :
      (p : String) → (p == "GENESIS" || is_sha256 p) ≡ true → link_of (some (text p)) ≡ ok p
  unfolding link_of is_text hash_of
  link_sound p h = elim (Bool-cases (p == "GENESIS")) [
    | inl e ↦ ground (arith, e, eq_iff p "GENESIS")
    | inr e ↦ ground (arith, e)
  ]

  to_dict_sound : (s : State) → is_sound s ≡ true → from_dict host (to_dict s) ≡ ok s
  unfolding is_sound from_dict to_dict lookup has_fields is_text sequence_of hash_of timestamp_of
      expected_record_hash
  to_dict_sound s h = ground (arith, link_sound s.prior_checkpoint_hash)

  sequence_ge : (v : Option Value) (n : ℕ) → sequence_of v ≡ ok n → leb 1 n ≡ true
  unfolding sequence_of
  sequence_ge v n h = ground arith

  hash_is : (v : Option Value) (t : String) → hash_of v ≡ ok t → is_sha256 t ≡ true
  unfolding hash_of
  hash_is v t h = ground arith

  timestamp_is :
      (v : Option Value) (t : String) → timestamp_of host v ≡ ok t → host.is_timestamp t ≡ true
  unfolding timestamp_of
  timestamp_is v t h = ground arith

  link_is :
      (v : Option Value) (t : String) → link_of v ≡ ok t → (t == "GENESIS" || is_sha256 t) ≡ true
  unfolding link_of
  link_is v t h = elim (Bool-cases (is_text v "GENESIS")) [
    | inl e ↦ ground (arith, e, eq_iff t "GENESIS")
    | inr e ↦ ground (arith, e, hash_is v t)
  ]

  from_dict_sound : (d : Document) (s : State) → from_dict host d ≡ ok s → is_sound s ≡ true
  unfolding is_sound from_dict
  from_dict_sound d s h = elim (Result-cases (sequence_of (lookup "sequence" d))) [
    | inl (n, e1) ↦ elim (Result-cases (hash_of (lookup "checkpoint_hash" d))) [
      | inl (c, e2) ↦ elim (Result-cases (link_of (lookup "prior_checkpoint_hash" d))) [
        | inl (p, e3) ↦ elim (Result-cases (timestamp_of host (lookup "anchored_at" d))) [
          | inl (t, e4) ↦ elim (Result-cases (hash_of (lookup "record_hash" d))) [
            | inl (r, e5) ↦ ground (
              arith,
              e1,
              e2,
              e3,
              e4,
              e5,
              sequence_ge _ n e1,
              hash_is _ c e2,
              link_is _ p e3,
              timestamp_is _ t e4,
              hash_is _ r e5,
            )
            | inr (e, f) ↦ absurd (ground (arith, f))
          ]
          | inr (e, f) ↦ absurd (ground (arith, f))
        ]
        | inr (e, f) ↦ absurd (ground (arith, f))
      ]
      | inr (e, f) ↦ absurd (ground (arith, f))
    ]
    | inr (e, f) ↦ absurd (ground (arith, f))
  ]

  create_sound :
      (sequence : ℤ) (c p now : String) (s : State)
      → host.is_timestamp now ≡ true
      → ((n : ℕ) (a b t : String) → is_sha256 (host.record_digest n a b t) ≡ true)
      → create host sequence c p now ≡ ok s
      → is_sound s ≡ true
  unfolding is_sound create expected_record_hash
  create_sound sequence c p now s t hashed h =
      elim (Result-cases (sequence_of (some (number sequence)))) [
        | inl (n, e1) ↦ elim (Result-cases (hash_of (some (text c)))) [
          | inl (c', e2) ↦ elim (Result-cases (link_of (some (text p)))) [
            | inl (p', e3) ↦ ground (
              arith,
              e1,
              e2,
              e3,
              sequence_ge _ n e1,
              hash_is _ c' e2,
              link_is _ p' e3,
              hashed n c' p' now,
              eq_refl (host.record_digest n c' p' now),
            )
            | inr (e, f) ↦ absurd (ground (arith, f))
          ]
          | inr (e, f) ↦ absurd (ground (arith, f))
        ]
        | inr (e, f) ↦ absurd (ground (arith, f))
      ]

-- A state read from any document reads back from the document that it is written as.
pub from_dict-to_dict :
    (host : Host) (d : Document) (s : State)
    → from_dict host d ≡ ok s
    → from_dict host (to_dict s) ≡ ok s
from_dict-to_dict host d s h = to_dict_sound host s (from_dict_sound host d s h)

pub create-to_dict :
    (host : Host) (sequence : ℤ) (c p now : String) (s : State)
    → host.is_timestamp now ≡ true
    → ((n : ℕ) (a b t : String) → is_sha256 (host.record_digest n a b t) ≡ true)
    → create host sequence c p now ≡ ok s
    → from_dict host (to_dict s) ≡ ok s
create-to_dict host sequence c p now s t hashed h =
    to_dict_sound host s (create_sound host sequence c p now s t hashed h)
