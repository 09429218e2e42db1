-- ===== src/Evidence/Synced.antt =====
-- The checkpoint after a call of the evidence store that succeeded: it stands at the end of the records.
use defiant_agent_harness.Common.{
  subst, length-append, ◌+◌, String, ◌≡◌, refl, ap, ◌⊎◌, inl, inr, true, false, none, some, List,
  [], ◌∷◌, ◌++◌, length, arith, Option-cases,
}
use defiant_agent_harness.Common.Digest.{genesis, is_sha256}
use defiant_agent_harness.Common.Result.{ok, Result-cases}
use defiant_agent_harness.Evidence.Types.{EvidenceRecord}
use defiant_agent_harness.Evidence.Chain.{last_hash}
use defiant_agent_harness.Evidence.Head.{reconcile_for_authority, advance}
use defiant_agent_harness.Evidence.Store.{Log, Config, reconcile_head, advance_head}
use defiant_agent_harness.Evidence.Standing.{
  IsAt, reconcile_for_authority-IsAt, reconcile_for_authority-again, advance-IsAt,
}

-- The store's checkpoint, where it keeps one, stands at the end of these records, and its profile can
-- no longer be changed.
abbrev pub IsSynced : Config → List EvidenceRecord → Log → Type 0
IsSynced config records log =
    (config.profile ≡ none)
    ⊎ ((p : String) × (config.profile ≡ some p)
        × (is_sha256 p ≡ true)
        × IsAt p (length records) (last_hash genesis records) log.head
        × (log.allow_head_profile_rebind ≡ false))

pub last_hash-snoc :
    (p : String) (records : List EvidenceRecord) (r : EvidenceRecord)
    → last_hash p (records ++ r ∷ []) ≡ r.record_hash
unfolding last_hash
last_hash-snoc p [] r = refl
last_hash-snoc p (x ∷ records) r = last_hash-snoc x.record_hash records r

module _ (config : Config) (now : String) where
  pub reconcile_head-IsSynced :
      (records : List EvidenceRecord) (log log' : Log)
      → reconcile_head config records now log ≡ (ok tt, log')
      → (log'.lines ≡ log.lines) × IsSynced config records log'
  unfolding reconcile_head
  reconcile_head-IsSynced records log log' h = elim (Option-cases config.profile) [
    | inl e ↦ (ground (arith, e), inl e)
    | inr (p, e) ↦
        let r =
          reconcile_for_authority config.saves p records log.allow_head_profile_rebind now
            log.head in
        elim (Result-cases r.0) [
          | inr (x, f) ↦ absurd (ground (arith, e, f))
          | inl (s, f) ↦
              let (digest, at) =
                reconcile_for_authority-IsAt config.saves p records log.allow_head_profile_rebind
                  now log.head r.1 s (ap (λ a. (a, r.1)) f) in
              let head : r.1 ≡ log'.head = ground (arith, e, f) in
              (
                ground (arith, e, f),
                inr (
                  p,
                  e,
                  digest,
                  subst (IsAt p (length records) (last_hash genesis records)) head at,
                  ground (arith, e, f),
                ),
              )
        ]
  ]

  -- Records at whose end the checkpoint stands are accepted again, and nothing changes.
  pub reconcile_head-again :
      (records : List EvidenceRecord) (log : Log)
      → IsSynced config records log
      → reconcile_head config records now log ≡ (ok tt, log)
  unfolding reconcile_head
  reconcile_head-again records log (inl e) = rw e refl
  reconcile_head-again records log (inr (p, e, digest, at, fixed)) =
      let again =
        reconcile_for_authority-again config.saves p records log.allow_head_profile_rebind now
          log.head digest at in
      ground (arith, e, again, fixed)

  pub advance_head-IsSynced :
      (records : List EvidenceRecord) (r : EvidenceRecord) (log log' : Log)
      → IsSynced config records log
      → advance_head config (length records) (last_hash genesis records) r.record_hash now log
        ≡ (ok tt, log')
      → (log'.lines ≡ log.lines) × IsSynced config (records ++ r ∷ []) log'
  unfolding advance_head
  advance_head-IsSynced records r log log' (inl e) h = (ground (arith, e), inl e)
  advance_head-IsSynced records r log log' (inr (p, e, digest, at, fixed)) h =
      let previous = last_hash genesis records in
      let a =
        advance config.saves p (length records) previous (length records + 1) r.record_hash now
          log.head in
      elim (Result-cases a.0) [
        | inr (x, f) ↦ absurd (ground (arith, e, f))
        | inl (s, f) ↦
            let at' =
              advance-IsAt config.saves p (length records) (length records + 1) previous
                r.record_hash now log.head a.1 s (ap (λ b. (b, a.1)) f) in
            let head : a.1 ≡ log'.head = ground (arith, e, f) in
            (
              ground (arith, e, f),
              inr (
                p,
                e,
                digest,
                rw (length-append records (r ∷ []), last_hash-snoc genesis records r)
                    (subst (IsAt p (length records + 1) r.record_hash) head at'),
                ground (arith, e, f, fixed),
              ),
            )
      ]
