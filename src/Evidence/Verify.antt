-- ===== src/Evidence/Verify.antt =====
-- What `verify_evidence_records` answers: an intact file is exactly a chain, and a fault is reported at
-- the first record that breaks it.
use defiant_agent_harness.Common.{
  ℕ, ◌+◌, String, ◌≡◌, refl, ◌∙◌, ap, ◌⊎◌, inl, inr, true, false, some, List, [], ◌∷◌, ◌++◌, length,
  arith, ◌==◌, eq_iff, Bool-cases, subst, ◌≢◌, ◌↔◌,
}
use native.Mathlib.Nat.{add-zero}
use defiant_agent_harness.Common.Digest.{genesis}
use defiant_agent_harness.Common.Result.{ok, Result-cases}
use defiant_agent_harness.Evidence.Types.{
  EvidenceRecord, Line, blank, unreadable, entry, Detail, ChainStatus,
}
use defiant_agent_harness.Evidence.Chain.{
  Digest, failure, intact, raw, readable, verify_from, verify_evidence_records, IsChain, last_hash,
}

module _ (sha256 : Digest) where
  -- A file that is reported intact can be read, and its records are a chain of that length.
  verify_from_inv :
      (previous : String) (index : ℕ) (lines : List Line)
      → (verify_from sha256 previous index lines).is_ok ≡ true
      → (raw lines ≡ ok (readable lines))
        × IsChain sha256 previous (readable lines)
        × (verify_from sha256 previous index lines ≡ intact (index + length (readable lines)))
  unfolding verify_from raw readable
  verify_from_inv previous index [] h = (refl, tt, rw add-zero)
  verify_from_inv previous index (blank ∷ lines) h = verify_from_inv previous index lines h
  verify_from_inv previous index (unreadable e ∷ lines) h = cc
  verify_from_inv previous index (entry r ∷ lines) h =
      let linked : (r.body.previous_record_hash == previous) ≡ true = ground arith in
      let sealed : (sha256 r.body == r.record_hash) ≡ true = ground arith in
      let (read, chained, status) =
        verify_from_inv r.record_hash (index + 1) lines (ground (arith, linked, sealed)) in
      (
        rw read,
        ((eq_iff _ previous).0 linked, (eq_iff _ r.record_hash).0 sealed, chained),
        rw (linked, sealed, status) (ap intact (omega arith)),
      )

  -- A chain that can be read is reported intact.
  verify_from-chain :
      (previous : String) (index : ℕ) (lines : List Line)
      → raw lines ≡ ok (readable lines)
      → IsChain sha256 previous (readable lines)
      → verify_from sha256 previous index lines ≡ intact (index + length (readable lines))
  unfolding verify_from raw readable
  verify_from-chain previous index [] e c = rw add-zero
  verify_from-chain previous index (blank ∷ lines) e c = verify_from-chain previous index lines e c
  verify_from-chain previous index (unreadable x ∷ lines) e c = cc
  verify_from-chain previous index (entry r ∷ lines) e (link, sealed, rest) =
      let read : raw lines ≡ ok (readable lines) = ground (arith, Result-cases (raw lines)) in
      let status = verify_from-chain r.record_hash (index + 1) lines read rest in
      let linked = (eq_iff r.body.previous_record_hash previous).1 link in
      let hashed = (eq_iff (sha256 r.body) r.record_hash).1 sealed in
      rw (linked, hashed, status) (ap intact (omega arith))

  -- A file is reported intact exactly where every line can be read and the records are a chain from
  -- the genesis hash.
  pub verify-IsChain :
      (lines : List Line)
      → ((verify_evidence_records sha256 lines).is_ok ≡ true)
        ↔ ((raw lines ≡ ok (readable lines)) × IsChain sha256 genesis (readable lines))
  unfolding verify_evidence_records
  verify-IsChain lines = (
    (λ h. let (read, chained, _) = verify_from_inv genesis 0 lines h in (read, chained)),
    (λ c. ap (λ s. s.is_ok) (verify_from-chain genesis 0 lines c.0 c.1)),
  )

  -- What breaks the chain after the hash `previous`: the record that follows, or a line that cannot
  -- be read.
  abbrev pub Breaks : String → List EvidenceRecord → List Line → Type 0
  Breaks previous after lines =
      ((after ≡ []) × (raw lines ≢ ok (readable lines)))
      ⊎ ((r : EvidenceRecord) × (rest : List EvidenceRecord) × (after ≡ r ∷ rest)
          × ¬ ((r.body.previous_record_hash ≡ previous) × (sha256 r.body ≡ r.record_hash)))

  abbrev pub Fault : String → ℕ → List Line → ChainStatus → Type 0
  Fault previous index lines status =
      (before : List EvidenceRecord) × (after : List EvidenceRecord) × (readable lines
        ≡ before ++ after)
      × (status.broken_at ≡ some (index + length before))
      × IsChain sha256 previous before
      × Breaks (last_hash previous before) after lines

  broken_here :
      (previous : String) (index : ℕ) (r : EvidenceRecord) (lines : List Line) (d : Detail)
      → ¬ ((r.body.previous_record_hash ≡ previous) × (sha256 r.body ≡ r.record_hash))
      → Fault previous index (entry r ∷ lines) (failure (index + 1) index d)
  unfolding readable raw last_hash
  broken_here previous index r lines d n =
      ([], r ∷ readable lines, refl, ap some (omega arith), tt, inr (r, readable lines, refl, n))

  broken_later :
      (previous : String) (index : ℕ) (r : EvidenceRecord) (lines : List Line) (s : ChainStatus)
      → r.body.previous_record_hash ≡ previous
      → sha256 r.body ≡ r.record_hash
      → Fault r.record_hash (index + 1) lines s
      → Fault previous index (entry r ∷ lines) s
  unfolding readable raw last_hash
  broken_later previous index r lines s link sealed (before, after, split, at, chained, breaks) = (
    r ∷ before,
    after,
    ap (λ rs. r ∷ rs) split,
    at ∙ ap some (omega arith),
    (link, sealed, chained),
    elim breaks [
      | inl (e, unread) ↦ inl (e, λ ok'. unread (ground (arith, ok', Result-cases (raw lines))))
      | inr b ↦ inr b
    ],
  )

  verify_from-Fault :
      (previous : String) (index : ℕ) (lines : List Line)
      → (verify_from sha256 previous index lines).is_ok ≡ false
      → Fault previous index lines (verify_from sha256 previous index lines)
  unfolding verify_from readable raw last_hash
  verify_from-Fault previous index [] h = cc
  verify_from-Fault previous index (blank ∷ lines) h = verify_from-Fault previous index lines h
  verify_from-Fault previous index (unreadable e ∷ lines) h =
      ([], [], refl, ap some (omega arith), tt, inl (refl, λ e. cc))
  verify_from-Fault previous index (entry r ∷ lines) h =
      elim (Bool-cases (r.body.previous_record_hash == previous)) [
        | inr n ↦
            subst (Fault previous index (entry r ∷ lines))
              {x = failure (index + 1) index Detail.wrong_link}
              {y = verify_from sha256 previous index (entry r ∷ lines)} (rw n refl)
              (broken_here previous index r lines Detail.wrong_link
                (λ c. let e = (eq_iff r.body.previous_record_hash previous).1 c.0 in cc))
        | inl l ↦ elim (Bool-cases (sha256 r.body == r.record_hash)) [
          | inr n ↦
              subst (Fault previous index (entry r ∷ lines))
                {x = failure (index + 1) index Detail.wrong_hash}
                {y = verify_from sha256 previous index (entry r ∷ lines)} (rw (l, n) refl)
                (broken_here previous index r lines Detail.wrong_hash
                  (λ c. let e = (eq_iff (sha256 r.body) r.record_hash).1 c.1 in cc))
          | inl k ↦
              subst (Fault previous index (entry r ∷ lines))
                {x = verify_from sha256 r.record_hash (index + 1) lines}
                {y = verify_from sha256 previous index (entry r ∷ lines)} (rw (l, k) refl)
                (broken_later previous index r lines
                  (verify_from sha256 r.record_hash (index + 1) lines)
                  ((eq_iff r.body.previous_record_hash previous).0 l)
                  ((eq_iff (sha256 r.body) r.record_hash).0 k)
                  (verify_from-Fault r.record_hash (index + 1) lines (ground (arith, l, k))))
        ]
      ]

  -- Where a file is not reported intact, the records before the reported index are a chain from the
  -- genesis hash, and the record at that index breaks it, or there is none and a line cannot be read.
  pub broken_at-first :
      (lines : List Line)
      → (verify_evidence_records sha256 lines).is_ok ≡ false
      → Fault genesis 0 lines (verify_evidence_records sha256 lines)
  unfolding verify_evidence_records
  broken_at-first lines h = verify_from-Fault genesis 0 lines h
