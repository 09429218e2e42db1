-- ===== src/Evidence/Append.antt =====
-- Appending to the evidence chain: what a successful call leaves.
use defiant_agent_harness.Common.{
  String, ◌≡◌, refl, sym, ◌∙◌, ap, ◌⊎◌, inl, inr, true, false, none, some, List, [], ◌∷◌, ◌++◌,
  length, arith, ltb, Bool-cases, subst, if◌then◌else◌,
}
use defiant_agent_harness.Common.Digest.{genesis}
use defiant_agent_harness.Common.Result.{Result, ok, err, Result-cases}
use defiant_agent_harness.Evidence.Types.{
  Content, EvidenceRecord, Line, blank, unreadable, entry, EvidenceError,
}
use defiant_agent_harness.Evidence.Chain.{
  Digest, raw, readable, verify_evidence_records, IsChain, last_hash,
}
use defiant_agent_harness.Evidence.Verify.{verify-IsChain}
use defiant_agent_harness.Evidence.Store.{
  Log, Config, Written, max_evidence_record_bytes, seal, find_record, same_content, reconcile_head,
  advance_head, is_whole, extend, opened, append,
}
use defiant_agent_harness.Evidence.Synced.{IsSynced, reconcile_head-IsSynced, advance_head-IsSynced}

raw-readable :
    (lines : List Line) (rs : List EvidenceRecord) → raw lines ≡ ok rs → rs ≡ readable lines
unfolding raw readable
raw-readable [] rs h = cc
raw-readable (blank ∷ lines) rs h = raw-readable lines rs h
raw-readable (unreadable e ∷ lines) rs h = cc
raw-readable (entry r ∷ lines) rs h = elim (Result-cases (raw lines)) [
  | inr (e, f) ↦ absurd (ground (arith, f))
  | inl (rs', f) ↦ ground (arith, f, raw-readable lines rs' f)
]

-- A file that can be read can be read with one more record.
readable-snoc :
    (lines : List Line) (r : EvidenceRecord)
    → raw lines ≡ ok (readable lines)
    → (raw (lines ++ entry r ∷ []) ≡ ok (readable lines ++ r ∷ []))
      × (readable (lines ++ entry r ∷ []) ≡ readable lines ++ r ∷ [])
unfolding raw readable
readable-snoc [] r h = (refl, refl)
readable-snoc (blank ∷ lines) r h = readable-snoc lines r h
readable-snoc (unreadable e ∷ lines) r h = cc
readable-snoc (entry x ∷ lines) r h =
    let read : raw lines ≡ ok (readable lines) = ground (arith, Result-cases (raw lines)) in
    let (a, b) = readable-snoc lines r read in (rw a refl, ap (λ rs. x ∷ rs) b)

IsChain-snoc :
    (sha256 : Digest) (p : String) (rs : List EvidenceRecord) (content : Content)
    → IsChain sha256 p rs
    → IsChain sha256 p (rs ++ seal sha256 content (last_hash p rs) ∷ [])
unfolding last_hash seal
IsChain-snoc sha256 p [] content c = (refl, refl, tt)
IsChain-snoc sha256 p (r ∷ rs) content (link, sealed, c) =
    (link, sealed, IsChain-snoc sha256 r.record_hash rs content c)

module _ (config : Config) where
  -- The log of a file that is a chain and can be read, with its checkpoint at the end.
  pub record IsOpen (records : List EvidenceRecord) (log : Log) : Type 0 where
    pub read : raw log.lines ≡ ok records
    pub shown : records ≡ readable log.lines
    pub chained : IsChain config.sha256 genesis records
    pub synced : IsSynced config records log

-- An open log is reported intact.
IsOpen-intact :
    (config : Config) (records : List EvidenceRecord) (log : Log)
    → IsOpen config records log
    → (verify_evidence_records config.sha256 log.lines).is_ok ≡ true
IsOpen-intact config records log o =
    (verify-IsChain config.sha256 log.lines).1
      (o.read ∙ ap ok o.shown, subst (IsChain config.sha256 genesis) o.shown o.chained)

Written-cases : (w : Written) → (w ≡ Written.whole) ⊎ (is_whole w ≡ false)
Written-cases Written.whole = inl refl
Written-cases Written.nothing = inr refl
Written-cases Written.torn = inr refl

-- What `append_idempotent` does with the records.
abbrev pub recognise :
    Config
    → String
    → Content
    → List EvidenceRecord
    → Log
    → Result EvidenceError EvidenceRecord × Log
recognise config at content records log = elim (find_record content.record_id records) [
  | none ↦ extend config content records at log
  | some r ↦
      if same_content r.body.content content then (ok r, log) else (err EvidenceError.conflict, log)
]

module _ (config : Config) (now : String) where
  opened_inv :
      {A : Type 0} (k : List EvidenceRecord → Log → Result EvidenceError A × Log) (log log' : Log)
      (a : A)
      → opened config now k log ≡ (ok a, log')
      → (records : List EvidenceRecord) × (log1 : Log) × IsOpen config records log1
        × (log1.lines ≡ log.lines)
        × (k records log1 ≡ (ok a, log'))
  unfolding opened
  opened_inv k log log' a h =
      elim (Bool-cases (verify_evidence_records config.sha256 log.lines).is_ok) [
        | inr n ↦ absurd (ground (arith, n))
        | inl v ↦
            let (read, chained) = (verify-IsChain config.sha256 log.lines).0 v in
            let records = readable log.lines in
            let opening = reconcile_head config records now log in
            elim (Result-cases opening.0) [
              | inr (e, f) ↦ absurd (ground (arith, v, read, f))
              | inl (_, f) ↦
                  let (same, synced) =
                    reconcile_head-IsSynced config now records log opening.1
                      (ap (λ x. (x, opening.1)) f) in
                  (
                    records,
                    opening.1,
                    record {
                      read = ap raw same ∙ read;
                      shown = sym (ap readable same);
                      chained = chained;
                      synced = synced;
                    },
                    same,
                    ground (arith, v, read, f),
                  )
            ]
      ]

  -- A record that was added ends an open log.
  extend-IsOpen :
      (content : Content) (records : List EvidenceRecord) (log log' : Log) (r : EvidenceRecord)
      → IsOpen config records log
      → extend config content records now log ≡ (ok r, log')
      → (r ≡ seal config.sha256 content (last_hash genesis records))
        × (log'.lines ≡ log.lines ++ entry r ∷ [])
        × IsOpen config (records ++ r ∷ []) log'
  unfolding extend
  extend-IsOpen content records log log' r o h =
      let previous = last_hash genesis records in
      let t = seal config.sha256 content previous in
      let log1 : Log = record log { lines = log.lines ++ entry t ∷ [] } in
      let a = advance_head config (length records) previous t.record_hash now log1 in
      elim (Bool-cases (ltb max_evidence_record_bytes (config.line_bytes t))) [
        | inl large ↦ absurd (ground (arith, large))
        | inr fits ↦ elim (Written-cases (config.writes log.lines t)) [
          | inr lost ↦ absurd (ground (arith, fits, lost))
          | inl whole ↦ elim (Result-cases a.0) [
            | inr (e, f) ↦ absurd (ground (arith, fits, whole, f))
            | inl (_, f) ↦
                let same : r ≡ t = ground (arith, fits, whole, f) in
                let final : a.1 ≡ log' = ground (arith, fits, whole, f) in
                let (kept, synced) =
                  advance_head-IsSynced config now records t log1 a.1 o.synced
                    (ap (λ x. (x, a.1)) f) in
                let added = sym (ap (λ l. l.lines) final) ∙ kept in
                let (read, shown) = readable-snoc log.lines t (o.read ∙ ap ok o.shown) in
                (
                  same,
                  added ∙ ap (λ x. log.lines ++ entry x ∷ []) (sym same),
                  subst (λ x. IsOpen config (records ++ x ∷ []) log') (sym same)
                      (record {
                        read = ap raw added ∙ read ∙ ap (λ rs. ok (rs ++ t ∷ [])) (sym o.shown);
                        shown = ap (λ rs. rs ++ t ∷ []) o.shown ∙ sym (ap readable added ∙ shown);
                        chained = IsChain-snoc config.sha256 genesis records content o.chained;
                        synced = subst (IsSynced config (records ++ t ∷ [])) final synced;
                      }),
                )
          ]
        ]
      ]

  -- A successful `append` adds one line, which is the record with this content sealed on the last hash
  -- before it; the file is then reported intact, and its checkpoint stands at the new record.
  pub append-IsOpen :
      (content : Content) (log log' : Log) (r : EvidenceRecord)
      → append config content now log ≡ (ok r, log')
      → (log'.lines ≡ log.lines ++ entry r ∷ [])
        × (r ≡ seal config.sha256 content (last_hash genesis (readable log.lines)))
        × IsOpen config (readable log.lines ++ r ∷ []) log'
        × ((verify_evidence_records config.sha256 log'.lines).is_ok ≡ true)
  unfolding append
  append-IsOpen content log log' r h =
      let (records, log1, o, same, e) =
        opened_inv (λ records l. extend config content records now l) log log' r h in
      let (sealed, added, o') = extend-IsOpen content records log1 log' r o e in
      let shown = o.shown ∙ ap readable same in
      (
        added ∙ ap (λ l. l ++ entry r ∷ []) same,
        sealed ∙ ap (λ rs. seal config.sha256 content (last_hash genesis rs)) shown,
        subst (λ rs. IsOpen config (rs ++ r ∷ []) log') shown o',
        IsOpen-intact config (records ++ r ∷ []) log' o',
      )
