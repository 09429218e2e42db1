-- ===== src/Evidence/History.antt =====
-- What one call does to the evidence file as lines of the model: it adds some at the end or none.
use defiant_agent_harness.Common.{
  ℕ, String, ◌≡◌, refl, sym, ◌∙◌, inl, inr, List, [], ◌∷◌, ◌++◌, length, arith, ltb, Bool-cases,
  Option-cases,
}
use mathlib.Core.List.{append-nil}
use defiant_agent_harness.Common.Digest.{genesis}
use defiant_agent_harness.Common.Result.{Result, ok, Result-cases}
use defiant_agent_harness.Evidence.Types.{
  Content, EvidenceRecord, Line, unreadable, entry, ReadError, EvidenceError,
}
use defiant_agent_harness.Evidence.Chain.{raw, verify_evidence_records, last_hash}
use defiant_agent_harness.Evidence.Append.{recognise}
use defiant_agent_harness.Evidence.Store
use defiant_agent_harness.Evidence.Store.{
  Log, Config, Written, max_evidence_record_bytes, seal, find_record, same_content, reconcile_head,
  advance_head, with_line, is_whole, extend, opened,
}

-- A call of a method that may write, with its arguments and the clock's reading.
pub data Call : Type 0 where
  append append_idempotent : Content → String → Call
  reconcile : String → Call

module _ (config : Config) where
  unfoldable pub call : Call → Log → Log
  call (Call.append content now) log = (Store.append config content now log).1
  call (Call.append_idempotent content now) log = (Store.append_idempotent config content now log).1
  call (Call.reconcile now) log = (Store.reconcile config now log).1

  abbrev pub Adds : List Line → List Line → Type 0
  Adds lines lines' = (extra : List Line) × (lines' ≡ lines ++ extra)

  Adds-same : (lines lines' : List Line) → lines' ≡ lines → Adds lines lines'
  Adds-same lines lines' e = ([], e ∙ sym (append-nil lines))

  reconcile_head-lines :
      (records : List EvidenceRecord) (now : String) (log : Log)
      → (reconcile_head config records now log).1.lines ≡ log.lines
  unfolding reconcile_head
  reconcile_head-lines records now log = ground arith

  advance_head-lines :
      (count : ℕ) (previous hash now : String) (log : Log)
      → (advance_head config count previous hash now log).1.lines ≡ log.lines
  unfolding advance_head
  advance_head-lines count previous hash now log = ground arith

  with_line-Adds :
      (w : Written) (r : EvidenceRecord) (lines : List Line) → Adds lines (with_line w r lines)
  with_line-Adds Written.whole r lines = (entry r ∷ [], refl)
  with_line-Adds Written.nothing r lines = ([], sym (append-nil lines))
  with_line-Adds Written.torn r lines = (unreadable ReadError.bad_json ∷ [], refl)

  extend-Adds :
      (content : Content) (records : List EvidenceRecord) (now : String) (log : Log)
      → Adds log.lines (extend config content records now log).1.lines
  unfolding extend
  extend-Adds content records now log =
      let previous = last_hash genesis records in
      let t = seal config.sha256 content previous in
      let w = config.writes log.lines t in
      let log1 : Log = record log { lines = with_line w t log.lines } in
      let a = advance_head config (length records) previous t.record_hash now log1 in
      let kept = advance_head-lines (length records) previous t.record_hash now log1 in
      let (extra, added) = with_line-Adds w t log.lines in
      elim (Bool-cases (ltb max_evidence_record_bytes (config.line_bytes t))) [
        | inl large ↦ Adds-same log.lines _ (ground (arith, large))
        | inr fits ↦ elim (Bool-cases (is_whole w)) [
          | inr lost ↦ (extra, ground (arith, fits, lost, added))
          | inl whole ↦ (extra, ground (arith, fits, whole, added, kept, Result-cases a.0))
        ]
      ]

  opened-Adds :
      {A : Type 0} (now : String) (k : List EvidenceRecord → Log → Result EvidenceError A × Log)
      (log : Log)
      → ((records : List EvidenceRecord) (l : Log) → Adds l.lines (k records l).1.lines)
      → Adds log.lines (opened config now k log).1.lines
  unfolding opened
  opened-Adds now k log adds =
      elim (Bool-cases (verify_evidence_records config.sha256 log.lines).is_ok) [
        | inr n ↦ Adds-same log.lines _ (ground (arith, n))
        | inl v ↦ elim (Result-cases (raw log.lines)) [
          | inr (e, f) ↦ Adds-same log.lines _ (ground (arith, v, f))
          | inl (records, f) ↦
              let opening = reconcile_head config records now log in
              let kept = reconcile_head-lines records now log in
              elim (Result-cases opening.0) [
                | inr (e, g) ↦ Adds-same log.lines _ (ground (arith, v, f, g, kept))
                | inl (_, g) ↦
                    let (extra, added) = adds records opening.1 in
                    (extra, ground (arith, v, f, g, kept, added))
              ]
        ]
      ]

  recognise-Adds :
      (now : String) (content : Content) (records : List EvidenceRecord) (l : Log)
      → Adds l.lines (recognise config now content records l).1.lines
  recognise-Adds now content records l =
      elim (Option-cases (find_record content.record_id records)) [
        | inl absent ↦
            let (extra, added) = extend-Adds content records now l in
            (extra, ground (arith, absent, added))
        | inr (r, found) ↦
            Adds-same l.lines _
              (ground (arith, found, Bool-cases (same_content r.body.content content)))
      ]

  pub call-Adds : (c : Call) (log : Log) → Adds log.lines (call c log).lines
  unfolding call Store.append Store.append_idempotent Store.reconcile
  call-Adds (Call.append content now) log =
      opened-Adds now (λ records l. extend config content records now l) log
        (λ records l. extend-Adds content records now l)
  call-Adds (Call.append_idempotent content now) log =
      opened-Adds now (recognise config now content) log (recognise-Adds now content)
  call-Adds (Call.reconcile now) log =
      opened-Adds now (λ records l. (ok tt, l)) log (λ records l. Adds-same l.lines l.lines refl)
