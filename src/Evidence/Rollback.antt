-- ===== src/Evidence/Rollback.antt =====
-- Rollback and replacement of the evidence file, against the checkpoint that an earlier call left.
use defiant_agent_harness.Common.{
  String, ◌≡◌, refl, sym, ◌∙◌, ap, ◌⊎◌, inl, inr, Bool, true, some, List, [], ◌∷◌, ◌++◌, arith,
  eq_iff, Bool-cases,
}
use defiant_agent_harness.Common.Digest.{genesis}
use defiant_agent_harness.Common.Result.{Result, ok, Result-cases}
use defiant_agent_harness.Evidence.Types.{
  Content, EvidenceRecord, Line, HeadState, HeadFile, EvidenceError,
}
use defiant_agent_harness.Evidence.Chain.{readable, verify_evidence_records, IsChain}
use defiant_agent_harness.Evidence.Head.{
  assess_evidence_head, check_state, settle_position, reconcile_for_authority,
}
use defiant_agent_harness.Evidence.Verify.{verify-IsChain}
use defiant_agent_harness.Evidence.Tamper.{Collision}
use defiant_agent_harness.Evidence.Checkpoint.{is_accepted, checkpoint-extends}
use defiant_agent_harness.Evidence.Standing.{Position-cases, get-holds}
use defiant_agent_harness.Evidence.Append.{append-IsOpen}
use defiant_agent_harness.Evidence.Store.{Log, Config, reconcile_head, opened, append}

-- Under the profile of a checkpoint, records are accepted only at its place.
accepted_only :
    (saves : HeadState → Bool) (profile : String) (records : List EvidenceRecord) (allow : Bool)
    (now : String) (s t : HeadState) (file' : HeadFile)
    → check_state s ≡ ok s
    → s.profile_hash ≡ profile
    → reconcile_for_authority saves profile records allow now (HeadFile.holds s) ≡ (ok t, file')
    → is_accepted (assess_evidence_head s records) ≡ true
unfolding reconcile_for_authority settle_position
accepted_only saves profile records allow now s t file' valid bound h =
    let found = get-holds s valid in
    let mine = (eq_iff s.profile_hash profile).1 bound in
    elim (Position-cases (assess_evidence_head s records)) [
      | inl v ↦ rw v refl
      | inr (inl v) ↦ rw v refl
      | inr (inr (inl v)) ↦ absurd (ground (arith, found, mine, v))
      | inr (inr (inr v)) ↦ absurd (ground (arith, found, mine, v))
    ]

module _ (config : Config) (now : String) (p : String) (pinned : config.profile ≡ some p) where
  -- A file that a call opens has records that the checkpoint accepts.
  opened_accepted :
      {A : Type 0} (k : List EvidenceRecord → Log → Result EvidenceError A × Log) (log log' : Log)
      (a : A) (s : HeadState)
      → log.head ≡ HeadFile.holds s
      → check_state s ≡ ok s
      → s.profile_hash ≡ p
      → opened config now k log ≡ (ok a, log')
      → IsChain config.sha256 genesis (readable log.lines)
        × (is_accepted (assess_evidence_head s (readable log.lines)) ≡ true)
  unfolding opened reconcile_head
  opened_accepted k log log' a s held valid bound h =
      elim (Bool-cases (verify_evidence_records config.sha256 log.lines).is_ok) [
        | inr n ↦ absurd (ground (arith, n))
        | inl v ↦
            let (read, chained) = (verify-IsChain config.sha256 log.lines).0 v in
            let records = readable log.lines in
            let allow = log.allow_head_profile_rebind in
            let r = reconcile_for_authority config.saves p records allow now log.head in
            elim (Result-cases r.0) [
              | inr (e, f) ↦ absurd (ground (arith, v, read, pinned, f))
              | inl (t, f) ↦ (
                chained,
                accepted_only config.saves p records allow now s t r.1 valid bound (
                    ap (λ file. reconcile_for_authority config.saves p records allow now file)
                      (sym held)
                    ∙ ap (λ x. (x, r.1)) f),
              )
            ]
      ]

  -- With a profile configured: after an `append` that succeeded, let the file's lines be replaced by
  -- any others and its checkpoint stay. A later `append` succeeds only if the records extend those
  -- that the first call left, or the digest has a collision.
  pub append-extends :
      (content content' : Content) (before : String) (log log1 log2 : Log) (r r' : EvidenceRecord)
      (lines : List Line)
      → append config content before log ≡ (ok r, log1)
      → append config content' now (record log1 { lines = lines }) ≡ (ok r', log2)
      → ((zs : List EvidenceRecord) × (readable lines ≡ readable log1.lines ++ zs))
        ⊎ Collision config.sha256
  unfolding append
  append-extends content content' before log log1 log2 r r' lines first second =
      let (_, _, o, _) = append-IsOpen config before content log log1 r first in
      elim o.synced [
        | inl e ↦ cc
        | inr (q, e, digest, at, fixed) ↦
            let same : p ≡ q = cc in
            let (chained, accepted) =
              opened_accepted _ (record log1 { lines = lines }) log2 r' at.state at.held at.valid
                (at.bound ∙ sym same) second in
            elim (checkpoint-extends config.sha256 at.state (readable log.lines ++ r ∷ [])
              (readable lines) o.chained chained at.valid at.counted at.hashed accepted) [
                | inr collision ↦ inr collision
                | inl (zs, extended) ↦ inl (zs, extended ∙ ap (λ l. l ++ zs) o.shown)
              ]
      ]
