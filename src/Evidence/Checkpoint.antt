-- ===== src/Evidence/Checkpoint.antt =====
-- What the durable checkpoint of evidence_head.py promises: an accepted file extends the file at which
-- the checkpoint was taken.
use defiant_agent_harness.Common.{
  ℕ, zero, suc, ◌-◌, ◌≤◌, ◌<◌, String, ◌≡◌, refl, sym, ◌∙◌, ap, ◌⊎◌, inl, inr, Bool, true, false,
  List, [], ◌∷◌, ◌++◌, length, take, drop, take-drop, length-take, ltb, eqb, arith, ◌==◌, eq_iff,
  Bool-cases,
}
use defiant_agent_harness.Common.Digest.{genesis}
use defiant_agent_harness.Common.Result.{ok}
use defiant_agent_harness.Evidence.Types.{EvidenceRecord, HeadState}
use defiant_agent_harness.Evidence.Chain.{Digest, IsChain, last_hash}
use defiant_agent_harness.Evidence.Head.{Position, hash_at, assess_evidence_head, check_state}
use defiant_agent_harness.Evidence.Tamper.{Collision, chain_injective, IsChain-take}

abbrev pub is_accepted : Position → Bool
is_accepted Position.verified = true
is_accepted Position.forward_recovery = true
is_accepted _ = false

hash_at-take :
    (p : String) (i : ℕ) (rs : List EvidenceRecord)
    → i < length rs
    → hash_at rs i ≡ last_hash p (take (suc i) rs)
unfolding hash_at last_hash
hash_at-take p i [] h = absurd (omega arith)
hash_at-take p zero (r ∷ rs) h = refl
hash_at-take p (suc i) (r ∷ rs) h = hash_at-take r.record_hash i rs (omega arith)

take_all : (rs : List EvidenceRecord) → take (length rs) rs ≡ rs
take_all [] = refl
take_all (r ∷ rs) = ap (λ l. r ∷ l) (take_all rs)

check_state_inv :
    (s : HeadState) → check_state s ≡ ok s → s.record_count ≡ 0 → s.head_hash ≡ genesis
unfolding check_state
check_state_inv s h z = (eq_iff s.head_hash genesis).0 (ground arith)

-- A checkpoint is accepted only at its place in the records.
accepted_position :
    (s : HeadState) (ys : List EvidenceRecord)
    → check_state s ≡ ok s
    → is_accepted (assess_evidence_head s ys) ≡ true
    → (s.record_count ≤ length ys) × (last_hash genesis (take s.record_count ys) ≡ s.head_hash)
unfolding assess_evidence_head last_hash
accepted_position s ys valid h = elim (Bool-cases (eqb (length ys) s.record_count)) [
  | inl same ↦
      let e : s.record_count ≡ length ys = ground arith in
      let head : (last_hash genesis ys == s.head_hash) ≡ true = ground (arith, same) in
      (
        omega arith,
        ap (λ n. last_hash genesis (take n ys)) e
            ∙ ap (λ l. last_hash genesis l) (take_all ys)
            ∙ (eq_iff (last_hash genesis ys) s.head_hash).0 head,
      )
  | inr other ↦ elim (Bool-cases (ltb (length ys) s.record_count)) [
    | inl behind ↦ absurd (ground (arith, other, behind))
    | inr ahead ↦ elim (Bool-cases (eqb s.record_count 0)) [
      | inl z ↦
          let e : s.record_count ≡ 0 = ground arith in
          (omega arith, ap (λ n. last_hash genesis (take n ys)) e ∙ sym (check_state_inv s valid e))
      | inr nz ↦
          let i = s.record_count - 1 in
          let e : s.record_count ≡ suc i = ground arith in
          let place : (hash_at ys i == s.head_hash) ≡ true = ground (arith, other, ahead, nz) in
          (
            ground arith,
            ap (λ n. last_hash genesis (take n ys)) e
                ∙ sym (hash_at-take genesis i ys (ground arith))
                ∙ (eq_iff (hash_at ys i) s.head_hash).0 place,
          )
    ]
  ]
]

module _ (sha256 : Digest) where
  -- Where a checkpoint that was taken at the chain `xs` is accepted for the chain `ys`, `ys` extends
  -- `xs`, or the digest has a collision.
  pub checkpoint-extends :
      (s : HeadState) (xs ys : List EvidenceRecord)
      → IsChain sha256 genesis xs
      → IsChain sha256 genesis ys
      → check_state s ≡ ok s
      → s.record_count ≡ length xs
      → s.head_hash ≡ last_hash genesis xs
      → is_accepted (assess_evidence_head s ys) ≡ true
      → ((zs : List EvidenceRecord) × (ys ≡ xs ++ zs)) ⊎ Collision sha256
  checkpoint-extends s xs ys c d valid count head accepted =
      let (enough, place) = accepted_position s ys valid accepted in
      let n = s.record_count in
      elim (chain_injective sha256 genesis genesis (take n ys) xs
        (IsChain-take sha256 genesis n ys d) c (length-take n ys enough ∙ count) (place ∙ head)) [
          | inl (_, same) ↦ inl (drop n ys, sym (take-drop n ys) ∙ ap (λ l. l ++ drop n ys) same)
          | inr collision ↦ inr collision
        ]
