-- ===== src/Evidence/Tamper.antt =====
-- Tamper evidence: the head hash fixes the whole chain, but for a collision of the digest.
use defiant_agent_harness.Common.{
  ℕ, zero, suc, ◌<◌, String, ◌≡◌, ◌≢◌, refl, sym, ◌∙◌, ap, ◌⊎◌, inl, inr, List, [], ◌∷◌, length,
  take, ltb, ltb→lt, arith, Bool-cases,
}
use defiant_agent_harness.Common.Digest.{genesis}
use defiant_agent_harness.Evidence.Types.{Body, Body-discrete, EvidenceRecord}
use defiant_agent_harness.Evidence.Chain.{Digest, IsChain, last_hash}

-- Two bodies with one digest, or a body whose digest is the genesis hash.
abbrev pub Collision : Digest → Type 0
Collision sha256 =
    ((a b : Body) × (a ≢ b) × (sha256 a ≡ sha256 b)) ⊎ ((a : Body) × (sha256 a ≡ genesis))

EvidenceRecord-ext :
    (a b : EvidenceRecord) → a.body ≡ b.body → a.record_hash ≡ b.record_hash → a ≡ b
EvidenceRecord-ext a b e h = cc

module _ (sha256 : Digest) where
  -- Chains of one length that end in one hash start at one hash and are equal.
  pub chain_injective :
      (p q : String) (xs ys : List EvidenceRecord)
      → IsChain sha256 p xs
      → IsChain sha256 q ys
      → length xs ≡ length ys
      → last_hash p xs ≡ last_hash q ys
      → ((p ≡ q) × (xs ≡ ys)) ⊎ Collision sha256
  unfolding last_hash
  chain_injective p q [] [] c d n e = inl (e, refl)
  chain_injective p q [] (y ∷ ys) c d n e = absurd (omega arith)
  chain_injective p q (x ∷ xs) [] c d n e = absurd (omega arith)
  chain_injective p q (x ∷ xs) (y ∷ ys) (link, seal, c) (link', seal', d) n e =
      elim (chain_injective x.record_hash y.record_hash xs ys c d (omega arith) e) [
        | inr collision ↦ inr collision
        | inl (same_hash, same_rest) ↦ elim (Body-discrete x.body y.body) [
          | no differ ↦ inr (inl (x.body, y.body, differ, seal ∙ same_hash ∙ sym seal'))
          | yes same ↦ inl (
            sym link ∙ ap (λ b. b.previous_record_hash) same ∙ link',
            ap (λ r. r ∷ xs) (EvidenceRecord-ext x y same same_hash) ∙ ap (λ rs. y ∷ rs) same_rest,
          )
        ]
      ]

  -- A longer chain that ends where a chain from the genesis hash ends has a record whose hash is the
  -- genesis hash.
  chain_no_longer :
      (p : String) (xs ys : List EvidenceRecord)
      → IsChain sha256 p xs
      → IsChain sha256 genesis ys
      → length ys < length xs
      → last_hash p xs ≡ last_hash genesis ys
      → Collision sha256
  unfolding last_hash
  chain_no_longer p [] ys c d n e = absurd (omega arith)
  chain_no_longer p (x ∷ xs) ys (link, seal, c) d n e =
      elim (Bool-cases (ltb (length ys) (length xs))) [
        | inl more ↦ chain_no_longer x.record_hash xs ys c d (ltb→lt _ _ more) e
        | inr same ↦ elim (chain_injective x.record_hash genesis xs ys c d (ground arith) e) [
          | inl (fresh, _) ↦ inr (x.body, seal ∙ fresh)
          | inr collision ↦ collision
        ]
      ]

  -- Two chains from the genesis hash that end in one hash are equal, or the digest has a collision.
  pub same_head :
      (xs ys : List EvidenceRecord)
      → IsChain sha256 genesis xs
      → IsChain sha256 genesis ys
      → last_hash genesis xs ≡ last_hash genesis ys
      → (xs ≡ ys) ⊎ Collision sha256
  same_head xs ys c d e = elim (Bool-cases (ltb (length ys) (length xs))) [
    | inl longer ↦ inr (chain_no_longer genesis xs ys c d (ltb→lt _ _ longer) e)
    | inr not_longer ↦ elim (Bool-cases (ltb (length xs) (length ys))) [
      | inl shorter ↦ inr (chain_no_longer genesis ys xs d c (ltb→lt _ _ shorter) (sym e))
      | inr not_shorter ↦ elim (chain_injective genesis genesis xs ys c d (ground arith) e) [
        | inl (_, same) ↦ inl same
        | inr collision ↦ inr collision
      ]
    ]
  ]

  -- The hash after `n` records of a chain.
  abbrev prefix_hash : ℕ → List EvidenceRecord → String
  prefix_hash n rs = last_hash genesis (take n rs)

  pub IsChain-take :
      (p : String) (n : ℕ) (rs : List EvidenceRecord)
      → IsChain sha256 p rs
      → IsChain sha256 p (take n rs)
  IsChain-take p zero rs c = tt
  IsChain-take p (suc n) [] c = tt
  IsChain-take p (suc n) (r ∷ rs) (link, seal, c) = (link, seal, IsChain-take r.record_hash n rs c)
