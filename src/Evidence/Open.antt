-- ===== src/Evidence/Open.antt =====
-- Which authorizations stay open as records are added.
use defiant_agent_harness.Common.{
  ◌≡◌, refl, sym, ◌∙◌, ap, inl, inr, Bool, true, false, not, ◌&&◌, ◌||◌, List, [], ◌∷◌, ◌++◌, any,
  select, select-append, arith, ◌==◌, Bool-cases, if◌then◌else◌,
}
use defiant_agent_harness.Evidence.Types.{EvidenceRecord}
use defiant_agent_harness.Evidence.Store.{is_terminal, is_skipped, open_authorizations}

-- A terminal record for this authorization.
abbrev pub ends : EvidenceRecord → EvidenceRecord → Bool
ends r t =
    is_terminal t.body.content.result_status
    && t.body.content.authorization_hash == r.body.content.authorization_hash

abbrev pub starts : EvidenceRecord → Bool
starts r = is_skipped r.body.content.result_status

module _ {A : Type 0} where
  any-append : (p : A → Bool) (xs ys : List A) → any p (xs ++ ys) ≡ any p xs || any p ys
  any-append p [] ys = refl
  any-append p (x ∷ xs) ys = ground (arith, any-append p xs ys)

  select-select :
      (p q : A → Bool) (xs : List A) → select p (select q xs) ≡ select (λ x. q x && p x) xs
  select-select p q [] = refl
  select-select p q (x ∷ xs) = ground (arith, select-select p q xs)

  select-same : (p q : A → Bool) (xs : List A) → ((x : A) → p x ≡ q x) → select p xs ≡ select q xs
  select-same p q [] h = refl
  select-same p q (x ∷ xs) h = ground (arith, h x, select-same p q xs h)

starts-ends : (r t : EvidenceRecord) → starts t ≡ true → ends r t ≡ false
starts-ends r t h = ground arith

abbrev is_open : List EvidenceRecord → EvidenceRecord → Bool
is_open rs r = starts r && not (any (ends r) rs)

is_open-snoc :
    (rs : List EvidenceRecord) (t r : EvidenceRecord)
    → is_open (rs ++ t ∷ []) r ≡ is_open rs r && not (ends r t)
is_open-snoc rs t r = ground (arith, any-append (ends r) rs (t ∷ []))

is_open-new :
    (rs : List EvidenceRecord) (t : EvidenceRecord) → is_open (rs ++ t ∷ []) t ≡ is_open rs t
is_open-new rs t = elim (Bool-cases (starts t)) [
  | inl y ↦ is_open-snoc rs t t ∙ ground (arith, starts-ends t t y)
  | inr n ↦ ground (arith, n)
]

-- After one more record the open authorizations are those before that the new record does not end,
-- and the new record itself, where it is an authorization that no record ends.
pub open_authorizations-snoc :
    (rs : List EvidenceRecord) (t : EvidenceRecord)
    → open_authorizations (rs ++ t ∷ [])
      ≡ select (λ r. not (ends r t)) (open_authorizations rs)
        ++ (if starts t && not (any (ends t) rs) then t ∷ [] else [])
unfolding open_authorizations
open_authorizations-snoc rs t =
    let q = is_open (rs ++ t ∷ []) in
    select-append q rs (t ∷ [])
    ∙ ap (λ l. l ++ select q (t ∷ []))
        (select-same q (λ r. is_open rs r && not (ends r t)) rs (is_open-snoc rs t)
          ∙ sym (select-select (λ r. not (ends r t)) (is_open rs) rs))
    ∙ ap (λ b. select (λ r. not (ends r t)) (select (is_open rs) rs) ++ (if b then t ∷ [] else []))
        (is_open-new rs t)
