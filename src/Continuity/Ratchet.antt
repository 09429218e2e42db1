-- ===== src/Continuity/Ratchet.antt =====
-- The anchor as a ratchet: what `advance` does to the sequence of publications.
use defiant_agent_harness.Common.{
  ℕ, ◌+◌, String, Bool, true, ◌&&◌, ◌≡◌, refl, Option, none, some, List, [], ◌∷◌, inl, inr, eqb,
  eqb_refl, eq_refl, subst, sym, eq_iff, All, ◌==◌, if◌then◌else◌, Bool-cases, arith,
}
use defiant_agent_harness.Common.Int.{ℤ}
use defiant_agent_harness.Common.Digest.{is_sha256}
use defiant_agent_harness.Common.Result.{ok, err, Result-cases}
use defiant_agent_harness.Continuity.Types.{State, ContinuityError, File, Host}
use defiant_agent_harness.Continuity.Store.{
  from_dict, create, get, to_dict, Answer, is_repeat, write, replace, advance,
}
use defiant_agent_harness.Continuity.Document.{create-to_dict}

-- A published checkpoint, without the time of its anchoring.
pub record Publication : Type 0 where
  pub sequence : ℕ
  pub checkpoint_hash : String
  pub prior_checkpoint_hash : String

abbrev pub publication_of : State → Publication
publication_of s = record {
  sequence = s.sequence;
  checkpoint_hash = s.checkpoint_hash;
  prior_checkpoint_hash = s.prior_checkpoint_hash;
}

abbrev same : Publication → Publication → Bool
same p q =
    eqb p.sequence q.sequence
    && p.checkpoint_hash == q.checkpoint_hash
    && p.prior_checkpoint_hash == q.prior_checkpoint_hash

-- The contract: the publications so far, newest first, and what becomes of an offered one. It is
-- refused, recognised as the newest, or added after it.
unfoldable pub publish : List Publication → Publication → Option (List Publication)
publish [] q = if eqb q.sequence 1 then some (q ∷ []) else none
publish (p ∷ ps) q =
    if same p q
    then some (p ∷ ps)
    else if eqb q.sequence (p.sequence + 1) && q.prior_checkpoint_hash == p.checkpoint_hash
    then some (q ∷ p ∷ ps)
    else none

-- The file stands for these publications.
abbrev pub Shows : Host → File → List Publication → Type 0
Shows host file [] = file ≡ File.missing
Shows host file (p ∷ ps) = (s : State) × (get host file ≡ ok (some s)) × (publication_of s ≡ p)

-- What the contract's answer asks of a call's answer and of the file that it leaves.
abbrev pub Follows : Host → File → Publication → Option (List Publication) → Answer → Type 0
Follows host file q none (answer, left) = ((e : ContinuityError) × (answer ≡ err e)) × (left ≡ file)
Follows host file q (some ps) (answer, left) =
    ((s : State) × (answer ≡ ok s) × (same (publication_of s) q ≡ true)) × Shows host left ps

module _ (host : Host) (saved : (s : State) → host.saves (to_dict s) ≡ true) where
  same_refl : (q : Publication) → same q q ≡ true
  same_refl q =
      ground
        (arith, eqb_refl q.sequence, eq_refl q.checkpoint_hash, eq_refl q.prior_checkpoint_hash)

  write-Follows :
      (s : State) (file : File) (ps : List Publication)
      → from_dict host (to_dict s) ≡ ok s
      → Follows host file (publication_of s) (some (publication_of s ∷ ps)) (write host s file)
  unfolding write get
  write-Follows s file ps h =
      rw (saved s) ((s, refl, same_refl (publication_of s)), (s, rw h refl, refl))

  replace-Follows :
      (s current : State) (file : File) (ps : List Publication)
      → from_dict host (to_dict s) ≡ ok s
      → get host file ≡ ok (some current)
      → Follows host file
          (publication_of s)
          (publish (publication_of current ∷ ps) (publication_of s))
          (replace host s (some current) file)
  unfolding publish replace is_repeat
  replace-Follows s current file ps h g =
      elim (Bool-cases (same (publication_of current) (publication_of s))) [
        | inl e ↦ rw e ((current, refl, e), (current, g, refl))
        | inr n ↦ elim (Bool-cases (eqb s.sequence (current.sequence + 1))) [
          | inl e ↦ elim (Bool-cases (s.prior_checkpoint_hash == current.checkpoint_hash)) [
            | inl f ↦ rw (n, e, f) (write-Follows s file (publication_of current ∷ ps) h)
            | inr f ↦ rw (n, e, f) ((ContinuityError.wrong_predecessor, refl), refl)
          ]
          | inr f ↦ rw (n, f) ((ContinuityError.did_not_advance, refl), refl)
        ]
      ]

  first-Follows :
      (s : State)
      → from_dict host (to_dict s) ≡ ok s
      → Follows host File.missing
          (publication_of s)
          (publish [] (publication_of s))
          (replace host s none File.missing)
  unfolding publish replace
  first-Follows s h = elim (Bool-cases (eqb s.sequence 1)) [
    | inl e ↦ rw e (write-Follows s File.missing [] h)
    | inr e ↦ rw e ((ContinuityError.late_start, refl), refl)
  ]

  -- A valid offer against a file that stands for some publications.
  offer-Follows :
      (s : State) (file : File) (ps : List Publication) (n : ℤ) (c p now : String)
      → from_dict host (to_dict s) ≡ ok s
      → create host n c p now ≡ ok s
      → Shows host file ps
      → Follows host file
          (publication_of s)
          (publish ps (publication_of s))
          (advance host n c p now file)
  unfolding advance get
  offer-Follows s file [] n c p now h made shown =
      subst
        (λ f.
          Follows host f (publication_of s) (publish [] (publication_of s))
            (advance host n c p now f))
        (sym shown) (rw (made, advance) (first-Follows s h))
  offer-Follows s file (q ∷ ps) n c p now h made (current, g, e) =
      subst
        (λ q'.
          Follows host file (publication_of s) (publish (q' ∷ ps) (publication_of s))
            (advance host n c p now file))
        e (rw (made, g, advance) (replace-Follows s current file ps h g))

-- A call of `advance`, with the clock's reading.
pub record Call : Type 0 where
  pub sequence : ℤ
  pub checkpoint_hash : String
  pub prior_checkpoint_hash : String
  pub now : String

-- What is left of the publications: a refused offer changes nothing.
abbrev keep : List Publication → Option (List Publication) → List Publication
keep ps none = ps
keep ps (some qs) = qs

module _ (host : Host) where
  abbrev pub serve : Call → File → Answer
  serve c file = advance host c.sequence c.checkpoint_hash c.prior_checkpoint_hash c.now file

  unfoldable pub advances : List Call → File → File
  advances [] file = file
  advances (c ∷ cs) file = advances cs (serve c file).1

  -- What the contract makes of a call, if its offer is well formed.
  abbrev offer : Call → List Publication → List Publication
  offer c ps = elim (create host c.sequence c.checkpoint_hash c.prior_checkpoint_hash c.now) [
    | err e ↦ ps
    | ok s ↦ keep ps (publish ps (publication_of s))
  ]

  unfoldable pub publish_all : List Call → List Publication → List Publication
  publish_all [] ps = ps
  publish_all (c ∷ cs) ps = publish_all cs (offer c ps)

-- The publications are numbered from one, and each names its predecessor's checkpoint.
abbrev pub IsLinked : List Publication → Type 0
IsLinked [] = Unit
IsLinked (q ∷ []) = q.sequence ≡ 1
IsLinked (q ∷ p ∷ ps) =
    (q.sequence ≡ p.sequence + 1)
    × (q.prior_checkpoint_hash ≡ p.checkpoint_hash)
    × IsLinked (p ∷ ps)

publish-IsLinked :
    (ps : List Publication) (q : Publication) → IsLinked ps → IsLinked (keep ps (publish ps q))
unfolding publish
publish-IsLinked [] q l = ground arith
publish-IsLinked (p ∷ ps) q l = elim (Bool-cases (same p q)) [
  | inl e ↦ rw e l
  | inr n ↦ elim (Bool-cases (eqb q.sequence (p.sequence + 1))) [
    | inl e ↦ elim (Bool-cases (q.prior_checkpoint_hash == p.checkpoint_hash)) [
      | inl f ↦
          rw (n, e, f)
            (ground (arith, e), (eq_iff q.prior_checkpoint_hash p.checkpoint_hash).0 f, l)
      | inr f ↦ rw (n, e, f) l
    ]
    | inr e ↦ rw (n, e) l
  ]
]

keep-Shows :
    (host : Host) (file : File) (ps : List Publication) (q : Publication)
    (o : Option (List Publication)) (a : Answer)
    → Shows host file ps
    → Follows host file q o a
    → Shows host a.1 (keep ps o)
keep-Shows host file ps q none a shown (failed, same_file) =
    subst (λ f. Shows host f ps) (sym same_file) shown
keep-Shows host file ps q (some qs) a shown (answered, shows) = shows

serve_refused :
    (host : Host) (c : Call) (file : File) (e : ContinuityError)
    → create host c.sequence c.checkpoint_hash c.prior_checkpoint_hash c.now ≡ err e
    → (serve host c file).1 ≡ file
unfolding advance
serve_refused host c file e h = rw (h, advance) refl

offer-IsLinked :
    (host : Host) (c : Call) (ps : List Publication) → IsLinked ps → IsLinked (offer host c ps)
offer-IsLinked host c ps l =
    elim (Result-cases (create host c.sequence c.checkpoint_hash c.prior_checkpoint_hash c.now)) [
      | inl (s, e) ↦ rw (e, offer, IsLinked) (publish-IsLinked ps (publication_of s) l)
      | inr (x, e) ↦ rw (e, offer, IsLinked) l
    ]

module _ (host : Host) (saved : (s : State) → host.saves (to_dict s) ≡ true)
    (hashed : (n : ℕ) (a b t : String) → is_sha256 (host.record_digest n a b t) ≡ true) where
  -- Where every write succeeds and every digest is well formed, an offer whose hashes are well formed,
  -- made with a valid reading of the clock on a file that stands for some publications, is answered
  -- as the contract `publish` answers it, and the file stands for the publications that result.
  pub advance-Follows :
      (c : Call) (s : State) (file : File) (ps : List Publication)
      → host.is_timestamp c.now ≡ true
      → create host c.sequence c.checkpoint_hash c.prior_checkpoint_hash c.now ≡ ok s
      → Shows host file ps
      → Follows host file (publication_of s) (publish ps (publication_of s)) (serve host c file)
  advance-Follows c s file ps timely made shown =
      offer-Follows host saved s file ps c.sequence c.checkpoint_hash c.prior_checkpoint_hash c.now
        (create-to_dict host c.sequence c.checkpoint_hash c.prior_checkpoint_hash c.now s timely
          hashed made)
        made shown

  call-Shows :
      (c : Call) (file : File) (ps : List Publication)
      → host.is_timestamp c.now ≡ true
      → Shows host file ps
      → Shows host (serve host c file).1 (offer host c ps)
  unfolding advance
  call-Shows c file ps timely shown =
      elim (Result-cases (create host c.sequence c.checkpoint_hash c.prior_checkpoint_hash c.now)) [
        | inl (s, e) ↦
            rw (e, offer, Shows)
              (keep-Shows host file ps (publication_of s) (publish ps (publication_of s))
                (serve host c file) shown (advance-Follows c s file ps timely e shown))
        | inr (x, e) ↦
            rw (e, offer, Shows)
              (subst (λ f. Shows host f ps) (sym (serve_refused host c file x e)) shown)
      ]

  -- Where every write succeeds and every digest is well formed, after any calls with valid readings of
  -- the clock, a file that stood for linked publications stands for what the contract makes of the
  -- calls, which are again numbered from one, each naming its predecessor's checkpoint.
  pub advances-IsLinked :
      (cs : List Call) (file : File) (ps : List Publication)
      → All (λ c. host.is_timestamp c.now ≡ true) cs
      → Shows host file ps
      → IsLinked ps
      → Shows host (advances host cs file) (publish_all host cs ps)
        × IsLinked (publish_all host cs ps)
  unfolding advances publish_all
  advances-IsLinked [] file ps timely shown l = (shown, l)
  advances-IsLinked (c ∷ cs) file ps (t, ts) shown l =
      advances-IsLinked cs (serve host c file).1 (offer host c ps) ts (call-Shows c file ps t shown)
        (offer-IsLinked host c ps l)
