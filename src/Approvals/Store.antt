-- ===== src/Approvals/Store.antt =====
-- `ApprovalStore` of approvals/store.py: the file, how it is read and written, and the operator's
-- identity. A method takes the file as it stands and returns its answer with the file that it
-- leaves, which a raised error may have changed too. The clock's readings are arguments: `now` for
-- the comparison with an expiry, `stamp` for `utc_now()`.
use defiant_agent_harness.Common.{
  ℕ, String, Bool, true, false, ◌&&◌, Option, none, some, [], ◌∷◌, all, leb, ◌==◌, if◌then◌else◌,
  ◌≡◌, ◌⊎◌, arith, refl, inl, inr, Bool-cases,
}
use defiant_agent_harness.Common.Files.{Saved, Saved-cases}
use defiant_agent_harness.Common.Dict.{Dict, lookup, insert}
use defiant_agent_harness.Common.Text.{strip, is_ascii}
use defiant_agent_harness.Common.Result.{Result, Result-cases, ok, err}
use defiant_agent_harness.Approvals.Types.{
  Outcome, Purpose, Verdict, Attestation, Approval, ApprovalError,
}
use defiant_agent_harness.Approvals.Checks.{nonempty, from_dict}

abbrev pub Store : Type 0
Store = Dict Approval

abbrev pub M : Type 0 → Type 0
M A = Store → Result ApprovalError A × Store

infixl 5 ◌>>=◌ ◌>>◌
abbrev pub ◌>>=◌ : {A B : Type 0} → M A → (A → M B) → M B
◌>>=◌ m f s = let (r, s') = m s in elim r [ ok a ↦ f a s' | err e ↦ (err e, s') ]

abbrev pub ◌>>◌ : {A B : Type 0} → M A → M B → M B
m >> k = m >>= λ _. k

abbrev pub pure : {A : Type 0} → A → M A
pure a s = (ok a, s)

abbrev pub raise : {A : Type 0} → ApprovalError → M A
raise e s = (err e, s)

abbrev pub lift : {A : Type 0} → Result ApprovalError A → M A
lift r s = (r, s)

abbrev pub require : Bool → ApprovalError → M (Unit {0})
require true e s = (ok tt, s)
require false e s = (err e, s)

abbrev pub refuse : Bool → ApprovalError → M (Unit {0})
refuse true e s = (err e, s)
refuse false e s = (ok tt, s)

-- `_read_all`: every record passes its checks and lies under its own id.
unfoldable pub check_store : Store → Result ApprovalError (Unit {0})
check_store [] = ok tt
check_store ((id, a) ∷ s) =
    let rest = check_store s in
    if nonempty id
    then (elim (from_dict a) [
      | ok _ ↦ if a.approval_id == id then rest else err ApprovalError.bad_key
      | err e ↦ err e
    ])
    else err ApprovalError.bad_key

unfoldable pub read_all : M Store
read_all s = elim (check_store s) [ ok _ ↦ (ok s, s) | err e ↦ (err e, s) ]

-- `data.get(approval_id)`, and the error where it is `None`.
abbrev pub find : Store → String → M Approval
find d id = elim (lookup id d) [ some a ↦ pure a | none ↦ raise ApprovalError.unknown ]

-- `is_expired`
unfoldable pub is_expired : ℕ → Approval → Bool
is_expired now a = elim a.expires_at [ none ↦ false | some t ↦ leb t now ]

-- `verify` of operator_identity.py: the signature is of a pinned key over this approval.
abbrev pub Verifier : Type 0
Verifier = Attestation → Approval → Bool

abbrev pub same_purpose : Purpose → Purpose → Bool
same_purpose Purpose.decision Purpose.decision = true
same_purpose Purpose.reconciliation Purpose.reconciliation = true
same_purpose _ _ = false

abbrev pub same_outcome : Outcome → Outcome → Bool
same_outcome Outcome.succeeded Outcome.succeeded = true
same_outcome Outcome.failed Outcome.failed = true
same_outcome Outcome.not_executed Outcome.not_executed = true
same_outcome _ _ = false

abbrev pub same_verdict : Verdict → Verdict → Bool
same_verdict Verdict.approved Verdict.approved = true
same_verdict Verdict.rejected Verdict.rejected = true
same_verdict (Verdict.reconciled o) (Verdict.reconciled p) = same_outcome o p
same_verdict _ _ = false

-- `OperatorTrustPolicy.require`: the attestation is signed for this approval, this purpose, this
-- outcome, this operator and this note. `hmac.compare_digest` raises a `TypeError` on a text that is
-- not ASCII, so such an operator or note is never attested.
unfoldable pub attests :
    Verifier → Option Attestation → Approval → Purpose → Verdict → String → String → Bool
attests verify none a purpose outcome operator note = false
attests verify (some t) a purpose outcome operator note =
    verify t a
    && same_purpose t.purpose purpose
    && same_verdict t.outcome outcome
    && is_ascii t.operator
    && t.operator == strip operator
    && is_ascii t.note
    && t.note == strip note

-- What a store is configured with: the pinned operator keys, if any, and the file system's answer
-- to a write of the whole document.
pub record Config : Type 0 where
  pub operator_trust : Option Verifier
  pub writes : Store → Saved

-- What an answer of the file system comes to. A file that was replaced may raise still.
unfoldable pub replaced : Saved → Store → Store → Result ApprovalError (Unit {0}) × Store
replaced Saved.saved d s = (ok tt, d)
replaced Saved.refused d s = (err ApprovalError.write_failed, s)
replaced Saved.unsynced d s = (err ApprovalError.write_failed, d)

-- `_write_all`: the document replaces the file, or the file stays.
unfoldable pub write_all : Config → Store → M (Unit {0})
write_all config d s =
    if all (λ e. nonempty e.0 && e.1.approval_id == e.0) d
    then replaced (config.writes d) d s
    else (err ApprovalError.write_failed, s)

-- `data[approval_id] = approval`, `_write_all(data)`, `return approval`.
unfoldable pub put : Config → Store → String → Approval → M Approval
put config d id a = do write_all config (insert id a d); pure a

pub read_all_cases :
    (s : Store)
    → ((check_store s ≡ ok tt) × (read_all s ≡ (ok s, s)))
      ⊎ ((e : ApprovalError) × (read_all s ≡ (err e, s)))
unfolding read_all
read_all_cases s = ground (arith, Result-cases (check_store s))

-- A write that went through leaves the new document, and one that did not leaves the file or the new
-- document.
pub write_all_cases :
    (config : Config) (d s : Store)
    → (write_all config d s ≡ (ok tt, d))
      ⊎ (write_all config d s ≡ (err ApprovalError.write_failed, s))
      ⊎ (write_all config d s ≡ (err ApprovalError.write_failed, d))
unfolding write_all replaced
write_all_cases config d s =
    elim (Bool-cases (all (λ e. nonempty e.0 && e.1.approval_id == e.0) d)) [
      | inr n ↦ inr (inl (rw (write_all, n) refl))
      | inl y ↦ elim (Saved-cases (config.writes d)) [
        | inl w ↦ inl (rw (write_all, y, w) refl)
        | inr (inl w) ↦ inr (inl (rw (write_all, y, w) refl))
        | inr (inr w) ↦ inr (inr (rw (write_all, y, w) refl))
      ]
    ]

pub put_cases :
    (config : Config) (d s : Store) (id : String) (a : Approval)
    → (put config d id a s ≡ (ok a, insert id a d))
      ⊎ (put config d id a s ≡ (err ApprovalError.write_failed, s))
      ⊎ (put config d id a s ≡ (err ApprovalError.write_failed, insert id a d))
unfolding put
put_cases config d s id a = ground (arith, write_all_cases config (insert id a d) s)
