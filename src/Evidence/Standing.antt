-- ===== src/Evidence/Standing.antt =====
-- Where the checkpoint of evidence_head.py stands after a call that succeeded.
use defiant_agent_harness.Common.{
  eqb, ◌&&◌, ℕ, String, ◌≡◌, refl, sym, ◌∙◌, ap, ◌⊎◌, inl, inr, Bool, true, none, some, List,
  length, arith, ◌==◌, eq_iff, Bool-cases,
}
use defiant_agent_harness.Common.Digest.{genesis, is_sha256}
use defiant_agent_harness.Common.Result.{ok, Result-cases}
use defiant_agent_harness.Evidence.Types.{EvidenceRecord, HeadState, HeadFile}
use defiant_agent_harness.Evidence.Chain.{last_hash}
use defiant_agent_harness.Evidence.Head.{
  Position, assess_evidence_head, check_state, get, write, settle_position, rebind_position,
  reconcile_for_authority, advance,
}

-- A checkpoint file that holds the position of these records, for this profile.
pub record IsAt (profile : String) (count : ℕ) (hash : String) (file : HeadFile) : Type 0 where
  pub state : HeadState
  pub held : file ≡ HeadFile.holds state
  pub valid : check_state state ≡ ok state
  pub bound : state.profile_hash ≡ profile
  pub counted : state.record_count ≡ count
  pub hashed : state.head_hash ≡ hash

check_state-ok : (s s' : HeadState) → check_state s ≡ ok s' → s' ≡ s
unfolding check_state
check_state-ok s s' h = ground arith

write-IsAt :
    (saves : HeadState → Bool) (profile : String) (count : ℕ) (hash now : String)
    (file file' : HeadFile) (s : HeadState)
    → write saves profile count hash now file ≡ (ok s, file')
    → IsAt profile count hash file'
unfolding write
write-IsAt saves profile count hash now file file' s h =
    let t : HeadState = record {
      profile_hash = profile;
      record_count = count;
      head_hash = hash;
      checkpointed_at = now;
    } in
    elim (Result-cases (check_state t)) [
      | inr (e, f) ↦ absurd (ground (arith, f))
      | inl (t', f) ↦
          let same = check_state-ok t t' f in
          record {
            state = t;
            held = ground (arith, f, same);
            valid = f ∙ ap ok same;
            bound = refl;
            counted = refl;
            hashed = refl;
          }
    ]

get_inv :
    (file : HeadFile) (s : HeadState)
    → get file ≡ ok (some s)
    → (file ≡ HeadFile.holds s) × (check_state s ≡ ok s)
unfolding get
get_inv HeadFile.missing s h = cc
get_inv HeadFile.broken s h = cc
get_inv (HeadFile.holds t) s h = elim (Result-cases (check_state t)) [
  | inr (e, f) ↦ absurd (ground (arith, f))
  | inl (t', f) ↦
      let same : t ≡ s = sym (check_state-ok t t' f) ∙ ground (arith, f) in
      (ap HeadFile.holds same, rw (← same) (f ∙ ap ok (check_state-ok t t' f)))
]

pub get-holds : (s : HeadState) → check_state s ≡ ok s → get (HeadFile.holds s) ≡ ok (some s)
unfolding get
get-holds s h = rw h refl

pub Position-cases :
    (p : Position)
    → (p ≡ Position.verified)
      ⊎ (p ≡ Position.forward_recovery)
      ⊎ (p ≡ Position.rollback)
      ⊎ (p ≡ Position.diverged)
Position-cases Position.verified = inl refl
Position-cases Position.forward_recovery = inr (inl refl)
Position-cases Position.rollback = inr (inr (inl refl))
Position-cases Position.diverged = inr (inr (inr refl))

verified_inv :
    (s : HeadState) (records : List EvidenceRecord)
    → assess_evidence_head s records ≡ Position.verified
    → (s.record_count ≡ length records) × (s.head_hash ≡ last_hash genesis records)
unfolding assess_evidence_head
verified_inv s records h =
    (ground arith, sym ((eq_iff (last_hash genesis records) s.head_hash).0 (ground arith)))

module _ (saves : HeadState → Bool) (profile : String) where
  -- Where the records were accepted, the checkpoint stands at their end.
  pub reconcile_for_authority-IsAt :
      (records : List EvidenceRecord) (allow : Bool) (now : String) (file file' : HeadFile)
      (s : HeadState)
      → reconcile_for_authority saves profile records allow now file ≡ (ok s, file')
      → (is_sha256 profile ≡ true) × IsAt profile (length records) (last_hash genesis records) file'
  unfolding reconcile_for_authority settle_position rebind_position
  reconcile_for_authority-IsAt records allow now file file' s h =
      elim (Bool-cases (is_sha256 profile)) [
        | inr n ↦ absurd (ground (arith, n))
        | inl p ↦ (
          p,
          elim (Result-cases (get file)) [
            | inr (e, f) ↦ absurd (ground (arith, p, f))
            | inl (none, f) ↦ fresh p f
            | inl (some t, f) ↦ elim (Bool-cases (t.profile_hash == profile)) [
              | inl mine ↦ elim (Position-cases (assess_evidence_head t records)) [
                | inl v ↦
                    let (held, valid) = get_inv file t f in
                    let (counted, hashed) = verified_inv t records v in
                    record {
                      state = t;
                      held = ground (arith, p, f, mine, v, held);
                      valid = valid;
                      bound = (eq_iff t.profile_hash profile).0 mine;
                      counted = counted;
                      hashed = hashed;
                    }
                | inr (inl v) ↦ written (ground (arith, p, f, mine, v))
                | inr (inr (inl v)) ↦ absurd (ground (arith, p, f, mine, v))
                | inr (inr (inr v)) ↦ absurd (ground (arith, p, f, mine, v))
              ]
              | inr other ↦ elim (Bool-cases allow) [
                | inr n ↦ absurd (ground (arith, p, f, other, n))
                | inl y ↦ elim (Position-cases (assess_evidence_head t records)) [
                  | inl v ↦ written (ground (arith, p, f, other, y, v))
                  | inr (inl v) ↦ written (ground (arith, p, f, other, y, v))
                  | inr (inr (inl v)) ↦ absurd (ground (arith, p, f, other, y, v))
                  | inr (inr (inr v)) ↦ absurd (ground (arith, p, f, other, y, v))
                ]
              ]
            ]
          ],
        )
      ]
    where
      written :
          write saves profile (length records) (last_hash genesis records) now file ≡ (ok s, file')
          → IsAt profile (length records) (last_hash genesis records) file'
      written =
          write-IsAt saves profile (length records) (last_hash genesis records) now file file' s

      fresh :
          is_sha256 profile ≡ true
          → get file ≡ ok none
          → IsAt profile (length records) (last_hash genesis records) file'
      fresh p f = written (ground (arith, p, f, h))

  -- Records at whose end the checkpoint stands are accepted, and nothing is written.
  pub reconcile_for_authority-again :
      (records : List EvidenceRecord) (allow : Bool) (now : String) (file : HeadFile)
      → is_sha256 profile ≡ true
      → (at : IsAt profile (length records) (last_hash genesis records) file)
      → reconcile_for_authority saves profile records allow now file ≡ (ok at.state, file)
  unfolding reconcile_for_authority settle_position assess_evidence_head
  reconcile_for_authority-again records allow now file p at =
      let found = get-holds at.state at.valid in
      let mine = (eq_iff at.state.profile_hash profile).1 at.bound in
      let here = (eq_iff (last_hash genesis records) at.state.head_hash).1 (sym at.hashed) in
      ground (arith, found, mine, here)

  pub advance-IsAt :
      (count count' : ℕ) (previous hash now : String) (file file' : HeadFile) (s : HeadState)
      → advance saves profile count previous count' hash now file ≡ (ok s, file')
      → IsAt profile count' hash file'
  unfolding advance
  advance-IsAt count count' previous hash now file file' s h = elim (Result-cases (get file)) [
    | inr (e, f) ↦ absurd (ground (arith, f))
    | inl (none, f) ↦ absurd (ground (arith, f))
    | inl (some t, f) ↦
        let (held, valid) = get_inv file t f in
        let mine : (t.profile_hash == profile) ≡ true = ground (arith, f) in
        elim (Bool-cases (eqb t.record_count count' && t.head_hash == hash)) [
          | inl done ↦ record {
            state = t;
            held = ground (arith, f, mine, done, held);
            valid = valid;
            bound = (eq_iff t.profile_hash profile).0 mine;
            counted = ground arith;
            hashed = (eq_iff t.head_hash hash).0 (ground arith);
          }
          | inr todo ↦
              write-IsAt saves profile count' hash now file file' s (ground (arith, f, mine, todo))
        ]
  ]
