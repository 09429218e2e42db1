-- ===== src/Trust/Store.antt =====
-- `OperatorTrustState.from_dict` and `verify`, and the enrolment and rotation of the store.
use Prim.Native.String.{compare}
use Prim.Native.Nat.{Ordering}
use defiant_agent_harness.Common.{
  ℕ, suc, ◌+◌, ◌-◌, String, Bool, true, false, ◌&&◌, ◌||◌, not, Option, none, some, List, [], ◌∷◌,
  ◌++◌, length, any, all, eqb, ltb, leb, ◌==◌, if◌then◌else◌,
}
use defiant_agent_harness.Common.Dict.{lookup}
use defiant_agent_harness.Common.Digest.{is_sha256}
use defiant_agent_harness.Common.Text.{strip, len}
use defiant_agent_harness.Common.Result.{Result, ok, err, ◌>>=◌, ◌>>◌, require, refuse, or_raise}
use defiant_agent_harness.Trust.Types.{
  Bindings, Attestation, Transition, State, File, TrustError, Host, Bindings-discrete,
  Attestation-discrete,
}

abbrev pub max_operators : ℕ
max_operators = 256

abbrev pub max_transitions : ℕ
max_transitions = 1024

abbrev pub max_trusted_public_keys : ℕ
max_trusted_public_keys = 1024

-- Five minutes, in microseconds.
abbrev pub max_clock_skew : ℕ
max_clock_skew = 300000000

unfoldable pub is_before : String → String → Bool
is_before s t = elim (compare s t) [ Ordering.lt ↦ true | _ ↦ false ]

-- Sorted, with no text twice.
unfoldable pub are_ascending : List String → Bool
are_ascending [] = true
are_ascending (s ∷ []) = true
are_ascending (s ∷ t ∷ ts) = is_before s t && are_ascending (t ∷ ts)

unfoldable pub is_operator : String → Bool
is_operator o = not (strip o == "") && o == strip o && leb (len o) 256

unfoldable pub are_keys : List String → Bool
are_keys [] = false
are_keys (k ∷ ks) = all is_sha256 (k ∷ ks) && are_ascending (k ∷ ks)

unfoldable pub key_count : Bindings → ℕ
key_count [] = 0
key_count ((o, ks) ∷ b) = length ks + key_count b

unfoldable pub operators : Bindings → List String
operators [] = []
operators ((o, ks) ∷ b) = o ∷ operators b

-- `_bindings`
unfoldable pub check_bindings : Bindings → Result TrustError (Unit {0})
check_bindings b =
    require
      (ltb 0 (length b)
        && leb (length b) max_operators
        && all (λ e. is_operator e.0 && are_keys e.1) b
        && leb (key_count b) max_trusted_public_keys
        && are_ascending (operators b))
      TrustError.bad_bindings

unfoldable pub same_bindings : Bindings → Bindings → Bool
same_bindings a b = elim (Bindings-discrete a b) [ yes p ↦ true | no p ↦ false ]

-- `key in b.get(operator, [])`
unfoldable pub binds : Bindings → String → String → Bool
binds b operator key = elim (lookup operator b) [ none ↦ false | some ks ↦ any (λ k. k == key) ks ]

-- `operator in b and set(keys).issubset(b[operator])`
unfoldable pub covers : Bindings → String → List String → Bool
covers b operator keys = elim (lookup operator b) [
  | none ↦ false
  | some ks ↦ all (λ key. any (λ k. k == key) ks) keys
]

-- `_is_additive`
unfoldable pub is_additive : Bindings → Bindings → Bool
is_additive current candidate =
    not (same_bindings current candidate) && all (λ e. covers candidate e.0 e.1) current

abbrev is_number : Option ℕ → ℕ → Bool
is_number none n = false
is_number (some m) n = eqb m n

abbrev is_text : Option String → String → Bool
is_text none s = false
is_text (some t) s = t == s

module _ (host : Host) (now : ℕ) where
  -- `_timestamp`
  unfoldable pub timestamp : String → Result TrustError ℕ
  timestamp t = do
    refuse (t == "" || ltb 128 (len t)) TrustError.bad_timestamp
    i ← or_raise (host.instant t) TrustError.bad_timestamp
    refuse (ltb (now + max_clock_skew) i) TrustError.bad_timestamp
    ok i

  -- The loop over the transitions: the bindings, their hash and the time that it reaches.
  unfoldable pub follow :
      ℕ → Bindings → String → ℕ → List Transition → Result TrustError (Bindings × String × ℕ)
  follow index previous hash time [] = ok (previous, hash, time)
  follow index previous hash time (t ∷ ts) = do
    check_bindings t.bindings
    require (is_additive previous t.bindings) TrustError.not_additive
    require
        (is_number t.attestation.from_generation index
          && is_number t.attestation.to_generation (suc index))
        TrustError.not_contiguous
    require
        (is_text t.attestation.from_bindings_hash hash
          && is_text t.attestation.to_bindings_hash (host.digest t.bindings))
        TrustError.unbound
    signed_at ← or_raise t.attestation.signed_at TrustError.bad_timestamp
    i ← timestamp signed_at
    refuse (ltb i time) TrustError.out_of_order
    follow (suc index) t.bindings (host.digest t.bindings) i ts

  -- `from_dict`, on a document with the schema's fields.
  unfoldable pub from_dict : State → Result TrustError State
  from_dict s = do
    require (leb 1 s.generation) TrustError.bad_generation
    enrolled ← timestamp s.enrolled_at
    updated ← timestamp s.updated_at
    refuse (ltb updated enrolled) TrustError.early_update
    check_bindings s.initial_bindings
    check_bindings s.bindings
    require (is_sha256 s.initial_bindings_hash && is_sha256 s.bindings_hash) TrustError.bad_hash
    require
        (s.initial_bindings_hash == host.digest s.initial_bindings
          && s.bindings_hash == host.digest s.bindings)
        TrustError.wrong_hash
    require (leb (length s.transitions) max_transitions) TrustError.too_many_transitions
    require (eqb (length s.transitions) (s.generation - 1)) TrustError.wrong_count
    (reached, hash, time) ←
        follow 1 s.initial_bindings s.initial_bindings_hash enrolled s.transitions
    require (same_bindings reached s.bindings && hash == s.bindings_hash) TrustError.not_reached
    require (eqb updated time) TrustError.wrong_update
    ok s

  unfoldable pub get : File → Result TrustError (Option State)
  get File.missing = ok none
  get File.broken = err TrustError.unreadable
  get File.wrong_fields = err TrustError.bad_fields
  get (File.holds s) = do t ← from_dict s; ok (some t)

abbrev text_or : Option String → String → String
text_or none s = s
text_or (some t) s = t

-- `OperatorTrustPolicy.require_trust_transition`, of the policy that trusts these keys.
unfoldable pub require_trust_transition :
    Host → Bindings → Attestation → ℕ → String → String → String → String → Bool
require_trust_transition host policy a from_generation from_hash to_hash operator note =
    is_number a.from_generation from_generation
    && is_number a.to_generation (from_generation + 1)
    && is_text a.from_bindings_hash from_hash
    && is_text a.to_bindings_hash to_hash
    && is_text a.operator (strip operator)
    && is_text a.note (strip note)
    && elim a.key_id [
      | none ↦ false
      | some key ↦ binds policy (strip operator) key && host.verifies key a
    ]

-- `isinstance(operator, str) and key_id in previous.get(operator, [])`
unfoldable pub has_signer : Bindings → Attestation → Bool
has_signer previous a = elim a.operator [
  | none ↦ false
  | some operator ↦ elim a.key_id [ none ↦ false | some key ↦ binds previous operator key ]
]

module _ (host : Host) where
  -- The loop of `verify`.
  unfoldable pub verify_from :
      Bindings → ℕ → Bindings → String → List Transition → Result TrustError (Unit {0})
  verify_from policy index previous hash [] = ok tt
  verify_from policy index previous hash (t ∷ ts) = do
    require (has_signer previous t.attestation) TrustError.unsigned
    require
        (require_trust_transition host policy t.attestation index hash (host.digest t.bindings)
          (text_or t.attestation.operator "") (text_or t.attestation.note ""))
        TrustError.refused_signature
    verify_from policy (suc index) t.bindings (host.digest t.bindings) ts

  unfoldable pub verify : State → Bindings → Result TrustError (Unit {0})
  verify s policy = do
    require (same_bindings policy s.bindings) TrustError.not_configured
    verify_from policy 1 s.initial_bindings s.initial_bindings_hash s.transitions

unfoldable pub last_attestation : List Transition → Option Attestation
last_attestation [] = none
last_attestation (t ∷ []) = some t.attestation
last_attestation (t ∷ u ∷ ts) = last_attestation (u ∷ ts)

unfoldable pub is_last : List Transition → Attestation → Bool
is_last ts a = elim (last_attestation ts) [
  | none ↦ false
  | some b ↦ elim (Attestation-discrete b a) [ yes p ↦ true | no p ↦ false ]
]

-- `isinstance(note, str) and note.strip()`
unfoldable pub has_note : Attestation → Bool
has_note a = elim a.note [ none ↦ false | some n ↦ not (strip n == "") ]

abbrev pub rotated : Host → State → Bindings → Attestation → String → State
rotated host s candidate a signed_at = record s {
  generation = s.generation + 1;
  updated_at = signed_at;
  bindings = candidate;
  bindings_hash = host.digest candidate;
  transitions = s.transitions ++ record { attestation = a; bindings = candidate } ∷ [];
}

module _ (host : Host) (now : ℕ) where
  -- `_write_state`: the state is checked again.
  unfoldable pub write_state : State → File → Result TrustError (Unit {0}) × File
  write_state s file = elim (from_dict host now s) [
    | err e ↦ (err e, file)
    | ok t ↦ if host.saves t then (ok tt, File.holds t) else (err TrustError.write_failed, file)
  ]

  -- The checks of `rotate` and the state that it makes.
  unfoldable pub successor : State → Bindings → Bindings → Attestation → Result TrustError State
  successor s current candidate a = do
    verify host s current
    require (is_additive current candidate) TrustError.not_additive
    require (has_note a && has_signer s.bindings a) TrustError.bad_signer
    require
        (require_trust_transition host current a s.generation s.bindings_hash
          (host.digest candidate) (text_or a.operator "") (text_or a.note ""))
        TrustError.refused_signature
    signed_at ← or_raise a.signed_at TrustError.bad_timestamp
    updated ← from_dict host now (rotated host s candidate a signed_at)
    verify host updated candidate
    ok updated

  unfoldable pub rotate_from :
      State → Bindings → Bindings → Attestation → File → Result TrustError State × File
  rotate_from s current candidate a file =
      if same_bindings s.bindings candidate && is_last s.transitions a
      then (elim (verify host s candidate) [ err e ↦ (err e, file) | ok u ↦ (ok s, file) ])
      else (elim (successor s current candidate a) [
        | err e ↦ (err e, file)
        | ok updated ↦
            let written = write_state updated file in
            elim written.0 [ err e ↦ (err e, written.1) | ok u ↦ (ok updated, written.1) ]
      ])

  unfoldable pub rotate : Bindings → Bindings → Attestation → File → Result TrustError State × File
  rotate current candidate a file = elim (get host now file) [
    | err e ↦ (err e, file)
    | ok none ↦ (err TrustError.not_enrolled, file)
    | ok (some s) ↦ rotate_from s current candidate a file
  ]

-- `enrolled`, with the reading of the clock.
unfoldable pub enrolled : Host → Bindings → String → State
enrolled host policy at = record {
  generation = 1;
  enrolled_at = at;
  updated_at = at;
  initial_bindings = policy;
  initial_bindings_hash = host.digest policy;
  bindings = policy;
  bindings_hash = host.digest policy;
  transitions = [];
}

module _ (host : Host) (now : ℕ) where
  unfoldable pub enroll : Bindings → String → File → Result TrustError (Unit {0}) × File
  enroll policy at file =
      let written = write_state host now (enrolled host policy at) file in
      elim written.0 [
        | err e ↦ (err e, written.1)
        | ok u ↦ (verify host (enrolled host policy at) policy, written.1)
      ]

  -- `resolve_for_authority`, of the policy that is configured, if any; `legacy` is the answer of
  -- `_legacy_signed_authority_present`.
  unfoldable pub resolve_for_authority :
      Option Bindings
      → Result TrustError Bool
      → String
      → File
      → Result TrustError (Option Bindings) × File
  resolve_for_authority candidate legacy at file = elim (get host now file) [
    | err e ↦ (err e, file)
    | ok none ↦ elim candidate [
      | none ↦ ((do present ← legacy; refuse present TrustError.keys_required; ok none), file)
      | some policy ↦ let r = enroll policy at file in ((do r.0; ok (some policy)), r.1)
    ]
    | ok (some s) ↦ elim candidate [
      | none ↦ (err TrustError.keys_required, file)
      | some policy ↦ ((do verify host s policy; ok (some policy)), file)
    ]
  ]

  -- `preview_for_authority`: the same without enrolling.
  unfoldable pub preview_for_authority :
      Option Bindings → Result TrustError Bool → File → Result TrustError (Option Bindings)
  preview_for_authority candidate legacy file = elim (get host now file) [
    | err e ↦ err e
    | ok none ↦ elim candidate [
      | none ↦ do present ← legacy; refuse present TrustError.keys_required; ok none
      | some policy ↦ ok (some policy)
    ]
    | ok (some s) ↦ elim candidate [
      | none ↦ err TrustError.keys_required
      | some policy ↦ do verify host s policy; ok (some policy)
    ]
  ]
