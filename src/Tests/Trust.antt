-- ===== src/Tests/Trust.antt =====
-- Concrete runs of operator trust.
use defiant_agent_harness.Common.{
  String, true, ◌≡◌, refl, ◌⊎◌, some, [], ◌∷◌, length, eqb, if◌then◌else◌,
}
use defiant_agent_harness.Common.Dict.{lookup}
use defiant_agent_harness.Common.Tests.{Bool-cases}
use defiant_agent_harness.Common.Digest.{is_sha256, from_char, all_hex}
use defiant_agent_harness.Common.Text.{strip, lstrip, rstrip, is_space, len, String-discrete}
use defiant_agent_harness.Common.Result.{ok}
use defiant_agent_harness.Trust.Types.{Bindings, Attestation, State, File, Host, Bindings-discrete}
use defiant_agent_harness.Trust.Store.{
  is_before, are_ascending, is_operator, are_keys, key_count, operators, check_bindings,
  same_bindings, binds, covers, is_additive, timestamp, follow, from_dict, get,
  require_trust_transition, has_signer, verify_from, verify, last_attestation, is_last, has_note,
  rotated, write_state, successor, rotate_from, rotate,
}
use defiant_agent_harness.Trust.Additive.{Follows, rotate-Follows}

abbrev first_key : String
first_key = "sha256:1111111111111111111111111111111111111111111111111111111111111111"

abbrev second_key : String
second_key = "sha256:2222222222222222222222222222222222222222222222222222222222222222"

abbrev host : Host
host = record {
  digest = λ b. if eqb (length b) 1 then first_key else second_key;
  instant = λ t. some 5;
  verifies = λ key a. true;
  saves = λ s. true;
}

abbrev ann : Bindings
ann = ("ann", first_key ∷ []) ∷ []

abbrev ann_and_zoe : Bindings
ann_and_zoe = ("ann", first_key ∷ []) ∷ ("zoe", second_key ∷ []) ∷ []

abbrev enrolled_state : State
enrolled_state = record {
  generation = 1;
  enrolled_at = "t1";
  updated_at = "t1";
  initial_bindings = ann;
  initial_bindings_hash = first_key;
  bindings = ann;
  bindings_hash = first_key;
  transitions = [];
}

abbrev attestation : Attestation
attestation = record {
  operator = some "ann";
  key_id = some first_key;
  note = some "zoe joins";
  from_generation = some 1;
  to_generation = some 2;
  from_bindings_hash = some first_key;
  to_bindings_hash = some second_key;
  signed_at = some "t2";
  others = "";
}

abbrev rotated_state : State
rotated_state = rotated host enrolled_state ann_and_zoe attestation "t2"

enrolled_read : get host 9 (File.holds enrolled_state) ≡ ok (some enrolled_state)
unfolding get from_dict timestamp check_bindings is_operator strip lstrip rstrip is_space len
    are_keys is_sha256 from_char all_hex are_ascending key_count operators follow same_bindings
    Bindings-discrete String-discrete Bool-cases
enrolled_read = refl

rotation :
    rotate host 9 ann ann_and_zoe attestation (File.holds enrolled_state)
    ≡ (ok rotated_state, File.holds rotated_state)
unfolding rotate rotate_from successor write_state verify verify_from has_signer has_note
    require_trust_transition binds is_additive covers lookup is_last last_attestation get from_dict
    timestamp check_bindings is_operator strip lstrip rstrip is_space len are_keys is_sha256
    from_char all_hex are_ascending is_before key_count operators follow same_bindings
    Bindings-discrete String-discrete Bool-cases
rotation = refl

rotate-Follows_example :
    ((rotated_state ≡ enrolled_state) × (File.holds rotated_state ≡ File.holds enrolled_state))
    ⊎ (Follows host 9 enrolled_state attestation rotated_state
        × (File.holds rotated_state ≡ File.holds rotated_state))
rotate-Follows_example =
    rotate-Follows host 9 ann ann_and_zoe attestation (File.holds enrolled_state)
      (File.holds rotated_state) enrolled_state rotated_state enrolled_read rotation
