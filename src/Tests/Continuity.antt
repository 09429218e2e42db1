-- ===== src/Tests/Continuity.antt =====
-- Concrete runs of the continuity anchor.
use defiant_agent_harness.Common.{ℕ, String, true, ◌≡◌, refl, List, [], ◌∷◌}
use defiant_agent_harness.Common.Dict.{lookup}
use defiant_agent_harness.Common.Digest.{is_sha256, from_char, all_hex}
use defiant_agent_harness.Common.Int.{pos}
use defiant_agent_harness.Common.Text.{len}
use defiant_agent_harness.Common.Result.{ok}
use defiant_agent_harness.Continuity.Types.{State, number, text, Document, File, Host}
use defiant_agent_harness.Continuity.Store.{
  from_dict, to_dict, create, has_fields, is_text, sequence_of, hash_of, link_of, timestamp_of,
  expected_record_hash,
}
use defiant_agent_harness.Continuity.Document.{from_dict-to_dict}
use defiant_agent_harness.Continuity.Ratchet.{
  Publication, publication_of, publish, Shows, Follows, Call, serve, advances, publish_all,
  IsLinked, advance-Follows, advances-IsLinked,
}

abbrev first_hash : String
first_hash = "sha256:1111111111111111111111111111111111111111111111111111111111111111"

abbrev second_hash : String
second_hash = "sha256:2222222222222222222222222222222222222222222222222222222222222222"

abbrev host : Host
host = record {
  record_digest =
      λ n a b t. "sha256:3333333333333333333333333333333333333333333333333333333333333333";
  is_timestamp = λ t. true;
  saves = λ d. true;
}

abbrev first_state : State
first_state = record {
  sequence = 1;
  checkpoint_hash = first_hash;
  prior_checkpoint_hash = "GENESIS";
  anchored_at = "t1";
  record_hash = "sha256:3333333333333333333333333333333333333333333333333333333333333333";
}

-- The fields in another order than `to_dict` writes them.
abbrev document : Document
document =
    ("sequence", number (pos 1))
    ∷ ("schema_version", text "0.1.0")
    ∷ ("schema_name", text "defiant.authority_publication_continuity")
    ∷ ("checkpoint_hash", text first_hash)
    ∷ ("prior_checkpoint_hash", text "GENESIS")
    ∷ ("anchored_at", text "t1")
    ∷ (
      "record_hash",
      text "sha256:3333333333333333333333333333333333333333333333333333333333333333",
    )
    ∷ []

abbrev first_call : Call
first_call = record {
  sequence = pos 1;
  checkpoint_hash = first_hash;
  prior_checkpoint_hash = "GENESIS";
  now = "t1";
}

abbrev second_call : Call
second_call = record {
  sequence = pos 2;
  checkpoint_hash = second_hash;
  prior_checkpoint_hash = first_hash;
  now = "t2";
}

abbrev calls : List Call
calls = first_call ∷ first_call ∷ second_call ∷ []

document_read : from_dict host document ≡ ok first_state
unfolding from_dict lookup has_fields is_text sequence_of hash_of link_of timestamp_of
    expected_record_hash is_sha256 from_char all_hex len
document_read = refl

first_created : create host (pos 1) first_hash "GENESIS" "t1" ≡ ok first_state
unfolding create is_text sequence_of hash_of link_of is_sha256 from_char all_hex len
first_created = refl

digests_are_hashes : (n : ℕ) (a b t : String) → is_sha256 (host.record_digest n a b t) ≡ true
unfolding is_sha256 from_char all_hex len
digests_are_hashes n a b t = refl

from_dict-to_dict_example : from_dict host (to_dict first_state) ≡ ok first_state
from_dict-to_dict_example = from_dict-to_dict host document first_state document_read

advance-Follows_example :
    Follows host File.missing
      (publication_of first_state)
      (publish [] (publication_of first_state))
      (serve host first_call File.missing)
advance-Follows_example =
    advance-Follows host (λ s. refl) digests_are_hashes first_call first_state File.missing [] refl
      first_created refl

advances-IsLinked_example :
    Shows host (advances host calls File.missing) (publish_all host calls [])
    × IsLinked (publish_all host calls [])
advances-IsLinked_example =
    advances-IsLinked host (λ s. refl) digests_are_hashes calls File.missing []
      (refl, (refl, (refl, tt))) refl tt

abbrev first_publication : Publication
first_publication = publication_of first_state

abbrev second_publication : Publication
second_publication = record {
  sequence = 2;
  checkpoint_hash = second_hash;
  prior_checkpoint_hash = first_hash;
}

-- The repeated offer is recognised, and the next one is added.
two_published : publish_all host calls [] ≡ second_publication ∷ first_publication ∷ []
unfolding publish_all publish create is_text sequence_of hash_of link_of is_sha256 from_char all_hex
    len
two_published = refl
