-- ===== src/Tests/Evidence.antt =====
-- Concrete runs of the evidence chain.
use defiant_agent_harness.Common.{
  String, true, false, ◌≡◌, refl, ◌⊎◌, ◌↔◌, none, some, List, [], ◌∷◌, ◌++◌, ◌==◌, if◌then◌else◌,
}
use defiant_agent_harness.Common.Digest.{genesis, is_sha256, from_char, all_hex}
use defiant_agent_harness.Common.Text.{len}
use defiant_agent_harness.Common.Result.{ok}
use defiant_agent_harness.Contracts.{Decision, ResultStatus}
use defiant_agent_harness.Evidence.Types.{
  Content, EvidenceRecord, Line, blank, entry, HeadState, HeadFile,
}
use defiant_agent_harness.Evidence.Chain.{
  Digest, readable, raw, verify_from, verify_evidence_records, IsChain, last_hash,
}
use defiant_agent_harness.Evidence.Head.{
  hash_at, assess_evidence_head, check_state, get, write, settle_position, reconcile_for_authority,
  advance,
}
use defiant_agent_harness.Evidence.Store.{
  Log, Config, Written, seal, reconcile_head, advance_head, extend, opened, append,
}
use defiant_agent_harness.Evidence.Verify.{verify-IsChain, broken_at-first, Fault}
use defiant_agent_harness.Evidence.Tamper.{Collision}
use defiant_agent_harness.Evidence.Checkpoint.{checkpoint-extends}
use defiant_agent_harness.Evidence.Rollback.{append-extends}

abbrev first_hash : String
first_hash = "sha256:1111111111111111111111111111111111111111111111111111111111111111"

abbrev second_hash : String
second_hash = "sha256:2222222222222222222222222222222222222222222222222222222222222222"

abbrev profile : String
profile = "sha256:3333333333333333333333333333333333333333333333333333333333333333"

abbrev digest : Digest
digest b = if b.content.record_id == "evd_1" then first_hash else second_hash

abbrev authorized : Content
authorized = record {
  record_id = "evd_1";
  timestamp = "t1";
  request_id = "r1";
  action_id = "a1";
  tool_name = "mail.send";
  decision = Decision.allow;
  result_status = ResultStatus.skipped;
  enforcement_basis = "mcp_proxy";
  ruleset_hash = "";
  authorization_hash = "h";
  cost = 0;
  reconciliation_outcome = "";
  reconciled_by = "";
  reconciled_at = none;
  reconciliation_note = "";
  others = "";
}

abbrev finished : Content
finished = record authorized { record_id = "evd_2"; result_status = ResultStatus.succeeded }

abbrev first_record : EvidenceRecord
first_record = record {
  body = record { content = authorized; previous_record_hash = genesis };
  record_hash = first_hash;
}

abbrev second_record : EvidenceRecord
second_record = record {
  body = record { content = finished; previous_record_hash = first_hash };
  record_hash = second_hash;
}

abbrev chain : List EvidenceRecord
chain = first_record ∷ second_record ∷ []

abbrev chain_lines : List Line
chain_lines = entry first_record ∷ blank ∷ entry second_record ∷ []

abbrev cut_lines : List Line
cut_lines = entry second_record ∷ []

abbrev config : Config
config = record {
  sha256 = digest;
  profile = some profile;
  line_bytes = λ r. 100;
  writes = λ lines r. Written.whole;
  saves = λ s. true;
}

abbrev empty_log : Log
empty_log = record { lines = []; head = HeadFile.missing; allow_head_profile_rebind = false }

abbrev checkpoint : HeadState
checkpoint = record {
  profile_hash = profile;
  record_count = 1;
  head_hash = first_hash;
  checkpointed_at = "t1";
}

abbrev first_log : Log
first_log = record {
  lines = entry first_record ∷ [];
  head = HeadFile.holds checkpoint;
  allow_head_profile_rebind = false;
}

abbrev second_log : Log
second_log = record {
  lines = entry first_record ∷ entry second_record ∷ [];
  head = HeadFile.holds (record {
    profile_hash = profile;
    record_count = 2;
    head_hash = second_hash;
    checkpointed_at = "t2";
  });
  allow_head_profile_rebind = false;
}

chain-IsChain : IsChain digest genesis chain
chain-IsChain = (refl, refl, (refl, refl, tt))

verify-IsChain_example : ((verify_evidence_records digest chain_lines).is_ok ≡ true) ↔ (
    (raw chain_lines ≡ ok (readable chain_lines)) × IsChain digest genesis (readable chain_lines))
verify-IsChain_example = verify-IsChain digest chain_lines

cut_is_broken : (verify_evidence_records digest cut_lines).is_ok ≡ false
unfolding verify_evidence_records verify_from
cut_is_broken = refl

broken_at-first_example :
    Fault digest genesis 0 cut_lines (verify_evidence_records digest cut_lines)
broken_at-first_example = broken_at-first digest cut_lines cut_is_broken

checkpoint_is_valid : check_state checkpoint ≡ ok checkpoint
unfolding check_state is_sha256 from_char all_hex len
checkpoint_is_valid = refl

checkpoint-extends_example :
    ((zs : List EvidenceRecord) × (chain ≡ (first_record ∷ []) ++ zs)) ⊎ Collision digest
unfolding assess_evidence_head last_hash hash_at
checkpoint-extends_example =
    checkpoint-extends digest checkpoint (first_record ∷ []) chain (refl, refl, tt) chain-IsChain
      checkpoint_is_valid refl refl refl

first_append : append config authorized "t1" empty_log ≡ (ok first_record, first_log)
unfolding append opened verify_evidence_records verify_from raw reconcile_head
    reconcile_for_authority get write check_state is_sha256 from_char all_hex len last_hash extend
    seal advance_head advance
first_append = refl

second_append : append config finished "t2" first_log ≡ (ok second_record, second_log)
unfolding append opened verify_evidence_records verify_from raw reconcile_head
    reconcile_for_authority get write check_state is_sha256 from_char all_hex len last_hash extend
    seal advance_head advance assess_evidence_head settle_position
second_append = refl

append-extends_example :
    ((zs : List EvidenceRecord) × (readable (entry first_record ∷ [])
        ≡ readable first_log.lines ++ zs))
    ⊎ Collision digest
append-extends_example =
    append-extends config "t2" profile refl authorized finished "t1" empty_log first_log second_log
      first_record second_record (entry first_record ∷ []) first_append second_append
