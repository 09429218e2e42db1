-- ===== src/Lib.antt =====
-- Defiant Agent Harness: a harness that stands between an agent and its tools. A proposed action is
-- decided by a policy, may be held for a human's approval, and is paid from a budget. This library
-- models the components that decide whether an action may run, how often, and at what cost.
--
-- Parts, with the files that model them (paths from src/defiant_agent_harness/):
--   Common     Boolean tests, lists, dictionaries, texts (`strip` is Python's), signed integers and
--              results, which all components share. Common/Files is what `atomic_write_json` of
--              persistence.py comes to.
--   Money      money.py: an accepted amount is a natural number of a smallest unit, so sums are
--              exact as they are for `Decimal` within its precision.
--   Contracts  contracts.py: side effects and their order, trust, decisions.
--   Policy     policy/engine.py. Policy/Types has the rules, the action and the ceilings of
--              limits.py; Policy/Payload is `_bounded_payload_text`; Policy/Match is
--              `_PolicyMatchState` and `Rule.matches`, a computation that spends a work budget and
--              may exceed it; Policy/Evaluate is `_policy_context_snapshot` and
--              `PolicyEngine.evaluate`. Policy/Spec says what matching computes without a budget,
--              and Policy/Strictness what a decision promises.
--   Approvals  approvals/store.py. Approvals/Types and Approvals/Checks are `PendingApproval` and
--              the checks of its record; Approvals/Store is the file; Approvals/Operations,
--              Approvals/Reconcile and Approvals/Queries have one function per method. A method
--              takes the file and returns its answer or error with the file that it leaves.
--              Approvals/Calls runs any sequence of calls; Lifecycle, Endings and Creation are lemmas
--              on single methods; Evolution, SingleUse, OneActive and Recovery are about histories.
--   Budgets    budgets/ledger.py. Budgets/Types and Budgets/State are the ledger file, its checks
--              and what it says of an action; Budgets/Operations reserves, settles and releases;
--              Budgets/Journaled has the operations that recovery replays; Budgets/Reconcile is
--              `reconcile_reservation`. Budgets/History runs any sequence of calls; the other
--              modules are named for what they prove.
--   Tools      tools/registry.py and `CapabilityGrant` of contracts.py. Tools/Registry has
--              `validate_action`, `authorize`, `spend` and `execute` with a record of the calls of
--              tools' functions; Tools/Grants is what a grant promises. Registration, the resolution
--              of a workspace target and the contract of a result are not modelled.
--   Evidence   evidence/store.py and evidence_head.py. Evidence/Chain is `verify_evidence_records`
--              over a digest of bodies; Evidence/Head is the durable checkpoint of the head;
--              Evidence/Store has `append`, `append_idempotent`, the reconciliation of the head, open
--              authorizations and the export. A line of the file is what its reading gives. Verify,
--              Tamper and Checkpoint are about chains; Standing and Synced are lemmas on the
--              checkpoint; Append, Rollback, Open and History are about the store's calls.
--   Journal    operation_journal.py. Journal/Types and Journal/Validate are the payloads of the five
--              kinds and `_validate_payload`; Journal/Store is `JournalOperation` and
--              `OperationJournal`. Binding is about the payload of a completion, Stored and
--              Alternation about the file and its histories.
--   Continuity authority_publication_continuity.py. Continuity/Store has the document, `create` and
--              `advance`; Document is about reading and writing it, and Ratchet about what `advance`
--              makes of a sequence of publications.
--   StrictJson strict_json.py. StrictJson/Scan is `_preflight_structure`, one character at a time;
--              StrictJson/Hooks is `_unique_object` and `_decimal_integer`. Lexemes is an independent
--              description of a text's tokens; State, Steps and Preflight relate the two.
--   Trust      operator_trust_state.py. Trust/Store has `from_dict` with the chain of transitions,
--              `verify`, `rotate` and the enrolment of `resolve_for_authority`; Additive is about the
--              keys that a rotation keeps.
--   Orchestrator  orchestrator/harness.py, over the stores of the parts above. Orchestrator/Types is
--              what the harness works on, `World` being its stores with the calls of tools' functions
--              so far; Orchestrator/Monad is a step that may raise and leaves the stores as they
--              are then. Basis, Records and Reading are the helper methods; Recovery is
--              `_recover_operation`; Expiry is `reconcile_expired_approvals`; Execute is `_execute`
--              and `_complete_known_result`; Handle is `_handle` with its three entry points, Resume
--              `resume` and `resume_external`, External `complete_external_call`, and Operator the
--              two reconciliations. Frame and its children say what every method that runs no tool
--              leaves as it is; Called, Execution, Dispatching and Guarded are about `handle_call`, Once
--              about sequences of it, Spending, Warrant, Begun and Approved about `resume`, and
--              Single about sequences of all entry points.
--   Tests      concrete runs.
--
-- The components meet in the texts that name an action, a request and an evidence record, and in
-- the authorization hash that an approval binds and evidence records; the journal's payload of a new
-- approval is checked with the approval store's own reader. The orchestrator calls them in turn: its
-- methods are sequences of the stores' own operations, and a call that raises leaves the stores as they
-- are then. The authority lock makes each entry point one step.
--
-- Conventions. A raised exception is a value of the component's error type. The clock's readings
-- and new ids are arguments, and so is the answer of the file system to a write; a file lock makes
-- a call one step. A write of the approvals, of the ledger or of the journal may raise after the
-- new document took the file's place; in the other stores a write that raises leaves the file. A
-- line of evidence that is written is taken to be one that can be read, and a part of a line to be
-- one that can't. `expire_due` reads the clock once, where the source reads it for each approval.
-- What the host or a library decides (globs, lower case, signatures) is a parameter. No definition
-- needs fuel: each loop is over a list, a text or a payload.
--
-- Not modelled: a write of evidence that loses only the final newline, after which the next line is
-- added onto the last record; a record of evidence that nests deeper than the reader allows; the
-- rounding of amounts beyond the precision of `Decimal`; the loading of policy packs and the texts
-- of reasons; signing and external witnesses of evidence; the built-in tools; of the orchestrator,
-- the building of a harness, the preflight of a publication and the form of an outcome; the making
-- of operators' signatures and the publication of authority but for its continuity anchor; the JSON
-- parser behind the preflight; other readers, persistence, the MCP proxy, hooks, adapters and the
-- command line, which are input and output. The orchestrator's definitions take the audit of all
-- stores, the reading of stored snapshots, the texts of a record and the operator keys' answer on
-- an authorization as parameters, and the adapter's action as an argument.
pub mod Common
pub mod Money
pub mod Contracts
pub mod Budgets
pub mod Approvals
pub mod Policy
pub mod Tools
pub mod Evidence
pub mod Journal
pub mod Continuity
pub mod StrictJson
pub mod Trust
pub mod Orchestrator
pub mod Tests
