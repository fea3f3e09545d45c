-- ===== src/Lib.antt =====
-- A verification library for flop-agent-intelligence: the parts of the agent that decide when
-- something leaves the machine, and that must stay right across crashes and restarts.
--
-- The parts and their files:
-- - Common: results, methods over a state that may raise, their pre- and postconditions, lists and
--   Boolean tests, character classes of texts.
-- - Scheduler: src/flop_agent/engagement_scheduler.py. Types and Validate are the state file and
--   `validate_state`; Evaluate is `_recent_attempts`, `evaluate` and `_record_failure`; Run is
--   `load_state`, `write_state`, `dry_run`, `run_once` and `approve_reset`; Transitions is
--   `enable_scheduled` and `disable_scheduled`. History has the sequences of operations on one
--   file. The world is the file and the instants of the collector's calls.
-- - Handoff: src/flop_agent/sonnet_registration_handoff.py. Types and Decode are the journal and
--   `_decode_records`; Journal is `_Journal.read`, `append` and `inspect`; Approval is
--   `validate_approval_artifact`; Service is `execute` and `reconcile`. History has the executions
--   and reconciliations of one journal. The world is the file, the approvals that the process has
--   used, and the numbers of signatures and posts.
-- - Collaboration: src/flop_agent/collaboration.py. Types has the events and states; Reduce is
--   `Provenance.validate`, `HumanApproval.validate`, `apply_event` and `replay`; Accepts, Replay
--   and Evidence reason about accepted events, completed cases and the evidence in a replay.
-- - EvidenceTransport: src/flop_agent/evidence_transport.py. Types has the snapshots; Parse is
--   `_parse_jsonl`; Store has the registries, in which a live object is the number of the objects
--   before it; Acquire and Service are `EvidenceTransportService` but its archive; Reconcile is
--   `reconcile`; Projection is `public_projection` and `validate_evidence_projection`. Justified,
--   Kept, Preserved, Reached and Projected reason about sequences of calls.
-- - WireEvidence: src/flop_agent/wire_evidence.py. Stages is `transition_agreement` and
--   `advance_readback`; Nonce is `parse_nonce`; Signing is `context_builder` and
--   `material_builder`; Scan and Export are `assess_export`; Bundle is `RailObservation`,
--   `assess_finality` and `EvidenceBundle`; Agreement is `verify_tclk_alpha_agreement`. Routes,
--   Binding, Transcript, Assessed, Public, Offered and Agreed reason about them. Texts that are
--   taken apart are lists of code points.
-- - EngagementHistory: src/flop_agent/engagement_history.py. Load is `validate`, `key` and `load`;
--   Append is `append`; Appended, Recorded, Durable and Acknowledged reason about them. The world
--   is the file, the tail that was set aside, and the state of the last transaction, which says
--   whether the rename was done when an append raises.
-- - SignedPost: src/flop_agent/write_effect.py and `post` of src/flop_agent/technocore.py. Fence is
--   `reserve` and `attempt_keys`; Post is `post`, with the contexts, material and stages of
--   WireEvidence. Once and Confirmed reason about them. The world is the journal's committed rows
--   and the posts that the transport was called for.
-- - ObservationJournal: src/flop_agent/durable_observation_journal.py. Types and Validate are the
--   records, `_validate_record` and `_inspect_bytes`; History is `_history_valid`; State and Store
--   are `locked`, `read_at` and `append`; Select and Service are the operations of `_build_store`;
--   Projection and Inspect are `inspect` and `validate_projection`. Phases is the attempt's state
--   machine, and Requested counts its announcements; Calls, Reads, Appended, Moves, Operations and
--   Performed follow the journal through operations that can stop at each call; Final reasons about
--   projections. The world is the journal, the temporary file, what one built store holds, and the
--   number of calls made.
-- - Workflow: src/flop_agent/workflow.py. Signal has its functions; Gate has the signals that they
--   make of a prepared one.
-- - Yellowpaper: src/flop_agent/yellowpaper_wire.py. Arguments is `_uint` and `_hash`; Settlement
--   is `derive_payable` and the receipts; Transcript is `decode_transcript`; Policy is
--   `decode_policy_hash`. Payable, Turns, Taken and Encoded reason about them. Bytes are lists of
--   numbers, and the vendored reference implementation is an argument.
--
-- Numbers are natural; instants are microseconds, and the files' stamps are cut to whole seconds as
-- the code cuts them. Loops run over lists, so no fuel is needed, but for the loop of writes of
-- ObservationJournal: its fuel is the number of bytes, and as a write that takes none raises, that
-- many writes are enough. Faults of the file system are arguments: an operation may fail before or
-- after its rename. Operations on one file are atomic steps because the code holds its lock for all
-- of them.
--
-- Not modelled: the bytes of JSON, the file descriptors, directories and permissions beside the
-- mode of the state file, SHA-256 and Ed25519 (parameters), the network, the command line, and the
-- other modules of the package.
mod Common
pub mod Scheduler
pub mod Handoff
pub mod Collaboration
pub mod EvidenceTransport
pub mod WireEvidence
pub mod EngagementHistory
pub mod SignedPost
pub mod ObservationJournal
pub mod Workflow
pub mod Yellowpaper
