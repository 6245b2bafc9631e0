-- ===== src/Lib.antt =====
-- Verification library of the hugin-agent daemon, a TypeScript program that keeps a socket open to a
-- relay server, runs coding engines for the jobs that the server assigns, and attaches to sessions of
-- these engines on the same machine.
--
-- The parts, and how they interact. `src/conn/client.ts` decodes each frame of the socket, checks its
-- direction and phase, and hands the message to a waiter, a handler or its buffer. `src/daemon.ts`
-- registers one handler after the handshake, and dispatches the job messages to the job manager
-- (`src/jobs/manager.ts`) and the session messages to the session manager
-- (`src/sessions/resume-manager.ts`). The job manager keeps live jobs in a registry and everything that
-- must survive a restart in the event log (`src/store/eventlog.ts`); engines call it back. `protocol/v1`
-- holds what both sides agree on: message types, versions and the bytes that are signed.
--
-- The files:
--   Prelude    helpers: Boolean tests, lists over native numbers, texts, JavaScript's Map
--   Json       the values of JSON.parse
--   Conn       Conn/Outbound: the message bodies of src/conn/outbound.ts. Conn/Client: RelayClient of
--              src/conn/client.ts (deliver, onMessage, waitFor, the "message" and "close" handlers,
--              armForAccept, setAuthed) and decodeInbound of src/conn/framing.ts. Conn/Routing,
--              Conn/Buffer and Conn/Phase: what holds of them
--   Store      the three tables of src/store/eventlog.ts as lists of rows (Store/Rows), one function
--              per method of EventLog; Store/Replay, Store/Attempts, Store/Results: what holds of them
--   Jobs       JobManager: its state (Jobs/Manager), handleAssign (Jobs/Assign), onEvent, onDone,
--              onApprovalRequest and the timer of an approval (Jobs/Callbacks), the other handlers
--              (Jobs/Inbound), applyResume (Jobs/Resume), and a step on any of these (Jobs/Step);
--              Jobs/Types has the engine's interface of src/engine/types.ts, Jobs/Registry is
--              src/jobs/registry.ts and src/jobs/lease.ts. Jobs/Admission, Fencing, Leases, Delivery,
--              Replay, Approvals, Stranded and Invariant: what holds of them
--   Sessions   SessionResumeManager of src/sessions/resume-manager.ts (Sessions/ResumeManager), with
--              Sessions/Busy, Terminal and Backpressure on it; paginateHistory and the cursors of
--              src/sessions/history.ts (Sessions/History/Page and Cursor), with Traversal on them, and
--              boundHistoryEntryBytes (Sessions/History/Bound), with Truncation on it
--              Sessions/History/Texts, ToolCalls, Claude, Codex and Entries: buildHistoryEntries of the same
--              file, with Capped and Matching on them. Sessions/Runner: the run of the two runners of src/sessions/resume.ts, with how each reads
--              a line in Sessions/Adapters; Runner/Done, Lossless and Lost: what holds of it
--   Engine     src/engine. Lines: the loop over the lines of a stream, which permission.ts, claude.ts and
--              src/sessions/resume.ts share. Normalize and Codex: normalize.ts, with Normalize/Kinds and
--              Throws on them; EventKind is the grammar of kinds of protocol/v1/messages.ts. Approval and
--              Permission: the two processes of permission.ts, with Approval/Routing,
--              Permission/FailClosed and Permission/Answered on them; Relayed: the two together. Claude: the
--              run of claude.ts, with Claude/Shut and Claude/Ended on it
--   Daemon     acceptEpoch and the loop of start in src/daemon.ts, with src/conn/reconnect.ts
--   Protocol   protocol/v1: directions and phases (Direction), version negotiation (Version,
--              Negotiation), secrets in base64url (Base64), transcripts (Transcript, Signing)
--   Tests      the theorems applied to concrete states and messages
--
-- How the program is modelled. A handler is a function from the state before to the state after; sends and
-- calls of an engine are recorded in a trace in the state, newest first, and so are the rows that
-- `appendEvent` writes. A job is an object that the
-- registry and the engine's callbacks share, so jobs lie on a heap and are named by their index; a turn of
-- a session is reached through its map only, and lies in the map. A timer that is armed stands in the
-- state and running out is a step of its own. Engines and runners call back in a step of their own. Where
-- they do so within a call (events within `resume`, the end within a `cancel` that comes before the
-- process is started), that call is the last thing a handler does, or the job is fenced by then and the
-- end comes to the same a step later. A send does not fail: the daemon catches the
-- exception of a closed socket. The envelope of a message, a fresh id and a time, is left out, and so are
-- log lines. Numbers that the program keeps (sequence numbers, byte counts, times) are natural numbers;
-- they stay far below 2^53. Texts that are measured or cut are lists of their code units, and texts that
-- are signed are lists of bytes.
--
-- Parameters: the engine's validation and the length, digest and clock functions of the runtime (the
-- record Env of Jobs/Manager), handle validation and runners (the record Env of
-- Sessions/ResumeManager/State), the schema library (the record Codec of Conn/Client) and JSON text in
-- cursors (JsonText of Sessions/History/Cursor, with what is relied on in Faithful) and on the socket of
-- approvals (JsonText of Engine/Approval, with what is relied on in Engine/Relayed). `toLowerCase` and
-- the printing of a value in a template, which may throw, are the record Runtime of Engine/Normalize; a
-- chunk of a runner's stdout is bytes, decoded by the record Text of Sessions/Runner; the code units of a
-- text, printed values, dates and digests the record Runtime of Sessions/History/Texts. A callback that acts
-- within its call is a parameter of the step: `answer` of a bridge, `pauses` of a runner, `asks` of an engine run. Fresh ids are
-- arguments of the steps that draw them; that a drawn turn id is not in use is a hypothesis.
--
-- Fuel: `read_back`, the loop of a client that follows history cursors, has one more than the number of
-- entries; every page but the last moves the boundary down, so that is enough. The binary search of
-- `truncate_entry_content` has more than the length of the text, and the loop that drops tool calls has as
-- many rounds as there are calls. The loop over the lines of a buffer has more rounds than the buffer has
-- units, and each round takes a line off it (Engine/Lines). `decimal` prints a number with its value as fuel, more than its digits.
--
-- Not modelled: files, processes, HTTP, key chains and the command line (src/cli.ts, src/connect.ts,
-- src/auth, src/workspace); spawning, killing and isolating the processes of engines; the list of sessions (src/sessions/enumerator.ts); the schemas of
-- protocol/v1/messages.ts; the handshake, one connection as a whole and the heartbeat; the mock relay
-- and the scripts.
pub mod Prelude
pub mod Json
pub mod Conn
pub mod Store
pub mod Jobs
pub mod Protocol
pub mod Sessions
pub mod Daemon
pub mod Engine
pub mod Tests
