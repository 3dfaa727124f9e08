-- ===== src/Lib.antt =====
-- ProcInSh: a web-based process inspector for Linux. This library models parts of it and proves what
-- makes them correct.
--
-- An unprivileged server (src/http_server) and a privileged helper (src/privileged_helper) run as two
-- processes on one machine. The server asks, the helper acquires, and every message between them is a
-- frame of src/ipc. A server may also be a hub that takes other machines' servers as agents.
--
-- Ipc/Codec: src/ipc/codec.rs. `Encoder` and `Decoder` are the structs, a `Wire A` is an impl of the
--   trait `Wire` together with an independent description of its bytes (`code`) and the laws that tie the
--   two; Values, Lists, Choices, Combine, Enums and Addresses are the impls and the two macros.
-- Ipc/*: the structs and enums of src/ipc, one module to a file, with their `wire_struct!` and
--   `wire_enum!` as values of `Wire`. A struct is the tuple of its fields in the written order, an enum
--   the sum of its variants; Rust integers are the native numbers with their range as a predicate
--   (`IsRepresentable`), i32 and i64 are integers with their two's complement pattern, an f64 is its
--   bits, a String is its bytes with the test of UTF-8. Byte order is little-endian and usize has 64
--   bits, as on both supported targets; the register count is a parameter for the two. `IsRepresentable`
--   has arrays and register sets of their length, file chunks of 64 MiB at most, and live samples without
--   the `context` that the helper gives them, since the format leaves it out. Schema/Contexts is what a response is without the contexts of its
--   samples, as which it is written.
-- Ipc/Transport: src/ipc/transport.rs. What the operating system does is a schedule, a list of turns,
--   one for each call of the socket; the loops recur on it.
-- Helper: src/privileged_helper. Monitors has the registrations of the two monitors (reserve, subscribe
--   and the drops); Service the sessions, their leases, and `Answers`, what collectors and channels
--   answer during one request; Dispatch the requests, as `dispatch` of helper_service.rs handles them;
--   Runs the orders in which requests, expiry, a stop and new snapshots can come; Serve the loop `serve`
--   of one connection, over both of its sockets. A release build is modelled: the drop of a viewer wraps
--   at 0.
-- Delivery: src/http_server/delivery.rs. A JSON value is a parameter; Encoder is
--   `SnapshotEncoder::encode`, Delta the delta of an array, and Merge what the web client makes of an
--   update (web/src/space/snapshot-merge.ts), which Faithful compares with it. Known has the processes as
--   the client has them, and Processes the epoch of each process's maps for the client: one that it has
--   stays where an update leaves the maps out.
-- Privacy: src/http_server/privacy.rs. The engine that finds sensitive text, the digest and the repair of
--   UTF-8 are parameters, and a slice out of bounds is an error; Texts is joining and splitting,
--   Redaction and Items the two loops of `scan`, Scans the scan with its cache, Scrub `scrub` over JSON
--   values, Responses the replies that it is applied to.
-- Sampling: src/privileged_helper/process/snapshot. Perf has the records of the kernel's ring and Ring
--   its draining (perf.rs); FramePointers the walk along saved frame pointers, over a function for the
--   memory of the target.
-- Netlink: src/privileged_helper/netlink.rs. Dump has the request and the loop that receives the
--   packets, over a list of what the socket and the clock do; Replies what a kernel sends, Attributes
--   the attribute streams as a kernel lays them out, and Reads what any bytes say as such a stream.
-- Hub: src/http_server/hosts. Names is the identity of a host and which names are valid; Registry the
--   hosts that a hub knows (registry.rs), where a link is a handle and closing it is an entry in a log;
--   Views has the lists that it gives out, Identity what it keeps of an agent in privacy mode;
--   Registered, Stale and Agents are what holds as agents come and go. Link is `AgentLink` (link.rs),
--   whose callers wait in a list, and Waiting the orders of its steps. Frames has the messages and their
--   frames (wire.rs), where JSON and gzip are parameters, gzip with the law that it gives back what was
--   compressed; Secrets the comparison of tokens; Handshake how the hub accepts an agent and ends its
--   link (listener.rs); Connector the sessions of a hub at the agent (connector.rs) and Ledger the
--   orders of its requests and answers; Correlate the sockets that connect two hosts (correlate.rs).
-- Prelude: shared names and lemmas. Tests: runs at concrete inputs.
--
-- Fuel: the walk along frame pointers has 256 rounds, which the code counts itself, and the drain of a
-- ring one round more than the ring has bytes, which is enough since each record takes some; so have the
-- loops over a netlink packet and over its attributes. The loops of the transport and of a dump recur on
-- the schedule of the socket, which is as long as the run that it describes; `unscheduled` is the answer
-- of the model when a schedule ends before the loop, and a loop has turns enough when its schedule can
-- move the bytes that it wants. All else is structural recursion.
--
-- Not modelled: what reads the kernel (procfs, ptrace, perf events, sockets, eBPF), whose answers are
-- parameters of `dispatch`; the HTTP server and its analyses (src/http_server but for the files named
-- above), of the privacy mode what is read of the machine at its start, and of the hub the RDMA pairs
-- of two hosts, the tasks that move messages and the ping; the web client but for the merge of
-- updates; the build script; the workers of the two monitors; the parsers and the Display impls beside
-- the types of src/ipc.
pub mod Prelude
pub mod Ipc
pub mod Helper
pub mod Hub
pub mod Delivery
pub mod Sampling
pub mod Netlink
pub mod Privacy
pub mod Tests
