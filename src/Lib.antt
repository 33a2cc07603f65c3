-- ===== src/Lib.antt =====
-- rskynet: the actor kernel of the repository, its timer and its logger, the sockets of its network
-- service, the frames of its cluster and the order of its plugins.
--
-- A node of rskynet runs services, each with a mailbox. A handle table gives every service a number
-- and finds it by number or name (Core/Handles, crates/rskynet-core/src/handle.rs:
-- `HandleStorage`). A message goes into the mailbox of its service, whose state decides who puts
-- the service into a run queue, and workers take services from there and work off their mailboxes
-- (Core/Mailbox, crates/rskynet-core/src/mq.rs: `Mailbox`). Each message becomes a task of its
-- service, whose wakers put it back into the mailbox when it can go on (Core/Tasks,
-- crates/rskynet-core/src/task.rs: `TaskSet`, `TaskWaker`). The thread that holds a service starts
-- it, does its work and cleans up after it (Core/Service and its module Run,
-- crates/rskynet-core/src/server.rs: `ServiceContext`, `Node::run_service`, `Node::drain_service`),
-- with messages as in Core/Message (crates/rskynet-core/src/message.rs); the node counts its
-- services and stops after the last (Core/Node, server.rs: `Node::new_service_inner`,
-- `Node::mark_booted`, `Node::quit`, `Node::destroy`). The run queue of a worker is made of blocks,
-- which it fills and empties at one end and thieves at the other (Core/Bwos,
-- crates/rskynet-core/src/bwos.rs: `Block`, `LifoQueue`). A request waits for its answer under a
-- session number (Core/Session, crates/rskynet-core/src/session.rs: `SessionTable`), with the
-- errors of crates/rskynet-core/src/error.rs (Core/Error). A watching thread reads of each worker
-- what it runs (Core/Monitor, crates/rskynet-core/src/monitor.rs: `Monitor`). Timers are armed and
-- cancelled through a queue of commands that one thread drains (Timer/Clock,
-- crates/rskynet-timer/src/lib.rs: `WheelTimer`) into a hierarchical wheel (Timer/Wheel,
-- crates/rskynet-timer/src/wheel.rs: `Wheel`); an expired timer is the answer to a session. The
-- network service keeps the bytes that a connection still has to write, and sizes its reads
-- (Net/Buffer, crates/rskynet-net/src/buffer.rs: `WriteQueue`, `ReadSizer`), and keeps its sockets
-- in a table whose slots are the tokens of its poll (Net/Sockets, crates/rskynet-net/src/socket.rs:
-- `Sockets`, `Socket`). Nodes of a cluster exchange envelopes in frames (Cluster/Wire,
-- crates/rskynet-cluster/src/wire.rs: `frame`, `drain`). A service loads its plugins after those
-- they depend on (Plugins, crates/rskynet-plugin/src/lib.rs: `PluginHost::resolve`,
-- `visit_plugin`). The logger rotates its files and drops lines under load (Logger,
-- crates/rskynet-logger/src/lib.rs: `should_rotate`, `next_log_path`, `Backpressure`,
-- `Logger::write`). Base holds the tests, lists, words and finite maps that all share.
--
-- A state is a record with the fields of the source's struct, a method a function from the old
-- state to its result and the new state. What a lock or a single thread makes atomic is one
-- function; the mailbox, the wakers of tasks, the monitor and the life of the node are shared by
-- threads, so each has besides a `Step` relation between the atomic steps of several threads, which
-- are taken to be sequentially consistent, and its `Reachable` states. Wakers, message bodies,
-- service bodies and socket addresses are values of any type, and so are futures, envelopes and the
-- sockets of the operating system. The code of a service, the encoding of an envelope, the poll's
-- registry and the registry of plugins are arguments. Words of 64 bits are native numbers with the
-- wrap-around or the saturation written out where the source has it, and for its doublings, as in a
-- build without overflow checks; sums of sizes in memory are plain sums. During `cleanup` the puts
-- and the notifications of other threads are single steps.
--
-- Loops on fuel: `alloc_loop` tries one session more than there are entries, so one is free;
-- `register_loop` makes two rounds, as the table is half empty after it grew; `take_loop` makes
-- two, as the second finds the state `Running` when no producer comes between; `double_past`
-- doubles a positive threshold at most as often as the length it must reach, for lengths up to 2 ^
-- 63, beyond which the doubling of the source wraps around; `next_log_path` tries one name more
-- than there are files; `drain_loop` takes four bytes at least with each frame, so one round more
-- than there are bytes ends it; `visit_plugin` marks a name with each nested call, so calls are
-- nested at most as deep as there are descriptors; a push into a queue of blocks makes two rounds,
-- as the block that was entered has room; `cleanup` makes two rounds more than there are rounds in
-- which other threads do something; and `run_service` ends within 64 rounds while others wait, and
-- may go on without end when nobody does. In each case it is a theorem that the fuel is enough. The
-- other loops are structural.
--
-- Not modelled: the scheduler's run queues (mq.rs: `Scheduler`, handoff.rs), the choice of the next
-- service and the killing of services (the rest of server.rs, context.rs, start.rs), the poll
-- loops, the peers of a cluster, the host of plugins and all else that does I/O (the rest of
-- rskynet-net, rskynet-logger, rskynet-cluster and rskynet-plugin, rskynet-http, rskynet-quic,
-- rskynet-tls, rskynet-dashboard, rskynet-signal), and the macros. The orderings of atomics that
-- are weaker than sequential consistency are not modelled.
pub mod Base
pub mod Core
pub mod Timer
pub mod Net
pub mod Logger
pub mod Cluster
pub mod Plugins
