-- ===== src/Lib.antt =====
-- Knot: a verification library of its Rust components.
--
-- Knot is a set of crates around a daemon. components/shared/terminal reports the progress of long
-- operations: an engine makes steps, tasks (a head line with stages that run in any order) and
-- sequences (stages that run one after another), drawn by a renderer either as progress bars on a
-- layout or as plain lines. A sequence drives the task it holds, the task drives its stages, and
-- each of these calls its renderer; a task builder makes the task and asks the layout for the bars.
-- components/sdk/sys binds, spawns and signals processes of the operating system, by a handle for
-- each platform. components/sdk/grpc makes local sockets a transport: a connector for the client,
-- an accept loop with a bounded channel for the daemon. components/sdk/facade is the client of the
-- daemon: it finds out whether the daemon answers, hangs, is dead or offline, kills it, cleans up
-- after it or launches it, and opens sessions on it, by means of the two others and
-- components/sdk/core, which has the names and paths.
--
-- The files, with the code they are about (under components/shared/terminal/src unless a path is
-- given):
--   Prelude: tests on numbers, lists, texts (lists of code points), sets of texts (the HashSets of
--     a task) and decimal numbers.
--   Terminal.Console: what the crate calls but does not implement, and layout/node.rs. A function
--     of indicatif, console, textwrap, the clock or the formatter is a field of `Console`; a call
--     made for its effect is an entry of the log of a `Screen`, newest first; a call that panics
--     sets a flag of it.
--   Terminal.Style, Layout, Report, Step, Engine: style.rs; layout.rs and layout/anchor.rs;
--     error.rs and utils.rs; step.rs; engine.rs. Layout/Rows says what is relied on for the order
--     of the bars of a `MultiProgress`, Layout/Cursor follows a place among them, Engine/Quiet
--     has proofs about tasks and sequences without a terminal.
--   Terminal.Renderer: renderer.rs. Renderer/Format has its record and the texts, Renderer/Width
--     proofs on their width; Renderer/Quiet, Renderer/Steady and Renderer/Panics have what each
--     state does to the lines in plain mode, to the order of the bars and to the flag.
--   Terminal.Task: task.rs and task/stage.rs. Task/Stages, Task/State and Task/Ops have the code;
--     Settle and Outcome say what `update_state` and the operations on one stage do to the record,
--     Inv has the invariant, and Results, Failure, Bulk, Restart and Trace the properties. Spec
--     has an abstract machine: the ids of the stages, two sets of them as predicates, and whether
--     the task has ended; Refine, Sweep and Replay show that a task is that machine. Quiet, Steady
--     and Panics lift what a renderer does to the screen to the operations of a task, Anchor and
--     Standing follow the anchor through them, and Nodes has the nodes of the entries.
--   Terminal.Builder: task/builder.rs; Builder/Steps, Builder/Start, Builder/Quiet, Builder/Order
--     and Builder/Life have proofs about `start`: what its loop builds, what task it gives, and
--     when it panics (Builder/Refusals), what it does to the screen in plain mode, where it puts
--     the bars in interactive mode, and where they and the anchor are when the task has ended.
--   Terminal.Sequence: sequence.rs and sequence/builder.rs; Sequence/Inv has the invariant,
--     Sequence/Ids the ids of the stages, Sequence/Start what the builder gives, and
--     Sequence/Course an abstract course of a sequence; Sequence/Quiet is about plain mode.
--   Sys.Errors, Sys.Names, Sys.Process: errors.rs, utils.rs, and process.rs with metadata.rs and
--     traits.rs, of components/sdk/sys/src; Process/Bind, Process/Attempts, Process/Retries and
--     Process/Truthful have proofs about `bind`, about the attempts after a spawn, about the
--     attempt that decides, and about what the handle promises. The texts of Sys.Names are bytes.
--   Sys.Linux, Sys.Windows, Sys.Macos: sys/linux.rs, sys/windows.rs and sys/macos.rs of
--     components/sdk/sys/src; Linux/Truthful, Windows/Truthful, Macos/Fingerprint, Macos/Waiting
--     and Macos/Truthful have proofs; the last makes `wait` total by the result that it is proved
--     to have. Sys.Sample is a kernel for the tests.
--   Core.Consts, Core.Paths, Core.Utils: consts.rs, paths.rs and utils.rs of
--     components/sdk/core/src; Utils/Durations reads a printed duration back.
--   Grpc.Resolver, Grpc.Connector, Grpc.Incoming, Grpc.Acceptor: resolver.rs, connector.rs,
--     incoming.rs with incoming/options.rs, and its accept loop with incoming/stream.rs, of
--     components/sdk/grpc/src; Incoming/Bound has what stands behind a listener, Acceptor/Order has
--     the invariant of the loop, Acceptor/Delivery its progress.
--   Facade.Policies, Facade.Errors, Facade.Protocol, Facade.Client: policies.rs with
--     policies/kill.rs and policies/timeout.rs; errors.rs; the messages of proto/knot/v1;
--     guarded_client.rs, under components/sdk/facade/src as the following.
--   Facade.Stale, Facade.Kill, Facade.Offline, Facade.Session, Facade.Dial: handles/stale.rs;
--     handles/kill.rs; handles/offline.rs; handles/connected.rs, control.rs, uncommitted.rs and
--     task.rs with `DaemonSession` of states.rs; and `ConnectedHandle::new`. Stale/Purge,
--     Kill/Ending, Kill/Gone, Offline/Launch, Offline/Total and Session/Revision have their proofs.
--   Facade.Connect, Facade.Pid: builder.rs and client.rs with `ConnectState` of states.rs; the
--     process id in a file. Connect/Outcome and Pid/RoundTrip have their proofs, Facade.Recovery
--     composes `connect`, `kill` and `clean`.
--   Scenarios, in each part: concrete tasks, hosts, kernels, disks, channels and daemons.
--
-- Correspondence. The target of the build is a `Build`; the records of interprocess carry it. A
-- method that takes `&mut self` is a function from the record and the screen to both; functions
-- keep the names of the source, `new_builder` is `TaskSequenceBuilder::new`, and `perform_ok`
-- stands for `ok` as well, which only calls it (so do the other three). The first stage with an id
-- is the one that is found and changed, as in the source. A panic is `none`, but where a template
-- given to indicatif is not accepted, or a spinner has less than two ticks, it is the flag
-- `panicked` of the screen, which is never cleared: the program has stopped at the first such
-- call, and what the model computes after it is not reached. From Sys on, the outside world is a
-- type `W`, a failing computation is an `Action`, and what acts on the world is a record: sysinfo
-- and tokio are `Host`, a platform's handle is `ProcessControl`, its system calls are `Kernel`,
-- `Api` and `Machine`, the file system is `Files`, interprocess is `SocketNames`, `Server` and
-- `Channels`, tonic's client is `Daemon`, and a connection to it is made by `Dialer`.
-- `linux_control`, `windows_control` and `macos_control` make the handles a `ProcessControl`. What
-- these are relied on for is stated where it is needed: IsMultiProgress, IsPidfd, IsWaitable,
-- IsClock, IsObservant, IsFileSystem, IsFifo, IsProductive, and IsTruthful for what traits.rs
-- promises of a handle. An async function is the sequence of its calls.
--
-- Bounds. `bind_after_spawn` tries 20 times, by recursion on the number of tries, as the source's
-- loop does; `launch` tries 40 times, one try and 39 more. The loop of the Linux `wait` runs once
-- for each report that the descriptor is ready before the timer ends, a number that the kernel
-- gives. The loop of the macOS `wait` takes fuel, and gives `none` without; more fuel than the
-- timeout has milliseconds is enough. Decimal numbers take n + 1 as fuel for n, which has at most
-- that many digits. Every other loop is over a list. Numbers that the source holds in a `usize` are
-- unbounded here: they count stages, nodes and columns.
--
-- Taken for granted: an engine has one layout and one plain writer, which are the screen;
-- indicatif accepts the template `{msg}`; locks are not poisoned; the buffer of a listener has
-- room for a connection, since tokio panics otherwise.
--
-- Not modelled: `with_plain_writer`; the reaper of a spawned child; the comparison of names by
-- `bind` in the build for Windows, which can panic and which Sys.Names has by itself: what is said
-- of `bind` and of its callers is said of the other builds; the streams of events of a task and
-- the bytes of a connection, which are passed on only; logging; WorkspaceMetadata; the scripts of
-- the build, and the code that they generate from proto/knot/v1.
pub mod Prelude
pub mod Terminal
pub mod Core
pub mod Sys
pub mod Grpc
pub mod Facade
