-- ===== src/Lib.antt =====
-- Verification of datarhei Core, a server that runs and restarts ffmpeg processes and keeps their
-- output. The files model parts of its Go code by hand-written definitions, and prove what makes
-- these parts correct.
--
-- The parts and where they are modelled
--
-- Process, with its folder: process/process.go, a child process that is started, stopped and
-- restarted. The record Process has the fields of the struct process, and counts the goroutines
-- that are under way: restarts at the order lock, children, waiters. Ops has a function for each
-- method (Start is start_call, start is start_process, Stop is stop_call, stop is stop_process,
-- Kill is kill_call). Machine combines them: an event is a call of a client or a step of a
-- goroutine, and `run` takes any sequence of them, so every interleaving at the grain of the order
-- lock is covered. A `Stop` that waits does not hold up the other events here, which only adds
-- interleavings. The clock and what the operating system answers are part of an event.
--
-- Process.Limits, with its folder: process/limits.go, the limiter of the CPU and the memory. A
-- tick is a call of collect with what psutil reads; Runs says what it reports in terms of the list
-- of readings.
--
-- Net.Port, with its folder: net/port.go, the pool of ports. The slice is a list of Booleans, and
-- an index out of range or a negative length is a result of its own. Lease follows a port over any
-- sequence of calls.
--
-- Http.Lru, with its folder: http/cache/lru.go. The list of container/list is a list of values
-- with addresses, the index a map from keys to addresses, the size a uint64 with wrap-around. Spec
-- is the cache without any of these, a list of values.
--
-- Io.Path: cleanPath of io/fs/mem.go, with what it uses of path/filepath. Io.Mem, with its folder:
-- the rest of io/fs/mem.go. A file is found by its path, so the pointers to it are followed by the
-- path. Io.Sized, with its folder: io/fs/sized.go over a record of the operations of a filesystem;
-- Bounds states the laws that the limit needs of it, and Instance has the filesystem in memory
-- under a limit.
--
-- Session, with its folder: session/session.go, session/collector.go and, in Registry,
-- session/registry.go. The limiter of a collector is that of net/iplimit.go, in Net.Iplimit. The
-- map of the collector holds the sessions themselves. Events has the calls, the timers, the ticker
-- and the close callback of a session as steps; a timer that an object from the pool has kept is a
-- step of its own. Counts, Invariant and Runs follow the counters over any sequence of steps, Stop
-- what is left at the end, Totals and Sums the history and its summary, Reuse the objects of the
-- pool.
--
-- Restream, with its folder: restream/restream.go, the manager of processes, with
-- restream/app/process.go for its configuration. Output, Validate and Resolve check and resolve
-- the addresses of a configuration, Tasks assigns the ports of Net.Port, Cleanups sets the rules
-- of restream/fs/fs.go, Manager, Changes, Lifecycle and Queries have the operations, and Server
-- sequences of them, in which AddProcess is two steps, one for each lock that it takes. Prefix,
-- Inside, References and Resolution say which addresses are accepted and what references mean, in
-- terms of the texts alone. Ports, Holders, Leases, Configured, Reassigned and Exclusive follow
-- the ports that the tasks hold. Requests, Count, Running, Created, Updated and Reloaded follow
-- the number of running processes.
--
-- How they interact: the process manager holds processes, takes ports from the pool, and gives
-- cleanup rules to the filesystems; to the manager, a process of Process is the order that it
-- reports. The HTTP server caches files of the filesystems in the LRU cache, and the servers count
-- their traffic in the collectors; these clients are not modelled.
--
-- Bounds and fuel
--
-- Counters of type uint64 wrap around at 2^64. Go's int and int64 are unbounded integers
-- (Prelude.Int): ports are below 65536 after the clamp, and sizes of files that are held in memory
-- stay below 2^63. The loop of the LRU cache runs on fuel, the number of its elements; each round
-- removes one. validateOutputAddress runs on fuel, two more than the length of the address, which
-- is enough wherever the source returns for the parts that Restream.Returns describes; without
-- fuel the model reports the overflow of the stack. The other loops recurse on their lists. Times
-- are numbers of one clock.
--
-- What is not modelled
--
-- The parser of ffmpeg's output and the reader goroutine, the branch for Windows, the pool of
-- buffers of the filesystem and what it shares, logging and locks: what runs under one lock is one
-- step. Some code that does not hold one lock throughout is one step as well: the waiter of a
-- process and a tick of its stale check, a call of a collector, whose counters change outside of
-- its lock, and Stop of a collector, during whose wait nothing else comes in. Calls of createTask
-- that run at the same time take their ports one call after the other. Calls of the operating
-- system are arguments, and so are the sliding windows of bitrates, what net/url, the validators
-- of FFmpeg and the matching of patterns say, and the placeholders of a configuration. Of the
-- manager, probing, states and logs are left out. The other packages of the repository are not
-- modelled.
--
-- Modules
--
-- Prelude has the shared names, native lists, integers, maps and machine words. In each folder,
-- Tests runs the definitions on examples and applies each theorem to one.
pub mod Prelude
pub mod Net
pub mod Http
pub mod Process
pub mod Io
pub mod Session
pub mod Restream
