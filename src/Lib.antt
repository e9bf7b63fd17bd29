-- ===== src/Lib.antt =====
-- deno_core, a runtime that embeds V8: models of the parts of its core crate that keep state of
-- their own, and of the byte slices of the crate serde_v8.
--
-- Parts, and the code that each file is about:
--   AsyncCell       core/async_cell.rs: AsyncRefCell, a cell that futures borrow. The state is the
--                   count of borrows, the queue of waiters and `turn`, the id of the queue's front;
--                   AsyncCell.antt has try_add, try_remove, wake_waiters, borrow_sync, drop_borrow,
--                   create_waiter, poll_waiter and drop_waiter, and `step`, an action of a future or
--                   a guard on the cell. Queue, Tally, Moves and Invariant carry the proofs.
--   Modules         core/modules/mod.rs and core/modules/module_map_data.rs: the types of modules and
--                   requests, the two-level table of names (NameTypeMap), and the registry MapData
--                   with registration, aliases and look-ups. V8 handles are numbers.
--                   RecursiveLoad is core/modules/recursive_load.rs: a load as a state machine, over
--                   the interface ModuleGraph, which is what it asks of the module map; Walk has the
--                   worklist, Poll the states and poll_next, with the futures that are ready as an
--                   argument, Referrer the position of an import, and in Graph the registry fills
--                   the interface.
--   Resources       core/io/resource_table.rs and core/io/resource_handle.rs: the table of resources.
--   V8Slice         serde_v8/magic/v8slice.rs: a range of a V8 backing store.
--   Buffers         core/io/buffers.rs: BufView and BufMutView. View has the operations that both
--                   share, over any Buffer; BufView and BufMutView add the enums below them and their
--                   own operations. The theorems of V8Slice fill Buffer for slices of a store.
--   BufferStrategy  core/io/buffer_strategy.rs: the size of the next buffer of a reader.
--   Timers          core/web_timeout.rs: WebTimers, with the counts of unreferenced and of high
--                   resolution timers. The reactor's clock, and whether the sleep is ready, are
--                   arguments.
--   GothamState     core/gotham_state.rs: the store of one value for each type, over any set of types.
--   Arena           core/arena/raw_arena.rs: RawArena, with the vacant slots threaded through its
--                   memory; FreeList is that list, Refinement relates it to a pool of slots.
--   Ops             core/extensions.rs, core/ops.rs and core/extension_set.rs: declarations of ops,
--                   and the contexts that create_op_ctxs makes of them; Ops/Bindings.antt is about
--                   core/runtime/bindings.rs, which walks over the contexts, and Ops/Metrics.antt
--                   about core/ops_metrics.rs, whose tracker has a summary for each context.
--   Extensions      core/extensions.rs and core/extension_set.rs: the ops (init_ops, with its checks
--                   in debug builds) and the sources of a set of extensions.
--   Tasks           core/tasks.rs: V8TaskSpawnerFactory, under every interleaving of the accesses of
--                   spawning threads and of the polls.
--   UvCompat        core/uv_compat.rs: the handles of the loop that stands in for libuv's. Handles has
--                   the functions that C code calls, Phases run_timers, run_idle, run_prepare,
--                   run_check and run_close, with callbacks that call those functions; WellFormed
--                   is the invariant, Keys the ordered set of timer keys.
--   EventLoop       core/runtime/jsruntime.rs: EventLoopPendingState, the end of
--                   poll_event_loop_inner, and dispatch_pending_ops (EventLoop/Ops.antt).
--   Exceptions      core/runtime/exception_state.rs, and dispatch_rejections of
--                   core/runtime/jsruntime.rs: the queues of promise rejections.
--   Common          Shared names, and lemmas on lists, tables and computations that may panic.
--
-- A panic is `none`; an error that the code returns is a value. State is passed explicitly. A Rust
-- map is an association list with at most one entry for a key.
--
-- Numbers are ℕ. The id of a resource is a u32 that wraps, as in a release build; usize has 64 bits
-- where BufferStrategy needs it, and into_parts of V8Slice, whose products panic on overflow as in a
-- debug build. Elsewhere sums of usize are taken not to overflow; a subtraction of usize panics below
-- zero, and saturating_sub stops there.
--
-- Fuel: `follow`, the loop of get_id over aliases, runs on fuel, and a theorem says how much is
-- enough; so do the walks of a module load over the registered modules, and of an arena over its
-- vacant slots; wake_loop and the search for a power of two are bounded by the queue and
-- by the 64 bits of usize. The loop over the watchers of a phase takes a round for each address of a
-- watcher, and one more.
--
-- Parameters: the buffers of the crate bytes are the records Buffer and BytesMutApi, with what their
-- documentation promises; reading a file and the transpiler of sources are functions; a V8 backing
-- store is its bytes and its length.
--
-- The calls of JavaScript and of C are lists of the events or calls that they cause, as functions of
-- what they can see. What V8 answers to the event loop is given.
--
-- Not modelled: V8 itself and the glue to it (bindings, snapshots, the inspector, garbage collected
-- objects), the macros of the directory ops, file system access, the sockets of core/uv_compat.rs,
-- and the phases of a poll, op drivers, the wakers of timers, the arenas over RawArena, the
-- module map, cancellation and the conversions of values.
mod Common
pub mod AsyncCell
pub mod Modules
pub mod Resources
pub mod BufferStrategy
pub mod Arena
pub mod Ops
pub mod EventLoop
pub mod Exceptions
pub mod Extensions
pub mod Tasks
pub mod Timers
pub mod UvCompat
pub mod GothamState
pub mod V8Slice
pub mod Buffers
