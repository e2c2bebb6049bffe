-- ===== src/Lib.antt =====
-- A verification library of gitility's core crate, crates/gitility-core/src: budgeted, cancellable
-- Git queries over object stores, for an Elixir host.
--
-- Parts and files, each with the source that it models:
--   Base                  shared names, Boolean tests, lists, slices, bytes and 64-bit words
--   Error, Error/Code     error.rs: the normalized error, its codes and their names; `Result`
--   Oid, Object           object.rs: object IDs, and their hexadecimal form (Object/Hex)
--   Budget                budget.rs: limits, counters and charges; Budget/Calls makes the public
--                         operations one type of calls, Budget/Ceilings bounds a run of them,
--                         Budget/Refusals has the errors, Budget/Suspend the suspended charges,
--                         with programs of nested suspensions and walks over graph objects
--   Cursor                cursor.rs: continuation cursors; Cursor/Slices relates offsets to the
--                         bytes that are left, for Cursor/Roundtrip and Cursor/Canonical
--   Lru                   lru.rs: the weighted cache in its slab; Lru/Recency is the list that it
--                         stands for, Lru/Represents how, Lru/Runs the runs of both side by side
--   Odb                   odb.rs: the contract of stores, on a world of what lies outside and the
--                         budget; Odb/Verify is verify.rs, Odb/Static static_odb.rs, Odb/Cache the
--                         cache and Odb/Layered the layers of layered_odb.rs, Odb/Safe reasons on
--                         operations that keep an invariant
--   Decode                decode.rs: commits, tags and identities; Decode/Identities prints identities
--   Ancestry              ancestry.rs: the search for an ancestor; Ancestry/Adapter is
--                         commit_graph.rs, the view that gitoxide's walks have of a store
--   Snapshot              snapshot.rs: commits with their trees, and what annotated tags lead to
--   File                  file.rs: the slice of a file by lines and by the byte cap; File/Lfs
--                         recognises LFS pointers
--   Refs                  refs.rs: the compact positions of cursors, in blocks of a number to the base
--                         215 (Refs/Blocks, Refs/Compact); Refs/Names validates full names and follows
--                         symbolic ones, at most 16 (Refs/Names/Leads has the chains), Refs/Pages has
--                         the cursors between pages
--   Pathspec              pathspec.rs: pathspec filters and the pruning of walks, of escaped names
--                         in Pathspec/Escapes
--   GitConfig             git_config.rs: the parser of `.gitmodules`; GitConfig/Methods has its loops,
--                         GitConfig/Quotes a printer of values
--   Runtime/ThreadBudget  runtime/thread_budget.rs: thread reservations under interleaving
--   Runtime               runtime/mod.rs: the job runtime. Runtime/Job has one job, Runtime/Jobs the
--                         maps, Runtime/Shared and Runtime/Admission the operations of a thread run
--                         alone; Runtime/Threads interleaves them, with an invariant in each child but
--                         Runtime/Threads/Sequential, which writes the operations out in steps
-- Every query takes a budget and answers with `Result`; object IDs and cursors are what queries
-- exchange with the host; pathspecs filter the walks; the runtime reserves its threads before it
-- starts. Functions keep the source's names; where a method's name is taken by another type's,
-- `new` stands in the module of its type.
--
-- Bytes are native numbers below 256, slices are lists, `u64` counters wrap or saturate as the
-- source's operations do, `usize` has 64 bits. Instants are arguments. A formatted message is the
-- list of its pieces. Atomics are sequentially consistent, so that parallel charges are a sequence
-- of calls. The loops of GitConfig run on fuel, one unit for each byte that is left and two more:
-- every turn but the last two reads a byte, and the end of the input reads as a line feed, which
-- ends the loop. All other loops recur on a list or a count of rounds.
--
-- A store's operation is a function from a world to a result and the next world; `none` is a panic.
-- A call of the clock is a step of the world. The loop of evictions of Lru has one unit of fuel for
-- each entry and one more, and takes an entry in each turn; that of Ancestry has one for each
-- parent of a commit in reach and one more, and pops one parent in each turn.
--
-- The runtime's shared jobs are a list that the operations look up by ID; a job behind its `Arc` is
-- changed in place there. A thread that is between an exchange of a job's state and the bookkeeping
-- for it is a debt of the state, so that any other thread may come in between.
--
-- Not modelled: the gitoxide libraries (the wildmatch of gix_glob is a parameter of Pathspec with
-- the documented behaviour as a hypothesis, the digests and the splitting of payloads into
-- fields are parameters of Odb and Decode, the component rules for full names of gix_ref and how it
-- prints bytes are parameters of Refs), the local stores, providers, fetch, the bindings and the other
-- queries; merge bases; the iterator over trees; the
-- runtime's bounded join of its workers, its getters and its condition variables; the
-- parsing of the thread budget's environment variable stands for the number that it gives.
pub mod Ancestry
pub mod Base
pub mod Budget
pub mod Cursor
pub mod Decode
pub mod Error
pub mod File
pub mod GitConfig
pub mod Lru
pub mod Object
pub mod Odb
pub mod Oid
pub mod Pathspec
pub mod Refs
pub mod Runtime
pub mod Snapshot
