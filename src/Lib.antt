-- ===== src/Lib.antt =====
-- zeropool, a user-space byte allocator: buffers are recycled through size classes, and each thread
-- keeps caches of its own in front of the shared classes.
--
-- Parts of the program, and the module that models each (paths are from the repository's root):
-- * `Config` is src/config.rs, the defaults that depend on the CPU count.
-- * `Route` is the routing half of src/size_class.rs: `CLASS_SIZES`, `route_size`, `route_capacity`.
-- * `SizeClass` and `ClassTable` are the types of those names in src/size_class.rs.
-- * `Tls` is `TlsState` of src/tls.rs.
-- * `Allocator` is the trait and the default backend of src/allocator.rs.
-- * `Stats` is src/stats.rs.
-- * `Buf` is src/buf.rs, the guards that give a buffer back when they are dropped.
-- * `Pool` is `ZeroPool` of src/pool.rs: construction and settings in `Pool`, `alloc` and
--   `alloc_uninit` in `Pool/Alloc`, `dealloc` in `Pool/Dealloc`, the rest in `Pool/Admin`. `Pool/Frame`
--   is the composition of all these calls from a few steps, for relations that every step keeps.
-- * `Race` is the interleaving of threads inside the operations of `SizeClass`.
-- * `Session` is a client on one thread that allocates, writes, gives away and drops guards in any order,
--   and warms, drains and resets the pool.
-- * `Threads` is any number of such threads at one pool, with guards that move between them, threads that
--   come and go, and calls on other pools in between; `Spec` is the pool as its clients specify it, a bag of
--   buffers, with what each call may do to it.
-- * `Access` is the same pool with its calls interleaved access by access: `Access/Calls` is each call as a
--   sequence of accesses to what threads share, `Access/Triple` what a call relies on and leaves to others,
--   `Access/System` any number of threads in such calls, `Access/Bounds` how many accesses a call makes,
--   `Access/Whole` a call that nobody interrupts against the same call of `Pool`.
-- `Base` holds shared helpers; `Vec` is what the code uses of the standard library's `Vec<u8>`;
-- `ArrayQueue` is the interface of crossbeam's queue.
--
-- How state and operations correspond. A `World` is what one call reads and writes: the pool's `State`,
-- the `TlsState` of the calling thread, the serial number of the next allocation and the list of
-- regions locked in memory. A method takes the world and returns the new one beside its result, in
-- an `Option` whose `none` is a panic: an index out of bounds, a failed `assert!` or `debug_assert!`,
-- an overflow that a debug build checks, or a vector of more than `isize::MAX` bytes (`2 ^ 63` and above),
-- which `vec!` and `Vec::with_capacity` refuse. A `&SizeClass` into the table is its index and its value, and
-- a change through it is written back with `put_class`. `Vec<u8>` is its address, its length, its
-- capacity and a function from positions to cells, so that bytes beyond the length are there too.
-- Atomic counters wrap at 2^64; a `usize` has 64 bits. In `Access` a call is a `Code`, its next access and
-- how it goes on with what that yields, and `Shared` is the world without the thread state. A relaxed
-- atomic operation acts on the latest value.
--
-- Parameters. `ArrayQueue` gives crossbeam's bounded queue with its documented laws (first in first
-- out, `push` fails exactly when full, `pop` fails exactly when empty); `Heap` gives the capacity that
-- the global allocator grants, at least the one asked for; an `Allocator` may answer every call in its
-- own way or panic, and the theorems assume the trait's documented contract, that it answers for every
-- capacity up to `isize::MAX`, and that each vector returned owns an allocation of its own, named by
-- the number of the call. `HeapAllocator` panics above `isize::MAX` and else keeps the contract. `ArrayQueue.Slots` is a queue that
-- meets the laws, for concrete runs.
--
-- Fuel. The loop of `SizeClass::clear` runs on the queue's capacity and one; a queue holds no more
-- buffers than its capacity, so it ends by its test (`SizeClass.Drain`); in `Race` and `Access` it is a loop
-- of steps. All other loops are bounded in
-- the source and recur on their bound. `leading_zeros` looks at 64 bits.
--
-- Not modelled: running out of memory, which aborts the program; a guard's vector that grows past
-- `isize::MAX` in `write`; in `Access`, calls that ask for more than `isize::MAX` bytes, which only count
-- themselves before they panic; the rounding and printing of the floating-point rates; the bytes behind the addresses that
-- guards lend; whether locking memory succeeds, which the code ignores; the benchmarks and scripts; the
-- unit tests, except as concrete inputs.
pub mod Base
pub mod Access
pub mod Config
pub mod Route
pub mod Vec
pub mod ArrayQueue
pub mod SizeClass
pub mod ClassTable
pub mod Tls
pub mod Allocator
pub mod Stats
pub mod Buf
pub mod Pool
pub mod Race
pub mod Session
pub mod Spec
pub mod Threads
