-- ===== src/Pool.antt =====
-- pool.rs: the pool's state, its construction, and what the operations of the child modules share.
-- A `World` is all that one call reads and writes: the pool, the state of the calling thread, the
-- serial number of the next allocation, and the regions that were locked in memory. `none` is a panic.
pub mod Alloc
pub mod Dealloc
pub mod Valid
pub mod Start
pub mod Admin
pub mod Unmoved
pub mod Limits
pub mod Frame
pub mod Settings
pub mod Counts
pub mod Reuse
mod Tests
pub mod Sample
use zeropool.Base.{
  ℕ, suc, ◌+◌, ◌%◌, ◌^◌, Bool, false, List, ◌∷◌, Option, some, ◌>>=◌, ◌>>◌, assert, ltb, ◌==◌,
  if◌then◌else◌, set,
}
use zeropool.Vec.{Heap, Vec}
use zeropool.ArrayQueue.{ArrayQueue}
use zeropool.SizeClass.{SizeClass}
use zeropool.ClassTable.{ClassTable}
use zeropool.ClassTable
use zeropool.Tls.{TlsState}
use zeropool.Tls
use zeropool.Allocator.{Allocator, heap_allocator}
use zeropool.Stats.{Counters, Event}
use zeropool.Stats
use zeropool.Config.{
  default_min_buffer_size, default_tls_cache_size, default_max_buffers_per_class,
  default_batch_size, cpu_count,
}

pub record State (aq : ArrayQueue) : Type 0 where
  pub id : ℕ
  pub table : ClassTable aq
  pub tls_cache_size : ℕ
  pub min_buffer_size : ℕ
  pub pinned_memory : Bool
  pub batch_size : ℕ
  pub track_stats : Bool
  pub counters : Counters
  pub allocator : Allocator

pub record World (aq : ArrayQueue) : Type 0 where
  pub state : State aq
  pub tls : TlsState
  pub serial : ℕ
  pub locks : List (ℕ × ℕ)

-- `NEXT_ID.fetch_add(1)` yields the old value; the second part is the new one.
unfoldable pub next_id : ℕ → ℕ × ℕ
next_id counter = (counter, (counter + 1) % 2 ^ 64)

module _ {aq : ArrayQueue} where
  -- `ZeroPool::new`: the arguments are `NEXT_ID`, what the system reports as its parallelism, and
  -- the global allocator.
  unfoldable pub new : ℕ → Option ℕ → Heap → Option (State aq × ℕ)
  unfolding next_id
  new counter parallelism heap =
      let cpus = cpu_count parallelism in
      let cache_size = default_tls_cache_size cpus in
      let ids = next_id counter in
      ClassTable.new (default_max_buffers_per_class cpus) >>= λ table. some (
        record {
          id = ids.0;
          table = table;
          tls_cache_size = cache_size;
          min_buffer_size = default_min_buffer_size;
          pinned_memory = false;
          batch_size = default_batch_size cache_size;
          track_stats = false;
          counters = Stats.new;
          allocator = heap_allocator heap;
        },
        ids.1,
      )

  -- `Default for ZeroPool`
  unfoldable pub default : ℕ → Option ℕ → Heap → Option (State aq × ℕ)
  unfolding new
  default counter parallelism heap = new counter parallelism heap

  unfoldable pub allocator : State aq → Allocator → State aq
  allocator s alloc = record s { allocator = alloc }

  unfoldable pub min_buffer_size : State aq → ℕ → State aq
  min_buffer_size s size = record s { min_buffer_size = size }

  pub tls_cache_size : State aq → ℕ → Option (State aq)
  tls_cache_size s size = do
    assert (ltb 0 size)
    some (record s { tls_cache_size = size; batch_size = default_batch_size size })

  unfoldable pub max_buffers_per_class : State aq → ℕ → Option (State aq)
  max_buffers_per_class s count = do
    assert (ltb 0 count)
    table ← ClassTable.new count
    some (record s { table = table })

  unfoldable pub pinned_memory : State aq → Bool → State aq
  pinned_memory s enabled = record s { pinned_memory = enabled }

  unfoldable pub batch_size : State aq → ℕ → State aq
  batch_size s size = record s { batch_size = size }

  unfoldable pub track_stats : State aq → Bool → State aq
  track_stats s enabled = record s { track_stats = enabled }

  -- `if self.state.track_stats { … fetch_add … }`
  unfoldable pub note : Event → World aq → World aq
  note e w =
      if w.state.track_stats
      then record w { state = record w.state { counters = Stats.count e w.state.counters } }
      else w

  -- `pin`: the result of the lock call is ignored.
  unfoldable pub pin : Vec → World aq → World aq
  pin buffer w =
      if w.state.pinned_memory
      then (if buffer.cap == 0 then w else record w { locks = (buffer.ptr, buffer.cap) ∷ w.locks })
      else w

  -- `self.state.allocator.allocate(capacity)`
  unfoldable pub allocate : ℕ → World aq → Option (Vec × World aq)
  allocate capacity w = w.state.allocator.allocate w.serial capacity >>= λ buf.
      some (buf, record w { serial = suc w.serial })

  -- The head of both `TlsState::with` closures: `if !tls.owns(id) { tls.bind(id, tls_cache_size) }`
  unfoldable pub claim : World aq → TlsState
  claim w =
      if Tls.owns w.tls w.state.id then w.tls else Tls.bind w.tls w.state.id w.state.tls_cache_size

  -- A class changed behind the table's reference.
  unfoldable pub put_class : ℕ → SizeClass aq → State aq → State aq
  put_class class_idx class s = record s {
    table = record { classes = set s.table.classes class_idx class };
  }
