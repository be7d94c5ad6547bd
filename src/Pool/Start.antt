-- ===== src/Pool/Start.antt =====
-- A new pool, and its configuration by the builder methods of pool.rs.
use zeropool.Base.{ℕ, ◌≡◌, ◌≢◌, sym, [], Option, some, arith}
use mathlib.Core.Bool.{false}
use zeropool.Vec.{Heap}
use zeropool.ArrayQueue.{ArrayQueue}
use zeropool.ClassTable.Laws
use zeropool.ClassTable.Laws.{buffered}
use zeropool.Tls.{TlsState}
use zeropool.Tls
use zeropool.Stats
use zeropool.Allocator.{heap_allocator, heap_allocator-Contract}
use zeropool.Config.{
  default_min_buffer_size, default_tls_cache_size, default_max_buffers_per_class,
  default_batch_size, cpu_count,
}
use zeropool.Config.Bounds.{tls_cache_size_bounds, max_buffers_bounds}
use zeropool.Pool.{State, World, next_id, new}
use zeropool.Pool.Valid.{IsValid, foreign}

-- The pool as a thread sees it that has not used a pool before.
abbrev pub fresh_world : {aq : ArrayQueue} → State aq → World aq
fresh_world s = record { state = s; tls = Tls.new; serial = 0; locks = [] }

-- On every system `new` returns without a panic, if the identity drawn is not 0, and the pool is
-- valid and empty for a thread that has not used a pool.
pub new-IsValid :
    (aq : ArrayQueue) (counter : ℕ) (parallelism : Option ℕ) (heap : Heap)
    → counter ≢ 0
    → (s : State aq) × (next : ℕ) × (new counter parallelism heap ≡ some (s, next))
      × IsValid (fresh_world s)
      × (buffered s.table.classes ≡ 0)
unfolding new next_id Tls.new
new-IsValid aq counter parallelism heap used =
    let cpus = cpu_count parallelism in
    let b = max_buffers_bounds cpus in
    let (t, made, ok, empty) =
      Laws.new-IsValid {aq = aq} (default_max_buffers_per_class cpus) (omega arith) (omega arith) in
    let cache_size = default_tls_cache_size cpus in
    let s : State aq = record {
      id = counter;
      table = t;
      tls_cache_size = cache_size;
      min_buffer_size = default_min_buffer_size;
      pinned_memory = false;
      batch_size = default_batch_size cache_size;
      track_stats = false;
      counters = Stats.new;
      allocator = heap_allocator heap;
    } in
    (
      s,
      (next_id counter).1,
      rw made,
      record {
        contract = heap_allocator-Contract heap;
        table = ok;
        cache_size = omega (arith, tls_cache_size_bounds cpus);
        cached = foreign (λ e. used (sym e)) (tt, (tt, (tt, (tt, (tt, (tt, (tt, (tt, tt))))))));
      },
      empty,
    )
