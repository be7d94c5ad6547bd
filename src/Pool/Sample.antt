-- ===== src/Pool/Sample.antt =====
-- A pool with room for two buffers per class, and a thread that has not used it, for concrete runs.
use zeropool.Base.{ℕ, ◌≡◌, refl, true, [], arith, map, ltb, if◌then◌else◌}
use zeropool.Vec.{Heap, Vec, byte, uninit}
use zeropool.ArrayQueue.Slots.{slots}
use zeropool.SizeClass.{SizeClass}
use zeropool.SizeClass.Laws.{ClassOk}
use zeropool.Route.{class_sizes}
use zeropool.Allocator.{heap_allocator, heap_allocator-Contract}
use zeropool.Stats
use zeropool.Tls
use zeropool.Pool.{State, World}
use zeropool.Pool.Valid.{IsValid, foreign, pooled}
use zeropool.Pool.Start.{fresh_world}

abbrev pub exact : Heap
exact = record { grant = λ n. n; grant_le = λ n. omega arith }

abbrev pub empty_class : ℕ → SizeClass slots
empty_class size = record { queue = record { held = []; bound = 2 }; class_size = size; count = 0 }

empty_class-ClassOk : (size : ℕ) → ClassOk size (empty_class size)
empty_class-ClassOk size = record {
  boundary = refl;
  counted = refl;
  bounded = omega arith;
  small = omega arith;
  serves = tt;
}

-- Caches of two buffers, batches of two.
abbrev pub small_pool : State slots
small_pool = record {
  id = 1;
  table = record { classes = map empty_class class_sizes };
  tls_cache_size = 2;
  min_buffer_size = 4096;
  pinned_memory = true;
  batch_size = 2;
  track_stats = true;
  counters = Stats.new;
  allocator = heap_allocator exact;
}

abbrev pub start : World slots
start = fresh_world small_pool

pub start-IsValid : IsValid start
unfolding Tls.new
start-IsValid = record {
  contract = heap_allocator-Contract exact;
  table = (
    empty_class-ClassOk _,
    (
      empty_class-ClassOk _,
      (
        empty_class-ClassOk _,
        (
          empty_class-ClassOk _,
          (
            empty_class-ClassOk _,
            (empty_class-ClassOk _, (empty_class-ClassOk _, (empty_class-ClassOk _, tt))),
          ),
        ),
      ),
    ),
  );
  cache_size = omega arith;
  cached = foreign (λ e. omega arith) (tt, (tt, (tt, (tt, (tt, (tt, (tt, (tt, tt))))))));
}

pub start_empty : (weight : Vec → ℕ) → pooled weight start ≡ 0
unfolding Tls.new
start_empty weight = refl

-- What the allocator answers the first call with, for the smallest class.
abbrev pub first_made : Vec
first_made = record {
  ptr = 0;
  cells = λ i. if ltb i 4096 then byte 0 else uninit;
  len = 4096;
  cap = 4096;
}
