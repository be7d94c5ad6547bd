-- ===== src/Access/Tests.antt =====
-- Two threads at a new pool: the second is about to allocate, the first has been lent 1024 bytes.
use zeropool.Base.{
  ℕ, ◌+◌, ◌-◌, ◌*◌, ◌≤◌, ◌≡◌, refl, ◌⊎◌, [], ◌∷◌, Option, some, arith, get_elem?, All,
}
use mathlib.Core.Option
use zeropool.Buf
use zeropool.Pool.Alloc.{alloc, alloc_uninit}
use zeropool.Pool.Dealloc.{dealloc}
use zeropool.Pool.Admin.{warm}
use zeropool.Access.Whole.{world_of}
use zeropool.Access.Whole.Guards.{guard_of}
use zeropool.Access.Whole.Dealloc.{world_after}
use zeropool.Access.Whole.Equal.{alone-whole}
use zeropool.Vec.{Vec, truncate}
use zeropool.Vec
use zeropool.ArrayQueue.Slots.{slots}
use zeropool.ClassTable
use zeropool.Route
use zeropool.Stats
use zeropool.Tls.{TlsState}
use zeropool.Tls
use zeropool.Allocator.{heap_allocator, heap_allocator-Contract}
use zeropool.Pool
use zeropool.Pool.Sample.{first_made, exact, empty_class, small_pool}
use zeropool.Pool.Alloc.Lent.{Home}
use zeropool.Access.{Code, result, Shared, perform, run, ◌>>=◌, run}
use zeropool.Access
use zeropool.Access.Calls.{alloc_code, alloc_uninit_code, dealloc_code, warm_code}
use zeropool.Access.Calls
use zeropool.Access.System.{
  zeroed, Result, idle, calling, System, Reach, here, next, starts_alloc, access, lends, spawns,
  lend,
}
use zeropool.Access.System.Queues.{AllStocked, Stocked}
use zeropool.Access.System.Safety.{
  opened, IsNew, pooled_at, Answers, accesses_one_holder, accesses_never_panic,
}
use zeropool.Access.Bounds.{Accesses}
use zeropool.Access.Bounds.Calls.{accesses_bounded}

abbrev unused : Shared slots
unused = record { state = small_pool; serial = 0; locks = [] }

unused_class : {size : ℕ} → Stocked size (empty_class size)
unused_class = record { boundary = refl; serves = tt }

unused-IsNew : IsNew unused
unused-IsNew = record {
  used = λ e. omega arith;
  cache_size = omega arith;
  contract = heap_allocator-Contract exact;
  stocked = (
    unused_class,
    (
      unused_class,
      (
        unused_class,
        (unused_class, (unused_class, (unused_class, (unused_class, (unused_class, tt))))),
      ),
    ),
  );
  empty = λ p. refl;
}

abbrev served : Vec
served = truncate first_made 1024

abbrev shared : Shared slots
shared = record {
  state = record small_pool { counters = record Stats.new { gets = 1; allocations = 1 } };
  serial = 1;
  locks = (served.ptr, served.cap) ∷ [];
}

abbrev lent : System slots
lent = record {
  shared = shared;
  threads =
      idle (Tls.bind Tls.new 1 2)
      ∷ calling (zeroed 64) (lend (alloc_code small_pool 64 Tls.new))
      ∷ [];
  live = (served, 0) ∷ [];
}

to_lent : Reach exact (opened unused) lent
unfolding perform alloc_code Calls.note_code Calls.pin_code Calls.take_pooled_code Calls.refill_code
    Calls.pop_code Calls.alloc_found_code ◌>>=◌ Access.pop_at Access.stat_at Pool.claim
    ClassTable.route ClassTable.index ClassTable.boundary Route.route_size Route.leading_zeros
    Route.bit_width Route.div_ceil Tls.owns Tls.new Tls.bind truncate Stats.count Stats.new
    heap_allocator Vec.zeroed
to_lent =
    next
      (next
        (next
          (next
            (next
              (next
                (next
                  (next (next (next here spawns) spawns)
                    (starts_alloc 1 Tls.new 64 refl (omega arith)))
                  (starts_alloc 0 Tls.new 1024 refl (omega arith)))
                (access 0 _ _ _ _ refl refl))
              (access 0 _ _ _ _ refl refl))
            (access 0 _ _ _ _ refl refl))
          (access 0 _ _ _ _ refl refl))
        (access 0 _ _ _ _ refl refl))
      (lends 0 _ served 0 _ refl)

accesses_one_holder_example :
    ((i j : ℕ) (g h : Vec × ℕ)
      → get_elem? lent.live i ≡ some g
      → get_elem? lent.live j ≡ some h
      → g.0.ptr ≡ h.0.ptr
      → i ≡ j)
    × ((i : ℕ) (g : Vec × ℕ) → get_elem? lent.live i ≡ some g → pooled_at g.0.ptr lent ≡ 0)
    × ((p : ℕ) → pooled_at p lent ≤ 1)
    × All (λ (g : Vec × ℕ). Home g.1 g.0) lent.live
    × AllStocked lent.shared
accesses_one_holder_example = accesses_one_holder exact unused unused-IsNew lent to_lent

-- The second thread, in its call.
abbrev waiting : Code Result
waiting = lend (alloc_code small_pool 64 Tls.new)

accesses_never_panic_example :
    ((g : Option (Vec × ℕ)) × (tls : TlsState) × (waiting ≡ result (g, tls))
      × Answers (zeroed 64) g)
    ⊎ ((code : Code Result) × (s : Shared slots) × (perform exact waiting shared ≡ some (code, s)))
accesses_never_panic_example =
    accesses_never_panic exact unused unused-IsNew lent to_lent 1 (zeroed 64) waiting refl

accesses_bounded_example :
    ((code : Code ((Vec × ℕ) × TlsState))
      → Accesses slots exact (alloc_code small_pool 1024 Tls.new) 5 code
      → 5 ≤ 2 * (small_pool.batch_size - 1) + 6)
    × ((code : Code ((Vec × ℕ) × TlsState))
        → Accesses slots exact (alloc_uninit_code small_pool 1024 Tls.new) 5 code
        → 5 ≤ 2 * (small_pool.batch_size - 1) + 6)
    × ((code : Code TlsState)
        → Accesses slots exact (dealloc_code small_pool served 0 Tls.new) 5 code
        → 5 ≤ 2 * small_pool.batch_size + 4)
    × ((code : Code (Unit {0}))
        → Accesses slots exact (warm_code small_pool 2 1024) 5 code
        → 5 ≤ 4 * 2)
accesses_bounded_example = accesses_bounded small_pool exact 5 1024 0 2 served Tls.new

alone-whole_example :
    (Option.map (guard_of Buf.new) (run exact (alloc_code small_pool 1024 Tls.new) unused)
      ≡ alloc 1024 (world_of unused Tls.new))
    × (Option.map
          (guard_of Buf.new_uninit)
          (run exact (alloc_uninit_code small_pool 1024 Tls.new) unused)
        ≡ alloc_uninit exact 1024 (world_of unused Tls.new))
    × (Option.map world_after (run exact (dealloc_code small_pool served 0 Tls.new) unused)
        ≡ dealloc served 0 (world_of unused Tls.new))
    × (Option.map (λ r. world_of r.1 Tls.new) (run exact (warm_code small_pool 2 1024) unused)
        ≡ warm 2 1024 (world_of unused Tls.new))
alone-whole_example = alone-whole exact 1024 2 0 served Tls.new unused
