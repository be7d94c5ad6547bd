-- ===== src/Threads/Tests.antt =====
-- Two threads at a new pool: the first allocates 1024 bytes, and the second holds the thread state that
-- it started with.
use zeropool.Base.{length, ℕ, ◌^◌, ◌≤◌, ◌<◌, ◌≡◌, refl, [], ◌∷◌, some, arith, get_elem?, All}
use zeropool.Vec.{Vec, truncate, clear}
use zeropool.Vec
use zeropool.SizeClass
use zeropool.ClassTable
use zeropool.Route
use zeropool.Stats.{Stats}
use zeropool.Stats
use zeropool.Pool
use zeropool.Allocator.{heap_allocator}
use zeropool.ArrayQueue.Slots.{slots}
use zeropool.Buf
use zeropool.Buf.Return.{drop}
use zeropool.Tls.{TlsState}
use zeropool.Tls
use zeropool.Pool.{World}
use zeropool.Pool.Valid.{IsValid, at}
use zeropool.Pool.Sample.{first_made, exact, small_pool, start, start-IsValid, start_empty}
use zeropool.Pool.Alloc.{alloc, alloc_uninit}
use zeropool.Pool.Alloc.Correct.{Allocated}
use zeropool.Pool.Alloc.Lent.{Home}
use zeropool.Pool.Alloc.Safety.{alloc-Allocated}
use zeropool.Pool.Admin.{warm, drain}
use zeropool.Session.{allocates, drops}
use zeropool.Pool.Dealloc.{dealloc}
use zeropool.Threads.{Crew, seen, left, Reach, here, next, acts, spawns}
use zeropool.Spec.{lend, idle}
use zeropool.Spec.Bags.{Trace}
use zeropool.Threads.Refinement.{store, Reach-Trace}
use zeropool.Threads.Ownership.{pooled_by_all}
use zeropool.Threads.Limits.{caches_bounded}
use zeropool.Threads.Safety.{opened, shared_one_holder, shared_never_stuck}

abbrev two : Crew slots
two = record (opened start) { threads = Tls.new ∷ Tls.new ∷ [] }

abbrev first : Allocated 1024 start (alloc 1024 start)
first = alloc-Allocated 1024 start (omega arith) start-IsValid

abbrev lent : Crew slots
lent = left two 0 (record { world = first.after; live = (first.buf, first.class_idx) ∷ [] })

to_lent : Reach exact (opened start) lent
to_lent = next (next (next here spawns) spawns) (
    acts 0 Tls.new _ refl
      (allocates 1024 first.buf first.class_idx first.after (omega arith) first.returns))

not_zero : start.state.id ≡ 0 → ⊥
not_zero e = omega arith

shared_one_holder_example :
    ((i j : ℕ) (g h : Vec × ℕ)
      → get_elem? lent.live i ≡ some g
      → get_elem? lent.live j ≡ some h
      → g.0.ptr ≡ h.0.ptr
      → i ≡ j)
    × ((i : ℕ) (g : Vec × ℕ) → get_elem? lent.live i ≡ some g → pooled_by_all (at g.0.ptr) lent ≡ 0)
    × ((p : ℕ) → pooled_by_all (at p) lent ≤ 1)
    × All (λ (g : Vec × ℕ). Home g.1 g.0) lent.live
    × ((i : ℕ) (tls : TlsState)
        → get_elem? lent.threads i ≡ some tls
        → IsValid (seen lent tls).world)
shared_one_holder_example =
    shared_one_holder exact start lent start-IsValid not_zero start_empty to_lent

-- The second thread, before its first call.
shared_never_stuck_example :
    let u = (seen lent Tls.new).world in
    ((size : ℕ)
      → size < 2 ^ 63
      → ((v : Vec) × (class_idx : ℕ) × (after : World slots) × (alloc size u
            ≡ some (Buf.new v class_idx, after)))
        × ((v : Vec) × (class_idx : ℕ) × (after : World slots) × (alloc_uninit exact size u
              ≡ some (Buf.new_uninit v class_idx, after)))
        × ((count : ℕ) → (after : World slots) × (warm count size u ≡ some after)))
    × ((i : ℕ) (v : Vec) (class_idx : ℕ)
        → get_elem? lent.live i ≡ some (v, class_idx)
        → (after : World slots) × (drop (Buf.new v class_idx) u ≡ some after))
    × ((after : World slots) × (drain u ≡ some after))
shared_never_stuck_example =
    shared_never_stuck exact start lent start-IsValid not_zero start_empty to_lent 1 Tls.new refl

-- The first thread's allocation as the counters see it.
abbrev served : Vec
served = truncate first_made 1024

abbrev after_served : World slots
after_served = record {
  state = record small_pool { counters = record Stats.new { gets = 1; allocations = 1 } };
  tls = Tls.bind Tls.new 1 2;
  serial = 1;
  locks = (served.ptr, served.cap) ∷ [];
}

start-served : alloc 1024 start ≡ some (Buf.new served 0, after_served)
unfolding alloc Pool.note Pool.pin Pool.allocate Pool.claim Pool.put_class ClassTable.route
    ClassTable.index ClassTable.boundary Route.route_size Route.leading_zeros Route.bit_width
    Route.div_ceil Tls.owns Tls.new Tls.refill Tls.bind SizeClass.pop truncate Stats.count Stats.new
    heap_allocator Buf.new Vec.zeroed
start-served = refl

abbrev counted : Crew slots
counted = left two 0 (record { world = after_served; live = (served, 0) ∷ [] })

to_counted : Reach exact (opened start) counted
to_counted =
    next (next (next here spawns) spawns)
      (acts 0 Tls.new _ refl (allocates 1024 served 0 after_served (omega arith) start-served))

Reach-Trace_example : Trace (store (opened start)) (lend 1024 ∷ idle ∷ idle ∷ []) (store lent)
unfolding to_lent
Reach-Trace_example = Reach-Trace exact start lent start-IsValid not_zero start_empty to_lent

-- The first thread returns its buffer, which becomes the only one of its cache.
abbrev after_return : World slots
after_return = record {
  state = record small_pool { counters = record Stats.new { gets = 1; allocations = 1; puts = 1 } };
  tls = record {
    pool_id = 1;
    caches = (clear served ∷ []) ∷ [] ∷ [] ∷ [] ∷ [] ∷ [] ∷ [] ∷ [] ∷ [];
    limit = 2;
  };
  serial = 1;
  locks = (served.ptr, served.cap) ∷ (served.ptr, served.cap) ∷ [];
}

served-drop : drop (Buf.new served 0) (seen counted after_served.tls).world ≡ some after_return
unfolding drop dealloc Pool.note Pool.pin Pool.claim Pool.put_class ClassTable.index
    ClassTable.boundary Tls.owns Tls.new Tls.bind Tls.push_cache Tls.spill SizeClass.push
    SizeClass.pop truncate clear Vec.zeroed Stats.count Stats.new heap_allocator Buf.new
served-drop = refl

abbrev handed_back : Crew slots
handed_back = left counted 0 (record { world = after_return; live = [] })

to_handed_back : Reach exact (opened start) handed_back
unfolding Tls.bind Tls.new
to_handed_back =
    next to_counted
      (acts 0 after_served.tls _ refl (drops 0 served 0 after_return refl served-drop))

caches_bounded_example : length (clear served ∷ []) ≤ 2
caches_bounded_example =
    caches_bounded exact start handed_back 2 not_zero (omega arith) (omega arith) to_handed_back 0 0
      after_return.tls (clear served ∷ []) refl refl refl
