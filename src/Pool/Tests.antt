-- ===== src/Pool/Tests.antt =====
-- The theorems on the pool at concrete calls on a sample.
use zeropool.Base.{
  map, get_elem?, ℕ, ◌>>=◌, ◌+◌, ◌≤◌, ◌-◌, ◌^◌, ◌≡◌, refl, ◌⊎◌, ◌↔◌, true, List, [], ◌∷◌, Option,
  none, some, arith, tally, length,
}
use zeropool.Vec.{Heap, Vec, clear, byte}
use zeropool.ArrayQueue.Slots.{slots}
use zeropool.SizeClass.{SizeClass}
use zeropool.SizeClass.Resize.{Zeroed}
use zeropool.ClassTable.Laws.{buffered}
use zeropool.Route.{class_sizes, route_size}
use zeropool.Allocator.{heap_allocator}
use zeropool.Stats
use zeropool.Tls
use zeropool.ClassTable
use zeropool.Route
use zeropool.SizeClass
use zeropool.Vec
use zeropool.Buf.{Buf}
use zeropool.Buf
use zeropool.Pool.{State, World}
use zeropool.Pool
use zeropool.Pool.Sample.{exact, start, start-IsValid}
use zeropool.Pool.Valid.{IsValid, pooled}
use zeropool.Pool.Start.{fresh_world, new-IsValid}
use zeropool.Pool.Alloc.{alloc, alloc_uninit}
use zeropool.Stats
use zeropool.Pool.Alloc.Counted.{Balanced, alloc-Balanced}
use zeropool.Pool.Alloc.Uninit.{AllocatedUninit, alloc_uninit-Lent}
use zeropool.Buf.Lends.{slice, deref}
use zeropool.Buf.Reading.{alloc-deref, filled-deref}
use zeropool.Buf.Return.{drop, written-drop, filled, filled_lem}
use zeropool.Pool.Alloc.Panics.{alloc-panics}
use zeropool.Pool.Alloc.Lent.{Home, Source}
use zeropool.Pool.Alloc.Correct.{Allocated}
use zeropool.Pool.Alloc.Safety.{alloc-Allocated, alloc-Zeroed, alloc-Source}
use zeropool.Pool.Dealloc.{dealloc}
use zeropool.Pool.Dealloc.Safety.{
  Reason, Returned, dealloc-Returned, dealloc-IsValid, dealloc-conserves,
}
use zeropool.Pool.Admin.{warm, len, is_empty, drain}
use zeropool.Pool.Admin.Laws.{drain_empties, len-is_empty}
use zeropool.Pool.Admin.Warm.{Warmed, warm-Warmed}

new-IsValid_example :
    (s : State slots) × (next : ℕ) × (Pool.new 1 (some 8) exact ≡ some (s, next))
    × IsValid (fresh_world s)
    × (buffered s.table.classes ≡ 0)
new-IsValid_example = new-IsValid slots 1 (some 8) exact (omega arith)

alloc-panics_example : (alloc (2 ^ 64 - 1) start ≡ none) ↔ (2 ^ 63 ≤ 2 ^ 64 - 1)
alloc-panics_example = alloc-panics exact (2 ^ 64 - 1) start (omega arith) start-IsValid refl

-- An allocation, its return, and the next allocation: the second call of `alloc` takes the buffer that
-- the first one took from the allocator.
abbrev round_trip : Option (ℕ × ℕ × ℕ)
round_trip = do
  r ← alloc 1024 start
  v ← r.0.buffer
  w ← dealloc v r.0.class_idx r.1
  s ← alloc 4096 w
  u ← s.0.buffer
  some (u.ptr, u.len, s.1.serial)

round_trip_reuses : round_trip ≡ some (0, 4096, 1)
unfolding alloc dealloc Pool.note Pool.pin Pool.allocate Pool.claim Pool.put_class ClassTable.route
    ClassTable.index ClassTable.boundary Route.route_size Route.leading_zeros Route.bit_width
    Route.div_ceil Tls.owns Tls.new Tls.refill Tls.bind Tls.push_cache Tls.spill SizeClass.pop
    SizeClass.push SizeClass.resize_zeroed Vec.resize Vec.clear Vec.truncate Vec.zeroed Stats.count
    heap_allocator Buf.new
round_trip_reuses = refl

start-Balanced : Balanced 0 start
unfolding Stats.new
start-Balanced on = refl

abbrev first : Allocated 1024 start (alloc 1024 start)
first = alloc-Allocated 1024 start (omega arith) start-IsValid

abbrev first_buf : Buf
first_buf = Buf.new first.buf first.class_idx

abbrev back :
    Returned first.buf first.class_idx first.after (dealloc first.buf first.class_idx first.after)
back = dealloc-Returned first.buf first.class_idx first.after first.valid first.home

alloc-Zeroed_example :
    (v : Vec) × (first_buf.buffer ≡ some v) × Zeroed 1024 v × Home first_buf.class_idx v
alloc-Zeroed_example =
    alloc-Zeroed 1024 start first.after first_buf (omega arith) start-IsValid first.returns

alloc-Source_example : (v : Vec) × (first_buf.buffer ≡ some v) × Source v.ptr start first.after
alloc-Source_example =
    alloc-Source 1024 start first.after first_buf (omega arith) start-IsValid first.returns

dealloc-IsValid_example :
    (after : World slots) × (dealloc first.buf first.class_idx first.after ≡ some after)
    × IsValid after
dealloc-IsValid_example =
    dealloc-IsValid first.buf first.class_idx first.after first.valid first.home

dealloc-conserves_example :
    (dropped : List Vec) × ((weight : Vec → ℕ)
      → pooled weight back.after + tally weight dropped
        ≡ pooled weight first.after + weight (clear first.buf))
    × (length dropped ≤ 2)
    × ((dropped ≡ []) ⊎ Reason first.buf first.class_idx first.after back.after)
dealloc-conserves_example =
    dealloc-conserves first.buf first.class_idx first.after back.after first.valid first.home
      back.returns

warm-Warmed_example :
    ((route_size 5000 ≡ none) × (warm 5 5000 start ≡ some start))
    ⊎ ((i : ℕ) × (class : SizeClass slots) × (after : World slots) × (route_size 5000 ≡ some i)
        × (get_elem? start.state.table.classes i ≡ some class)
        × (warm 5 5000 start ≡ some after)
        × Warmed i 5 class start after)
warm-Warmed_example = warm-Warmed 5 5000 start (omega arith) start-IsValid

drain_empties_example :
    (after : World slots) × (drain first.after ≡ some after)
    × IsValid after
    × (len after ≡ some 0)
    × (is_empty after ≡ true)
    × (after.tls ≡ first.after.tls)
drain_empties_example = drain_empties first.after first.valid

len-is_empty_example :
    (len start ≡ some (buffered start.state.table.classes))
    × ((is_empty start ≡ true) ↔ (len start ≡ some 0))
len-is_empty_example = len-is_empty start start-IsValid (omega arith)

alloc_uninit-Lent_example : AllocatedUninit 1024 start (alloc_uninit exact 1024 start)
alloc_uninit-Lent_example = alloc_uninit-Lent exact 1024 start (omega arith) start-IsValid

written-drop_example :
    (u : Vec) × (after : World slots) × (Buf.write exact 9
        (Buf.new first.buf first.class_idx)
        (104 ∷ 105 ∷ [])
      ≡ some (2, Buf.new u first.class_idx))
    × (u.len ≡ first.buf.len + 2)
    × Home first.class_idx u
    × (drop (Buf.new u first.class_idx) first.after ≡ some after)
    × IsValid after
written-drop_example =
    written-drop exact 9 first.class_idx first.buf (104 ∷ 105 ∷ []) first.after first.valid
      first.home

filled_lem_example :
    (u : Vec) × (class_idx : ℕ) × (after : World slots) × (filled exact 2 (104 ∷ 105 ∷ []) start
      ≡ some (Buf.new u class_idx, after))
    × IsValid after
    × (u.len ≡ 2)
    × (u.len ≤ u.cap)
    × ((i x : ℕ) → get_elem? (104 ∷ 105 ∷ []) i ≡ some x → u.cells i ≡ byte x)
filled_lem_example = filled_lem exact (104 ∷ 105 ∷ []) start (omega arith) start-IsValid

alloc-Balanced_example :
    (b : Buf) × (after : World slots) × (alloc 1024 start ≡ some (b, after)) × Balanced 0 after
alloc-Balanced_example = alloc-Balanced 1024 start (omega arith) start-IsValid start-Balanced

alloc-deref_example :
    (b : Buf) × (after : World slots) × (alloc 1024 start ≡ some (b, after))
    × (deref b ≡ some (slice (λ i. byte 0) 1024))
alloc-deref_example = alloc-deref 1024 start (omega arith) start-IsValid

filled-deref_example :
    (b : Buf) × (after : World slots) × (filled exact 2 (104 ∷ 105 ∷ []) start ≡ some (b, after))
    × (deref b ≡ some (map byte (104 ∷ 105 ∷ [])))
    × IsValid after
filled-deref_example = filled-deref exact (104 ∷ 105 ∷ []) start (omega arith) start-IsValid
