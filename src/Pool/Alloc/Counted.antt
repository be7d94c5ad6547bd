-- ===== src/Pool/Alloc/Counted.antt =====
-- The counters of stats.rs that `alloc` of pool.rs increments.
use zeropool.Base.{
  ℕ, ◌+◌, ◌%◌, ◌^◌, ◌<◌, ◌≤◌, ◌≡◌, sym, ◌∙◌, subst, inl, inr, Bool, true, Option, none, some, arith,
  IfSome, IfSome_value, Option-cases, get_elem?, if_either, if_cases, ◌==◌,
}
use zeropool.Vec.{Vec}
use zeropool.ArrayQueue.{ArrayQueue}
use zeropool.SizeClass.{SizeClass}
use zeropool.SizeClass.Laws.{ClassOk}
use zeropool.SizeClass.Resize.{resize_zeroed-Zeroed}
use zeropool.ClassTable.Laws.{route-ClassOk}
use zeropool.Route.{class_sizes}
use zeropool.Stats.{Event, Counters, get, tls_hit, shared_hit, allocation, oversized}
use zeropool.Stats
use zeropool.Buf.{Buf}
use zeropool.Buf
use zeropool.Pool.{World, note, pin, allocate}
use zeropool.Pool.Valid.{IsValid, note-IsValid}
use zeropool.Pool.Alloc.{take_pooled, note_hit, alloc_oversize, alloc_cold, alloc_routed, alloc}
use zeropool.Pool.Alloc.Safety.{alloc-Allocated}
use zeropool.Pool.Alloc.Take.{Found, take_pooled-Taken}

abbrev pub AddsUp : ℕ → Counters → Type 0
AddsUp owed c = (c.tls_hits + c.shared_hits + c.allocations + owed) % 2 ^ 64 ≡ c.gets % 2 ^ 64

module _ {aq : ArrayQueue} where
  -- If statistics are on: the ways by which buffers were handed out and `owed` more add up to the calls.
  abbrev pub Balanced : ℕ → World aq → Type 0
  Balanced owed w = w.state.track_stats ≡ true → AddsUp owed w.state.counters

  pub note-Balanced :
      (e : Event) (owed owed' : ℕ) (w : World aq)
      → (AddsUp owed w.state.counters → AddsUp owed' (Stats.count e w.state.counters))
      → Balanced owed w
      → Balanced owed' (note e w)
  unfolding note
  note-Balanced e owed owed' w step h =
      if_cases (λ u. Balanced owed' u) w.state.track_stats _ w (λ on t. step (h on)) (λ off on. cc)

  pub note-get : (w : World aq) → Balanced 0 w → Balanced 1 (note get w)
  unfolding Stats.count
  note-get w = note-Balanced get 0 1 w (λ sums. omega arith)

  pub note-hit : (f : Bool) (w : World aq) → Balanced 1 w → Balanced 0 (note_hit f w)
  unfolding note_hit Stats.count
  note-hit f w h =
      if_either (λ u. Balanced 0 u) f _ _ (note-Balanced tls_hit 1 0 w (λ sums. omega arith) h)
        (note-Balanced shared_hit 1 0 w (λ sums. omega arith) h)

  pub note-allocation : (w : World aq) → Balanced 1 w → Balanced 0 (note allocation w)
  unfolding Stats.count
  note-allocation w = note-Balanced allocation 1 0 w (λ sums. omega arith)

  pub note-oversized : (w : World aq) → Balanced 1 w → Balanced 1 (note oversized w)
  unfolding Stats.count
  note-oversized w = note-Balanced oversized 1 1 w (λ sums. sums)

  pub pin-Balanced : (buf : Vec) (w : World aq) → Balanced 0 w → Balanced 0 (pin buf w)
  unfolding pin
  pin-Balanced buf w h =
      if_either (λ u. Balanced 0 u) w.state.pinned_memory _ w
        (if_either (λ u. Balanced 0 u) (buf.cap == 0) w _ h h) h

  abbrev pub Beside : Buf × World aq → Type 0
  Beside r = Balanced 0 r.1

  oversize-Balanced :
      (size : ℕ) (w : World aq) → Balanced 1 w → IfSome Beside (alloc_oversize size w)
  unfolding alloc_oversize allocate
  oversize-Balanced size w h =
      let u = note allocation (note oversized w) in
      elim (Option-cases (u.state.allocator.allocate u.serial size)) [
        | inl refused ↦ rw refused tt
        | inr (raw, made) ↦
            rw made (pin-Balanced _ _ (note-allocation (note oversized w) (note-oversized w h)))
      ]

  cold-Balanced :
      (size i : ℕ) (class : SizeClass aq) (w : World aq)
      → Balanced 1 w
      → IfSome Beside (alloc_cold size i class w)
  unfolding alloc_cold allocate
  cold-Balanced size i class w h =
      let u = note allocation w in
      elim (Option-cases (u.state.allocator.allocate u.serial class.class_size)) [
        | inl refused ↦ rw refused tt
        | inr (raw, made) ↦ rw made (pin-Balanced _ _ (note-allocation w h))
      ]

  routed-Balanced :
      (size i b : ℕ) (class : SizeClass aq) (w : World aq)
      → IsValid w
      → get_elem? class_sizes i ≡ some b
      → get_elem? w.state.table.classes i ≡ some class
      → size ≤ b
      → ClassOk b class
      → Balanced 1 w
      → IfSome Beside (alloc_routed size i class w)
  unfolding alloc_routed
  routed-Balanced size i b class w v at_i here fits ok h =
      let t = take_pooled-Taken b i class w v at_i here ok in
      let same : Balanced 1 t.after = λ on.
        let on' : w.state.track_stats ≡ true = sym t.same_track ∙ on in
        subst (AddsUp 1) (sym t.same_counters) (h on') in
      go t.out t.after t.returns t.found same
    where
      go :
          (out : Option (Vec × Bool)) (after : World aq)
          → take_pooled i class w ≡ some (out, after)
          → Found b out
          → Balanced 1 after
          → IfSome Beside (alloc_routed size i class w)
      go none after e found owed = rw (e, alloc_routed) (cold-Balanced size i class after owed)
      go (some (raw, f)) after e found owed =
          let (v', run, zeroed, same_cap, same_ptr) = resize_zeroed-Zeroed b size raw found fits in
          rw (e, alloc_routed) (rw run (note-hit f after owed))

  pub alloc-Beside :
      (size : ℕ) (w : World aq)
      → size < 2 ^ 64
      → IsValid w
      → Balanced 0 w
      → IfSome Beside (alloc size w)
  unfolding alloc
  alloc-Beside size w small v h =
      let u = note get w in
      let v' = note-IsValid get w v in
      let owed = note-get w h in
      elim (route-ClassOk u.state.table size small v'.table) [
        | inl (over, e) ↦ rw (e, alloc) (oversize-Balanced size u owed)
        | inr (i, b, class, e, routed, at_i, here, fits, ok) ↦
            rw (e, alloc) (routed-Balanced size i b class u v' at_i here fits ok owed)
      ]

  -- On a valid pool `alloc` of every size up to `isize::MAX` returns, and if statistics are on and
  -- the counters that tell where buffers came from added up to the number of calls before, modulo
  -- 2^64, they do so afterwards.
  pub alloc-Balanced :
      (size : ℕ) (w : World aq)
      → size < 2 ^ 63
      → IsValid w
      → Balanced 0 w
      → (b : Buf) × (after : World aq) × (alloc size w ≡ some (b, after)) × Balanced 0 after
  alloc-Balanced size w small v h =
      let a = alloc-Allocated size w small v in
      (
        Buf.new a.buf a.class_idx,
        a.after,
        a.returns,
        IfSome_value Beside (alloc size w) _ (alloc-Beside size w (omega arith) v h) a.returns,
      )
