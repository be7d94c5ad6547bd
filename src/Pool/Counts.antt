-- ===== src/Pool/Counts.antt =====
-- The counters of stats.rs over `alloc_uninit`, `dealloc`, `warm` and `drain` of pool.rs.
use zeropool.Base.{
  ◌>>=◌, ℕ, zero, suc, ◌≡◌, refl, sym, ◌∙◌, subst, Bool, Option, none, some, inl, inr, arith,
  if_either, IfSome, Option-cases, ◌==◌, ltb,
}
use zeropool.Vec.{Heap, Vec, clear, with_capacity}
use zeropool.ArrayQueue.{ArrayQueue}
use zeropool.SizeClass.{SizeClass, resize_uninit}
use zeropool.SizeClass
use zeropool.ClassTable
use zeropool.Stats.{Counters, get, put, discard, allocation, oversized}
use zeropool.Stats
use zeropool.Buf.{BufUninit}
use zeropool.Pool.{World, note, pin, allocate, put_class}
use zeropool.Pool.Alloc.{
  take_pooled, alloc_uninit_oversize, alloc_uninit_cold, alloc_uninit_routed, alloc_uninit,
}
use zeropool.Pool.Alloc.Counted.{
  AddsUp, Balanced, note-Balanced, note-get, note-hit, note-allocation, note-oversized,
  pin-Balanced,
}
use zeropool.Pool.Dealloc.{pick_class, keep, push_shared, dealloc}
use zeropool.Pool.Admin.{warm_loop, warm, drain, reset_stats}

module _ {aq : ArrayQueue} where
  -- The same counters, and the same choice whether to count.
  abbrev Uncounted : World aq → World aq → Type 0
  Uncounted w u =
      (u.state.counters ≡ w.state.counters) × (u.state.track_stats ≡ w.state.track_stats)

  Uncounted-Balanced :
      (owed : ℕ) (w u : World aq) → Uncounted w u → Balanced owed w → Balanced owed u
  Uncounted-Balanced owed w u (same, track) h on =
      subst (AddsUp owed) (sym same) (h (sym track ∙ on))

  take_pooled-Uncounted :
      (i : ℕ) (class : SizeClass aq) (w after : World aq) (out : Option (Vec × Bool))
      → take_pooled i class w ≡ some (out, after)
      → Uncounted w after
  unfolding take_pooled put_class
  take_pooled-Uncounted i class w after out run = (ground arith, ground arith)

  keep-Uncounted :
      (i : ℕ) (buf : Vec) (w after : World aq) → keep i buf w ≡ some after → Uncounted w after
  unfolding keep push_shared put_class
  keep-Uncounted i buf w after run = (ground arith, ground arith)

  put-Balanced : (w : World aq) → Balanced 0 w → Balanced 0 (note put w)
  unfolding Stats.count
  put-Balanced w = note-Balanced put 0 0 w (λ sums. sums)

  discard-Balanced : (w : World aq) → Balanced 0 w → Balanced 0 (note discard w)
  unfolding Stats.count
  discard-Balanced w = note-Balanced discard 0 0 w (λ sums. sums)

  pub dealloc-Balanced :
      (buf : Vec) (hint : ℕ) (w : World aq)
      → Balanced 0 w
      → IfSome (Balanced 0) (dealloc buf hint w)
  unfolding dealloc
  dealloc-Balanced buf hint w h =
      let u = note put w in
      let emptied = clear buf in
      let p = pin emptied u in
      let even = λ (m : Option (World aq)). IfSome (Balanced 0) m in
      let noted = put-Balanced w h in
      let discards = discard-Balanced u noted in
      if_either even (hint == 255) _ _ discards (
        if_either even (ltb emptied.cap u.state.min_buffer_size) _ _ discards
          (elim (Option-cases (pick_class emptied.cap hint u)) [
            | inl stuck ↦ rw stuck tt
            | inr (none, e) ↦ rw e noted
            | inr (some i, e) ↦ rw e (elim (Option-cases (keep i emptied p)) [
              | inl stuck ↦ rw stuck tt
              | inr (after, run) ↦ rw run (
                  Uncounted-Balanced 0 p after (keep-Uncounted i emptied p after run)
                    (pin-Balanced emptied u noted))
            ])
          ]))

  warm_loop-Balanced :
      (count i : ℕ) (class : SizeClass aq) (w : World aq)
      → Balanced 0 w
      → IfSome (Balanced 0) (warm_loop count i class w)
  unfolding warm_loop allocate put_class
  warm_loop-Balanced zero i class w h = h
  warm_loop-Balanced (suc count) i class w h =
      elim (Option-cases (w.state.allocator.allocate w.serial class.class_size)) [
        | inl refused ↦ rw (refused, warm_loop) tt
        | inr (buf, made) ↦
            let p = pin-Balanced buf (record w { serial = suc w.serial }) h in
            rw (made, warm_loop)
              (elim (Option-cases (SizeClass.push buf class)) [
                | inl full ↦ rw (full, IfSome, ◌>>=◌) p
                | inr (d, pushed) ↦ rw (pushed, IfSome, ◌>>=◌) (warm_loop-Balanced count i d _ p)
              ])
      ]

  pub warm-Balanced :
      (count size : ℕ) (w : World aq) → Balanced 0 w → IfSome (Balanced 0) (warm count size w)
  unfolding warm
  warm-Balanced count size w h = elim (Option-cases (ClassTable.route w.state.table size)) [
    | inl stuck ↦ rw stuck tt
    | inr (none, over) ↦ rw over h
    | inr (some (i, class), routed) ↦ rw routed (warm_loop-Balanced count i class w h)
  ]

  pub drain-Balanced : (w after : World aq) → drain w ≡ some after → Balanced 0 w → Balanced 0 after
  unfolding drain
  drain-Balanced w after run = Uncounted-Balanced 0 w after (ground arith, ground arith)

  pub reset_stats-Balanced : (w : World aq) → Balanced 0 (reset_stats w)
  unfolding reset_stats Stats.reset
  reset_stats-Balanced w on = refl

  module _ (heap : Heap) where
    abbrev Beside : BufUninit × World aq → Type 0
    Beside r = Balanced 0 r.1

    oversize-Balanced :
        (size : ℕ) (w : World aq) → Balanced 1 w → IfSome Beside (alloc_uninit_oversize heap size w)
    unfolding alloc_uninit_oversize
    oversize-Balanced size w h =
        let u = note allocation (note oversized w) in
        elim (Option-cases (with_capacity heap u.serial size)) [
          | inl refused ↦ rw refused tt
          | inr (raw, made) ↦ rw made (elim (Option-cases (resize_uninit raw size)) [
            | inl stuck ↦ rw stuck tt
            | inr (v, run) ↦ rw run (
                pin-Balanced v (record u { serial = suc u.serial })
                  (note-allocation (note oversized w) (note-oversized w h)))
          ])
        ]

    cold-Balanced :
        (size i : ℕ) (class : SizeClass aq) (w : World aq)
        → Balanced 1 w
        → IfSome Beside (alloc_uninit_cold heap size i class w)
    unfolding alloc_uninit_cold
    cold-Balanced size i class w h =
        let u = note allocation w in
        elim (Option-cases (with_capacity heap u.serial class.class_size)) [
          | inl refused ↦ rw refused tt
          | inr (raw, made) ↦ rw made (elim (Option-cases (resize_uninit raw size)) [
            | inl stuck ↦ rw stuck tt
            | inr (v, run) ↦
                rw run (pin-Balanced v (record u { serial = suc u.serial }) (note-allocation w h))
          ])
        ]

    routed-Balanced :
        (size i : ℕ) (class : SizeClass aq) (w : World aq)
        → Balanced 1 w
        → IfSome Beside (alloc_uninit_routed heap size i class w)
    unfolding alloc_uninit_routed
    routed-Balanced size i class w h = elim (Option-cases (take_pooled i class w)) [
      | inl stuck ↦ rw (stuck, alloc_uninit_routed) tt
      | inr (r, found) ↦
          go r.0 r.1 found
            (Uncounted-Balanced 1 w r.1 (take_pooled-Uncounted i class w r.1 r.0 found) h)
    ]
      where
        go :
            (out : Option (Vec × Bool)) (u : World aq)
            → take_pooled i class w ≡ some (out, u)
            → Balanced 1 u
            → IfSome Beside (alloc_uninit_routed heap size i class w)
        go none u e owed = rw (e, alloc_uninit_routed) (cold-Balanced size i class u owed)
        go (some (raw, f)) u e owed = elim (Option-cases (resize_uninit raw size)) [
          | inl stuck ↦ rw (e, alloc_uninit_routed) (rw stuck tt)
          | inr (v, run) ↦ rw (e, alloc_uninit_routed) (rw run (note-hit f u owed))
        ]

    pub alloc_uninit-Balanced :
        (size : ℕ) (w : World aq) → Balanced 0 w → IfSome Beside (alloc_uninit heap size w)
    unfolding alloc_uninit
    alloc_uninit-Balanced size w h =
        let u = note get w in
        let owed = note-get w h in
        elim (Option-cases (ClassTable.route u.state.table size)) [
          | inl stuck ↦ rw (stuck, alloc_uninit) tt
          | inr (none, over) ↦ rw (over, alloc_uninit) (oversize-Balanced size u owed)
          | inr (some (i, class), routed) ↦
              rw (routed, alloc_uninit) (routed-Balanced size i class u owed)
        ]
