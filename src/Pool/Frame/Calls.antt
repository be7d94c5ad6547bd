-- ===== src/Pool/Frame/Calls.antt =====
-- The composition of the other calls of pool.rs.
use zeropool.Base.{
  ◌>>=◌, IfSome-mono, inl, inr, Option-cases, IfSome, ℕ, zero, suc, Option, none, some, if_either,
  ◌==◌, ltb,
}
use zeropool.Vec.{Vec, clear}
use zeropool.ArrayQueue.{ArrayQueue}
use zeropool.SizeClass.{SizeClass, resize_zeroed, resize_uninit}
use zeropool.SizeClass
use zeropool.ClassTable
use zeropool.Stats.{put, discard}
use zeropool.Pool.{World, note, pin, allocate, put_class}
use zeropool.Pool.Dealloc.{pick_class, keep, dealloc}
use zeropool.Pool.Admin.{warm_loop, warm}
use zeropool.Pool.Frame.{Frame}

module _ {aq : ArrayQueue} {R : World aq → World aq → Type 0} (f : Frame R) where
  -- Whatever `dealloc` is called on, it keeps the relation.
  pub dealloc-Kept : (buf : Vec) (hint : ℕ) (w : World aq) → IfSome (R w) (dealloc buf hint w)
  unfolding dealloc
  dealloc-Kept buf hint w =
      let u = note put w in
      let emptied = clear buf in
      let same = λ (m : Option (World aq)). IfSome (R w) m in
      let discards : R w (note discard u) = f.trans (f.notes put w) (f.notes discard u) in
      if_either same (hint == 255) _ _ discards (
        if_either same (ltb emptied.cap u.state.min_buffer_size) _ _ discards
          (elim (Option-cases (pick_class emptied.cap hint u)) [
            | inl stuck ↦ rw stuck tt
            | inr (none, e) ↦ rw e (f.notes put w)
            | inr (some i, e) ↦ rw e (elim (Option-cases (keep i emptied (pin emptied u))) [
              | inl stuck ↦ rw stuck tt
              | inr (after, run) ↦ rw run (
                  f.trans (f.notes put w)
                    (f.trans (f.pins emptied u) (f.keeps i emptied (pin emptied u) after run)))
            ])
          ]))

  warm_loop-step :
      (count i : ℕ) (class : SizeClass aq) (w : World aq) → IfSome (R w) (warm_loop count i class w)
  unfolding warm_loop allocate put_class
  warm_loop-step zero i class w = f.stays w
  warm_loop-step (suc count) i class w =
      let u : World aq = record w { serial = suc w.serial } in
      elim (Option-cases (w.state.allocator.allocate w.serial class.class_size)) [
        | inl refused ↦ rw (refused, warm_loop) tt
        | inr (buf, made) ↦
            let pinned = f.trans (f.numbers w) (f.pins buf u) in
            rw (made, warm_loop)
              (elim (Option-cases (SizeClass.push buf class)) [
                | inl full ↦ rw (full, IfSome, ◌>>=◌) pinned
                | inr (d, pushed) ↦
                    let q : World aq = record (pin buf u) {
                      state = put_class i d (pin buf u).state;
                    } in
                    rw (pushed, IfSome, ◌>>=◌)
                      (IfSome-mono (R q) (R w) (warm_loop count i d q) (warm_loop-step count i d q)
                        (λ r same. f.trans pinned (f.trans (f.puts i d (pin buf u)) same)))
              ])
      ]

  pub warm-Kept : (count size : ℕ) (w : World aq) → IfSome (R w) (warm count size w)
  unfolding warm
  warm-Kept count size w = elim (Option-cases (ClassTable.route w.state.table size)) [
    | inl stuck ↦ rw stuck tt
    | inr (none, over) ↦ rw over (f.stays w)
    | inr (some (i, class), routed) ↦ rw routed (warm_loop-step count i class w)
  ]
