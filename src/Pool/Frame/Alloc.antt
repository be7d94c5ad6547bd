-- ===== src/Pool/Frame/Alloc.antt =====
-- The composition of `alloc` and `alloc_uninit` of pool.rs.
use zeropool.Base.{
  IfSome-mono, inl, inr, Option-cases, IfSome, ℕ, ◌≡◌, Bool, Option, none, some, if_either,
}
use zeropool.Vec.{Heap, Vec, with_capacity}
use zeropool.ArrayQueue.{ArrayQueue}
use zeropool.SizeClass.{SizeClass, resize_zeroed, resize_uninit}
use zeropool.ClassTable
use zeropool.Stats.{get, allocation, oversized}
use zeropool.Pool.{World, note, allocate}
use zeropool.Pool.Alloc.{
  take_pooled, note_hit, alloc_oversize, alloc_cold, alloc_routed, alloc, alloc_uninit_oversize,
  alloc_uninit_cold, alloc_uninit_routed, alloc_uninit,
}
use zeropool.Pool.Frame.{Frame}

module _ {aq : ArrayQueue} {R : World aq → World aq → Type 0} (f : Frame R) where
  -- The world beside a result.
  abbrev pub Beside : {G : Type 0} → World aq → G × World aq → Type 0
  Beside w r = R w r.1

  hit-step : (from_tls : Bool) (w : World aq) → R w (note_hit from_tls w)
  unfolding note_hit
  hit-step from_tls w = if_either (λ u. R w u) from_tls _ _ (f.notes _ w) (f.notes _ w)

  oversize-step : (size : ℕ) (w : World aq) → IfSome (Beside w) (alloc_oversize size w)
  unfolding alloc_oversize allocate
  oversize-step size w =
      let x = note oversized w in
      let u = note allocation x in
      elim (Option-cases (u.state.allocator.allocate u.serial size)) [
        | inl refused ↦ rw refused tt
        | inr (raw, made) ↦ rw made (
            f.trans (f.notes oversized w)
              (f.trans (f.notes allocation x) (f.trans (f.numbers u) (f.pins _ _))))
      ]

  cold-step :
      (size i : ℕ) (class : SizeClass aq) (w : World aq)
      → IfSome (Beside w) (alloc_cold size i class w)
  unfolding alloc_cold allocate
  cold-step size i class w =
      let u = note allocation w in
      elim (Option-cases (u.state.allocator.allocate u.serial class.class_size)) [
        | inl refused ↦ rw refused tt
        | inr (raw, made) ↦
            rw made (f.trans (f.notes allocation w) (f.trans (f.numbers u) (f.pins _ _)))
      ]

  routed-Beside :
      (size i : ℕ) (class : SizeClass aq) (w : World aq)
      → IfSome (Beside w) (alloc_routed size i class w)
  unfolding alloc_routed
  routed-Beside size i class w = elim (Option-cases (take_pooled i class w)) [
    | inl stuck ↦ rw (stuck, alloc_routed) tt
    | inr (r, found) ↦ go r.0 r.1 found (f.takes i class w r.1 r.0 found)
  ]
    where
      go :
          (out : Option (Vec × Bool)) (u : World aq)
          → take_pooled i class w ≡ some (out, u)
          → R w u
          → IfSome (Beside w) (alloc_routed size i class w)
      go none u e same =
          rw (e, alloc_routed)
            (IfSome-mono (Beside u) (Beside w) (alloc_cold size i class u)
              (cold-step size i class u) (λ r q. f.trans same q))
      go (some (raw, g)) u e same = elim (Option-cases (resize_zeroed raw size)) [
        | inl stuck ↦ rw (e, alloc_routed) (rw stuck tt)
        | inr (v, run) ↦ rw (e, alloc_routed) (rw run (f.trans same (hit-step g u)))
      ]

  -- Whatever `alloc` is called on, it keeps the relation.
  pub alloc-Beside : (size : ℕ) (w : World aq) → IfSome (Beside w) (alloc size w)
  unfolding alloc
  alloc-Beside size w =
      let u = note get w in
      elim (Option-cases (ClassTable.route u.state.table size)) [
        | inl stuck ↦ rw (stuck, alloc) tt
        | inr (none, over) ↦
            rw (over, alloc)
              (IfSome-mono (Beside u) (Beside w) (alloc_oversize size u) (oversize-step size u)
                (λ r same. f.trans (f.notes get w) same))
        | inr (some (i, class), routed) ↦
            rw (routed, alloc)
              (IfSome-mono (Beside u) (Beside w) (alloc_routed size i class u)
                (routed-Beside size i class u) (λ r same. f.trans (f.notes get w) same))
      ]

  module _ (heap : Heap) where
    uninit_oversize-Beside :
        (size : ℕ) (w : World aq) → IfSome (Beside w) (alloc_uninit_oversize heap size w)
    unfolding alloc_uninit_oversize
    uninit_oversize-Beside size w =
        let u = note allocation (note oversized w) in
        elim (Option-cases (with_capacity heap u.serial size)) [
          | inl refused ↦ rw refused tt
          | inr (raw, made) ↦ rw made (elim (Option-cases (resize_uninit raw size)) [
            | inl stuck ↦ rw stuck tt
            | inr (v, run) ↦ rw run (
                f.trans (f.notes oversized w) (
                  f.trans (f.notes allocation (note oversized w))
                    (f.trans (f.numbers u) (f.pins v _))))
          ])
        ]

    uninit_cold-Beside :
        (size i : ℕ) (class : SizeClass aq) (w : World aq)
        → IfSome (Beside w) (alloc_uninit_cold heap size i class w)
    unfolding alloc_uninit_cold
    uninit_cold-Beside size i class w =
        let u = note allocation w in
        elim (Option-cases (with_capacity heap u.serial class.class_size)) [
          | inl refused ↦ rw refused tt
          | inr (raw, made) ↦ rw made (elim (Option-cases (resize_uninit raw size)) [
            | inl stuck ↦ rw stuck tt
            | inr (v, run) ↦
                rw run (f.trans (f.notes allocation w) (f.trans (f.numbers u) (f.pins v _)))
          ])
        ]

    uninit_routed-Beside :
        (size i : ℕ) (class : SizeClass aq) (w : World aq)
        → IfSome (Beside w) (alloc_uninit_routed heap size i class w)
    unfolding alloc_uninit_routed
    uninit_routed-Beside size i class w = elim (Option-cases (take_pooled i class w)) [
      | inl stuck ↦ rw (stuck, alloc_uninit_routed) tt
      | inr (r, found) ↦ go r.0 r.1 found (f.takes i class w r.1 r.0 found)
    ]
      where
        go :
            (out : Option (Vec × Bool)) (u : World aq)
            → take_pooled i class w ≡ some (out, u)
            → R w u
            → IfSome (Beside w) (alloc_uninit_routed heap size i class w)
        go none u e same =
            rw (e, alloc_uninit_routed)
              (IfSome-mono (Beside u) (Beside w) (alloc_uninit_cold heap size i class u)
                (uninit_cold-Beside size i class u) (λ r q. f.trans same q))
        go (some (raw, g)) u e same = elim (Option-cases (resize_uninit raw size)) [
          | inl stuck ↦ rw (e, alloc_uninit_routed) (rw stuck tt)
          | inr (v, run) ↦ rw (e, alloc_uninit_routed) (rw run (f.trans same (hit-step g u)))
        ]

    -- Whatever `alloc_uninit` is called on, it keeps the relation.
    pub alloc_uninit-Beside :
        (size : ℕ) (w : World aq) → IfSome (Beside w) (alloc_uninit heap size w)
    unfolding alloc_uninit
    alloc_uninit-Beside size w =
        let u = note get w in
        elim (Option-cases (ClassTable.route u.state.table size)) [
          | inl stuck ↦ rw (stuck, alloc_uninit) tt
          | inr (none, over) ↦
              rw (over, alloc_uninit)
                (IfSome-mono (Beside u) (Beside w) (alloc_uninit_oversize heap size u)
                  (uninit_oversize-Beside size u) (λ r same. f.trans (f.notes get w) same))
          | inr (some (i, class), routed) ↦
              rw (routed, alloc_uninit)
                (IfSome-mono (Beside u) (Beside w) (alloc_uninit_routed heap size i class u)
                  (uninit_routed-Beside size i class u) (λ r same. f.trans (f.notes get w) same))
        ]
