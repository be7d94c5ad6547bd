-- ===== src/Pool/Alloc/Panics.antt =====
-- When `alloc` panics.
use zeropool.Base.{
  ℕ, ◌^◌, ◌<◌, ◌≤◌, ◌≡◌, ◌↔◌, refl, ◌∙◌, inl, inr, none, arith, if_either, ltb, Bool-cases,
}
use zeropool.Vec.{Heap, zeroed}
use zeropool.ArrayQueue.{ArrayQueue}
use zeropool.ClassTable.Laws.{route-ClassOk}
use zeropool.Route.Bounds.{class_sizes_small}
use zeropool.Stats.{Event, get, allocation, oversized}
use zeropool.Allocator.{heap_allocator}
use zeropool.Pool.{World, note, allocate}
use zeropool.Pool.Valid.{IsValid, note-IsValid}
use zeropool.Pool.Alloc.{alloc, alloc_oversize}
use zeropool.Pool.Alloc.Safety.{alloc-either}

-- `vec!` refuses a vector that is too long.
zeroed-refuses : (heap : Heap) (ptr n : ℕ) → 2 ^ 63 ≤ n → zeroed heap ptr n ≡ none
unfolding zeroed
zeroed-refuses heap ptr n large = elim (Bool-cases (ltb n (2 ^ 63))) [
  | inl small ↦ absurd (ground arith)
  | inr over ↦ rw over
]

module _ {aq : ArrayQueue} where
  allocator-note : (e : Event) (w : World aq) → (note e w).state.allocator ≡ w.state.allocator
  unfolding note
  allocator-note e w =
      if_either (λ (u : World aq). u.state.allocator ≡ w.state.allocator) w.state.track_stats _ w
        refl refl

  oversize-panics :
      (heap : Heap) (size : ℕ) (w : World aq)
      → w.state.allocator ≡ heap_allocator heap
      → 2 ^ 63 ≤ size
      → alloc_oversize size w ≡ none
  unfolding alloc_oversize allocate heap_allocator
  oversize-panics heap size w default large =
      let u = note allocation (note oversized w) in
      let same : u.state.allocator ≡ heap_allocator heap =
        allocator-note allocation (note oversized w) ∙ allocator-note oversized w ∙ default in
      rw (same, zeroed-refuses heap u.serial size large)

  -- On a valid pool with the default backend, `alloc` of a size below 2^64 panics exactly if the
  -- size is above `isize::MAX`.
  pub alloc-panics :
      (heap : Heap) (size : ℕ) (w : World aq)
      → size < 2 ^ 64
      → IsValid w
      → w.state.allocator ≡ heap_allocator heap
      → (alloc size w ≡ none) ↔ (2 ^ 63 ≤ size)
  unfolding alloc
  alloc-panics heap size w small valid default = (
    λ panics. elim (alloc-either size w small valid) [
      | inl (refused, large) ↦ large
      | inr a ↦ let returned = a.returns in absurd cc
    ],
    λ large.
        let u = note get w in
        elim (route-ClassOk u.state.table size small (note-IsValid get w valid).table) [
          | inl (over, e) ↦
              rw (e, alloc) (oversize-panics heap size u (allocator-note get w ∙ default) large)
          | inr (i, b, class, e, routed, at_i, here, fits, ok) ↦
              absurd (omega (arith, class_sizes_small i b at_i))
        ],
  )
