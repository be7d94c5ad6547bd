-- ===== src/Pool/Alloc/Safety.antt =====
-- The theorems on `alloc` that a caller relies on.
use zeropool.Base.{
  ℕ, ◌^◌, ◌<◌, ◌≡◌, refl, ◌∙◌, sym, ap, subst, inl, inr, some, arith, Option, ◌≤◌, ◌⊎◌, none,
  Option-cases, Bool-cases, ltb,
}
use zeropool.Vec.{Vec}
use zeropool.ArrayQueue.{ArrayQueue}
use zeropool.SizeClass.Resize.{Zeroed}
use zeropool.ClassTable.Laws.{route-ClassOk}
use zeropool.Stats.{get, allocation, oversized}
use zeropool.Allocator.{Allocator, Contract}
use zeropool.Buf.{Buf}
use zeropool.Buf
use zeropool.Pool.{World, note, allocate}
use zeropool.Pool.Valid.{IsValid, note-IsValid, pooled-note}
use zeropool.Pool.Alloc.{alloc_oversize, alloc}
use zeropool.Pool.Alloc.Lent.{Home, Source, earlier_result, serial-note}
use zeropool.Pool.Alloc.Correct.{Allocated, allocate-Allocated, alloc_routed-Allocated}

-- The contract's allocator refuses no capacity that a vector can have.
pub refuses :
    (a : Allocator)
    → Contract a
    → (capacity serial : ℕ) → a.allocate serial capacity ≡ none
    → 2 ^ 63 ≤ capacity
refuses a c capacity serial refused = elim (Bool-cases (ltb capacity (2 ^ 63))) [
  | inl small ↦ let (raw, made) = c.answers serial capacity (ground arith) in absurd cc
  | inr large ↦ ground arith
]

module _ {aq : ArrayQueue} where
  -- Above `isize::MAX` the allocator may panic; otherwise the oversize path allocates.
  oversize-either :
      (size : ℕ) (w : World aq)
      → IsValid w
      → ((alloc_oversize size w ≡ none) × (2 ^ 63 ≤ size))
        ⊎ Allocated size w (alloc_oversize size w)
  unfolding alloc_oversize allocate
  oversize-either size w v =
      let u = note allocation (note oversized w) in
      let v' = note-IsValid allocation (note oversized w) (note-IsValid oversized w v) in
      elim (Option-cases (u.state.allocator.allocate u.serial size)) [
        | inl refused ↦
            inl (rw refused, refuses u.state.allocator v'.contract size u.serial refused)
        | inr (raw, made) ↦ inr (
            earlier_result Buf.new (Zeroed size) w u _ _
              (serial-note allocation (note oversized w) ∙ serial-note oversized w)
              (λ weight.
                pooled-note weight allocation (note oversized w) ∙ pooled-note weight oversized w)
              refl (allocate-Allocated size size 255 raw u v' made (omega arith) (inl refl)))
      ]

  pub alloc-either :
      (size : ℕ) (w : World aq)
      → size < 2 ^ 64
      → IsValid w
      → ((alloc size w ≡ none) × (2 ^ 63 ≤ size)) ⊎ Allocated size w (alloc size w)
  unfolding alloc
  alloc-either size w small v =
      let u = note get w in
      let v' = note-IsValid get w v in
      elim (route-ClassOk u.state.table size small v'.table) [
        | inl (over, e) ↦ elim (oversize-either size u v') [
          | inl (panics, large) ↦ inl (rw (e, alloc) panics, large)
          | inr a ↦ inr (
              earlier_result Buf.new (Zeroed size) w u _ _ (serial-note get w)
                (λ weight. pooled-note weight get w) (rw (e, alloc)) a)
        ]
        | inr (i, b, class, e, routed, at_i, here, fits, ok) ↦ inr (
            earlier_result Buf.new (Zeroed size) w u _ _ (serial-note get w)
              (λ weight. pooled-note weight get w) (rw (e, alloc))
              (alloc_routed-Allocated size i b class u v' at_i here fits ok))
      ]

  pub alloc-Allocated :
      (size : ℕ) (w : World aq) → size < 2 ^ 63 → IsValid w → Allocated size w (alloc size w)
  alloc-Allocated size w small v = elim (alloc-either size w (omega arith) v) [
    | inl (panics, large) ↦ absurd (omega arith)
    | inr a ↦ a
  ]

  -- A call that returned.
  pub returned-Allocated :
      (size : ℕ) (w after : World aq) (b : Buf)
      → size < 2 ^ 64
      → IsValid w
      → alloc size w ≡ some (b, after)
      → Allocated size w (alloc size w)
  returned-Allocated size w after b small v e = elim (alloc-either size w small v) [
    | inl (panics, large) ↦ absurd cc
    | inr a ↦ a
  ]

  -- For every size up to `isize::MAX` and every valid pool `alloc` returns without a panic and leaves the
  -- pool valid.
  alloc-IsValid :
      (size : ℕ) (w : World aq)
      → size < 2 ^ 63
      → IsValid w
      → (b : Buf) × (after : World aq) × (alloc size w ≡ some (b, after)) × IsValid after
  alloc-IsValid size w small v =
      let a = alloc-Allocated size w small v in
      (Buf.new a.buf a.class_idx, a.after, a.returns, a.valid)

  -- For every size below 2^64 and every valid pool, the buffer that `alloc` returns has exactly the
  -- requested length within its capacity, all its bytes are zero whatever the buffer held before,
  -- and its class index is 255 or that of a class whose boundary its capacity reaches.
  pub alloc-Zeroed :
      (size : ℕ) (w after : World aq) (b : Buf)
      → size < 2 ^ 64
      → IsValid w
      → alloc size w ≡ some (b, after)
      → (v : Vec) × (b.buffer ≡ some v) × Zeroed size v × Home b.class_idx v
  unfolding Buf.new
  alloc-Zeroed size w after b small v e =
      let a = returned-Allocated size w after b small v e in
      let same : ◌≡◌ {A = Option (Buf × World aq)} (some (Buf.new a.buf a.class_idx, a.after))
          (some (b, after)) =
        sym a.returns ∙ e in
      let q : Buf.new a.buf a.class_idx ≡ b = cc in
      (
        a.buf,
        sym (ap (λ (x : Buf). x.buffer) q),
        a.good,
        subst (λ n. Home n a.buf) (ap (λ (x : Buf). x.class_idx) q) a.home,
      )

  -- For every size below 2^64 and every valid pool, the buffer that `alloc` returns comes from one
  -- new allocator call with the pool's stock unchanged, or leaves the pool, which then holds
  -- exactly one buffer less, the one at that address.
  pub alloc-Source :
      (size : ℕ) (w after : World aq) (b : Buf)
      → size < 2 ^ 64
      → IsValid w
      → alloc size w ≡ some (b, after)
      → (v : Vec) × (b.buffer ≡ some v) × Source v.ptr w after
  unfolding Buf.new
  alloc-Source size w after b small v e =
      let a = returned-Allocated size w after b small v e in
      let same : ◌≡◌ {A = Option (Buf × World aq)} (some (Buf.new a.buf a.class_idx, a.after))
          (some (b, after)) =
        sym a.returns ∙ e in
      let q : Buf.new a.buf a.class_idx ≡ b = cc in
      let r : a.after ≡ after = cc in
      (a.buf, sym (ap (λ (x : Buf). x.buffer) q), subst (λ u. Source a.buf.ptr w u) r a.source)
