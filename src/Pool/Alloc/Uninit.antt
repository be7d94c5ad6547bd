-- ===== src/Pool/Alloc/Uninit.antt =====
-- `alloc_uninit` of pool.rs on a valid pool, path by path.
use zeropool.Base.{
  ℕ, ◌+◌, ◌%◌, ◌^◌, ◌≤◌, ◌<◌, ◌≡◌, refl, ◌∙◌, inl, inr, ◌⊎◌, Option-cases, Bool, Option, none, some,
  arith, get_elem?,
}
use zeropool.Vec.{Heap, Vec, with_capacity, set_len}
use zeropool.ArrayQueue.{ArrayQueue}
use zeropool.SizeClass.{SizeClass, resize_uninit}
use zeropool.SizeClass.Laws.{ClassOk}
use zeropool.SizeClass.Resize.{resize_uninit-len}
use zeropool.ClassTable.Laws.{route-ClassOk}
use zeropool.Route.{class_sizes}
use zeropool.Route.Bounds.{class_sizes_small}
use zeropool.Stats.{get, allocation, oversized}
use zeropool.Buf.{BufUninit}
use zeropool.Buf
use zeropool.Pool.{World, note}
use zeropool.Pool.Valid.{IsValid, pooled, note-IsValid, pooled-note}
use zeropool.Pool.Alloc.{
  take_pooled, alloc_uninit_oversize, alloc_uninit_cold, alloc_uninit_routed, alloc_uninit,
}
use zeropool.Pool.Alloc.Take.{Found, weight_of, take_pooled-Taken}
use zeropool.Pool.Alloc.Lent.{
  Lent, earlier_result, hand_out-Lent, hand_on-Lent, index_survives_cast, serial-note,
}

-- Exactly the requested length, within the capacity.
abbrev pub Sized : ℕ → Vec → Type 0
Sized size v = (v.len ≡ size) × (v.len ≤ v.cap)

-- What `alloc_uninit` of a size promises of its result.
abbrev pub AllocatedUninit :
    {aq : ArrayQueue} → ℕ → World aq → Option (BufUninit × World aq) → Type 0
AllocatedUninit size w result = Lent Buf.new_uninit (Sized size) w result

-- A fresh buffer of at least the length that it is set to.
fresh_uninit :
    (heap : Heap) (capacity size serial : ℕ) (raw : Vec)
    → with_capacity heap serial capacity ≡ some raw
    → size ≤ capacity
    → (v : Vec) × (resize_uninit raw size ≡ some v)
      × Sized size v
      × (capacity ≤ v.cap)
      × (v.ptr ≡ serial)
unfolding resize_uninit with_capacity set_len
fresh_uninit heap capacity size serial raw made h =
    let g = heap.grant_le capacity in
    let granted : raw.cap ≡ heap.grant capacity = ground arith in
    (set_len raw size, ground arith, (refl, omega arith), omega arith, ground arith)

has_capacity :
    (heap : Heap) (serial capacity : ℕ)
    → capacity < 2 ^ 63
    → (raw : Vec) × (with_capacity heap serial capacity ≡ some raw)
unfolding with_capacity
has_capacity heap serial capacity small = elim (Option-cases (with_capacity heap serial capacity)) [
  | inl over ↦ absurd (ground arith)
  | inr made ↦ made
]

overflows : (heap : Heap) (n serial : ℕ) → with_capacity heap serial n ≡ none → 2 ^ 63 ≤ n
unfolding with_capacity
overflows heap n serial refused = ground arith

module _ {aq : ArrayQueue} (heap : Heap) where
  oversize-either :
      (size : ℕ) (w : World aq)
      → IsValid w
      → ((alloc_uninit_oversize heap size w ≡ none) × (2 ^ 63 ≤ size))
        ⊎ AllocatedUninit size w (alloc_uninit_oversize heap size w)
  unfolding alloc_uninit_oversize
  oversize-either size w v =
      let u = note allocation (note oversized w) in
      let v' = note-IsValid allocation (note oversized w) (note-IsValid oversized w v) in
      elim (Option-cases (with_capacity heap u.serial size)) [
        | inl refused ↦ inl (rw refused, overflows heap size u.serial refused)
        | inr (raw, made) ↦
            let (buf, run, sized, large, at_ptr) =
              fresh_uninit heap size size u.serial raw made (omega arith) in
            inr (
              earlier_result Buf.new_uninit (Sized size) w u _ _
                (serial-note allocation (note oversized w) ∙ serial-note oversized w)
                (λ weight.
                  pooled-note weight allocation (note oversized w) ∙ pooled-note weight oversized w)
                (rw made (rw run))
                (hand_out-Lent Buf.new_uninit (Sized size) buf 255 u v' sized (inl refl) at_ptr))
      ]

  module _ (size i b : ℕ) (class : SizeClass aq) (w : World aq) (v : IsValid w)
      (at_i : get_elem? class_sizes i ≡ some b)
      (here : get_elem? w.state.table.classes i ≡ some class) (fits : size ≤ b)
      (ok : ClassOk b class) where
    lent_of :
        (out : Option (Vec × Bool)) (after : World aq)
        → take_pooled i class w ≡ some (out, after)
        → IsValid after
        → Found b out
        → ((weight : Vec → ℕ) → pooled weight after + weight_of weight out ≡ pooled weight w)
        → after.serial ≡ w.serial
        → AllocatedUninit size w (alloc_uninit_routed heap size i class w)
    unfolding alloc_uninit_routed alloc_uninit_cold
    lent_of none after e q found kept serial =
        let u = note allocation after in
        let n = ok.boundary in
        let (raw, made) =
          has_capacity heap u.serial class.class_size (omega (arith, class_sizes_small i b at_i)) in
        let (buf, run, sized, large, at_ptr) =
          fresh_uninit heap class.class_size size u.serial raw made (omega arith) in
        earlier_result Buf.new_uninit (Sized size) w u _ _ (serial-note allocation after ∙ serial)
          (λ weight. omega (arith, pooled-note weight allocation after, kept weight))
          (rw (e, alloc_uninit_routed) (rw made (rw run)))
          (hand_out-Lent Buf.new_uninit (Sized size) buf (i % 2 ^ 8) u
            (note-IsValid allocation after q) sized (index_survives_cast i b buf at_i (omega arith))
            at_ptr)
    lent_of (some (raw, f)) after e q found kept serial =
        let (v', run, len_is, same_cap, same_ptr) = resize_uninit-len b size raw found fits in
        let large = found.large in
        earlier_result Buf.new_uninit (Sized size) w w _ _ refl (λ weight. refl)
          (rw (e, alloc_uninit_routed) (ground (arith, run)))
          (hand_on-Lent Buf.new_uninit (Sized size) raw v' f (i % 2 ^ 8) w after q kept serial
            same_ptr (len_is, omega arith) (index_survives_cast i b v' at_i (omega arith)))

    alloc_uninit_routed-Lent : AllocatedUninit size w (alloc_uninit_routed heap size i class w)
    alloc_uninit_routed-Lent =
        let t = take_pooled-Taken b i class w v at_i here ok in
        lent_of t.out t.after t.returns t.valid t.found t.conserved t.same_serial

  pub alloc_uninit-either :
      (size : ℕ) (w : World aq)
      → size < 2 ^ 64
      → IsValid w
      → ((alloc_uninit heap size w ≡ none) × (2 ^ 63 ≤ size))
        ⊎ AllocatedUninit size w (alloc_uninit heap size w)
  unfolding alloc_uninit
  alloc_uninit-either size w small v =
      let u = note get w in
      let v' = note-IsValid get w v in
      elim (route-ClassOk u.state.table size small v'.table) [
        | inl (over, e) ↦ elim (oversize-either size u v') [
          | inl (panics, large) ↦ inl (rw (e, alloc_uninit) panics, large)
          | inr a ↦ inr (
              earlier_result Buf.new_uninit (Sized size) w u _ _ (serial-note get w)
                (λ weight. pooled-note weight get w) (rw (e, alloc_uninit)) a)
        ]
        | inr (i, b, class, e, routed, at_i, here, fits, ok) ↦ inr (
            earlier_result Buf.new_uninit (Sized size) w u _ _ (serial-note get w)
              (λ weight. pooled-note weight get w) (rw (e, alloc_uninit))
              (alloc_uninit_routed-Lent size i b class u v' at_i here fits ok))
      ]

  -- A call that returned.
  pub returned-Lent :
      (size : ℕ) (w after : World aq) (b : BufUninit)
      → size < 2 ^ 64
      → IsValid w
      → alloc_uninit heap size w ≡ some (b, after)
      → AllocatedUninit size w (alloc_uninit heap size w)
  returned-Lent size w after b small v e = elim (alloc_uninit-either size w small v) [
    | inl (panics, large) ↦ absurd cc
    | inr a ↦ a
  ]

  -- On a valid pool `alloc_uninit` of any size up to `isize::MAX` returns, without a panic and
  -- without setting a length beyond the capacity: a guard whose buffer has exactly the requested
  -- length, suits its class index, and came from one new allocation or out of the pool, which holds
  -- it no longer; the pool stays valid.
  pub alloc_uninit-Lent :
      (size : ℕ) (w : World aq)
      → size < 2 ^ 63
      → IsValid w
      → AllocatedUninit size w (alloc_uninit heap size w)
  alloc_uninit-Lent size w small v = elim (alloc_uninit-either size w (omega arith) v) [
    | inl (panics, large) ↦ absurd (omega arith)
    | inr a ↦ a
  ]
