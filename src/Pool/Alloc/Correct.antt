-- ===== src/Pool/Alloc/Correct.antt =====
-- `alloc` of pool.rs on a valid pool, path by path.
use zeropool.Base.{
  ℕ, ◌+◌, ◌%◌, ◌^◌, ◌≤◌, ◌<◌, ◌≡◌, refl, ◌∙◌, Bool, Option, none, some, arith, get_elem?, ◌>>=◌,
}
use zeropool.Vec.{Vec, byte, truncate}
use zeropool.ArrayQueue.{ArrayQueue}
use zeropool.SizeClass.{SizeClass}
use zeropool.SizeClass.Laws.{ClassOk}
use zeropool.SizeClass.Resize.{Zeroed, resize_zeroed-Zeroed}
use zeropool.Route.{class_sizes}
use zeropool.Route.Bounds.{class_sizes_small}
use zeropool.Allocator.{Made}
use zeropool.Stats.{allocation}
use zeropool.Buf.{Buf}
use zeropool.Buf
use zeropool.Pool.{World, note, pin, allocate}
use zeropool.Pool.Valid.{IsValid, pooled, note-IsValid, pooled-note}
use zeropool.Pool.Alloc.{take_pooled, alloc_cold, alloc_routed}
use zeropool.Pool.Alloc.Take.{Found, weight_of, take_pooled-Taken}
use zeropool.Pool.Alloc.Lent.{
  Home, Lent, earlier_result, hand_out-Lent, hand_on-Lent, index_survives_cast, serial-note,
}

-- The first `size` bytes of a fresh buffer of at least that capacity, by the allocator's contract.
fresh-Zeroed :
    (serial capacity size : ℕ) (raw : Vec)
    → Made serial capacity raw
    → size ≤ capacity
    → let v = truncate raw size in Zeroed size v × (v.cap ≡ raw.cap) × (v.ptr ≡ serial)
unfolding truncate
fresh-Zeroed serial capacity size raw m h =
    let long = m.long in
    let room = m.room in
    let z : (i : ℕ) → i < size → (truncate raw size).cells i ≡ byte 0 =
      λ i lt. ground (arith, m.zeros i) in
    (
      record { length_is = ground arith; fits = ground arith; zeros = z },
      ground arith,
      ground (arith, m.place),
    )

-- What `alloc` of a size promises of its result.
abbrev pub Allocated : {aq : ArrayQueue} → ℕ → World aq → Option (Buf × World aq) → Type 0
Allocated size w result = Lent Buf.new (Zeroed size) w result

module _ {aq : ArrayQueue} where
  -- A fresh buffer, cut to size, pinned and handed out with a class index that suits it.
  pub allocate-Allocated :
      (capacity size class_idx : ℕ) (raw : Vec) (w : World aq)
      → IsValid w
      → w.state.allocator.allocate w.serial capacity ≡ some raw
      → size ≤ capacity
      → Home class_idx (truncate raw size)
      → Allocated size w (
          allocate capacity w >>= λ r.
          some (Buf.new (truncate r.0 size) class_idx, pin (truncate r.0 size) r.1))
  unfolding allocate
  allocate-Allocated capacity size class_idx raw w v e h home =
      let f =
        fresh-Zeroed w.serial capacity size raw (v.contract.makes w.serial capacity raw e) h in
      rw e (hand_out-Lent Buf.new (Zeroed size) (truncate raw size) class_idx w v f.0 home f.2)

  module _ (size i b : ℕ) (class : SizeClass aq) (w : World aq) (v : IsValid w)
      (at_i : get_elem? class_sizes i ≡ some b)
      (here : get_elem? w.state.table.classes i ≡ some class) (fits : size ≤ b)
      (ok : ClassOk b class) where
    allocated_of :
        (out : Option (Vec × Bool)) (after : World aq)
        → take_pooled i class w ≡ some (out, after)
        → IsValid after
        → Found b out
        → ((weight : Vec → ℕ) → pooled weight after + weight_of weight out ≡ pooled weight w)
        → after.serial ≡ w.serial
        → Allocated size w (alloc_routed size i class w)
    unfolding alloc_routed alloc_cold allocate
    allocated_of none after e q found kept serial =
        let u = note allocation after in
        let n = ok.boundary in
        let q' = note-IsValid allocation after q in
        let c = q'.contract in
        let (raw, made) =
          c.answers u.serial class.class_size (omega (arith, class_sizes_small i b at_i)) in
        let m = c.makes u.serial class.class_size raw made in
        let long = m.long in
        let room = m.room in
        let same_cap = (fresh-Zeroed u.serial class.class_size size raw m (omega arith)).1 in
        earlier_result Buf.new (Zeroed size) w u _ _ (serial-note allocation after ∙ serial)
          (λ weight. omega (arith, pooled-note weight allocation after, kept weight))
          (rw (e, alloc_routed))
          (allocate-Allocated class.class_size size (i % 2 ^ 8) raw u q' made (omega arith)
            (index_survives_cast i b (truncate raw size) at_i (omega arith)))
    allocated_of (some (raw, f)) after e q found kept serial =
        let (v', run, zeroed, same_cap, same_ptr) = resize_zeroed-Zeroed b size raw found fits in
        let large = found.large in
        earlier_result Buf.new (Zeroed size) w w _ _ refl (λ weight. refl)
          (rw (e, alloc_routed) (ground (arith, run)))
          (hand_on-Lent Buf.new (Zeroed size) raw v' f (i % 2 ^ 8) w after q kept serial same_ptr
            zeroed (index_survives_cast i b v' at_i (omega arith)))

    pub alloc_routed-Allocated : Allocated size w (alloc_routed size i class w)
    alloc_routed-Allocated =
        let t = take_pooled-Taken b i class w v at_i here ok in
        allocated_of t.out t.after t.returns t.valid t.found t.conserved t.same_serial
