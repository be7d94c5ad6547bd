-- ===== src/Access/Bounds/Calls.antt =====
-- Bounds on the accesses of `alloc`, `alloc_uninit`, `dealloc` and `warm` of pool.rs.
use zeropool.Base.{
  ℕ, zero, suc, ◌+◌, ◌-◌, ◌*◌, ◌≤◌, Bool, Option, none, some, arith, get_elem?, if_either, ◌==◌,
  leb, ltb, length,
}
use zeropool.Vec.{Heap, Vec, clear, truncate}
use zeropool.ArrayQueue.{ArrayQueue}
use zeropool.SizeClass.{SizeClass, resize_zeroed, resize_uninit}
use zeropool.Stats.{Event, get, put, discard, allocation, oversized}
use zeropool.ClassTable
use zeropool.Tls.{TlsState, push_cache}
use zeropool.Pool.{State, claim}
use zeropool.Pool.Dealloc.{pick_class}
use zeropool.Access.{Code, result, call_allocator, call_vec, ◌>>=◌, ◌>>◌, locally}
use zeropool.Access.Bounds.{
  AtMost, Accesses, Accesses-le, AtMost-then, AtMost-locally, for_option, for_list, for_bool,
}
use zeropool.Access.Calls.{
  push_code, refill_code, alone, note_code, pin_code, take_pooled_code, note_hit_code,
  alloc_found_code, alloc_code, alloc_uninit_found_code, alloc_uninit_code, make_room_code,
  keep_code, dealloc_code, warm_loop_code, warm_code,
}
use zeropool.Access.Bounds.Moves.{push-AtMost, refill-AtMost, spill-AtMost}

module _ {aq : ArrayQueue} (s : State aq) where
  note-AtMost : (e : Event) → AtMost 1 (note_code s e)
  unfolding note_code
  note-AtMost e = if_either (AtMost 1) s.track_stats _ _ (omega arith, tt) tt

  pin-AtMost : (v : Vec) → AtMost 1 (pin_code s v)
  unfolding pin_code
  pin-AtMost v =
      if_either (AtMost 1) s.pinned_memory _ _
        (if_either (AtMost 1) (v.cap == 0) _ _ tt (omega arith, tt)) tt

  hit-AtMost : (from_tls : Bool) → AtMost 1 (note_hit_code s from_tls)
  unfolding note_hit_code
  hit-AtMost from_tls = if_either (AtMost 1) from_tls _ _ (note-AtMost _) (note-AtMost _)

  -- In sequence, after a step of one access.
  one :
      {B : Type 0} (n : ℕ) (m : Code (Unit {0})) (k : Code B)
      → AtMost 1 m
      → AtMost n k
      → AtMost (1 + n) (m >> k)
  one n m k h later = AtMost-then (1 + n) 1 n m (λ _. k) (omega arith) h (λ _. later)

  abbrev most_taken : ℕ
  most_taken = 2 * (s.batch_size - 1) + 2

  take_pooled-AtMost : (i : ℕ) (tls : TlsState) → AtMost most_taken (take_pooled_code s i tls)
  unfolding take_pooled_code
  take_pooled-AtMost i tls = AtMost-locally _ (get_elem? (claim (alone s tls)).caches i) _ (
      for_list _
        (AtMost-then most_taken most_taken 0 (refill_code (claim (alone s tls)) i s.batch_size) _
          (omega arith) (refill-AtMost (claim (alone s tls)) i s.batch_size) (λ r. tt))
        (λ v rest. tt))

  allocator_then :
      {B : Type 0} (n m : ℕ) (f : Vec → Code B)
      → ((v : Vec) → AtMost n (f v))
      → AtMost (1 + n) (call_allocator m result >>= f)
  allocator_then n m f h =
      AtMost-then (1 + n) 1 n (call_allocator m result) f (omega arith) (omega arith, λ v. tt) h

  vec_then :
      {B : Type 0} (n m : ℕ) (f : Vec → Code B)
      → ((v : Vec) → AtMost n (f v))
      → AtMost (1 + n) (call_vec m result >>= f)
  vec_then n m f h =
      AtMost-then (1 + n) 1 n (call_vec m result) f (omega arith) (omega arith, λ v. tt) h

  alloc_found-AtMost :
      (size i : ℕ) (class : SizeClass aq) (out : Option (Vec × Bool)) (tls : TlsState)
      → AtMost 3 (alloc_found_code s size i class out tls)
  unfolding alloc_found_code
  alloc_found-AtMost size i class none tls =
      one 2 (note_code s allocation) _ (note-AtMost allocation) (
        allocator_then 1 class.class_size _
          (λ v. one 0 (pin_code s (truncate v size)) _ (pin-AtMost (truncate v size)) tt))
  alloc_found-AtMost size i class (some (v, from_tls)) tls =
      one 2 (note_hit_code s from_tls) _ (hit-AtMost from_tls)
        (AtMost-locally 2 (resize_zeroed v size) _ (λ u. tt))

  alloc_uninit_found-AtMost :
      (size i : ℕ) (class : SizeClass aq) (out : Option (Vec × Bool)) (tls : TlsState)
      → AtMost 3 (alloc_uninit_found_code s size i class out tls)
  unfolding alloc_uninit_found_code
  alloc_uninit_found-AtMost size i class none tls =
      one 2 (note_code s allocation) _ (note-AtMost allocation) (
        vec_then 1 class.class_size _ (λ v.
          AtMost-locally 1 (resize_uninit v size) _
            (λ u. one 0 (pin_code s u) _ (pin-AtMost u) tt)))
  alloc_uninit_found-AtMost size i class (some (v, from_tls)) tls =
      one 2 (note_hit_code s from_tls) _ (hit-AtMost from_tls)
        (AtMost-locally 2 (resize_uninit v size) _ (λ u. tt))

  -- What `alloc` and `alloc_uninit` make at most.
  abbrev pub alloc_most : ℕ
  alloc_most = 2 * (s.batch_size - 1) + 6

  alloc-AtMost : (size : ℕ) (tls : TlsState) → AtMost alloc_most (alloc_code s size tls)
  unfolding alloc_code
  alloc-AtMost size tls =
      AtMost-then alloc_most 1 (most_taken + 3) (note_code s get) _ (omega arith) (note-AtMost get)
        (λ _. AtMost-locally (most_taken + 3) (ClassTable.route s.table size) _ (
          for_option _
            (AtMost-then (most_taken + 3) 1 3 (note_code s oversized) _ (omega arith)
              (note-AtMost oversized)
              (λ _. one 2 (note_code s allocation) _ (note-AtMost allocation) (
                allocator_then 1 size _
                  (λ v. one 0 (pin_code s (truncate v size)) _ (pin-AtMost (truncate v size)) tt))))
            (λ found.
              AtMost-then (most_taken + 3) most_taken 3 (take_pooled_code s found.0 tls) _
                (omega arith) (take_pooled-AtMost found.0 tls)
                (λ r. alloc_found-AtMost size found.0 found.1 r.0 r.1))))

  alloc_uninit-AtMost :
      (size : ℕ) (tls : TlsState) → AtMost alloc_most (alloc_uninit_code s size tls)
  unfolding alloc_uninit_code
  alloc_uninit-AtMost size tls =
      AtMost-then alloc_most 1 (most_taken + 3) (note_code s get) _ (omega arith) (note-AtMost get)
        (λ _. AtMost-locally (most_taken + 3) (ClassTable.route s.table size) _ (
          for_option _
            (AtMost-then (most_taken + 3) 1 3 (note_code s oversized) _ (omega arith)
              (note-AtMost oversized)
              (λ _. one 2 (note_code s allocation) _ (note-AtMost allocation) (
                vec_then 1 size _ (λ v.
                  AtMost-locally 1 (resize_uninit v size) _
                    (λ u. one 0 (pin_code s u) _ (pin-AtMost u) tt)))))
            (λ found.
              AtMost-then (most_taken + 3) most_taken 3 (take_pooled_code s found.0 tls) _
                (omega arith) (take_pooled-AtMost found.0 tls)
                (λ r. alloc_uninit_found-AtMost size found.0 found.1 r.0 r.1))))

  make_room-AtMost : (i : ℕ) (tls : TlsState) → AtMost (2 * s.batch_size) (make_room_code s i tls)
  unfolding make_room_code
  make_room-AtMost i tls = AtMost-locally (2 * s.batch_size) (get_elem? tls.caches i) _ (λ cache.
      if_either (AtMost (2 * s.batch_size)) (leb tls.limit (length cache)) _ _
        (spill-AtMost s.batch_size tls i) tt)

  keep-AtMost :
      (i : ℕ) (v : Vec) (tls : TlsState) → AtMost (2 * s.batch_size + 2) (keep_code s i v tls)
  unfolding keep_code
  keep-AtMost i v tls =
      AtMost-locally (2 * s.batch_size + 2) (ClassTable.index s.table i) _ (λ class.
        AtMost-then (2 * s.batch_size + 2) (2 * s.batch_size) 2
          (make_room_code s i (claim (alone s tls))) _ (omega arith)
          (make_room-AtMost i (claim (alone s tls)))
          (λ tls'. AtMost-locally 2 (get_elem? tls'.caches i) _ (λ cache.
            if_either (AtMost 2) (ltb (length cache) tls'.limit) _ _ (stacked i v tls')
              (AtMost-then 2 2 0 (push_code i v) _ (omega arith) (push-AtMost i v) (λ taken. tt)))))
    where
      stacked : (i : ℕ) (v : Vec) (tls : TlsState) → AtMost 2 (locally (push_cache tls i v))
      stacked i v tls = elim (push_cache tls i v) as (λ o. AtMost 2 (locally o)) [
        | none ↦ tt
        | some tls' ↦ tt
      ]

  discarded-AtMost : (n : ℕ) (tls : TlsState) → 1 ≤ n → AtMost n (note_code s discard >> result tls)
  discarded-AtMost n tls h =
      AtMost-then n 1 0 (note_code s discard) (λ _. result tls) (omega arith) (note-AtMost discard)
        (λ _. tt)

  -- What `dealloc` makes at most.
  abbrev pub dealloc_most : ℕ
  dealloc_most = 2 * s.batch_size + 4

  dealloc-AtMost :
      (v : Vec) (hint : ℕ) (tls : TlsState) → AtMost dealloc_most (dealloc_code s v hint tls)
  unfolding dealloc_code
  dealloc-AtMost v hint tls =
      let most = 2 * s.batch_size + 3 in
      AtMost-then dealloc_most 1 most (note_code s put) _ (omega arith) (note-AtMost put) (λ _.
        if_either (AtMost most) (hint == 255) _ _ (discarded-AtMost most tls (omega arith)) (
          if_either (AtMost most) (ltb (clear v).cap s.min_buffer_size) _ _
            (discarded-AtMost most tls (omega arith))
            (AtMost-locally most (pick_class (clear v).cap hint (alone s tls)) _ (
              for_option _ tt (λ i.
                AtMost-then most 1 (2 * s.batch_size + 2) (pin_code s (clear v)) _ (omega arith)
                  (pin-AtMost (clear v)) (λ _. keep-AtMost i (clear v) tls))))))

  warm_loop-AtMost :
      (count i : ℕ) (class : SizeClass aq) → AtMost (4 * count) (warm_loop_code s count i class)
  unfolding warm_loop_code
  warm_loop-AtMost zero i class = tt
  warm_loop-AtMost (suc count) i class =
      AtMost-then (4 * suc count) 1 (4 * count + 3) (call_allocator class.class_size result) _
        (omega arith) (omega arith, λ v. tt)
        (λ v.
          AtMost-then (4 * count + 3) 1 (4 * count + 2) (pin_code s v) _ (omega arith)
            (pin-AtMost v)
            (λ _.
              AtMost-then (4 * count + 2) 2 (4 * count) (push_code i v) _ (omega arith)
                (push-AtMost i v) (for_bool _ (warm_loop-AtMost count i class) tt)))

  warm-AtMost : (count size : ℕ) → AtMost (4 * count) (warm_code s count size)
  unfolding warm_code
  warm-AtMost count size =
      AtMost-locally (4 * count) (ClassTable.route s.table size) _
        (for_option _ tt (λ found. warm_loop-AtMost count found.0 found.1))

  -- Whatever other threads do to what they share between two accesses of a call, `alloc` and
  -- `alloc_uninit` make at most twice the batch size less one, and six, accesses, `dealloc` at most
  -- twice the batch size and four, and `warm` at most four for each buffer it was asked for.
  pub accesses_bounded :
      (heap : Heap) (n size hint count : ℕ) (v : Vec) (tls : TlsState)
      → ((code : Code ((Vec × ℕ) × TlsState))
          → Accesses aq heap (alloc_code s size tls) n code
          → n ≤ 2 * (s.batch_size - 1) + 6)
        × ((code : Code ((Vec × ℕ) × TlsState))
            → Accesses aq heap (alloc_uninit_code s size tls) n code
            → n ≤ 2 * (s.batch_size - 1) + 6)
        × ((code : Code TlsState)
            → Accesses aq heap (dealloc_code s v hint tls) n code
            → n ≤ 2 * s.batch_size + 4)
        × ((code : Code (Unit {0}))
            → Accesses aq heap (warm_code s count size) n code
            → n ≤ 4 * count)
  accesses_bounded heap n size hint count v tls = (
    λ code r. (Accesses-le heap alloc_most n _ code (alloc-AtMost size tls) r).0,
    λ code r. (Accesses-le heap alloc_most n _ code (alloc_uninit-AtMost size tls) r).0,
    λ code r. (Accesses-le heap dealloc_most n _ code (dealloc-AtMost v hint tls) r).0,
    λ code r. (Accesses-le heap (4 * count) n _ code (warm-AtMost count size) r).0,
  )
