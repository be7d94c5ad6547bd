-- ===== src/Pool/Alloc.antt =====
-- `ZeroPool::alloc` and `ZeroPool::alloc_uninit` of pool.rs, whole.
pub mod Take
pub mod Lent
pub mod Correct
pub mod Safety
pub mod Uninit
pub mod Counted
pub mod Panics
use zeropool.Base.{
  ℕ, suc, ◌%◌, ◌^◌, Bool, true, false, [], ◌∷◌, Option, none, some, ◌>>=◌, if◌then◌else◌, get_elem?,
  set,
}
use mathlib.Core.Option
use zeropool.Vec.{Heap, Vec, truncate, with_capacity}
use zeropool.ArrayQueue.{ArrayQueue}
use zeropool.SizeClass.{SizeClass, resize_zeroed, resize_uninit}
use zeropool.ClassTable
use zeropool.Tls.{refill}
use zeropool.Stats.{get, tls_hit, shared_hit, allocation, oversized}
use zeropool.Buf.{Buf, BufUninit}
use zeropool.Buf
use zeropool.Pool.{World, note, pin, allocate, claim, put_class}

module _ {aq : ArrayQueue} where
  -- The `TlsState::with` closure, which `alloc` and `alloc_uninit` share word for word. The flag says
  -- whether the buffer came from the thread's own cache.
  unfoldable pub take_pooled : ℕ → SizeClass aq → World aq → Option (Option (Vec × Bool) × World aq)
  take_pooled class_idx class w =
      let tls = claim w in
      get_elem? tls.caches class_idx >>= λ cache. elim cache [
        | buf ∷ rest ↦ some (
          some (buf, true),
          record w { tls = record tls { caches = set tls.caches class_idx rest } },
        )
        | [] ↦ refill tls class_idx class w.state.batch_size >>= λ r. some (
          Option.map (λ buf. (buf, false)) r.0,
          record w { state = put_class class_idx r.2 w.state; tls = r.1 },
        )
      ]

  -- The counter of the way by which a pooled buffer came.
  unfoldable pub note_hit : Bool → World aq → World aq
  note_hit from_tls w = if from_tls then note tls_hit w else note shared_hit w

  -- The oversize path.
  unfoldable pub alloc_oversize : ℕ → World aq → Option (Buf × World aq)
  alloc_oversize size w = allocate size (note allocation (note oversized w)) >>= λ r.
      some (Buf.new (truncate r.0 size) 255, pin (truncate r.0 size) r.1)

  -- The cold path.
  unfoldable pub alloc_cold : ℕ → ℕ → SizeClass aq → World aq → Option (Buf × World aq)
  alloc_cold size class_idx class w = allocate class.class_size (note allocation w) >>= λ r.
      some (Buf.new (truncate r.0 size) (class_idx % 2 ^ 8), pin (truncate r.0 size) r.1)

  unfoldable pub alloc_routed : ℕ → ℕ → SizeClass aq → World aq → Option (Buf × World aq)
  unfolding take_pooled note_hit alloc_cold
  alloc_routed size class_idx class w = take_pooled class_idx class w >>= λ r. elim r.0 [
    | some (buf, from_tls) ↦ resize_zeroed buf size >>= λ buf'.
        some (Buf.new buf' (class_idx % 2 ^ 8), note_hit from_tls r.1)
    | none ↦ alloc_cold size class_idx class r.1
  ]

  unfoldable pub alloc : ℕ → World aq → Option (Buf × World aq)
  unfolding alloc_oversize alloc_routed
  alloc size w =
      let w' = note get w in
      ClassTable.route w'.state.table size >>= λ routed. elim routed [
        | none ↦ alloc_oversize size w'
        | some (class_idx, class) ↦ alloc_routed size class_idx class w'
      ]

  -- `pool_vec!`
  unfoldable pub pool_vec : ℕ → World aq → Option (Buf × World aq)
  unfolding alloc
  pool_vec size w = alloc size w

  module _ (heap : Heap) where
    unfoldable pub alloc_uninit_oversize : ℕ → World aq → Option (BufUninit × World aq)
    alloc_uninit_oversize size w =
        let w1 = note allocation (note oversized w) in
        let w2 : World aq = record w1 { serial = suc w1.serial } in
        with_capacity heap w1.serial size >>= λ raw.
        resize_uninit raw size >>= λ buf. some (Buf.new_uninit buf 255, pin buf w2)

    unfoldable pub alloc_uninit_cold :
        ℕ → ℕ → SizeClass aq → World aq → Option (BufUninit × World aq)
    alloc_uninit_cold size class_idx class w =
        let w1 = note allocation w in
        let w2 : World aq = record w1 { serial = suc w1.serial } in
        with_capacity heap w1.serial class.class_size >>= λ raw.
        resize_uninit raw size >>= λ buf. some (Buf.new_uninit buf (class_idx % 2 ^ 8), pin buf w2)

    unfoldable pub alloc_uninit_routed :
        ℕ → ℕ → SizeClass aq → World aq → Option (BufUninit × World aq)
    unfolding take_pooled note_hit alloc_uninit_cold
    alloc_uninit_routed size class_idx class w = take_pooled class_idx class w >>= λ r. elim r.0 [
      | some (buf, from_tls) ↦ resize_uninit buf size >>= λ buf'.
          some (Buf.new_uninit buf' (class_idx % 2 ^ 8), note_hit from_tls r.1)
      | none ↦ alloc_uninit_cold size class_idx class r.1
    ]

    unfoldable pub alloc_uninit : ℕ → World aq → Option (BufUninit × World aq)
    unfolding alloc_uninit_oversize alloc_uninit_routed
    alloc_uninit size w =
        let w' = note get w in
        ClassTable.route w'.state.table size >>= λ routed. elim routed [
          | none ↦ alloc_uninit_oversize size w'
          | some (class_idx, class) ↦ alloc_uninit_routed size class_idx class w'
        ]
