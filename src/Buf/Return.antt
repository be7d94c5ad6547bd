-- ===== src/Buf/Return.antt =====
-- The drop of a guard, and what a guard does with its buffer over its life.
use zeropool.Base.{
  ℕ, ◌+◌, ◌^◌, ◌<◌, ◌≤◌, ◌≡◌, refl, inl, inr, List, Option, none, some, arith, ◌>>=◌, length,
  get_elem?,
}
use zeropool.Vec.{Heap, Vec, byte}
use zeropool.ArrayQueue.{ArrayQueue}
use zeropool.Buf.{Buf, BufUninit, new, into_inner, write, write_from_slice}
use zeropool.Buf.Content.{write_from_slice_lem, write_lem}
use zeropool.Pool.{World}
use zeropool.Pool.Valid.{IsValid}
use zeropool.Pool.Dealloc.{dealloc}
use zeropool.Pool.Dealloc.Safety.{dealloc-IsValid}
use zeropool.Pool.Alloc.{alloc_uninit}
use zeropool.Pool.Alloc.Lent.{Home}
use zeropool.Pool.Alloc.Uninit.{alloc_uninit-Lent}

module _ {aq : ArrayQueue} where
  -- `Drop for Buf`
  unfoldable pub drop : Buf → World aq → Option (World aq)
  drop b w = elim b.buffer [ none ↦ some w | some v ↦ dealloc v b.class_idx w ]

  -- `Drop for BufUninit`
  unfoldable pub drop_uninit : BufUninit → World aq → Option (World aq)
  drop_uninit b w = elim b.buffer [ none ↦ some w | some v ↦ dealloc v b.class_idx w ]

  -- `alloc_uninit(size).write_from_slice(bytes)`, and the drop of the emptied guard
  unfoldable pub filled : Heap → ℕ → List ℕ → World aq → Option (Buf × World aq)
  filled heap size bytes w = alloc_uninit heap size w >>= λ r.
      write_from_slice r.0 bytes >>= λ g. drop_uninit g.1 r.1 >>= λ after. some (g.0, after)

  -- A guard that a valid pool handed out, written to any number of bytes through `io::Write`, takes
  -- all of them: its buffer is longer by so many, keeps its class index and suits it; and its drop
  -- returns and keeps the pool valid.
  pub written-drop :
      (heap : Heap) (place class_idx : ℕ) (v : Vec) (bytes : List ℕ) (w : World aq)
      → IsValid w
      → Home class_idx v
      → (u : Vec) × (after : World aq) × (write heap place (new v class_idx) bytes
          ≡ some (length bytes, new u class_idx))
        × (u.len ≡ v.len + length bytes)
        × Home class_idx u
        × (drop (new u class_idx) w ≡ some after)
        × IsValid after
  unfolding drop new
  written-drop heap place class_idx v bytes w valid home =
      let (u, run, grown, cap, fits, old, fresh) = write_lem heap place class_idx v bytes in
      let home' : Home class_idx u = elim home [
        | inl over ↦ inl over
        | inr (b, at_b, reached) ↦ inr (b, at_b, omega arith)
      ] in
      let (after, ran, valid') = dealloc-IsValid u class_idx w valid home' in
      (u, after, run, grown, home', ran, valid')

  -- `into_inner` hands the buffer of a guard over as it is, and the drop that follows leaves the pool
  -- as it was; without it the drop would give the buffer to `dealloc`.
  pub into_inner-drop :
      (v : Vec) (class_idx : ℕ) (w : World aq)
      → (b : Buf) × (into_inner (new v class_idx) ≡ some (v, b))
        × (drop b w ≡ some w)
        × (drop (new v class_idx) w ≡ dealloc v class_idx w)
  unfolding drop into_inner new
  into_inner-drop v class_idx w =
      (record { buffer = none; class_idx = class_idx }, refl, refl, refl)

  -- Filling a fresh guard with bytes of its length, at most `isize::MAX`, on a valid pool, returns
  -- a guard that holds exactly these bytes, every one initialized, whatever the recycled buffer
  -- held, and the pool is valid.
  pub filled_lem :
      (heap : Heap) (bytes : List ℕ) (w : World aq)
      → length bytes < 2 ^ 63
      → IsValid w
      → (u : Vec) × (class_idx : ℕ) × (after : World aq) × (filled heap (length bytes) bytes w
          ≡ some (new u class_idx, after))
        × IsValid after
        × (u.len ≡ length bytes)
        × (u.len ≤ u.cap)
        × ((i x : ℕ) → get_elem? bytes i ≡ some x → u.cells i ≡ byte x)
  unfolding filled drop_uninit
  filled_lem heap bytes w small valid =
      let a = alloc_uninit-Lent heap (length bytes) w small valid in
      let (len_is, fits) = a.good in
      let (u, run, same_ptr, same_len, same_cap, holds) =
        (write_from_slice_lem a.buf a.class_idx bytes).0 (omega arith) in
      (
        u,
        a.class_idx,
        a.after,
        rw (a.returns, filled) (rw run),
        a.valid,
        omega arith,
        omega arith,
        holds,
      )
