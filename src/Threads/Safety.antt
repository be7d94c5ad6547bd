-- ===== src/Threads/Safety.antt =====
-- What threads that share a new pool can rely on.
use zeropool.Base.{
  ℕ, ◌^◌, ◌≤◌, ◌<◌, ◌≡◌, [], some, arith, get_elem?, tally-get, All, All-get, inl, inr,
}
use zeropool.Vec.{Heap, Vec}
use zeropool.ArrayQueue.{ArrayQueue}
use zeropool.Buf
use zeropool.Buf.Return.{drop}
use zeropool.Tls.{TlsState}
use zeropool.Pool.{World}
use zeropool.Pool.Valid.{IsValid, pooled, at}
use zeropool.Pool.Alloc.{alloc, alloc_uninit}
use zeropool.Pool.Alloc.Lent.{Home}
use zeropool.Pool.Alloc.Safety.{alloc-Allocated}
use zeropool.Pool.Alloc.Uninit.{alloc_uninit-Lent}
use zeropool.Pool.Dealloc.Safety.{dealloc-Returned}
use zeropool.Pool.Admin.{warm, drain}
use zeropool.Pool.Admin.Laws.{drain_drops}
use zeropool.Pool.Admin.Warm.{warm-Warmed}
use zeropool.Session.Ownership.{guard_at, at_self, unshared}
use zeropool.Threads.{Crew, seen, Reach}
use zeropool.Threads.Ownership.{pooled_by_all, Sound, seen-IsValid, Reach-Sound}

module _ {aq : ArrayQueue} where
  -- A pool before any thread has used it.
  abbrev pub opened : World aq → Crew aq
  opened w = record { state = w.state; threads = []; serial = w.serial; locks = w.locks; live = [] }

  pub opened-Sound :
      (w : World aq)
      → IsValid w
      → (w.state.id ≡ 0 → ⊥)
      → ((weight : Vec → ℕ) → pooled weight w ≡ 0)
      → Sound (opened w)
  opened-Sound w valid named empty = record {
    contract = valid.contract;
    table = valid.table;
    cache_size = valid.cache_size;
    named = named;
    cached = tt;
    homes = tt;
    once = λ p. omega (arith, empty (at p));
    unborn = λ p h. omega (arith, empty (at p));
  }

  -- From a valid and empty pool whose identity is not 0, whatever any number of threads allocate,
  -- write, give away, drop, warm and drain, in any order of their calls, with guards that move
  -- between threads, threads that come and go, and calls on other pools in between: no two live
  -- guards share an allocation, no cache or queue of the pool holds an allocation of a live guard,
  -- and none is held twice; each live guard suits its class, and the pool is valid for every
  -- thread.
  pub shared_one_holder :
      (heap : Heap) (w : World aq) (c : Crew aq)
      → IsValid w
      → (w.state.id ≡ 0 → ⊥)
      → ((weight : Vec → ℕ) → pooled weight w ≡ 0)
      → Reach heap (opened w) c
      → ((i j : ℕ) (g h : Vec × ℕ)
          → get_elem? c.live i ≡ some g
          → get_elem? c.live j ≡ some h
          → g.0.ptr ≡ h.0.ptr
          → i ≡ j)
        × ((i : ℕ) (g : Vec × ℕ) → get_elem? c.live i ≡ some g → pooled_by_all (at g.0.ptr) c ≡ 0)
        × ((p : ℕ) → pooled_by_all (at p) c ≤ 1)
        × All (λ (g : Vec × ℕ). Home g.1 g.0) c.live
        × ((i : ℕ) (tls : TlsState) → get_elem? c.threads i ≡ some tls → IsValid (seen c tls).world)
  shared_one_holder heap w c valid named empty r =
      let sound = Reach-Sound (opened-Sound w valid named empty) r in
      (
        λ i j g h at_i at_j same.
            unshared c.live i j g h (λ p. omega (arith, sound.once p)) at_i at_j same,
        λ i g at_i.
            let held = tally-get (guard_at g.0.ptr) c.live i g at_i in
            omega (arith, at_self g.0, sound.once g.0.ptr),
        λ p. omega (arith, sound.once p),
        sound.homes,
        λ i tls e. seen-IsValid heap c i tls e sound,
      )

  -- At every point of such threads' run from a valid and empty pool whose identity is not 0, on
  -- every thread: `alloc`, `alloc_uninit` and `warm` for every size up to `isize::MAX`, the drop of
  -- every live guard, and `drain` return: no call panics or loops.
  pub shared_never_stuck :
      (heap : Heap) (w : World aq) (c : Crew aq)
      → IsValid w
      → (w.state.id ≡ 0 → ⊥)
      → ((weight : Vec → ℕ) → pooled weight w ≡ 0)
      → Reach heap (opened w) c
      → (k : ℕ) (tls : TlsState) → get_elem? c.threads k ≡ some tls
      → let u = (seen c tls).world in
        ((size : ℕ)
          → size < 2 ^ 63
          → ((v : Vec) × (class_idx : ℕ) × (after : World aq) × (alloc size u
                ≡ some (Buf.new v class_idx, after)))
            × ((v : Vec) × (class_idx : ℕ) × (after : World aq) × (alloc_uninit heap size u
                  ≡ some (Buf.new_uninit v class_idx, after)))
            × ((count : ℕ) → (after : World aq) × (warm count size u ≡ some after)))
        × ((i : ℕ) (v : Vec) (class_idx : ℕ)
            → get_elem? c.live i ≡ some (v, class_idx)
            → (after : World aq) × (drop (Buf.new v class_idx) u ≡ some after))
        × ((after : World aq) × (drain u ≡ some after))
  unfolding drop Buf.new
  shared_never_stuck heap w c valid named empty r k tls here_k =
      let sound = Reach-Sound (opened-Sound w valid named empty) r in
      let u = (seen c tls).world in
      let ok = seen-IsValid heap c k tls here_k sound in
      (
        λ size small.
            let a = alloc-Allocated size u small ok in
            let b = alloc_uninit-Lent heap size u small ok in
            (
              (a.buf, a.class_idx, a.after, a.returns),
              (b.buf, b.class_idx, b.after, b.returns),
              λ count. elim (warm-Warmed count size u (omega arith) ok) [
                | inl (over, run) ↦ (u, run)
                | inr (i, class, after, routed, here, run, rest) ↦ (after, run)
              ],
            ),
        λ i v class_idx e.
            let home =
              All-get (λ (g : Vec × ℕ). Home g.1 g.0) c.live i (v, class_idx) sound.homes e in
            let d = dealloc-Returned v class_idx u ok home in (d.after, d.returns),
        let (after, run, ok', same, less, kept) = drain_drops u ok in (after, run),
      )
