-- ===== src/Session/Safety.antt =====
-- What a client of a valid and empty pool can rely on.
use zeropool.Base.{ℕ, ◌^◌, ◌≤◌, ◌<◌, ◌≡◌, [], some, arith, get_elem?, tally-get, All, All-get}
use zeropool.Vec.{Heap, Vec}
use zeropool.ArrayQueue.{ArrayQueue}
use zeropool.Buf.{Buf, BufUninit, write}
use zeropool.Buf
use zeropool.Buf.Return.{drop}
use zeropool.Pool.{World}
use zeropool.Pool.Valid.{IsValid, pooled, at}
use zeropool.Pool.Alloc.{alloc, alloc_uninit}
use zeropool.Pool.Alloc.Lent.{Home}
use zeropool.Pool.Alloc.Safety.{alloc-Allocated}
use zeropool.Pool.Alloc.Uninit.{alloc_uninit-Lent}
use zeropool.Pool.Dealloc.Safety.{dealloc-Returned}
use zeropool.Session.{Session, Run}
use zeropool.Session.Ownership.{at_self, unshared, guard_at, holders, Sound}
use zeropool.Session.Steps.{Run-Sound}

-- A client that is alone.
abbrev nobody : ℕ → ℕ
nobody p = 0

module _ {aq : ArrayQueue} (heap : Heap) where
  -- From a valid and empty pool, whatever a client on one thread allocates, writes, gives away,
  -- drops, warms and drains, in any order: the pool is valid, each live guard suits its class, no
  -- two live guards share an allocation, and the pool holds no allocation of a live guard and none
  -- twice.
  one_holder :
      (w : World aq) (t : Session aq)
      → IsValid w
      → ((weight : Vec → ℕ) → pooled weight w ≡ 0)
      → Run heap (record { world = w; live = [] }) t
      → IsValid t.world
        × All (λ (g : Vec × ℕ). Home g.1 g.0) t.live
        × ((i j : ℕ) (g h : Vec × ℕ)
            → get_elem? t.live i ≡ some g
            → get_elem? t.live j ≡ some h
            → g.0.ptr ≡ h.0.ptr
            → i ≡ j)
        × ((i : ℕ) (g : Vec × ℕ) → get_elem? t.live i ≡ some g → pooled (at g.0.ptr) t.world ≡ 0)
        × ((p : ℕ) → pooled (at p) t.world ≤ 1)
  one_holder w t valid empty run =
      let none_held : (p : ℕ) → holders nobody p (record { world = w; live = [] }) ≡ 0 =
        λ p. omega (arith, empty (at p)) in
      let first : Sound nobody (record { world = w; live = [] }) = record {
        valid = valid;
        homes = tt;
        once = λ p. omega (arith, none_held p);
        unborn = λ p h. none_held p;
      } in
      let sound = Run-Sound nobody heap first run in
      (
        sound.valid,
        sound.homes,
        λ i j g h at_i at_j same.
            unshared t.live i j g h (λ p. omega (arith, sound.once p)) at_i at_j same,
        λ i g at_i.
            let held = tally-get (guard_at g.0.ptr) t.live i g at_i in
            omega (arith, at_self g.0, sound.once g.0.ptr),
        λ p. omega (arith, sound.once p),
      )

  -- At every point of a client's run from a valid and empty pool, `alloc` and `alloc_uninit` of
  -- every size up to `isize::MAX` return a guard, and the drop of every live guard returns: no call panics.
  never_stuck :
      (w : World aq) (t : Session aq)
      → IsValid w
      → ((weight : Vec → ℕ) → pooled weight w ≡ 0)
      → Run heap (record { world = w; live = [] }) t
      → ((size : ℕ)
          → size < 2 ^ 63
          → ((v : Vec) × (class_idx : ℕ) × (after : World aq) × (alloc size t.world
                ≡ some (Buf.new v class_idx, after)))
            × ((v : Vec) × (class_idx : ℕ) × (after : World aq) × (alloc_uninit heap size t.world
                  ≡ some (Buf.new_uninit v class_idx, after))))
        × ((i : ℕ) (v : Vec) (class_idx : ℕ)
            → get_elem? t.live i ≡ some (v, class_idx)
            → (after : World aq) × (drop (Buf.new v class_idx) t.world ≡ some after))
  unfolding drop Buf.new
  never_stuck w t valid empty run =
      let (valid', homes, apart, away, once) = one_holder w t valid empty run in
      (
        λ size small.
            let a = alloc-Allocated size t.world small valid' in
            let u = alloc_uninit-Lent heap size t.world small valid' in
            ((a.buf, a.class_idx, a.after, a.returns), (u.buf, u.class_idx, u.after, u.returns)),
        λ i v class_idx e.
            let home = All-get (λ (g : Vec × ℕ). Home g.1 g.0) t.live i (v, class_idx) homes e in
            let r = dealloc-Returned v class_idx t.world valid' home in (r.after, r.returns),
      )
