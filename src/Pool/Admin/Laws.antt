-- ===== src/Pool/Admin/Laws.antt =====
-- `drain`, `len` and `is_empty` of pool.rs on a valid pool.
use zeropool.Base.{tally, ◌≤◌, ℕ, ◌+◌, ◌^◌, ◌<◌, ◌≡◌, refl, sym, ap, ◌∙◌, ◌↔◌, true, some, arith}
use zeropool.Vec.{Vec}
use zeropool.ArrayQueue.{ArrayQueue}
use zeropool.ClassTable.Laws.{
  contents, tally-flatten, buffered, stock-buffered, total_buffered-exact, all_empty_iff,
  clear_all-IsValid,
}
use zeropool.Pool.{World}
use zeropool.Pool.Valid.{pooled, IsValid}
use zeropool.Pool.Admin.{len, is_empty, drain}

module _ {aq : ArrayQueue} where
  -- `drain` on a valid pool returns and keeps it valid; afterwards `len` is 0 and `is_empty` holds,
  -- and the thread's caches are as they were.
  pub drain_empties :
      (w : World aq)
      → IsValid w
      → (after : World aq) × (drain w ≡ some after)
        × IsValid after
        × (len after ≡ some 0)
        × (is_empty after ≡ true)
        × (after.tls ≡ w.tls)
  unfolding drain len is_empty
  drain_empties w v =
      let (t, run, ok, empty) = clear_all-IsValid w.state.table v.table in
      let after : World aq = record w { state = record w.state { table = t } } in
      (
        after,
        rw run,
        record { contract = v.contract; table = ok; cache_size = v.cache_size; cached = v.cached },
        total_buffered-exact t ok (omega arith) ∙ ap some empty,
        (all_empty_iff t ok).1 empty,
        refl,
      )

  -- What `drain` leaves is in the thread's caches.
  pub drain_drops :
      (w : World aq)
      → IsValid w
      → (after : World aq) × (drain w ≡ some after)
        × IsValid after
        × (after.serial ≡ w.serial)
        × ((weight : Vec → ℕ) → pooled weight after ≤ pooled weight w)
        × ((weight : Vec → ℕ)
            → pooled weight after + tally weight (contents w.state.table) ≡ pooled weight w + 0)
  unfolding drain
  drain_drops w v =
      let (t, run, ok, empty) = clear_all-IsValid w.state.table v.table in
      (
        record w { state = record w.state { table = t } },
        rw run,
        record { contract = v.contract; table = ok; cache_size = v.cache_size; cached = v.cached },
        refl,
        λ weight. omega (arith, stock-buffered weight t.classes empty),
        λ weight. omega (
          arith,
          stock-buffered weight t.classes empty,
          tally-flatten weight w.state.table.classes,
        ),
      )

  -- On a valid pool whose shared buffers number less than 2^64 `len` is that number, and `is_empty`
  -- holds exactly when `len` is 0.
  pub len-is_empty :
      (w : World aq)
      → IsValid w
      → buffered w.state.table.classes < 2 ^ 64
      → (len w ≡ some (buffered w.state.table.classes)) × ((is_empty w ≡ true) ↔ (len w ≡ some 0))
  unfolding len is_empty
  len-is_empty w v small =
      let e = total_buffered-exact w.state.table v.table small in
      let f = all_empty_iff w.state.table v.table in
      let none_left : len w ≡ some 0 → buffered w.state.table.classes ≡ 0 =
        λ p. let q : some (buffered w.state.table.classes) ≡ some 0 = sym e ∙ p in cc in
      (e, (λ p. e ∙ ap some (f.0 p), λ p. f.1 (none_left p)))
