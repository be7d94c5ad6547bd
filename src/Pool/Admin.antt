-- ===== src/Pool/Admin.antt =====
-- The rest of pool.rs: `warm`, `len`, `is_empty`, `drain`, `stats` and `reset_stats`.
pub mod Laws
pub mod Warm
use zeropool.Base.{ℕ, zero, suc, Bool, Option, none, some, ◌>>=◌}
use zeropool.ArrayQueue.{ArrayQueue}
use zeropool.SizeClass.{SizeClass}
use zeropool.SizeClass
use zeropool.ClassTable
use zeropool.Stats.{Stats}
use zeropool.Stats
use zeropool.Pool.{World, pin, allocate, put_class}

module _ {aq : ArrayQueue} where
  -- The loop of `warm`: it ends early where the class refuses a buffer, which is dropped.
  unfoldable pub warm_loop : ℕ → ℕ → SizeClass aq → World aq → Option (World aq)
  warm_loop zero class_idx class w = some w
  warm_loop (suc count) class_idx class w = allocate class.class_size w >>= λ r.
      (let w' = pin r.0 r.1 in
        elim (SizeClass.push r.0 class) [
          | none ↦ some w'
          | some class' ↦
              warm_loop count class_idx class'
                (record w' { state = put_class class_idx class' w'.state })
        ])

  unfoldable pub warm : ℕ → ℕ → World aq → Option (World aq)
  unfolding warm_loop
  warm count size w = ClassTable.route w.state.table size >>= λ routed. elim routed [
    | none ↦ some w
    | some (class_idx, class) ↦ warm_loop count class_idx class w
  ]

  unfoldable pub len : World aq → Option ℕ
  len w = ClassTable.total_buffered w.state.table

  unfoldable pub is_empty : World aq → Bool
  is_empty w = ClassTable.all_empty w.state.table

  unfoldable pub drain : World aq → Option (World aq)
  drain w = ClassTable.clear_all w.state.table >>= λ table.
      some (record w { state = record w.state { table = table } })

  unfoldable pub stats : World aq → Option Stats
  stats w = Stats.snapshot w.state.counters w.state.table.classes

  unfoldable pub reset_stats : World aq → World aq
  reset_stats w = record w { state = record w.state { counters = Stats.reset w.state.counters } }
