-- ===== src/Pool/Reuse/Tests.antt =====
-- A return and an allocation by a thread whose caches are the pool's, and empty.
use zeropool.Base.{◌≡◌, refl, inr, [], some, arith}
use zeropool.Vec.{Vec, byte}
use zeropool.ArrayQueue.Slots.{slots}
use zeropool.SizeClass.Resize.{Zeroed}
use zeropool.Route
use zeropool.Tls.{no_caches}
use zeropool.Buf
use zeropool.Pool.{World}
use zeropool.Pool.Valid.{IsValid, own}
use zeropool.Pool.Sample.{start, start-IsValid}
use zeropool.Pool.Alloc.{alloc}
use zeropool.Pool.Dealloc.{dealloc}
use zeropool.Pool.Reuse.{dealloc-alloc}

abbrev claimed : World slots
claimed = record start { tls = record { pool_id = 1; caches = no_caches; limit = 2 } }

claimed-IsValid : IsValid claimed
claimed-IsValid = record {
  contract = start-IsValid.contract;
  table = start-IsValid.table;
  cache_size = start-IsValid.cache_size;
  cached = own refl (tt, (tt, (tt, (tt, (tt, (tt, (tt, (tt, tt)))))))) (omega arith);
}

abbrev filled : Vec
filled = record { ptr = 7; cells = λ i. byte 65; len = 9; cap = 4096 }

routes : Route.route_size 1024 ≡ some 0
unfolding Route.route_size Route.leading_zeros Route.bit_width Route.div_ceil
routes = refl

dealloc-alloc_example :
    (after : World slots) × (final : World slots) × (u : Vec) × (dealloc filled 0 claimed
      ≡ some after)
    × (alloc 1024 after ≡ some (Buf.new u 0, final))
    × (u.ptr ≡ 7)
    × (u.cap ≡ 4096)
    × Zeroed 1024 u
    × (final.tls ≡ claimed.tls)
    × (final.state.table ≡ claimed.state.table)
    × (final.serial ≡ claimed.serial)
dealloc-alloc_example =
    dealloc-alloc 1024 0 filled [] claimed claimed-IsValid refl (omega arith) routes
      (inr (4096, refl, omega arith)) (omega arith) refl (omega arith)
