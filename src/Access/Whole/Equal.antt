-- ===== src/Access/Whole/Equal.antt =====
-- The calls of pool.rs access by access, uninterrupted, against the calls as a whole.
use mathlib.Core.Option
use zeropool.Base.{ℕ, ◌≡◌}
use zeropool.Vec.{Heap, Vec}
use zeropool.ArrayQueue.{ArrayQueue}
use zeropool.Buf
use zeropool.Pool.Alloc.{alloc, alloc_uninit}
use zeropool.Pool.Dealloc.{dealloc}
use zeropool.Pool.Admin.{warm}
use zeropool.Tls.{TlsState}
use zeropool.Access.{Shared, run}
use zeropool.Access.Calls.{alloc_code, alloc_uninit_code, dealloc_code, warm_code}
use zeropool.Access.Whole.{world_of}
use zeropool.Access.Whole.Guards.{guard_of}
use zeropool.Access.Whole.Alloc.{run-alloc_code}
use zeropool.Access.Whole.Uninit.{run-alloc_uninit_code}
use zeropool.Access.Whole.Dealloc.{world_after, run-dealloc_code}
use zeropool.Access.Whole.Warm.{run-warm_code}

-- A call that no other thread interrupts, run access by access, is the call as a whole: from every
-- state that threads share and every state of the calling thread, `alloc`, `alloc_uninit`,
-- `dealloc` and `warm` panic in the same cases, and otherwise return the same guard and leave the
-- same pool, thread state, allocation number and locked regions.
pub alone-whole :
    {aq : ArrayQueue} (heap : Heap) (size count hint : ℕ) (v : Vec) (tls : TlsState) (s : Shared aq)
    → (Option.map (guard_of Buf.new) (run heap (alloc_code s.state size tls) s)
        ≡ alloc size (world_of s tls))
      × (Option.map (guard_of Buf.new_uninit) (run heap (alloc_uninit_code s.state size tls) s)
          ≡ alloc_uninit heap size (world_of s tls))
      × (Option.map world_after (run heap (dealloc_code s.state v hint tls) s)
          ≡ dealloc v hint (world_of s tls))
      × (Option.map (λ r. world_of r.1 tls) (run heap (warm_code s.state count size) s)
          ≡ warm count size (world_of s tls))
alone-whole heap size count hint v tls s = (
  run-alloc_code heap size tls s,
  run-alloc_uninit_code heap size tls s,
  run-dealloc_code heap v hint tls s,
  run-warm_code heap count size tls s,
)
