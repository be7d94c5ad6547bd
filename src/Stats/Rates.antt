-- ===== src/Stats/Rates.antt =====
-- The rates of a snapshot of stats.rs.
use zeropool.Base.{◌+◌, ◌^◌, ◌<◌, ◌≡◌, List, some, arith, map}
use zeropool.ArrayQueue.{ArrayQueue}
use zeropool.SizeClass.{SizeClass}
use zeropool.Stats.{Counters, Stats, snapshot, rate, class_info}

-- Where hits and allocations add up to the calls, all below 2^64, `snapshot` returns. If there were calls,
-- both rates are out of all calls: the overall one leaves exactly the allocations, and that of the threads'
-- caches leaves the shared hits of it. Otherwise both are 0.
pub snapshot-rates :
    {aq : ArrayQueue} (c : Counters) (classes : List (SizeClass aq))
    → c.tls_hits + c.shared_hits + c.allocations ≡ c.gets
    → c.gets < 2 ^ 64
    → (s : Stats) × (snapshot c classes ≡ some s)
      × (s.hit_rate.over + c.allocations ≡ c.gets)
      × (s.tls_hit_rate.over + c.shared_hits ≡ s.hit_rate.over)
      × (0 < c.gets → s.hit_rate.under ≡ c.gets)
      × (s.tls_hit_rate.under ≡ s.hit_rate.under)
      × (0 < s.hit_rate.under)
unfolding snapshot rate
snapshot-rates c classes sums small =
    let shown : Stats = record {
      counters = c;
      tls_hit_rate = rate c.tls_hits c.gets;
      hit_rate = rate (c.tls_hits + c.shared_hits) c.gets;
      classes = map class_info classes;
    } in
    (
      shown,
      ground arith,
      ground arith,
      ground arith,
      λ pos. ground arith,
      ground arith,
      ground arith,
    )
