-- ===== src/Threads/Counts.antt =====
-- The statistics of stats.rs, counted by all threads at a pool.
use zeropool.Base.{◌≡◌, true}
use zeropool.Vec.{Vec}
use zeropool.ArrayQueue.{ArrayQueue}
use zeropool.Stats.{Stats}
use zeropool.Buf.{Buf}
use zeropool.Buf
use zeropool.Pool.Alloc.Counted.{AddsUp}
use zeropool.Session.{Session}
use zeropool.Threads.{Crew}

module _ {aq : ArrayQueue} where
  -- If statistics are on, hits and allocations add up to the calls.
  abbrev Even : Crew aq → Type 0
  Even c = c.state.track_stats ≡ true → AddsUp 0 c.state.counters
