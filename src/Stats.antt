-- ===== src/Stats.antt =====
-- stats.rs: the counters and their snapshot. A counter is an `AtomicU64` and wraps. A rate is kept as
-- the fraction that the code divides out; the rounding of the division is not modelled.
pub mod Rates
pub mod Display
mod Tests
use zeropool.Base.{
  ℕ, ◌+◌, ◌%◌, ◌^◌, List, map, Option, some, ◌>>◌, assert, ltb, ◌==◌, if◌then◌else◌, true,
}
use zeropool.ArrayQueue.{ArrayQueue}
use zeropool.SizeClass.{SizeClass}
use zeropool.SizeClass

pub record Counters : Type 0 where
  pub gets : ℕ
  pub tls_hits : ℕ
  pub shared_hits : ℕ
  pub allocations : ℕ
  pub puts : ℕ
  pub discards : ℕ
  pub oversize : ℕ

unfoldable pub new : Counters
new = record {
  gets = 0;
  tls_hits = 0;
  shared_hits = 0;
  allocations = 0;
  puts = 0;
  discards = 0;
  oversize = 0;
}

unfoldable pub reset : Counters → Counters
reset c = record c {
  gets = 0;
  tls_hits = 0;
  shared_hits = 0;
  allocations = 0;
  puts = 0;
  discards = 0;
  oversize = 0;
}

-- `fetch_add(1, Relaxed)` on one counter
abbrev pub fetch_add : ℕ → ℕ
fetch_add n = (n + 1) % 2 ^ 64

pub data Event : Type 0 where
  get tls_hit shared_hit allocation put discard oversized : Event

unfoldable pub count : Event → Counters → Counters
count get c = record c { gets = fetch_add c.gets }
count tls_hit c = record c { tls_hits = fetch_add c.tls_hits }
count shared_hit c = record c { shared_hits = fetch_add c.shared_hits }
count allocation c = record c { allocations = fetch_add c.allocations }
count put c = record c { puts = fetch_add c.puts }
count discard c = record c { discards = fetch_add c.discards }
count oversized c = record c { oversize = fetch_add c.oversize }

-- `over / under`
pub record Rate : Type 0 where
  pub over : ℕ
  pub under : ℕ

pub record ClassInfo : Type 0 where
  pub boundary : ℕ
  pub buffered : ℕ

pub record Stats : Type 0 where
  pub counters : Counters
  pub open counters use *
  pub tls_hit_rate : Rate
  pub hit_rate : Rate
  pub classes : List ClassInfo

rate : ℕ → ℕ → Rate
rate hits gets =
    if gets == 0 then record { over = 0; under = 1 } else record { over = hits; under = gets }

module _ {aq : ArrayQueue} where
  class_info : SizeClass aq → ClassInfo
  class_info class = record { boundary = class.class_size; buffered = SizeClass.len class }

  -- `none` is the overflow panic of `tls_hits + shared_hits` in a debug build, which the code reaches
  -- only if `gets` is not 0.
  unfoldable pub snapshot : Counters → List (SizeClass aq) → Option Stats
  unfolding rate class_info
  snapshot c classes = do
    assert (if c.gets == 0 then true else ltb (c.tls_hits + c.shared_hits) (2 ^ 64))
    some (record {
      counters = c;
      tls_hit_rate = rate c.tls_hits c.gets;
      hit_rate = rate (c.tls_hits + c.shared_hits) c.gets;
      classes = map class_info classes;
    })
