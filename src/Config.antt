-- ===== src/Config.antt =====
-- config.rs: the defaults that depend on the number of CPUs.
pub mod Bounds
mod Tests
use zeropool.Base.{ℕ, ◌*◌, ◌/◌, leb, ltb, if◌then◌else◌, Option, none, some}

abbrev pub default_min_buffer_size : ℕ
default_min_buffer_size = 4 * 1024

unfoldable pub default_tls_cache_size : ℕ → ℕ
default_tls_cache_size num_cpus =
    if leb num_cpus 2 then 2 else if leb num_cpus 4 then 4 else if leb num_cpus 8 then 6 else 8

scaling : ℕ → ℕ
scaling num_cpus =
    if ltb num_cpus 16 then 1 else if ltb num_cpus 32 then 2 else if ltb num_cpus 64 then 3 else 4

unfoldable pub default_max_buffers_per_class : ℕ → ℕ
unfolding scaling
default_max_buffers_per_class num_cpus = 32 * scaling num_cpus

unfoldable pub default_batch_size : ℕ → ℕ
default_batch_size tls_cache_size = let half = tls_cache_size / 2 in if ltb half 2 then 2 else half

-- The argument is what `thread::available_parallelism` reports, `none` on an error.
unfoldable pub cpu_count : Option ℕ → ℕ
cpu_count none = 4
cpu_count (some n) = n
