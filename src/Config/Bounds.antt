-- ===== src/Config/Bounds.antt =====
-- The defaults of config.rs against the ranges that the builder documents.
use zeropool.Base.{ℕ, ◌/◌, ◌≤◌, ◌<◌, arith, max, ◌≡◌, ◌+◌}
use zeropool.Config.{default_tls_cache_size, default_max_buffers_per_class, default_batch_size}

pub tls_cache_size_bounds :
    (cpus : ℕ) → (2 ≤ default_tls_cache_size cpus) × (default_tls_cache_size cpus ≤ 8)
unfolding default_tls_cache_size
tls_cache_size_bounds cpus = ground arith

pub max_buffers_bounds :
    (cpus : ℕ)
    → (32 ≤ default_max_buffers_per_class cpus) × (default_max_buffers_per_class cpus ≤ 128)
unfolding default_max_buffers_per_class
max_buffers_bounds cpus = ground arith

-- A default batch is half of the cache size and at least 2; a refill of that many never overfills an
-- empty cache of a positive size, since one buffer of the batch is handed out.
pub default_batch_size-fits :
    (n : ℕ) → (default_batch_size n ≡ max 2 (n / 2)) × (0 < n → default_batch_size n ≤ n + 1)
unfolding default_batch_size
default_batch_size-fits n = (ground arith, λ h. ground arith)

-- On every CPU count the cache defaults to 2 to 8 buffers per class, the shared classes to 32 to
-- 128, and the default batch is at least 2 and never larger than the cache.
pub defaults_in_range :
    (cpus : ℕ)
    → (2 ≤ default_tls_cache_size cpus)
      × (default_tls_cache_size cpus ≤ 8)
      × (32 ≤ default_max_buffers_per_class cpus)
      × (default_max_buffers_per_class cpus ≤ 128)
      × (2 ≤ default_batch_size (default_tls_cache_size cpus))
      × (default_batch_size (default_tls_cache_size cpus) ≤ default_tls_cache_size cpus)
unfolding default_tls_cache_size default_max_buffers_per_class default_batch_size
defaults_in_range cpus = ground arith
