-- ===== src/Config/Tests.antt =====
-- The defaults on a machine of eight CPUs.
use mathlib.Core.Path.{◌≡◌, refl}
use zeropool.Base.{◌≤◌}
use zeropool.Config.{default_tls_cache_size, default_max_buffers_per_class, default_batch_size}
use zeropool.Config.Bounds.{defaults_in_range}

eight_cpus :
    (default_tls_cache_size 8 ≡ 6)
    × (default_max_buffers_per_class 8 ≡ 32)
    × (default_batch_size 6 ≡ 3)
unfolding default_tls_cache_size default_max_buffers_per_class default_batch_size
eight_cpus = (refl, refl, refl)

defaults_in_range_example :
    (2 ≤ default_tls_cache_size 8)
    × (default_tls_cache_size 8 ≤ 8)
    × (32 ≤ default_max_buffers_per_class 8)
    × (default_max_buffers_per_class 8 ≤ 128)
    × (2 ≤ default_batch_size (default_tls_cache_size 8))
    × (default_batch_size (default_tls_cache_size 8) ≤ default_tls_cache_size 8)
defaults_in_range_example = defaults_in_range 8
