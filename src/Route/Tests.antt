-- ===== src/Route/Tests.antt =====
-- The routing functions at the boundaries that the source's own tests name, and the theorems on them
-- at concrete sizes.
use Prim.Native.Nat.{ℕ, ◌+◌, ◌*◌, ◌≤◌}
use mathlib.Core.Path.{◌≡◌, refl}
use mathlib.Core.Option.{none, some}
use native.Mathlib.Omega.{arith}
use zeropool.Base.{get_elem?}
use zeropool.Route.{class_sizes, route_size, route_capacity, leading_zeros, bit_width, div_ceil}
use zeropool.Route.Exact.{scan_size, scan_capacity, route_size-eq-scan, route_capacity-eq-scan}
use zeropool.Route.Bounds.{route_size-fits, route_capacity-route_size}

route_size_boundaries :
    (route_size 0 ≡ some 0)
    × (route_size 4096 ≡ some 0)
    × (route_size 4097 ≡ some 1)
    × (route_size 65536 ≡ some 2)
    × (route_size (64 * 1024 * 1024) ≡ some 7)
    × (route_size (64 * 1024 * 1024 + 1) ≡ none)
unfolding route_size leading_zeros bit_width div_ceil
route_size_boundaries = (refl, refl, refl, refl, refl, refl)

route_capacity_boundaries :
    (route_capacity 4095 ≡ none)
    × (route_capacity 4097 ≡ some 0)
    × (route_capacity 16383 ≡ some 0)
    × (route_capacity (64 * 1024 * 1024 + 1) ≡ some 7)
unfolding route_capacity leading_zeros bit_width
route_capacity_boundaries = (refl, refl, refl, refl)

route_size-eq-scan_example : route_size 4097 ≡ scan_size 4097 0 class_sizes
route_size-eq-scan_example = route_size-eq-scan 4097 (omega arith)

route_capacity-eq-scan_example : route_capacity 70000 ≡ scan_capacity 70000 0 class_sizes
route_capacity-eq-scan_example = route_capacity-eq-scan 70000 (omega arith)

route_size-fits_example : (b : ℕ) × (get_elem? class_sizes 1 ≡ some b) × (5000 ≤ b)
unfolding route_size leading_zeros bit_width div_ceil
route_size-fits_example = route_size-fits 5000 1 (omega arith) refl

route_capacity-route_size_example :
    (5000 ≤ 70000) × ((j : ℕ) × (route_capacity 70000 ≡ some j) × (1 ≤ j))
unfolding route_size leading_zeros bit_width div_ceil
route_capacity-route_size_example =
    route_capacity-route_size 5000 70000 1 (16 * 1024) (omega arith) (omega arith) refl refl
      (omega arith)
