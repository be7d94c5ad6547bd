-- ===== src/Route/Exact.antt =====
-- The two routing functions against a linear scan of the boundaries.
use zeropool.Base.{
  ℕ, ◌+◌, ◌-◌, ◌^◌, ◌<◌, ◌≡◌, arith, leb, if◌then◌else◌, List, [], ◌∷◌, Option, none, some,
}
use zeropool.Route.{class_sizes, route_size, route_capacity, div_ceil}
use zeropool.Route.Bits.{width-le_iff}

-- The first boundary that holds the size.
unfoldable pub scan_size : ℕ → ℕ → List ℕ → Option ℕ
scan_size size i [] = none
scan_size size i (b ∷ bs) = if leb size b then some i else scan_size size (i + 1) bs

-- The last boundary that the capacity reaches.
unfoldable pub scan_capacity : ℕ → ℕ → List ℕ → Option ℕ
scan_capacity capacity i [] = none
scan_capacity capacity i (b ∷ bs) = elim (scan_capacity capacity (i + 1) bs) [
  | some j ↦ some j
  | none ↦ if leb b capacity then some i else none
]

-- For every size below 2^64 `route_size` computes what a linear scan for the first boundary that
-- holds the size computes.
pub route_size-eq-scan : (size : ℕ) → size < 2 ^ 64 → route_size size ≡ scan_size size 0 class_sizes
unfolding route_size scan_size div_ceil
route_size-eq-scan size h = ground (
  arith,
  width-le_iff 12 (size - 1),
  width-le_iff 14 (size - 1),
  width-le_iff 16 (size - 1),
  width-le_iff 18 (size - 1),
  width-le_iff 20 (size - 1),
  width-le_iff 22 (size - 1),
  width-le_iff 24 (size - 1),
  width-le_iff 26 (size - 1),
)

-- For every capacity below 2^64 `route_capacity` computes what a linear scan for the last boundary
-- that the capacity reaches computes.
pub route_capacity-eq-scan :
    (capacity : ℕ)
    → capacity < 2 ^ 64
    → route_capacity capacity ≡ scan_capacity capacity 0 class_sizes
unfolding route_capacity scan_capacity
route_capacity-eq-scan c h = ground (
  arith,
  width-le_iff 12 c,
  width-le_iff 14 c,
  width-le_iff 16 c,
  width-le_iff 18 c,
  width-le_iff 20 c,
  width-le_iff 22 c,
  width-le_iff 24 c,
  width-le_iff 26 c,
)
