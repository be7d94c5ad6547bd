-- ===== src/Route.antt =====
-- size_class.rs, the routing of sizes: the class boundaries and the two functions that find a class
-- by the bit width of a size. A `usize` has 64 bits.

pub mod Bits
pub mod Exact
pub mod Bounds
mod Tests
use zeropool.Base.{
  ℕ, zero, suc, ◌+◌, ◌-◌, ◌*◌, ◌/◌, min, List, [], ◌∷◌, Option, none, some, leb, ltb, ◌==◌,
  if◌then◌else◌,
}

abbrev pub num_classes : ℕ
num_classes = 8

abbrev pub class_sizes : List ℕ
class_sizes =
    (4 * 1024)
    ∷ (16 * 1024)
    ∷ (64 * 1024)
    ∷ (256 * 1024)
    ∷ (1024 * 1024)
    ∷ (4 * 1024 * 1024)
    ∷ (16 * 1024 * 1024)
    ∷ (64 * 1024 * 1024)
    ∷ []

abbrev pub min_class_bits : ℕ
min_class_bits = 12

abbrev pub bits_per_step : ℕ
bits_per_step = 2

abbrev pub usize_bits : ℕ
usize_bits = 64

-- The position of the highest set bit, from 1; 0 for 0. `w` bounds the width.
unfoldable pub bit_width : ℕ → ℕ → ℕ
bit_width zero x = 0
bit_width (suc w) x = let rest = bit_width w (x / 2) in if x == 0 then 0 else suc rest

-- `usize::leading_zeros`
unfoldable pub leading_zeros : ℕ → ℕ
leading_zeros x = usize_bits - bit_width usize_bits x

-- `u32::div_ceil`
unfoldable pub div_ceil : ℕ → ℕ → ℕ
div_ceil a b = (a + b - 1) / b

unfoldable pub route_size : ℕ → Option ℕ
route_size size =
    if size == 0
    then some 0
    else (let bits = usize_bits - leading_zeros (size - 1) in
        if leb bits min_class_bits
        then some 0
        else (let class = div_ceil (bits - min_class_bits) bits_per_step in
            if ltb class num_classes then some class else none))

unfoldable pub route_capacity : ℕ → Option ℕ
route_capacity capacity =
    if ltb capacity (4 * 1024)
    then none
    else (let bits = usize_bits - leading_zeros capacity in
        let class = (bits - 1 - min_class_bits) / bits_per_step in
        some (min class (num_classes - 1)))
