-- ===== src/Route/Bits.antt =====
-- The bit width of a number against powers of two.
use native.Mathlib.Nat.{pow-suc, pow-zero}
use zeropool.Base.{ℕ, zero, suc, ◌-◌, ◌/◌, ◌^◌, ◌<◌, ◌≤◌, arith, ◌↔◌}
use zeropool.Route.{bit_width, leading_zeros, usize_bits}

pow-pos : (k : ℕ) → 0 < 2 ^ k
pow-pos zero = omega (arith, pow-zero 2)
pow-pos (suc k) = omega (arith, pow-suc 2 k, pow-pos k)

-- A number below 2^k has at most k bits.
bit_width-le : (w k x : ℕ) → x < 2 ^ k → bit_width w x ≤ k
unfolding bit_width
bit_width-le zero k x h = omega arith
bit_width-le (suc w) zero x h = ground (arith, pow-zero 2)
bit_width-le (suc w) (suc k) x h =
    let half : x < 2 ^ suc k → x / 2 < 2 ^ k = λ p. omega (arith, pow-suc 2 k) in
    ground (arith, bit_width-le w k (x / 2) (half h))

-- A number of at most k bits is below 2^k, if the loop has looked at all its bits.
bit_width-lt : (w k x : ℕ) → x < 2 ^ w → bit_width w x ≤ k → x < 2 ^ k
unfolding bit_width
bit_width-lt zero k x h e = omega (arith, pow-zero 2, pow-pos k)
bit_width-lt (suc w) zero x h e = ground (arith, pow-zero 2)
bit_width-lt (suc w) (suc k) x h e =
    ground (arith, pow-suc 2 k, pow-suc 2 w, pow-pos (suc k), bit_width-lt w k (x / 2))

-- The width that the code reads off `leading_zeros`, for a number that fits a `usize`.
abbrev pub width : ℕ → ℕ
width x = usize_bits - leading_zeros x

pub width-le_iff : (k x : ℕ) → x < 2 ^ 64 → (width x ≤ k) ↔ (x < 2 ^ k)
unfolding leading_zeros
width-le_iff k x h =
    let b : bit_width 64 x ≤ 64 = bit_width-le 64 64 x h in
    (λ e. bit_width-lt 64 k x h (omega arith), λ e. omega (arith, bit_width-le 64 k x e))
