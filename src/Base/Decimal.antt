-- ===== src/Base/Decimal.antt =====
-- Text as its bytes, and decimal numbers in it.
use Prim.Native.Char.{code}
use Prim.Native.String.{String}
use Prim.Native.Nat.{ℕ, zero, suc, ◌+◌, ◌-◌, ◌*◌, ◌/◌, ◌%◌, ◌≤◌}
use mathlib.Core.Path.{◌≡◌, refl, ◌∙◌}
use mathlib.Core.Logic.{inl, inr}
use mathlib.Core.Bool.{Bool, true, false, ◌&&◌}
use mathlib.Core.List.{List, [], ◌∷◌, ◌++◌}
use native.Mathlib.Omega.{arith}
use zeropool.Base.Tests.{leb, ◌==◌, if◌then◌else◌, Bool-cases, ==→eq}

abbrev pub Text : Type 0
Text = List ℕ

abbrev pub codes : String → Text
codes String.[] = []
codes (String.◌∷◌ c s) = code c ∷ codes s

-- The digits of `n` in front of a text; the number itself is fuel enough.
unfoldable pub digits : ℕ → ℕ → Text → Text
digits zero n out = out
digits (suc fuel) n out =
    let rest = digits fuel (n / 10) ((b'0' + n % 10) ∷ out) in if n == 0 then out else rest

-- `{}` of an unsigned number
unfoldable pub decimal : ℕ → Text
decimal n = if n == 0 then b'0' ∷ [] else digits n n []

abbrev pub is_digit : ℕ → Bool
is_digit c = leb b'0' c && leb c b'9'

-- Reads the digits at the head of a text.
pub scan : Text → ℕ → ℕ × Text
scan [] n = (n, [])
scan (c ∷ s) n = if is_digit c then scan s (n * 10 + (c - b'0')) else (n, c ∷ s)

abbrev pub StartsDigit : Text → Type 0
StartsDigit [] = ⊥
StartsDigit (c ∷ s) = is_digit c ≡ true

abbrev pub EndsDigits : Text → Type 0
EndsDigits [] = Unit {0}
EndsDigits (c ∷ s) = is_digit c ≡ false

digits-append :
    (fuel n : ℕ) (out rest : Text) → digits fuel n out ++ rest ≡ digits fuel n (out ++ rest)
unfolding digits
digits-append zero n out rest = refl
digits-append (suc fuel) n out rest =
    ground (arith, digits-append fuel (n / 10) ((b'0' + n % 10) ∷ out) rest)

digits-StartsDigit : (fuel n : ℕ) (out : Text) → StartsDigit out → StartsDigit (digits fuel n out)
unfolding digits
digits-StartsDigit zero n out h = h
digits-StartsDigit (suc fuel) n out h = elim (Bool-cases (n == 0)) [
  | inl done ↦ rw done h
  | inr more ↦ rw more (digits-StartsDigit fuel (n / 10) ((b'0' + n % 10) ∷ out) (ground arith))
]

decimal-append : (n : ℕ) (rest : Text) → (n == 0) ≡ false → decimal n ++ rest ≡ digits n n rest
unfolding decimal
decimal-append n rest more = rw more (digits-append n n [] rest)

pub decimal-StartsDigit : (n : ℕ) (rest : Text) → StartsDigit (decimal n ++ rest)
unfolding digits
decimal-StartsDigit zero rest = unfold decimal in refl
decimal-StartsDigit (suc n) rest =
    let more : (suc n == 0) ≡ false = ground arith in
    rw (decimal-append (suc n) rest more)
      (rw more (digits-StartsDigit n (suc n / 10) ((b'0' + suc n % 10) ∷ rest) (ground arith)))

scan-digits : (fuel n : ℕ) (out : Text) → n ≤ fuel → scan (digits fuel n out) 0 ≡ scan out n
unfolding digits scan
scan-digits zero n out h = let z : n ≡ 0 = omega arith in rw z
scan-digits (suc fuel) n out h = elim (Bool-cases (n == 0)) [
  | inl done ↦ ground arith
  | inr more ↦
      rw more (scan-digits fuel (n / 10) ((b'0' + n % 10) ∷ out) (ground arith) ∙ ground arith)
]

scan_stops : (rest : Text) (n : ℕ) → EndsDigits rest → scan rest n ≡ (n, rest)
unfolding scan
scan_stops [] n h = refl
scan_stops (c ∷ rest) n h = rw h

-- A printed number is read back, whatever follows that is not a digit.
pub scan-decimal : (n : ℕ) (rest : Text) → EndsDigits rest → scan (decimal n ++ rest) 0 ≡ (n, rest)
scan-decimal n rest h = elim (Bool-cases (n == 0)) [
  | inl e ↦ let z : n ≡ 0 = ==→eq n 0 e in rw z (unfold decimal scan in scan_stops rest 0 h)
  | inr more ↦
      rw (decimal-append n rest more) (scan-digits n n rest (omega arith) ∙ scan_stops rest n h)
]
