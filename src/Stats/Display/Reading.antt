-- ===== src/Stats/Display/Reading.antt =====
-- A reader of the lines that stats.rs prints for the size classes.
use zeropool.Base.{
  ℕ, zero, suc, ◌-◌, ◌*◌, ◌/◌, ◌%◌, ◌<◌, ◌&&◌, ◌≡◌, refl, ap, ◌∙◌, sym, List, [], ◌∷◌, ◌++◌, Option,
  none, some, arith, ◌>>=◌, leb, ltb, ◌==◌, if◌then◌else◌, length, Bool-cases, inl, inr, Text,
  codes, decimal, scan, scan-decimal, decimal-StartsDigit, StartsDigit, EndsDigits,
}
use mathlib.Core.List.{append_assoc}
use zeropool.Stats.{ClassInfo}
use zeropool.Stats.Display.{format_size, spaces, pad_left, class_line, class_lines}

-- The number of bytes that a unit stands for, and what follows it.
read_unit : Text → Option (ℕ × Text)
read_unit [] = none
read_unit (c ∷ []) = if c == b'B' then some (1, []) else none
read_unit (c ∷ d ∷ s) =
    if c == b'B'
    then some (1, d ∷ s)
    else if c == b'K' && d == b'B'
    then some (1024, s)
    else if c == b'M' && d == b'B'
    then some (1024 * 1024, s)
    else none

-- A number with its unit.
read_size : Text → Option (ℕ × Text)
unfolding read_unit
read_size t = let (n, s) = scan t 0 in read_unit s >>= λ u. some (n * u.0, u.1)

-- The size that is left of a number of bytes in its unit.
shown : ℕ → ℕ
shown n =
    if leb (1024 * 1024) n then n - n % (1024 * 1024) else if leb 1024 n then n - n % 1024 else n

read_size_at :
    (q u : ℕ) (t s : Text)
    → EndsDigits t
    → read_unit t ≡ some (u, s)
    → read_size (decimal q ++ t) ≡ some (q * u, s)
unfolding read_size
read_size_at q u t s h e = rw (scan-decimal q t h) (rw e)

-- A size is read back, rounded down to its unit, before a bracket.
read_size-format_size :
    (n : ℕ) (rest : Text) → read_size (format_size n ++ b']' ∷ rest) ≡ some (shown n, b']' ∷ rest)
unfolding read_unit format_size shown
read_size-format_size n rest = elim (Bool-cases (leb (1024 * 1024) n)) [
  | inl large ↦ rw large (
      rw (append_assoc (decimal (n / (1024 * 1024))) (codes "MB") (b']' ∷ rest)) (
        read_size_at (n / (1024 * 1024)) (1024 * 1024) (codes "MB" ++ b']' ∷ rest) (b']' ∷ rest)
          refl refl
        ∙ ap (λ m. some (m, b']' ∷ rest)) (omega arith)))
  | inr small ↦ rw small (elim (Bool-cases (leb 1024 n)) [
    | inl middle ↦ rw middle (
        rw (append_assoc (decimal (n / 1024)) (codes "KB") (b']' ∷ rest)) (
          read_size_at (n / 1024) 1024 (codes "KB" ++ b']' ∷ rest) (b']' ∷ rest) refl refl
          ∙ ap (λ m. some (m, b']' ∷ rest)) (omega arith)))
    | inr tiny ↦ rw tiny (
        rw (append_assoc (decimal n) (codes "B") (b']' ∷ rest)) (
          read_size_at n 1 (codes "B" ++ b']' ∷ rest) (b']' ∷ rest) refl refl
          ∙ ap (λ m. some (m, b']' ∷ rest)) (omega arith)))
  ])
]

format_size-StartsDigit : (n : ℕ) (rest : Text) → StartsDigit (format_size n ++ rest)
unfolding format_size
format_size-StartsDigit n rest = elim (Bool-cases (leb (1024 * 1024) n)) [
  | inl large ↦ rw large (
      rw (append_assoc (decimal (n / (1024 * 1024))) (codes "MB") rest)
        (decimal-StartsDigit (n / (1024 * 1024)) (codes "MB" ++ rest)))
  | inr small ↦ rw small (elim (Bool-cases (leb 1024 n)) [
    | inl middle ↦ rw middle (
        rw (append_assoc (decimal (n / 1024)) (codes "KB") rest)
          (decimal-StartsDigit (n / 1024) (codes "KB" ++ rest)))
    | inr tiny ↦
        rw tiny (
          rw (append_assoc (decimal n) (codes "B") rest)
            (decimal-StartsDigit n (codes "B" ++ rest)))
  ])
]

skip_spaces : Text → Text
skip_spaces [] = []
skip_spaces (c ∷ s) = if c == b' ' then skip_spaces s else c ∷ s

skip_spaces-spaces : (n : ℕ) (t : Text) → StartsDigit t → skip_spaces (spaces n ++ t) ≡ t
unfolding skip_spaces
skip_spaces-spaces zero [] h = absurd h
skip_spaces-spaces zero (c ∷ s) h = ground arith
skip_spaces-spaces (suc n) t h = skip_spaces-spaces n t h

-- What follows a text at the head of another.
abbrev expect : Text → Text → Option Text
expect [] t = some t
expect (c ∷ p) [] = none
expect (c ∷ p) (d ∷ t) = if c == d then expect p t else none

-- The boundary and the count of one line.
read_class : Text → Option ((ℕ × ℕ) × Text)
unfolding read_size skip_spaces
read_class t = expect (codes "  [") t >>= λ t1. read_size (skip_spaces t1) >>= λ size.
    expect (codes "] ") size.1 >>= λ t2.
    expect (codes " buffered\n") (scan t2 0).1 >>= λ rest. some ((size.0, (scan t2 0).0), rest)

-- A line, with the brackets to the right.
class_line-append :
    (ci : ClassInfo) (rest : Text)
    → class_line ci ++ rest
      ≡ codes "  ["
        ++ (spaces (7 - length (format_size ci.boundary))
            ++ (format_size ci.boundary
                ++ (codes "] " ++ (decimal ci.buffered ++ (codes " buffered\n" ++ rest)))))
unfolding class_line pad_left
class_line-append ci rest = simp append_assoc

read_class-class_line :
    (ci : ClassInfo) (rest : Text)
    → read_class (class_line ci ++ rest) ≡ some ((shown ci.boundary, ci.buffered), rest)
unfolding read_class
read_class-class_line ci rest =
    let tail = decimal ci.buffered ++ (codes " buffered\n" ++ rest) in
    let text = format_size ci.boundary ++ (codes "] " ++ tail) in
    rw (class_line-append ci rest) (
      rw
        (skip_spaces-spaces (7 - length (format_size ci.boundary)) text
          (format_size-StartsDigit ci.boundary (codes "] " ++ tail)))
        (rw (read_size-format_size ci.boundary (b' ' ∷ tail))
          (rw (scan-decimal ci.buffered (codes " buffered\n" ++ rest) refl))))

-- All lines to the end of a text; fuel for one more than there are.
pub read_classes : ℕ → Text → Option (List (ℕ × ℕ))
read_classes zero t = none
read_classes (suc fuel) [] = some []
read_classes (suc fuel) (c ∷ t) =
    read_class (c ∷ t) >>= λ r. read_classes fuel r.1 >>= λ more. some (r.0 ∷ more)

-- The classes that hold a buffer, in order, with their boundaries as they are shown.
pub nonempty : List ClassInfo → List (ℕ × ℕ)
nonempty [] = []
nonempty (ci ∷ rest) =
    let later = nonempty rest in
    if ltb 0 ci.buffered then (shown ci.boundary, ci.buffered) ∷ later else later

read_classes_step :
    (fuel : ℕ) (ci : ClassInfo) (rest : Text)
    → read_classes (suc fuel) (class_line ci ++ rest)
      ≡ (read_classes fuel rest >>= λ more. some ((shown ci.boundary, ci.buffered) ∷ more))
unfolding read_classes
read_classes_step fuel ci rest =
    let head = read_class-class_line ci rest in
    let open_line = class_line-append ci rest in rw open_line (rw (sym open_line) (rw head))

-- A reader of the printed class lines, with fuel for one more than there are classes, finds exactly
-- the classes that hold a buffer, in order, each with its count and with its boundary rounded down
-- to the printed unit.
pub read_classes-class_lines :
    (fuel : ℕ) (infos : List ClassInfo)
    → length infos < fuel
    → read_classes fuel (class_lines infos) ≡ some (nonempty infos)
unfolding class_lines nonempty
read_classes-class_lines zero infos h = absurd (omega arith)
read_classes-class_lines (suc fuel) [] h = unfold read_classes in refl
read_classes-class_lines (suc fuel) (ci ∷ infos) h = elim (Bool-cases (ltb 0 ci.buffered)) [
  | inl some_held ↦ rw some_held (
      read_classes_step fuel ci (class_lines infos)
      ∙ rw (read_classes-class_lines fuel infos (omega arith)))
  | inr empty ↦ rw empty (read_classes-class_lines (suc fuel) infos (omega arith))
]
