-- ===== src/Base/Lists.antt =====
-- Lists indexed by native numbers, predicates over a list, and weighted sums of a list.
use Prim.Native.Nat.{ℕ, zero, suc, ◌+◌, ◌≤◌}
use mathlib.Core.Path.{◌≡◌, refl, ap, subst}
use mathlib.Core.Logic.{◌⊎◌, inl, inr}
use mathlib.Core.List.{List, [], ◌∷◌, ◌++◌}
use mathlib.Core.Option.{Option, none, some}
use native.Mathlib.Omega.{arith}

module _ {ℓ} {A : Type ℓ} where
  abbrev pub length : List A → ℕ
  length [] = 0
  length (x ∷ xs) = suc (length xs)

  -- `none` is an index out of bounds, where the code panics.
  abbrev pub get_elem? : List A → ℕ → Option A
  get_elem? [] i = none
  get_elem? (x ∷ xs) zero = some x
  get_elem? (x ∷ xs) (suc i) = get_elem? xs i

  abbrev pub set : List A → ℕ → A → List A
  set [] i v = []
  set (x ∷ xs) zero v = v ∷ xs
  set (x ∷ xs) (suc i) v = x ∷ set xs i v

  -- The sum of a weight over a list. Over all weights this is the list's multiset.
  abbrev pub tally : (A → ℕ) → List A → ℕ
  tally w [] = 0
  tally w (x ∷ xs) = w x + tally w xs

  pub tally-append : (w : A → ℕ) (xs ys : List A) → tally w (xs ++ ys) ≡ tally w xs + tally w ys
  tally-append w [] ys = omega arith
  tally-append w (x ∷ xs) ys = omega (arith, tally-append w xs ys)

  pub length-append : (xs ys : List A) → length (xs ++ ys) ≡ length xs + length ys
  length-append [] ys = omega arith
  length-append (x ∷ xs) ys = omega (arith, length-append xs ys)

  pub tally-set :
      (w : A → ℕ) (xs : List A) (i : ℕ) (old new : A)
      → get_elem? xs i ≡ some old
      → tally w (set xs i new) + w old ≡ tally w xs + w new
  tally-set w [] i old new h = cc
  tally-set w (x ∷ xs) zero old new h = ground arith
  tally-set w (x ∷ xs) (suc i) old new h = omega (arith, tally-set w xs i old new h)

  pub get_elem?-some :
      (xs : List A) (i : ℕ) → suc i ≤ length xs → (x : A) × (get_elem? xs i ≡ some x)
  get_elem?-some [] i h = absurd (omega arith)
  get_elem?-some (x ∷ xs) zero h = (x, refl)
  get_elem?-some (x ∷ xs) (suc i) h = get_elem?-some xs i (omega arith)

  pub get_elem?-set_self :
      (xs : List A) (i : ℕ) (old new : A)
      → get_elem? xs i ≡ some old
      → get_elem? (set xs i new) i ≡ some new
  get_elem?-set_self [] i old new h = cc
  get_elem?-set_self (x ∷ xs) zero old new h = refl
  get_elem?-set_self (x ∷ xs) (suc i) old new h = get_elem?-set_self xs i old new h

  abbrev pub remove : List A → ℕ → List A
  remove [] i = []
  remove (x ∷ xs) zero = xs
  remove (x ∷ xs) (suc i) = x ∷ remove xs i

  pub remove-eq_self : (xs : List A) (i : ℕ) → get_elem? xs i ≡ none → remove xs i ≡ xs
  remove-eq_self [] i h = refl
  remove-eq_self (x ∷ xs) zero h = cc
  remove-eq_self (x ∷ xs) (suc i) h = ap (λ ys. x ∷ ys) (remove-eq_self xs i h)

  pub tally-remove :
      (w : A → ℕ) (xs : List A) (i : ℕ) (x : A)
      → get_elem? xs i ≡ some x
      → tally w (remove xs i) + w x ≡ tally w xs
  tally-remove w [] i x h = cc
  tally-remove w (y ∷ xs) zero x h = ground arith
  tally-remove w (y ∷ xs) (suc i) x h = omega (arith, tally-remove w xs i x h)

  pub tally-remove_le : (w : A → ℕ) (xs : List A) (i : ℕ) → tally w (remove xs i) ≤ tally w xs
  tally-remove_le w [] i = omega arith
  tally-remove_le w (x ∷ xs) zero = omega arith
  tally-remove_le w (x ∷ xs) (suc i) = omega (arith, tally-remove_le w xs i)

  pub tally-get :
      (w : A → ℕ) (xs : List A) (i : ℕ) (x : A) → get_elem? xs i ≡ some x → w x ≤ tally w xs
  tally-get w xs i x h = omega (arith, tally-remove w xs i x h)

  -- Two places of a list weigh no more than the list.
  pub tally-two :
      (w : A → ℕ) (xs : List A) (i j : ℕ) (x y : A)
      → get_elem? xs i ≡ some x
      → get_elem? xs j ≡ some y
      → (i ≡ j → ⊥)
      → w x + w y ≤ tally w xs
  tally-two w [] i j x y h k ne = cc
  tally-two w (z ∷ xs) zero zero x y h k ne = absurd (ne refl)
  tally-two w (z ∷ xs) zero (suc j) x y h k ne = ground (arith, tally-get w xs j y k)
  tally-two w (z ∷ xs) (suc i) zero x y h k ne = ground (arith, tally-get w xs i x h)
  tally-two w (z ∷ xs) (suc i) (suc j) x y h k ne =
      omega (arith, tally-two w xs i j x y h k (λ e. ne (ap suc e)))

  pub get_elem?-lt : (xs : List A) (i : ℕ) (x : A) → get_elem? xs i ≡ some x → suc i ≤ length xs
  get_elem?-lt [] i x h = cc
  get_elem?-lt (y ∷ xs) zero x h = omega arith
  get_elem?-lt (y ∷ xs) (suc i) x h = omega (arith, get_elem?-lt xs i x h)

  pub List-cases : (xs : List A) → (xs ≡ []) ⊎ ((x : A) × (rest : List A) × (xs ≡ x ∷ rest))
  List-cases [] = inl refl
  List-cases (x ∷ rest) = inr (x, rest, refl)

  pub set_self : (xs : List A) (i : ℕ) (old : A) → get_elem? xs i ≡ some old → set xs i old ≡ xs
  set_self [] i old h = cc
  set_self (x ∷ xs) zero old h = let e : old ≡ x = cc in ap (λ y. y ∷ xs) e
  set_self (x ∷ xs) (suc i) old h = ap (λ ys. x ∷ ys) (set_self xs i old h)

  -- Of two writes at one index the second stays.
  pub set-set : (xs : List A) (i : ℕ) (a b : A) → set (set xs i a) i b ≡ set xs i b
  set-set [] i a b = refl
  set-set (x ∷ xs) zero a b = refl
  set-set (x ∷ xs) (suc i) a b = ap (λ ys. x ∷ ys) (set-set xs i a b)

abbrev pub All {ℓ κ} : {A : Type ℓ} → (A → Type κ) → List A → Type κ
All P [] = Unit
All P (x ∷ xs) = P x × All P xs

pub All-get {ℓ κ} :
    {A : Type ℓ} (P : A → Type κ) (xs : List A) (i : ℕ) (x : A)
    → All P xs
    → get_elem? xs i ≡ some x
    → P x
All-get P [] i x h e = cc
All-get P (y ∷ xs) zero x h e = let q : y ≡ x = cc in subst P q h.0
All-get P (y ∷ xs) (suc i) x h e = All-get P xs i x h.1 e

pub All-remove {ℓ κ} :
    {A : Type ℓ} (P : A → Type κ) (xs : List A) (i : ℕ) → All P xs → All P (remove xs i)
All-remove P [] i h = h
All-remove P (y ∷ xs) zero h = h.1
All-remove P (y ∷ xs) (suc i) h = (h.0, All-remove P xs i h.1)

pub All-set {ℓ κ} :
    {A : Type ℓ} (P : A → Type κ) (xs : List A) (i : ℕ) (x : A)
    → All P xs
    → P x
    → All P (set xs i x)
All-set P [] i x h p = h
All-set P (y ∷ xs) zero x h p = (p, h.1)
All-set P (y ∷ xs) (suc i) x h p = (h.0, All-set P xs i x h.1 p)

pub All-append {ℓ κ} :
    {A : Type ℓ} (P : A → Type κ) (xs ys : List A) → All P xs → All P ys → All P (xs ++ ys)
All-append P [] ys hx hy = hy
All-append P (x ∷ xs) ys hx hy = (hx.0, All-append P xs ys hx.1 hy)

module _ {ℓ} {A : Type ℓ} where
  abbrev pub take : ℕ → List A → List A
  take zero xs = []
  take (suc n) [] = []
  take (suc n) (x ∷ xs) = x ∷ take n xs

  abbrev pub drop : ℕ → List A → List A
  drop zero xs = xs
  drop (suc n) [] = []
  drop (suc n) (x ∷ xs) = drop n xs

  -- Pushes a list on a stack, one element after the other.
  abbrev pub stack : List A → List A → List A
  stack [] s = s
  stack (x ∷ xs) s = stack xs (x ∷ s)

  pub tally-stack : (w : A → ℕ) (xs s : List A) → tally w (stack xs s) ≡ tally w xs + tally w s
  tally-stack w [] s = omega arith
  tally-stack w (x ∷ xs) s = omega (arith, tally-stack w xs (x ∷ s))

  pub tally-take-drop :
      (w : A → ℕ) (n : ℕ) (xs : List A) → tally w (take n xs) + tally w (drop n xs) ≡ tally w xs
  tally-take-drop w zero xs = omega arith
  tally-take-drop w (suc n) [] = omega arith
  tally-take-drop w (suc n) (x ∷ xs) = omega (arith, tally-take-drop w n xs)

  pub length-stack-take : (n : ℕ) (xs s : List A) → length (stack (take n xs) s) ≤ n + length s
  length-stack-take zero xs s = omega arith
  length-stack-take (suc n) [] s = omega arith
  length-stack-take (suc n) (x ∷ xs) s = omega (arith, length-stack-take n xs (x ∷ s))

  pub All-stack-take {κ} :
      (P : A → Type κ) (n : ℕ) (xs s : List A) → All P xs → All P s → All P (stack (take n xs) s)
  All-stack-take P zero xs s h k = k
  All-stack-take P (suc n) [] s h k = k
  All-stack-take P (suc n) (x ∷ xs) s h k = All-stack-take P n xs (x ∷ s) h.1 (h.0, k)
