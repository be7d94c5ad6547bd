-- ===== src/Base/Partial.antt =====
-- Code that may panic: `none` stands for a panic, and `do` stops at the first.
use mathlib.Core.Path.{◌≡◌, refl, subst}
use mathlib.Core.Bool.{Bool, true, false}
use mathlib.Core.Option.{Option, none, some}

infixl 5 ◌>>=◌ ◌>>◌
abbrev pub ◌>>=◌ {ℓ κ} : {A : Type ℓ} {B : Type κ} → Option A → (A → Option B) → Option B
none >>= f = none
some a >>= f = f a

abbrev pub ◌>>◌ {ℓ} : {B : Type ℓ} → Option (Unit {0}) → Option B → Option B
m >> k = m >>= λ _. k

-- `assert!` and `debug_assert!`
abbrev pub assert : Bool → Option (Unit {0})
assert true = some tt
assert false = none

-- The code returns, without a panic, and the result satisfies `P`.
module _ {A : Type 0} where
  abbrev pub Ensures : Option A → (A → Type 0) → Type 0
  Ensures none P = ⊥
  Ensures (some a) P = P a

  pub Ensures_of_eq : (m : Option A) (a : A) (P : A → Type 0) → m ≡ some a → P a → Ensures m P
  Ensures_of_eq m a P e p = rw e p

  pub Ensures_value : (m : Option A) (P : A → Type 0) → Ensures m P → (a : A) × (m ≡ some a) × P a
  Ensures_value none P h = absurd h
  Ensures_value (some a) P h = (a, refl, h)

  pub Ensures_mono :
      (m : Option A) (P Q : A → Type 0) → Ensures m P → ((a : A) → P a → Q a) → Ensures m Q
  Ensures_mono none P Q h f = absurd h
  Ensures_mono (some a) P Q h f = f a h

pub Ensures_bind :
    {A B : Type 0} (m : Option A) (P : A → Type 0) (f : A → Option B) (Q : B → Type 0)
    → Ensures m P
    → ((a : A) → P a → Ensures (f a) Q)
    → Ensures (m >>= f) Q
Ensures_bind none P f Q h k = absurd h
Ensures_bind (some a) P f Q h k = k a h

-- If the code returns, the result satisfies `P`.
abbrev pub IfSome : {A : Type 0} → (A → Type 0) → Option A → Type 0
IfSome P none = Unit {0}
IfSome P (some a) = P a

pub IfSome_value :
    {A : Type 0} (P : A → Type 0) (m : Option A) (a : A) → IfSome P m → m ≡ some a → P a
IfSome_value P none a h e = cc
IfSome_value P (some b) a h e = let q : b ≡ a = cc in subst P q h

pub IfSome-mono :
    {A : Type 0} (P Q : A → Type 0) (m : Option A) → IfSome P m → ((a : A) → P a → Q a) → IfSome Q m
IfSome-mono P Q none h f = tt
IfSome-mono P Q (some a) h f = f a h

pub IfSome-bind :
    {A B : Type 0} (P : A → Type 0) (Q : B → Type 0) (m : Option A) (f : A → Option B)
    → IfSome P m
    → ((a : A) → P a → IfSome Q (f a))
    → IfSome Q (m >>= f)
IfSome-bind P Q none f h k = tt
IfSome-bind P Q (some a) f h k = k a h
