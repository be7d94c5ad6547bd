-- ===== src/Base/Indexed.antt =====
-- Two lists that correspond index by index: sizes and the records that stand at the same index.
use Prim.Native.Nat.{ℕ, zero, suc}
use mathlib.Core.Path.{◌≡◌, refl, subst}
use mathlib.Core.List.{List, [], ◌∷◌}
use mathlib.Core.Option.{some}
use zeropool.Base.Lists.{get_elem?, set, remove}

module _ {A B : Type 0} (P : A → B → Type 0) where
  abbrev pub Each : List A → List B → Type 0
  Each [] [] = Unit
  Each [] (b ∷ bs) = ⊥
  Each (a ∷ keys) [] = ⊥
  Each (a ∷ keys) (b ∷ bs) = P a b × Each keys bs

  -- An index of the first list is in bounds for the second.
  pub Each-get :
      (i : ℕ) (keys : List A) (bs : List B) (a : A)
      → Each keys bs
      → get_elem? keys i ≡ some a
      → (b : B) × (get_elem? bs i ≡ some b) × P a b
  Each-get i [] [] a h e = cc
  Each-get i [] (b ∷ bs) a h e = absurd h
  Each-get i (k ∷ keys) [] a h e = absurd h
  Each-get zero (k ∷ keys) (b ∷ bs) a h e =
      let q : k ≡ a = cc in (b, refl, subst (λ x. P x b) q h.0)
  Each-get (suc i) (k ∷ keys) (b ∷ bs) a h e = Each-get i keys bs a h.1 e

  pub Each-set :
      (i : ℕ) (keys : List A) (bs : List B) (a : A) (b : B)
      → Each keys bs
      → get_elem? keys i ≡ some a
      → P a b
      → Each keys (set bs i b)
  Each-set i [] [] a b h e p = cc
  Each-set i [] (x ∷ bs) a b h e p = absurd h
  Each-set i (k ∷ keys) [] a b h e p = absurd h
  Each-set zero (k ∷ keys) (x ∷ bs) a b h e p = let q : a ≡ k = cc in (subst (λ y. P y b) q p, h.1)
  Each-set (suc i) (k ∷ keys) (x ∷ bs) a b h e p = (h.0, Each-set i keys bs a b h.1 e p)

  -- A pair replaced, or taken away, at one index.
  pub Each-replace :
      (i : ℕ) (keys : List A) (bs : List B) (a : A) (b : B)
      → Each keys bs
      → P a b
      → Each (set keys i a) (set bs i b)
  Each-replace i [] [] a b h p = tt
  Each-replace i [] (x ∷ bs) a b h p = absurd h
  Each-replace i (k ∷ keys) [] a b h p = absurd h
  Each-replace zero (k ∷ keys) (x ∷ bs) a b h p = (p, h.1)
  Each-replace (suc i) (k ∷ keys) (x ∷ bs) a b h p = (h.0, Each-replace i keys bs a b h.1 p)

  pub Each-remove :
      (i : ℕ) (keys : List A) (bs : List B) → Each keys bs → Each (remove keys i) (remove bs i)
  Each-remove i [] [] h = tt
  Each-remove i [] (x ∷ bs) h = absurd h
  Each-remove i (k ∷ keys) [] h = absurd h
  Each-remove zero (k ∷ keys) (x ∷ bs) h = h.1
  Each-remove (suc i) (k ∷ keys) (x ∷ bs) h = (h.0, Each-remove i keys bs h.1)

pub Each-mono :
    {A B : Type 0} (P Q : A → B → Type 0)
    → ((a : A) (b : B) → P a b → Q a b)
    → (keys : List A) (bs : List B) → Each P keys bs
    → Each Q keys bs
Each-mono P Q weaken [] [] h = tt
Each-mono P Q weaken [] (b ∷ bs) h = absurd h
Each-mono P Q weaken (a ∷ keys) [] h = absurd h
Each-mono P Q weaken (a ∷ keys) (b ∷ bs) h = (weaken a b h.0, Each-mono P Q weaken keys bs h.1)
