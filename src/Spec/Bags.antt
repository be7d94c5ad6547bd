-- ===== src/Spec/Bags.antt =====
-- Bags of buffers, and runs of a specified pool.
use zeropool.Base.{ℕ, ◌+◌, ◌≡◌, refl, sym, ap, ◌∙◌, List, [], ◌∷◌, ◌++◌, arith, tally, tally-append}
use mathlib.Core.Quot
use mathlib.Core.Quot.{Quot, Quot-set}
use native.Mathlib.Nat.{ℕ_set}
use zeropool.Vec.{Vec}
use zeropool.Spec.{SameBuffers, Bag, bag_of, Call, Change}

SameBuffers-cons : (v : Vec) (xs ys : List Vec) → SameBuffers xs ys → SameBuffers (v ∷ xs) (v ∷ ys)
SameBuffers-cons v xs ys h weight = omega (arith, h weight)

pub put : Vec → Bag → Bag
put v =
    Quot.lift Quot-set (λ xs. bag_of (v ∷ xs)) (λ xs ys h. Quot.sound (SameBuffers-cons v xs ys h))

abbrev pub put_all : List Vec → Bag → Bag
put_all [] b = b
put_all (v ∷ vs) b = put v (put_all vs b)

pub put_all-bag_of : (vs xs : List Vec) → put_all vs (bag_of xs) ≡ bag_of (vs ++ xs)
unfolding put
put_all-bag_of [] xs = refl
put_all-bag_of (v ∷ vs) xs = ap (put v) (put_all-bag_of vs xs)

-- In a bag the order of insertion is an equation.
pub put_comm : (u v : Vec) (b : Bag) → put u (put v b) ≡ put v (put u b)
unfolding put
put_comm u v = Quot.ind (λ b. Quot-set _ _) (λ xs. Quot.sound (λ weight. omega arith))

-- The buffers of a bag, by a weight.
abbrev pub weigh : (Vec → ℕ) → Bag → ℕ
weigh f = Quot.lift ℕ_set (tally f) (λ xs ys h. h f)

pub weigh-put : (f : Vec → ℕ) (v : Vec) (b : Bag) → weigh f (put v b) ≡ f v + weigh f b
unfolding put
weigh-put f v = Quot.ind (λ b. ℕ_set _ _) (λ xs. refl)

-- Of two bags: the first, with what came in, is the second with what went out.
abbrev pub Turns : Bag → Bag → List Vec → List Vec → Type 0
Turns before after out come = put_all out after ≡ put_all come before

-- A change of lists that weighs the same is a change of their bags.
pub Turns-of_tally :
    (xs ys out come : List Vec)
    → ((weight : Vec → ℕ)
        → tally weight ys + tally weight out ≡ tally weight xs + tally weight come)
    → Turns (bag_of xs) (bag_of ys) out come
Turns-of_tally xs ys out come h =
    put_all-bag_of out ys
    ∙ Quot.sound
        (λ weight. omega (arith, h weight, tally-append weight out ys, tally-append weight come xs))
    ∙ sym (put_all-bag_of come xs)

-- A pool to its clients: the bag, the count of allocations, and the guards.
pub record Store : Type 0 where
  pub bag : Bag
  pub next : ℕ
  pub live : List (Vec × ℕ)

-- A run of these calls, the latest first.
pub data Trace (s : Store) : List Call → Store → Type 0 where
  still : Trace s [] s
  changed :
      {t u : Store} {calls : List Call} {call : Call}
      → Trace s calls t
      → Change (Turns t.bag u.bag) t.next t.live call u.next u.live
      → Trace s (call ∷ calls) u
