-- ===== src/Access/Bounds.antt =====
-- How many accesses a call of pool.rs makes, whatever other threads do in between.
pub mod Moves
pub mod Calls
use zeropool.Base.{
  Bool, true, false, List, [], ◌∷◌, ℕ, zero, suc, ◌+◌, ◌-◌, ◌≤◌, ◌<◌, ◌≡◌, subst, inl, inr, Bool,
  true, false, List, [], ◌∷◌, Option, none, some, arith, Option-cases, IfSome, IfSome_value,
}
use zeropool.Vec.{Heap, Vec, with_capacity}
use zeropool.ArrayQueue.{ArrayQueue}
use zeropool.SizeClass.{fetch_add, fetch_sub}
use zeropool.Access.{
  Code, result, panic, pop_queue, push_queue, add_count, sub_count, add_stat, call_allocator,
  call_vec, lock, ◌>>=◌, locally, Shared, pop_at, push_at, count_at, perform,
}

module _ {A : Type 0} where
  abbrev pub AtMost : ℕ → Code A → Type 0
  AtMost n (result a) = Unit
  AtMost n panic = Unit
  AtMost n (pop_queue i k) = (0 < n) × ((o : Option Vec) → AtMost (n - 1) (k o))
  AtMost n (push_queue i v k) = (0 < n) × ((b : Bool) → AtMost (n - 1) (k b))
  AtMost n (add_count i k) = (0 < n) × AtMost (n - 1) k
  AtMost n (sub_count i k) = (0 < n) × AtMost (n - 1) k
  AtMost n (add_stat e k) = (0 < n) × AtMost (n - 1) k
  AtMost n (call_allocator m k) = (0 < n) × ((v : Vec) → AtMost (n - 1) (k v))
  AtMost n (call_vec m k) = (0 < n) × ((v : Vec) → AtMost (n - 1) (k v))
  AtMost n (lock v k) = (0 < n) × AtMost (n - 1) k

  -- The accesses that a call makes, with the shared state at each as other threads left it.
  pub data Accesses (aq : ArrayQueue) (heap : Heap) (code : Code A) : ℕ → Code A → Type 0 where
    begun : Accesses aq heap code 0 code
    made :
        {n : ℕ} {code' code'' : Code A} (s s' : Shared aq)
        → Accesses aq heap code n code'
        → perform heap code' s ≡ some (code'', s')
        → Accesses aq heap code (suc n) code''

  AtMost-mono : (n m : ℕ) (code : Code A) → n ≤ m → AtMost n code → AtMost m code
  AtMost-mono n m (result a) le h = tt
  AtMost-mono n m panic le h = tt
  AtMost-mono n m (pop_queue i k) le (pos, h) =
      (omega arith, λ o. AtMost-mono (n - 1) (m - 1) (k o) (omega arith) (h o))
  AtMost-mono n m (push_queue i v k) le (pos, h) =
      (omega arith, λ b. AtMost-mono (n - 1) (m - 1) (k b) (omega arith) (h b))
  AtMost-mono n m (add_count i k) le (pos, h) =
      (omega arith, AtMost-mono (n - 1) (m - 1) k (omega arith) h)
  AtMost-mono n m (sub_count i k) le (pos, h) =
      (omega arith, AtMost-mono (n - 1) (m - 1) k (omega arith) h)
  AtMost-mono n m (add_stat e k) le (pos, h) =
      (omega arith, AtMost-mono (n - 1) (m - 1) k (omega arith) h)
  AtMost-mono n m (call_allocator c k) le (pos, h) =
      (omega arith, λ v. AtMost-mono (n - 1) (m - 1) (k v) (omega arith) (h v))
  AtMost-mono n m (call_vec c k) le (pos, h) =
      (omega arith, λ v. AtMost-mono (n - 1) (m - 1) (k v) (omega arith) (h v))
  AtMost-mono n m (lock v k) le (pos, h) =
      (omega arith, AtMost-mono (n - 1) (m - 1) k (omega arith) h)

  -- An access uses up one of the bound.
  module _ {aq : ArrayQueue} (heap : Heap) where
    spend :
        (n : ℕ) (code : Code A) (s : Shared aq)
        → AtMost n code
        → IfSome (λ (r : Code A × Shared aq). (0 < n) × AtMost (n - 1) r.0) (perform heap code s)
    unfolding perform
    spend n (result a) s h = tt
    spend n panic s h = tt
    spend n (pop_queue i k) s (pos, h) = elim (Option-cases (pop_at i s)) [
      | inl out ↦ rw (out, perform) (pos, tt)
      | inr ((o, s'), e) ↦ rw (e, perform) (pos, h o)
    ]
    spend n (push_queue i v k) s (pos, h) = elim (Option-cases (push_at i v s)) [
      | inl out ↦ rw (out, perform) (pos, tt)
      | inr ((b, s'), e) ↦ rw (e, perform) (pos, h b)
    ]
    spend n (add_count i k) s (pos, h) = elim (Option-cases (count_at fetch_add i s)) [
      | inl out ↦ rw (out, perform) (pos, tt)
      | inr (s', e) ↦ rw (e, perform) (pos, h)
    ]
    spend n (sub_count i k) s (pos, h) = elim (Option-cases (count_at fetch_sub i s)) [
      | inl out ↦ rw (out, perform) (pos, tt)
      | inr (s', e) ↦ rw (e, perform) (pos, h)
    ]
    spend n (add_stat e k) s (pos, h) = (pos, h)
    spend n (call_allocator c k) s (pos, h) =
        elim (Option-cases (s.state.allocator.allocate s.serial c)) [
          | inl refused ↦ rw (refused, perform) (pos, tt)
          | inr (v, answered) ↦ rw (answered, perform) (pos, h v)
        ]
    spend n (call_vec c k) s (pos, h) = elim (Option-cases (with_capacity heap s.serial c)) [
      | inl refused ↦ rw (refused, perform) (pos, tt)
      | inr (v, answered) ↦ rw (answered, perform) (pos, h v)
    ]
    spend n (lock v k) s (pos, h) = (pos, h)

    pub Accesses-le :
        (bound n : ℕ) (code code' : Code A)
        → AtMost bound code
        → Accesses aq heap code n code'
        → (n ≤ bound) × AtMost (bound - n) code'
    Accesses-le bound zero code code' h begun =
        (omega arith, subst (λ m. AtMost m code) (omega arith) h)
    Accesses-le bound (suc n) code code' h (made {code' = before} s s' run access) =
        let (fits, rest) = Accesses-le bound n code before h run in
        let (pos, less) = IfSome_value _ _ (code', s') (spend (bound - n) before s rest) access in
        (omega arith, subst (λ m. AtMost m code') (omega arith) less)

-- What holds of each case holds of all.
pub for_option :
    {A : Type 0} (P : Option A → Type 0) → P none → ((a : A) → P (some a)) → (o : Option A) → P o
for_option P at_none at_some none = at_none
for_option P at_none at_some (some a) = at_some a

pub for_list :
    {A : Type 0} (P : List A → Type 0)
    → P []
    → ((x : A) (xs : List A) → P (x ∷ xs))
    → (xs : List A) → P xs
for_list P at_nil at_cons [] = at_nil
for_list P at_nil at_cons (x ∷ xs) = at_cons x xs

pub for_bool : (P : Bool → Type 0) → P true → P false → (b : Bool) → P b
for_bool P at_true at_false true = at_true
for_bool P at_true at_false false = at_false

module _ {A B : Type 0} where
  AtMost-bind :
      (n m : ℕ) (code : Code A) (f : A → Code B)
      → AtMost n code
      → ((a : A) → AtMost m (f a))
      → AtMost (n + m) (code >>= f)
  unfolding ◌>>=◌
  AtMost-bind n m (result a) f h later = AtMost-mono m (n + m) (f a) (omega arith) (later a)
  AtMost-bind n m panic f h later = tt
  AtMost-bind n m (pop_queue i k) f (pos, h) later = (
    omega arith,
    λ o.
        AtMost-mono (n - 1 + m) (n + m - 1) (k o >>= f) (omega arith)
          (AtMost-bind (n - 1) m (k o) f (h o) later),
  )
  AtMost-bind n m (push_queue i v k) f (pos, h) later = (
    omega arith,
    λ b.
        AtMost-mono (n - 1 + m) (n + m - 1) (k b >>= f) (omega arith)
          (AtMost-bind (n - 1) m (k b) f (h b) later),
  )
  AtMost-bind n m (add_count i k) f (pos, h) later = (
    omega arith,
    AtMost-mono (n - 1 + m) (n + m - 1) (k >>= f) (omega arith) (AtMost-bind (n - 1) m k f h later),
  )
  AtMost-bind n m (sub_count i k) f (pos, h) later = (
    omega arith,
    AtMost-mono (n - 1 + m) (n + m - 1) (k >>= f) (omega arith) (AtMost-bind (n - 1) m k f h later),
  )
  AtMost-bind n m (add_stat e k) f (pos, h) later = (
    omega arith,
    AtMost-mono (n - 1 + m) (n + m - 1) (k >>= f) (omega arith) (AtMost-bind (n - 1) m k f h later),
  )
  AtMost-bind n m (call_allocator c k) f (pos, h) later = (
    omega arith,
    λ v.
        AtMost-mono (n - 1 + m) (n + m - 1) (k v >>= f) (omega arith)
          (AtMost-bind (n - 1) m (k v) f (h v) later),
  )
  AtMost-bind n m (call_vec c k) f (pos, h) later = (
    omega arith,
    λ v.
        AtMost-mono (n - 1 + m) (n + m - 1) (k v >>= f) (omega arith)
          (AtMost-bind (n - 1) m (k v) f (h v) later),
  )
  AtMost-bind n m (lock v k) f (pos, h) later = (
    omega arith,
    AtMost-mono (n - 1 + m) (n + m - 1) (k >>= f) (omega arith) (AtMost-bind (n - 1) m k f h later),
  )

  -- In sequence, within a given bound.
  pub AtMost-then :
      (total n m : ℕ) (code : Code A) (f : A → Code B)
      → n + m ≤ total
      → AtMost n code
      → ((a : A) → AtMost m (f a))
      → AtMost total (code >>= f)
  AtMost-then total n m code f fits h later =
      AtMost-mono (n + m) total (code >>= f) fits (AtMost-bind n m code f h later)

  pub AtMost-locally :
      (n : ℕ) (o : Option A) (f : A → Code B)
      → ((a : A) → AtMost n (f a))
      → AtMost n (locally o >>= f)
  unfolding ◌>>=◌
  AtMost-locally n none f h = tt
  AtMost-locally n (some a) f h = h a
