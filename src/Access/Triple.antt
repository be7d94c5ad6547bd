-- ===== src/Access/Triple.antt =====
-- What a call may rely on while other threads run between its accesses, and what it must leave to them.
-- A share says how much of each allocation the call holds: what it takes from a queue or from the
-- allocator is added to the share, and what it gives to a queue is taken from it.
pub mod Moves
pub mod Pool
pub mod Alloc
pub mod Dealloc
use zeropool.Base.{ℕ, ◌^◌, ◌+◌, ◌≤◌, ◌<◌, ◌≡◌, true, false, none, some, get_elem?}
use zeropool.Vec.{Vec, byte}
use zeropool.Route.{class_sizes}
use zeropool.SizeClass.Laws.{Serves}
use zeropool.Pool.Valid.{at}
use zeropool.Access.{
  Code, result, panic, pop_queue, push_queue, add_count, sub_count, add_stat, call_allocator,
  call_vec, lock, ◌>>=◌,
}

abbrev pub Share : Type 0
Share = ℕ → ℕ

abbrev pub plus : Share → Vec → Share
plus share v = λ p. share p + at p v

-- What the allocator's contract says of a buffer.
pub record Fresh (n : ℕ) (v : Vec) : Type 0 where
  pub long : n ≤ v.len
  pub room : v.len ≤ v.cap
  pub zeros : (i : ℕ) → i < n → v.cells i ≡ byte 0

module _ {A : Type 0} (Q : A → Share → Type 0) where
  -- Whatever the other threads do to the queues, as long as these hold buffers of their class only: the
  -- call does not panic, gives a queue only what serves its class and what the call holds, and ends with
  -- a result and a share that satisfy `Q`.
  abbrev pub Secures : Code A → Share → Type 0
  Secures (result a) share = Q a share
  Secures panic share = ⊥
  Secures (pop_queue i k) share =
      (size : ℕ) × (get_elem? class_sizes i ≡ some size)
      × ((v : Vec) → Serves size v → Secures (k (some v)) (plus share v))
      × Secures (k none) share
  Secures (push_queue i v k) share =
      (size : ℕ) × (get_elem? class_sizes i ≡ some size)
      × Serves size v
      × ((rest : Share) × ((p : ℕ) → rest p + at p v ≤ share p) × Secures (k true) rest)
      × Secures (k false) share
  Secures (add_count i k) share =
      ((size : ℕ) × (get_elem? class_sizes i ≡ some size)) × Secures k share
  Secures (sub_count i k) share =
      ((size : ℕ) × (get_elem? class_sizes i ≡ some size)) × Secures k share
  Secures (add_stat e k) share = Secures k share
  Secures (call_allocator n k) share =
      (n < 2 ^ 63) × ((v : Vec) → Fresh n v → Secures (k v) (plus share v))
  Secures (call_vec n k) share =
      (n < 2 ^ 63) × ((v : Vec) → n ≤ v.cap → Secures (k v) (plus share v))
  Secures (lock v k) share = Secures k share

-- A call in two parts: what the first ends with is what the second starts from.
Secures-bind :
    {A B : Type 0} (Q : B → Share → Type 0) (m : Code A) (f : A → Code B) (share : Share)
    → Secures (λ a rest. Secures Q (f a) rest) m share
    → Secures Q (m >>= f) share
unfolding ◌>>=◌
Secures-bind Q (result a) f share h = h
Secures-bind Q panic f share h = h
Secures-bind Q (pop_queue i k) f share (size, at_i, more, empty) = (
  size,
  at_i,
  λ v good. Secures-bind Q (k (some v)) f (plus share v) (more v good),
  Secures-bind Q (k none) f share empty,
)
Secures-bind Q (push_queue i v k) f share (size, at_i, good, (rest, gave, taken), full) = (
  size,
  at_i,
  good,
  (rest, gave, Secures-bind Q (k true) f rest taken),
  Secures-bind Q (k false) f share full,
)
Secures-bind Q (add_count i k) f share (h, later) = (h, Secures-bind Q k f share later)
Secures-bind Q (sub_count i k) f share (h, later) = (h, Secures-bind Q k f share later)
Secures-bind Q (add_stat e k) f share h = Secures-bind Q k f share h
Secures-bind Q (call_allocator n k) f share (small, h) =
    (small, λ v fresh. Secures-bind Q (k v) f (plus share v) (h v fresh))
Secures-bind Q (call_vec n k) f share (small, h) =
    (small, λ v large. Secures-bind Q (k v) f (plus share v) (h v large))
Secures-bind Q (lock v k) f share h = Secures-bind Q k f share h

-- A weaker claim on the result.
Secures-mono :
    {A : Type 0} (Q R : A → Share → Type 0) (m : Code A) (share : Share)
    → ((a : A) (rest : Share) → Q a rest → R a rest)
    → Secures Q m share
    → Secures R m share
Secures-mono Q R (result a) share weaken h = weaken a share h
Secures-mono Q R panic share weaken h = h
Secures-mono Q R (pop_queue i k) share weaken (size, at_i, more, empty) = (
  size,
  at_i,
  λ v good. Secures-mono Q R (k (some v)) (plus share v) weaken (more v good),
  Secures-mono Q R (k none) share weaken empty,
)
Secures-mono Q R (push_queue i v k) share weaken (size, at_i, good, (rest, gave, taken), full) = (
  size,
  at_i,
  good,
  (rest, gave, Secures-mono Q R (k true) rest weaken taken),
  Secures-mono Q R (k false) share weaken full,
)
Secures-mono Q R (add_count i k) share weaken (h, later) =
    (h, Secures-mono Q R k share weaken later)
Secures-mono Q R (sub_count i k) share weaken (h, later) =
    (h, Secures-mono Q R k share weaken later)
Secures-mono Q R (add_stat e k) share weaken h = Secures-mono Q R k share weaken h
Secures-mono Q R (call_allocator n k) share weaken (small, h) =
    (small, λ v fresh. Secures-mono Q R (k v) (plus share v) weaken (h v fresh))
Secures-mono Q R (call_vec n k) share weaken (small, h) =
    (small, λ v large. Secures-mono Q R (k v) (plus share v) weaken (h v large))
Secures-mono Q R (lock v k) share weaken h = Secures-mono Q R k share weaken h

-- The two together: what the first part ends with is enough for the second.
pub Secures-then :
    {A B : Type 0} (P : A → Share → Type 0) (Q : B → Share → Type 0) (m : Code A) (f : A → Code B)
    (share : Share)
    → Secures P m share
    → ((a : A) (rest : Share) → P a rest → Secures Q (f a) rest)
    → Secures Q (m >>= f) share
Secures-then P Q m f share first second =
    Secures-bind Q m f share (Secures-mono P (λ a rest. Secures Q (f a) rest) m share second first)
