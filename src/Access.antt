-- ===== src/Access.antt =====
-- The calls of pool.rs as sequences of accesses to what threads share: the queues and counters of
-- size_class.rs, the statistics, the allocator, and the regions locked in memory. Between two accesses of
-- a call other threads may run. What only the calling thread reaches is computed in between.
pub mod Calls
pub mod Triple
pub mod System
pub mod Bounds
pub mod Whole
mod Tests
use zeropool.Base.{ℕ, suc, Bool, true, false, List, ◌∷◌, Option, none, some, get_elem?}
use zeropool.Vec.{Heap, Vec, with_capacity}
use zeropool.ArrayQueue.{ArrayQueue}
use zeropool.SizeClass.{SizeClass, fetch_add, fetch_sub}
use zeropool.Stats.{Event}
use zeropool.Stats
use zeropool.Pool.{State, put_class}

-- What is left of a call: its next access, and how it goes on with what the access yields.
pub data Code (A : Type 0) : Type 0 where
  result : A → Code A
  panic : Code A
  pop_queue : ℕ → (Option Vec → Code A) → Code A  -- `self.queue.pop()` of a class
  push_queue : ℕ → Vec → (Bool → Code A) → Code A  -- `self.queue.push(buf)` of a class
  add_count : ℕ → Code A → Code A  -- `self.count.fetch_add(1)` of a class
  sub_count : ℕ → Code A → Code A  -- `self.count.fetch_sub(1)` of a class
  add_stat : Event → Code A → Code A  -- `fetch_add(1)` of a statistics counter
  call_allocator : ℕ → (Vec → Code A) → Code A  -- `allocator.allocate(capacity)`
  call_vec : ℕ → (Vec → Code A) → Code A  -- `Vec::with_capacity(capacity)`
  lock : Vec → Code A → Code A  -- `region::lock(…)`

infixl 5 ◌>>=◌ ◌>>◌
unfoldable pub ◌>>=◌ : {A B : Type 0} → Code A → (A → Code B) → Code B
result a >>= f = f a
panic >>= f = panic
pop_queue i k >>= f = pop_queue i (λ o. k o >>= f)
push_queue i v k >>= f = push_queue i v (λ b. k b >>= f)
add_count i k >>= f = add_count i (k >>= f)
sub_count i k >>= f = sub_count i (k >>= f)
add_stat e k >>= f = add_stat e (k >>= f)
call_allocator n k >>= f = call_allocator n (λ v. k v >>= f)
call_vec n k >>= f = call_vec n (λ v. k v >>= f)
lock v k >>= f = lock v (k >>= f)

abbrev pub ◌>>◌ : {B : Type 0} → Code (Unit {0}) → Code B → Code B
m >> k = m >>= λ _. k

-- A computation on the thread alone, of which `none` is a panic.
abbrev pub locally : {A : Type 0} → Option A → Code A
locally none = panic
locally (some a) = result a

pub record Shared (aq : ArrayQueue) : Type 0 where
  pub state : State aq
  pub serial : ℕ
  pub locks : List (ℕ × ℕ)

module _ {aq : ArrayQueue} where
  abbrev pub put : ℕ → SizeClass aq → Shared aq → Shared aq
  put i class s = record s { state = put_class i class s.state }

  unfoldable pub pop_at : ℕ → Shared aq → Option (Option Vec × Shared aq)
  pop_at i s = elim (get_elem? s.state.table.classes i) [
    | none ↦ none
    | some class ↦ elim (aq.pop class.queue) [
      | none ↦ some (none, s)
      | some (buf, queue) ↦ some (some buf, put i (record class { queue = queue }) s)
    ]
  ]

  unfoldable pub push_at : ℕ → Vec → Shared aq → Option (Bool × Shared aq)
  push_at i buf s = elim (get_elem? s.state.table.classes i) [
    | none ↦ none
    | some class ↦ elim (aq.push buf class.queue) [
      | none ↦ some (false, s)
      | some queue ↦ some (true, put i (record class { queue = queue }) s)
    ]
  ]

  unfoldable pub count_at : (ℕ → ℕ) → ℕ → Shared aq → Option (Shared aq)
  count_at change i s = elim (get_elem? s.state.table.classes i) [
    | none ↦ none
    | some class ↦ some (put i (record class { count = change class.count }) s)
  ]

  unfoldable pub stat_at : Event → Shared aq → Shared aq
  stat_at e s = record s { state = record s.state { counters = Stats.count e s.state.counters } }

  -- The next access of a call; none is left of a call that has returned or panicked.
  module _ (heap : Heap) {A : Type 0} where
    unfoldable pub perform : Code A → Shared aq → Option (Code A × Shared aq)
    unfolding pop_at push_at count_at stat_at
    perform (result a) s = none
    perform panic s = none
    perform (pop_queue i k) s = elim (pop_at i s) [
      | none ↦ some (panic, s)
      | some (o, s') ↦ some (k o, s')
    ]
    perform (push_queue i v k) s = elim (push_at i v s) [
      | none ↦ some (panic, s)
      | some (b, s') ↦ some (k b, s')
    ]
    perform (add_count i k) s = elim (count_at fetch_add i s) [
      | none ↦ some (panic, s)
      | some s' ↦ some (k, s')
    ]
    perform (sub_count i k) s = elim (count_at fetch_sub i s) [
      | none ↦ some (panic, s)
      | some s' ↦ some (k, s')
    ]
    perform (add_stat e k) s = some (k, stat_at e s)
    perform (call_allocator n k) s = elim (s.state.allocator.allocate s.serial n) [
      | none ↦ some (panic, s)
      | some v ↦ some (k v, record s { serial = suc s.serial })
    ]
    perform (call_vec n k) s = elim (with_capacity heap s.serial n) [
      | none ↦ some (panic, s)
      | some v ↦ some (k v, record s { serial = suc s.serial })
    ]
    perform (lock v k) s = some (k, record s { locks = (v.ptr, v.cap) ∷ s.locks })

    -- A call that no other thread interrupts.
    unfoldable pub run : Code A → Shared aq → Option (A × Shared aq)
    unfolding pop_at push_at count_at stat_at
    run (result a) s = some (a, s)
    run panic s = none
    run (pop_queue i k) s = elim (pop_at i s) [ none ↦ none | some (o, s') ↦ run (k o) s' ]
    run (push_queue i v k) s = elim (push_at i v s) [ none ↦ none | some (b, s') ↦ run (k b) s' ]
    run (add_count i k) s = elim (count_at fetch_add i s) [ none ↦ none | some s' ↦ run k s' ]
    run (sub_count i k) s = elim (count_at fetch_sub i s) [ none ↦ none | some s' ↦ run k s' ]
    run (add_stat e k) s = run k (stat_at e s)
    run (call_allocator n k) s = elim (s.state.allocator.allocate s.serial n) [
      | none ↦ none
      | some v ↦ run (k v) (record s { serial = suc s.serial })
    ]
    run (call_vec n k) s = elim (with_capacity heap s.serial n) [
      | none ↦ none
      | some v ↦ run (k v) (record s { serial = suc s.serial })
    ]
    run (lock v k) s = run k (record s { locks = (v.ptr, v.cap) ∷ s.locks })
