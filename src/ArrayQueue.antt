-- ===== src/ArrayQueue.antt =====
-- crossbeam's `ArrayQueue<Vec<u8>>`, which the crate only calls: a bounded queue of which the laws
-- below are documented. `items` is what the queue holds, oldest first.
pub mod Slots
use zeropool.Base.{ℕ, ◌≤◌, ◌<◌, ◌≡◌, List, [], ◌∷◌, ◌++◌, Option, none, some, length}
use zeropool.Vec.{Vec}

pub record ArrayQueue : Type 1 where
  pub Queue : Type 0
  pub new : ℕ → Option Queue
  pub push : Vec → Queue → Option Queue
  pub pop : Queue → Option (Vec × Queue)
  pub items : Queue → List Vec
  pub capacity : Queue → ℕ
  pub new_zero : new 0 ≡ none
  pub new_pos : (n : ℕ) → 0 < n → (q : Queue) × (new n ≡ some q) × (items q ≡ []) × (capacity q ≡ n)
  pub push_room :
      (v : Vec) (q : Queue)
      → length (items q) < capacity q
      → (r : Queue) × (push v q ≡ some r)
        × (items r ≡ items q ++ v ∷ [])
        × (capacity r ≡ capacity q)
  pub push_full : (v : Vec) (q : Queue) → capacity q ≤ length (items q) → push v q ≡ none
  pub pop_empty : (q : Queue) → items q ≡ [] → pop q ≡ none
  pub pop_front :
      (q : Queue) (v : Vec) (rest : List Vec)
      → items q ≡ v ∷ rest
      → (r : Queue) × (pop q ≡ some (v, r)) × (items r ≡ rest) × (capacity r ≡ capacity q)
