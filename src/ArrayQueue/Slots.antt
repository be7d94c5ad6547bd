-- ===== src/ArrayQueue/Slots.antt =====
-- A bounded list that meets the laws of `ArrayQueue`, for concrete runs.
use zeropool.Base.{
  ℕ, ◌≤◌, ◌<◌, ◌≡◌, List, [], ◌∷◌, ◌++◌, Option, none, some, length, refl, ltb, if◌then◌else◌,
  arith, ◌==◌,
}
use zeropool.Vec.{Vec}
use zeropool.ArrayQueue.{ArrayQueue}

-- A queue that meets the laws: a list with its bound.
pub record Slots : Type 0 where
  pub held : List Vec
  pub bound : ℕ

abbrev pub slots_new : ℕ → Option Slots
slots_new n = if n == 0 then none else some (record { held = []; bound = n })

abbrev pub slots_push : Vec → Slots → Option Slots
slots_push v s =
    if ltb (length s.held) s.bound then some (record s { held = s.held ++ v ∷ [] }) else none

abbrev pub take_front : List Vec → ℕ → Option (Vec × Slots)
take_front [] n = none
take_front (v ∷ rest) n = some (v, record { held = rest; bound = n })

abbrev pub slots_pop : Slots → Option (Vec × Slots)
slots_pop s = take_front s.held s.bound

pub slots-push_room :
    (v : Vec) (s : Slots)
    → length s.held < s.bound
    → (r : Slots) × (slots_push v s ≡ some r) × (r.held ≡ s.held ++ v ∷ []) × (r.bound ≡ s.bound)
slots-push_room v s h = (record s { held = s.held ++ v ∷ [] }, ground arith, refl, refl)

pub slots-push_full : (v : Vec) (s : Slots) → s.bound ≤ length s.held → slots_push v s ≡ none
slots-push_full v s h = ground arith

pub slots-pop_front :
    (s : Slots) (v : Vec) (rest : List Vec)
    → s.held ≡ v ∷ rest
    → (r : Slots) × (slots_pop s ≡ some (v, r)) × (r.held ≡ rest) × (r.bound ≡ s.bound)
slots-pop_front s v rest h = (record s { held = rest }, rw (h, take_front), refl, refl)

pub slots-new_pos :
    (n : ℕ) → 0 < n → (s : Slots) × (slots_new n ≡ some s) × (s.held ≡ []) × (s.bound ≡ n)
slots-new_pos n h = (record { held = []; bound = n }, ground arith, refl, refl)

pub slots-pop_empty : (s : Slots) → s.held ≡ [] → slots_pop s ≡ none
slots-pop_empty s h = rw (h, take_front)

abbrev pub slots : ArrayQueue
slots = record {
  Queue = Slots;
  new = slots_new;
  push = slots_push;
  pop = slots_pop;
  items = λ s. s.held;
  capacity = λ s. s.bound;
  new_zero = refl;
  new_pos = slots-new_pos;
  push_room = slots-push_room;
  push_full = slots-push_full;
  pop_empty = slots-pop_empty;
  pop_front = slots-pop_front;
}
