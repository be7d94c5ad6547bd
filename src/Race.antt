-- ===== src/Race.antt =====
-- The threads inside `push`, `pop` and `clear` of size_class.rs's `SizeClass`. The queue and the counter
-- are separate atomics, so between the two accesses of a call another thread may run.
pub mod Counter
pub mod Drift
pub mod Work
pub mod Finish
mod Tests
use zeropool.Base.{ℕ, ◌≡◌, Bool, true, List, none, some, get_elem?, set}
use zeropool.Vec.{Vec}
use zeropool.ArrayQueue.{ArrayQueue}
use zeropool.SizeClass.{SizeClass, fetch_add, fetch_sub}

-- Where a thread stands.
pub data Pc : Type 0 where
  idle : Pc  -- in no call
  pushed : Pc  -- in `push`, before `fetch_add`
  popped : Pc  -- in `pop`, before `fetch_sub`
  clearing : Pc  -- in the loop of `clear`
  drained : Pc  -- in `clear`, before the store

-- One access of one thread to the class.
pub data Move {aq : ArrayQueue} (c : SizeClass aq) : Pc → SizeClass aq → Pc → Type 0 where
  push_ok :
      (buf : Vec) (q : aq.Queue)
      → aq.push buf c.queue ≡ some q
      → Move c idle (record c { queue = q }) pushed
  push_full : (buf : Vec) → aq.push buf c.queue ≡ none → Move c idle c idle
  add : Move c pushed (record c { count = fetch_add c.count }) idle
  pop_ok :
      (buf : Vec) (q : aq.Queue)
      → aq.pop c.queue ≡ some (buf, q)
      → Move c idle (record c { queue = q }) popped
  pop_empty : aq.pop c.queue ≡ none → Move c idle c idle
  sub : Move c popped (record c { count = fetch_sub c.count }) idle

-- The accesses of `clear`.
pub data ClearMove {aq : ArrayQueue} (c : SizeClass aq) : Pc → SizeClass aq → Pc → Type 0 where
  clear_enter : ClearMove c idle c clearing
  clear_pop :
      (buf : Vec) (q : aq.Queue)
      → aq.pop c.queue ≡ some (buf, q)
      → ClearMove c clearing (record c { queue = q }) clearing
  clear_end : aq.pop c.queue ≡ none → ClearMove c clearing c drained
  clear_store : ClearMove c drained (record c { count = 0 }) idle

pub record System (aq : ArrayQueue) : Type 0 where
  pub class : SizeClass aq
  pub threads : List Pc

-- Any thread takes its next access. `clears` says whether threads may call `clear`.
pub data Step {aq : ArrayQueue} (clears : Bool) (s : System aq) : System aq → Type 0 where
  pick :
      (i : ℕ) {p p' : Pc} {c : SizeClass aq}
      → get_elem? s.threads i ≡ some p
      → Move s.class p c p'
      → Step clears s (record { class = c; threads = set s.threads i p' })
  pick_clear :
      (i : ℕ) {p p' : Pc} {c : SizeClass aq}
      → clears ≡ true
      → get_elem? s.threads i ≡ some p
      → ClearMove s.class p c p'
      → Step clears s (record { class = c; threads = set s.threads i p' })

pub data Reach {aq : ArrayQueue} (clears : Bool) (s : System aq) : System aq → Type 0 where
  here : Reach clears s s
  next : {t u : System aq} → Reach clears s t → Step clears t u → Reach clears s u
