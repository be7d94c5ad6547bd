-- ===== src/SizeClass.antt =====
-- size_class.rs, `SizeClass`: a bounded queue of buffers with a counter beside it. A push that fails
-- hands the buffer back; here `none` stands for that, and the buffer is the caller's argument.
pub mod Laws
pub mod Drain
pub mod Sample
mod Tests
pub mod Resize
use zeropool.Base.{
  ℕ, zero, suc, ◌+◌, ◌-◌, ◌%◌, ◌^◌, Bool, Option, none, some, ◌>>=◌, ◌>>◌, assert, leb, ◌==◌,
}
use zeropool.Vec.{Vec, resize, set_len}
use zeropool.ArrayQueue.{ArrayQueue}

pub record SizeClass (aq : ArrayQueue) : Type 0 where
  pub queue : aq.Queue
  pub class_size : ℕ
  pub count : ℕ

-- `AtomicUsize::fetch_add(1)` and `fetch_sub(1)` wrap.
abbrev pub fetch_add : ℕ → ℕ
fetch_add n = (n + 1) % 2 ^ 64

abbrev pub fetch_sub : ℕ → ℕ
fetch_sub n = (n + 2 ^ 64 - 1) % 2 ^ 64

-- `while self.queue.pop().is_some() {}`; `none` means that the fuel ran out.
unfoldable pub drain_queue : (aq : ArrayQueue) → ℕ → aq.Queue → Option aq.Queue
drain_queue aq zero queue = none
drain_queue aq (suc fuel) queue = elim (aq.pop queue) [
  | none ↦ some queue
  | some (buf, rest) ↦ drain_queue aq fuel rest
]

module _ {aq : ArrayQueue} where
  unfoldable pub new : ℕ → ℕ → Option (SizeClass aq)
  new class_size capacity = do
    queue ← aq.new capacity
    some (record { queue = queue; class_size = class_size; count = 0 })

  unfoldable pub pop : SizeClass aq → Option (Vec × SizeClass aq)
  pop c = elim (aq.pop c.queue) [
    | none ↦ none
    | some (buf, queue) ↦ some (buf, record c { queue = queue; count = fetch_sub c.count })
  ]

  unfoldable pub push : Vec → SizeClass aq → Option (SizeClass aq)
  push buf c = elim (aq.push buf c.queue) [
    | none ↦ none
    | some queue ↦ some (record c { queue = queue; count = fetch_add c.count })
  ]

  unfoldable pub len : SizeClass aq → ℕ
  len c = c.count

  unfoldable pub is_empty : SizeClass aq → Bool
  is_empty c = c.count == 0

  unfoldable pub clear : SizeClass aq → Option (SizeClass aq)
  unfolding drain_queue
  clear c = do
    queue ← drain_queue aq (suc (aq.capacity c.queue)) c.queue
    some (record c { queue = queue; count = 0 })

-- The debug build's assertion is part of both: `none` is its panic.
unfoldable pub resize_zeroed : Vec → ℕ → Option Vec
resize_zeroed buf requested_len = do
  assert (leb requested_len buf.cap)
  some (resize buf requested_len 0)

unfoldable pub resize_uninit : Vec → ℕ → Option Vec
resize_uninit buf requested_len = do
  assert (leb requested_len buf.cap)
  some (set_len buf requested_len)
