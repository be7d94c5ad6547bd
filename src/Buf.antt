-- ===== src/Buf.antt =====
-- buf.rs: the guards that hand a buffer back to the pool. The pool reference of a guard is the pool
-- that the operations take as an argument. `none` is a panic, or what `unwrap_unchecked` makes
-- undefined.
mod Tests
pub mod Content
pub mod Return
pub mod Lends
pub mod Reading
use zeropool.Base.{
  ℕ, Bool, List, Option, none, some, ◌>>=◌, ◌>>◌, assert, ◌==◌, length, if◌then◌else◌,
}
use zeropool.Vec.{Heap, Vec, extend, copy_into}

pub record Buf : Type 0 where
  pub buffer : Option Vec
  pub class_idx : ℕ

pub record BufUninit : Type 0 where
  pub buffer : Option Vec
  pub class_idx : ℕ

unfoldable pub new : Vec → ℕ → Buf
new buffer class_idx = record { buffer = some buffer; class_idx = class_idx }

unfoldable pub new_uninit : Vec → ℕ → BufUninit
new_uninit buffer class_idx = record { buffer = some buffer; class_idx = class_idx }

unfoldable pub len : Buf → Option ℕ
len b = do v ← b.buffer; some v.len

unfoldable pub capacity : Buf → Option ℕ
capacity b = do v ← b.buffer; some v.cap

unfoldable pub is_empty : Buf → Option Bool
is_empty b = do v ← b.buffer; some (v.len == 0)

unfoldable pub len_uninit : BufUninit → Option ℕ
len_uninit b = do v ← b.buffer; some v.len

unfoldable pub capacity_uninit : BufUninit → Option ℕ
capacity_uninit b = do v ← b.buffer; some v.cap

unfoldable pub is_empty_uninit : BufUninit → Option Bool
is_empty_uninit b = do v ← b.buffer; some (v.len == 0)

-- `into_inner`: the vector, and the guard whose drop follows.
unfoldable pub into_inner : Buf → Option (Vec × Buf)
into_inner b = do v ← b.buffer; some (v, record b { buffer = none })

unfoldable pub into_vec : Buf → Option (Vec × Buf)
into_vec b = into_inner b

-- `From<Buf> for Vec<u8>`
unfoldable pub from_buf : Buf → Option (Vec × Buf)
from_buf b = into_inner b

-- `io::Write` for `Vec<u8>` appends all bytes; the first part is the count that `write` reports.
unfoldable pub write : Heap → ℕ → Buf → List ℕ → Option (ℕ × Buf)
write heap place b bytes = do
  v ← b.buffer
  some (length bytes, record b { buffer = some (extend heap place v bytes) })

unfoldable pub write_all : Heap → ℕ → Buf → List ℕ → Option Buf
write_all heap place b bytes = do
  v ← b.buffer
  some (record b { buffer = some (extend heap place v bytes) })

-- The new guard, and the old one, whose drop follows.
unfoldable pub assume_init : BufUninit → Option (Buf × BufUninit)
assume_init b = do v ← b.buffer; some (new v b.class_idx, record b { buffer = none })

unfoldable pub write_from_slice : BufUninit → List ℕ → Option (Buf × BufUninit)
write_from_slice b bytes = do
  v ← b.buffer
  assert (length bytes == v.len)
  let v' = if length bytes == 0 then v else copy_into v bytes
  assume_init (record b { buffer = some v' })
