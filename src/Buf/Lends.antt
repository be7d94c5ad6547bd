-- ===== src/Buf/Lends.antt =====
-- buf.rs: the slices and addresses that a guard lends. A mutable slice is its cells and what the guard is
-- after the borrow ended with given cells in them: a slice cannot grow or shrink.
use zeropool.Base.{
  Text, codes, decimal, ◌++◌, ℕ, zero, suc, List, [], ◌∷◌, Option, none, some, ◌>>=◌, get_elem?,
  ltb, if◌then◌else◌,
}
use zeropool.Vec.{Vec, Cell}
use zeropool.Buf.{Buf, BufUninit}

-- The first `n` cells.
abbrev pub slice : (ℕ → Cell) → ℕ → List Cell
slice cells zero = []
slice cells (suc n) = cells 0 ∷ slice (λ i. cells (suc i)) n

cell_or : Cell → Option Cell → Cell
cell_or c none = c
cell_or c (some d) = d

-- The vector after a borrow of its visible cells ended with these in their place.
unfoldable pub restored : Vec → List Cell → Vec
unfolding cell_or
restored v stored = record v {
  cells = λ i. if ltb i v.len then cell_or (v.cells i) (get_elem? stored i) else v.cells i;
}

unfoldable pub as_ptr : Buf → Option ℕ
as_ptr b = do v ← b.buffer; some v.ptr

unfoldable pub as_mut_ptr : Buf → Option ℕ
as_mut_ptr b = do v ← b.buffer; some v.ptr

-- `Deref for Buf`
unfoldable pub deref : Buf → Option (List Cell)
deref b = do v ← b.buffer; some (slice v.cells v.len)

-- `DerefMut for Buf`
unfoldable pub deref_mut : Buf → Option (List Cell × (List Cell → Buf))
unfolding restored
deref_mut b = do
  v ← b.buffer
  some (slice v.cells v.len, λ stored. record b { buffer = some (restored v stored) })

-- `AsRef<[u8]> for Buf`
unfoldable pub as_ref : Buf → Option (List Cell)
as_ref b = do v ← b.buffer; some (slice v.cells v.len)

-- `AsMut<[u8]> for Buf`
unfoldable pub as_mut : Buf → Option (List Cell × (List Cell → Buf))
unfolding restored
as_mut b = do
  v ← b.buffer
  some (slice v.cells v.len, λ stored. record b { buffer = some (restored v stored) })

unfoldable pub as_uninit_mut : BufUninit → Option (List Cell × (List Cell → BufUninit))
unfolding restored
as_uninit_mut b = do
  v ← b.buffer
  some (slice v.cells v.len, λ stored. record b { buffer = some (restored v stored) })

-- `io::Write::flush`
unfoldable pub flush : Buf → Option Buf
flush b = some b

-- `Debug for Buf` and `Debug for BufUninit`
unfoldable pub debug : Buf → Option Text
debug b = do
  v ← b.buffer
  some (
      codes "Buf { len: "
      ++ (decimal v.len ++ (codes ", capacity: " ++ (decimal v.cap ++ codes " }"))))

unfoldable pub debug_uninit : BufUninit → Option Text
debug_uninit b = do
  v ← b.buffer
  some (
      codes "BufUninit { len: "
      ++ (decimal v.len ++ (codes ", capacity: " ++ (decimal v.cap ++ codes " }"))))
