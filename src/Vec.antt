-- ===== src/Vec.antt =====
-- What the crate uses of the standard library's `Vec<u8>`: an allocation of `cap` cells of which the
-- first `len` are visible. A cell holds a byte or nothing initialized. `Heap` gives the capacity that
-- the global allocator grants for a request, of which only the lower bound is documented.
use zeropool.Base.{
  ◌^◌, ◌+◌, ◌-◌, List, Option, none, some, length, get_elem?, ℕ, ◌≤◌, ◌&&◌, leb, ltb, if◌then◌else◌,
}

pub record Heap : Type 0 where
  pub grant : ℕ → ℕ
  pub grant_le : (n : ℕ) → n ≤ grant n

pub data Cell : Type 0 where
  uninit : Cell
  byte : ℕ → Cell

pub record Vec : Type 0 where
  pub ptr : ℕ
  pub cells : ℕ → Cell
  pub len : ℕ
  pub cap : ℕ

-- `vec![0; n]`, placed at `ptr`. Above `isize::MAX` it panics with a capacity overflow: `none`.
unfoldable pub zeroed : Heap → ℕ → ℕ → Option Vec
zeroed heap ptr n =
    if ltb n (2 ^ 63)
    then some (record {
      ptr = ptr;
      cells = λ i. if ltb i n then byte 0 else uninit;
      len = n;
      cap = heap.grant n;
    })
    else none

-- `Vec::with_capacity(n)`, placed at `ptr`, with the same panic
unfoldable pub with_capacity : Heap → ℕ → ℕ → Option Vec
with_capacity heap ptr n =
    if ltb n (2 ^ 63)
    then some (record { ptr = ptr; cells = λ i. uninit; len = 0; cap = heap.grant n })
    else none

unfoldable pub clear : Vec → Vec
clear v = record v { len = 0 }

unfoldable pub truncate : Vec → ℕ → Vec
truncate v n = if leb v.len n then v else record v { len = n }

unfoldable pub set_len : Vec → ℕ → Vec
set_len v n = record v { len = n }

-- `v.resize(n, x)` within the capacity: the cells that become visible are written.
unfoldable pub resize : Vec → ℕ → ℕ → Vec
resize v n x =
    if leb n v.len
    then record v { len = n }
    else record v { cells = λ i. if leb v.len i && ltb i n then byte x else v.cells i; len = n }

cell_of : Option ℕ → Cell
cell_of none = uninit
cell_of (some x) = byte x

-- The cells from `at` on hold the bytes of a list; the others are as they were.
unfoldable pub written : (ℕ → Cell) → ℕ → List ℕ → ℕ → Cell
unfolding cell_of
written cells at bytes i =
    if leb at i && ltb i (at + length bytes) then cell_of (get_elem? bytes (i - at)) else cells i

-- `v.extend_from_slice(bytes)`: where the capacity does not suffice, the bytes move to a new place.
unfoldable pub extend : Heap → ℕ → Vec → List ℕ → Vec
extend heap place v bytes =
    let n = v.len + length bytes in
    let cells = written v.cells v.len bytes in
    if leb n v.cap
    then record v { cells = cells; len = n }
    else record { ptr = place; cells = cells; len = n; cap = heap.grant n }

-- `ptr::copy_nonoverlapping(bytes, v.as_mut_ptr(), bytes.len())`
unfoldable pub copy_into : Vec → List ℕ → Vec
copy_into v bytes = record v { cells = written v.cells 0 bytes }
