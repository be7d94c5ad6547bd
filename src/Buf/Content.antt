-- ===== src/Buf/Content.antt =====
-- What the guards' conversions and writes leave in the buffer.
use zeropool.Base.{
  ℕ, ◌+◌, ◌-◌, ◌≤◌, ◌<◌, ◌≡◌, refl, List, none, some, arith, get_elem?, get_elem?-lt, length, ◌==◌,
  if◌then◌else◌,
}
use zeropool.Vec.{Heap, Vec, Cell, byte, extend, copy_into, written}
use zeropool.Buf.{new, new_uninit, write, write_from_slice, assume_init}

written_inside :
    (cells : ℕ → Cell) (at : ℕ) (bytes : List ℕ) (i x : ℕ)
    → get_elem? bytes i ≡ some x
    → written cells at bytes (at + i) ≡ byte x
unfolding written
written_inside cells at bytes i x e =
    let small : i < length bytes = get_elem?-lt bytes i x e in
    let same : at + i - at ≡ i = omega arith in
    let here : get_elem? bytes (at + i - at) ≡ some x = rw same e in ground (arith, here)

written_before :
    (cells : ℕ → Cell) (at : ℕ) (bytes : List ℕ) (i : ℕ)
    → i < at
    → written cells at bytes i ≡ cells i
unfolding written
written_before cells at bytes i h = ground arith

-- `write_from_slice` of a slice of the guard's length initializes every byte of the buffer with the
-- slice's, in place and for the same class, and leaves an empty guard to drop; of a slice of
-- another length it panics.
pub write_from_slice_lem :
    (v : Vec) (class_idx : ℕ) (bytes : List ℕ)
    → (length bytes ≡ v.len
        → (u : Vec) × (write_from_slice (new_uninit v class_idx) bytes
            ≡ some (new u class_idx, record { buffer = none; class_idx = class_idx }))
          × (u.ptr ≡ v.ptr)
          × (u.len ≡ v.len)
          × (u.cap ≡ v.cap)
          × ((i x : ℕ) → get_elem? bytes i ≡ some x → u.cells i ≡ byte x))
      × ((length bytes ≡ v.len → ⊥) → write_from_slice (new_uninit v class_idx) bytes ≡ none)
unfolding write_from_slice assume_init new new_uninit copy_into
write_from_slice_lem v class_idx bytes = (
  λ same. (
    if length bytes == 0 then v else copy_into v bytes,
    ground arith,
    ground arith,
    ground arith,
    ground arith,
    λ i x e. ground (arith, get_elem?-lt bytes i x e, written_inside v.cells 0 bytes i x e),
  ),
  λ ne. ground arith,
)

-- A write through the guard appends all bytes: the buffer grows by them, never loses capacity,
-- keeps what it held, and stays with its class.
pub write_lem :
    (heap : Heap) (place class_idx : ℕ) (v : Vec) (bytes : List ℕ)
    → (u : Vec) × (write heap place (new v class_idx) bytes ≡ some (length bytes, new u class_idx))
      × (u.len ≡ v.len + length bytes)
      × (v.cap ≤ u.cap)
      × (v.len ≤ v.cap → u.len ≤ u.cap)
      × ((i : ℕ) → i < v.len → u.cells i ≡ v.cells i)
      × ((i x : ℕ) → get_elem? bytes i ≡ some x → u.cells (v.len + i) ≡ byte x)
unfolding write new extend
write_lem heap place class_idx v bytes =
    let g = heap.grant_le (v.len + length bytes) in
    (
      extend heap place v bytes,
      refl,
      ground arith,
      ground arith,
      λ h. ground arith,
      λ i h. ground (arith, written_before v.cells v.len bytes i h),
      λ i x e. ground (arith, written_inside v.cells v.len bytes i x e),
    )
