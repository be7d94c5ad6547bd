-- ===== src/Buf/Tests.antt =====
-- A guard of two bytes within a capacity of four.
use zeropool.Base.{
  refl, ◌++◌, map, codes, decimal, digits, ℕ, ◌+◌, ◌≤◌, ◌<◌, ◌≡◌, List, [], ◌∷◌, none, some, arith,
  get_elem?, length,
}
use zeropool.Vec.{Heap, Vec, byte, uninit}
use zeropool.Buf.{new, new_uninit, write, write_from_slice}
use zeropool.Buf.Lends.{slice, deref, debug}
use zeropool.Buf.Reading.{write-deref}
use zeropool.Buf.Content.{write_from_slice_lem, write_lem}

abbrev exact : Heap
exact = record { grant = λ n. n; grant_le = λ n. omega arith }

abbrev two : Vec
two = record { ptr = 5; cells = λ i. uninit; len = 2; cap = 4 }

abbrev three_bytes : List ℕ
three_bytes = 104 ∷ 105 ∷ 33 ∷ []

abbrev two_bytes : List ℕ
two_bytes = 104 ∷ 105 ∷ []

write_from_slice_lem_example :
    (length two_bytes ≡ two.len
      → (u : Vec) × (write_from_slice (new_uninit two 0) two_bytes
          ≡ some (new u 0, record { buffer = none; class_idx = 0 }))
        × (u.ptr ≡ two.ptr)
        × (u.len ≡ two.len)
        × (u.cap ≡ two.cap)
        × ((i x : ℕ) → get_elem? two_bytes i ≡ some x → u.cells i ≡ byte x))
    × ((length two_bytes ≡ two.len → ⊥) → write_from_slice (new_uninit two 0) two_bytes ≡ none)
write_from_slice_lem_example = write_from_slice_lem two 0 two_bytes

write_lem_example :
    (u : Vec) × (write exact 9 (new two 0) three_bytes ≡ some (3, new u 0))
    × (u.len ≡ 5)
    × (4 ≤ u.cap)
    × (2 ≤ 4 → u.len ≤ u.cap)
    × ((i : ℕ) → i < 2 → u.cells i ≡ uninit)
    × ((i x : ℕ) → get_elem? three_bytes i ≡ some x → u.cells (2 + i) ≡ byte x)
write_lem_example = write_lem exact 9 0 two three_bytes

two_read : deref (new two 0) ≡ some (slice two.cells 2)
unfolding deref new
two_read = refl

write-deref_example :
    (u : Vec) × (write exact 9 (new two 0) three_bytes ≡ some (3, new u 0))
    × (deref (new u 0) ≡ some (slice two.cells 2 ++ map byte three_bytes))
write-deref_example = write-deref exact 9 0 two three_bytes (slice two.cells 2) two_read

debugged : debug (new two 0) ≡ some (codes "Buf { len: 2, capacity: 4 }")
unfolding debug new decimal digits
debugged = refl
