-- ===== src/Allocator.antt =====
-- allocator.rs: the backend that creates raw buffers. An implementation may answer each call in its
-- own way, so `allocate` also takes the serial number of the call; `none` is a panic.
use zeropool.Base.{
  ℕ, ◌≤◌, ◌<◌, ◌^◌, ◌≡◌, refl, ltb, Option, none, some, arith, Bool, true, false, if◌then◌else◌,
  subst, inl, inr, Option-cases,
}
use zeropool.Vec.{Heap, Vec, byte, zeroed}

pub record Allocator : Type 0 where
  pub allocate : ℕ → ℕ → Option Vec

-- What the trait documents of a vector that is returned for a capacity. It is returned by value, so it owns
-- an allocation of its own, which its call's number names.
pub record Made (serial capacity : ℕ) (v : Vec) : Type 0 where
  pub long : capacity ≤ v.len
  pub zeros : (i : ℕ) → i < capacity → v.cells i ≡ byte 0
  pub room : v.len ≤ v.cap
  pub place : v.ptr ≡ serial

-- The trait's documented contract, for the capacities that a vector can have.
pub record Contract (a : Allocator) : Type 0 where
  pub answers :
      (serial capacity : ℕ) → capacity < 2 ^ 63 → (v : Vec) × (a.allocate serial capacity ≡ some v)
  pub makes :
      (serial capacity : ℕ) (v : Vec) → a.allocate serial capacity ≡ some v → Made serial capacity v

-- `HeapAllocator`; its serial number is the place that the global allocator picks.
unfoldable pub heap_allocator : Heap → Allocator
heap_allocator heap = record { allocate = λ serial capacity. zeroed heap serial capacity }

if_some :
    {A : Type 0} (b : Bool) (x y : A)
    → ◌≡◌ {A = Option A} (if b then some x else none) (some y)
    → x ≡ y
if_some true x y e = cc
if_some false x y e = cc

-- The default backend keeps the contract.
pub heap_allocator-Contract : (heap : Heap) → Contract (heap_allocator heap)
unfolding heap_allocator zeroed
heap_allocator-Contract heap = record {
  answers = λ serial capacity small. elim (Option-cases (zeroed heap serial capacity)) [
    | inl over ↦ absurd (ground arith)
    | inr (v, e) ↦ (v, e)
  ];
  makes = λ serial capacity v e.
      subst (Made serial capacity) (if_some (ltb capacity (2 ^ 63)) _ v e) (record {
        long = omega arith;
        zeros = λ i h. ground arith;
        room = heap.grant_le capacity;
        place = refl;
      });
}
