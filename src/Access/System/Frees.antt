-- ===== src/Access/System/Frees.antt =====
-- A thread of a pool that goes on alone, and one that frees what a class holds.
use zeropool.Base.{
  ℕ, ◌<◌, ◌≡◌, refl, sym, subst, ◌∙◌, inl, inr, List, Option, none, some, arith, get_elem?, set,
  Each-mono, length, get_elem?-some,
}
use zeropool.Vec.{Heap, Vec}
use zeropool.ArrayQueue.{ArrayQueue}
use zeropool.SizeClass.{SizeClass}
use zeropool.Route.{class_sizes}
use zeropool.Access.{Code, result, Shared, perform, pop_at}
use zeropool.Access.Triple.{Share}
use zeropool.Access.Triple.Pool.{Steady}
use zeropool.Access.System.{Thread, System, becomes}
use zeropool.Access.System.Queues.{Stocked, Same, pop_at-cases}
use zeropool.Access.System.Owned.{Owned, Sound, account-Sound, share_of, step-Sound}

-- A call that has returned makes no access.
pub returned :
    {aq : ArrayQueue} (heap : Heap) {A : Type 0} {r : Code A × Shared aq} (a : A) (s : Shared aq)
    → perform heap (result a) s ≡ some r
    → ⊥
unfolding perform
returned heap a s e = cc

module _ {aq : ArrayQueue} (id : ℕ) where
  pub Sound-Steady :
      (c : System aq) (shares : List Share) → Sound id c shares → Steady c.shared.state
  Sound-Steady c shares sound = record {
    cache_size = sound.cache_size;
    boundaries =
        Each-mono Stocked (λ size (k : SizeClass aq). k.class_size ≡ size) (λ a b ok. ok.boundary)
          class_sizes c.shared.state.table.classes sound.stocked;
  }

  pub stay : (c : System aq) (shares : List Share) → Sound id c shares → Same c.shared c.shared
  stay c shares sound = record {
    id = refl;
    cache_size = refl;
    allocator = refl;
    stocked = sound.stocked;
  }

  -- A thread goes on alone: with its guards and the queues as they were.
  pub alone-Sound :
      (c : System aq) (shares : List Share) (sound : Sound id c shares) (i : ℕ)
      (old thread : Thread) (at_i : get_elem? c.threads i ≡ some old)
      → Owned id thread (share_of id c shares sound i old at_i).0
      → Sound id (becomes c i thread) (set shares i (share_of id c shares sound i old at_i).0)
  alone-Sound c shares sound i old thread at_i owned =
      step-Sound id c shares sound i old at_i thread _ c.shared c.live (stay c shares sound)
        (omega arith) owned sound.homes (λ p. inl (omega arith))

  -- `clear` frees a buffer of a class.
  pub popped-Sound :
      (c : System aq) (shares : List Share) (sound : Sound id c shares) (k : ℕ)
      → k < length class_sizes
      → (buf : Vec) (s : Shared aq) → pop_at k c.shared ≡ some (some buf, s)
      → Sound id (record c { shared = s }) shares
  popped-Sound c shares sound k low buf s run =
      let (size, at_k) = get_elem?-some class_sizes k low in
      elim (pop_at-cases k size c.shared at_k sound.stocked) [
        | inl e ↦
            let never : ◌≡◌ {A = Option (Option Vec × Shared aq)} (some (none, c.shared))
                (some (some buf, s)) =
              sym e ∙ run in
            cc
        | inr (v, s2, run2, good, same, serial, kept) ↦
            let e : ◌≡◌ {A = Option (Option Vec × Shared aq)} (some (some v, s2))
                (some (some buf, s)) =
              sym run2 ∙ run in
            let q : s2 ≡ s = cc in
            subst (λ x. Sound id (record c { shared = x }) shares) q
              (account-Sound id c (record c { shared = s2 }) shares shares sound same (omega arith)
                sound.owned sound.homes (λ p. inl (omega (arith, kept p))))
      ]

  pub pop_at-none :
      (c : System aq) (shares : List Share) (sound : Sound id c shares) (k : ℕ)
      → k < length class_sizes
      → (s : Shared aq) → pop_at k c.shared ≡ some (none, s)
      → c.shared ≡ s
  pop_at-none c shares sound k low s run =
      let (size, at_k) = get_elem?-some class_sizes k low in
      elim (pop_at-cases k size c.shared at_k sound.stocked) [
        | inl e ↦
            let same : ◌≡◌ {A = Option (Option Vec × Shared aq)} (some (none, c.shared))
                (some (none, s)) =
              sym e ∙ run in
            cc
        | inr (v, s2, run2, good, same, serial, kept) ↦
            let never : ◌≡◌ {A = Option (Option Vec × Shared aq)} (some (some v, s2))
                (some (none, s)) =
              sym run2 ∙ run in
            cc
      ]
