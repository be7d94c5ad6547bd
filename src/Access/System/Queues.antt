-- ===== src/Access/System/Queues.antt =====
-- The accesses to a class while calls are running, against the buffers that its queue holds.
use zeropool.Base.{
  ℕ, ◌+◌, ◌≡◌, refl, ap, subst, ◌⊎◌, inl, inr, true, false, [], ◌∷◌, none, some, arith, get_elem?,
  tally, tally-append, All, All-append, Each, Each-get, Each-set, List-cases, length,
}
use native.Mathlib.Decide.{dec_lt}
use zeropool.Vec.{Vec}
use zeropool.ArrayQueue.{ArrayQueue}
use zeropool.SizeClass.{SizeClass}
use zeropool.SizeClass.Laws.{held, Serves}
use zeropool.ClassTable.Laws.{stock}
use zeropool.Route.{class_sizes}
use zeropool.Pool.{put_class}
use zeropool.Pool.Valid.{at}
use zeropool.Pool.Alloc.Take.{stock-put_class}
use zeropool.Access.{Shared, put, pop_at, push_at, count_at}

module _ {aq : ArrayQueue} where
  -- A class while calls are running: its counter may lag.
  pub record Stocked (size : ℕ) (c : SizeClass aq) : Type 0 where
    pub boundary : c.class_size ≡ size
    pub serves : All (Serves size) (held c)

  abbrev pub AllStocked : Shared aq → Type 0
  AllStocked s = Each Stocked class_sizes s.state.table.classes

  abbrev pub kept_by : ℕ → Shared aq → ℕ
  kept_by p s = stock (at p) s.state.table

  -- What one access leaves of what never changes.
  pub record Same (s s' : Shared aq) : Type 0 where
    pub id : s'.state.id ≡ s.state.id
    pub cache_size : s'.state.tls_cache_size ≡ s.state.tls_cache_size
    pub allocator : s'.state.allocator ≡ s.state.allocator
    pub stocked : AllStocked s'

  put-Same :
      (i size : ℕ) (class : SizeClass aq) (s : Shared aq)
      → get_elem? class_sizes i ≡ some size
      → AllStocked s
      → Stocked size class
      → Same s (put i class s)
  unfolding put_class
  put-Same i size class s at_i all good = record {
    id = refl;
    cache_size = refl;
    allocator = refl;
    stocked = Each-set Stocked i class_sizes s.state.table.classes size class all at_i good;
  }

  module _ (i size : ℕ) (s : Shared aq) (at_i : get_elem? class_sizes i ≡ some size)
      (all : AllStocked s) where
    pub pop_at-cases :
        (pop_at i s ≡ some (none, s))
        ⊎ ((v : Vec) × (s' : Shared aq) × (pop_at i s ≡ some (some v, s'))
            × Serves size v
            × Same s s'
            × (s'.serial ≡ s.serial)
            × ((p : ℕ) → kept_by p s' + at p v ≡ kept_by p s))
    unfolding pop_at
    pop_at-cases =
        let (class, here, ok) =
          Each-get Stocked i class_sizes s.state.table.classes size all at_i in
        elim (List-cases (held class)) [
          | inl empty ↦ inl (rw (here, pop_at) (rw (aq.pop_empty class.queue empty) refl))
          | inr (v, rest, front) ↦
              let (q, popped, left, same) = aq.pop_front class.queue v rest front in
              let good : All (Serves size) (v ∷ rest) = subst (All (Serves size)) front ok.serves in
              let class' : SizeClass aq = record class { queue = q } in
              let ok' : Stocked size class' = record {
                boundary = ok.boundary;
                serves = rw left good.1;
              } in
              inr (
                v,
                put i class' s,
                rw (here, pop_at) (rw popped refl),
                good.0,
                put-Same i size class' s at_i all ok',
                refl,
                λ p. omega (
                  arith,
                  stock-put_class (at p) s.state i class class' here,
                  ap (tally (at p)) front,
                  ap (tally (at p)) left,
                ),
              )
        ]

    pub push_at-cases :
        (v : Vec)
        → Serves size v
        → (push_at i v s ≡ some (false, s))
          ⊎ ((s' : Shared aq) × (push_at i v s ≡ some (true, s'))
              × Same s s'
              × (s'.serial ≡ s.serial)
              × ((p : ℕ) → kept_by p s' ≡ kept_by p s + at p v))
    unfolding push_at
    push_at-cases v good =
        let (class, here, ok) =
          Each-get Stocked i class_sizes s.state.table.classes size all at_i in
        elim (dec_lt (length (held class)) (aq.capacity class.queue)) [
          | no full ↦ inl (rw (here, push_at) (rw (aq.push_full v class.queue (omega arith)) refl))
          | yes free ↦
              let (q, pushed, now, same) = aq.push_room v class.queue free in
              let class' : SizeClass aq = record class { queue = q } in
              let ok' : Stocked size class' = record {
                boundary = ok.boundary;
                serves =
                    rw now (All-append (Serves size) (held class) (v ∷ []) ok.serves (good, tt));
              } in
              inr (
                put i class' s,
                rw (here, push_at) (rw pushed refl),
                put-Same i size class' s at_i all ok',
                refl,
                λ p. omega (
                  arith,
                  stock-put_class (at p) s.state i class class' here,
                  ap (tally (at p)) now,
                  tally-append (at p) (held class) (v ∷ []),
                ),
              )
        ]

    pub count_at-some :
        (change : ℕ → ℕ)
        → (s' : Shared aq) × (count_at change i s ≡ some s')
          × Same s s'
          × (s'.serial ≡ s.serial)
          × ((p : ℕ) → kept_by p s' ≡ kept_by p s)
    unfolding count_at
    count_at-some change =
        let (class, here, ok) =
          Each-get Stocked i class_sizes s.state.table.classes size all at_i in
        let class' : SizeClass aq = record class { count = change class.count } in
        (
          put i class' s,
          rw (here, count_at) refl,
          put-Same i size class' s at_i all (record { boundary = ok.boundary; serves = ok.serves }),
          refl,
          λ p. omega (arith, stock-put_class (at p) s.state i class class' here),
        )
