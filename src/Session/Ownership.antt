-- ===== src/Session/Ownership.antt =====
-- Who holds an allocation, and how the steps of a client of pool.rs and buf.rs change it.
use zeropool.Base.{
  List, tally-two, ==→eq, eq→==, Bool-cases, ◌^◌, ℕ, ◌+◌, ◌≤◌, ◌<◌, ◌≡◌, ◌∙◌, sym, ap, subst, ◌⊎◌,
  inl, inr, ◌∷◌, some, arith, get_elem?, set, remove, tally, tally-set, tally-remove, All, All-set,
  All-remove, ◌==◌, if◌then◌else◌,
}
use zeropool.Vec.{Vec}
use zeropool.ArrayQueue.{ArrayQueue}
use zeropool.Pool.{World}
use zeropool.Pool.Valid.{IsValid, pooled, at}
use zeropool.Pool.Alloc.Lent.{Home, Source, fresh, reused}
use zeropool.Pool.Admin.{warm}
use zeropool.Pool.Admin.Warm.{new_at, warm-Warmed}
use zeropool.Session.{Session}

abbrev pub guard_at : ℕ → Vec × ℕ → ℕ
guard_at p g = at p g.0

pub at_self : (v : Vec) → at v.ptr v ≡ 1
at_self v = ground arith

-- Guards of which no allocation has two are equal where their allocations are.
pub unshared :
    (live : List (Vec × ℕ)) (i j : ℕ) (g h : Vec × ℕ)
    → ((p : ℕ) → tally (guard_at p) live ≤ 1)
    → get_elem? live i ≡ some g
    → get_elem? live j ≡ some h
    → g.0.ptr ≡ h.0.ptr
    → i ≡ j
unshared live i j g h once at_i at_j same = elim (Bool-cases (i == j)) [
  | inl e ↦ ==→eq i j e
  | inr differ ↦
      let two =
        tally-two (guard_at g.0.ptr) live i j g h at_i at_j (λ e. ground (arith, eq→== i j e)) in
      let other : at g.0.ptr h.0 ≡ 1 =
        ap (λ n. if n == g.0.ptr then 1 else 0) (sym same) ∙ at_self g.0 in
      absurd (omega (arith, once g.0.ptr, at_self g.0))
]

module _ {aq : ArrayQueue} (others : ℕ → ℕ) where
  -- How often the allocation `p` is held: by the pool, by live guards, and by `others`.
  abbrev pub holders : ℕ → Session aq → ℕ
  holders p s = pooled (at p) s.world + tally (guard_at p) s.live + others p

  -- The pool is valid, live guards suit their classes, and an allocation has at most one holder, none if
  -- it was not made yet.
  pub record Sound (s : Session aq) : Type 0 where
    pub valid : IsValid s.world
    pub homes : All (λ (g : Vec × ℕ). Home g.1 g.0) s.live
    pub once : (p : ℕ) → holders p s ≤ 1
    pub unborn : (p : ℕ) → s.world.serial ≤ p → holders p s ≡ 0

  -- A new guard, on a buffer that came from the allocator or out of the pool.
  pub lend-Sound :
      (s : Session aq) (v : Vec) (class_idx : ℕ) (after : World aq)
      → Sound s
      → IsValid after
      → Home class_idx v
      → Source v.ptr s.world after
      → Sound (record { world = after; live = (v, class_idx) ∷ s.live })
  lend-Sound s v class_idx after sound valid home (fresh new_ptr next kept) = record {
    valid = valid;
    homes = (home, sound.homes);
    once = λ p. ground (arith, kept (at p), sound.once p, sound.unborn p);
    unborn = λ p h. ground (arith, kept (at p), sound.unborn p (omega arith));
  }
  lend-Sound s v class_idx after sound valid home (reused raw same_ptr same kept) =
      let weighs : (p : ℕ) → at p raw ≡ at p v = λ p. ap (λ n. if n == p then 1 else 0) same_ptr in
      record {
        valid = valid;
        homes = (home, sound.homes);
        once = λ p. omega (arith, kept (at p), sound.once p, weighs p);
        unborn = λ p h. omega (arith, kept (at p), sound.unborn p (omega arith), weighs p);
      }

  -- A guard whose buffer changes, but keeps its allocation or moves to a new one, with no change to the
  -- pool.
  pub change-Sound :
      (s : Session aq) (i : ℕ) (v u : Vec) (class_idx serial : ℕ)
      → Sound s
      → get_elem? s.live i ≡ some (v, class_idx)
      → Home class_idx u
      → s.world.serial ≤ serial
      → (u.ptr ≡ v.ptr) ⊎ ((u.ptr ≡ s.world.serial) × (s.world.serial < serial))
      → Sound (record {
        world = record s.world { serial = serial };
        live = set s.live i (u, class_idx);
      })
  change-Sound s i v u class_idx serial sound e home later moved =
      let old = sound.valid in
      let swap = λ (p : ℕ). tally-set (guard_at p) s.live i (v, class_idx) (u, class_idx) e in
      let valid : IsValid (record s.world { serial = serial }) = record {
        contract = old.contract;
        table = old.table;
        cache_size = old.cache_size;
        cached = old.cached;
      } in
      record {
        valid = valid;
        homes = All-set (λ (g : Vec × ℕ). Home g.1 g.0) s.live i (u, class_idx) sound.homes home;
        once = λ p. elim moved [
          | inl stays ↦
              let same : at p u ≡ at p v = ap (λ n. if n == p then 1 else 0) stays in
              omega (arith, swap p, same, sound.once p)
          | inr (fresh_ptr, room) ↦ ground (arith, swap p, sound.once p, sound.unborn p)
        ];
        unborn = λ p h. elim moved [
          | inl stays ↦
              let same : at p u ≡ at p v = ap (λ n. if n == p then 1 else 0) stays in
              omega (arith, swap p, same, sound.unborn p (omega arith))
          | inr (fresh_ptr, room) ↦ ground (arith, swap p, sound.unborn p (omega arith))
        ];
      }

  -- A guard that is gone, where the pool holds at most its buffer more.
  pub release-Sound :
      (s : Session aq) (i : ℕ) (v : Vec) (class_idx : ℕ) (after : World aq)
      → Sound s
      → get_elem? s.live i ≡ some (v, class_idx)
      → IsValid after
      → after.serial ≡ s.world.serial
      → ((p : ℕ) → pooled (at p) after ≤ pooled (at p) s.world + at p v)
      → Sound (record { world = after; live = remove s.live i })
  release-Sound s i v class_idx after sound e valid same more =
      let gone = λ (p : ℕ). tally-remove (guard_at p) s.live i (v, class_idx) e in
      record {
        valid = valid;
        homes = All-remove (λ (g : Vec × ℕ). Home g.1 g.0) s.live i sound.homes;
        once = λ p. omega (arith, gone p, more p, sound.once p);
        unborn = λ p h. omega (arith, gone p, more p, sound.unborn p (omega arith));
      }

  -- A pool that holds at most what it held and what was allocated meanwhile, with the guards as they
  -- were.
  pub restock-Sound :
      (s : Session aq) (after : World aq)
      → Sound s
      → IsValid after
      → s.world.serial ≤ after.serial
      → ((p : ℕ)
          → pooled (at p) after ≤ pooled (at p) s.world + new_at s.world.serial after.serial p)
      → Sound (record s { world = after })
  restock-Sound s after sound valid later more = record {
    valid = valid;
    homes = sound.homes;
    once = λ p. ground (arith, more p, sound.once p, sound.unborn p);
    unborn = λ p h. ground (arith, more p, sound.unborn p (omega arith));
  }

  pub warm-Sound :
      (s : Session aq) (count size : ℕ) (after : World aq)
      → size < 2 ^ 64
      → warm count size s.world ≡ some after
      → Sound s
      → Sound (record s { world = after })
  warm-Sound s count size after small run sound =
      elim (warm-Warmed count size s.world small sound.valid) [
        | inl (over, ran) ↦
            let same : some s.world ≡ some after = sym ran ∙ run in
            let q : s.world ≡ after = cc in
            subst (λ (x : World aq). Sound (record s { world = x })) q sound
        | inr (i, class, after', routed, here, ran, w) ↦
            let same : some after' ≡ some after = sym ran ∙ run in
            let q : after' ≡ after = cc in
            subst (λ (x : World aq). Sound (record s { world = x })) q
              (restock-Sound s after' sound w.valid w.later w.stocked)
      ]
