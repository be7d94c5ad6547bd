-- ===== src/Access/System/Performs.antt =====
-- One access against the queues and the share of the call that makes it.
use zeropool.Base.{
  ◌^◌, Option-cases, ℕ, suc, ◌+◌, ◌≤◌, ◌<◌, ◌≡◌, refl, ◌⊎◌, inl, inr, true, false, ◌∷◌, none, some,
  arith, get_elem?, Bool-cases, ◌==◌, ==→eq,
}
use zeropool.Vec.{Heap, Vec, with_capacity}
use zeropool.ArrayQueue.{ArrayQueue}
use zeropool.SizeClass.{fetch_add, fetch_sub}
use zeropool.Route.{class_sizes}
use zeropool.Allocator.{Contract}
use zeropool.Pool.Valid.{at}
use zeropool.Access.{
  Code, result, panic, pop_queue, push_queue, add_count, sub_count, add_stat, call_allocator,
  call_vec, lock, Shared, count_at, stat_at, perform,
}
use zeropool.Access.Triple.{Share, plus, Secures}
use zeropool.Access.System.Queues.{
  AllStocked, kept_by, Same, pop_at-cases, push_at-cases, count_at-some,
}

pub made_at :
    (p serial : ℕ) (v : Vec) → v.ptr ≡ serial → (at p v ≡ 0) ⊎ ((p ≡ serial) × (at p v ≡ 1))
made_at p serial v e = elim (Bool-cases (v.ptr == p)) [
  | inl same ↦ let q = ==→eq v.ptr p same in inr (omega arith, rw same refl)
  | inr other ↦ inl (rw other refl)
]

vec_made :
    (heap : Heap) (serial n : ℕ)
    → n < 2 ^ 63
    → (v : Vec) × (with_capacity heap serial n ≡ some v) × (v.ptr ≡ serial) × (n ≤ v.cap)
unfolding with_capacity
vec_made heap serial n small = elim (Option-cases (with_capacity heap serial n)) [
  | inl over ↦ absurd (ground arith)
  | inr (v, made) ↦
      let g = heap.grant_le n in
      let granted : v.cap ≡ heap.grant n = ground arith in (v, made, ground arith, omega arith)
]

module _ {aq : ArrayQueue} where
  still-Same : (s : Shared aq) → AllStocked s → Same s s
  still-Same s all = record { id = refl; cache_size = refl; allocator = refl; stocked = all }

  -- An access of a call whose share and rest satisfy `Q`, and what it does to who holds what: nothing is
  -- held more than before, but for an allocation that the access made.
  pub record Performed {A : Type 0} (Q : A → Share → Type 0) (s : Shared aq) (share : Share)
      (code' : Code A) (s' : Shared aq) : Type 0 where
    pub share' : Share
    pub secured : Secures Q code' share'
    pub same : Same s s'
    pub grows : s.serial ≤ s'.serial
    pub account :
        (p : ℕ)
        → (kept_by p s' + share' p ≤ kept_by p s + share p)
          ⊎ ((p ≡ s.serial)
              × (s.serial < s'.serial)
              × (kept_by p s' + share' p ≤ kept_by p s + share p + 1))

  made :
      {A : Type 0} (Q : A → Share → Type 0) (s : Shared aq) (share : Share) (code' : Code A)
      (v : Vec)
      → AllStocked s
      → v.ptr ≡ s.serial
      → Secures Q code' (plus share v)
      → Performed Q s share code' (record s { serial = suc s.serial })
  made Q s share code' v all place h = record {
    share' = plus share v;
    secured = h;
    same = record { id = refl; cache_size = refl; allocator = refl; stocked = all };
    grows = omega arith;
    account = λ p. elim (made_at p s.serial v place) [
      | inl other ↦ inl (omega arith)
      | inr (e, one) ↦ inr (e, omega arith, omega arith)
    ];
  }

  module _ (heap : Heap) {A : Type 0} (Q : A → Share → Type 0) (s : Shared aq) (all : AllStocked s)
      (contract : Contract s.state.allocator) where
    abbrev Ready : Code A → Share → Type 0
    Ready code share =
        ((a : A) × (code ≡ result a))
        ⊎ ((code' : Code A) × (s' : Shared aq) × (perform heap code s ≡ some (code', s'))
            × Performed Q s share code' s')

    counted :
        (change : ℕ → ℕ) (i size : ℕ) (k : Code A) (share : Share)
        → get_elem? class_sizes i ≡ some size
        → Secures Q k share
        → (s' : Shared aq) × (count_at change i s ≡ some s') × Performed Q s share k s'
    counted change i size k share at_i h =
        let (s', run, same, serial, kept) = count_at-some i size s at_i all change in
        (
          s',
          run,
          record {
            share' = share;
            secured = h;
            same = same;
            grows = omega arith;
            account = λ p. inl (omega (arith, kept p));
          },
        )

    -- A call that satisfies its triple has returned or has a next access, which is no panic.
    pub perform-Performed :
        (code : Code A) (share : Share) → Secures Q code share → Ready code share
    unfolding perform stat_at
    perform-Performed (result a) share h = inl (a, refl)
    perform-Performed panic share h = absurd h
    perform-Performed (pop_queue i k) share (size, at_i, more, empty) =
        elim (pop_at-cases i size s at_i all) [
          | inl e ↦ inr (
            k none,
            s,
            rw (e, perform) refl,
            record {
              share' = share;
              secured = empty;
              same = still-Same s all;
              grows = omega arith;
              account = λ p. inl (omega arith);
            },
          )
          | inr (v, s', e, good, same, serial, kept) ↦ inr (
            k (some v),
            s',
            rw (e, perform) refl,
            record {
              share' = plus share v;
              secured = more v good;
              same = same;
              grows = omega arith;
              account = λ p. inl (omega (arith, kept p));
            },
          )
        ]
    perform-Performed (push_queue i v k) share (size, at_i, good, (rest, gave, taken), full) =
        elim (push_at-cases i size s at_i all v good) [
          | inl e ↦ inr (
            k false,
            s,
            rw (e, perform) refl,
            record {
              share' = share;
              secured = full;
              same = still-Same s all;
              grows = omega arith;
              account = λ p. inl (omega arith);
            },
          )
          | inr (s', e, same, serial, kept) ↦ inr (
            k true,
            s',
            rw (e, perform) refl,
            record {
              share' = rest;
              secured = taken;
              same = same;
              grows = omega arith;
              account = λ p. inl (omega (arith, kept p, gave p));
            },
          )
        ]
    perform-Performed (add_count i k) share ((size, at_i), h) =
        let (s', run, done) = counted fetch_add i size k share at_i h in
        inr (k, s', rw (run, perform) refl, done)
    perform-Performed (sub_count i k) share ((size, at_i), h) =
        let (s', run, done) = counted fetch_sub i size k share at_i h in
        inr (k, s', rw (run, perform) refl, done)
    perform-Performed (add_stat e k) share h = inr (
      k,
      stat_at e s,
      refl,
      record {
        share' = share;
        secured = h;
        same = record { id = refl; cache_size = refl; allocator = refl; stocked = all };
        grows = omega arith;
        account = λ p. inl (omega arith);
      },
    )
    perform-Performed (call_allocator n k) share (small, h) =
        let (v, answered) = contract.answers s.serial n small in
        let m = contract.makes s.serial n v answered in
        inr (
          k v,
          record s { serial = suc s.serial },
          rw (answered, perform) refl,
          made Q s share (k v) v all m.place
              (h v (record { long = m.long; room = m.room; zeros = m.zeros })),
        )
    perform-Performed (call_vec n k) share (small, h) =
        let (v, answered, place, room) = vec_made heap s.serial n small in
        inr (
          k v,
          record s { serial = suc s.serial },
          rw (answered, perform) refl,
          made Q s share (k v) v all place (h v room),
        )
    perform-Performed (lock v k) share h = inr (
      k,
      record s { locks = (v.ptr, v.cap) ∷ s.locks },
      refl,
      record {
        share' = share;
        secured = h;
        same = record { id = refl; cache_size = refl; allocator = refl; stocked = all };
        grows = omega arith;
        account = λ p. inl (omega arith);
      },
    )
