-- ===== src/Pool/Dealloc/Overflow.antt =====
-- What a returned buffer may displace: the spill of a full cache, and the push to the shared class.
use zeropool.Base.{
  ℕ, ◌+◌, ◌≤◌, ◌≡◌, refl, ap, ◌⊎◌, inl, inr, List, [], ◌∷◌, Option, some, arith, leb, get_elem?,
  set, set_self, tally, tally-append, All, length, Bool-cases,
}
use zeropool.Vec.{Vec}
use zeropool.ArrayQueue.{ArrayQueue}
use zeropool.SizeClass.{SizeClass}
use zeropool.SizeClass.Laws.{held, room, Serves, ClassOk, push-ClassOk}
use zeropool.ClassTable
use zeropool.Route.{class_sizes}
use zeropool.Tls.{TlsState}
use zeropool.Tls.Spill.{spill_lem}
use zeropool.Pool.{World, put_class}
use zeropool.Pool.Valid.{IsValid, pooled, put_class-IsValid}
use zeropool.Pool.Alloc.Take.{pooled_own, stock-put_class}
use zeropool.Pool.Dealloc.{make_room, push_shared}

module _ {aq : ArrayQueue} where
  -- The shared class at an index has no room left.
  abbrev pub IsFull : ℕ → World aq → Type 0
  IsFull i w =
      (c : SizeClass aq) × (get_elem? w.state.table.classes i ≡ some c) × (room c ≤ length (held c))

  -- What keeping a buffer does for a weight: the pool stays valid, and it holds the buffer besides what
  -- it held, less the buffers that a full class refused.
  pub record Kept (most : ℕ) (i : ℕ) (buffer : Vec) (w : World aq) (result : Option (World aq))
      : Type 0 where
    pub after : World aq
    pub dropped : List Vec
    pub returns : result ≡ some after
    pub valid : IsValid after
    pub conserved :
        (weight : Vec → ℕ)
        → pooled weight after + tally weight dropped ≡ pooled weight w + weight buffer
    pub few : length dropped ≤ most
    pub only_full : (dropped ≡ []) ⊎ IsFull i after
    pub same_serial : after.serial ≡ w.serial

  module _ (size i : ℕ) (buffer : Vec) (w : World aq) (at_i : get_elem? class_sizes i ≡ some size)
      (good : Serves size buffer) where
    pub push_shared-Kept :
        (class : SizeClass aq)
        → IsValid w
        → w.tls.pool_id ≡ w.state.id
        → get_elem? w.state.table.classes i ≡ some class
        → ClassOk size class
        → (k : Kept 1 i buffer w (push_shared i buffer w)) × (IsFull i w → IsFull i k.after)
    unfolding push_shared ClassTable.index put_class
    push_shared-Kept class v ours here ok = elim (push-ClassOk size buffer class ok good) [
      | inl (full, e) ↦ (
        record {
          after = w;
          dropped = buffer ∷ [];
          returns = ground (arith, e);
          valid = v;
          conserved = λ weight. omega arith;
          few = omega arith;
          only_full = inr (class, here, full);
          same_serial = refl;
        },
        λ f. f,
      )
      | inr (d, e, now, ok', free, same_room) ↦
          let after : World aq = record w { state = put_class i d w.state } in
          (
            record {
              after = after;
              dropped = [];
              returns = ground (arith, e);
              valid = put_class-IsValid w i size d w.tls v at_i ok' v.cached;
              conserved = λ weight. omega (
                arith,
                pooled_own weight after ours,
                pooled_own weight w ours,
                stock-put_class weight w.state i class d here,
                ap (tally weight) now,
                tally-append weight (held class) (buffer ∷ []),
              );
              few = omega arith;
              only_full = inl refl;
              same_serial = refl;
            },
            λ f.
                let same : class ≡ f.0 = cc in
                absurd (
                  omega (
                    arith,
                    f.2,
                    ap (λ (x : SizeClass aq). room x) same,
                    ap (λ (x : SizeClass aq). length (held x)) same,
                  )),
          )
    ]

  -- The thread's cache after the spill that a full cache causes, or as it was.
  pub record Vacated (size i batch : ℕ) (tls : TlsState) (cache : List Vec) (class : SizeClass aq)
      : Type 0 where
    pub cache' : List Vec
    pub class' : SizeClass aq
    pub dropped : List Vec
    pub returns :
        make_room i tls class batch ≡ some (record tls { caches = set tls.caches i cache' }, class')
    pub class_ok : ClassOk size class'
    pub cache_ok : All (Serves size) cache'
    pub conserved :
        (weight : Vec → ℕ)
        → tally weight cache' + tally weight (held class') + tally weight dropped
          ≡ tally weight cache + tally weight (held class)
    pub one_dropped : length dropped ≤ 1
    pub only_full : (dropped ≡ []) ⊎ (room class' ≤ length (held class'))

  pub make_room-Vacated :
      (size i batch : ℕ) (tls : TlsState) (cache : List Vec) (class : SizeClass aq)
      → get_elem? tls.caches i ≡ some cache
      → All (Serves size) cache
      → ClassOk size class
      → Vacated size i batch tls cache class
  unfolding make_room
  make_room-Vacated size i batch tls cache class e all ok =
      elim (Bool-cases (leb tls.limit (length cache))) [
        | inl over ↦
            let r = spill_lem size i batch tls cache class e all ok in
            record {
              cache' = r.cache';
              class' = r.class';
              dropped = r.dropped;
              returns = rw (e, make_room) (rw over r.returns);
              class_ok = r.class_ok;
              cache_ok = r.cache_ok;
              conserved = r.conserved;
              one_dropped = r.one_dropped;
              only_full = r.only_full;
            }
        | inr under ↦ record {
          cache' = cache;
          class' = class;
          dropped = [];
          returns = rw (e, make_room) (rw (under, set_self tls.caches i cache e));
          class_ok = ok;
          cache_ok = all;
          conserved = λ weight. omega arith;
          one_dropped = omega arith;
          only_full = inl refl;
        }
      ]
