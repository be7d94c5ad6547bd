-- ===== src/Tls/Spill.antt =====
-- `spill` of tls.rs against the cache and the class between which it moves buffers.
use zeropool.Base.{
  ℕ, refl, ◌⊎◌, zero, suc, ◌+◌, ◌≤◌, ◌<◌, ◌≡◌, ap, inl, inr, List, [], ◌∷◌, some, arith, length,
  get_elem?, set, set_self, set-set, get_elem?-set_self, tally, tally-append, All,
}
use zeropool.Vec.{Vec}
use zeropool.ArrayQueue.{ArrayQueue}
use zeropool.SizeClass.{SizeClass}
use zeropool.SizeClass.Laws.{held, room, Serves, ClassOk, push-ClassOk}
use zeropool.Tls.{TlsState, spill}

module _ {aq : ArrayQueue} (size i : ℕ) where
  -- What a spill leaves behind, for a weight `w` of buffers: the thread changes in the one cache
  -- only, both sides stay valid, and no buffer is lost but one that the full class refused.
  pub record Spilled (batch : ℕ) (tls : TlsState) (cache : List Vec) (class : SizeClass aq)
      : Type 0 where
    pub cache' : List Vec
    pub class' : SizeClass aq
    pub dropped : List Vec
    pub returns :
        spill batch tls i class ≡ some (record tls { caches = set tls.caches i cache' }, class')
    pub class_ok : ClassOk size class'
    pub cache_ok : All (Serves size) cache'
    pub conserved :
        (w : Vec → ℕ)
        → tally w cache' + tally w (held class') + tally w dropped
          ≡ tally w cache + tally w (held class)
    pub shrinks : length cache' ≤ length cache
    pub makes_room : 0 < batch → 0 < length cache → length cache' < length cache
    pub one_dropped : length dropped ≤ 1
    pub only_full : (dropped ≡ []) ⊎ (room class' ≤ length (held class'))

  -- On a valid class and a cache whose buffers serve it `spill` returns: only the one cache
  -- changes, by giving buffers up, at least one if the batch is not 0 and the cache not empty;
  -- class and cache stay valid; and of all buffers at most one is lost, at a full class.
  pub spill_lem :
      (batch : ℕ) (tls : TlsState) (cache : List Vec) (class : SizeClass aq)
      → get_elem? tls.caches i ≡ some cache
      → All (Serves size) cache
      → ClassOk size class
      → Spilled batch tls cache class
  unfolding spill
  spill_lem zero tls cache class at_i all ok = record {
    cache' = cache;
    class' = class;
    dropped = [];
    returns = rw (set_self tls.caches i cache at_i);
    class_ok = ok;
    cache_ok = all;
    conserved = λ w. omega arith;
    shrinks = omega arith;
    makes_room = omega arith;
    one_dropped = omega arith;
    only_full = inl refl;
  }
  spill_lem (suc batch) tls [] class at_i all ok = record {
    cache' = [];
    class' = class;
    dropped = [];
    returns = rw (at_i, set_self tls.caches i [] at_i);
    class_ok = ok;
    cache_ok = all;
    conserved = λ w. omega arith;
    shrinks = omega arith;
    makes_room = omega arith;
    one_dropped = omega arith;
    only_full = inl refl;
  }
  spill_lem (suc batch) tls (v ∷ rest) class at_i all ok =
      elim (push-ClassOk size v class ok all.0) [
        | inl (full, e) ↦ record {
          cache' = rest;
          class' = class;
          dropped = v ∷ [];
          returns = ground arith;
          class_ok = ok;
          cache_ok = all.1;
          conserved = λ w. omega arith;
          shrinks = omega arith;
          makes_room = omega arith;
          one_dropped = omega arith;
          only_full = inr full;
        }
        | inr (d, e, now, ok', free, same_room) ↦
            let tls' : TlsState = record tls { caches = set tls.caches i rest } in
            let r =
              spill_lem batch tls' rest d (get_elem?-set_self tls.caches i _ rest at_i) all.1 ok' in
            let s = r.shrinks in
            record {
              cache' = r.cache';
              class' = r.class';
              dropped = r.dropped;
              returns = ground (arith, r.returns, set-set tls.caches i rest r.cache');
              class_ok = r.class_ok;
              cache_ok = r.cache_ok;
              conserved = λ w.
                  omega
                    (arith, r.conserved w, ap (tally w) now, tally-append w (held class) (v ∷ []));
              shrinks = omega arith;
              makes_room = omega arith;
              one_dropped = r.one_dropped;
              only_full = r.only_full;
            }
      ]
