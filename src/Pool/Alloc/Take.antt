-- ===== src/Pool/Alloc/Take.antt =====
-- The closure that looks for a pooled buffer: what it returns, keeps valid and conserves.
use zeropool.Base.{
  ℕ, ◌+◌, ◌-◌, ◌≡◌, refl, sym, ap, subst, inl, inr, Bool, true, false, List, [], ◌∷◌, Option, none,
  some, arith, get_elem?, set, tally, tally-set, tally-stack, tally-take-drop, All, All-stack-take,
  Each-get, Each-set, eq→==, take, stack,
}
use zeropool.Vec.{Vec}
use zeropool.ArrayQueue.{ArrayQueue}
use zeropool.SizeClass.{SizeClass}
use zeropool.SizeClass.Laws.{held, Serves, ClassOk}
use zeropool.ClassTable.Laws.{stock}
use zeropool.Route.{class_sizes}
use zeropool.Tls.{TlsState}
use zeropool.Tls.Refill.{refill-take}
use zeropool.Pool.{State, World, claim, put_class}
use zeropool.Pool.Valid.{
  CacheOk, Caches, own, IsValid, Claimed, claim-Claimed, stored, pooled, put_class-IsValid,
}
use zeropool.Pool.Alloc.{take_pooled}

-- A buffer was found that serves the class, or none was.
abbrev pub Found : ℕ → Option (Vec × Bool) → Type 0
Found size none = Unit
Found size (some (v, from_tls)) = Serves size v

abbrev pub weight_of : (Vec → ℕ) → Option (Vec × Bool) → ℕ
weight_of weight none = 0
weight_of weight (some (v, from_tls)) = weight v

module _ {aq : ArrayQueue} where
  pub pooled_own :
      (weight : Vec → ℕ) (w : World aq)
      → w.tls.pool_id ≡ w.state.id
      → pooled weight w ≡ stock weight w.state.table + stored weight w.tls
  pooled_own weight w e = ground (arith, eq→== w.tls.pool_id w.state.id e)

  -- The claim moves no buffer of the pool.
  pub pooled-claim :
      (weight : Vec → ℕ) (w : World aq)
      → Claimed w
      → pooled weight w ≡ stock weight w.state.table + stored weight (claim w)
  pooled-claim weight w c = ap (λ n. stock weight w.state.table + n) (sym (c.same weight))

  pub stock-put_class :
      (weight : Vec → ℕ) (s : State aq) (i : ℕ) (old new : SizeClass aq)
      → get_elem? s.table.classes i ≡ some old
      → stock weight (put_class i new s).table + tally weight (held old)
        ≡ stock weight s.table + tally weight (held new)
  unfolding put_class
  stock-put_class weight s i old new e =
      tally-set (λ c. tally weight (held c)) s.table.classes i old new e

  pub record Taken (size i : ℕ) (class : SizeClass aq) (w : World aq) : Type 0 where
    pub out : Option (Vec × Bool)
    pub after : World aq
    pub returns : take_pooled i class w ≡ some (out, after)
    pub valid : IsValid after
    pub found : Found size out
    pub conserved :
        (weight : Vec → ℕ) → pooled weight after + weight_of weight out ≡ pooled weight w
    pub exhausted : out ≡ none → (held class ≡ []) × (get_elem? (claim w).caches i ≡ some [])
    pub same_counters : after.state.counters ≡ w.state.counters
    pub same_track : after.state.track_stats ≡ w.state.track_stats
    pub same_serial : after.serial ≡ w.serial

  module _ (size i : ℕ) (class : SizeClass aq) (w : World aq) (v : IsValid w)
      (at_i : get_elem? class_sizes i ≡ some size)
      (here : get_elem? w.state.table.classes i ≡ some class) (ok : ClassOk size class)
      (c : Claimed w) where
    take_hit :
        (buf : Vec) (rest : List Vec)
        → get_elem? (claim w).caches i ≡ some (buf ∷ rest)
        → All (Serves size) (buf ∷ rest)
        → Taken size i class w
    unfolding take_pooled
    take_hit buf rest e all =
        let tls' : TlsState = record (claim w) { caches = set (claim w).caches i rest } in
        record {
          out = some (buf, true);
          after = record w { tls = tls' };
          returns = ground arith;
          valid = record {
            contract = v.contract;
            table = v.table;
            cache_size = v.cache_size;
            cached =
                own c.ours
                  (Each-set CacheOk i class_sizes (claim w).caches size rest c.caches at_i all.1)
                  c.limit;
          };
          found = all.0;
          conserved = λ weight. omega (
            arith,
            pooled_own weight (record w { tls = tls' }) c.ours,
            pooled-claim weight w c,
            tally-set (tally weight) (claim w).caches i (buf ∷ rest) rest e,
          );
          exhausted = λ q. cc;
          same_counters = refl;
          same_track = refl;
          same_serial = refl;
        }

    take_miss : get_elem? (claim w).caches i ≡ some [] → Taken size i class w
    unfolding take_pooled put_class
    take_miss e = elim (refill-take size i w.state.batch_size (claim w) [] class e ok) [
      | inl (empty, run) ↦
          let after : World aq = record w { state = put_class i class w.state; tls = claim w } in
          record {
            out = none;
            after = after;
            returns = ground (arith, run);
            valid =
                put_class-IsValid w i size class (claim w) v at_i ok (own c.ours c.caches c.limit);
            found = tt;
            conserved = λ weight. omega (
              arith,
              pooled_own weight after c.ours,
              pooled-claim weight w c,
              stock-put_class weight w.state i class class here,
            );
            exhausted = λ q. (empty, e);
            same_counters = refl;
            same_track = refl;
            same_serial = refl;
          }
      | inr (first, rest, class', front, run, left, ok') ↦
          let n = w.state.batch_size - 1 in
          let cache' : List Vec = stack (take n rest) [] in
          let tls' : TlsState = record (claim w) { caches = set (claim w).caches i cache' } in
          let after : World aq = record w { state = put_class i class' w.state; tls = tls' } in
          let all : All (Serves size) (first ∷ rest) = subst (All (Serves size)) front ok.serves in
          let caches' : Caches tls'.caches =
            Each-set CacheOk i class_sizes (claim w).caches size cache' c.caches at_i
              (All-stack-take (Serves size) n rest [] all.1 tt) in
          record {
            out = some (first, false);
            after = after;
            returns = ground (arith, run);
            valid = put_class-IsValid w i size class' tls' v at_i ok' (own c.ours caches' c.limit);
            found = all.0;
            conserved = λ weight. omega (
              arith,
              pooled_own weight after c.ours,
              pooled-claim weight w c,
              stock-put_class weight w.state i class class' here,
              tally-set (tally weight) (claim w).caches i [] cache' e,
              tally-stack weight (take n rest) [],
              tally-take-drop weight n rest,
              ap (tally weight) left,
              ap (tally weight) front,
            );
            exhausted = λ q. cc;
            same_counters = refl;
            same_track = refl;
            same_serial = refl;
          }
    ]

  -- Whatever the thread's cache and the class hold, the closure returns.
  pub take_pooled-Taken :
      (size i : ℕ) (class : SizeClass aq) (w : World aq)
      → IsValid w
      → get_elem? class_sizes i ≡ some size
      → get_elem? w.state.table.classes i ≡ some class
      → ClassOk size class
      → Taken size i class w
  take_pooled-Taken size i class w v at_i here ok =
      let c = claim-Claimed w v in
      let (cache, e, all) = Each-get CacheOk i class_sizes (claim w).caches size c.caches at_i in
      go c cache e all
    where
      go :
          Claimed w
          → (cache : List Vec) → get_elem? (claim w).caches i ≡ some cache
          → All (Serves size) cache
          → Taken size i class w
      go c [] e all = take_miss size i class w v at_i here ok c e
      go c (buf ∷ rest) e all = take_hit size i class w v at_i here ok c buf rest e all
