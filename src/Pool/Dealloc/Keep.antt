-- ===== src/Pool/Dealloc/Keep.antt =====
-- The keeping of a returned buffer, in the thread's cache or in the shared class.
use zeropool.Base.{
  ℕ, ◌+◌, ◌≡◌, refl, ◌⊎◌, inl, inr, true, false, List, [], ◌∷◌, ◌++◌, some, arith, ltb, get_elem?,
  get_elem?-set_self, set, tally, tally-set, tally-append, Each-get, Each-set, length, Bool-cases,
  length-append,
}
use zeropool.Vec.{Vec}
use zeropool.ArrayQueue.{ArrayQueue}
use zeropool.SizeClass.{SizeClass}
use zeropool.SizeClass.Laws.{Serves, ClassOk}
use zeropool.ClassTable
use zeropool.Route.{class_sizes}
use zeropool.Tls.{TlsState, push_cache}
use zeropool.Pool.{World, claim, put_class}
use zeropool.Pool.Valid.{
  CacheOk, Caches, own, IsValid, Claimed, claim-Claimed, pooled, put_class-IsValid,
}
use zeropool.Pool.Alloc.Take.{pooled_own, pooled-claim, stock-put_class}
use zeropool.Pool.Dealloc.{keep}
use zeropool.Pool.Dealloc.Overflow.{Kept, IsFull, Vacated, push_shared-Kept, make_room-Vacated}

module _ {aq : ArrayQueue} (size i : ℕ) (buffer : Vec) (w : World aq) (v : IsValid w)
    (at_i : get_elem? class_sizes i ≡ some size) (good : Serves size buffer) (c : Claimed w)
    (cache : List Vec) (cached : get_elem? (claim w).caches i ≡ some cache) (class : SizeClass aq)
    (here : get_elem? w.state.table.classes i ≡ some class)
    (r : Vacated size i w.state.batch_size (claim w) cache class) where
  abbrev tls' : TlsState
  tls' = record (claim w) { caches = set (claim w).caches i r.cache' }

  -- The pool after the spill.
  abbrev spilled : World aq
  spilled = record w { state = put_class i r.class' w.state; tls = tls' }

  spilled_caches : Caches tls'.caches
  spilled_caches =
      Each-set CacheOk i class_sizes (claim w).caches size r.cache' c.caches at_i r.cache_ok

  spilled-IsValid : IsValid spilled
  spilled-IsValid =
      put_class-IsValid w i size r.class' tls' v at_i r.class_ok (own c.ours spilled_caches c.limit)

  now_cached : get_elem? tls'.caches i ≡ some r.cache'
  now_cached = get_elem?-set_self (claim w).caches i cache r.cache' cached

  now_here : get_elem? spilled.state.table.classes i ≡ some r.class'
  unfolding put_class
  now_here = get_elem?-set_self w.state.table.classes i class r.class' here

  -- What the spill dropped, it dropped at a full class.
  spill_drops : (r.dropped ≡ []) ⊎ IsFull i spilled
  spill_drops = elim r.only_full [
    | inl none_dropped ↦ inl none_dropped
    | inr full ↦ inr (r.class', now_here, full)
  ]

  spilled_conserves :
      (weight : Vec → ℕ) → pooled weight spilled + tally weight r.dropped ≡ pooled weight w
  unfolding put_class
  spilled_conserves weight = omega (
    arith,
    pooled_own weight spilled c.ours,
    pooled-claim weight w c,
    stock-put_class weight w.state i class r.class' here,
    tally-set (tally weight) (claim w).caches i cache r.cache' cached,
    r.conserved weight,
  )

  -- The cache has room: the buffer becomes its top.
  keep_cached : ltb (length r.cache') tls'.limit ≡ true → Kept 2 i buffer w (keep i buffer w)
  unfolding keep push_cache ClassTable.index put_class
  keep_cached free =
      let after : World aq = record spilled {
        tls = record tls' { caches = set tls'.caches i (buffer ∷ r.cache') };
      } in
      let all : Caches after.tls.caches =
        Each-set CacheOk i class_sizes tls'.caches size (buffer ∷ r.cache') spilled_caches at_i
          (good, r.cache_ok) in
      record {
        after = after;
        dropped = r.dropped;
        returns = ground (arith, r.returns, now_cached);
        valid = record {
          contract = v.contract;
          table = spilled-IsValid.table;
          cache_size = v.cache_size;
          cached = own c.ours all c.limit;
        };
        conserved = λ weight. omega (
          arith,
          spilled_conserves weight,
          pooled_own weight spilled c.ours,
          pooled_own weight after c.ours,
          tally-set (tally weight) tls'.caches i r.cache' (buffer ∷ r.cache') now_cached,
        );
        few = omega (arith, r.one_dropped);
        only_full = spill_drops;
        same_serial = refl;
      }

  -- Of what the spill and the overflow dropped.
  overflow_drops :
      (after : World aq) (xs ys : List Vec)
      → (xs ≡ []) ⊎ IsFull i spilled
      → (ys ≡ []) ⊎ IsFull i after
      → (IsFull i spilled → IsFull i after)
      → (xs ++ ys ≡ []) ⊎ IsFull i after
  overflow_drops after xs ys p (inr full) stays = inr full
  overflow_drops after xs ys (inr full) (inl e) stays = inr (stays full)
  overflow_drops after xs ys (inl e) (inl f) stays = inl (rw (e, f))

  -- The cache is still full: the buffer overflows to the shared class.
  keep_overflow : ltb (length r.cache') tls'.limit ≡ false → Kept 2 i buffer w (keep i buffer w)
  unfolding keep ClassTable.index put_class
  keep_overflow full =
      let (k, stays_full) =
        push_shared-Kept size i buffer spilled at_i good r.class' spilled-IsValid c.ours now_here
          r.class_ok in
      record {
        after = k.after;
        dropped = r.dropped ++ k.dropped;
        returns = ground (arith, r.returns, now_cached, k.returns);
        valid = k.valid;
        conserved = λ weight. omega (
          arith,
          spilled_conserves weight,
          k.conserved weight,
          tally-append weight r.dropped k.dropped,
        );
        few = omega (arith, length-append r.dropped k.dropped, r.one_dropped, k.few);
        only_full = overflow_drops k.after r.dropped k.dropped spill_drops k.only_full stays_full;
        same_serial = k.same_serial;
      }

-- Whatever the thread's cache and the class hold, keeping a buffer that serves the class returns.
pub keep-Kept :
    {aq : ArrayQueue} (size i : ℕ) (buffer : Vec) (w : World aq)
    → IsValid w
    → get_elem? class_sizes i ≡ some size
    → Serves size buffer
    → Kept 2 i buffer w (keep i buffer w)
keep-Kept {aq} size i buffer w v at_i good =
    let c = claim-Claimed w v in
    let (cache, cached, all) = Each-get CacheOk i class_sizes (claim w).caches size c.caches at_i in
    let (class, here, ok) =
      Each-get ClassOk i class_sizes w.state.table.classes size v.table at_i in
    let r = make_room-Vacated size i w.state.batch_size (claim w) cache class cached all ok in
    let tls' : TlsState = record (claim w) { caches = set (claim w).caches i r.cache' } in
    elim (Bool-cases (ltb (length r.cache') tls'.limit)) [
      | inl free ↦ keep_cached size i buffer w v at_i good c cache cached class here r free
      | inr full ↦ keep_overflow size i buffer w v at_i good c cache cached class here r full
    ]
