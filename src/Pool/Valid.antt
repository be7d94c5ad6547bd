-- ===== src/Pool/Valid.antt =====
-- The invariant of a pool as one thread sees it between calls, and what the shared steps keep of it.
use zeropool.Base.{
  ℕ, ◌+◌, ◌<◌, ◌≡◌, refl, List, [], ◌∷◌, some, arith, if◌then◌else◌, ◌==◌, get_elem?, tally, All,
  Each, Each-set, Bool-cases, inl, inr, ==→eq, eq→==, if_either,
}
use zeropool.Vec.{Vec}
use zeropool.ArrayQueue.{ArrayQueue}
use zeropool.SizeClass.{SizeClass}
use zeropool.SizeClass.Laws.{Serves, ClassOk}
use zeropool.ClassTable.Laws
use zeropool.ClassTable.Laws.{stock}
use zeropool.Route.{class_sizes}
use zeropool.Tls.{TlsState, owns, bind, clear_caches}
use zeropool.Allocator.{Contract}
use zeropool.Stats.{Event}
use zeropool.Stats
use zeropool.Pool.{World, note, pin, claim, put_class}

-- A cache index by index: all its buffers serve the class of that index.
abbrev pub CacheOk : ℕ → List Vec → Type 0
CacheOk size cache = All (Serves size) cache

abbrev pub Caches : List (List Vec) → Type 0
Caches = Each CacheOk class_sizes

-- There is a cache for each class; what it holds is unknown.
abbrev pub Shaped : List ℕ → List (List Vec) → Type 0
Shaped = Each (λ size cache. Unit {0})

pub data Cached (id : ℕ) (tls : TlsState) : Type 0 where
  own : tls.pool_id ≡ id → Caches tls.caches → 0 < tls.limit → Cached id tls
  foreign : (tls.pool_id ≡ id → ⊥) → Shaped class_sizes tls.caches → Cached id tls

-- The buffers of a thread's caches, weighted.
abbrev pub stored : (Vec → ℕ) → TlsState → ℕ
stored w tls = tally (tally w) tls.caches

-- The buffers in a thread's caches, weighted, where they are the pool's.
abbrev pub mine : (Vec → ℕ) → ℕ → TlsState → ℕ
mine weight id tls = if tls.pool_id == id then stored weight tls else 0

pub not_mine :
    (weight : Vec → ℕ) (id : ℕ) (tls : TlsState) → (tls.pool_id ≡ id → ⊥) → mine weight id tls ≡ 0
not_mine weight id tls ne = elim (Bool-cases (tls.pool_id == id)) [
  | inl e ↦ absurd (ne (==→eq _ _ e))
  | inr e ↦ rw e
]

-- 1 for the buffers in the allocation `p`.
abbrev pub at : ℕ → Vec → ℕ
at p v = if v.ptr == p then 1 else 0

clear_caches-Caches :
    (sizes : List ℕ) (caches : List (List Vec))
    → Shaped sizes caches
    → Each CacheOk sizes (clear_caches caches)
unfolding clear_caches
clear_caches-Caches [] [] h = tt
clear_caches-Caches [] (c ∷ cs) h = absurd h
clear_caches-Caches (s ∷ sizes) [] h = absurd h
clear_caches-Caches (s ∷ sizes) (c ∷ cs) h = (tt, clear_caches-Caches sizes cs h.1)

stored-clear_caches :
    (w : Vec → ℕ) (caches : List (List Vec)) → tally (tally w) (clear_caches caches) ≡ 0
unfolding clear_caches
stored-clear_caches w [] = refl
stored-clear_caches w (c ∷ cs) = omega (arith, stored-clear_caches w cs)

module _ {aq : ArrayQueue} where
  pub record IsValid (w : World aq) : Type 0 where
    pub contract : Contract w.state.allocator
    pub table : Laws.IsValid w.state.table
    pub cache_size : 0 < w.state.tls_cache_size
    pub cached : Cached w.state.id w.tls

  -- The buffers in the pool, weighted: those of the shared classes, and those of the thread's caches
  -- where they are the pool's.
  abbrev pub pooled : (Vec → ℕ) → World aq → ℕ
  pooled w s = stock w s.state.table + (if s.tls.pool_id == s.state.id then stored w s.tls else 0)

  -- After the claim the thread's caches are the pool's: they keep what was the pool's already, and
  -- nothing of another pool.
  pub record Claimed (w : World aq) : Type 0 where
    pub ours : (claim w).pool_id ≡ w.state.id
    pub caches : Caches (claim w).caches
    pub limit : 0 < (claim w).limit
    pub same :
        (weight : Vec → ℕ)
        → stored weight (claim w) ≡ (if w.tls.pool_id == w.state.id then stored weight w.tls else 0)

  pub claim-Cached :
      (w : World aq) → 0 < w.state.tls_cache_size → Cached w.state.id w.tls → Claimed w
  unfolding claim owns bind
  claim-Cached w cache_size cached = go cached
    where
      go : Cached w.state.id w.tls → Claimed w
      go (own e all pos) =
          let t = eq→== w.tls.pool_id w.state.id e in
          record { ours = rw t e; caches = rw t all; limit = rw t pos; same = λ weight. rw t }
      go (foreign ne shape) = elim (Bool-cases (w.tls.pool_id == w.state.id)) [
        | inl t ↦ absurd (ne (==→eq _ _ t))
        | inr t ↦ record {
          ours = rw t;
          caches = rw t (clear_caches-Caches class_sizes w.tls.caches shape);
          limit = rw t cache_size;
          same = λ weight. rw t (stored-clear_caches weight w.tls.caches);
        }
      ]

  pub claim-Claimed : (w : World aq) → IsValid w → Claimed w
  claim-Claimed w v = claim-Cached w v.cache_size v.cached

  -- Counting an event, and locking a buffer, change nothing that the invariant reads.
  pub note-IsValid : (e : Event) (w : World aq) → IsValid w → IsValid (note e w)
  unfolding note
  note-IsValid e w v =
      let counted : IsValid
          (record w { state = record w.state { counters = Stats.count e w.state.counters } }) =
        record {
          contract = v.contract;
          table = v.table;
          cache_size = v.cache_size;
          cached = v.cached;
        } in
      if_either IsValid w.state.track_stats _ w counted v

  pub pin-IsValid : (buf : Vec) (w : World aq) → IsValid w → IsValid (pin buf w)
  unfolding pin
  pin-IsValid buf w v =
      let locked : IsValid (record w { locks = (buf.ptr, buf.cap) ∷ w.locks }) = record {
        contract = v.contract;
        table = v.table;
        cache_size = v.cache_size;
        cached = v.cached;
      } in
      if_either IsValid w.state.pinned_memory _ w (if_either IsValid (buf.cap == 0) w _ v locked) v

  pub pooled-note :
      (weight : Vec → ℕ) (e : Event) (w : World aq) → pooled weight (note e w) ≡ pooled weight w
  unfolding note
  pooled-note weight e w =
      if_either (λ u. pooled weight u ≡ pooled weight w) w.state.track_stats _ w refl refl

  pub pooled-pin :
      (weight : Vec → ℕ) (buf : Vec) (w : World aq) → pooled weight (pin buf w) ≡ pooled weight w
  unfolding pin
  pooled-pin weight buf w =
      let same = λ (u : World aq). pooled weight u ≡ pooled weight w in
      if_either same w.state.pinned_memory _ w (if_either same (buf.cap == 0) w _ refl refl) refl

  -- A valid class written back, with valid caches of the pool's own, gives a valid pool again.
  pub put_class-IsValid :
      (w : World aq) (i size : ℕ) (class : SizeClass aq) (tls : TlsState)
      → IsValid w
      → get_elem? class_sizes i ≡ some size
      → ClassOk size class
      → Cached w.state.id tls
      → IsValid (record w { state = put_class i class w.state; tls = tls })
  unfolding put_class
  put_class-IsValid w i size class tls v at_i ok cached = record {
    contract = v.contract;
    table = Each-set ClassOk i class_sizes w.state.table.classes size class v.table at_i ok;
    cache_size = v.cache_size;
    cached = cached;
  }
