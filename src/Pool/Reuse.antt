-- ===== src/Pool/Reuse.antt =====
-- A buffer that a thread returns and asks for again, by `dealloc` and `alloc` of pool.rs.
mod Tests
use zeropool.Base.{
  ℕ, ◌%◌, ◌^◌, ◌<◌, ◌≤◌, ◌≡◌, refl, sym, ap, ◌∙◌, inl, inr, true, false, List, ◌∷◌, some, arith,
  get_elem?, set, set_self, set-set, get_elem?-set_self, length, eq→==, ◌==◌, if_either, Each-get,
  subst, get_elem?-lt,
}
use zeropool.Vec.{Vec, clear}
use zeropool.ArrayQueue.{ArrayQueue}
use zeropool.SizeClass.{SizeClass}
use zeropool.SizeClass.Laws.{Serves, ClassOk}
use zeropool.SizeClass.Resize.{Zeroed, resize_zeroed-Zeroed}
use zeropool.ClassTable
use zeropool.Route.{class_sizes, route_size}
use zeropool.Route.Bounds.{route_size-fits}
use zeropool.Pool.Alloc.Lent.{Home}
use zeropool.Pool.Dealloc.Safety.{clear-Serves}
use zeropool.ClassTable.{ClassTable}
use zeropool.Tls.{TlsState, owns, push_cache}
use zeropool.Stats.{Event, get, put, tls_hit}
use zeropool.Buf
use zeropool.Pool.{State, World, note, pin, claim, put_class}
use zeropool.Pool.Valid.{IsValid}
use zeropool.Pool.Unmoved.{Unmoved, note-Unmoved, pin-Unmoved, Unmoved-trans}
use zeropool.Pool.Alloc.{take_pooled, note_hit, alloc_routed, alloc}
use zeropool.Pool.Dealloc.{keep, make_room, pick_class, dealloc}

clear-ptr : (v : Vec) → (clear v).ptr ≡ v.ptr
unfolding clear
clear-ptr v = refl

clear-cap : (v : Vec) → (clear v).cap ≡ v.cap
unfolding clear
clear-cap v = refl

Home-fits : (i b : ℕ) (v : Vec) → Home i v → get_elem? class_sizes i ≡ some b → i < 8 → b ≤ v.cap
Home-fits i b v (inl e) at_b low = absurd (omega arith)
Home-fits i b v (inr (d, at_d, fits)) at_b low = let same : d ≡ b = cc in omega arith

-- A cache replaced, and the old one put back.
put_back :
    (t : TlsState) (i : ℕ) (cache other : List Vec)
    → get_elem? t.caches i ≡ some cache
    → record t { caches = set (set t.caches i other) i cache } ≡ t
put_back t i cache other e =
    ap (λ cs. record t { caches = cs })
      (set-set t.caches i other cache ∙ set_self t.caches i cache e)

module _ {aq : ArrayQueue} where
  put_class_self :
      (s : State aq) (i : ℕ) (class : SizeClass aq)
      → get_elem? s.table.classes i ≡ some class
      → put_class i class s ≡ s
  unfolding put_class
  put_class_self s i class e =
      ap (λ cs. record s { table = record { classes = cs } }) (set_self s.table.classes i class e)

  claim-own : (w : World aq) → w.tls.pool_id ≡ w.state.id → claim w ≡ w.tls
  unfolding claim owns
  claim-own w e = rw (eq→== w.tls.pool_id w.state.id e)

  -- A thread's cache replaced.
  abbrev recached : World aq → ℕ → List Vec → World aq
  recached w i cache = record w { tls = record w.tls { caches = set w.tls.caches i cache } }

  keep-top :
      (i : ℕ) (buf : Vec) (w : World aq) (cache : List Vec) (class : SizeClass aq)
      → w.tls.pool_id ≡ w.state.id
      → get_elem? w.tls.caches i ≡ some cache
      → length cache < w.tls.limit
      → get_elem? w.state.table.classes i ≡ some class
      → keep i buf w ≡ some (recached w i (buf ∷ cache))
  unfolding keep make_room push_cache ClassTable.index
  keep-top i buf w cache class ours cached free here =
      let room : make_room i w.tls class w.state.batch_size ≡ some (w.tls, class) = ground arith in
      ground (arith, claim-own w ours, put_class_self w.state i class here, room)

  take-top :
      (i : ℕ) (buf : Vec) (w : World aq) (rest : List Vec) (class : SizeClass aq)
      → w.tls.pool_id ≡ w.state.id
      → get_elem? w.tls.caches i ≡ some (buf ∷ rest)
      → take_pooled i class w ≡ some (some (buf, true), recached w i rest)
  unfolding take_pooled
  take-top i buf w rest class ours cached = ground (arith, claim-own w ours)

  -- The pool when a buffer is about to be kept.
  abbrev received : Vec → World aq → World aq
  received v w = pin (clear v) (note put w)

  received-Unmoved : (v : Vec) (w : World aq) → Unmoved w (received v w)
  received-Unmoved v w = Unmoved-trans (note-Unmoved put w) (pin-Unmoved (clear v) (note put w))

  dealloc-keep :
      (v : Vec) (i b : ℕ) (w : World aq)
      → get_elem? class_sizes i ≡ some b
      → b ≤ v.cap
      → i < 255
      → w.state.min_buffer_size ≤ v.cap
      → dealloc v i w ≡ keep i (clear v) (received v w)
  unfolding dealloc pick_class ClassTable.boundary clear
  dealloc-keep v i b w at_i fits low large =
      let other : (i == 255) ≡ false = ground arith in ground (arith, (note-Unmoved put w).least)

  alloc-top :
      (size i b : ℕ) (v : Vec) (rest : List Vec) (w : World aq) (class : SizeClass aq)
      → size < 2 ^ 64
      → w.tls.pool_id ≡ w.state.id
      → route_size size ≡ some i
      → get_elem? w.state.table.classes i ≡ some class
      → get_elem? w.tls.caches i ≡ some (v ∷ rest)
      → Serves b v
      → size ≤ b
      → (u : Vec) × (alloc size w
          ≡ some (Buf.new u (i % 2 ^ 8), note tls_hit (recached (note get w) i rest)))
        × Zeroed size u
        × (u.cap ≡ v.cap)
        × (u.ptr ≡ v.ptr)
  unfolding alloc alloc_routed note_hit ClassTable.route ClassTable.index
  alloc-top size i b v rest w class small ours routed here cached good fits =
      let n = note-Unmoved get w in
      let (u, run, zeroed, same_cap, same_ptr) = resize_zeroed-Zeroed b size v good fits in
      let top =
        take-top i v (note get w) rest class
          (ap (λ (t : TlsState). t.pool_id) n.tls ∙ ours ∙ sym n.id)
          (ap (λ (t : TlsState). get_elem? t.caches i) n.tls ∙ cached) in
      (u, ground (arith, run, top, n.table), zeroed, same_cap, same_ptr)

  -- If a thread whose caches are the pool's returns a buffer, of its class and no smaller than the
  -- pool's minimum, while its cache of that class has room, and then asks for a size below 2^64 of
  -- the class: both calls return, and the guard holds the same allocation, with as many zero bytes
  -- as requested; caches, shared classes and allocator are as they were before.
  pub dealloc-alloc :
      (size i : ℕ) (v : Vec) (cache : List Vec) (w : World aq)
      → IsValid w
      → w.tls.pool_id ≡ w.state.id
      → size < 2 ^ 64
      → route_size size ≡ some i
      → Home i v
      → w.state.min_buffer_size ≤ v.cap
      → get_elem? w.tls.caches i ≡ some cache
      → length cache < w.tls.limit
      → (after : World aq) × (final : World aq) × (u : Vec) × (dealloc v i w ≡ some after)
        × (alloc size after ≡ some (Buf.new u i, final))
        × (u.ptr ≡ v.ptr)
        × (u.cap ≡ v.cap)
        × Zeroed size u
        × (final.tls ≡ w.tls)
        × (final.state.table ≡ w.state.table)
        × (final.serial ≡ w.serial)
  dealloc-alloc size i v cache w valid ours small routed home large cached free =
      let (b, at_b, fits) = route_size-fits size i small routed in
      let low : i < 8 = get_elem?-lt class_sizes i b at_b in
      let same : i % 2 ^ 8 ≡ i = omega arith in
      let roomy : b ≤ v.cap = Home-fits i b v home at_b low in
      let (class, here, ok) =
        Each-get ClassOk i class_sizes w.state.table.classes b valid.table at_b in
      let x = received v w in
      let m = received-Unmoved v w in
      let ours_x = ap (λ (t : TlsState). t.pool_id) m.tls ∙ ours ∙ sym m.id in
      let cached_x = ap (λ (t : TlsState). get_elem? t.caches i) m.tls ∙ cached in
      let free_x = subst (λ (t : TlsState). length cache < t.limit) (sym m.tls) free in
      let here_x = ap (λ (t : ClassTable aq). get_elem? t.classes i) m.table ∙ here in
      let kept = keep-top i (clear v) x cache class ours_x cached_x free_x here_x in
      let after = recached x i (clear v ∷ cache) in
      let n = note-Unmoved get after in
      let held_on : get_elem? after.tls.caches i ≡ some (clear v ∷ cache) =
        get_elem?-set_self x.tls.caches i cache (clear v ∷ cache) cached_x in
      let (u, run, zeroed, same_cap, same_ptr) =
        alloc-top size i b (clear v) cache after class small ours_x routed here_x held_on
          (clear-Serves b v roomy) fits in
      let final = note tls_hit (recached (note get after) i cache) in
      let f = note-Unmoved tls_hit (recached (note get after) i cache) in
      (
        after,
        final,
        u,
        dealloc-keep v i b w at_b roomy (omega arith) large ∙ kept,
        run ∙ ap (λ k. some (Buf.new u k, final)) same,
        same_ptr ∙ clear-ptr v,
        same_cap ∙ clear-cap v,
        zeroed,
        f.tls
            ∙ ap (λ (t : TlsState). record t { caches = set t.caches i cache }) n.tls
            ∙ put_back x.tls i cache (clear v ∷ cache) cached_x
            ∙ m.tls,
        f.table ∙ n.table ∙ m.table,
        f.serial ∙ n.serial ∙ m.serial,
      )
