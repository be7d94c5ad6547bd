-- ===== src/Access/Triple/Dealloc.antt =====
-- `dealloc` and `warm` of pool.rs while other threads run.
use zeropool.Base.{
  ℕ, zero, suc, ◌^◌, ◌≤◌, ◌<◌, ◌≡◌, refl, subst, inl, inr, false, List, ◌∷◌, none, some, arith,
  get_elem?, set, tally, tally-set, if◌then◌else◌, if_either, ◌==◌, leb, ltb, Bool-cases, eq→==,
  length, Each-get,
}
use zeropool.Vec.{Vec, clear}
use zeropool.ArrayQueue.{ArrayQueue}
use zeropool.SizeClass.{SizeClass}
use zeropool.SizeClass.Laws.{Serves}
use zeropool.ClassTable
use zeropool.ClassTable.Laws.{route-Each}
use zeropool.Route.{class_sizes}
use zeropool.Route.Bounds.{class_sizes_small}
use zeropool.Stats.{put, discard}
use zeropool.Tls.{TlsState, push_cache}
use zeropool.Pool.{State, claim}
use zeropool.Pool.Valid.{at, stored}
use zeropool.Pool.Alloc.Lent.{Home}
use zeropool.Pool.Dealloc.{pick_class}
use zeropool.Pool.Dealloc.Safety.{clear-Serves}
use zeropool.Access.{result, locally, ◌>>=◌, ◌>>◌}
use zeropool.Access.Calls.{
  alone, note_code, pin_code, push_code, make_room_code, keep_code, dealloc_code, warm_loop_code,
  warm_code,
}
use zeropool.Access.Triple.{Share, plus, Fresh, Secures, Secures-then}
use zeropool.Access.Triple.Moves.{
  Keeping, locally-Secures, locally-done, cache_of, set-Bound, push-Secures, spill-Secures,
}
use zeropool.Access.Triple.Pool.{Steady, Entered, note-Secures, pin-Secures, claim-Keeping}
use zeropool.Access.Triple.Alloc.{Keeping-Entered, call_allocator-Secures}

module _ {aq : ArrayQueue} (s : State aq) (steady : Steady s) where
  abbrev Back : TlsState → Share → Type 0
  Back tls share = Entered s.id (λ p. 0) tls share

  -- The cache has room, or the buffer overflows to the shared class.
  module _ (size i : ℕ) (at_i : get_elem? class_sizes i ≡ some size) (buf : Vec)
      (good : Serves size buf) where
    make_room-Secures :
        (tls : TlsState) (share : Share)
        → Keeping s.id (λ p. at p buf) tls share
        → Secures (Keeping s.id (λ p. at p buf)) (make_room_code s i tls) share
    unfolding make_room_code
    make_room-Secures tls share (bound, covers) =
        let Q = Keeping s.id (λ p. at p buf) in
        let (cache, e, all) = cache_of size i at_i s.id tls bound in
        locally-Secures Q _ _ cache share e (
          if_either (λ m. Secures Q m share) (leb tls.limit (length cache)) _ _
            (spill-Secures size i at_i s.batch_size s.id tls (λ p. at p buf) share (bound, covers))
            (bound, covers))

    stack_or_share-Secures :
        (tls : TlsState) (share : Share) (cache : List Vec)
        → Keeping s.id (λ p. at p buf) tls share
        → get_elem? tls.caches i ≡ some cache
        → Secures Back
            (if ltb (length cache) tls.limit
              then locally (push_cache tls i buf)
              else (push_code i buf >>= λ taken. result tls))
            share
    unfolding push_cache
    stack_or_share-Secures tls share cache (bound, covers) e =
        let (cache', e', all) = cache_of size i at_i s.id tls bound in
        let tls' : TlsState = record tls { caches = set tls.caches i (buf ∷ cache') } in
        let stacked =
          Keeping-Entered s.id (λ p. 0) share tls'
            (
              set-Bound size i at_i s.id tls bound (buf ∷ cache') (good, all),
              λ p.
                  omega (
                    arith,
                    covers p,
                    tally-set (tally (at p)) tls.caches i cache' (buf ∷ cache') e',
                  ),
            ) in
        let rest : Share = λ p. stored (at p) tls in
        if_either (λ m. Secures Back m share) (ltb (length cache) tls.limit) _ _
          (locally-done Back _ tls' share (rw e' refl) stacked)
          (push-Secures size i at_i Back buf _ rest share good (λ p. omega (arith, covers p))
            (Keeping-Entered s.id (λ p. 0) rest tls (bound, λ p. omega arith))
            (Keeping-Entered s.id (λ p. 0) share tls (bound, λ p. omega (arith, covers p))))

    keep-Secures :
        (tls : TlsState) (share : Share)
        → Entered s.id (λ p. at p buf) tls share
        → Secures Back (keep_code s i buf tls) share
    unfolding keep_code ClassTable.index
    keep-Secures tls share h =
        let (class, here, bound) =
          Each-get (λ size (c : SizeClass aq). c.class_size ≡ size) i class_sizes s.table.classes
            size steady.boundaries at_i in
        locally-Secures Back _ _ class share here (
          Secures-then (Keeping s.id (λ p. at p buf)) Back
            (make_room_code s i (claim (alone s tls))) _ share
            (make_room-Secures (claim (alone s tls)) share
              (claim-Keeping s tls (λ p. at p buf) share steady h))
            (λ tls' rest kept.
              let (cache, e, all) = cache_of size i at_i s.id tls' kept.0 in
              locally-Secures Back _ _ cache rest e
                (stack_or_share-Secures tls' rest cache kept e)))

  discarded-Secures :
      (buf : Vec) (tls : TlsState) (share : Share)
      → Entered s.id (λ p. at p buf) tls share
      → Secures Back (note_code s discard >> result tls) share
  discarded-Secures buf tls share (cached, covers) =
      note-Secures s Back discard (result tls) share (cached, λ p. omega (arith, covers p))

  pub dealloc-Secures :
      (v : Vec) (hint : ℕ) (tls : TlsState) (share : Share)
      → Home hint v
      → Entered s.id (λ p. at p v) tls share
      → Secures Back (dealloc_code s v hint tls) share
  unfolding dealloc_code pick_class ClassTable.boundary clear
  dealloc-Secures v hint tls share home h =
      note-Secures s Back put _ share (elim (Bool-cases (hint == 255)) [
        | inl out ↦ rw out (discarded-Secures v tls share h)
        | inr pooled ↦ rw pooled (elim (Bool-cases (ltb v.cap s.min_buffer_size)) [
          | inl small ↦ rw small (discarded-Secures v tls share h)
          | inr large ↦ rw large (keeps pooled home)
        ])
      ])
    where
      keeps :
          (hint == 255) ≡ false
          → Home hint v
          → Secures Back
              (locally (pick_class (clear v).cap hint (alone s tls)) >>= λ picked. elim picked [
                | none ↦ result tls
                | some i ↦ pin_code s (clear v) >> keep_code s i (clear v) tls
              ])
              share
      keeps pooled (inl e) = absurd (ground (arith, eq→== hint 255 e))
      keeps pooled (inr (b, at_b, fits)) =
          let picks : pick_class (clear v).cap hint (alone s tls) ≡ some (some hint) =
            ground arith in
          locally-Secures Back _ _ (some hint) share picks (
            pin-Secures s Back (clear v) _ share
              (keep-Secures b hint at_b (clear v) (clear-Serves b v fits) tls share h))

  -- What `warm` makes, it gives to the class or drops.
  abbrev Unchanged : Share → Unit {0} → Share → Type 0
  Unchanged before u share = (p : ℕ) → before p ≤ share p

  Fresh-Serves : (n : ℕ) (v : Vec) → Fresh n v → Serves n v
  Fresh-Serves n v fresh =
      let long = fresh.long in
      record {
        large = omega (arith, fresh.room);
        visible = fresh.room;
        zeros = λ i lt below. fresh.zeros i below;
      }

  module _ (size i : ℕ) (at_i : get_elem? class_sizes i ≡ some size) (class : SizeClass aq)
      (bound : class.class_size ≡ size) (before : Share) where
    warm_loop-Secures :
        (count : ℕ) (share : Share)
        → ((p : ℕ) → before p ≤ share p)
        → Secures (Unchanged before) (warm_loop_code s count i class) share
    unfolding warm_loop_code
    warm_loop-Secures zero share h = h
    warm_loop-Secures (suc count) share h =
        let Q = Unchanged before in
        call_allocator-Secures Q class.class_size _ share
          (omega (arith, class_sizes_small i size at_i))
          (λ v fresh. pin-Secures s Q v _ (plus share v) (
            push-Secures size i at_i Q v _ share (plus share v)
              (subst (λ n. Serves n v) bound (Fresh-Serves class.class_size v fresh))
              (λ p. omega arith) (warm_loop-Secures count share h) (λ p. omega (arith, h p))))

  pub warm-Secures :
      (count size : ℕ) (share : Share)
      → size < 2 ^ 64
      → Secures (λ u rest. (p : ℕ) → share p ≤ rest p) (warm_code s count size) share
  unfolding warm_code
  warm-Secures count size share small =
      let Q = Unchanged share in
      elim (route-Each (λ b (c : SizeClass aq). c.class_size ≡ b) s.table size small
        steady.boundaries) [
          | inl (over, e) ↦ locally-Secures Q _ _ none share e (λ p. omega arith)
          | inr (i, b, class, e, routed, at_i, here, fits, bound) ↦
              locally-Secures Q _ _ (some (i, class)) share e
                (warm_loop-Secures b i at_i class bound share count share (λ p. omega arith))
        ]
