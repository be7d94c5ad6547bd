-- ===== src/Access/Whole/Keep.antt =====
-- The `TlsState::with` closure of `dealloc` in pool.rs, access by access against the
-- same code as a whole.
use mathlib.Core.Option
use zeropool.Base.{
  ℕ, ◌≡◌, ◌∙◌, true, false, if◌then◌else◌, some, inl, inr, Option-cases, get_elem?, ltb, length,
  ◌>>=◌,
}
use zeropool.Vec.{Heap, Vec}
use zeropool.ArrayQueue.{ArrayQueue}
use zeropool.SizeClass.{SizeClass}
use zeropool.SizeClass
use zeropool.ClassTable
use zeropool.Pool.{State, claim}
use zeropool.Pool.Dealloc.{make_room, push_shared, keep}
use zeropool.Tls.{TlsState, push_cache}
use zeropool.Access
use zeropool.Access.{Code, result, locally, Shared, put, run}
use zeropool.Access.Calls.{alone, push_code, make_room_code, keep_code}
use zeropool.Access.Whole.{go_on, get-put, shared_of, world_of, run-then, run-push_code}
use zeropool.Access.Whole.Calls.{run-make_room_code}

module _ {aq : ArrayQueue} (heap : Heap) (i : ℕ) where
  run-push_shared :
      (buf : Vec) (class : SizeClass aq) (tls : TlsState) (s : Shared aq)
      → get_elem? s.state.table.classes i ≡ some class
      → go_on (run heap (push_code i buf) s) (λ taken t. some (tls, t))
        ≡ Option.map (λ w. (w.tls, shared_of w)) (push_shared i buf (world_of s tls))
  unfolding push_shared ClassTable.index
  run-push_shared buf class tls s at_i =
      rw (run-push_code heap i class s at_i buf, at_i)
        (elim (Option-cases (SizeClass.push buf class)) [
          | inl full ↦ rw (full, ◌>>=◌)
          | inr (d, pushed) ↦ rw (pushed, ◌>>=◌)
        ])

  -- Into the cache if there is room, else to the shared class.
  run-stow :
      (buf : Vec) (class : SizeClass aq) (tls : TlsState) (s : Shared aq)
      → get_elem? s.state.table.classes i ≡ some class
      → run heap
          (Access.◌>>=◌ (locally (get_elem? tls.caches i)) (λ cache.
            if ltb (length cache) tls.limit
            then locally (push_cache tls i buf)
            else Access.◌>>=◌ (push_code i buf) (λ taken. result tls)))
          s
        ≡ Option.map
            (λ w. (w.tls, shared_of w))
            (get_elem? tls.caches i >>= λ cache.
              if ltb (length cache) tls.limit
              then (push_cache tls i buf >>= λ tls'. some (world_of s tls'))
              else push_shared i buf (world_of s tls))
  unfolding Access.◌>>=◌ run
  run-stow buf class tls s at_i = elim (Option-cases (get_elem? tls.caches i)) [
    | inl out ↦ rw (out, run)
    | inr (cache, e) ↦
        rw (e, run, ◌>>=◌)
          (elim (ltb (length cache) tls.limit)
            as (λ b.
              run heap
                (if b
                  then locally (push_cache tls i buf)
                  else Access.◌>>=◌ (push_code i buf) (λ taken. result tls))
                s
              ≡ Option.map (λ w. (w.tls, shared_of w))
                  (if b
                    then (push_cache tls i buf >>= λ tls'. some (world_of s tls'))
                    else push_shared i buf (world_of s tls))) [
                      | true ↦ elim (Option-cases (push_cache tls i buf)) [
                        | inl out ↦ rw (out, run)
                        | inr (tls', into) ↦ rw (into, run)
                      ]
                      | false ↦
                          run-then heap (push_code i buf) _ s ∙ run-push_shared buf class tls s at_i
                    ])
  ]

  module _ (s0 : State aq) (tls : TlsState) (s : Shared aq)
      (mine : claim (alone s0 tls) ≡ claim (world_of s tls))
      (batch : s0.batch_size ≡ s.state.batch_size) where
    pub run-keep_code :
        (buf : Vec)
        → s0.table ≡ s.state.table
        → run heap (keep_code s0 i buf tls) s
          ≡ Option.map (λ w. (w.tls, shared_of w)) (keep i buf (world_of s tls))
    unfolding keep_code keep Access.◌>>=◌ run ClassTable.index
    run-keep_code buf same = elim (Option-cases (get_elem? s.state.table.classes i)) [
      | inl out ↦ rw (same, out, run)
      | inr (class, at_i) ↦
          let own = claim (world_of s tls) in
          rw (mine, same, at_i)
            (run-then heap (make_room_code s0 i own) _ s
              ∙ rw (run-make_room_code heap i s0 tls s mine batch own class at_i)
                  (elim (Option-cases (make_room i own class s.state.batch_size)) [
                    | inl out ↦ rw (out, ◌>>=◌)
                    | inr (r, room) ↦
                        rw (room, ◌>>=◌)
                          (run-stow buf r.1 r.0 (put i r.1 s) (get-put i class r.1 s at_i))
                  ]))
    ]
