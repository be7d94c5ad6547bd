-- ===== src/Access/Whole/Calls.antt =====
-- The `TlsState::with` closures of pool.rs, access by access against the
-- same code as a whole.
use mathlib.Core.Option
use zeropool.Base.{
  ℕ, ◌≡◌, sym, ap, ◌∙◌, [], ◌∷◌, Bool, true, false, if◌then◌else◌, Option, some, inl, inr,
  Option-cases, get_elem?, set, leb, length,
}
use zeropool.Vec.{Heap, Vec}
use zeropool.ArrayQueue.{ArrayQueue}
use zeropool.SizeClass.{SizeClass}
use zeropool.Pool.{State, claim, put_class}
use zeropool.Pool.Alloc.{take_pooled}
use zeropool.Pool.Dealloc.{make_room}
use zeropool.Tls.{TlsState, refill, spill}
use zeropool.Access.{Code, result, ◌>>=◌, locally, Shared, put, run}
use zeropool.Access.Calls.{alone, refill_code, spill_code, take_pooled_code, make_room_code}
use zeropool.Access.Whole.{put_self, shared_of, world_of, run-then}
use zeropool.Access.Whole.Moves.{run-refill_code, run-spill_code}

-- `take_pooled_code` of the thread's state once the pool owns it, and the batch size.
abbrev drawn : ℕ → TlsState → ℕ → Code (Option (Vec × Bool) × TlsState)
drawn i own batch = locally (get_elem? own.caches i) >>= λ cache. elim cache [
  | buf ∷ rest ↦ result (some (buf, true), record own { caches = set own.caches i rest })
  | [] ↦ refill_code own i batch >>= λ r. result (Option.map (λ buf. (buf, false)) r.0, r.1)
]

module _ {aq : ArrayQueue} (heap : Heap) (i : ℕ) where
  module _ (s0 : State aq) (tls : TlsState) (s : Shared aq)
      (mine : claim (alone s0 tls) ≡ claim (world_of s tls))
      (batch : s0.batch_size ≡ s.state.batch_size) where
    pub run-take_pooled_code :
        (class : SizeClass aq)
        → get_elem? s.state.table.classes i ≡ some class
        → run heap (take_pooled_code s0 i tls) s
          ≡ Option.map (λ r. ((r.0, r.1.tls), shared_of r.1)) (take_pooled i class (world_of s tls))
    unfolding take_pooled_code take_pooled ◌>>=◌ run put_class
    run-take_pooled_code class at_i =
        let own = claim (world_of s tls) in
        ap (λ m. run heap (drawn i m s0.batch_size) s) mine
        ∙ ap (λ n. run heap (drawn i own n) s) batch
        ∙ (elim (Option-cases (get_elem? own.caches i)) [
          | inl out ↦ rw (out, run)
          | inr ([], e) ↦
              rw (e, run)
                (run-then heap (refill_code own i s.state.batch_size) _ s
                  ∙ rw (run-refill_code heap i s.state.batch_size own class s at_i)
                      (elim (Option-cases (refill own i class s.state.batch_size)) [
                        | inl out ↦ rw out
                        | inr (r, moved) ↦ rw moved
                      ]))
          | inr (buf ∷ rest, e) ↦ rw (e, run)
        ])

    pub run-make_room_code :
        (u : TlsState) (class : SizeClass aq)
        → get_elem? s.state.table.classes i ≡ some class
        → run heap (make_room_code s0 i u) s
          ≡ Option.map (λ r. (r.0, put i r.1 s)) (make_room i u class s.state.batch_size)
    unfolding make_room_code make_room ◌>>=◌ run
    run-make_room_code u class at_i = elim (Option-cases (get_elem? u.caches i)) [
      | inl out ↦ rw (out, run)
      | inr (cache, e) ↦
          rw (e, run, batch)
            (elim (leb u.limit (length cache))
              as (λ b.
                run heap (if b then spill_code s.state.batch_size u i else result u) s
                ≡ Option.map (λ r. (r.0, put i r.1 s))
                    (if b then spill s.state.batch_size u i class else some (u, class))) [
                      | true ↦ run-spill_code heap i s.state.batch_size u class s at_i
                      | false ↦ ap (λ t. some (u, t)) (sym (put_self i class s at_i))
                    ])
    ]
