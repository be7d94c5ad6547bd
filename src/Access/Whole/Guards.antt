-- ===== src/Access/Whole/Guards.antt =====
-- What `alloc` and `alloc_uninit` of pool.rs do alike once they have a buffer, or the capacity for one.
use mathlib.Core.Option
use zeropool.Base.{
  ℕ, suc, ◌≡◌, refl, sym, ap, ◌∙◌, Bool, true, false, Option, none, some, ◌>>=◌, inl, inr,
  Option-cases, get_elem?, arith,
}
use zeropool.Vec.{Heap, Vec, truncate, with_capacity}
use zeropool.ArrayQueue.{ArrayQueue}
use zeropool.Stats.{Event, tls_hit, shared_hit}
use zeropool.SizeClass.{SizeClass, resize_uninit}
use zeropool.ClassTable
use zeropool.Pool.{State, World, pin, allocate, claim}
use zeropool.Pool.Settings.{Settings, settings, settings-Frame}
use zeropool.Pool.Alloc.{take_pooled, note_hit}
use zeropool.Tls.{TlsState}
use zeropool.Access
use zeropool.Access.{Code, result, call_allocator, call_vec, locally, Shared, run}
use zeropool.Access.Calls.{alone, take_pooled_code, note_code, pin_code, note_hit_code}
use zeropool.Access.Whole.{
  noted, world_of, shared_of, note-world_of, pin-world_of, run-then, run-note_code, run-pin_code,
}
use zeropool.Access.Whole.Calls.{run-take_pooled_code}

module _ {aq : ArrayQueue} where
  pub claim-noted :
      (e : Event) (tls : TlsState) (s : Shared aq)
      → claim (alone s.state tls) ≡ claim (world_of (noted e s) tls)
  unfolding claim
  claim-noted e tls s = refl

  pub route_found :
      (size : ℕ) (s : State aq) (i : ℕ) (class : SizeClass aq)
      → ClassTable.route s.table size ≡ some (some (i, class))
      → get_elem? s.table.classes i ≡ some class
  unfolding ClassTable.route
  route_found size s i class e = ground arith

module _ {aq : ArrayQueue} {G : Type 0} (guard : Vec → ℕ → G) where
  -- The guard of a call, and the world after it.
  abbrev pub guard_of : ((Vec × ℕ) × TlsState) × Shared aq → G × World aq
  guard_of r = (guard r.0.0.0 r.0.0.1, world_of r.1 r.0.1)

  -- The closure, and what follows it: if that agrees for each outcome, so do both together.
  pub run-routed :
      (heap : Heap) (s0 : State aq) (tls : TlsState) (s : Shared aq) (i : ℕ) (class : SizeClass aq)
      (found : Option (Vec × Bool) → TlsState → Code ((Vec × ℕ) × TlsState))
      (whole : Option (Vec × Bool) → World aq → Option (G × World aq))
      → settings (alone s0 tls) ≡ settings (world_of s tls)
      → claim (alone s0 tls) ≡ claim (world_of s tls)
      → get_elem? s.state.table.classes i ≡ some class
      → ((out : Option (Vec × Bool)) (w : World aq)
          → settings (alone s0 tls) ≡ settings w
          → Option.map guard_of (run heap (found out w.tls) (shared_of w)) ≡ whole out w)
      → Option.map guard_of
          (run heap (Access.◌>>=◌ (take_pooled_code s0 i tls) (λ r. found r.0 r.1)) s)
        ≡ (take_pooled i class (world_of s tls) >>= λ r. whole r.0 r.1)
  run-routed heap s0 tls s i class found whole same mine at_i agrees =
      let batch : s0.batch_size ≡ s.state.batch_size = ap (λ (x : Settings). x.batch_size) same in
      ap (Option.map guard_of) (run-then heap (take_pooled_code s0 i tls) _ s)
      ∙ rw (run-take_pooled_code heap i s0 tls s mine batch class at_i)
          (elim (Option-cases (take_pooled i class (world_of s tls))) [
            | inl out ↦ rw (out, ◌>>=◌)
            | inr ((out, w), e) ↦
                rw (e, ◌>>=◌)
                  (agrees out w
                    (same ∙ sym (settings-Frame.takes i class (world_of s tls) w out e)))
          ])

  module _ (heap : Heap) (s0 : State aq) (hint : ℕ) (tls : TlsState) (s : Shared aq) where
    -- A fresh buffer is pinned and handed out.
    pub run-fresh :
        (buf : Vec)
        → s0.pinned_memory ≡ s.state.pinned_memory
        → Option.map guard_of
            (run heap (Access.◌>>=◌ (pin_code s0 buf) (λ u. result ((buf, hint), tls))) s)
          ≡ some (guard buf hint, pin buf (world_of s tls))
    unfolding run
    run-fresh buf pinning =
        ap (Option.map guard_of) (run-then heap (pin_code s0 buf) _ s)
        ∙ rw (run-pin_code heap s s0 buf pinning, pin-world_of buf s tls)

    -- A pooled buffer is counted, resized and handed out.
    pub run-pooled :
        (from_tls : Bool) (resized : Option Vec)
        → s0.track_stats ≡ s.state.track_stats
        → Option.map guard_of (
            run heap
              (Access.◌>>=◌
                (note_hit_code s0 from_tls)
                (λ u. Access.◌>>=◌ (locally resized) (λ buf. result ((buf, hint), tls))))
              s)
          ≡ (resized >>= λ buf. some (guard buf hint, note_hit from_tls (world_of s tls)))
    unfolding run note_hit_code note_hit Access.◌>>=◌
    run-pooled true none track =
        ap (Option.map guard_of) (run-then heap (note_code s0 tls_hit) _ s)
        ∙ rw (run-note_code heap s s0 tls_hit track)
    run-pooled true (some buf) track =
        ap (Option.map guard_of) (run-then heap (note_code s0 tls_hit) _ s)
        ∙ rw (run-note_code heap s s0 tls_hit track, note-world_of tls_hit s tls)
    run-pooled false none track =
        ap (Option.map guard_of) (run-then heap (note_code s0 shared_hit) _ s)
        ∙ rw (run-note_code heap s s0 shared_hit track)
    run-pooled false (some buf) track =
        ap (Option.map guard_of) (run-then heap (note_code s0 shared_hit) _ s)
        ∙ rw (run-note_code heap s s0 shared_hit track, note-world_of shared_hit s tls)

  module _ (heap : Heap) (s0 : State aq) (hint : ℕ) (tls : TlsState) where
    run-sized :
        (t : Shared aq) (sized : Option Vec)
        → s0.pinned_memory ≡ t.state.pinned_memory
        → Option.map guard_of (
            run heap
              (Access.◌>>=◌
                (locally sized)
                (λ buf. Access.◌>>=◌ (pin_code s0 buf) (λ u. result ((buf, hint), tls))))
              t)
          ≡ (sized >>= λ buf. some (guard buf hint, pin buf (world_of t tls)))
    unfolding Access.◌>>=◌ run
    run-sized t none pinning = refl
    run-sized t (some buf) pinning = run-fresh heap s0 hint tls t buf pinning

    -- A fresh allocation is given its length, pinned and handed out.
    pub run-raw :
        (s : Shared aq) (n size : ℕ)
        → s0.pinned_memory ≡ s.state.pinned_memory
        → Option.map guard_of (
            run heap
              (Access.◌>>=◌ (call_vec n result) (λ raw.
                Access.◌>>=◌
                  (locally (resize_uninit raw size))
                  (λ buf. Access.◌>>=◌ (pin_code s0 buf) (λ u. result ((buf, hint), tls)))))
              s)
          ≡ (with_capacity heap s.serial n >>= λ raw. resize_uninit raw size >>= λ buf.
              some (guard buf hint, pin buf (world_of (record s { serial = suc s.serial }) tls)))
    unfolding Access.◌>>=◌ run
    run-raw s n size pinning = elim (Option-cases (with_capacity heap s.serial n)) [
      | inl refused ↦ rw (refused, run, ◌>>=◌)
      | inr (raw, made) ↦
          rw (made, run)
            (run-sized (record s { serial = suc s.serial }) (resize_uninit raw size) pinning)
    ]

    -- What the allocator answers is cut to size, pinned and handed out.
    pub run-new :
        (s : Shared aq) (n size : ℕ)
        → s0.pinned_memory ≡ s.state.pinned_memory
        → Option.map guard_of (
            run heap
              (Access.◌>>=◌ (call_allocator n result) (λ raw.
                Access.◌>>=◌
                  (pin_code s0 (truncate raw size))
                  (λ u. result ((truncate raw size, hint), tls))))
              s)
          ≡ (allocate n (world_of s tls) >>= λ r.
              some (guard (truncate r.0 size) hint, pin (truncate r.0 size) r.1))
    unfolding Access.◌>>=◌ run allocate
    run-new s n size pinning = elim (Option-cases (s.state.allocator.allocate s.serial n)) [
      | inl refused ↦ rw (refused, run, ◌>>=◌)
      | inr (raw, made) ↦
          rw (made, run)
            (run-fresh heap s0 hint tls (record s { serial = suc s.serial }) (truncate raw size)
              pinning)
    ]
