-- ===== src/Access/Whole/Dealloc.antt =====
-- `dealloc` of pool.rs that no other thread interrupts, access by access, against the call as a whole.
use mathlib.Core.Option
use zeropool.Base.{
  ℕ, ◌≡◌, refl, sym, ap, ◌∙◌, Bool, true, false, Option, none, some, ◌>>=◌, ltb, ◌==◌,
  if◌then◌else◌,
}
use zeropool.Vec.{Heap, Vec, clear}
use zeropool.ArrayQueue.{ArrayQueue}
use zeropool.Stats.{put, discard}
use zeropool.Pool.{State, World, note, pin, claim}
use zeropool.Pool.Dealloc.{pick_class, keep, dealloc}
use zeropool.Tls.{TlsState}
use zeropool.Access
use zeropool.Access.{Code, result, Shared, run}
use zeropool.Access.Calls.{alone, note_code, pin_code, keep_code, dealloc_code}
use zeropool.Access.Whole.{
  noted, pinned, world_of, shared_of, note-world_of, pin-world_of, run-then, run-noting,
  run-pin_code,
}
use zeropool.Access.Whole.Keep.{run-keep_code}

module _ {aq : ArrayQueue} where
  -- The world after a call that returns no guard.
  abbrev pub world_after : TlsState × Shared aq → World aq
  world_after r = world_of r.1 r.0

module _ {aq : ArrayQueue} (heap : Heap) where
  abbrev Agrees : Shared aq → Code TlsState → Option (World aq) → Type 0
  Agrees s code whole = Option.map world_after (run heap code s) ≡ whole

  if-Agrees :
      (s : Shared aq) (b : Bool) (x y : Code TlsState) (u v : Option (World aq))
      → Agrees s x u
      → Agrees s y v
      → Agrees s (if b then x else y) (if b then u else v)
  if-Agrees s true x y u v p q = p
  if-Agrees s false x y u v p q = q

  whole_again :
      (o : Option (World aq))
      → Option.map world_after (Option.map (λ (w : World aq). (w.tls, shared_of w)) o) ≡ o
  whole_again none = refl
  whole_again (some w) = refl

  module _ (s0 : State aq) (tls : TlsState) (s : Shared aq)
      (track : s0.track_stats ≡ s.state.track_stats)
      (pinning : s0.pinned_memory ≡ s.state.pinned_memory)
      (batch : s0.batch_size ≡ s.state.batch_size) (table : s0.table ≡ s.state.table) where
    run-discard :
        Agrees s
          (Access.◌>>=◌ (note_code s0 discard) (λ u. result tls))
          (some (note discard (world_of s tls)))
    unfolding run
    run-discard =
        ap (Option.map world_after) (run-noting heap s s0 discard _ track)
        ∙ ap some (sym (note-world_of discard s tls))

    run-returned :
        (buf : Vec) (i : ℕ)
        → claim (alone s0 tls) ≡ claim (world_of (pinned buf s) tls)
        → Agrees s
            (Access.◌>>=◌ (pin_code s0 buf) (λ u. keep_code s0 i buf tls))
            (keep i buf (pin buf (world_of s tls)))
    run-returned buf i mine =
        ap (Option.map world_after) (run-then heap (pin_code s0 buf) _ s)
        ∙ rw (run-pin_code heap s s0 buf pinning, pin-world_of buf s tls)
            (ap (Option.map world_after)
                (run-keep_code heap i s0 tls (pinned buf s) mine batch buf table)
              ∙ whole_again (keep i buf (world_of (pinned buf s) tls)))

    run-picked :
        (buf : Vec) (picked : Option (Option ℕ))
        → claim (alone s0 tls) ≡ claim (world_of (pinned buf s) tls)
        → Agrees s
            (Access.◌>>=◌ (Access.locally picked) (λ o. elim o [
              | none ↦ result tls
              | some i ↦ Access.◌>>=◌ (pin_code s0 buf) (λ u. keep_code s0 i buf tls)
            ]))
            (picked >>= λ o. elim o [
              | none ↦ some (world_of s tls)
              | some i ↦ keep i buf (pin buf (world_of s tls))
            ])
    unfolding Access.◌>>=◌ run
    run-picked buf none mine = refl
    run-picked buf (some none) mine = refl
    run-picked buf (some (some i)) mine = run-returned buf i mine

  -- The call as a whole, once it is counted.
  abbrev counted : Vec → ℕ → World aq → Option (World aq)
  counted v hint w =
      if hint == 255
      then some (note discard w)
      else (if ltb (clear v).cap w.state.min_buffer_size
          then some (note discard w)
          else (pick_class (clear v).cap hint w >>= λ picked. elim picked [
            | none ↦ some w
            | some i ↦ keep i (clear v) (pin (clear v) w)
          ]))

  pub run-dealloc_code :
      (v : Vec) (hint : ℕ) (tls : TlsState) (s : Shared aq)
      → Option.map world_after (run heap (dealloc_code s.state v hint tls) s)
        ≡ dealloc v hint (world_of s tls)
  unfolding dealloc_code dealloc claim pick_class
  run-dealloc_code v hint tls s =
      let t = noted put s in
      let s0 = s.state in
      let buf = clear v in
      ap (Option.map world_after) (run-noting heap s s0 put _ refl)
      ∙ if-Agrees t (hint == 255) _ _ _ _ (run-discard s0 tls t refl refl refl refl) (
          if-Agrees t (ltb buf.cap s0.min_buffer_size) _ _ _ _
            (run-discard s0 tls t refl refl refl refl)
            (run-picked s0 tls t refl refl refl refl buf (pick_class buf.cap hint (alone s0 tls))
              refl))
      ∙ ap (counted v hint) (sym (note-world_of put s tls))
