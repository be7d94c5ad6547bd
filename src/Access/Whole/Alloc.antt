-- ===== src/Access/Whole/Alloc.antt =====
-- `alloc` of pool.rs that no other thread interrupts, access by access, against the call as a whole.
use mathlib.Core.Option
use zeropool.Base.{
  ℕ, ◌%◌, ◌^◌, ◌≡◌, refl, sym, ap, ◌∙◌, Bool, Option, none, some, ◌>>=◌, inl, inr, Option-cases,
  get_elem?,
}
use zeropool.Vec.{Heap, Vec, truncate}
use zeropool.ArrayQueue.{ArrayQueue}
use zeropool.SizeClass.{SizeClass, resize_zeroed}
use zeropool.ClassTable
use zeropool.Buf.{Buf}
use zeropool.Buf
use zeropool.Stats.{get, allocation, oversized}
use zeropool.Pool.{State, World, claim}
use zeropool.Pool.Settings.{Settings, settings}
use zeropool.Pool.Alloc.{note_hit, alloc_oversize, alloc_cold, alloc_routed, alloc}
use zeropool.Tls.{TlsState}
use zeropool.Access
use zeropool.Access.{Code, result, call_allocator, Shared, run}
use zeropool.Access.Calls.{
  alone, note_code, pin_code, take_pooled_code, alloc_found_code, alloc_code,
}
use zeropool.Access.Whole.{
  noted, world_of, shared_of, note-world_of, run-then, run-note_code, run-noting,
}
use zeropool.Access.Whole.Guards.{
  guard_of, run-new, run-pooled, run-routed, claim-noted, route_found,
}

module _ {aq : ArrayQueue} (heap : Heap) (size : ℕ) where
  -- The end of the routed path as a whole.
  abbrev after_found : ℕ → SizeClass aq → Option (Vec × Bool) → World aq → Option (Buf × World aq)
  after_found i class out w = elim out [
    | some (buf, from_tls) ↦
        resize_zeroed buf size >>= λ buf'. some (Buf.new buf' (i % 2 ^ 8), note_hit from_tls w)
    | none ↦ alloc_cold size i class w
  ]

  run-alloc_found_code :
      (s0 : State aq) (tls : TlsState) (i : ℕ) (class : SizeClass aq) (out : Option (Vec × Bool))
      (w : World aq)
      → settings (alone s0 tls) ≡ settings w
      → Option.map
          (guard_of Buf.new)
          (run heap (alloc_found_code s0 size i class out w.tls) (shared_of w))
        ≡ after_found i class out w
  unfolding alloc_found_code alloc_cold Access.◌>>=◌ run
  run-alloc_found_code s0 tls i class none w same =
      let s = shared_of w in
      rw (note-world_of allocation s w.tls) (
        ap (Option.map (guard_of Buf.new))
          (run-noting heap s s0 allocation _ (ap (λ (x : Settings). x.track_stats) same))
        ∙ run-new Buf.new heap s0 (i % 2 ^ 8) w.tls (noted allocation s) class.class_size size
            (ap (λ (x : Settings). x.pinned_memory) same))
  run-alloc_found_code s0 tls i class (some (buf, from_tls)) w same =
      run-pooled Buf.new heap s0 (i % 2 ^ 8) w.tls (shared_of w) from_tls (resize_zeroed buf size)
        (ap (λ (x : Settings). x.track_stats) same)

  run-alloc_routed_code :
      (s0 : State aq) (tls : TlsState) (s : Shared aq) (i : ℕ) (class : SizeClass aq)
      → settings (alone s0 tls) ≡ settings (world_of s tls)
      → claim (alone s0 tls) ≡ claim (world_of s tls)
      → get_elem? s.state.table.classes i ≡ some class
      → Option.map (guard_of Buf.new) (
          run heap
            (Access.◌>>=◌
              (take_pooled_code s0 i tls)
              (λ r. alloc_found_code s0 size i class r.0 r.1))
            s)
        ≡ alloc_routed size i class (world_of s tls)
  unfolding alloc_routed
  run-alloc_routed_code s0 tls s i class same mine at_i =
      run-routed Buf.new heap s0 tls s i class (alloc_found_code s0 size i class)
        (after_found i class) same mine at_i (run-alloc_found_code s0 tls i class)

  run-alloc_oversize_code :
      (s0 : State aq) (tls : TlsState) (s : Shared aq)
      → settings (alone s0 tls) ≡ settings (world_of s tls)
      → Option.map (guard_of Buf.new) (
          run heap
            (Access.◌>>=◌ (note_code s0 oversized) (λ u.
              Access.◌>>=◌ (note_code s0 allocation) (λ u.
                Access.◌>>=◌ (call_allocator size result) (λ buf.
                  Access.◌>>=◌
                    (pin_code s0 (truncate buf size))
                    (λ u. result ((truncate buf size, 255), tls))))))
            s)
        ≡ alloc_oversize size (world_of s tls)
  unfolding alloc_oversize Access.◌>>=◌ run
  run-alloc_oversize_code s0 tls s same =
      let track = ap (λ (x : Settings). x.track_stats) same in
      let pinning = ap (λ (x : Settings). x.pinned_memory) same in
      let t = noted oversized s in
      rw (note-world_of oversized s tls, note-world_of allocation t tls)
        (ap (Option.map (guard_of Buf.new))
            (run-noting heap s s0 oversized _ track ∙ run-noting heap t s0 allocation _ track)
          ∙ run-new Buf.new heap s0 255 tls (noted allocation t) size size pinning)

  pub run-alloc_code :
      (tls : TlsState) (s : Shared aq)
      → Option.map (guard_of Buf.new) (run heap (alloc_code s.state size tls) s)
        ≡ alloc size (world_of s tls)
  unfolding alloc alloc_code Access.◌>>=◌ run
  run-alloc_code tls s =
      let t = noted get s in
      ap (Option.map (guard_of Buf.new)) (run-then heap (note_code s.state get) _ s)
      ∙ rw (run-note_code heap s s.state get refl, note-world_of get s tls)
          (elim (Option-cases (ClassTable.route s.state.table size)) [
            | inl out ↦ rw (out, ◌>>=◌, run)
            | inr (none, e) ↦
                rw (e, ◌>>=◌)
                  (run-alloc_oversize_code s.state tls t refl
                    ∙ ap (alloc_oversize size) (sym (note-world_of get s tls)))
            | inr (some (i, class), e) ↦
                rw (e, ◌>>=◌)
                  (run-alloc_routed_code s.state tls t i class refl (claim-noted get tls s)
                      (route_found size s.state i class e)
                    ∙ ap (alloc_routed size i class) (sym (note-world_of get s tls)))
          ])
