-- ===== src/Access/Whole/Uninit.antt =====
-- `alloc_uninit` of pool.rs that no other thread interrupts, access by access, against the call as a whole.
use mathlib.Core.Option
use zeropool.Base.{
  ℕ, ◌%◌, ◌^◌, ◌≡◌, refl, sym, ap, ◌∙◌, Bool, Option, none, some, ◌>>=◌, inl, inr, Option-cases,
  get_elem?,
}
use zeropool.Vec.{Heap, Vec}
use zeropool.ArrayQueue.{ArrayQueue}
use zeropool.SizeClass.{SizeClass, resize_uninit}
use zeropool.ClassTable
use zeropool.Buf.{BufUninit}
use zeropool.Buf
use zeropool.Stats.{get, allocation, oversized}
use zeropool.Pool.{State, World, claim}
use zeropool.Pool.Settings.{Settings, settings}
use zeropool.Pool.Alloc.{
  note_hit, alloc_uninit_oversize, alloc_uninit_cold, alloc_uninit_routed, alloc_uninit,
}
use zeropool.Tls.{TlsState}
use zeropool.Access
use zeropool.Access.{Code, result, call_vec, locally, Shared, run}
use zeropool.Access.Calls.{
  alone, note_code, pin_code, take_pooled_code, alloc_uninit_found_code, alloc_uninit_code,
}
use zeropool.Access.Whole.{
  noted, world_of, shared_of, note-world_of, run-then, run-note_code, run-noting,
}
use zeropool.Access.Whole.Guards.{
  guard_of, run-raw, run-pooled, run-routed, claim-noted, route_found,
}

module _ {aq : ArrayQueue} (heap : Heap) (size : ℕ) where
  -- The end of the routed path as a whole.
  abbrev after_found :
      ℕ → SizeClass aq → Option (Vec × Bool) → World aq → Option (BufUninit × World aq)
  after_found i class out w = elim out [
    | some (buf, from_tls) ↦ resize_uninit buf size >>= λ buf'.
        some (Buf.new_uninit buf' (i % 2 ^ 8), note_hit from_tls w)
    | none ↦ alloc_uninit_cold heap size i class w
  ]

  run-alloc_uninit_found_code :
      (s0 : State aq) (tls : TlsState) (i : ℕ) (class : SizeClass aq) (out : Option (Vec × Bool))
      (w : World aq)
      → settings (alone s0 tls) ≡ settings w
      → Option.map
          (guard_of Buf.new_uninit)
          (run heap (alloc_uninit_found_code s0 size i class out w.tls) (shared_of w))
        ≡ after_found i class out w
  unfolding alloc_uninit_found_code alloc_uninit_cold Access.◌>>=◌ run
  run-alloc_uninit_found_code s0 tls i class none w same =
      let s = shared_of w in
      rw (note-world_of allocation s w.tls) (
        ap (Option.map (guard_of Buf.new_uninit))
          (run-noting heap s s0 allocation _ (ap (λ (x : Settings). x.track_stats) same))
        ∙ run-raw Buf.new_uninit heap s0 (i % 2 ^ 8) w.tls _ class.class_size size
            (ap (λ (x : Settings). x.pinned_memory) same))
  run-alloc_uninit_found_code s0 tls i class (some (buf, from_tls)) w same =
      run-pooled Buf.new_uninit heap s0 (i % 2 ^ 8) w.tls (shared_of w) from_tls
        (resize_uninit buf size) (ap (λ (x : Settings). x.track_stats) same)

  run-alloc_uninit_routed_code :
      (s0 : State aq) (tls : TlsState) (s : Shared aq) (i : ℕ) (class : SizeClass aq)
      → settings (alone s0 tls) ≡ settings (world_of s tls)
      → claim (alone s0 tls) ≡ claim (world_of s tls)
      → get_elem? s.state.table.classes i ≡ some class
      → Option.map (guard_of Buf.new_uninit) (
          run heap
            (Access.◌>>=◌
              (take_pooled_code s0 i tls)
              (λ r. alloc_uninit_found_code s0 size i class r.0 r.1))
            s)
        ≡ alloc_uninit_routed heap size i class (world_of s tls)
  unfolding alloc_uninit_routed
  run-alloc_uninit_routed_code s0 tls s i class same mine at_i =
      run-routed Buf.new_uninit heap s0 tls s i class (alloc_uninit_found_code s0 size i class)
        (after_found i class) same mine at_i (run-alloc_uninit_found_code s0 tls i class)

  run-alloc_uninit_oversize_code :
      (s0 : State aq) (tls : TlsState) (s : Shared aq)
      → settings (alone s0 tls) ≡ settings (world_of s tls)
      → Option.map (guard_of Buf.new_uninit) (
          run heap
            (Access.◌>>=◌ (note_code s0 oversized) (λ u.
              Access.◌>>=◌ (note_code s0 allocation) (λ u.
                Access.◌>>=◌ (call_vec size result) (λ raw.
                  Access.◌>>=◌
                    (locally (resize_uninit raw size))
                    (λ buf. Access.◌>>=◌ (pin_code s0 buf) (λ u. result ((buf, 255), tls)))))))
            s)
        ≡ alloc_uninit_oversize heap size (world_of s tls)
  unfolding alloc_uninit_oversize Access.◌>>=◌ run
  run-alloc_uninit_oversize_code s0 tls s same =
      let track = ap (λ (x : Settings). x.track_stats) same in
      let pinning = ap (λ (x : Settings). x.pinned_memory) same in
      let t = noted oversized s in
      rw (note-world_of oversized s tls, note-world_of allocation t tls)
        (ap (Option.map (guard_of Buf.new_uninit))
            (run-noting heap s s0 oversized _ track ∙ run-noting heap t s0 allocation _ track)
          ∙ run-raw Buf.new_uninit heap s0 255 tls _ size size pinning)

  pub run-alloc_uninit_code :
      (tls : TlsState) (s : Shared aq)
      → Option.map (guard_of Buf.new_uninit) (run heap (alloc_uninit_code s.state size tls) s)
        ≡ alloc_uninit heap size (world_of s tls)
  unfolding alloc_uninit alloc_uninit_code Access.◌>>=◌ run
  run-alloc_uninit_code tls s =
      let t = noted get s in
      ap (Option.map (guard_of Buf.new_uninit)) (run-then heap (note_code s.state get) _ s)
      ∙ rw (run-note_code heap s s.state get refl, note-world_of get s tls)
          (elim (Option-cases (ClassTable.route s.state.table size)) [
            | inl out ↦ rw (out, ◌>>=◌, run)
            | inr (none, e) ↦
                rw (e, ◌>>=◌)
                  (run-alloc_uninit_oversize_code s.state tls t refl
                    ∙ ap (alloc_uninit_oversize heap size) (sym (note-world_of get s tls)))
            | inr (some (i, class), e) ↦
                rw (e, ◌>>=◌)
                  (run-alloc_uninit_routed_code s.state tls t i class refl (claim-noted get tls s)
                      (route_found size s.state i class e)
                    ∙ ap (alloc_uninit_routed heap size i class) (sym (note-world_of get s tls)))
          ])
