-- ===== src/Access/Whole/Warm.antt =====
-- `warm` of pool.rs that no other thread interrupts, access by access, against the call as a whole.
use mathlib.Core.Option
use zeropool.Base.{
  ℕ, zero, suc, Option, ◌≡◌, refl, sym, ap, ◌∙◌, none, some, ◌>>=◌, inl, inr, Option-cases,
  get_elem?, arith,
}
use zeropool.Vec.{Heap, Vec}
use zeropool.ArrayQueue.{ArrayQueue}
use zeropool.SizeClass.{SizeClass}
use zeropool.SizeClass
use zeropool.ClassTable
use zeropool.Pool.{State, World, pin, allocate, put_class}
use zeropool.Pool.Admin.{warm_loop, warm}
use zeropool.Tls.{TlsState}
use zeropool.Access
use zeropool.Access.{Code, result, Shared, run, put}
use zeropool.Access.Calls.{pin_code, push_code, warm_loop_code, warm_code}
use zeropool.Access.Whole.{
  pinned, world_of, get-put, pin-world_of, run-then, run-pin_code, run-push_code,
}
use zeropool.Access.Whole.Guards.{route_found}

module _ {aq : ArrayQueue} (heap : Heap) where
  push_size :
      (buf : Vec) (c d : SizeClass aq) → SizeClass.push buf c ≡ some d → d.class_size ≡ c.class_size
  unfolding SizeClass.push
  push_size buf c d e = ground arith

  module _ (s0 : State aq) (i : ℕ) (tls : TlsState) where
    -- A round of the loop as a whole: the rest from the push on, and all of it, by the capacity asked for.
    abbrev pushed : ℕ → SizeClass aq → Vec → World aq → Option (World aq)
    pushed n class buf w = elim (SizeClass.push buf class) [
      | none ↦ some w
      | some d ↦ warm_loop n i d (record w { state = put_class i d w.state })
    ]

    abbrev round : ℕ → SizeClass aq → Shared aq → ℕ → Option (World aq)
    round n class s capacity =
        allocate capacity (world_of s tls) >>= λ r. pushed n class r.0 (pin r.0 r.1)

    abbrev after : Unit {0} × Shared aq → World aq
    after r = world_of r.1 tls

    run-warm_loop_code :
        (n : ℕ) (first class : SizeClass aq) (s : Shared aq)
        → s0.pinned_memory ≡ s.state.pinned_memory
        → class.class_size ≡ first.class_size
        → get_elem? s.state.table.classes i ≡ some class
        → Option.map after (run heap (warm_loop_code s0 n i first) s)
          ≡ warm_loop n i class (world_of s tls)
    unfolding warm_loop_code warm_loop allocate Access.◌>>=◌ run put_class
    run-warm_loop_code zero first class s pinning size at_i = refl
    run-warm_loop_code (suc n) first class s pinning size at_i =
        let t : Shared aq = record s { serial = suc s.serial } in
        elim (Option-cases (s.state.allocator.allocate s.serial first.class_size)) [
          | inl refused ↦
              let over : Option.map after (run heap (warm_loop_code s0 (suc n) i first) s)
                  ≡ round n class s first.class_size =
                rw (refused, run, ◌>>=◌) in
              over ∙ ap (round n class s) (sym size)
          | inr (buf, made) ↦
              let u = pinned buf t in
              let here : Option.map after (run heap (warm_loop_code s0 (suc n) i first) s)
                  ≡ pushed n class buf (world_of u tls) =
                rw (made, run)
                  (ap (Option.map after) (run-then heap (pin_code s0 buf) _ t)
                    ∙ rw (run-pin_code heap t s0 buf pinning) (
                        ap (Option.map after) (run-then heap (push_code i buf) _ u)
                        ∙ rw (run-push_code heap i class u at_i buf)
                            (elim (Option-cases (SizeClass.push buf class)) [
                              | inl full ↦ rw (full, pushed)
                              | inr (d, e) ↦
                                  rw (e, pushed)
                                    (run-warm_loop_code n first d (put i d u) pinning
                                      (push_size buf class d e ∙ size) (get-put i class d u at_i))
                            ]))) in
              let whole : round n class s first.class_size
                  ≡ pushed n class buf (pin buf (world_of t tls)) =
                rw (made, ◌>>=◌) in
              here
              ∙ ap (pushed n class buf) (sym (pin-world_of buf t tls))
              ∙ sym whole
              ∙ ap (round n class s) (sym size)
        ]

  pub run-warm_code :
      (count size : ℕ) (tls : TlsState) (s : Shared aq)
      → Option.map
          (λ (r : Unit {0} × Shared aq). world_of r.1 tls)
          (run heap (warm_code s.state count size) s)
        ≡ warm count size (world_of s tls)
  unfolding warm_code warm run Access.◌>>=◌
  run-warm_code count size tls s = elim (Option-cases (ClassTable.route s.state.table size)) [
    | inl out ↦ rw (out, run, ◌>>=◌)
    | inr (none, e) ↦ rw (e, run, ◌>>=◌)
    | inr (some (i, class), e) ↦
        rw (e, ◌>>=◌)
          (run-warm_loop_code s.state i tls count class class s refl refl
            (route_found size s.state i class e))
  ]
