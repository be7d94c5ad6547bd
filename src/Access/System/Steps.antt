-- ===== src/Access/System/Steps.antt =====
-- Every step of the threads at a pool keeps who holds what.
use zeropool.Base.{
  ℕ, suc, ◌≡◌, refl, sym, ap, subst, ◌∙◌, inl, inr, List, ◌∷◌, Option, some, arith, set, remove,
  tally-set, tally-remove, tally-remove_le, All-get, All-set, All-remove, Each-remove, ltb, length,
  Bool-cases, get_elem?-some, if◌then◌else◌, ◌==◌,
}
use zeropool.Vec.{Heap, Vec}
use zeropool.ArrayQueue.{ArrayQueue}
use zeropool.Route.{class_sizes}
use zeropool.Tls.{TlsState}
use zeropool.Tls
use zeropool.Pool.Valid.{foreign, at, mine, not_mine}
use zeropool.Pool.Alloc.Lent.{Home}
use zeropool.Session.Ownership.{guard_at}
use zeropool.Access.{Code, Shared, perform}
use zeropool.Session.Steps.{write-place}
use zeropool.Access.Triple.{Share, plus}
use zeropool.Access.Triple.Pool.{Entered}
use zeropool.Access.System.{
  Result, idle, calling, draining, drained, System, becomes, Step, starts_alloc,
  starts_alloc_uninit, starts_drop, starts_warm, access, lends, ends, starts_drain, drain_pop,
  drain_end, drain_store, resets, edits, writes, takes, elsewhere, spawns, exits,
}
use zeropool.Access.System.Queues.{count_at-some}
use zeropool.Access.System.Performs.{perform-Performed, made_at}
use zeropool.Access.System.Owned.{Ended, Owned, Sound, account-Sound, share_of, step-Sound}
use zeropool.Access.System.Begins.{
  lend_alloc, lend_alloc_uninit, back_dealloc, back_warm, Ended-guard, Ended-none,
}
use zeropool.Access.System.Frees.{
  returned, Sound-Steady, stay, alone-Sound, popped-Sound, pop_at-none,
}

module _ {aq : ArrayQueue} (id : ℕ) where
  pub Step-Sound :
      {heap : Heap} {c d : System aq} (shares : List Share)
      → (id ≡ 0 → ⊥)
      → Step heap c d
      → Sound id c shares
      → (shares' : List Share) × Sound id d shares'
  unfolding Tls.new
  Step-Sound {heap} {c} shares used (starts_alloc i tls size at_i small) sound =
      let (share, at_share, h) = share_of id c shares sound i (idle tls) at_i in
      (
        _,
        alone-Sound id c shares sound i _ _ at_i (
            lend_alloc id c.shared.state (Sound-Steady id c shares sound) sound.named size tls share
              small h),
      )
  Step-Sound {heap} {c} shares used (starts_alloc_uninit i tls size at_i small) sound =
      let (share, at_share, h) = share_of id c shares sound i (idle tls) at_i in
      (
        _,
        alone-Sound id c shares sound i _ _ at_i (
            lend_alloc_uninit id c.shared.state (Sound-Steady id c shares sound) sound.named size
              tls share small h),
      )
  Step-Sound {heap} {c} shares used (starts_drop i tls j v class_idx at_i at_j) sound =
      let (share, at_share, h) = share_of id c shares sound i _ at_i in
      let home = All-get (λ (g : Vec × ℕ). Home g.1 g.0) c.live j (v, class_idx) sound.homes at_j in
      (
        _,
        step-Sound id c shares sound i _ at_i _ (plus share v) c.shared (remove c.live j)
            (stay id c shares sound) (omega arith)
            (back_dealloc id c.shared.state (Sound-Steady id c shares sound) sound.named v class_idx
              tls (plus share v) home (h.0, λ p. omega (arith, h.1 p)))
            (All-remove (λ (g : Vec × ℕ). Home g.1 g.0) c.live j sound.homes)
            (λ p. inl (omega (arith, tally-remove (guard_at p) c.live j (v, class_idx) at_j))),
      )
  Step-Sound {heap} {c} shares used (starts_warm i tls count size at_i small) sound =
      let (share, at_share, h) = share_of id c shares sound i (idle tls) at_i in
      (
        _,
        alone-Sound id c shares sound i _ _ at_i (
            back_warm id c.shared.state (Sound-Steady id c shares sound) sound.named count size tls
              share small h),
      )
  Step-Sound {heap} {c} shares used (access i asked code code' s at_i run) sound =
      let (share, at_share, h) = share_of id c shares sound i _ at_i in
      elim (perform-Performed heap (Ended id asked) c.shared sound.stocked sound.contract code share
        h) [
          | inl (a, e) ↦
              absurd (returned heap a c.shared (ap (λ k. perform heap k c.shared) (sym e) ∙ run))
          | inr (code2, s2, run2, done) ↦
              let same : ◌≡◌ {A = Option (Code Result × Shared aq)} (some (code2, s2))
                  (some (code', s)) =
                sym run2 ∙ run in
              let q : ◌≡◌ {A = Code Result × Shared aq} (code2, s2) (code', s) = cc in
              subst
                (λ (x : Code Result × Shared aq).
                  (shares' : List Share) × Sound id
                    (becomes (record c { shared = x.1 }) i (calling asked x.0)) shares')
                q
                (
                  _,
                  step-Sound id c shares sound i _ at_i _ done.share' s2 c.live done.same done.grows
                      done.secured sound.homes
                      (λ p. elim (done.account p) [
                        | inl less ↦ inl (omega arith)
                        | inr (e, later, more) ↦ inr (e, later, omega arith)
                      ]),
                )
        ]
  Step-Sound {heap} {c} shares used (lends i asked v class_idx tls at_i) sound =
      let (share, at_share, h) = share_of id c shares sound i _ at_i in
      let (home, (cached, covers)) = Ended-guard id asked v class_idx tls share h in
      (
        _,
        step-Sound id c shares sound i _ at_i (idle tls) (λ p. mine (at p) id tls) c.shared
            ((v, class_idx) ∷ c.live) (stay id c shares sound) (omega arith)
            (cached, λ p. omega arith) (home, sound.homes) (λ p. inl (omega (arith, covers p))),
      )
  Step-Sound {heap} {c} shares used (ends i asked tls at_i) sound =
      let (share, at_share, h) = share_of id c shares sound i _ at_i in
      (_, alone-Sound id c shares sound i _ _ at_i (Ended-none id asked tls share h))
  Step-Sound {heap} {c} shares used (starts_drain i tls at_i) sound = (
    _,
    alone-Sound id c shares sound i _ (draining tls 0) at_i
        (omega arith, (share_of id c shares sound i _ at_i).2),
  )
  Step-Sound {heap} {c} shares used (drain_pop i tls k buf s at_i run) sound =
      let (share, at_share, (low, h)) = share_of id c shares sound i _ at_i in
      (shares, popped-Sound id c shares sound k low buf s run)
  Step-Sound {heap} {c} shares used (drain_end i tls k s at_i run) sound =
      let (share, at_share, (low, h)) = share_of id c shares sound i _ at_i in
      let same = pop_at-none id c shares sound k low s run in
      subst
        (λ x.
          (shares' : List Share) × Sound id (becomes (record c { shared = x }) i (drained tls k))
            shares')
        same (_, alone-Sound id c shares sound i _ (drained tls k) at_i (low, h))
  Step-Sound {heap} {c} shares used (drain_store i tls k s at_i run) sound =
      let (share, at_share, (low, h)) = share_of id c shares sound i _ at_i in
      let (size, at_k) = get_elem?-some class_sizes k low in
      let (s2, run2, same2, serial, kept) =
        count_at-some k size c.shared at_k sound.stocked (λ n. 0) in
      let same : some s2 ≡ some s = sym run2 ∙ run in
      let q : s2 ≡ s = cc in
      let next_class =
        if ltb (suc k) (length class_sizes) then draining tls (suc k) else idle tls in
      let ok : Owned id next_class share = elim (Bool-cases (ltb (suc k) (length class_sizes))) [
        | inl more ↦ rw more (ground arith, h)
        | inr last ↦ rw last h
      ] in
      subst
        (λ x.
          (shares' : List Share) × Sound id (becomes (record c { shared = x }) i next_class)
            shares')
        q
        (
          _,
          step-Sound id c shares sound i _ at_i next_class share s2 c.live same2 (omega arith) ok
              sound.homes (λ p. inl (omega (arith, kept p))),
        )
  Step-Sound {heap} {c} shares used resets sound = (
    shares,
    account-Sound id c _ shares shares sound
        (record { id = refl; cache_size = refl; allocator = refl; stocked = sound.stocked })
        (omega arith) sound.owned sound.homes (λ p. inl (omega arith)),
  )
  Step-Sound {heap} {c} shares used (edits j v class_idx cells at_j) sound =
      let home = All-get (λ (g : Vec × ℕ). Home g.1 g.0) c.live j (v, class_idx) sound.homes at_j in
      let u = record v { cells = cells } in
      (
        shares,
        account-Sound id c (record c { live = set c.live j (u, class_idx) }) shares shares sound
            (stay id c shares sound) (omega arith) sound.owned
            (All-set (λ (g : Vec × ℕ). Home g.1 g.0) c.live j (u, class_idx) sound.homes home)
            (λ p.
              inl (
                omega (arith, tally-set (guard_at p) c.live j (v, class_idx) (u, class_idx) at_j))),
      )
  Step-Sound {heap} {c} shares used (writes j v u class_idx n bytes at_j run) sound =
      let home = All-get (λ (g : Vec × ℕ). Home g.1 g.0) c.live j (v, class_idx) sound.homes at_j in
      let (place, grown) = write-place heap c.shared.serial class_idx n v u bytes run in
      let d : System aq = record c {
        shared = record c.shared { serial = suc c.shared.serial };
        live = set c.live j (u, class_idx);
      } in
      (
        shares,
        account-Sound id c d shares shares sound
            (record { id = refl; cache_size = refl; allocator = refl; stocked = sound.stocked })
            (omega arith) sound.owned
            (All-set (λ (g : Vec × ℕ). Home g.1 g.0) c.live j (u, class_idx) sound.homes
              (elim home [
                | inl over ↦ inl over
                | inr (b, at_b, reached) ↦ inr (b, at_b, omega arith)
              ]))
            (λ p.
              let swap = tally-set (guard_at p) c.live j (v, class_idx) (u, class_idx) at_j in
              elim place [
                | inl stays ↦
                    let same : at p u ≡ at p v = ap (λ m. if m == p then 1 else 0) stays in
                    inl (omega arith)
                | inr moved ↦ elim (made_at p c.shared.serial u moved) [
                  | inl other ↦ inl (omega arith)
                  | inr (e, one) ↦ inr (e, omega arith, omega arith)
                ]
              ]),
      )
  Step-Sound {heap} {c} shares used (takes j v class_idx at_j) sound = (
    shares,
    account-Sound id c (record c { live = remove c.live j }) shares shares sound
        (stay id c shares sound) (omega arith) sound.owned
        (All-remove (λ (g : Vec × ℕ). Home g.1 g.0) c.live j sound.homes)
        (λ p. inl (omega (arith, tally-remove_le (guard_at p) c.live j))),
  )
  Step-Sound {heap} {c} shares used (elsewhere i tls tls' at_i ne shape) sound =
      let away : tls'.pool_id ≡ id → ⊥ = λ e. ne (e ∙ sym sound.named) in
      (
        _,
        alone-Sound id c shares sound i _ (idle tls') at_i
            (foreign away shape, λ p. omega (arith, not_mine (at p) id tls' away)),
      )
  Step-Sound {heap} {c} shares used spawns sound =
      let other : Tls.new.pool_id ≡ id → ⊥ = λ e. used (sym e) in
      let none_held : Share = λ p. 0 in
      let ok : Entered id (λ p. 0) Tls.new none_held = (
        foreign other (tt, (tt, (tt, (tt, (tt, (tt, (tt, (tt, tt)))))))),
        λ p. omega (arith, not_mine (at p) id Tls.new other),
      ) in
      (
        none_held ∷ shares,
        account-Sound id c (record c { threads = idle Tls.new ∷ c.threads }) shares
            (none_held ∷ shares) sound (stay id c shares sound) (omega arith) (ok, sound.owned)
            sound.homes (λ p. inl (omega arith)),
      )
  Step-Sound {heap} {c} shares used (exits i tls at_i) sound = (
    remove shares i,
    account-Sound id c (record c { threads = remove c.threads i }) shares (remove shares i) sound
        (stay id c shares sound) (omega arith)
        (Each-remove (Owned id) i c.threads shares sound.owned) sound.homes
        (λ p. inl (omega (arith, tally-remove_le (λ (f : Share). f p) shares i))),
  )
