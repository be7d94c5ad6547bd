-- ===== src/Access/Whole/Moves.antt =====
-- `refill` and `spill` of tls.rs, access by access against the same code as a whole.
use mathlib.Core.Option
use zeropool.Base.{
  ℕ, zero, suc, ◌-◌, ◌≡◌, refl, ap, ◌∙◌, [], ◌∷◌, Option, none, some, inl, inr, Option-cases,
  get_elem?, set, ◌>>=◌,
}
use zeropool.Vec.{Heap}
use zeropool.ArrayQueue.{ArrayQueue}
use zeropool.SizeClass.{SizeClass}
use zeropool.SizeClass
use zeropool.Tls.{TlsState, push_cache, refill_loop, refill, spill}
use zeropool.Access
use zeropool.Access.{Shared, put, run}
use zeropool.Access.Calls.{pop_code, push_code, refill_loop_code, refill_code, spill_code}
use zeropool.Access.Whole.{put-put, put_self, get-put, run-then, run-pop_code, run-push_code}

map_ext :
    {A B : Type 0} (f g : A → B) (o : Option A)
    → ((a : A) → f a ≡ g a)
    → Option.map f o ≡ Option.map g o
map_ext f g none same = refl
map_ext f g (some a) same = ap some (same a)

module _ {aq : ArrayQueue} (heap : Heap) (i : ℕ) where
  run-refill_loop_code :
      (n : ℕ) (tls : TlsState) (class : SizeClass aq) (s : Shared aq)
      → get_elem? s.state.table.classes i ≡ some class
      → run heap (refill_loop_code n tls i) s
        ≡ Option.map (λ r. (r.0, put i r.1 s)) (refill_loop n tls i class)
  unfolding refill_loop_code refill_loop Access.◌>>=◌ run
  run-refill_loop_code zero tls class s at_i = rw (put_self i class s at_i)
  run-refill_loop_code (suc n) tls class s at_i =
      run-then heap (pop_code i) _ s
      ∙ rw (run-pop_code heap i class s at_i) (elim (Option-cases (SizeClass.pop class)) [
        | inl e ↦ rw (e, refill_loop, put_self i class s at_i)
        | inr ((buf, d), e) ↦
            rw (e, refill_loop)
              (elim (Option-cases (push_cache tls i buf)) [
                | inl out ↦ rw out
                | inr (tls', into) ↦ rw into (
                    run-refill_loop_code n tls' d (put i d s) (get-put i class d s at_i)
                    ∙ map_ext _ _ (refill_loop n tls' i d) (λ r. rw (put-put i d r.1 s)))
              ])
      ])

  pub run-refill_code :
      (batch : ℕ) (tls : TlsState) (class : SizeClass aq) (s : Shared aq)
      → get_elem? s.state.table.classes i ≡ some class
      → run heap (refill_code tls i batch) s
        ≡ Option.map (λ r. ((r.0, r.1), put i r.2 s)) (refill tls i class batch)
  unfolding refill_code refill run
  run-refill_code batch tls class s at_i =
      run-then heap (pop_code i) _ s
      ∙ rw (run-pop_code heap i class s at_i) (elim (Option-cases (SizeClass.pop class)) [
        | inl e ↦ rw (e, refill, put_self i class s at_i)
        | inr ((first, d), e) ↦
            rw (e, refill)
              (run-then heap (refill_loop_code (batch - 1) tls i) _ (put i d s)
                ∙ rw (run-refill_loop_code (batch - 1) tls d (put i d s) (get-put i class d s at_i))
                    (elim (Option-cases (refill_loop (batch - 1) tls i d)) [
                      | inl out ↦ rw out
                      | inr (r, moved) ↦ rw (moved, put-put i d r.1 s)
                    ]))
      ])

  pub run-spill_code :
      (batch : ℕ) (tls : TlsState) (class : SizeClass aq) (s : Shared aq)
      → get_elem? s.state.table.classes i ≡ some class
      → run heap (spill_code batch tls i) s
        ≡ Option.map (λ r. (r.0, put i r.1 s)) (spill batch tls i class)
  unfolding spill_code spill Access.◌>>=◌ run
  run-spill_code zero tls class s at_i = rw (put_self i class s at_i)
  run-spill_code (suc batch) tls class s at_i = elim (Option-cases (get_elem? tls.caches i)) [
    | inl out ↦ rw (out, spill)
    | inr ([], e) ↦ rw (e, spill, put_self i class s at_i)
    | inr (buf ∷ rest, e) ↦
        let tls' : TlsState = record tls { caches = set tls.caches i rest } in
        rw (e, spill)
          (run-then heap (push_code i buf) _ s
            ∙ rw (run-push_code heap i class s at_i buf)
                (elim (Option-cases (SizeClass.push buf class)) [
                  | inl full ↦ rw full (rw (full, ◌>>=◌, put_self i class s at_i))
                  | inr (d, pushed) ↦ rw pushed (
                      rw (pushed, ◌>>=◌)
                        (run-spill_code batch tls' d (put i d s) (get-put i class d s at_i)
                          ∙ map_ext _ _ (spill batch tls' i d) (λ r. rw (put-put i d r.1 s))))
                ]))
  ]
