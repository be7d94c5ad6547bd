-- ===== src/Tls/Refill.antt =====
-- `refill` of tls.rs against the list of buffers that the class holds.
use zeropool.Base.{
  ℕ, zero, suc, ◌-◌, ◌≡◌, refl, ◌∙◌, ◌⊎◌, inl, inr, List, [], ◌∷◌, none, some, get_elem?, set,
  set_self, set-set, get_elem?-set_self, take, drop, stack,
}
use zeropool.Vec.{Vec}
use zeropool.ArrayQueue.{ArrayQueue}
use zeropool.SizeClass.{SizeClass}
use zeropool.SizeClass.Laws.{held, ClassOk, pop-ClassOk}
use zeropool.Tls.{TlsState, refill_loop, refill}

module _ {aq : ArrayQueue} (size i : ℕ) where
  -- The loop moves up to `n` buffers to the cache, oldest first.
  pub refill_loop-take :
      (n : ℕ) (tls : TlsState) (cache : List Vec) (class : SizeClass aq)
      → get_elem? tls.caches i ≡ some cache
      → ClassOk size class
      → (class' : SizeClass aq) × (refill_loop n tls i class
          ≡ some (
            record tls { caches = set tls.caches i (stack (take n (held class)) cache) },
            class',
          ))
        × (held class' ≡ drop n (held class))
        × ClassOk size class'
  unfolding refill_loop
  refill_loop-take zero tls cache class at_i ok =
      (class, rw (set_self tls.caches i cache at_i), refl, ok)
  refill_loop-take (suc n) tls cache class at_i ok = elim (pop-ClassOk size class ok) [
    | inl (empty, e) ↦
        (class, rw (e, refill_loop, empty, set_self tls.caches i cache at_i), rw empty, ok)
    | inr (v, d, e, front, good, ok') ↦
        let tls' : TlsState = record tls { caches = set tls.caches i (v ∷ cache) } in
        let (class', run, left, ok'') =
          refill_loop-take n tls' (v ∷ cache) d
            (get_elem?-set_self tls.caches i cache (v ∷ cache) at_i) ok' in
        (class', rw (e, refill_loop, at_i, front) (run ∙ rw set-set), rw front left, ok'')
  ]

  -- On a valid class `refill` returns: with nothing if the class is empty, else with its oldest
  -- buffer, the next `batch - 1` moved to the top of the cache in order, the rest left in the
  -- class.
  pub refill-take :
      (batch : ℕ) (tls : TlsState) (cache : List Vec) (class : SizeClass aq)
      → get_elem? tls.caches i ≡ some cache
      → ClassOk size class
      → ((held class ≡ []) × (refill tls i class batch ≡ some (none, tls, class)))
        ⊎ ((first : Vec) × (rest : List Vec) × (class' : SizeClass aq) × (held class ≡ first ∷ rest)
            × (refill tls i class batch
                ≡ some (
                  some first,
                  record tls { caches = set tls.caches i (stack (take (batch - 1) rest) cache) },
                  class',
                ))
            × (held class' ≡ drop (batch - 1) rest)
            × ClassOk size class')
  unfolding refill
  refill-take batch tls cache class at_i ok = elim (pop-ClassOk size class ok) [
    | inl (empty, e) ↦ inl (empty, rw (e, refill))
    | inr (v, d, e, front, good, ok') ↦
        let (class', run, left, ok'') = refill_loop-take (batch - 1) tls cache d at_i ok' in
        inr (v, held d, class', front, rw (e, refill) (rw run), left, ok'')
  ]
