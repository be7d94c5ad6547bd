-- ===== src/Tls/Lengths.antt =====
-- How long tls.rs lets a thread's caches grow.
use zeropool.Base.{
  ℕ, zero, suc, ◌+◌, ◌-◌, ◌≤◌, ◌≡◌, inl, inr, List, [], ◌∷◌, Option, some, arith, get_elem?,
  get_elem?-set_self, set, length, All, All-get, All-set, Option-cases, IfSome, ◌>>=◌, IfSome-bind,
}
use zeropool.Vec.{Vec}
use zeropool.ArrayQueue.{ArrayQueue}
use zeropool.SizeClass.{SizeClass}
use zeropool.SizeClass
use zeropool.Tls.{TlsState, push_cache, refill_loop, refill, spill, clear_caches}

module _ (most : ℕ) where
  -- No cache holds more than `most`.
  abbrev pub Short : List (List Vec) → Type 0
  Short caches = All (λ (c : List Vec). length c ≤ most) caches

  -- A thread state with short caches and no greater a limit.
  abbrev pub Within : TlsState → Type 0
  Within tls = (tls.limit ≤ most) × Short tls.caches

  pub clear_caches-Short : (caches : List (List Vec)) → Short (clear_caches caches)
  unfolding clear_caches
  clear_caches-Short [] = tt
  clear_caches-Short (c ∷ cs) = (omega arith, clear_caches-Short cs)

  pub set-Within :
      (tls : TlsState) (i : ℕ) (cache : List Vec)
      → Within tls
      → length cache ≤ most
      → Within (record tls { caches = set tls.caches i cache })
  set-Within tls i cache h short =
      (h.0, All-set (λ (c : List Vec). length c ≤ most) tls.caches i cache h.1 short)

  module _ {aq : ArrayQueue} where
    refill_loop-Within :
        (n : ℕ) (tls : TlsState) (i : ℕ) (class : SizeClass aq) (cache : List Vec)
        → get_elem? tls.caches i ≡ some cache
        → length cache + n ≤ most
        → Within tls
        → IfSome (λ (r : TlsState × SizeClass aq). Within r.0) (refill_loop n tls i class)
    unfolding refill_loop push_cache
    refill_loop-Within zero tls i class cache e fits h = h
    refill_loop-Within (suc n) tls i class cache e fits h =
        elim (Option-cases (SizeClass.pop class)) [
          | inl empty ↦ rw (empty, refill_loop) h
          | inr ((buf, d), popped) ↦
              rw (popped, refill_loop)
                (rw e (
                  refill_loop-Within n (record tls { caches = set tls.caches i (buf ∷ cache) }) i d
                    (buf ∷ cache) (get_elem?-set_self tls.caches i cache (buf ∷ cache) e)
                    (omega arith) (set-Within tls i (buf ∷ cache) h (omega arith))))
        ]

    pub refill-Within :
        (tls : TlsState) (i : ℕ) (class : SizeClass aq) (batch : ℕ)
        → get_elem? tls.caches i ≡ some []
        → batch ≤ most + 1
        → Within tls
        → IfSome
            (λ (r : Option Vec × TlsState × SizeClass aq). Within r.1)
            (refill tls i class batch)
    unfolding refill
    refill-Within tls i class batch e fits h = elim (Option-cases (SizeClass.pop class)) [
      | inl empty ↦ rw (empty, refill) h
      | inr ((first, d), popped) ↦
          rw (popped, refill)
            (IfSome-bind (λ (r : TlsState × SizeClass aq). Within r.0)
              (λ (r : Option Vec × TlsState × SizeClass aq). Within r.1)
              (refill_loop (batch - 1) tls i d) _
              (refill_loop-Within (batch - 1) tls i d [] e (omega arith) h) (λ r within. within))
    ]

    pub spill-Within :
        (batch : ℕ) (tls : TlsState) (i : ℕ) (class : SizeClass aq)
        → Within tls
        → IfSome (λ (r : TlsState × SizeClass aq). Within r.0) (spill batch tls i class)
    unfolding spill
    spill-Within zero tls i class h = h
    spill-Within (suc batch) tls i class h = elim (Option-cases (get_elem? tls.caches i)) [
      | inl out ↦ rw (out, spill) tt
      | inr ([], e) ↦ rw (e, spill) h
      | inr (buf ∷ rest, e) ↦
          let whole = All-get (λ (c : List Vec). length c ≤ most) tls.caches i (buf ∷ rest) h.1 e in
          let left = set-Within tls i rest h (omega arith) in
          elim (Option-cases (SizeClass.push buf class)) [
            | inl full ↦ rw (e, spill) (rw (full, IfSome, ◌>>=◌) left)
            | inr (d, pushed) ↦
                rw (e, spill)
                  (rw (pushed, IfSome, ◌>>=◌)
                    (spill-Within batch (record tls { caches = set tls.caches i rest }) i d left))
          ]
    ]
