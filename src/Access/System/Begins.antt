-- ===== src/Access/System/Begins.antt =====
-- The calls as threads begin and end them: each satisfies its triple.
use zeropool.Base.{ℕ, ◌^◌, ◌≤◌, ◌<◌, ◌≡◌, sym, subst, none, some, arith}
use zeropool.Vec.{Vec}
use zeropool.ArrayQueue.{ArrayQueue}
use zeropool.SizeClass.Resize.{Zeroed}
use zeropool.Tls.{TlsState}
use zeropool.Pool.{State}
use zeropool.Pool.Valid.{at}
use zeropool.Pool.Alloc.Lent.{Home}
use zeropool.Pool.Alloc.Uninit.{Sized}
use zeropool.Access.{Code, result, ◌>>=◌}
use zeropool.Access.Calls.{alloc_code, alloc_uninit_code, dealloc_code, warm_code}
use zeropool.Access.Triple.{Share, Secures, Secures-then}
use zeropool.Access.Triple.Pool.{Steady, Entered, Handed}
use zeropool.Access.Triple.Alloc.{alloc-Secures, alloc_uninit-Secures}
use zeropool.Access.Triple.Dealloc.{dealloc-Secures, warm-Secures}
use zeropool.Access.System.{Asked, zeroed, sized, no_guard, Result, lend, keep_back}
use zeropool.Access.System.Owned.{Ended}

module _ {aq : ArrayQueue} (id : ℕ) (s : State aq) (steady : Steady s) (named : s.id ≡ id) where
  renamed :
      (asked : Asked) (code : Code Result) (share : Share)
      → Secures (Ended s.id asked) code share
      → Secures (Ended id asked) code share
  renamed asked code share h = subst (λ n. Secures (Ended n asked) code share) named h

  pub lend_alloc :
      (size : ℕ) (tls : TlsState) (share : Share)
      → size < 2 ^ 63
      → Entered id (λ p. 0) tls share
      → Secures (Ended id (zeroed size)) (lend (alloc_code s size tls)) share
  lend_alloc size tls share small h = renamed (zeroed size) (lend (alloc_code s size tls)) share (
      Secures-then (Handed (Zeroed size) s.id) (Ended s.id (zeroed size)) (alloc_code s size tls) _
        share
        (alloc-Secures s steady size tls share small
          (subst (λ n. Entered n (λ p. 0) tls share) (sym named) h))
        (λ r rest done. done))

  pub lend_alloc_uninit :
      (size : ℕ) (tls : TlsState) (share : Share)
      → size < 2 ^ 63
      → Entered id (λ p. 0) tls share
      → Secures (Ended id (sized size)) (lend (alloc_uninit_code s size tls)) share
  lend_alloc_uninit size tls share small h =
      renamed (sized size) (lend (alloc_uninit_code s size tls)) share (
        Secures-then (Handed (Sized size) s.id) (Ended s.id (sized size))
          (alloc_uninit_code s size tls) _ share
          (alloc_uninit-Secures s steady size tls share small
            (subst (λ n. Entered n (λ p. 0) tls share) (sym named) h))
          (λ r rest done. done))

  pub back_dealloc :
      (v : Vec) (hint : ℕ) (tls : TlsState) (share : Share)
      → Home hint v
      → Entered id (λ p. at p v) tls share
      → Secures (Ended id no_guard) (keep_back (dealloc_code s v hint tls)) share
  back_dealloc v hint tls share home h =
      renamed no_guard (keep_back (dealloc_code s v hint tls)) share (
        Secures-then (Entered s.id (λ p. 0)) (Ended s.id no_guard) (dealloc_code s v hint tls) _
          share
          (dealloc-Secures s steady v hint tls share home
            (subst (λ n. Entered n (λ p. at p v) tls share) (sym named) h))
          (λ r rest done. done))

  pub back_warm :
      (count size : ℕ) (tls : TlsState) (share : Share)
      → size < 2 ^ 64
      → Entered id (λ p. 0) tls share
      → Secures (Ended id no_guard) (warm_code s count size >>= λ u. result (none, tls)) share
  back_warm count size tls share small (cached, covers) =
      Secures-then (λ u rest. (p : ℕ) → share p ≤ rest p) (Ended id no_guard)
        (warm_code s count size) _ share (warm-Secures s steady count size share small)
        (λ u rest kept. (cached, λ p. omega (arith, covers p, kept p)))

-- A call that has returned a guard.
pub Ended-guard :
    (id : ℕ) (asked : Asked) (v : Vec) (class_idx : ℕ) (tls : TlsState) (share : Share)
    → Ended id asked (some (v, class_idx), tls) share
    → Home class_idx v × Entered id (λ p. at p v) tls share
Ended-guard id (zeroed size) v class_idx tls share h = (h.1, h.2)
Ended-guard id (sized size) v class_idx tls share h = (h.1, h.2)
Ended-guard id no_guard v class_idx tls share h = absurd h

pub Ended-none :
    (id : ℕ) (asked : Asked) (tls : TlsState) (share : Share)
    → Ended id asked (none, tls) share
    → Entered id (λ p. 0) tls share
Ended-none id (zeroed size) tls share h = absurd h
Ended-none id (sized size) tls share h = absurd h
Ended-none id no_guard tls share h = h
