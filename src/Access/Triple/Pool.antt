-- ===== src/Access/Triple/Pool.antt =====
-- The calls of pool.rs while other threads run.
use zeropool.Base.{
  ℕ, ◌+◌, ◌≤◌, ◌<◌, ◌≡◌, ap, subst, ◌∙◌, inl, inr, List-cases, Bool, false, [], ◌∷◌, Option, none,
  some, arith, get_elem?, tally, tally-set, All, Each, if_either, ◌==◌,
}
use mathlib.Core.Option
use zeropool.Vec.{Vec}
use zeropool.ArrayQueue.{ArrayQueue}
use zeropool.SizeClass.{SizeClass}
use zeropool.Route.{class_sizes}
use zeropool.SizeClass.Laws.{Serves}
use zeropool.Stats.{Event}
use zeropool.Tls.{TlsState}
use zeropool.Pool.{State, claim}
use zeropool.Pool.Valid.{Cached, at, mine, claim-Cached}
use zeropool.Pool.Alloc.Lent.{Home}
use zeropool.Access.{Code, result, ◌>>=◌, ◌>>◌}
use zeropool.Access.Calls.{alone, note_code, pin_code, note_hit_code, take_pooled_code, refill_code}
use zeropool.Access.Triple.{Share, Secures, Secures-then}
use zeropool.Access.Triple.Moves.{
  Keeping, locally-Secures, cache_of, set-Bound, Refilled, refill-Secures,
}

-- What of the pool's state never changes.
pub record Steady {aq : ArrayQueue} (s : State aq) : Type 0 where
  pub cache_size : 0 < s.tls_cache_size
  pub boundaries : Each (λ size (c : SizeClass aq). c.class_size ≡ size) class_sizes s.table.classes

-- A thread between calls, with what its share covers.
abbrev pub Entered : ℕ → Share → TlsState → Share → Type 0
Entered id besides tls share = Cached id tls × ((p : ℕ) → besides p + mine (at p) id tls ≤ share p)

-- The guard that a call returns suits its class and holds a buffer that is `Good`; the share covers it and
-- the thread's caches.
abbrev pub Handed : (Vec → Type 0) → ℕ → (Vec × ℕ) × TlsState → Share → Type 0
Handed Good id ((u, class_idx), tls) share =
    Good u × Home class_idx u × Entered id (λ p. at p u) tls share

module _ {aq : ArrayQueue} (s : State aq) where
  pub note-Secures :
      {B : Type 0} (Q : B → Share → Type 0) (e : Event) (m : Code B) (share : Share)
      → Secures Q m share
      → Secures Q (note_code s e >> m) share
  unfolding note_code ◌>>=◌
  note-Secures Q e m share h =
      if_either (λ (n : Code (Unit {0})). Secures Q (n >> m) share) s.track_stats _ _ h h

  pub hit-Secures :
      {B : Type 0} (Q : B → Share → Type 0) (from_tls : Bool) (m : Code B) (share : Share)
      → Secures Q m share
      → Secures Q (note_hit_code s from_tls >> m) share
  unfolding note_hit_code
  hit-Secures Q from_tls m share h =
      if_either (λ (n : Code (Unit {0})). Secures Q (n >> m) share) from_tls _ _
        (note-Secures Q _ m share h) (note-Secures Q _ m share h)

  pub pin-Secures :
      {B : Type 0} (Q : B → Share → Type 0) (v : Vec) (m : Code B) (share : Share)
      → Secures Q m share
      → Secures Q (pin_code s v >> m) share
  unfolding pin_code ◌>>=◌
  pin-Secures Q v m share h =
      let to = λ (n : Code (Unit {0})). Secures Q (n >> m) share in
      if_either to s.pinned_memory _ _ (if_either to (v.cap == 0) _ _ h h) h

  pub claim-Keeping :
      (tls : TlsState) (besides share : Share)
      → Steady s
      → Entered s.id besides tls share
      → Keeping s.id besides (claim (alone s tls)) share
  claim-Keeping tls besides share steady (cached, covers) =
      let c = claim-Cached (alone s tls) steady.cache_size cached in
      (
        record { ours = c.ours; caches = c.caches; limit = c.limit },
        λ p. omega (arith, covers p, c.same (at p)),
      )

  module _ (size i : ℕ) (at_i : get_elem? class_sizes i ≡ some size) (steady : Steady s) where
    -- What the closure of `alloc` yields.
    abbrev pub Drawn : Option (Vec × Bool) × TlsState → Share → Type 0
    Drawn (none, tls) share = Keeping s.id (λ p. 0) tls share
    Drawn (some (v, from_tls), tls) share = Serves size v × Keeping s.id (λ p. at p v) tls share

    first-Drawn :
        (r : Option Vec × TlsState) (rest : Share)
        → Refilled size i at_i s.id r rest
        → Secures Drawn (result (Option.map (λ v. (v, false)) r.0, r.1)) rest
    first-Drawn (none, tls) rest h = h
    first-Drawn (some v, tls) rest h = h

    pub take_pooled-Secures :
        (tls : TlsState) (share : Share)
        → Entered s.id (λ p. 0) tls share
        → Secures Drawn (take_pooled_code s i tls) share
    unfolding take_pooled_code
    take_pooled-Secures tls share h =
        let mine_now = claim (alone s tls) in
        let (bound, covers) = claim-Keeping tls (λ p. 0) share steady h in
        let (cache, e, all) = cache_of size i at_i s.id mine_now bound in
        elim (List-cases cache) [
          | inl empty ↦ locally-Secures Drawn _ _ [] share (e ∙ ap some empty) (
              Secures-then (Refilled size i at_i s.id) Drawn (refill_code mine_now i s.batch_size) _
                share (refill-Secures size i at_i s.batch_size s.id mine_now share (bound, covers))
                first-Drawn)
          | inr (buf, rest, front) ↦
              let at_front = e ∙ ap some front in
              let good : All (Serves size) (buf ∷ rest) = subst (All (Serves size)) front all in
              locally-Secures Drawn _ _ (buf ∷ rest) share at_front (
                good.0,
                (
                  set-Bound size i at_i s.id mine_now bound rest good.1,
                  λ p. omega (
                    arith,
                    covers p,
                    tally-set (tally (at p)) mine_now.caches i (buf ∷ rest) rest at_front,
                  ),
                ),
              )
        ]
