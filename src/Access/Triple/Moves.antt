-- ===== src/Access/Triple/Moves.antt =====
-- `refill` and `spill` of tls.rs while other threads use the queues.
use zeropool.Base.{
  ℕ, zero, suc, ◌+◌, ◌-◌, ◌≤◌, ◌<◌, ◌≡◌, refl, ap, subst, ◌∙◌, inl, inr, List-cases, Bool, true,
  false, List, [], ◌∷◌, Option, none, some, arith, get_elem?, set, tally, tally-set, All, Each-get,
  Each-set,
}
use zeropool.Vec.{Vec}
use zeropool.Route.{class_sizes}
use zeropool.SizeClass.Laws.{Serves}
use zeropool.Tls.{TlsState, push_cache}
use zeropool.Pool.Valid.{CacheOk, Caches, at, stored}
use zeropool.Access.{Code, locally, ◌>>=◌}
use zeropool.Access.Calls.{pop_code, push_code, refill_loop_code, refill_code, spill_code}
use zeropool.Access.Triple.{Share, plus, Secures, Secures-then}

-- A thread's state that is bound to the pool.
pub record Bound (id : ℕ) (tls : TlsState) : Type 0 where
  pub ours : tls.pool_id ≡ id
  pub caches : Caches tls.caches
  pub limit : 0 < tls.limit

-- The share covers the thread's caches, and `besides` as well.
abbrev pub Covers : Share → TlsState → Share → Type 0
Covers besides tls share = (p : ℕ) → besides p + stored (at p) tls ≤ share p

-- A bound state, with what the share covers.
abbrev pub Keeping : ℕ → Share → TlsState → Share → Type 0
Keeping id besides tls share = Bound id tls × Covers besides tls share

-- A computation on the thread alone that does not panic.
pub locally-Secures :
    {A B : Type 0} (Q : B → Share → Type 0) (m : Option A) (f : A → Code B) (a : A) (share : Share)
    → m ≡ some a
    → Secures Q (f a) share
    → Secures Q (locally m >>= f) share
unfolding ◌>>=◌
locally-Secures Q m f a share e h = rw e h

pub locally-done :
    {A : Type 0} (Q : A → Share → Type 0) (m : Option A) (a : A) (share : Share)
    → m ≡ some a
    → Q a share
    → Secures Q (locally m) share
locally-done Q m a share e h = rw e h

module _ (size i : ℕ) (at_i : get_elem? class_sizes i ≡ some size) where
  pub pop-Secures :
      {B : Type 0} (Q : B → Share → Type 0) (f : Option Vec → Code B) (share : Share)
      → ((v : Vec) → Serves size v → Secures Q (f (some v)) (plus share v))
      → Secures Q (f none) share
      → Secures Q (pop_code i >>= f) share
  unfolding pop_code ◌>>=◌
  pop-Secures Q f share more empty = (size, at_i, λ v good. ((size, at_i), more v good), empty)

  pub push-Secures :
      {B : Type 0} (Q : B → Share → Type 0) (v : Vec) (f : Bool → Code B) (rest share : Share)
      → Serves size v
      → ((p : ℕ) → rest p + at p v ≤ share p)
      → Secures Q (f true) rest
      → Secures Q (f false) share
      → Secures Q (push_code i v >>= f) share
  unfolding push_code ◌>>=◌
  push-Secures Q v f rest share good gave taken full =
      (size, at_i, good, (rest, gave, ((size, at_i), taken)), full)

  -- A cache of a bound state, and the state with the cache changed.
  module _ (id : ℕ) (tls : TlsState) (h : Bound id tls) where
    pub cache_of :
        (cache : List Vec) × (get_elem? tls.caches i ≡ some cache) × All (Serves size) cache
    cache_of = Each-get CacheOk i class_sizes tls.caches size h.caches at_i

    pub set-Bound :
        (cache : List Vec)
        → All (Serves size) cache
        → Bound id (record tls { caches = set tls.caches i cache })
    set-Bound cache all = record {
      ours = h.ours;
      caches = Each-set CacheOk i class_sizes tls.caches size cache h.caches at_i all;
      limit = h.limit;
    }

  pub refill_loop-Secures :
      (n id : ℕ) (tls : TlsState) (besides share : Share)
      → Keeping id besides tls share
      → Secures (Keeping id besides) (refill_loop_code n tls i) share
  unfolding refill_loop_code push_cache
  refill_loop-Secures zero id tls besides share h = h
  refill_loop-Secures (suc n) id tls besides share (bound, covers) =
      pop-Secures (Keeping id besides) _ share
        (λ v good.
          let (cache, e, all) = cache_of id tls bound in
          let tls' : TlsState = record tls { caches = set tls.caches i (v ∷ cache) } in
          let later = refill_loop-Secures n id tls' besides (plus share v) (
            set-Bound id tls bound (v ∷ cache) (good, all),
            λ p. omega (arith, covers p, tally-set (tally (at p)) tls.caches i cache (v ∷ cache) e),
          ) in
          locally-Secures (Keeping id besides) _ _ tls' (plus share v) (rw e refl) later)
        (bound, covers)

  -- What `refill` yields: the buffer to return, and a state bound as before.
  abbrev pub Refilled : ℕ → Option Vec × TlsState → Share → Type 0
  Refilled id (none, tls) share = Keeping id (λ p. 0) tls share
  Refilled id (some v, tls) share = Serves size v × Keeping id (λ p. at p v) tls share

  pub refill-Secures :
      (batch id : ℕ) (tls : TlsState) (share : Share)
      → Keeping id (λ p. 0) tls share
      → Secures (Refilled id) (refill_code tls i batch) share
  unfolding refill_code
  refill-Secures batch id tls share (bound, covers) =
      pop-Secures (Refilled id) _ share
        (λ v good.
          Secures-then (Keeping id (λ p. at p v)) (Refilled id) (refill_loop_code (batch - 1) tls i)
            _ (plus share v)
            (refill_loop-Secures (batch - 1) id tls (λ p. at p v) (plus share v)
              (bound, λ p. omega (arith, covers p)))
            (λ tls' rest h. (good, h)))
        (bound, covers)

  pub spill-Secures :
      (batch id : ℕ) (tls : TlsState) (besides share : Share)
      → Keeping id besides tls share
      → Secures (Keeping id besides) (spill_code batch tls i) share
  unfolding spill_code
  spill-Secures zero id tls besides share h = h
  spill-Secures (suc batch) id tls besides share (bound, covers) =
      let (cache, e, all) = cache_of id tls bound in
      elim (List-cases cache) [
        | inl empty ↦
            locally-Secures (Keeping id besides) _ _ [] share (e ∙ ap some empty) (bound, covers)
        | inr (buf, rest, front) ↦
            let at_front = e ∙ ap some front in
            let good : All (Serves size) (buf ∷ rest) = subst (All (Serves size)) front all in
            let tls' : TlsState = record tls { caches = set tls.caches i rest } in
            let less : Share = λ p. besides p + stored (at p) tls' in
            let shrunk : (p : ℕ) → stored (at p) tls' + at p buf ≡ stored (at p) tls = λ p.
              omega (arith, tally-set (tally (at p)) tls.caches i (buf ∷ rest) rest at_front) in
            let bound' = set-Bound id tls bound rest good.1 in
            locally-Secures (Keeping id besides) _ _ (buf ∷ rest) share at_front (
              push-Secures (Keeping id besides) buf _ less share good.0
                (λ p. omega (arith, covers p, shrunk p))
                (spill-Secures batch id tls' besides less (bound', λ p. omega arith))
                (bound', λ p. omega (arith, covers p, shrunk p)))
      ]
