-- ===== src/Tls.antt =====
-- tls.rs: the state of one thread. The head of a cache is the top of its stack. `none` is a panic,
-- which an index out of bounds would be.
pub mod Refill
pub mod Spill
pub mod Lengths
mod Tests
use zeropool.Base.{
  ℕ, zero, suc, ◌-◌, Bool, List, [], ◌∷◌, Option, none, some, ◌>>=◌, get_elem?, set, ◌==◌,
  if◌then◌else◌,
}
use zeropool.Vec.{Vec}
use zeropool.ArrayQueue.{ArrayQueue}
use zeropool.SizeClass.{SizeClass}
use zeropool.SizeClass

pub record TlsState : Type 0 where
  pub pool_id : ℕ
  pub caches : List (List Vec)
  pub limit : ℕ

abbrev pub no_caches : List (List Vec)
no_caches = [] ∷ [] ∷ [] ∷ [] ∷ [] ∷ [] ∷ [] ∷ [] ∷ []

unfoldable pub new : TlsState
new = record { pool_id = 0; caches = no_caches; limit = 0 }

unfoldable pub owns : TlsState → ℕ → Bool
owns tls pool_id = tls.pool_id == pool_id

-- `for cache in &mut self.caches { cache.clear(); }`
unfoldable pub clear_caches : List (List Vec) → List (List Vec)
clear_caches [] = []
clear_caches (cache ∷ rest) = [] ∷ clear_caches rest

unfoldable pub bind : TlsState → ℕ → ℕ → TlsState
unfolding clear_caches
bind tls pool_id limit =
    let caches = if tls.pool_id == pool_id then tls.caches else clear_caches tls.caches in
    record { pool_id = pool_id; caches = caches; limit = limit }

-- `self.caches[class_idx].push(buf)`
unfoldable pub push_cache : TlsState → ℕ → Vec → Option TlsState
push_cache tls class_idx buf = do
  cache ← get_elem? tls.caches class_idx
  some (record tls { caches = set tls.caches class_idx (buf ∷ cache) })

module _ {aq : ArrayQueue} where
  unfoldable pub refill_loop : ℕ → TlsState → ℕ → SizeClass aq → Option (TlsState × SizeClass aq)
  unfolding push_cache
  refill_loop zero tls class_idx class = some (tls, class)
  refill_loop (suc remaining) tls class_idx class = elim (SizeClass.pop class) [
    | none ↦ some (tls, class)
    | some (buf, class') ↦
        push_cache tls class_idx buf >>= λ tls'. refill_loop remaining tls' class_idx class'
  ]

  unfoldable pub refill :
      TlsState → ℕ → SizeClass aq → ℕ → Option (Option Vec × TlsState × SizeClass aq)
  unfolding refill_loop
  refill tls class_idx class batch = elim (SizeClass.pop class) [
    | none ↦ some (none, tls, class)
    | some (first, class') ↦
        refill_loop (batch - 1) tls class_idx class' >>= λ r. some (some first, r.0, r.1)
  ]

  -- A buffer that the class refuses is dropped.
  unfoldable pub spill : ℕ → TlsState → ℕ → SizeClass aq → Option (TlsState × SizeClass aq)
  spill zero tls class_idx class = some (tls, class)
  spill (suc batch) tls class_idx class = get_elem? tls.caches class_idx >>= λ cache. elim cache [
    | [] ↦ some (tls, class)
    | buf ∷ rest ↦
        let tls' = record tls { caches = set tls.caches class_idx rest } in
        elim (SizeClass.push buf class) [
          | none ↦ some (tls', class)
          | some class' ↦ spill batch tls' class_idx class'
        ]
  ]
