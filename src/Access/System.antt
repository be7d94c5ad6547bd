-- ===== src/Access/System.antt =====
-- Any number of threads at one pool, each in a call of pool.rs or between calls: a step is one access to
-- what they share. Calls start and end, clients change the buffers they hold, threads come and go and use
-- other pools in between.
pub mod Queues
pub mod Performs
pub mod Owned
pub mod Begins
pub mod Frees
pub mod Steps
pub mod Safety
use zeropool.Base.{
  ℕ, suc, ◌^◌, ◌<◌, ◌≡◌, List, ◌∷◌, Option, none, some, get_elem?, set, remove, ltb, if◌then◌else◌,
  length,
}
use zeropool.Vec.{Heap, Vec, Cell}
use zeropool.ArrayQueue.{ArrayQueue}
use zeropool.Route.{class_sizes}
use zeropool.Stats
use zeropool.Tls.{TlsState}
use zeropool.Tls
use zeropool.Buf.{write}
use zeropool.Buf
use zeropool.Pool.Valid.{Shaped}
use zeropool.Access.{Code, result, ◌>>=◌, Shared, pop_at, count_at, perform}
use zeropool.Access.Calls.{alloc_code, alloc_uninit_code, dealloc_code, warm_code}

-- What a call is to return: a guard on so many zeroed or unread bytes, or no guard.
pub data Asked : Type 0 where
  zeroed : ℕ → Asked
  sized : ℕ → Asked
  no_guard : Asked

-- The guard that a call returns, if it returns one, and the thread's state after it.
abbrev pub Result : Type 0
Result = Option (Vec × ℕ) × TlsState

pub data Thread : Type 0 where
  idle : TlsState → Thread
  calling : Asked → Code Result → Thread
  draining : TlsState → ℕ → Thread  -- in the loop of `clear` on this class
  drained : TlsState → ℕ → Thread  -- after that loop, before the store

pub record System (aq : ArrayQueue) : Type 0 where
  pub shared : Shared aq
  pub threads : List Thread
  pub live : List (Vec × ℕ)

abbrev pub lend : Code ((Vec × ℕ) × TlsState) → Code Result
lend code = code >>= λ r. result (some r.0, r.1)

abbrev pub keep_back : Code TlsState → Code Result
keep_back code = code >>= λ tls. result (none, tls)

module _ {aq : ArrayQueue} where
  abbrev pub becomes : System aq → ℕ → Thread → System aq
  becomes c i thread = record c { threads = set c.threads i thread }

  module _ (heap : Heap) (c : System aq) where
    pub data Step : System aq → Type 0 where
      -- A request above `isize::MAX` only counts itself before it panics, and is left out.
      starts_alloc :
          (i : ℕ) (tls : TlsState) (size : ℕ)
          → get_elem? c.threads i ≡ some (idle tls)
          → size < 2 ^ 63
          → Step (becomes c i (calling (zeroed size) (lend (alloc_code c.shared.state size tls))))
      starts_alloc_uninit :
          (i : ℕ) (tls : TlsState) (size : ℕ)
          → get_elem? c.threads i ≡ some (idle tls)
          → size < 2 ^ 63
          → Step (
              becomes c i (calling (sized size) (lend (alloc_uninit_code c.shared.state size tls))))
      -- A guard is dropped, on whichever thread.
      starts_drop :
          (i : ℕ) (tls : TlsState) (j : ℕ) (v : Vec) (class_idx : ℕ)
          → get_elem? c.threads i ≡ some (idle tls)
          → get_elem? c.live j ≡ some (v, class_idx)
          → Step (
              becomes
                (record c { live = remove c.live j })
                i
                (calling no_guard (keep_back (dealloc_code c.shared.state v class_idx tls))))
      starts_warm :
          (i : ℕ) (tls : TlsState) (count size : ℕ)
          → get_elem? c.threads i ≡ some (idle tls)
          → size < 2 ^ 64
          → Step (
              becomes c i (
                calling no_guard (warm_code c.shared.state count size >>= λ u. result (none, tls))))
      access :
          (i : ℕ) (asked : Asked) (code code' : Code Result) (s : Shared aq)
          → get_elem? c.threads i ≡ some (calling asked code)
          → perform heap code c.shared ≡ some (code', s)
          → Step (becomes (record c { shared = s }) i (calling asked code'))
      lends :
          (i : ℕ) (asked : Asked) (v : Vec) (class_idx : ℕ) (tls : TlsState)
          → get_elem? c.threads i ≡ some (calling asked (result (some (v, class_idx), tls)))
          → Step (becomes (record c { live = (v, class_idx) ∷ c.live }) i (idle tls))
      ends :
          (i : ℕ) (asked : Asked) (tls : TlsState)
          → get_elem? c.threads i ≡ some (calling asked (result (none, tls)))
          → Step (becomes c i (idle tls))
      starts_drain :
          (i : ℕ) (tls : TlsState)
          → get_elem? c.threads i ≡ some (idle tls)
          → Step (becomes c i (draining tls 0))
      -- `clear` frees a buffer.
      drain_pop :
          (i : ℕ) (tls : TlsState) (k : ℕ) (buf : Vec) (s : Shared aq)
          → get_elem? c.threads i ≡ some (draining tls k)
          → pop_at k c.shared ≡ some (some buf, s)
          → Step (record c { shared = s })
      drain_end :
          (i : ℕ) (tls : TlsState) (k : ℕ) (s : Shared aq)
          → get_elem? c.threads i ≡ some (draining tls k)
          → pop_at k c.shared ≡ some (none, s)
          → Step (becomes (record c { shared = s }) i (drained tls k))
      drain_store :
          (i : ℕ) (tls : TlsState) (k : ℕ) (s : Shared aq)
          → get_elem? c.threads i ≡ some (drained tls k)
          → count_at (λ n. 0) k c.shared ≡ some s
          → Step (
              becomes
                (record c { shared = s })
                i
                (if ltb (suc k) (length class_sizes) then draining tls (suc k) else idle tls))
      resets : Step (record c {
        shared = record c.shared {
          state = record c.shared.state { counters = Stats.reset c.shared.state.counters };
        };
      })
      -- What clients do with the guards they hold.
      edits :
          (j : ℕ) (v : Vec) (class_idx : ℕ) (cells : ℕ → Cell)
          → get_elem? c.live j ≡ some (v, class_idx)
          → Step (record c { live = set c.live j (record v { cells = cells }, class_idx) })
      writes :
          (j : ℕ) (v u : Vec) (class_idx n : ℕ) (bytes : List ℕ)
          → get_elem? c.live j ≡ some (v, class_idx)
          → write heap c.shared.serial (Buf.new v class_idx) bytes ≡ some (n, Buf.new u class_idx)
          → Step (record c {
            shared = record c.shared { serial = suc c.shared.serial };
            live = set c.live j (u, class_idx);
          })
      takes :
          (j : ℕ) (v : Vec) (class_idx : ℕ)
          → get_elem? c.live j ≡ some (v, class_idx)
          → Step (record c { live = remove c.live j })
      -- A call on another pool binds the thread's caches to that one.
      elsewhere :
          (i : ℕ) (tls tls' : TlsState)
          → get_elem? c.threads i ≡ some (idle tls)
          → (tls'.pool_id ≡ c.shared.state.id → ⊥)
          → Shaped class_sizes tls'.caches
          → Step (becomes c i (idle tls'))
      spawns : Step (record c { threads = idle Tls.new ∷ c.threads })
      exits :
          (i : ℕ) (tls : TlsState)
          → get_elem? c.threads i ≡ some (idle tls)
          → Step (record c { threads = remove c.threads i })

pub data Reach {aq : ArrayQueue} (heap : Heap) (c : System aq) : System aq → Type 0 where
  here : Reach heap c c
  next : {d e : System aq} → Reach heap c d → Step heap d e → Reach heap c e
