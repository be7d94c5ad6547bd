-- ===== src/Threads.antt =====
-- Any number of threads at one pool: each has its `TlsState`, and they share the pool, the allocator and
-- the guards, which may be dropped by another thread than the one that allocated. A call of pool.rs or
-- buf.rs is one step. Threads come and go, and use other pools in between.
pub mod Ownership
pub mod Safety
pub mod Refinement
pub mod Constants
pub mod Counts
pub mod Limits
mod Tests
use zeropool.Base.{ℕ, ◌≡◌, List, ◌∷◌, some, get_elem?, set, remove}
use zeropool.Vec.{Heap, Vec}
use zeropool.ArrayQueue.{ArrayQueue}
use zeropool.Route.{class_sizes}
use zeropool.Tls.{TlsState}
use zeropool.Tls
use zeropool.Pool.{State}
use zeropool.Pool.Valid.{Shaped}
use zeropool.Session.{Session, Act}

pub record Crew (aq : ArrayQueue) : Type 0 where
  pub state : State aq
  pub threads : List TlsState
  pub serial : ℕ
  pub locks : List (ℕ × ℕ)
  pub live : List (Vec × ℕ)

module _ {aq : ArrayQueue} where
  -- What a call on the thread with this state sees.
  abbrev pub seen : Crew aq → TlsState → Session aq
  seen c tls = record {
    world = record { state = c.state; tls = tls; serial = c.serial; locks = c.locks };
    live = c.live;
  }

  -- What a call on thread `i` leaves.
  abbrev pub left : Crew aq → ℕ → Session aq → Crew aq
  left c i s = record {
    state = s.world.state;
    threads = set c.threads i s.world.tls;
    serial = s.world.serial;
    locks = s.world.locks;
    live = s.live;
  }

module _ {aq : ArrayQueue} (heap : Heap) (c : Crew aq) where
  pub data Step : Crew aq → Type 0 where
    acts :
        (i : ℕ) (tls : TlsState) (s : Session aq)
        → get_elem? c.threads i ≡ some tls
        → Act heap (seen c tls) s
        → Step (left c i s)
    -- A call on another pool binds the thread's caches to that one.
    elsewhere :
        (i : ℕ) (tls tls' : TlsState)
        → get_elem? c.threads i ≡ some tls
        → (tls'.pool_id ≡ c.state.id → ⊥)
        → Shaped class_sizes tls'.caches
        → Step (record c { threads = set c.threads i tls' })
    spawns : Step (record c { threads = Tls.new ∷ c.threads })
    -- The caches of a thread that ends are freed.
    exits : (i : ℕ) → Step (record c { threads = remove c.threads i })

pub data Reach {aq : ArrayQueue} (heap : Heap) (c : Crew aq) : Crew aq → Type 0 where
  here : Reach heap c c
  next : {d e : Crew aq} → Reach heap c d → Step heap d e → Reach heap c e
