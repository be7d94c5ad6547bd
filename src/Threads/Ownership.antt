-- ===== src/Threads/Ownership.antt =====
-- Who holds an allocation, over all threads.
use zeropool.Base.{
  ℕ, ◌+◌, ◌≤◌, ◌<◌, ◌≡◌, sym, ap, subst, some, arith, get_elem?, remove, tally, tally-set,
  tally-remove, tally-remove_le, All, All-get, All-set, All-remove,
}
use zeropool.Vec.{Heap, Vec}
use zeropool.ArrayQueue.{ArrayQueue}
use zeropool.Allocator.{Contract}
use zeropool.ClassTable.Laws
use zeropool.ClassTable.Laws.{stock}
use zeropool.Tls.{TlsState}
use zeropool.Tls
use zeropool.Pool.Valid.{Cached, foreign, at, IsValid, mine, not_mine}
use zeropool.Pool.Settings.{Same, Settings, settings-Frame}
use zeropool.Session.Kept.{Act-Kept}
use zeropool.Pool.Alloc.Lent.{Home}
use zeropool.Session.{Session, Act}
use zeropool.Session.Ownership
use zeropool.Session.Ownership.{guard_at}
use zeropool.Session.Steps.{Act-Sound}
use zeropool.Threads.{Crew, seen, left, Step, acts, elsewhere, spawns, exits, Reach, here, next}

-- No step of a client changes the pool's settings.
pub Act-Same :
    {aq : ArrayQueue} (heap : Heap) {s t : Session aq} → Act heap s t → Same s.world t.world
Act-Same heap act = Act-Kept settings-Frame heap act

module _ {aq : ArrayQueue} where
  -- The buffers of the pool, weighted: those of the shared classes and of all threads' caches.
  abbrev pub pooled_by_all : (Vec → ℕ) → Crew aq → ℕ
  pooled_by_all weight c = stock weight c.state.table + tally (mine weight c.state.id) c.threads

  -- The pool is valid for every thread, live guards suit their classes, and an allocation has at most
  -- one holder, none if it was not made yet.
  pub record Sound (c : Crew aq) : Type 0 where
    pub contract : Contract c.state.allocator
    pub table : Laws.IsValid c.state.table
    pub cache_size : 0 < c.state.tls_cache_size
    pub named : c.state.id ≡ 0 → ⊥
    pub cached : All (Cached c.state.id) c.threads
    pub homes : All (λ (g : Vec × ℕ). Home g.1 g.0) c.live
    pub once : (p : ℕ) → pooled_by_all (at p) c + tally (guard_at p) c.live ≤ 1
    pub unborn : (p : ℕ) → c.serial ≤ p → pooled_by_all (at p) c + tally (guard_at p) c.live ≡ 0

  module _ (heap : Heap) (c : Crew aq) (i : ℕ) (tls : TlsState)
      (here_i : get_elem? c.threads i ≡ some tls) where
    -- The holders besides the thread.
    abbrev pub rest : ℕ → ℕ
    rest p = tally (mine (at p) c.state.id) (remove c.threads i)

    pub seen-IsValid : Sound c → IsValid (seen c tls).world
    seen-IsValid sound = record {
      contract = sound.contract;
      table = sound.table;
      cache_size = sound.cache_size;
      cached = All-get (Cached c.state.id) c.threads i tls sound.cached here_i;
    }

    seen-Sound : Sound c → Ownership.Sound rest (seen c tls)
    seen-Sound sound =
        let parts = λ (p : ℕ). tally-remove (mine (at p) c.state.id) c.threads i tls here_i in
        record {
          valid = seen-IsValid sound;
          homes = sound.homes;
          once = λ p. omega (arith, parts p, sound.once p);
          unborn = λ p h. omega (arith, parts p, sound.unborn p h);
        }

    left-Sound :
        (s : Session aq)
        → Sound c
        → Ownership.Sound rest s
        → Same (seen c tls).world s.world
        → Sound (left c i s)
    left-Sound s sound done same =
        let v = done.valid in
        let id_same : s.world.state.id ≡ c.state.id = ap (λ (x : Settings). x.id) same in
        let parts = λ (p : ℕ). tally-remove (mine (at p) s.world.state.id) c.threads i tls here_i in
        let swap =
          λ (p : ℕ). tally-set (mine (at p) s.world.state.id) c.threads i tls s.world.tls here_i in
        let others = λ (p : ℕ). ap (λ n. tally (mine (at p) n) (remove c.threads i)) id_same in
        record {
          contract = v.contract;
          table = v.table;
          cache_size = v.cache_size;
          named = subst (λ n. n ≡ 0 → ⊥) (sym id_same) sound.named;
          cached =
              All-set (Cached s.world.state.id) c.threads i s.world.tls
                (subst (λ n. All (Cached n) c.threads) (sym id_same) sound.cached) v.cached;
          homes = done.homes;
          once = λ p. omega (arith, parts p, swap p, others p, done.once p);
          unborn = λ p h. omega (arith, parts p, swap p, others p, done.unborn p h);
        }

  Step-Sound : {heap : Heap} {c d : Crew aq} → Step heap c d → Sound c → Sound d
  unfolding Tls.new
  Step-Sound {heap} {c} (acts i tls s here_i act) sound =
      left-Sound heap c i tls here_i s sound
        (Act-Sound (rest heap c i tls here_i) heap act (seen-Sound heap c i tls here_i sound))
        (Act-Same heap act)
  Step-Sound {c} (elsewhere i tls tls' here_i ne shape) sound =
      let swap = λ (p : ℕ). tally-set (mine (at p) c.state.id) c.threads i tls tls' here_i in
      let gone = λ (p : ℕ). not_mine (at p) c.state.id tls' ne in
      record {
        contract = sound.contract;
        table = sound.table;
        cache_size = sound.cache_size;
        named = sound.named;
        cached = All-set (Cached c.state.id) c.threads i tls' sound.cached (foreign ne shape);
        homes = sound.homes;
        once = λ p. omega (arith, swap p, gone p, sound.once p);
        unborn = λ p h. omega (arith, swap p, gone p, sound.unborn p h);
      }
  Step-Sound {c} spawns sound =
      let other : Tls.new.pool_id ≡ c.state.id → ⊥ = λ e. sound.named (sym e) in
      let gone = λ (p : ℕ). not_mine (at p) c.state.id Tls.new other in
      record {
        contract = sound.contract;
        table = sound.table;
        cache_size = sound.cache_size;
        named = sound.named;
        cached = (foreign other (tt, (tt, (tt, (tt, (tt, (tt, (tt, (tt, tt)))))))), sound.cached);
        homes = sound.homes;
        once = λ p. omega (arith, gone p, sound.once p);
        unborn = λ p h. omega (arith, gone p, sound.unborn p h);
      }
  Step-Sound {c} (exits i) sound =
      let fewer = λ (p : ℕ). tally-remove_le (mine (at p) c.state.id) c.threads i in
      record {
        contract = sound.contract;
        table = sound.table;
        cache_size = sound.cache_size;
        named = sound.named;
        cached = All-remove (Cached c.state.id) c.threads i sound.cached;
        homes = sound.homes;
        once = λ p. omega (arith, fewer p, sound.once p);
        unborn = λ p h. omega (arith, fewer p, sound.unborn p h);
      }

  pub Reach-Sound : {heap : Heap} {c d : Crew aq} → Sound c → Reach heap c d → Sound d
  Reach-Sound sound here = sound
  Reach-Sound sound (next r step) = Step-Sound step (Reach-Sound sound r)
