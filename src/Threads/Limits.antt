-- ===== src/Threads/Limits.antt =====
-- How many buffers the threads at a pool of pool.rs keep to themselves.
use zeropool.Base.{
  ℕ, ◌+◌, ◌≤◌, ◌≡◌, sym, ap, subst, List, some, get_elem?, length, All, All-get, All-set,
  All-remove,
}
use zeropool.Vec.{Heap, Vec}
use zeropool.ArrayQueue.{ArrayQueue}
use zeropool.Tls.{TlsState}
use zeropool.Tls
use zeropool.Tls.Lengths.{Within}
use zeropool.Pool.{World}
use zeropool.Pool.Settings.{Settings}
use zeropool.Pool.Limits.{Fits, limits-Frame}
use zeropool.Session.Kept.{Act-Kept}
use zeropool.Threads.{Crew, seen, Step, acts, elsewhere, spawns, exits, Reach, here, next}
use zeropool.Threads.Ownership.{Act-Same}
use zeropool.Threads.Safety.{opened}

module _ {aq : ArrayQueue} (most : ℕ) where
  -- The caches that are the pool's are within the bound, and the configuration allows no more.
  record Roomy (c : Crew aq) : Type 0 where
    named : c.state.id ≡ 0 → ⊥
    limit : c.state.tls_cache_size ≤ most
    batch : c.state.batch_size ≤ most + 1
    within : All (λ (tls : TlsState). tls.pool_id ≡ c.state.id → Within most tls) c.threads

  Step-Roomy : {heap : Heap} {c d : Crew aq} → Step heap c d → Roomy c → Roomy d
  unfolding Tls.new
  Step-Roomy {heap} {c} (acts i tls s here_i act) h =
      let fits : Fits most (seen c tls).world = record {
        limit = h.limit;
        batch = h.batch;
        within = All-get _ c.threads i tls h.within here_i;
      } in
      let kept = Act-Kept (limits-Frame most) heap act fits in
      let same : s.world.state.id ≡ c.state.id = ap (λ (x : Settings). x.id) (Act-Same heap act) in
      record {
        named = subst (λ n. n ≡ 0 → ⊥) (sym same) h.named;
        limit = kept.limit;
        batch = kept.batch;
        within =
            All-set _ c.threads i s.world.tls
              (subst (λ n. All (λ (t : TlsState). t.pool_id ≡ n → Within most t) c.threads)
                (sym same) h.within)
              kept.within;
      }
  Step-Roomy {c} (elsewhere i tls tls' here_i ne shape) h = record {
    named = h.named;
    limit = h.limit;
    batch = h.batch;
    within = All-set _ c.threads i tls' h.within (λ e. absurd (ne e));
  }
  Step-Roomy spawns h = record {
    named = h.named;
    limit = h.limit;
    batch = h.batch;
    within = (λ e. absurd (h.named (sym e)), h.within);
  }
  Step-Roomy {c} (exits i) h = record {
    named = h.named;
    limit = h.limit;
    batch = h.batch;
    within = All-remove _ c.threads i h.within;
  }

  Reach-Roomy : {heap : Heap} {c d : Crew aq} → Roomy c → Reach heap c d → Roomy d
  Reach-Roomy h here = h
  Reach-Roomy h (next r step) = Step-Roomy step (Reach-Roomy h r)

-- Whatever any number of threads at a pool whose identity is not 0 do, in any order of their calls:
-- no cache that is the pool's, on any thread, holds more buffers than the greater of the cache size
-- and one less than the batch size.
pub caches_bounded :
    {aq : ArrayQueue} (heap : Heap) (w : World aq) (c : Crew aq) (most : ℕ)
    → (w.state.id ≡ 0 → ⊥)
    → w.state.tls_cache_size ≤ most
    → w.state.batch_size ≤ most + 1
    → Reach heap (opened w) c
    → (i j : ℕ) (tls : TlsState) (cache : List Vec) → get_elem? c.threads i ≡ some tls
    → tls.pool_id ≡ c.state.id
    → get_elem? tls.caches j ≡ some cache
    → length cache ≤ most
caches_bounded heap w c most named limit batch r i j tls cache here_i own at_j =
    let start : Roomy most (opened w) = record {
      named = named;
      limit = limit;
      batch = batch;
      within = tt;
    } in
    let done = Reach-Roomy most start r in
    let within = All-get _ c.threads i tls done.within here_i own in
    All-get (λ (x : List Vec). length x ≤ most) tls.caches j cache within.1 at_j
