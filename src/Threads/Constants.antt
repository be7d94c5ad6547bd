-- ===== src/Threads/Constants.antt =====
-- What threads at a pool of pool.rs leave as it was built.
use zeropool.Base.{◌≡◌, refl, ◌∙◌}
use zeropool.Vec.{Heap}
use zeropool.ArrayQueue.{ArrayQueue}
use zeropool.Pool.Settings.{Settings}
use zeropool.Threads.{Crew, Step, acts, elsewhere, spawns, exits, Reach, here, next}
use zeropool.Threads.Ownership.{Act-Same}

module _ {aq : ArrayQueue} where
  -- The settings of the pool that the threads share.
  abbrev shared_settings : Crew aq → Settings
  shared_settings c = record {
    id = c.state.id;
    tls_cache_size = c.state.tls_cache_size;
    min_buffer_size = c.state.min_buffer_size;
    pinned_memory = c.state.pinned_memory;
    batch_size = c.state.batch_size;
    track_stats = c.state.track_stats;
    allocator = c.state.allocator;
  }

  Step-settings :
      {heap : Heap} {c d : Crew aq} → Step heap c d → shared_settings d ≡ shared_settings c
  Step-settings {heap} (acts i tls s here_i act) = Act-Same heap act
  Step-settings (elsewhere i tls tls' here_i ne shape) = refl
  Step-settings spawns = refl
  Step-settings (exits i) = refl

  -- No call of any thread changes the pool's identity, its configuration or its allocator.
  Reach-settings :
      (heap : Heap) (c d : Crew aq) → Reach heap c d → shared_settings d ≡ shared_settings c
  Reach-settings heap c d here = refl
  Reach-settings heap c d (next {d = u} r step) = Step-settings step ∙ Reach-settings heap c u r
