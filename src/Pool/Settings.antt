-- ===== src/Pool/Settings.antt =====
-- What no call of pool.rs changes once a pool is built: its identity, its configuration and its
-- allocator.
use zeropool.Base.{ℕ, ◌≡◌, refl, ◌∙◌, arith, Bool, Option, some, if_either, ◌==◌}
use zeropool.Vec.{Vec}
use zeropool.ArrayQueue.{ArrayQueue}
use zeropool.SizeClass.{SizeClass}
use zeropool.Allocator.{Allocator}
use zeropool.Stats.{Event}
use zeropool.Pool.{World, note, pin, put_class}
use zeropool.Pool.Alloc.{take_pooled}
use zeropool.Pool.Dealloc.{keep, push_shared}
use zeropool.Pool.Admin.{drain, reset_stats}
use zeropool.Pool.Frame.{Frame}

pub record Settings : Type 0 where
  pub id : ℕ
  pub tls_cache_size : ℕ
  pub min_buffer_size : ℕ
  pub pinned_memory : Bool
  pub batch_size : ℕ
  pub track_stats : Bool
  pub allocator : Allocator

module _ {aq : ArrayQueue} where
  abbrev pub settings : World aq → Settings
  settings w = record {
    id = w.state.id;
    tls_cache_size = w.state.tls_cache_size;
    min_buffer_size = w.state.min_buffer_size;
    pinned_memory = w.state.pinned_memory;
    batch_size = w.state.batch_size;
    track_stats = w.state.track_stats;
    allocator = w.state.allocator;
  }

  abbrev pub Same : World aq → World aq → Type 0
  Same w u = settings u ≡ settings w

  note-Same : (e : Event) (w : World aq) → Same w (note e w)
  unfolding note
  note-Same e w = if_either (λ u. Same w u) w.state.track_stats _ w refl refl

  pin-Same : (buf : Vec) (w : World aq) → Same w (pin buf w)
  unfolding pin
  pin-Same buf w =
      let same = λ (u : World aq). Same w u in
      if_either same w.state.pinned_memory _ w (if_either same (buf.cap == 0) w _ refl refl) refl

  take_pooled-Same :
      (i : ℕ) (class : SizeClass aq) (w after : World aq) (out : Option (Vec × Bool))
      → take_pooled i class w ≡ some (out, after)
      → Same w after
  unfolding take_pooled put_class
  take_pooled-Same i class w after out run = ground arith

  keep-Same : (i : ℕ) (buf : Vec) (w after : World aq) → keep i buf w ≡ some after → Same w after
  unfolding keep push_shared put_class
  keep-Same i buf w after run = ground arith

  put_class-Same :
      (i : ℕ) (class : SizeClass aq) (w : World aq)
      → Same w (record w { state = put_class i class w.state })
  unfolding put_class
  put_class-Same i class w = refl

  drain-Same : (w after : World aq) → drain w ≡ some after → Same w after
  unfolding drain
  drain-Same w after run = ground arith

  reset_stats-Same : (w : World aq) → Same w (reset_stats w)
  unfolding reset_stats
  reset_stats-Same w = refl

  pub settings-Frame : Frame Same
  settings-Frame = record {
    stays = λ w. refl;
    trans = λ a b. b ∙ a;
    notes = note-Same;
    pins = pin-Same;
    numbers = λ w. refl;
    puts = put_class-Same;
    takes = take_pooled-Same;
    keeps = keep-Same;
    drains = drain-Same;
    resets = reset_stats-Same;
  }
