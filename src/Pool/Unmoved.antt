-- ===== src/Pool/Unmoved.antt =====
-- Steps of the calls of pool.rs that move no buffer: counting an event, and locking a buffer.
use zeropool.Base.{◌≡◌, refl, ap, ◌∙◌, if_either, ◌==◌}
use zeropool.Vec.{Vec}
use zeropool.ArrayQueue.{ArrayQueue}
use zeropool.Stats.{Event}
use zeropool.Pool.{World, note, pin}

module _ {aq : ArrayQueue} where
  -- Buffers stand where they stood, in the shared classes and in the thread's caches.
  pub record Unmoved (w u : World aq) : Type 0 where
    pub id : u.state.id ≡ w.state.id
    pub least : u.state.min_buffer_size ≡ w.state.min_buffer_size
    pub table : u.state.table ≡ w.state.table
    pub tls : u.tls ≡ w.tls
    pub serial : u.serial ≡ w.serial

  still : (w u : World aq) → u ≡ w → Unmoved w u
  still w u e = record {
    id = ap (λ (x : World aq). x.state.id) e;
    least = ap (λ (x : World aq). x.state.min_buffer_size) e;
    table = ap (λ (x : World aq). x.state.table) e;
    tls = ap (λ (x : World aq). x.tls) e;
    serial = ap (λ (x : World aq). x.serial) e;
  }

  pub note-Unmoved : (e : Event) (w : World aq) → Unmoved w (note e w)
  unfolding note
  note-Unmoved e w =
      if_either (λ u. Unmoved w u) w.state.track_stats _ w
        (record { id = refl; least = refl; table = refl; tls = refl; serial = refl })
        (still w w refl)

  pub pin-Unmoved : (buf : Vec) (w : World aq) → Unmoved w (pin buf w)
  unfolding pin
  pin-Unmoved buf w =
      let to = λ (u : World aq). Unmoved w u in
      if_either to w.state.pinned_memory _ w
        (if_either to (buf.cap == 0) w _ (still w w refl)
          (record { id = refl; least = refl; table = refl; tls = refl; serial = refl }))
        (still w w refl)

  pub Unmoved-trans : {w u x : World aq} → Unmoved w u → Unmoved u x → Unmoved w x
  Unmoved-trans a b = record {
    id = b.id ∙ a.id;
    least = b.least ∙ a.least;
    table = b.table ∙ a.table;
    tls = b.tls ∙ a.tls;
    serial = b.serial ∙ a.serial;
  }
