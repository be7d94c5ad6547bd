-- ===== src/Pool/Frame.antt =====
-- How every call of pool.rs is composed of a few steps: a relation of worlds that these steps keep and
-- that composes is kept by all calls.
pub mod Alloc
pub mod Calls
use zeropool.Base.{suc, ℕ, ◌≡◌, Bool, Option, some}
use zeropool.Vec.{Vec}
use zeropool.ArrayQueue.{ArrayQueue}
use zeropool.SizeClass.{SizeClass}
use zeropool.Stats.{Event}
use zeropool.Pool.{World, note, pin, put_class}
use zeropool.Pool.Alloc.{take_pooled}
use zeropool.Pool.Dealloc.{keep}
use zeropool.Pool.Admin.{drain, reset_stats}

pub record Frame {aq : ArrayQueue} (R : World aq → World aq → Type 0) : Type 0 where
  pub stays : (w : World aq) → R w w
  pub trans : {w u x : World aq} → R w u → R u x → R w x
  pub notes : (e : Event) (w : World aq) → R w (note e w)
  pub pins : (buf : Vec) (w : World aq) → R w (pin buf w)
  pub numbers : (w : World aq) → R w (record w { serial = suc w.serial })
  pub puts :
      (i : ℕ) (class : SizeClass aq) (w : World aq)
      → R w (record w { state = put_class i class w.state })
  pub takes :
      (i : ℕ) (class : SizeClass aq) (w after : World aq) (out : Option (Vec × Bool))
      → take_pooled i class w ≡ some (out, after)
      → R w after
  pub keeps : (i : ℕ) (buf : Vec) (w after : World aq) → keep i buf w ≡ some after → R w after
  pub drains : (w after : World aq) → drain w ≡ some after → R w after
  pub resets : (w : World aq) → R w (reset_stats w)
