-- ===== src/Session/Kept.antt =====
-- What every call of pool.rs keeps, the calls of a client keep.
use zeropool.Base.{IfSome_value}
use zeropool.Vec.{Heap}
use zeropool.ArrayQueue.{ArrayQueue}
use zeropool.Buf
use zeropool.Buf.Return.{drop}
use zeropool.Pool.{World}
use zeropool.Pool.Frame.{Frame}
use zeropool.Pool.Frame.Alloc.{alloc-Beside, alloc_uninit-Beside}
use zeropool.Pool.Frame.Calls.{dealloc-Kept, warm-Kept}
use zeropool.Session.{
  Session, Act, allocates, allocates_uninit, edits, writes, takes, drops, warms, drains, resets,
}

pub Act-Kept :
    {aq : ArrayQueue} {R : World aq → World aq → Type 0} (f : Frame R) (heap : Heap)
    {s t : Session aq}
    → Act heap s t
    → R s.world t.world
unfolding drop Buf.new
Act-Kept f heap {s} (allocates size v class_idx after small run) =
    IfSome_value _ _ (Buf.new v class_idx, after) (alloc-Beside f size s.world) run
Act-Kept f heap {s} (allocates_uninit size v class_idx after small run) =
    IfSome_value _ _ (Buf.new_uninit v class_idx, after) (alloc_uninit-Beside f heap size s.world)
      run
Act-Kept f heap {s} (edits i v class_idx cells e) = f.stays s.world
Act-Kept f heap {s} (writes i v u class_idx n bytes e run) = f.numbers s.world
Act-Kept f heap {s} (takes i v class_idx b e run) = f.stays s.world
Act-Kept f heap {s} (drops i v class_idx after e run) =
    IfSome_value _ _ after (dealloc-Kept f v class_idx s.world) run
Act-Kept f heap {s} (warms count size after small run) =
    IfSome_value _ _ after (warm-Kept f count size s.world) run
Act-Kept f heap {s} (drains after run) = f.drains s.world after run
Act-Kept f heap {s} resets = f.resets s.world
