-- ===== src/Session.antt =====
-- A client of the pool on one thread: it holds guards, and each of its steps is one call of pool.rs or
-- buf.rs, or a change of the bytes that a guard lends it. A guard is its buffer and its class index.
-- Its two kinds, `Buf` and `BufUninit`, differ in what they let the client read, and drop alike.
pub mod Kept
pub mod Ownership
pub mod Steps
pub mod Flow
pub mod Safety
use zeropool.Base.{ℕ, suc, ◌^◌, ◌<◌, ◌≡◌, List, ◌∷◌, some, get_elem?, set, remove}
use zeropool.Vec.{Heap, Vec, Cell}
use zeropool.ArrayQueue.{ArrayQueue}
use zeropool.Buf.{Buf, write, into_inner}
use zeropool.Buf
use zeropool.Buf.Return.{drop}
use zeropool.Pool.{World}
use zeropool.Pool.Alloc.{alloc, alloc_uninit}
use zeropool.Pool.Admin.{warm, drain, reset_stats}

pub record Session (aq : ArrayQueue) : Type 0 where
  pub world : World aq
  pub live : List (Vec × ℕ)

module _ {aq : ArrayQueue} (heap : Heap) (s : Session aq) where
  pub data Act : Session aq → Type 0 where
    allocates :
        (size : ℕ) (v : Vec) (class_idx : ℕ) (after : World aq)
        → size < 2 ^ 64
        → alloc size s.world ≡ some (Buf.new v class_idx, after)
        → Act (record { world = after; live = (v, class_idx) ∷ s.live })
    allocates_uninit :
        (size : ℕ) (v : Vec) (class_idx : ℕ) (after : World aq)
        → size < 2 ^ 64
        → alloc_uninit heap size s.world ≡ some (Buf.new_uninit v class_idx, after)
        → Act (record { world = after; live = (v, class_idx) ∷ s.live })
    -- The client changes bytes in place, through `DerefMut` or `as_uninit_mut`.
    edits :
        (i : ℕ) (v : Vec) (class_idx : ℕ) (cells : ℕ → Cell)
        → get_elem? s.live i ≡ some (v, class_idx)
        → Act (record s { live = set s.live i (record v { cells = cells }, class_idx) })
    -- `io::Write` through the guard, which may move the buffer to a new allocation.
    writes :
        (i : ℕ) (v u : Vec) (class_idx n : ℕ) (bytes : List ℕ)
        → get_elem? s.live i ≡ some (v, class_idx)
        → write heap s.world.serial (Buf.new v class_idx) bytes ≡ some (n, Buf.new u class_idx)
        → Act (record {
          world = record s.world { serial = suc s.world.serial };
          live = set s.live i (u, class_idx);
        })
    -- `into_inner`: from here on the vector is the client's.
    takes :
        (i : ℕ) (v : Vec) (class_idx : ℕ) (b : Buf)
        → get_elem? s.live i ≡ some (v, class_idx)
        → into_inner (Buf.new v class_idx) ≡ some (v, b)
        → Act (record s { live = remove s.live i })
    drops :
        (i : ℕ) (v : Vec) (class_idx : ℕ) (after : World aq)
        → get_elem? s.live i ≡ some (v, class_idx)
        → drop (Buf.new v class_idx) s.world ≡ some after
        → Act (record { world = after; live = remove s.live i })
    warms :
        (count size : ℕ) (after : World aq)
        → size < 2 ^ 64
        → warm count size s.world ≡ some after
        → Act (record s { world = after })
    drains : (after : World aq) → drain s.world ≡ some after → Act (record s { world = after })
    resets : Act (record s { world = reset_stats s.world })

pub data Run {aq : ArrayQueue} (heap : Heap) (s : Session aq) : Session aq → Type 0 where
  begun : Run heap s s
  acted : {t u : Session aq} → Run heap s t → Act heap t u → Run heap s u
