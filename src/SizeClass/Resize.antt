-- ===== src/SizeClass/Resize.antt =====
-- What the two resize functions make of a buffer that serves a class.
use zeropool.Base.{ℕ, ◌≤◌, ◌<◌, ◌≡◌, refl, some, arith}
use zeropool.Vec.{Vec, byte, resize, set_len}
use zeropool.SizeClass.{resize_zeroed, resize_uninit}
use zeropool.SizeClass.Laws.{Serves}

-- What a safe allocation of `size` bytes exposes: exactly `size` bytes, all of them zero.
pub record Zeroed (size : ℕ) (v : Vec) : Type 0 where
  pub length_is : v.len ≡ size
  pub fits : v.len ≤ v.cap
  pub zeros : (i : ℕ) → i < size → v.cells i ≡ byte 0

-- On a buffer that serves a class of at least the requested size the assertion holds, the buffer
-- stays in its allocation, and it is zeroed.
pub resize_zeroed-Zeroed :
    (class_size size : ℕ) (buf : Vec)
    → Serves class_size buf
    → size ≤ class_size
    → (v : Vec) × (resize_zeroed buf size ≡ some v)
      × Zeroed size v
      × (v.cap ≡ buf.cap)
      × (v.ptr ≡ buf.ptr)
unfolding resize_zeroed resize
resize_zeroed-Zeroed class_size size buf s h =
    let l = s.large in
    let z : (i : ℕ) → i < size → (resize buf size 0).cells i ≡ byte 0 =
      λ i lt. ground (arith, s.zeros i) in
    (
      resize buf size 0,
      ground arith,
      record { length_is = ground arith; fits = ground arith; zeros = z },
      ground arith,
      ground arith,
    )

pub resize_uninit-len :
    (class_size size : ℕ) (buf : Vec)
    → Serves class_size buf
    → size ≤ class_size
    → (v : Vec) × (resize_uninit buf size ≡ some v)
      × (v.len ≡ size)
      × (v.cap ≡ buf.cap)
      × (v.ptr ≡ buf.ptr)
unfolding resize_uninit set_len
resize_uninit-len class_size size buf s h =
    let l = s.large in (set_len buf size, ground arith, refl, refl, refl)
