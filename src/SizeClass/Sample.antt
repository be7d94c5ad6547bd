-- ===== src/SizeClass/Sample.antt =====
-- A class of 4 KB buffers that is full with two, for concrete runs.
use zeropool.Base.{ℕ, refl, [], ◌∷◌, arith}
use zeropool.Vec.{Vec, uninit}
use zeropool.ArrayQueue.Slots.{slots}
use zeropool.SizeClass.{SizeClass}
use zeropool.SizeClass.Laws.{Serves, ClassOk}

-- A cleared buffer that was never written.
abbrev pub blank : ℕ → Vec
blank ptr = record { ptr = ptr; cells = λ i. uninit; len = 0; cap = 4096 }

pub blank-Serves : (ptr : ℕ) → Serves 4096 (blank ptr)
blank-Serves ptr = record {
  large = omega arith;
  visible = omega arith;
  zeros = λ i lt. absurd (omega arith);
}

abbrev pub stocked : SizeClass slots
stocked = record {
  queue = record { held = blank 7 ∷ blank 8 ∷ []; bound = 2 };
  class_size = 4096;
  count = 2;
}

pub stocked-ClassOk : ClassOk 4096 stocked
stocked-ClassOk = record {
  boundary = refl;
  counted = refl;
  bounded = omega arith;
  small = omega arith;
  serves = (blank-Serves 7, (blank-Serves 8, tt));
}
