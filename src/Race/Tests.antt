-- ===== src/Race/Tests.antt =====
-- Two threads at an empty class with room for two buffers.
use zeropool.Base.{
  ℕ, suc, ◌<◌, ◌+◌, ◌-◌, ◌%◌, ◌^◌, ◌≤◌, ◌≡◌, refl, true, false, [], ◌∷◌, arith, tally, length,
}
use zeropool.Vec.{Vec, uninit}
use zeropool.ArrayQueue.Slots.{slots, Slots}
use zeropool.SizeClass.{SizeClass, fetch_add, fetch_sub}
use zeropool.SizeClass
use zeropool.SizeClass.Laws.{held, room}
use zeropool.Race.{idle, pushed, clearing, push_ok, pop_ok, sub, System, pick, Reach, here, next}
use zeropool.Race.Counter.{is_pushed, is_popped, Quiet, count-exact}
use zeropool.Race.Work.{work, Finish}
use zeropool.Race.Finish.{finishes}
use zeropool.Race.Drift.{two_threads, clear_drifts}

abbrev some_buf : Vec
some_buf = record { ptr = 7; cells = λ i. uninit; len = 0; cap = 4096 }

abbrev no_slots : Slots
no_slots = record { held = []; bound = 2 }

abbrev one_slot : Slots
one_slot = record { held = some_buf ∷ []; bound = 2 }

abbrev empty_class : SizeClass slots
empty_class = record { queue = no_slots; class_size = 4096; count = 0 }

-- Thread 1 pops what thread 0 has pushed and not yet counted: for a moment the counter has wrapped.
abbrev wrapped : System slots
wrapped = record {
  class = record { queue = no_slots; class_size = 4096; count = 2 ^ 64 - 1 };
  threads = pushed ∷ idle ∷ [];
}

to_wrapped : Reach false (two_threads empty_class) wrapped
to_wrapped =
    next
      (next (next here (pick 0 refl (push_ok some_buf one_slot refl)))
        (pick 1 refl (pop_ok some_buf no_slots refl)))
      (pick 1 refl sub)

count-exact_example :
    ((wrapped.class.count + tally is_pushed wrapped.threads) % 2 ^ 64
      ≡ (length (held wrapped.class) + tally is_popped wrapped.threads) % 2 ^ 64)
    × (length (held wrapped.class) ≤ room wrapped.class)
    × (Quiet wrapped → wrapped.class.count ≡ length (held wrapped.class))
count-exact_example =
    count-exact {s = two_threads empty_class} (refl, (refl, tt)) refl (omega arith) (omega arith)
      to_wrapped

clear_drifts_example :
    (t : System slots) × (u : System slots) × Reach true (two_threads empty_class) t
    × Quiet t
    × (held t.class ≡ some_buf ∷ [])
    × (SizeClass.is_empty t.class ≡ true)
    × Reach true t u
    × Quiet u
    × (held u.class ≡ [])
    × (SizeClass.len u.class ≡ 2 ^ 64 - 1)
clear_drifts_example = clear_drifts empty_class some_buf refl refl (omega arith)

-- Thread 0 has pushed and not yet counted, while thread 1 clears.
abbrev midway : System slots
midway = record {
  class = record { queue = one_slot; class_size = 4096; count = 0 };
  threads = pushed ∷ clearing ∷ [];
}

finishes_example :
    ((t : System slots) × Finish midway (work midway) t × Quiet t)
    × ((n : ℕ) (t : System slots)
        → Finish midway n t
        → (n ≤ work midway)
          × (n ≡ work midway → Quiet t)
          × (n < work midway → (u : System slots) × Finish midway (suc n) u))
finishes_example = finishes midway
