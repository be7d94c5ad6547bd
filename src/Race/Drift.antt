-- ===== src/Race/Drift.antt =====
-- The counter of a class while one thread is in `clear` of size_class.rs and another in `push`.
use zeropool.Base.{◌-◌, ◌^◌, ◌<◌, ◌≡◌, refl, ap, ◌∙◌, true, [], ◌∷◌, ◌++◌, arith, length}
use zeropool.Vec.{Vec}
use zeropool.ArrayQueue.{ArrayQueue}
use zeropool.SizeClass.{SizeClass, fetch_add, fetch_sub}
use zeropool.SizeClass
use zeropool.SizeClass.Laws.{held, room}
use zeropool.Race.{
  idle, push_ok, add, pop_ok, sub, clear_enter, clear_end, clear_store, System, pick, pick_clear,
  Reach, here, next,
}
use zeropool.Race.Counter.{Quiet}

-- Two threads in no call, at a class.
abbrev pub two_threads : {aq : ArrayQueue} → SizeClass aq → System aq
two_threads c = record { class = c; threads = idle ∷ idle ∷ [] }

-- From every empty class with room and a counter of 0, two threads in `push` and `clear` can
-- interleave so that afterwards no call is running, the class holds the pushed buffer and
-- `is_empty` holds; one more `pop` then leaves it empty with a `len` of 2^64 - 1.
pub clear_drifts :
    {aq : ArrayQueue} (c : SizeClass aq) (buf : Vec)
    → held c ≡ []
    → c.count ≡ 0
    → 0 < room c
    → (t : System aq) × (u : System aq) × Reach true (two_threads c) t
      × Quiet t
      × (held t.class ≡ buf ∷ [])
      × (SizeClass.is_empty t.class ≡ true)
      × Reach true t u
      × Quiet u
      × (held u.class ≡ [])
      × (SizeClass.len u.class ≡ 2 ^ 64 - 1)
unfolding SizeClass.is_empty SizeClass.len
clear_drifts {aq} c buf empty zero_count free =
    let none_held : length (held c) ≡ 0 = ap length empty in
    let (q, push_run, now, same) = aq.push_room buf c.queue (omega arith) in
    let one : aq.items q ≡ buf ∷ [] = now ∙ ap (λ xs. xs ++ buf ∷ []) empty in
    let (r, pop_run, left, same') = aq.pop_front q buf [] one in
    let c1 : SizeClass aq = record c { queue = q } in
    let c2 : SizeClass aq = record c1 { count = fetch_add c.count } in
    let c3 : SizeClass aq = record c2 { count = 0 } in
    let c4 : SizeClass aq = record c3 { queue = r } in
    let c5 : SizeClass aq = record c4 { count = fetch_sub 0 } in
    let entered = next here (pick_clear 1 refl refl clear_enter) in
    let ended = next entered (pick_clear 1 refl refl (clear_end (aq.pop_empty c.queue empty))) in
    let pushing = next ended (pick 0 refl (push_ok buf q push_run)) in
    let counted = next pushing (pick 0 refl add) in
    let stored = next counted (pick_clear 1 refl refl clear_store) in
    let popping = next here (pick 0 refl (pop_ok buf r pop_run)) in
    let subtracted = next popping (pick 0 refl sub) in
    (
      two_threads c3,
      two_threads c5,
      stored,
      (refl, (refl, tt)),
      one,
      refl,
      subtracted,
      (refl, (refl, tt)),
      left,
      refl,
    )
