-- ===== src/SizeClass/Drain.antt =====
-- `clear`, and its loop over the queue.
use zeropool.Base.{
  ℕ, zero, suc, ◌<◌, ◌≡◌, refl, inl, inr, [], some, arith, length, List-cases, ◌∙◌, ap,
}
use zeropool.ArrayQueue.{ArrayQueue}
use zeropool.SizeClass.{SizeClass, clear, drain_queue}
use zeropool.SizeClass.Laws.{held, room, ClassOk}

-- Enough fuel: the loop ends after one round more than the queue holds buffers, with it empty.
pub drain_queue-empties :
    (aq : ArrayQueue) (fuel : ℕ) (q : aq.Queue)
    → length (aq.items q) < fuel
    → (r : aq.Queue) × (drain_queue aq fuel q ≡ some r)
      × (aq.items r ≡ [])
      × (aq.capacity r ≡ aq.capacity q)
unfolding drain_queue
drain_queue-empties aq zero q h = absurd (omega arith)
drain_queue-empties aq (suc fuel) q h = elim (List-cases (aq.items q)) [
  | inl empty ↦ (q, rw (aq.pop_empty q empty, drain_queue), empty, refl)
  | inr (v, rest, front) ↦
      let (q', popped, left, same) = aq.pop_front q v rest front in
      let shorter : suc (length (aq.items q')) ≡ length (aq.items q) = rw (left, front) in
      let (r, run, none_left, same') = drain_queue-empties aq fuel q' (omega arith) in
      (r, rw (popped, drain_queue) run, none_left, same' ∙ same)
]

module _ {aq : ArrayQueue} where
  -- `clear` returns on every valid class, and leaves it valid and empty.
  pub clear-ClassOk :
      (size : ℕ) (c : SizeClass aq)
      → ClassOk size c
      → (d : SizeClass aq) × (clear c ≡ some d) × ClassOk size d × (held d ≡ [])
  unfolding clear
  clear-ClassOk size c ok =
      let b = ok.bounded in
      let s = ok.small in
      let (r, run, empty, same) = drain_queue-empties aq (suc (room c)) c.queue (omega arith) in
      let none_held : length (aq.items r) ≡ 0 = ap length empty in
      let ok' : ClassOk size (record c { queue = r; count = 0 }) = record {
        boundary = ok.boundary;
        counted = omega arith;
        bounded = omega arith;
        small = omega arith;
        serves = rw empty tt;
      } in
      (record c { queue = r; count = 0 }, rw run, ok', empty)
