-- ===== src/SizeClass/Laws.antt =====
-- The operations of a class against the list of buffers that it holds, and its invariant.
use zeropool.Base.{
  ℕ, suc, ◌+◌, ◌^◌, ◌≤◌, ◌<◌, ◌≡◌, refl, ◌⊎◌, inl, inr, List, [], ◌∷◌, ◌++◌, none, some, arith,
  length, All, List-cases, All-append, length-append, ◌∙◌, ap, sym, subst,
}
use native.Mathlib.Decide.{dec_lt}
use zeropool.Vec.{Vec, byte}
use zeropool.ArrayQueue.{ArrayQueue}
use zeropool.SizeClass.{SizeClass, new, pop, push, fetch_add, fetch_sub}

-- A buffer that can serve requests up to `size` bytes: large enough, and what is visible of the
-- first `size` bytes is zero.
pub record Serves (size : ℕ) (v : Vec) : Type 0 where
  pub large : size ≤ v.cap
  pub visible : v.len ≤ v.cap
  pub zeros : (i : ℕ) → i < v.len → i < size → v.cells i ≡ byte 0

module _ {aq : ArrayQueue} where
  abbrev pub held : SizeClass aq → List Vec
  held c = aq.items c.queue

  abbrev pub room : SizeClass aq → ℕ
  room c = aq.capacity c.queue

  -- Between operations: the counter is exact, the queue is within its bound, and every buffer serves
  -- the class.
  pub record ClassOk (size : ℕ) (c : SizeClass aq) : Type 0 where
    pub boundary : c.class_size ≡ size
    pub counted : c.count ≡ length (held c)
    pub bounded : length (held c) ≤ room c
    pub small : room c < 2 ^ 64
    pub serves : All (Serves size) (held c)

  -- `pop` takes the oldest buffer, and fails on the empty class only.
  pub pop-cases :
      (c : SizeClass aq)
      → ((held c ≡ []) × (pop c ≡ none))
        ⊎ ((v : Vec) × (d : SizeClass aq) × (held c ≡ v ∷ held d)
            × (pop c ≡ some (v, d))
            × (d.class_size ≡ c.class_size)
            × (d.count ≡ fetch_sub c.count)
            × (room d ≡ room c))
  unfolding pop
  pop-cases c = elim (List-cases (held c)) [
    | inl empty ↦ inl (empty, rw (aq.pop_empty c.queue empty, pop))
    | inr (v, rest, front) ↦
        let (q, popped, left, same) = aq.pop_front c.queue v rest front in
        inr (
          v,
          record c { queue = q; count = fetch_sub c.count },
          rw left front,
          rw (popped, pop),
          refl,
          refl,
          same,
        )
  ]

  -- `push` appends where there is room, and otherwise changes nothing.
  pub push-cases :
      (v : Vec) (c : SizeClass aq)
      → ((room c ≤ length (held c)) × (push v c ≡ none))
        ⊎ ((d : SizeClass aq) × (length (held c) < room c)
            × (push v c ≡ some d)
            × (held d ≡ held c ++ v ∷ [])
            × (d.class_size ≡ c.class_size)
            × (d.count ≡ fetch_add c.count)
            × (room d ≡ room c))
  unfolding push
  push-cases v c = elim (dec_lt (length (held c)) (room c)) [
    | no full ↦ inl (omega arith, rw (aq.push_full v c.queue (omega arith), push))
    | yes free ↦
        let (q, pushed, now, same) = aq.push_room v c.queue free in
        inr (
          record c { queue = q; count = fetch_add c.count },
          free,
          rw (pushed, push),
          now,
          refl,
          refl,
          same,
        )
  ]

  -- On a valid class `pop` keeps the class valid and yields a buffer that serves it.
  pub pop-ClassOk :
      (size : ℕ) (c : SizeClass aq)
      → ClassOk size c
      → ((held c ≡ []) × (pop c ≡ none))
        ⊎ ((v : Vec) × (d : SizeClass aq) × (pop c ≡ some (v, d))
            × (held c ≡ v ∷ held d)
            × Serves size v
            × ClassOk size d)
  pop-ClassOk size c ok = elim (pop-cases c) [
    | inl empty ↦ inl empty
    | inr (v, d, front, e, same_size, less, same_room) ↦
        let all : All (Serves size) (v ∷ held d) = subst (All (Serves size)) front ok.serves in
        let one : length (held c) ≡ suc (length (held d)) = ap length front in
        let b = ok.bounded in
        let s = ok.small in
        let n = ok.counted in
        let ok' : ClassOk size d = record {
          boundary = same_size ∙ ok.boundary;
          counted = omega arith;
          bounded = omega arith;
          small = omega arith;
          serves = all.1;
        } in
        inr (v, d, e, front, all.0, ok')
  ]

  -- On a valid class `push` of a buffer that serves it keeps the class valid.
  pub push-ClassOk :
      (size : ℕ) (v : Vec) (c : SizeClass aq)
      → ClassOk size c
      → Serves size v
      → ((room c ≤ length (held c)) × (push v c ≡ none))
        ⊎ ((d : SizeClass aq) × (push v c ≡ some d)
            × (held d ≡ held c ++ v ∷ [])
            × ClassOk size d
            × (length (held c) < room c)
            × (room d ≡ room c))
  push-ClassOk size v c ok good = elim (push-cases v c) [
    | inl full ↦ inl full
    | inr (d, free, e, now, same_size, more, same_room) ↦
        let one : length (held d) ≡ length (held c) + 1 =
          ap length now ∙ length-append (held c) (v ∷ []) in
        let s = ok.small in
        let n = ok.counted in
        let ok' : ClassOk size d = record {
          boundary = same_size ∙ ok.boundary;
          counted = omega arith;
          bounded = omega arith;
          small = omega arith;
          serves =
              subst (All (Serves size)) (sym now)
                (All-append (Serves size) (held c) (v ∷ []) ok.serves (good, tt));
        } in
        inr (d, e, now, ok', free, same_room)
  ]

  -- A new class of a positive capacity is valid and empty; a capacity of 0 is a panic.
  pub new-ClassOk :
      (size n : ℕ)
      → 0 < n
      → n < 2 ^ 64
      → (c : SizeClass aq) × (new size n ≡ some c) × ClassOk size c × (held c ≡ []) × (room c ≡ n)
  unfolding new
  new-ClassOk size n pos small =
      let (q, made, empty, cap) = aq.new_pos n pos in
      let none_held : length (aq.items q) ≡ 0 = ap length empty in
      let ok' : ClassOk size (record { queue = q; class_size = size; count = 0 }) = record {
        boundary = refl;
        counted = omega arith;
        bounded = omega arith;
        small = omega arith;
        serves = rw empty tt;
      } in
      (record { queue = q; class_size = size; count = 0 }, rw made, ok', empty, cap)
