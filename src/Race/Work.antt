-- ===== src/Race/Work.antt =====
-- How many accesses threads inside `push`, `pop` and `clear` of size_class.rs have left.
use zeropool.Base.{
  ℕ, zero, suc, ◌+◌, ◌<◌, ◌≡◌, refl, sym, ap, ◌∙◌, inl, inr, Option, none, some, arith, get_elem?,
  set, tally, tally-set, tally-get, length, List-cases,
}
use zeropool.Vec.{Vec}
use zeropool.ArrayQueue.{ArrayQueue}
use zeropool.SizeClass.{SizeClass, fetch_add, fetch_sub}
use zeropool.SizeClass.Laws.{held}
use zeropool.Race.{
  Pc, idle, pushed, popped, clearing, drained, Move, push_ok, push_full, add, pop_ok, pop_empty,
  sub, ClearMove, clear_enter, clear_pop, clear_end, clear_store, System,
}
use zeropool.Race.Counter.{Quiet, quiet-tally, pop-length}

-- The accesses that a call has left, but for the buffers to clear.
abbrev owes : Pc → ℕ
owes idle = 0
owes pushed = 1
owes popped = 1
owes clearing = 2
owes drained = 1

abbrev is_clearing : Pc → ℕ
is_clearing clearing = 1
is_clearing _ = 0

-- What the queue holds counts if a thread clears it.
abbrev to_clear : ℕ → ℕ → ℕ
to_clear zero n = 0
to_clear (suc k) n = n

to_clear-more : (k n : ℕ) → 0 < k → to_clear k n ≡ n
to_clear-more zero n h = absurd (omega arith)
to_clear-more (suc k) n h = refl

to_clear-none : (k : ℕ) → to_clear k 0 ≡ 0
to_clear-none zero = refl
to_clear-none (suc k) = refl

pop-none : (aq : ArrayQueue) (q : aq.Queue) → aq.pop q ≡ none → length (aq.items q) ≡ 0
pop-none aq q run = elim (List-cases (aq.items q)) [
  | inl empty ↦ ap length empty
  | inr (v, rest, front) ↦
      let (r, e, left, same) = aq.pop_front q v rest front in
      let never : ◌≡◌ {A = Option (Vec × aq.Queue)} none (some (v, r)) = sym run ∙ e in cc
]

module _ {aq : ArrayQueue} where
  -- The accesses that the running calls have left.
  abbrev pub work : System aq → ℕ
  work s = tally owes s.threads + to_clear (tally is_clearing s.threads) (length (held s.class))

  -- `Finish s n t`: from `s` to `t` by `n` accesses of calls that are running, and no new call.
  pub data Finish (s : System aq) : ℕ → System aq → Type 0 where
    rests : Finish s 0 s
    moves :
        {n : ℕ} {t : System aq} (i : ℕ) {p p' : Pc} {c : SizeClass aq}
        → Finish s n t
        → get_elem? t.threads i ≡ some p
        → (p ≡ idle → ⊥)
        → Move t.class p c p'
        → Finish s (suc n) (record { class = c; threads = set t.threads i p' })
    clears :
        {n : ℕ} {t : System aq} (i : ℕ) {p p' : Pc} {c : SizeClass aq}
        → Finish s n t
        → get_elem? t.threads i ≡ some p
        → (p ≡ idle → ⊥)
        → ClearMove t.class p c p'
        → Finish s (suc n) (record { class = c; threads = set t.threads i p' })

  -- The last access of a call, which does not touch the queue.
  settles :
      (s : System aq) (i : ℕ) (p : Pc) (c : SizeClass aq)
      → get_elem? s.threads i ≡ some p
      → owes p ≡ 1
      → is_clearing p ≡ 0
      → c.queue ≡ s.class.queue
      → work (record { class = c; threads = set s.threads i idle }) + 1 ≡ work s
  settles s i p c e last other same =
      let a = tally-set owes s.threads i p idle e in
      let b : tally is_clearing (set s.threads i idle) ≡ tally is_clearing s.threads =
        omega (arith, tally-set is_clearing s.threads i p idle e) in
      let d =
        ap (λ k. to_clear k (length (held c))) b
        ∙ ap (λ q. to_clear (tally is_clearing s.threads) (length (aq.items q))) same in
      omega arith

  Move-work :
      (s : System aq) (i : ℕ) {p p' : Pc} {c : SizeClass aq}
      → get_elem? s.threads i ≡ some p
      → (p ≡ idle → ⊥)
      → Move s.class p c p'
      → work (record { class = c; threads = set s.threads i p' }) + 1 ≡ work s
  Move-work s i e busy (push_ok buf q run) = absurd (busy refl)
  Move-work s i e busy (push_full buf run) = absurd (busy refl)
  Move-work s i e busy add =
      settles s i pushed (record s.class { count = fetch_add s.class.count }) e refl refl refl
  Move-work s i e busy (pop_ok buf q run) = absurd (busy refl)
  Move-work s i e busy (pop_empty run) = absurd (busy refl)
  Move-work s i e busy sub =
      settles s i popped (record s.class { count = fetch_sub s.class.count }) e refl refl refl

  ClearMove-work :
      (s : System aq) (i : ℕ) {p p' : Pc} {c : SizeClass aq}
      → get_elem? s.threads i ≡ some p
      → (p ≡ idle → ⊥)
      → ClearMove s.class p c p'
      → work (record { class = c; threads = set s.threads i p' }) + 1 ≡ work s
  ClearMove-work s i e busy clear_enter = absurd (busy refl)
  ClearMove-work s i e busy (clear_pop buf q run) =
      let a = tally-set owes s.threads i clearing clearing e in
      let b = tally-set is_clearing s.threads i clearing clearing e in
      let here = tally-get is_clearing s.threads i clearing e in
      let before =
        to_clear-more (tally is_clearing s.threads) (length (held s.class)) (omega arith) in
      let after =
        to_clear-more (tally is_clearing (set s.threads i clearing)) (length (aq.items q))
          (omega arith) in
      omega (arith, pop-length aq buf s.class.queue q run)
  ClearMove-work s i e busy (clear_end run) =
      let a = tally-set owes s.threads i clearing drained e in
      let empty = pop-none aq s.class.queue run in
      let before =
        ap (to_clear (tally is_clearing s.threads)) empty
        ∙ to_clear-none (tally is_clearing s.threads) in
      let k = tally is_clearing (set s.threads i drained) in
      let after = ap (to_clear k) empty ∙ to_clear-none k in omega arith
  ClearMove-work s i e busy clear_store =
      settles s i drained (record s.class { count = 0 }) e refl refl refl

  pub Finish-work : {s t : System aq} {n : ℕ} → Finish s n t → n + work t ≡ work s
  Finish-work rests = omega arith
  Finish-work (moves {t} i f e busy move) = omega (arith, Move-work t i e busy move, Finish-work f)
  Finish-work (clears {t} i f e busy move) =
      omega (arith, ClearMove-work t i e busy move, Finish-work f)

  pub Quiet-work : (s : System aq) → Quiet s → work s ≡ 0
  Quiet-work s quiet =
      let a = quiet-tally owes s.threads refl quiet in
      let b =
        ap (λ k. to_clear k (length (held s.class)))
          (quiet-tally is_clearing s.threads refl quiet) in
      omega arith
