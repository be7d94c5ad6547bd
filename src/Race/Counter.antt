-- ===== src/Race/Counter.antt =====
-- The counter of a class and its queue while threads are in `push` and `pop` of size_class.rs.
use zeropool.Base.{
  ℕ, ◌+◌, ◌%◌, ◌^◌, ◌≤◌, ◌<◌, ◌≡◌, refl, sym, ap, ◌∙◌, inl, inr, false, List, [], ◌∷◌, Option, none,
  some, arith, get_elem?, set, tally, tally-set, length, length-append, List-cases, All,
}
use native.Mathlib.Decide.{dec_lt}
use zeropool.Vec.{Vec}
use zeropool.ArrayQueue.{ArrayQueue}
use zeropool.SizeClass.{SizeClass}
use zeropool.SizeClass.Laws.{held, room}
use zeropool.Race.{
  Pc, idle, pushed, popped, Move, push_ok, push_full, add, pop_ok, pop_empty, sub, System, Step,
  pick, pick_clear, Reach, here, next,
}

abbrev pub is_pushed : Pc → ℕ
is_pushed pushed = 1
is_pushed _ = 0

abbrev pub is_popped : Pc → ℕ
is_popped popped = 1
is_popped _ = 0

-- The counter lags by the calls that have changed the queue and not yet the counter.
pub record Lags {aq : ArrayQueue} (s : System aq) : Type 0 where
  pub small : s.class.count < 2 ^ 64
  pub bounded : length (held s.class) ≤ room s.class
  pub fits : room s.class < 2 ^ 64
  pub balance :
      (s.class.count + tally is_pushed s.threads) % 2 ^ 64
      ≡ (length (held s.class) + tally is_popped s.threads) % 2 ^ 64

module _ (aq : ArrayQueue) where
  push-length :
      (buf : Vec) (q r : aq.Queue)
      → aq.push buf q ≡ some r
      → (length (aq.items r) ≡ length (aq.items q) + 1)
        × (aq.capacity r ≡ aq.capacity q)
        × (length (aq.items q) < aq.capacity q)
  push-length buf q r e = elim (dec_lt (length (aq.items q)) (aq.capacity q)) [
    | yes free ↦
        let (r', e', now, same) = aq.push_room buf q free in
        let eq : ◌≡◌ {A = Option aq.Queue} (some r') (some r) = sym e' ∙ e in
        let eq' : r' ≡ r = cc in
        (
          ap (λ x. length (aq.items x)) (sym eq')
              ∙ ap length now
              ∙ length-append (aq.items q) (buf ∷ []),
          ap aq.capacity (sym eq') ∙ same,
          free,
        )
    | no full ↦
        let e' = aq.push_full buf q (omega arith) in
        let never : ◌≡◌ {A = Option aq.Queue} none (some r) = sym e' ∙ e in cc
  ]

  pub pop-length :
      (buf : Vec) (q r : aq.Queue)
      → aq.pop q ≡ some (buf, r)
      → (length (aq.items q) ≡ length (aq.items r) + 1) × (aq.capacity r ≡ aq.capacity q)
  pop-length buf q r e = elim (List-cases (aq.items q)) [
    | inl empty ↦
        let e' = aq.pop_empty q empty in
        let never : ◌≡◌ {A = Option (Vec × aq.Queue)} none (some (buf, r)) = sym e' ∙ e in cc
    | inr (v, rest, front) ↦
        let (r', e', left, same) = aq.pop_front q v rest front in
        let eq : ◌≡◌ {A = Option (Vec × aq.Queue)} (some (v, r')) (some (buf, r)) = sym e' ∙ e in
        let eq' : r' ≡ r = cc in
        let n : length (aq.items r) ≡ length rest =
          ap (λ x. length (aq.items x)) (sym eq') ∙ ap length left in
        (ap length front ∙ omega (arith, n), ap aq.capacity (sym eq') ∙ same)
  ]

pub quiet-tally : (w : Pc → ℕ) (ps : List Pc) → w idle ≡ 0 → All (λ p. p ≡ idle) ps → tally w ps ≡ 0
quiet-tally w [] z h = refl
quiet-tally w (p ∷ ps) z h = let e : w p ≡ 0 = ap w h.0 ∙ z in omega (arith, quiet-tally w ps z h.1)

module _ {aq : ArrayQueue} where
  Move-Lags :
      (s : System aq) (i : ℕ) {p p' : Pc} {c : SizeClass aq}
      → get_elem? s.threads i ≡ some p
      → Move s.class p c p'
      → Lags s
      → Lags (record { class = c; threads = set s.threads i p' })
  Move-Lags s i e (push_ok buf q run) l =
      let n = push-length aq buf s.class.queue q run in
      let a = tally-set is_pushed s.threads i idle pushed e in
      let b = tally-set is_popped s.threads i idle pushed e in
      record { small = l.small; bounded = omega arith; fits = omega arith; balance = omega arith }
  Move-Lags s i e (push_full buf run) l =
      let a = tally-set is_pushed s.threads i idle idle e in
      let b = tally-set is_popped s.threads i idle idle e in
      record { small = l.small; bounded = l.bounded; fits = l.fits; balance = omega arith }
  Move-Lags s i e add l =
      let a = tally-set is_pushed s.threads i pushed idle e in
      let b = tally-set is_popped s.threads i pushed idle e in
      record { small = omega arith; bounded = l.bounded; fits = l.fits; balance = omega arith }
  Move-Lags s i e (pop_ok buf q run) l =
      let n = pop-length aq buf s.class.queue q run in
      let a = tally-set is_pushed s.threads i idle popped e in
      let b = tally-set is_popped s.threads i idle popped e in
      record { small = l.small; bounded = omega arith; fits = omega arith; balance = omega arith }
  Move-Lags s i e (pop_empty run) l =
      let a = tally-set is_pushed s.threads i idle idle e in
      let b = tally-set is_popped s.threads i idle idle e in
      record { small = l.small; bounded = l.bounded; fits = l.fits; balance = omega arith }
  Move-Lags s i e sub l =
      let a = tally-set is_pushed s.threads i popped idle e in
      let b = tally-set is_popped s.threads i popped idle e in
      record { small = omega arith; bounded = l.bounded; fits = l.fits; balance = omega arith }

  Step-Lags : {s t : System aq} → Step false s t → Lags s → Lags t
  Step-Lags {s} (pick i e move) l = Move-Lags s i e move l
  Step-Lags (pick_clear i never e move) l = cc

  Reach-Lags : {s t : System aq} → Lags s → Reach false s t → Lags t
  Reach-Lags l here = l
  Reach-Lags l (next r step) = Step-Lags step (Reach-Lags l r)

  -- No call is running.
  abbrev pub Quiet : System aq → Type 0
  Quiet s = All (λ p. p ≡ idle) s.threads

  -- From a class with an exact counter, within a capacity below 2^64, and no call running: however
  -- the accesses of any number of threads in `push` and `pop` interleave, counter and pushes not
  -- yet counted equal queue length and pops not yet counted modulo 2^64, the class never holds more
  -- than its capacity, and whenever no call is running the counter is the number of buffers held.
  pub count-exact :
      {s t : System aq}
      → Quiet s
      → s.class.count ≡ length (held s.class)
      → length (held s.class) ≤ room s.class
      → room s.class < 2 ^ 64
      → Reach false s t
      → ((t.class.count + tally is_pushed t.threads) % 2 ^ 64
          ≡ (length (held t.class) + tally is_popped t.threads) % 2 ^ 64)
        × (length (held t.class) ≤ room t.class)
        × (Quiet t → t.class.count ≡ length (held t.class))
  count-exact {s} {t} quiet right bounded fits r =
      let a = quiet-tally is_pushed s.threads refl quiet in
      let b = quiet-tally is_popped s.threads refl quiet in
      let start : Lags s = record {
        small = omega arith;
        bounded = bounded;
        fits = fits;
        balance = omega arith;
      } in
      let l = Reach-Lags start r in
      let lb = l.balance in
      let small = l.small in
      let within = l.bounded in
      let fits' = l.fits in
      (
        l.balance,
        l.bounded,
        λ q.
            omega (
              arith,
              quiet-tally is_pushed t.threads refl q,
              quiet-tally is_popped t.threads refl q,
            ),
      )
