-- ===== src/Race/Finish.antt =====
-- How threads inside `push`, `pop` and `clear` of size_class.rs get out again.
use zeropool.Base.{
  ℕ, zero, suc, ◌+◌, ◌≤◌, ◌<◌, ◌≡◌, refl, subst, ◌⊎◌, inl, inr, List, [], ◌∷◌, some, arith,
  get_elem?, All, Option-cases,
}
use zeropool.ArrayQueue.{ArrayQueue}
use zeropool.Race.{
  Pc, idle, pushed, popped, clearing, drained, add, sub, clear_pop, clear_end, clear_store, System,
}
use zeropool.Race.Counter.{Quiet}
use zeropool.Race.Work.{work, Finish, rests, moves, clears, Finish-work, Quiet-work}

idle_or_busy : (p : Pc) → (p ≡ idle) ⊎ (p ≡ idle → ⊥)
idle_or_busy idle = inl refl
idle_or_busy pushed = inr (λ e. cc)
idle_or_busy popped = inr (λ e. cc)
idle_or_busy clearing = inr (λ e. cc)
idle_or_busy drained = inr (λ e. cc)

busy_one :
    (ps : List Pc)
    → All (λ p. p ≡ idle) ps ⊎ ((i : ℕ) × (p : Pc) × (get_elem? ps i ≡ some p) × (p ≡ idle → ⊥))
busy_one [] = inl tt
busy_one (p ∷ ps) = elim (busy_one ps) [
  | inl quiet ↦ elim (idle_or_busy p) [ inl e ↦ inl (e, quiet) | inr busy ↦ inr (0, p, refl, busy) ]
  | inr (i, q, e, busy) ↦ inr (suc i, q, e, busy)
]

module _ {aq : ArrayQueue} where
  -- A running call has a next access.
  next_access :
      {s t : System aq} {n : ℕ} (i : ℕ) (p : Pc)
      → Finish s n t
      → get_elem? t.threads i ≡ some p
      → (p ≡ idle → ⊥)
      → (u : System aq) × Finish s (suc n) u
  next_access i idle f e busy = absurd (busy refl)
  next_access i pushed f e busy = (_, moves i f e busy add)
  next_access i popped f e busy = (_, moves i f e busy sub)
  next_access {t} i clearing f e busy = elim (Option-cases (aq.pop t.class.queue)) [
    | inl run ↦ (_, clears i f e busy (clear_end run))
    | inr ((buf, q), run) ↦ (_, clears i f e busy (clear_pop buf q run))
  ]
  next_access i drained f e busy = (_, clears i f e busy clear_store)

  Quiet-or-next :
      {s t : System aq} {n : ℕ} → Finish s n t → Quiet t ⊎ ((u : System aq) × Finish s (suc n) u)
  Quiet-or-next {t} f = elim (busy_one t.threads) [
    | inl quiet ↦ inl quiet
    | inr (i, p, e, busy) ↦ inr (next_access i p f e busy)
  ]

  Finish-Quiet : {s t : System aq} {n : ℕ} → Finish s n t → n ≡ work s → Quiet t
  Finish-Quiet f all = elim (Quiet-or-next f) [
    | inl quiet ↦ quiet
    | inr (u, g) ↦ absurd (omega (arith, Finish-work g))
  ]

  Finish-next :
      {s t : System aq} {n : ℕ} → Finish s n t → n < work s → (u : System aq) × Finish s (suc n) u
  Finish-next {t} f some_left = elim (Quiet-or-next f) [
    | inl quiet ↦ absurd (omega (arith, Finish-work f, Quiet-work t quiet))
    | inr more ↦ more
  ]

  runs_out :
      {s : System aq} (fuel : ℕ) {n : ℕ} {t : System aq}
      → Finish s n t
      → n + fuel ≡ work s
      → (u : System aq) × Finish s (work s) u × Quiet u
  runs_out {s} zero {n} {t} f e =
      let all : n ≡ work s = omega arith in (t, subst (λ k. Finish s k t) all f, Finish-Quiet f all)
  runs_out (suc fuel) f e =
      let (u, g) = Finish-next f (omega arith) in runs_out fuel g (omega arith)

  -- From every state of a class and of the threads in its `push`, `pop` and `clear`, if no new call
  -- begins: the running calls have together `work` accesses left, in whatever order threads take
  -- them; after these no call is running, before that some call has a next access, and such a run
  -- exists.
  pub finishes :
      (s : System aq)
      → ((t : System aq) × Finish s (work s) t × Quiet t)
        × ((n : ℕ) (t : System aq)
            → Finish s n t
            → (n ≤ work s)
              × (n ≡ work s → Quiet t)
              × (n < work s → (u : System aq) × Finish s (suc n) u))
  finishes s = (
    runs_out (work s) rests (omega arith),
    λ n t f. (omega (arith, Finish-work f), Finish-Quiet f, Finish-next f),
  )
