-- ===== src/Spec/Single.antt =====
-- Who holds an allocation in a specified pool.
use zeropool.Base.{
  ℕ, ◌+◌, ◌≤◌, ◌<◌, ◌≡◌, ◌∙◌, sym, ap, refl, List, [], ◌∷◌, arith, tally, tally-set, tally-remove,
  All, ltb, if◌then◌else◌, ◌==◌, ◌⊎◌, inl, inr, Bool-cases,
}
use zeropool.Vec.{Vec, clear}
use zeropool.Spec.{
  Bag, bag_of, Call, IsNew, Change, borrows, makes, alters, releases, returns, stocks, frees, rests,
}
use zeropool.Spec.Bags.{weigh, weigh-put, put_all, Turns, Store, Trace, still, changed}

weigh-put_all :
    (f : Vec → ℕ) (vs : List Vec) (b : Bag) → weigh f (put_all vs b) ≡ tally f vs + weigh f b
weigh-put_all f [] b = omega arith
weigh-put_all f (v ∷ vs) b = omega (arith, weigh-put f v (put_all vs b), weigh-put_all f vs b)

weigh-Turns :
    (f : Vec → ℕ) (before after : Bag) (out come : List Vec)
    → Turns before after out come
    → tally f out + weigh f after ≡ tally f come + weigh f before
weigh-Turns f before after out come e =
    sym (weigh-put_all f out after) ∙ ap (weigh f) e ∙ weigh-put_all f come before

-- 1 for the buffers in the allocation `p`.
abbrev at : ℕ → Vec → ℕ
at p v = if v.ptr == p then 1 else 0

-- 1 for an allocation that was made.
abbrev was_made : ℕ → ℕ → ℕ
was_made n p = if ltb p n then 1 else 0

elsewhere :
    (p n n' : ℕ) (vs : List Vec) → All (IsNew n n') vs → (p < n) ⊎ (n' ≤ p) → tally (at p) vs ≡ 0
elsewhere p n n' [] new out = refl
elsewhere p n n' (v ∷ vs) ((low, high), rest) out =
    let others = elsewhere p n n' vs rest out in
    elim out [ inl before ↦ ground arith | inr after ↦ ground arith ]

once_made :
    (p n n' : ℕ) (vs : List Vec)
    → n ≤ n'
    → All (IsNew n n') vs
    → tally (at p) vs ≤ 1
    → was_made n p + tally (at p) vs ≤ was_made n' p
once_made p n n' vs later new once = elim (Bool-cases (ltb p n)) [
  | inl before ↦ let out = elsewhere p n n' vs new (inl (ground arith)) in ground arith
  | inr since ↦ elim (Bool-cases (ltb p n')) [
    | inl now ↦ ground arith
    | inr after ↦ let out = elsewhere p n n' vs new (inr (ground arith)) in ground arith
  ]
]

abbrev guards_at : ℕ → List (Vec × ℕ) → ℕ
guards_at p live = tally (λ (g : Vec × ℕ). at p g.0) live

-- The allocation has at most one holder, and none before it was made.
abbrev Single : ℕ → Bag → ℕ → List (Vec × ℕ) → Type 0
Single p bag n live = weigh (at p) bag + guards_at p live ≤ was_made n p

Change-Single :
    (p : ℕ) {call : Call} (bag bag' : Bag) (n n' : ℕ) (live live' : List (Vec × ℕ))
    → Change (Turns bag bag') n live call n' live'
    → Single p bag n live
    → Single p bag' n' live'
unfolding clear
Change-Single p bag bag' n n' live live' (borrows raw v class_idx a e flow) h =
    let moved = weigh-Turns (at p) bag bag' (raw ∷ []) [] flow in ground arith
Change-Single p bag bag' n n' live live' (makes v class_idx a e flow) h =
    let moved = weigh-Turns (at p) bag bag' [] [] flow in ground arith
Change-Single p bag bag' n n' live live' (alters i v u class_idx m e later place flow) h =
    let moved = weigh-Turns (at p) bag bag' [] [] flow in
    let swapped = tally-set (λ (g : Vec × ℕ). at p g.0) live i (v, class_idx) (u, class_idx) e in
    elim place [ inl stays ↦ ground arith | inr (low, high) ↦ ground arith ]
Change-Single p bag bag' n n' live live' (releases i v class_idx e flow) h =
    let moved = weigh-Turns (at p) bag bag' [] [] flow in
    let gone = tally-remove (λ (g : Vec × ℕ). at p g.0) live i (v, class_idx) e in omega arith
Change-Single p bag bag' n n' live live' (returns i v class_idx dropped e few flow) h =
    let moved = weigh-Turns (at p) bag bag' dropped (clear v ∷ []) flow in
    let gone = tally-remove (λ (g : Vec × ℕ). at p g.0) live i (v, class_idx) e in omega arith
Change-Single p bag bag' n n' live live' (stocks m made later few new apart flow) h =
    let moved = weigh-Turns (at p) bag bag' [] made flow in
    omega (arith, once_made p n n' made later new (apart p))
Change-Single p bag bag' n n' live live' (frees dropped flow) h =
    let moved = weigh-Turns (at p) bag bag' dropped [] flow in omega arith
Change-Single p bag bag' n n' live live' (rests flow) h =
    let moved = weigh-Turns (at p) bag bag' [] [] flow in omega arith

run-Single :
    (p : ℕ) {s t : Store} {calls : List Call}
    → Trace s calls t
    → Single p s.bag s.next s.live
    → Single p t.bag t.next t.live
run-Single p still h = h
run-Single p (changed {t} {u} r change) h =
    Change-Single p t.bag u.bag t.next u.next t.live u.live change (run-Single p r h)

-- Whatever is asked of a specified pool that starts empty and without guards, an allocation is at no time
-- held twice: by the bag, by guards, or by the one and the other.
pub Trace-Single :
    (first : ℕ) (t : Store) (calls : List Call) (p : ℕ)
    → Trace (record { bag = bag_of []; next = first; live = [] }) calls t
    → weigh (at p) t.bag + guards_at p t.live ≤ 1
Trace-Single first t calls p r = let single = run-Single p r (omega arith) in ground arith
