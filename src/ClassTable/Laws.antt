-- ===== src/ClassTable/Laws.antt =====
-- The table against its invariant: the class at each index is the one for the boundary there.
use zeropool.Base.{
  ◌++◌, tally-append, ℕ, ◌^◌, ◌≤◌, ◌<◌, ◌≡◌, refl, ap, ◌⊎◌, ◌↔◌, inl, inr, true, List, [], ◌∷◌,
  none, some, arith, length, get_elem?, tally, Each, Each-get, Option-cases, List-cases,
}
use zeropool.ArrayQueue.{ArrayQueue}
use zeropool.SizeClass.{SizeClass}
use zeropool.SizeClass
use zeropool.SizeClass.Laws.{held, ClassOk, new-ClassOk}
use zeropool.SizeClass.Drain.{clear-ClassOk}
use zeropool.Route.{class_sizes, route_size}
use zeropool.Route.Bounds.{route_size-fits}
use zeropool.ClassTable.{
  ClassTable, build, new, route, sum_lens, total_buffered, every_empty, all_empty, clear_each,
  clear_all,
}
use zeropool.Vec.{Vec}

module _ {aq : ArrayQueue} where
  abbrev pub Classes : List ℕ → List (SizeClass aq) → Type 0
  Classes = Each ClassOk

  abbrev pub IsValid : ClassTable aq → Type 0
  IsValid t = Classes class_sizes t.classes

  -- The buffers of a table, weighted.
  abbrev pub stock : (Vec → ℕ) → ClassTable aq → ℕ
  stock w t = tally (λ c. tally w (held c)) t.classes

  abbrev pub buffered : List (SizeClass aq) → ℕ
  buffered = tally (λ c. length (held c))

  -- The buffers of a table, class after class.
  abbrev pub flatten : List (SizeClass aq) → List Vec
  flatten [] = []
  flatten (c ∷ cs) = held c ++ flatten cs

  abbrev pub contents : ClassTable aq → List Vec
  contents t = flatten t.classes

  pub tally-flatten :
      (w : Vec → ℕ) (cs : List (SizeClass aq))
      → tally w (flatten cs) ≡ tally (λ c. tally w (held c)) cs
  tally-flatten w [] = refl
  tally-flatten w (c ∷ cs) = omega (arith, tally-append w (held c) (flatten cs), tally-flatten w cs)

  -- Without buffers there is nothing to weigh.
  pub stock-buffered :
      (w : Vec → ℕ) (cs : List (SizeClass aq))
      → buffered cs ≡ 0
      → tally (λ c. tally w (held c)) cs ≡ 0
  stock-buffered w [] none_held = refl
  stock-buffered w (c ∷ cs) none_held =
      let rest = stock-buffered w cs (omega arith) in
      elim (List-cases (held c)) [
        | inl empty ↦ omega (arith, ap (tally w) empty)
        | inr (v, more, front) ↦ absurd (omega (arith, ap length front))
      ]

  build-Classes :
      (sizes : List ℕ) (n : ℕ)
      → 0 < n
      → n < 2 ^ 64
      → (cs : List (SizeClass aq)) × (build sizes n ≡ some cs)
        × Classes sizes cs
        × (buffered cs ≡ 0)
  unfolding build
  build-Classes [] n pos small = ([], refl, tt, refl)
  build-Classes (size ∷ sizes) n pos small =
      let (c, made, ok, empty, cap) = new-ClassOk {aq = aq} size n pos small in
      let (cs, built, all, none_held) = build-Classes sizes n pos small in
      let e : length (held c) ≡ 0 = ap length empty in
      (c ∷ cs, rw (made, built), (ok, all), omega arith)

  -- A table for a positive number of buffers per class is built without a panic, valid and empty.
  pub new-IsValid :
      (n : ℕ)
      → 0 < n
      → n < 2 ^ 64
      → (t : ClassTable aq) × (new n ≡ some t) × IsValid t × (buffered t.classes ≡ 0)
  unfolding new
  new-IsValid n pos small =
      let (cs, built, all, empty) = build-Classes class_sizes n pos small in
      (record { classes = cs }, rw built, all, empty)

  -- Routing on a table whose classes satisfy `P` for their boundaries never panics: it yields nothing
  -- exactly for the sizes above all boundaries, and else a class whose boundary holds the size.
  pub route-Each :
      (P : ℕ → SizeClass aq → Type 0) (t : ClassTable aq) (size : ℕ)
      → size < 2 ^ 64
      → Each P class_sizes t.classes
      → ((route_size size ≡ none) × (route t size ≡ some none))
        ⊎ ((i : ℕ) × (b : ℕ) × (c : SizeClass aq) × (route t size ≡ some (some (i, c)))
            × (route_size size ≡ some i)
            × (get_elem? class_sizes i ≡ some b)
            × (get_elem? t.classes i ≡ some c)
            × (size ≤ b)
            × P b c)
  unfolding route
  route-Each P t size small ok = elim (Option-cases (route_size size)) [
    | inl over ↦ inl (over, ground arith)
    | inr (i, routed) ↦
        let (b, at_b, fits) = route_size-fits size i small routed in
        let (c, at_c, good) = Each-get P i class_sizes t.classes b ok at_b in
        inr (i, b, c, ground arith, routed, at_b, at_c, fits, good)
  ]

  pub route-ClassOk :
      (t : ClassTable aq) (size : ℕ)
      → size < 2 ^ 64
      → IsValid t
      → ((route_size size ≡ none) × (route t size ≡ some none))
        ⊎ ((i : ℕ) × (b : ℕ) × (c : SizeClass aq) × (route t size ≡ some (some (i, c)))
            × (route_size size ≡ some i)
            × (get_elem? class_sizes i ≡ some b)
            × (get_elem? t.classes i ≡ some c)
            × (size ≤ b)
            × ClassOk b c)
  route-ClassOk = route-Each ClassOk

  sum_lens-exact :
      (sizes : List ℕ) (cs : List (SizeClass aq))
      → Classes sizes cs
      → buffered cs < 2 ^ 64
      → sum_lens cs ≡ some (buffered cs)
  unfolding sum_lens SizeClass.len
  sum_lens-exact [] [] all small = refl
  sum_lens-exact [] (c ∷ cs) all small = absurd all
  sum_lens-exact (size ∷ sizes) [] all small = absurd all
  sum_lens-exact (size ∷ sizes) (c ∷ cs) (ok, all) small =
      ground (arith, sum_lens-exact sizes cs all (omega arith), ok.counted)

  -- `total_buffered` is the number of buffers that the classes hold, and does not panic while that
  -- number fits a `usize`.
  pub total_buffered-exact :
      (t : ClassTable aq)
      → IsValid t
      → buffered t.classes < 2 ^ 64
      → total_buffered t ≡ some (buffered t.classes)
  unfolding total_buffered
  total_buffered-exact t ok small = sum_lens-exact class_sizes t.classes ok small

  every_empty_iff :
      (sizes : List ℕ) (cs : List (SizeClass aq))
      → Classes sizes cs
      → (every_empty cs ≡ true) ↔ (buffered cs ≡ 0)
  unfolding every_empty SizeClass.is_empty
  every_empty_iff [] [] all = (λ _. refl, λ _. refl)
  every_empty_iff [] (c ∷ cs) all = absurd all
  every_empty_iff (size ∷ sizes) [] all = absurd all
  every_empty_iff (size ∷ sizes) (c ∷ cs) (ok, all) =
      let n = ok.counted in ground (arith, every_empty_iff sizes cs all)

  -- `all_empty` holds exactly when no class holds a buffer.
  pub all_empty_iff :
      (t : ClassTable aq) → IsValid t → (all_empty t ≡ true) ↔ (buffered t.classes ≡ 0)
  unfolding all_empty
  all_empty_iff t ok = every_empty_iff class_sizes t.classes ok

  clear_each-Classes :
      (sizes : List ℕ) (cs : List (SizeClass aq))
      → Classes sizes cs
      → (ds : List (SizeClass aq)) × (clear_each cs ≡ some ds)
        × Classes sizes ds
        × (buffered ds ≡ 0)
  unfolding clear_each
  clear_each-Classes [] [] all = ([], refl, tt, refl)
  clear_each-Classes [] (c ∷ cs) all = absurd all
  clear_each-Classes (size ∷ sizes) [] all = absurd all
  clear_each-Classes (size ∷ sizes) (c ∷ cs) (ok, all) =
      let (d, cleared, ok', empty) = clear-ClassOk size c ok in
      let (ds, rest, all', none_held) = clear_each-Classes sizes cs all in
      let e : length (held d) ≡ 0 = ap length empty in
      (d ∷ ds, rw (cleared, rest), (ok', all'), omega arith)

  -- `clear_all` returns on every valid table, and leaves it valid and empty.
  pub clear_all-IsValid :
      (t : ClassTable aq)
      → IsValid t
      → (u : ClassTable aq) × (clear_all t ≡ some u) × IsValid u × (buffered u.classes ≡ 0)
  unfolding clear_all
  clear_all-IsValid t ok =
      let (ds, run, all, empty) = clear_each-Classes class_sizes t.classes ok in
      (record { classes = ds }, rw run, all, empty)
