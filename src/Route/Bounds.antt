-- ===== src/Route/Bounds.antt =====
-- What a caller of the routing functions may rely on.
use zeropool.Base.{
  ℕ, ◌^◌, ◌<◌, ◌≤◌, ◌≡◌, ◌∙◌, sym, subst, refl, arith, Bool-cases, Option-cases, inl, inr, some,
  get_elem?, All-get, List, [], ◌∷◌, ◌+◌, zero, suc, leb,
}
use zeropool.Route.{class_sizes, route_size, route_capacity}
use zeropool.Route.Exact.{scan_size, scan_capacity, route_size-eq-scan, route_capacity-eq-scan}

-- The index that a scan finds stands for a boundary that holds the size.
scan_size-fits :
    (size i k : ℕ) (bs : List ℕ)
    → scan_size size k bs ≡ some i
    → (d : ℕ) × (b : ℕ) × (i ≡ k + d) × (get_elem? bs d ≡ some b) × (size ≤ b)
unfolding scan_size
scan_size-fits size i k [] e = cc
scan_size-fits size i k (b ∷ bs) e = elim (Bool-cases (leb size b)) [
  | inl holds ↦ (0, b, ground arith, refl, ground arith)
  | inr over ↦
      let (d, c, at_d, found, fits) = scan_size-fits size i (k + 1) bs (ground arith) in
      (suc d, c, omega arith, found, fits)
]

-- A routed size fits its class, and the class index is in bounds.
pub route_size-fits :
    (size i : ℕ)
    → size < 2 ^ 64
    → route_size size ≡ some i
    → (b : ℕ) × (get_elem? class_sizes i ≡ some b) × (size ≤ b)
route_size-fits size i h e =
    let (d, b, at_d, found, fits) =
      scan_size-fits size i 0 class_sizes (sym (route_size-eq-scan size h) ∙ e) in
    let i_d : d ≡ i = omega arith in
    (b, subst (λ j. get_elem? class_sizes j ≡ some b) i_d found, fits)

scan_capacity-ge : (c k j : ℕ) (bs : List ℕ) → scan_capacity c k bs ≡ some j → k ≤ j
unfolding scan_capacity
scan_capacity-ge c k j [] e = cc
scan_capacity-ge c k j (b ∷ bs) e = ground (arith, scan_capacity-ge c (k + 1) j bs)

-- The scan gets at least as far as any boundary that the capacity reaches.
scan_capacity-reaches :
    (c k d b : ℕ) (bs : List ℕ)
    → get_elem? bs d ≡ some b
    → b ≤ c
    → (j : ℕ) × (scan_capacity c k bs ≡ some j) × (k + d ≤ j)
unfolding scan_capacity
scan_capacity-reaches c k d b [] e h = cc
scan_capacity-reaches c k zero b (x ∷ bs) e h = elim (Option-cases (scan_capacity c (k + 1) bs)) [
  | inl last ↦ (k, ground arith, omega arith)
  | inr (j, later) ↦ (j, ground arith, omega (arith, scan_capacity-ge c (k + 1) j bs later))
]
scan_capacity-reaches c k (suc d) b (x ∷ bs) e h =
    let (j, later, far) = scan_capacity-reaches c (k + 1) d b bs e h in
    (j, ground arith, omega arith)

-- A buffer whose capacity, below 2^64, reaches the boundary of the class that serves a size holds
-- that size, and is routed by its capacity to that class or a larger one.
pub route_capacity-route_size :
    (size capacity i b : ℕ)
    → size < 2 ^ 64
    → capacity < 2 ^ 64
    → route_size size ≡ some i
    → get_elem? class_sizes i ≡ some b
    → b ≤ capacity
    → (size ≤ capacity) × ((j : ℕ) × (route_capacity capacity ≡ some j) × (i ≤ j))
route_capacity-route_size size capacity i b small cap_small e at_i reached =
    let (c, at_c, fits) = route_size-fits size i small e in
    let same : c ≡ b = cc in
    let (j, found, far) = scan_capacity-reaches capacity 0 i b class_sizes at_i reached in
    (omega arith, (j, route_capacity-eq-scan capacity cap_small ∙ found, omega arith))

-- A class's boundary is a capacity that a vector can have.
pub class_sizes_small : (i b : ℕ) → get_elem? class_sizes i ≡ some b → b < 2 ^ 63
class_sizes_small i b e =
    All-get (λ n. n < 2 ^ 63) class_sizes i b
      (
        omega arith,
        (
          omega arith,
          (
            omega arith,
            (omega arith, (omega arith, (omega arith, (omega arith, (omega arith, tt))))),
          ),
        ),
      )
      e
