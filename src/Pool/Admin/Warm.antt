-- ===== src/Pool/Admin/Warm.antt =====
-- `warm` of pool.rs on a valid pool.
use zeropool.Base.{
  ◌>>=◌, List, All, tally, tally-append, leb, ltb, ◌&&◌, ◌≤◌, if◌then◌else◌, min, if_either, ℕ,
  zero, suc, ◌+◌, ◌^◌, ◌<◌, ◌≡◌, refl, subst, sym, ap, ◌∙◌, ◌⊎◌, inl, inr, none, some, arith,
  get_elem?, get_elem?-set_self, length, length-append, [], ◌∷◌, ◌==◌,
}
use zeropool.Vec.{Vec}
use zeropool.ArrayQueue.{ArrayQueue}
use zeropool.SizeClass.{SizeClass}
use zeropool.SizeClass.Laws.{held, room, Serves, ClassOk, push-ClassOk}
use zeropool.ClassTable.Laws.{route-ClassOk}
use zeropool.Route.Bounds.{class_sizes_small}
use zeropool.Spec.{IsNew}
use zeropool.Route.{class_sizes, route_size}
use zeropool.Allocator.{Made}
use zeropool.Pool.{State, World, pin, allocate, put_class}
use zeropool.Pool.Alloc.Lent.{serial-pin}
use zeropool.Pool.Alloc.Take.{stock-put_class}
use zeropool.Pool.Valid.{at, pooled, pooled-pin, IsValid, pin-IsValid, put_class-IsValid}
use zeropool.Pool.Admin.{warm_loop, warm}

-- 1 for an allocation that was made while the serial number went from `first` to `last`.
abbrev pub new_at : ℕ → ℕ → ℕ → ℕ
new_at first last p = if leb first p && ltb p last then 1 else 0

IsNew-earlier :
    (first first' last : ℕ) (vs : List Vec)
    → first ≤ first'
    → All (IsNew first' last) vs
    → All (IsNew first last) vs
IsNew-earlier first first' last [] h all = tt
IsNew-earlier first first' last (v ∷ vs) h (here, all) =
    (omega arith, IsNew-earlier first first' last vs h all)

born :
    (buf : Vec) (first last p : ℕ)
    → buf.ptr ≡ first
    → suc first ≤ last
    → at p buf + new_at (suc first) last p ≡ new_at first last p
born buf first last p e h = ground arith

-- What the allocator makes for a class serves the class.
Made-Serves : (serial b : ℕ) (buf : Vec) → Made serial b buf → Serves b buf
Made-Serves serial b buf m =
    let long = m.long in
    let fits = m.room in
    record { large = omega arith; visible = fits; zeros = λ i lt h. m.zeros i h }

module _ {aq : ArrayQueue} where
  pin_same : (buf : Vec) (w : World aq) → ((pin buf w).state ≡ w.state) × ((pin buf w).tls ≡ w.tls)
  unfolding pin
  pin_same buf w =
      let same = λ (u : World aq). (u.state ≡ w.state) × (u.tls ≡ w.tls) in
      if_either same w.state.pinned_memory _ w
        (if_either same (buf.cap == 0) w _ (refl, refl) (refl, refl)) (refl, refl)

  -- The class that a warm-up of `count` buffers leaves at index `i`.
  pub record Warmed (i count : ℕ) (class : SizeClass aq) (w after : World aq) : Type 0 where
    pub valid : IsValid after
    pub warmed : SizeClass aq
    pub here : get_elem? after.state.table.classes i ≡ some warmed
    pub filled : length (held warmed) ≡ min (room class) (length (held class) + count)
    pub same_tls : after.tls ≡ w.tls
    pub later : w.serial ≤ after.serial
    pub made : List Vec
    pub gained : (weight : Vec → ℕ) → pooled weight after ≡ pooled weight w + tally weight made
    pub few : length made ≤ count
    pub all_new : All (IsNew w.serial after.serial) made
    pub stocked : (p : ℕ) → pooled (at p) after ≤ pooled (at p) w + new_at w.serial after.serial p

  warm_loop-Warmed :
      (count i b : ℕ) (class : SizeClass aq) (w : World aq)
      → IsValid w
      → get_elem? class_sizes i ≡ some b
      → get_elem? w.state.table.classes i ≡ some class
      → ClassOk b class
      → (after : World aq) × (warm_loop count i class w ≡ some after) × Warmed i count class w after
  unfolding warm_loop allocate put_class
  warm_loop-Warmed zero i b class w v at_i here ok =
      let fits = ok.bounded in
      (
        w,
        refl,
        record {
          valid = v;
          warmed = class;
          here = here;
          filled = omega arith;
          same_tls = refl;
          later = omega arith;
          made = [];
          gained = λ weight. omega arith;
          few = omega arith;
          all_new = tt;
          stocked = λ p. omega arith;
        },
      )
  warm_loop-Warmed (suc count) i b class w v at_i here ok =
      let n = ok.boundary in
      let (buf, ran) =
        v.contract.answers w.serial class.class_size (omega (arith, class_sizes_small i b at_i)) in
      let m = v.contract.makes w.serial class.class_size buf ran in
      let fits = ok.bounded in
      let u : World aq = record w { serial = suc w.serial } in
      let v' : IsValid u = record {
        contract = v.contract;
        table = v.table;
        cache_size = v.cache_size;
        cached = v.cached;
      } in
      let p = pin buf u in
      let pv = pin-IsValid buf u v' in
      let at_ptr : buf.ptr ≡ w.serial = m.place in
      let (same_state, same_tls) = pin_same buf u in
      let here' : get_elem? p.state.table.classes i ≡ some class =
        subst (λ (x : State aq). get_elem? x.table.classes i ≡ some class) (sym same_state) here in
      let good : Serves b buf = Made-Serves w.serial b buf (subst (λ c. Made w.serial c buf) n m) in
      elim (push-ClassOk b buf class ok good) [
        | inl (full, e) ↦ (
          p,
          rw (ran, warm_loop) (rw (e, ◌>>=◌)),
          record {
            valid = pv;
            warmed = class;
            here = here';
            filled = omega arith;
            same_tls = same_tls;
            later = omega (arith, serial-pin buf u);
            made = [];
            gained = λ weight. omega (arith, pooled-pin weight buf u);
            few = omega arith;
            all_new = tt;
            stocked = λ x. omega (arith, pooled-pin (at x) buf u);
          },
        )
        | inr (d, e, now, ok', free, same_room) ↦
            let q : World aq = record p { state = put_class i d p.state } in
            let (after, rest, r) =
              warm_loop-Warmed count i b d q (put_class-IsValid p i b d p.tls pv at_i ok' pv.cached)
                at_i (get_elem?-set_self p.state.table.classes i class d here') ok' in
            (
              after,
              rw (ran, warm_loop) (rw (e, ◌>>=◌) rest),
              record {
                valid = r.valid;
                warmed = r.warmed;
                here = r.here;
                filled = omega (
                  arith,
                  r.filled,
                  ap length now,
                  length-append (held class) (buf ∷ []),
                  same_room,
                );
                same_tls = r.same_tls ∙ same_tls;
                later = omega (arith, r.later, serial-pin buf u);
                made = buf ∷ r.made;
                gained = λ weight. omega (
                  arith,
                  r.gained weight,
                  pooled-pin weight buf u,
                  ap (tally weight) now,
                  tally-append weight (held class) (buf ∷ []),
                  stock-put_class weight p.state i class d here',
                );
                few = omega (arith, r.few);
                all_new = (
                  (omega arith, omega (arith, r.later, serial-pin buf u)),
                  IsNew-earlier w.serial p.serial after.serial r.made
                      (omega (arith, serial-pin buf u)) r.all_new,
                );
                stocked = λ x. omega (
                  arith,
                  r.stocked x,
                  pooled-pin (at x) buf u,
                  ap (tally (at x)) now,
                  tally-append (at x) (held class) (buf ∷ []),
                  stock-put_class (at x) p.state i class d here',
                  born buf w.serial after.serial x at_ptr
                      (omega (arith, r.later, serial-pin buf u)),
                  ap (λ s. new_at s after.serial x) (serial-pin buf u),
                );
              },
            )
      ]

  -- `warm` on a valid pool returns and keeps it valid: for a size above all boundaries it does
  -- nothing, else the class that serves the size gains the requested number of buffers as far as it
  -- has room, and the thread's caches stay.
  pub warm-Warmed :
      (count size : ℕ) (w : World aq)
      → size < 2 ^ 64
      → IsValid w
      → ((route_size size ≡ none) × (warm count size w ≡ some w))
        ⊎ ((i : ℕ) × (class : SizeClass aq) × (after : World aq) × (route_size size ≡ some i)
            × (get_elem? w.state.table.classes i ≡ some class)
            × (warm count size w ≡ some after)
            × Warmed i count class w after)
  unfolding warm
  warm-Warmed count size w small v = elim (route-ClassOk w.state.table size small v.table) [
    | inl (over, e) ↦ inl (over, rw (e, warm))
    | inr (i, b, class, e, routed, at_i, here, fits, ok) ↦
        let (after, run, r) = warm_loop-Warmed count i b class w v at_i here ok in
        inr (i, class, after, routed, here, rw (e, warm) run, r)
  ]
