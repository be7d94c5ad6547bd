-- ===== src/Access/Triple/Alloc.antt =====
-- `alloc` and `alloc_uninit` of pool.rs while other threads run.
use zeropool.Base.{
  ℕ, ◌^◌, ◌≤◌, ◌<◌, ◌≡◌, refl, ap, inl, inr, Bool, Option, none, some, arith, get_elem?,
  if◌then◌else◌, ◌==◌, eq→==,
}
use zeropool.Vec.{Vec, byte, truncate, set_len}
use zeropool.ArrayQueue.{ArrayQueue}
use zeropool.SizeClass.{SizeClass, resize_uninit}
use zeropool.SizeClass.Resize.{Zeroed, resize_zeroed-Zeroed}
use zeropool.ClassTable.Laws.{route-Each}
use zeropool.Route.{class_sizes}
use zeropool.Route.Bounds.{class_sizes_small}
use zeropool.Stats.{get, allocation, oversized}
use zeropool.Tls.{TlsState}
use zeropool.Pool.{State}
use zeropool.Pool.Valid.{own, at}
use zeropool.Pool.Alloc.Uninit.{Sized}
use zeropool.Pool.Alloc.Lent.{Home, index_survives_cast}
use zeropool.Access.{Code, result, call_allocator, call_vec, ◌>>=◌}
use zeropool.Access.Calls.{
  take_pooled_code, alloc_found_code, alloc_code, alloc_uninit_found_code, alloc_uninit_code,
}
use zeropool.Access.Triple.{Share, plus, Fresh, Secures, Secures-then}
use zeropool.Access.Triple.Moves.{Keeping, locally-Secures}
use zeropool.Access.Triple.Pool.{
  Steady, Entered, Handed, note-Secures, hit-Secures, pin-Secures, Drawn, take_pooled-Secures,
}

-- A fresh buffer, cut to size.
Fresh-Zeroed :
    (n size : ℕ) (v : Vec)
    → Fresh n v
    → size ≤ n
    → Zeroed size (truncate v size)
      × ((truncate v size).cap ≡ v.cap)
      × ((truncate v size).ptr ≡ v.ptr)
unfolding truncate
Fresh-Zeroed n size v f h =
    let long = f.long in
    let room = f.room in
    let z : (i : ℕ) → i < size → (truncate v size).cells i ≡ byte 0 =
      λ i lt. ground (arith, f.zeros i) in
    (
      record { length_is = ground arith; fits = ground arith; zeros = z },
      ground arith,
      ground arith,
    )

at-place : (p : ℕ) (u v : Vec) → u.ptr ≡ v.ptr → at p u ≡ at p v
at-place p u v same = ap (λ n. if n == p then 1 else 0) same

pub Keeping-Entered :
    (id : ℕ) (besides share : Share) (tls : TlsState)
    → Keeping id besides tls share
    → Entered id besides tls share
Keeping-Entered id besides share tls (bound, covers) = (
  own bound.ours bound.caches bound.limit,
  λ p. let e = eq→== tls.pool_id id bound.ours in ground (arith, covers p, e),
)

pub call_allocator-Secures :
    {B : Type 0} (Q : B → Share → Type 0) (n : ℕ) (f : Vec → Code B) (share : Share)
    → n < 2 ^ 63
    → ((v : Vec) → Fresh n v → Secures Q (f v) (plus share v))
    → Secures Q (call_allocator n result >>= f) share
unfolding ◌>>=◌
call_allocator-Secures Q n f share small h = (small, h)

call_vec-Secures :
    {B : Type 0} (Q : B → Share → Type 0) (n : ℕ) (f : Vec → Code B) (share : Share)
    → n < 2 ^ 63
    → ((v : Vec) → n ≤ v.cap → Secures Q (f v) (plus share v))
    → Secures Q (call_vec n result >>= f) share
unfolding ◌>>=◌
call_vec-Secures Q n f share small h = (small, h)

-- A large enough buffer with its length set.
resized :
    (size : ℕ) (v : Vec)
    → size ≤ v.cap
    → (u : Vec) × (resize_uninit v size ≡ some u)
      × (u.len ≡ size)
      × (u.cap ≡ v.cap)
      × (u.ptr ≡ v.ptr)
unfolding resize_uninit set_len
resized size v h = (set_len v size, ground arith, refl, refl, refl)

module _ {aq : ArrayQueue} (s : State aq) (steady : Steady s) where
  -- A buffer from the allocator, as the guard holds it.
  hands_new :
      (Good : Vec → Type 0) (u v : Vec) (class_idx : ℕ) (tls : TlsState) (share : Share)
      → u.ptr ≡ v.ptr
      → Good u
      → Home class_idx u
      → Entered s.id (λ p. 0) tls share
      → Handed Good s.id ((u, class_idx), tls) (plus share v)
  hands_new Good u v class_idx tls share same good home (cached, covers) =
      (good, home, (cached, λ p. omega (arith, covers p, at-place p u v same)))

  -- A buffer of the pool.
  hands_on :
      (Good : Vec → Type 0) (u v : Vec) (class_idx : ℕ) (tls : TlsState) (share : Share)
      → u.ptr ≡ v.ptr
      → Good u
      → Home class_idx u
      → Keeping s.id (λ p. at p v) tls share
      → Handed Good s.id ((u, class_idx), tls) share
  hands_on Good u v class_idx tls share same good home kept =
      let (cached, covers) = Keeping-Entered s.id (λ p. at p v) share tls kept in
      (good, home, (cached, λ p. omega (arith, covers p, at-place p u v same)))

  alloc_found-Secures :
      (size i b : ℕ) (class : SizeClass aq) (at_i : get_elem? class_sizes i ≡ some b)
      → size ≤ b
      → class.class_size ≡ b
      → (out : Option (Vec × Bool)) (tls : TlsState) (share : Share)
      → Drawn s b i at_i steady (out, tls) share
      → Secures (Handed (Zeroed size) s.id) (alloc_found_code s size i class out tls) share
  unfolding alloc_found_code
  alloc_found-Secures size i b class at_i fits bound none tls share kept =
      let Q = Handed (Zeroed size) s.id in
      note-Secures s Q allocation _ share (
        call_allocator-Secures Q class.class_size _ share
          (omega (arith, class_sizes_small i b at_i))
          (λ v fresh.
            let (good, same_cap, same_ptr) =
              Fresh-Zeroed class.class_size size v fresh (omega arith) in
            let room = fresh.room in
            let long = fresh.long in
            let home = index_survives_cast i b (truncate v size) at_i (omega arith) in
            pin-Secures s Q _ _ (plus share v) (
              hands_new (Zeroed size) _ v _ tls share same_ptr good home
                (Keeping-Entered s.id (λ p. 0) share tls kept))))
  alloc_found-Secures size i b class at_i fits bound (some (v, from_tls)) tls share (serves, kept) =
      let Q = Handed (Zeroed size) s.id in
      let (u, run, good, same_cap, same_ptr) = resize_zeroed-Zeroed b size v serves fits in
      let large = serves.large in
      let home = index_survives_cast i b u at_i (omega arith) in
      hit-Secures s Q from_tls _ share (
        locally-Secures Q _ _ u share run
          (hands_on (Zeroed size) u v _ tls share same_ptr good home kept))

  pub alloc-Secures :
      (size : ℕ) (tls : TlsState) (share : Share)
      → size < 2 ^ 63
      → Entered s.id (λ p. 0) tls share
      → Secures (Handed (Zeroed size) s.id) (alloc_code s size tls) share
  unfolding alloc_code
  alloc-Secures size tls share small h =
      let Q = Handed (Zeroed size) s.id in
      note-Secures s Q get _ share
        (elim (route-Each (λ b (c : SizeClass aq). c.class_size ≡ b) s.table size (omega arith)
          steady.boundaries) [
            | inl (over, e) ↦ locally-Secures Q _ _ none share e (
                note-Secures s Q oversized _ share (
                  note-Secures s Q allocation _ share (
                    call_allocator-Secures Q size _ share small (λ v fresh.
                      let (good, same_cap, same_ptr) =
                        Fresh-Zeroed size size v fresh (omega arith) in
                      pin-Secures s Q _ _ (plus share v)
                        (hands_new (Zeroed size) _ v 255 tls share same_ptr good (inl refl) h)))))
            | inr (i, b, class, e, routed, at_i, here, fits, bound) ↦
                locally-Secures Q _ _ (some (i, class)) share e (
                  Secures-then (Drawn s b i at_i steady) Q (take_pooled_code s i tls) _ share
                    (take_pooled-Secures s b i at_i steady tls share h)
                    (λ r rest found.
                      alloc_found-Secures size i b class at_i fits bound r.0 r.1 rest found))
          ])

  alloc_uninit_found-Secures :
      (size i b : ℕ) (class : SizeClass aq) (at_i : get_elem? class_sizes i ≡ some b)
      → size ≤ b
      → class.class_size ≡ b
      → (out : Option (Vec × Bool)) (tls : TlsState) (share : Share)
      → Drawn s b i at_i steady (out, tls) share
      → Secures (Handed (Sized size) s.id) (alloc_uninit_found_code s size i class out tls) share
  unfolding alloc_uninit_found_code
  alloc_uninit_found-Secures size i b class at_i fits bound none tls share kept =
      let Q = Handed (Sized size) s.id in
      note-Secures s Q allocation _ share (
        call_vec-Secures Q class.class_size _ share (omega (arith, class_sizes_small i b at_i))
          (λ v large.
            let (u, run, len_is, same_cap, same_ptr) = resized size v (omega arith) in
            let home = index_survives_cast i b u at_i (omega arith) in
            locally-Secures Q _ _ u (plus share v) run (
              pin-Secures s Q _ _ (plus share v) (
                hands_new (Sized size) u v _ tls share same_ptr (len_is, omega arith) home
                  (Keeping-Entered s.id (λ p. 0) share tls kept)))))
  alloc_uninit_found-Secures size i b class at_i fits bound (some (v, from_tls)) tls share
        (serves, kept) =
      let Q = Handed (Sized size) s.id in
      let large = serves.large in
      let (u, run, len_is, same_cap, same_ptr) = resized size v (omega arith) in
      let home = index_survives_cast i b u at_i (omega arith) in
      hit-Secures s Q from_tls _ share (
        locally-Secures Q _ _ u share run
          (hands_on (Sized size) u v _ tls share same_ptr (len_is, omega arith) home kept))

  pub alloc_uninit-Secures :
      (size : ℕ) (tls : TlsState) (share : Share)
      → size < 2 ^ 63
      → Entered s.id (λ p. 0) tls share
      → Secures (Handed (Sized size) s.id) (alloc_uninit_code s size tls) share
  unfolding alloc_uninit_code
  alloc_uninit-Secures size tls share small h =
      let Q = Handed (Sized size) s.id in
      note-Secures s Q get _ share
        (elim (route-Each (λ b (c : SizeClass aq). c.class_size ≡ b) s.table size (omega arith)
          steady.boundaries) [
            | inl (over, e) ↦ locally-Secures Q _ _ none share e (
                note-Secures s Q oversized _ share (
                  note-Secures s Q allocation _ share (
                    call_vec-Secures Q size _ share small (λ v large.
                      let (u, run, len_is, same_cap, same_ptr) = resized size v large in
                      locally-Secures Q _ _ u (plus share v) run (
                        pin-Secures s Q _ _ (plus share v) (
                          hands_new (Sized size) u v 255 tls share same_ptr (len_is, omega arith)
                            (inl refl) h))))))
            | inr (i, b, class, e, routed, at_i, here, fits, bound) ↦
                locally-Secures Q _ _ (some (i, class)) share e (
                  Secures-then (Drawn s b i at_i steady) Q (take_pooled_code s i tls) _ share
                    (take_pooled-Secures s b i at_i steady tls share h)
                    (λ r rest found.
                      alloc_uninit_found-Secures size i b class at_i fits bound r.0 r.1 rest found))
          ])
