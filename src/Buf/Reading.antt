-- ===== src/Buf/Reading.antt =====
-- What a client reads from a guard of buf.rs after it wrote.
use zeropool.Base.{
  ℕ, zero, suc, ◌+◌, ◌^◌, ◌<◌, ◌≡◌, refl, sym, ap, ap₂, ◌∙◌, subst, List, [], ◌∷◌, ◌++◌, map, some,
  arith, get_elem?, length,
}
use zeropool.Vec.{Heap, Vec, Cell, byte}
use zeropool.ArrayQueue.{ArrayQueue}
use zeropool.Buf.{Buf, new, write}
use zeropool.Buf.Lends.{slice, deref}
use zeropool.Buf.Content.{write_lem}
use zeropool.Buf.Return.{filled, filled_lem}
use zeropool.Pool.{World}
use zeropool.Pool.Valid.{IsValid}
use zeropool.Pool.Alloc.{alloc}
use zeropool.Pool.Alloc.Safety.{alloc-Allocated}

slice-ext : (f g : ℕ → Cell) (n : ℕ) → ((i : ℕ) → i < n → f i ≡ g i) → slice f n ≡ slice g n
slice-ext f g zero h = refl
slice-ext f g (suc n) h =
    ap₂ (λ x xs. x ∷ xs) (h 0 (omega arith))
      (slice-ext (λ i. f (suc i)) (λ i. g (suc i)) n (λ i lt. h (suc i) (omega arith)))

slice-append :
    (f g : ℕ → Cell) (m n k : ℕ)
    → k ≡ m + n
    → ((i : ℕ) → i < n → f (m + i) ≡ g i)
    → slice f k ≡ slice f m ++ slice g n
slice-append f g zero n k e h =
    let same : k ≡ n = omega arith in
    subst (λ x. slice f x ≡ slice g n) (sym same)
      (slice-ext f g n (λ i lt. let shift : i ≡ 0 + i = omega arith in ap f shift ∙ h i lt))
slice-append f g (suc m) n k e h =
    let same : k ≡ suc (m + n) = omega arith in
    subst (λ x. slice f x ≡ slice f (suc m) ++ slice g n) (sym same)
      (ap (λ cs. f 0 ∷ cs)
        (slice-append (λ i. f (suc i)) g m n (m + n) refl
          (λ i lt. let shift : suc (m + i) ≡ suc m + i = omega arith in ap f shift ∙ h i lt)))

length-slice : (f : ℕ → Cell) (n : ℕ) → length (slice f n) ≡ n
length-slice f zero = refl
length-slice f (suc n) = ap suc (length-slice (λ i. f (suc i)) n)

slice-list :
    (f : ℕ → Cell) (cells : List Cell)
    → ((i : ℕ) (c : Cell) → get_elem? cells i ≡ some c → f i ≡ c)
    → slice f (length cells) ≡ cells
slice-list f [] h = refl
slice-list f (c ∷ cells) h =
    ap₂ (λ x xs. x ∷ xs) (h 0 c refl) (slice-list (λ i. f (suc i)) cells (λ i d e. h (suc i) d e))

slice-bytes :
    (f : ℕ → Cell) (bytes : List ℕ)
    → ((i x : ℕ) → get_elem? bytes i ≡ some x → f i ≡ byte x)
    → slice f (length bytes) ≡ map byte bytes
slice-bytes f [] h = refl
slice-bytes f (x ∷ bytes) h =
    ap₂ (λ c cs. c ∷ cs) (h 0 x refl) (slice-bytes (λ i. f (suc i)) bytes (λ i y e. h (suc i) y e))

-- What is written through a guard is read back behind what could be read before.
pub write-deref :
    (heap : Heap) (place class_idx : ℕ) (v : Vec) (bytes : List ℕ) (read : List Cell)
    → deref (new v class_idx) ≡ some read
    → (u : Vec) × (write heap place (new v class_idx) bytes ≡ some (length bytes, new u class_idx))
      × (deref (new u class_idx) ≡ some (read ++ map byte bytes))
unfolding deref new
write-deref heap place class_idx v bytes read e =
    let (u, run, grown, cap, fits, old, fresh) = write_lem heap place class_idx v bytes in
    let before : slice v.cells v.len ≡ read = cc in
    let kept : slice u.cells v.len ≡ slice v.cells v.len = slice-ext u.cells v.cells v.len old in
    let added = slice-bytes (λ i. u.cells (v.len + i)) bytes fresh in
    let all =
      slice-append u.cells (λ i. u.cells (v.len + i)) v.len (length bytes) u.len grown
        (λ i lt. refl) in
    (u, run, ap some (all ∙ ap₂ (λ xs ys. xs ++ ys) (kept ∙ before) added))

module _ {aq : ArrayQueue} where
  -- A client that allocates on a valid pool reads zeros, as many as it asked for.
  pub alloc-deref :
      (size : ℕ) (w : World aq)
      → size < 2 ^ 63
      → IsValid w
      → (b : Buf) × (after : World aq) × (alloc size w ≡ some (b, after))
        × (deref b ≡ some (slice (λ i. byte 0) size))
  unfolding deref new
  alloc-deref size w small valid =
      let a = alloc-Allocated size w small valid in
      let z = a.good in
      (
        new a.buf a.class_idx,
        a.after,
        a.returns,
        ap some (
            ap (slice a.buf.cells) z.length_is
            ∙ slice-ext a.buf.cells (λ i. byte 0) size (λ i lt. z.zeros i lt)),
      )

  -- A client that fills a fresh guard on a valid pool from a slice of at most `isize::MAX` bytes
  -- reads that slice, and the pool is valid.
  pub filled-deref :
      (heap : Heap) (bytes : List ℕ) (w : World aq)
      → length bytes < 2 ^ 63
      → IsValid w
      → (b : Buf) × (after : World aq) × (filled heap (length bytes) bytes w ≡ some (b, after))
        × (deref b ≡ some (map byte bytes))
        × IsValid after
  unfolding deref new
  filled-deref heap bytes w small valid =
      let (u, class_idx, after, run, valid', length_is, fits, holds) =
        filled_lem heap bytes w small valid in
      (
        new u class_idx,
        after,
        run,
        ap some (ap (slice u.cells) length_is ∙ slice-bytes u.cells bytes holds),
        valid',
      )
