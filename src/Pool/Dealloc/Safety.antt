-- ===== src/Pool/Dealloc/Safety.antt =====
-- `dealloc` of a buffer that a guard holds: what becomes of it, and what the pool keeps.
use zeropool.Base.{
  ℕ, ◌+◌, ◌<◌, ◌≤◌, ◌≡◌, refl, ◌∙◌, sym, subst, ◌⊎◌, inl, inr, Option, some, arith, List, [], ◌∷◌,
  tally, ltb, ◌==◌, Bool-cases, length, ==→eq, eq→==, if_either,
}
use zeropool.Vec.{Vec, clear}
use zeropool.ArrayQueue.{ArrayQueue}
use zeropool.SizeClass.Laws.{Serves}
use zeropool.ClassTable
use zeropool.Stats.{put, discard}
use zeropool.Stats
use zeropool.Pool.{World, note, pin}
use zeropool.Pool.Valid.{IsValid, pooled, note-IsValid, pooled-note, pin-IsValid, pooled-pin}
use zeropool.Pool.Alloc.Lent.{Home, serial-note, serial-pin}
use zeropool.Pool.Dealloc.{pick_class, dealloc}
use zeropool.Pool.Dealloc.Overflow.{IsFull}
use zeropool.Pool.Dealloc.Keep.{keep-Kept}

-- A cleared buffer exposes nothing, so it serves every class that it is large enough for.
pub clear-Serves : (size : ℕ) (buf : Vec) → size ≤ buf.cap → Serves size (clear buf)
unfolding clear
clear-Serves size buf h = record {
  large = h;
  visible = omega arith;
  zeros = λ i lt. absurd (omega arith);
}

module _ {aq : ArrayQueue} where
  -- Why buffers were dropped: the guard's buffer is oversize or below the minimum, or the class it
  -- goes to is full.
  abbrev pub Reason : Vec → ℕ → World aq → World aq → Type 0
  Reason buf class_hint before after =
      (class_hint ≡ 255) ⊎ ((buf.cap < before.state.min_buffer_size) ⊎ IsFull class_hint after)

  pub record Returned (buf : Vec) (class_hint : ℕ) (w : World aq) (result : Option (World aq))
      : Type 0 where
    pub after : World aq
    pub dropped : List Vec
    pub returns : result ≡ some after
    pub valid : IsValid after
    pub conserved :
        (weight : Vec → ℕ)
        → pooled weight after + tally weight dropped ≡ pooled weight w + weight (clear buf)
    pub few : length dropped ≤ 2
    pub reason : (dropped ≡ []) ⊎ Reason buf class_hint w after
    pub same_serial : after.serial ≡ w.serial

  min-note :
      (e : Stats.Event) (w : World aq) → (note e w).state.min_buffer_size ≡ w.state.min_buffer_size
  unfolding note
  min-note e w =
      if_either (λ (u : World aq). u.state.min_buffer_size ≡ w.state.min_buffer_size)
        w.state.track_stats _ w refl refl

  module _ (buf : Vec) (class_hint : ℕ) (w : World aq) (v : IsValid w) where
    noted : IsValid (note put w)
    noted = note-IsValid put w v

    discarded :
        Reason buf class_hint w (note discard (note put w))
        → dealloc buf class_hint w ≡ some (note discard (note put w))
        → Returned buf class_hint w (dealloc buf class_hint w)
    discarded why run = record {
      after = note discard (note put w);
      dropped = clear buf ∷ [];
      returns = run;
      valid = note-IsValid discard (note put w) noted;
      conserved = λ weight.
          omega (arith, pooled-note weight discard (note put w), pooled-note weight put w);
      few = omega arith;
      reason = inr why;
      same_serial = serial-note discard (note put w) ∙ serial-note put w;
    }

    pub dealloc-Returned :
        Home class_hint buf → Returned buf class_hint w (dealloc buf class_hint w)
    unfolding dealloc pick_class ClassTable.boundary clear
    dealloc-Returned (inl e) = discarded (inl e) (rw (eq→== class_hint 255 e, dealloc))
    dealloc-Returned (inr (b, at_b, fits)) = elim (Bool-cases (class_hint == 255)) [
      | inl out ↦ discarded (inl (==→eq class_hint 255 out)) (rw (out, dealloc))
      | inr pooled_hint ↦ elim (Bool-cases (ltb buf.cap (note put w).state.min_buffer_size)) [
        | inl small ↦
            discarded (inr (inl (ground (arith, min-note put w))))
              (rw (pooled_hint, dealloc) (rw small))
        | inr large ↦
            let u = pin (clear buf) (note put w) in
            let k =
              keep-Kept b class_hint (clear buf) u (pin-IsValid (clear buf) (note put w) noted) at_b
                (clear-Serves b buf fits) in
            record {
              after = k.after;
              dropped = k.dropped;
              returns = ground (arith, k.returns);
              valid = k.valid;
              conserved = λ weight. omega (
                arith,
                k.conserved weight,
                pooled-pin weight (clear buf) (note put w),
                pooled-note weight put w,
              );
              few = k.few;
              reason = elim k.only_full [ inl e ↦ inl e | inr full ↦ inr (inr (inr full)) ];
              same_serial = k.same_serial ∙ serial-pin (clear buf) (note put w) ∙ serial-note put w;
            }
      ]
    ]

  -- On every valid pool `dealloc` of a buffer that suits its class index returns without a panic
  -- and leaves the pool valid.
  pub dealloc-IsValid :
      (buf : Vec) (class_hint : ℕ) (w : World aq)
      → IsValid w
      → Home class_hint buf
      → (after : World aq) × (dealloc buf class_hint w ≡ some after) × IsValid after
  dealloc-IsValid buf class_hint w v home =
      let r = dealloc-Returned buf class_hint w v home in (r.after, r.returns, r.valid)

  -- When `dealloc` of a guard's buffer on a valid pool returns, the pool holds what it held and the
  -- cleared buffer less at most two dropped buffers, and none is dropped unless the buffer is
  -- oversize or below the minimum size or its shared class is full afterwards.
  pub dealloc-conserves :
      (buf : Vec) (class_hint : ℕ) (w after : World aq)
      → IsValid w
      → Home class_hint buf
      → dealloc buf class_hint w ≡ some after
      → (dropped : List Vec) × ((weight : Vec → ℕ)
          → pooled weight after + tally weight dropped ≡ pooled weight w + weight (clear buf))
        × (length dropped ≤ 2)
        × ((dropped ≡ []) ⊎ Reason buf class_hint w after)
  dealloc-conserves buf class_hint w after v home e =
      let r = dealloc-Returned buf class_hint w v home in
      let same : some r.after ≡ some after = sym r.returns ∙ e in
      let q : r.after ≡ after = cc in
      (
        r.dropped,
        λ weight.
            subst
              (λ (u : World aq).
                pooled weight u + tally weight r.dropped ≡ pooled weight w + weight (clear buf))
              q (r.conserved weight),
        r.few,
        subst (λ (u : World aq). (r.dropped ≡ []) ⊎ Reason buf class_hint w u) q r.reason,
      )
