-- ===== src/Pool/Alloc/Lent.antt =====
-- Handing a buffer out: where it came from, which class it is for, and the steps that `alloc` and
-- `alloc_uninit` share.
use zeropool.Base.{
  ℕ, suc, ◌+◌, ◌%◌, ◌^◌, ◌≤◌, ◌<◌, ◌≡◌, refl, sym, ap, ◌∙◌, ◌⊎◌, inr, Bool, Option, some, arith,
  get_elem?, get_elem?-lt, if_either, ◌==◌,
}
use zeropool.Vec.{Vec}
use zeropool.ArrayQueue.{ArrayQueue}
use zeropool.Route.{class_sizes}
use zeropool.Stats.{Event, tls_hit, shared_hit}
use zeropool.Pool.{World, note, pin}
use zeropool.Pool.Valid.{IsValid, pooled, note-IsValid, pin-IsValid, pooled-note, pooled-pin}
use zeropool.Pool.Alloc.{note_hit}

-- The class index of a guard stands for no class, or for one whose boundary its buffer holds.
abbrev pub Home : ℕ → Vec → Type 0
Home class_idx v =
    (class_idx ≡ 255) ⊎ ((b : ℕ) × (get_elem? class_sizes class_idx ≡ some b) × (b ≤ v.cap))

module _ {aq : ArrayQueue} where
  -- Where a buffer at `ptr` came from: the allocator, or the pool, which holds it no longer.
  pub data Source (ptr : ℕ) (before after : World aq) : Type 0 where
    fresh :
        ptr ≡ before.serial
        → after.serial ≡ suc before.serial
        → ((weight : Vec → ℕ) → pooled weight after ≡ pooled weight before)
        → Source ptr before after
    reused :
        (raw : Vec)
        → raw.ptr ≡ ptr
        → after.serial ≡ before.serial
        → ((weight : Vec → ℕ) → pooled weight after + weight raw ≡ pooled weight before)
        → Source ptr before after

  -- Steps before that neither allocate nor move a buffer do not show in the source.
  pub earlier_origin :
      (ptr : ℕ) (w u after : World aq)
      → u.serial ≡ w.serial
      → ((weight : Vec → ℕ) → pooled weight u ≡ pooled weight w)
      → Source ptr u after
      → Source ptr w after
  earlier_origin ptr w u after s p (fresh at_ptr n kept) =
      fresh (at_ptr ∙ s) (n ∙ ap suc s) (λ weight. kept weight ∙ p weight)
  earlier_origin ptr w u after s p (reused raw at_ptr n kept) =
      reused raw at_ptr (n ∙ s) (λ weight. kept weight ∙ p weight)

  pub serial-note : (e : Event) (w : World aq) → (note e w).serial ≡ w.serial
  unfolding note
  serial-note e w =
      if_either (λ (u : World aq). u.serial ≡ w.serial) w.state.track_stats _ w refl refl

  pub serial-pin : (buf : Vec) (w : World aq) → (pin buf w).serial ≡ w.serial
  unfolding pin
  serial-pin buf w =
      let same = λ (u : World aq). u.serial ≡ w.serial in
      if_either same w.state.pinned_memory _ w (if_either same (buf.cap == 0) w _ refl refl) refl

  note_hit-either :
      (P : World aq → Type 0) (f : Bool) (u : World aq)
      → P (note tls_hit u)
      → P (note shared_hit u)
      → P (note_hit f u)
  unfolding note_hit
  note_hit-either P f u p q = if_either P f _ _ p q

-- The index of a class survives the cast to `u8`.
pub index_survives_cast :
    (i b : ℕ) (buf : Vec) → get_elem? class_sizes i ≡ some b → b ≤ buf.cap → Home (i % 2 ^ 8) buf
index_survives_cast i b buf at_i h =
    let small : i < 8 = get_elem?-lt class_sizes i b at_i in
    let same : i % 2 ^ 8 ≡ i = omega arith in inr (b, rw same at_i, h)

module _ {aq : ArrayQueue} {G : Type 0} (make : Vec → ℕ → G) (Good : Vec → Type 0) where
  -- A call returned a guard, made of a good buffer that suits its class index, and a valid pool that
  -- no longer holds the buffer.
  pub record Lent (w : World aq) (result : Option (G × World aq)) : Type 0 where
    pub buf : Vec
    pub class_idx : ℕ
    pub after : World aq
    pub returns : result ≡ some (make buf class_idx, after)
    pub valid : IsValid after
    pub good : Good buf
    pub home : Home class_idx buf
    pub source : Source buf.ptr w after

  pub earlier_result :
      (w u : World aq) (result whole : Option (G × World aq))
      → u.serial ≡ w.serial
      → ((weight : Vec → ℕ) → pooled weight u ≡ pooled weight w)
      → whole ≡ result
      → Lent u result
      → Lent w whole
  earlier_result w u result whole s p e a = record {
    buf = a.buf;
    class_idx = a.class_idx;
    after = a.after;
    returns = e ∙ a.returns;
    valid = a.valid;
    good = a.good;
    home = a.home;
    source = earlier_origin a.buf.ptr w u a.after s p a.source;
  }

  -- A new allocation, pinned.
  pub hand_out-Lent :
      (buf : Vec) (class_idx : ℕ) (w : World aq)
      → IsValid w
      → Good buf
      → Home class_idx buf
      → buf.ptr ≡ w.serial
      → Lent w (some (make buf class_idx, pin buf (record w { serial = suc w.serial })))
  hand_out-Lent buf class_idx w v g home at_ptr =
      let u : World aq = record w { serial = suc w.serial } in
      let v' : IsValid u = record {
        contract = v.contract;
        table = v.table;
        cache_size = v.cache_size;
        cached = v.cached;
      } in
      record {
        buf = buf;
        class_idx = class_idx;
        after = pin buf u;
        returns = refl;
        valid = pin-IsValid buf u v';
        good = g;
        home = home;
        source = fresh at_ptr (serial-pin buf u) (λ weight. pooled-pin weight buf u);
      }

  -- A buffer of the pool, resized in its allocation.
  pub hand_on-Lent :
      (raw buf : Vec) (f : Bool) (class_idx : ℕ) (w after : World aq)
      → IsValid after
      → ((weight : Vec → ℕ) → pooled weight after + weight raw ≡ pooled weight w)
      → after.serial ≡ w.serial
      → buf.ptr ≡ raw.ptr
      → Good buf
      → Home class_idx buf
      → Lent w (some (make buf class_idx, note_hit f after))
  hand_on-Lent raw buf f class_idx w after q kept serial same_ptr g home =
      let weighs =
        note_hit-either (λ u. (weight : Vec → ℕ) → pooled weight u ≡ pooled weight after) f after
          (λ weight. pooled-note weight tls_hit after)
          (λ weight. pooled-note weight shared_hit after) in
      let serial' =
        note_hit-either (λ u. u.serial ≡ after.serial) f after (serial-note tls_hit after)
          (serial-note shared_hit after) in
      record {
        buf = buf;
        class_idx = class_idx;
        after = note_hit f after;
        returns = refl;
        valid =
            note_hit-either IsValid f after (note-IsValid tls_hit after q)
              (note-IsValid shared_hit after q);
        good = g;
        home = home;
        source =
            reused raw (sym same_ptr) (serial' ∙ serial)
              (λ weight. omega (arith, weighs weight, kept weight));
      }
