-- ===== src/Pool/Limits.antt =====
-- How many buffers the calls of pool.rs leave in a cache of the thread.
use zeropool.Base.{
  ℕ, suc, ◌+◌, ◌≤◌, ◌<◌, ◌≡◌, refl, sym, ap, ◌∙◌, subst, inl, inr, Bool, List, [], ◌∷◌, Option,
  some, arith, get_elem?, length, All-get, Option-cases, Bool-cases, if_either, ◌==◌, ==→eq, ltb,
  leb, IfSome, IfSome_value, IfSome-bind, IfSome-mono, if◌then◌else◌, ◌>>=◌,
}
use zeropool.Vec.{Vec}
use zeropool.ArrayQueue.{ArrayQueue}
use zeropool.SizeClass.{SizeClass}
use zeropool.SizeClass
use zeropool.ClassTable
use zeropool.Tls.{TlsState, owns, bind, push_cache, refill}
use zeropool.Tls.Lengths.{Within, clear_caches-Short, set-Within, refill-Within, spill-Within}
use zeropool.Pool.{World, note, pin, claim, put_class}
use zeropool.Pool.Alloc.{take_pooled}
use zeropool.Pool.Dealloc.{keep, make_room, push_shared}
use zeropool.Pool.Admin.{drain, reset_stats}
use zeropool.Pool.Frame.{Frame}
use zeropool.Pool.Unmoved.{note-Unmoved, pin-Unmoved}
use zeropool.Pool.Settings.{Same, settings-Frame, Settings}

module _ {aq : ArrayQueue} (most : ℕ) where
  -- The configuration allows caches of at most `most` buffers, and the thread's caches hold no more,
  -- if they are the pool's.
  pub record Fits (w : World aq) : Type 0 where
    pub limit : w.state.tls_cache_size ≤ most
    pub batch : w.state.batch_size ≤ most + 1
    pub within : w.tls.pool_id ≡ w.state.id → Within most w.tls

  claim-Within : (w : World aq) → Fits w → Within most (claim w)
  unfolding claim owns bind
  claim-Within w h = elim (Bool-cases (w.tls.pool_id == w.state.id)) [
    | inl own ↦ rw own (h.within (==→eq _ _ own))
    | inr other ↦ rw other (h.limit, clear_caches-Short most w.tls.caches)
  ]

  -- A step that leaves the settings, and a thread state within the bound.
  moved :
      (w u : World aq)
      → Same w u
      → Fits w
      → (u.tls.pool_id ≡ u.state.id → Within most u.tls)
      → Fits u
  moved w u same h within = record {
    limit = subst (λ n. n ≤ most) (sym (ap (λ (s : Settings). s.tls_cache_size) same)) h.limit;
    batch = subst (λ n. n ≤ most + 1) (sym (ap (λ (s : Settings). s.batch_size) same)) h.batch;
    within = within;
  }

  unmoved : (w u : World aq) → Same w u → u.tls ≡ w.tls → Fits w → Fits u
  unmoved w u same stays h = moved w u same h (λ own. subst (Within most) (sym stays) (
      h.within
        (ap (λ (t : TlsState). t.pool_id) (sym stays) ∙ own ∙ ap (λ (s : Settings). s.id) same)))

  abbrev Kept : World aq → World aq → Type 0
  Kept w u = Fits w → Fits u

  drain-tls : (w after : World aq) → drain w ≡ some after → after.tls ≡ w.tls
  unfolding drain
  drain-tls w after run = ground arith

  reset_stats-tls : (w : World aq) → (reset_stats w).tls ≡ w.tls
  unfolding reset_stats
  reset_stats-tls w = refl

  take_pooled-Within :
      (i : ℕ) (class : SizeClass aq) (w : World aq)
      → Fits w
      → IfSome (λ (r : Option (Vec × Bool) × World aq). Within most r.1.tls) (take_pooled i class w)
  unfolding take_pooled
  take_pooled-Within i class w h =
      let own = claim-Within w h in
      elim (Option-cases (get_elem? (claim w).caches i)) [
        | inl out ↦ rw out tt
        | inr ([], e) ↦ rw e (
            IfSome-bind (λ (r : Option Vec × TlsState × SizeClass aq). Within most r.1)
              (λ (r : Option (Vec × Bool) × World aq). Within most r.1.tls)
              (refill (claim w) i class w.state.batch_size) _
              (refill-Within most (claim w) i class w.state.batch_size e h.batch own)
              (λ r within. within))
        | inr (buf ∷ rest, e) ↦
            let whole =
              All-get (λ (c : List Vec). length c ≤ most) (claim w).caches i (buf ∷ rest) own.1 e in
            rw e (set-Within most (claim w) i rest own (omega arith))
      ]

  make_room-Within :
      (i : ℕ) (tls : TlsState) (class : SizeClass aq) (batch : ℕ)
      → Within most tls
      → IfSome (λ (r : TlsState × SizeClass aq). Within most r.0) (make_room i tls class batch)
  unfolding make_room
  make_room-Within i tls class batch h = elim (Option-cases (get_elem? tls.caches i)) [
    | inl out ↦ rw out tt
    | inr (cache, e) ↦ rw e (
        if_either (λ m. IfSome (λ (r : TlsState × SizeClass aq). Within most r.0) m)
          (leb tls.limit (length cache)) _ _ (spill-Within most batch tls i class h) h)
  ]

  push_shared-tls :
      (i : ℕ) (buf : Vec) (w : World aq)
      → IfSome (λ (u : World aq). u.tls ≡ w.tls) (push_shared i buf w)
  unfolding push_shared
  push_shared-tls i buf w = elim (Option-cases (ClassTable.index w.state.table i)) [
    | inl out ↦ rw out tt
    | inr (class, e) ↦ rw e (elim (Option-cases (SizeClass.push buf class)) [
      | inl full ↦ rw (full, IfSome, ◌>>=◌) refl
      | inr (d, pushed) ↦ rw (pushed, IfSome, ◌>>=◌) refl
    ])
  ]

  -- The end of `keep`: the buffer goes on top of the cache if there is room.
  stack_or_share :
      (i : ℕ) (buf : Vec) (w : World aq)
      → Within most w.tls
      → IfSome
          (λ (u : World aq). Within most u.tls)
          (get_elem? w.tls.caches i >>= λ cache.
            if ltb (length cache) w.tls.limit
            then (push_cache w.tls i buf >>= λ tls'. some (record w { tls = tls' }))
            else push_shared i buf w)
  unfolding push_cache
  stack_or_share i buf w h = elim (Option-cases (get_elem? w.tls.caches i)) [
    | inl out ↦ rw out tt
    | inr (cache, e) ↦ rw e (elim (Bool-cases (ltb (length cache) w.tls.limit)) [
      | inl free ↦
          let room : length cache < w.tls.limit = ground arith in
          rw free (set-Within most w.tls i (buf ∷ cache) h (omega arith))
      | inr full ↦ rw full (
          IfSome-mono (λ (u : World aq). u.tls ≡ w.tls) (λ (u : World aq). Within most u.tls)
            (push_shared i buf w) (push_shared-tls i buf w)
            (λ u same. subst (Within most) (sym same) h))
    ])
  ]

  keep-Within :
      (i : ℕ) (buf : Vec) (w : World aq)
      → Fits w
      → IfSome (λ (u : World aq). Within most u.tls) (keep i buf w)
  unfolding keep
  keep-Within i buf w h = elim (Option-cases (ClassTable.index w.state.table i)) [
    | inl out ↦ rw out tt
    | inr (class, e) ↦ rw e (
        IfSome-bind (λ (r : TlsState × SizeClass aq). Within most r.0)
          (λ (u : World aq). Within most u.tls) (make_room i (claim w) class w.state.batch_size) _
          (make_room-Within i (claim w) class w.state.batch_size (claim-Within w h))
          (λ r within.
            stack_or_share i buf (record w { state = put_class i r.1 w.state; tls = r.0 }) within))
  ]

  pub limits-Frame : Frame Kept
  limits-Frame = record {
    stays = λ w h. h;
    trans = λ a b h. b (a h);
    notes = λ e w. unmoved w (note e w) (settings-Frame.notes e w) (note-Unmoved e w).tls;
    pins = λ buf w. unmoved w (pin buf w) (settings-Frame.pins buf w) (pin-Unmoved buf w).tls;
    numbers = λ w. unmoved w (record w { serial = suc w.serial }) refl refl;
    puts = λ i class w.
        unmoved w (record w { state = put_class i class w.state }) (settings-Frame.puts i class w)
          refl;
    takes = λ i class w after out run h.
        moved w after (settings-Frame.takes i class w after out run) h
          (λ own. IfSome_value _ _ (out, after) (take_pooled-Within i class w h) run);
    keeps = λ i buf w after run h.
        moved w after (settings-Frame.keeps i buf w after run) h
          (λ own. IfSome_value _ _ after (keep-Within i buf w h) run);
    drains =
        λ w after run. unmoved w after (settings-Frame.drains w after run) (drain-tls w after run);
    resets = λ w. unmoved w (reset_stats w) (settings-Frame.resets w) (reset_stats-tls w);
  }
