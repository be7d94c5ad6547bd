-- ===== src/Session/Flow.antt =====
-- What each step of a client of pool.rs and buf.rs moves in and out of the pool.
use zeropool.Base.{
  ℕ, suc, ◌+◌, ◌≤◌, ◌≡◌, refl, ◌∙◌, sym, subst, inl, inr, List, [], ◌∷◌, Option, some, arith,
  remove, tally, All, All-get,
}
use zeropool.Vec.{Heap, Vec}
use zeropool.ArrayQueue.{ArrayQueue}
use zeropool.ClassTable.Laws.{contents}
use zeropool.Buf.{Buf, BufUninit, write}
use zeropool.Buf
use zeropool.Buf.Return.{drop}
use zeropool.Pool.{World}
use zeropool.Pool.Valid.{IsValid, pooled, at}
use zeropool.Pool.Alloc.Lent.{Home, Source, fresh, reused, Lent}
use zeropool.Pool.Alloc.Safety.{returned-Allocated}
use zeropool.Pool.Alloc.Uninit.{returned-Lent}
use zeropool.Pool.Dealloc.Safety.{dealloc-Returned}
use zeropool.Pool.Admin.{reset_stats}
use zeropool.Pool.Admin.Laws.{drain_drops}
use zeropool.Pool.Admin.Warm.{new_at, warm-Warmed}
use zeropool.Spec.{
  Call, Answers, Change, lend, lend_uninit, alter, release, return, stock, free, idle, zeroed,
  sized, borrows, makes, alters, releases, returns, stocks, frees, rests,
}
use zeropool.Session.{
  Session, Act, allocates, allocates_uninit, edits, writes, takes, drops, warms, drains, resets,
}
use zeropool.Session.Steps.{write-place}

made_apart :
    (first last p before after gained : ℕ)
    → after ≡ before + gained
    → after ≤ before + new_at first last p
    → gained ≤ 1
made_apart first last p before after gained e h = ground arith

module _ {aq : ArrayQueue} where
  -- What went out and what came in, by every weight.
  abbrev pub Balance : World aq → World aq → List Vec → List Vec → Type 0
  Balance w u out come =
      (weight : Vec → ℕ) → pooled weight u + tally weight out ≡ pooled weight w + tally weight come

  -- What a step asks of the pool.
  abbrev pub call_of : {heap : Heap} {s t : Session aq} → Act heap s t → Call
  call_of (allocates size v class_idx after small run) = lend size
  call_of (allocates_uninit size v class_idx after small run) = lend_uninit size
  call_of (edits i v class_idx cells e) = alter i
  call_of (writes i v u class_idx n bytes e run) = alter i
  call_of (takes i v class_idx b e run) = release i
  call_of (drops i v class_idx after e run) = return i
  call_of (warms count size after small run) = stock count
  call_of (drains after run) = free
  call_of resets = idle

  -- A call's change of the pool, of the guards and of the count of allocations.
  abbrev pub Moves : Call → Session aq → Session aq → Type 0
  Moves call s t = Change (Balance s.world t.world) s.world.serial s.live call t.world.serial t.live

  lend-Moves :
      (call : Call) (s : Session aq) (v : Vec) (class_idx : ℕ) (after : World aq)
      → Answers v call
      → Source v.ptr s.world after
      → Moves call s (record { world = after; live = (v, class_idx) ∷ s.live })
  lend-Moves call s v class_idx after a (fresh new_ptr next kept) =
      subst
        (λ n. Change (Balance s.world after) s.world.serial s.live call n ((v, class_idx) ∷ s.live))
        (sym next) (makes v class_idx a new_ptr (λ weight. omega (arith, kept weight)))
  lend-Moves call s v class_idx after a (reused raw same_ptr same kept) =
      subst
        (λ n. Change (Balance s.world after) s.world.serial s.live call n ((v, class_idx) ∷ s.live))
        (sym same) (borrows raw v class_idx a (sym same_ptr) (λ weight. omega (arith, kept weight)))

  -- The buffer in the guard that a call returned, and its source.
  Lent-Source :
      {G : Type 0} (make : Vec → ℕ → G) (Good : Vec → Type 0) (w : World aq)
      (result : Option (G × World aq)) (v : Vec) (class_idx : ℕ) (after : World aq)
      → ((a b : Vec) (c d : ℕ) → make a c ≡ make b d → a ≡ b)
      → Lent make Good w result
      → result ≡ some (make v class_idx, after)
      → Good v × Source v.ptr w after
  Lent-Source {G} make Good w result v class_idx after apart a e =
      let same : ◌≡◌ {A = Option (G × World aq)} (some (make a.buf a.class_idx, a.after))
          (some (make v class_idx, after)) =
        sym a.returns ∙ e in
      let guards : make a.buf a.class_idx ≡ make v class_idx = cc in
      let worlds : a.after ≡ after = cc in
      let q = apart a.buf v a.class_idx class_idx guards in
      let pair : ◌≡◌ {A = Vec × World aq} (a.buf, a.after) (v, after) = cc in
      subst (λ (x : Vec × World aq). Good x.0 × Source x.0.ptr w x.1) pair (a.good, a.source)

  pub Act-Moves :
      (heap : Heap) {s t : Session aq}
      → IsValid s.world
      → All (λ (g : Vec × ℕ). Home g.1 g.0) s.live
      → (act : Act heap s t) → Moves (call_of act) s t
  unfolding drop Buf.new Buf.new_uninit reset_stats
  Act-Moves heap {s} valid homes (allocates size v class_idx after small run) =
      let (good, source) =
        Lent-Source Buf.new _ s.world _ v class_idx after (λ a b c d e. cc)
          (returned-Allocated size s.world after (Buf.new v class_idx) small valid run) run in
      lend-Moves (lend size) s v class_idx after (zeroed good.length_is good.zeros) source
  Act-Moves heap {s} valid homes (allocates_uninit size v class_idx after small run) =
      let (good, source) =
        Lent-Source Buf.new_uninit _ s.world _ v class_idx after (λ a b c d e. cc)
          (returned-Lent heap size s.world after (Buf.new_uninit v class_idx) small valid run)
          run in
      lend-Moves (lend_uninit size) s v class_idx after (sized good.0) source
  Act-Moves heap {s} valid homes (edits i v class_idx cells e) =
      alters i v (record v { cells = cells }) class_idx s.world.serial e (omega arith) (inl refl)
        (λ weight. omega arith)
  Act-Moves heap {s} valid homes (writes i v u class_idx n bytes e run) =
      let (place, grown) = write-place heap s.world.serial class_idx n v u bytes run in
      alters i v u class_idx (suc s.world.serial) e (omega arith)
        (elim place [ inl stays ↦ inl stays | inr moved ↦ inr (omega arith, omega arith) ])
        (λ weight. omega arith)
  Act-Moves heap {s} valid homes (takes i v class_idx b e run) =
      releases i v class_idx e (λ weight. omega arith)
  Act-Moves heap {s} valid homes (drops i v class_idx after e run) =
      let home = All-get (λ (g : Vec × ℕ). Home g.1 g.0) s.live i (v, class_idx) homes e in
      let r = dealloc-Returned v class_idx s.world valid home in
      let same : some r.after ≡ some after = sym r.returns ∙ run in
      let q : r.after ≡ after = cc in
      let at_after : Moves (return i) s (record { world = r.after; live = remove s.live i }) =
        subst
          (λ n.
            Change (Balance s.world r.after) s.world.serial s.live (return i) n (remove s.live i))
          (sym r.same_serial)
          (returns i v class_idx r.dropped e r.few (λ weight. omega (arith, r.conserved weight))) in
      subst (λ (x : World aq). Moves (return i) s (record { world = x; live = remove s.live i })) q
        at_after
  Act-Moves heap {s} valid homes (warms count size after small run) =
      elim (warm-Warmed count size s.world small valid) [
        | inl (over, ran) ↦
            let same : some s.world ≡ some after = sym ran ∙ run in
            let q : s.world ≡ after = cc in
            subst (λ (x : World aq). Moves (stock count) s (record s { world = x })) q
              (stocks s.world.serial [] (omega arith) (omega arith) tt (λ p. omega arith)
                (λ weight. omega arith))
        | inr (i, class, after', routed, here, ran, w) ↦
            let same : some after' ≡ some after = sym ran ∙ run in
            let q : after' ≡ after = cc in
            subst (λ (x : World aq). Moves (stock count) s (record s { world = x })) q
              (stocks after'.serial w.made w.later w.few w.all_new
                (λ p.
                  made_apart s.world.serial after'.serial p _ _ _ (w.gained (at p)) (w.stocked p))
                (λ weight. omega (arith, w.gained weight)))
      ]
  Act-Moves heap {s} valid homes (drains after run) =
      let (after', ran, valid', same_serial, less, kept) = drain_drops s.world valid in
      let same : some after' ≡ some after = sym ran ∙ run in
      let q : after' ≡ after = cc in
      let at_after : Moves free s (record s { world = after' }) =
        subst (λ n. Change (Balance s.world after') s.world.serial s.live free n s.live)
          (sym same_serial) (frees (contents s.world.state.table) kept) in
      subst (λ (x : World aq). Moves free s (record s { world = x })) q at_after
  Act-Moves heap {s} valid homes resets = rests (λ weight. omega arith)
