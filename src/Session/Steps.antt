-- ===== src/Session/Steps.antt =====
-- Each step of a client of pool.rs and buf.rs, against who holds an allocation.
use zeropool.Base.{
  ℕ, suc, ◌+◌, ◌≤◌, ◌≡◌, refl, ◌∙◌, sym, subst, ◌⊎◌, inl, inr, List, ◌∷◌, Option, some, arith,
  remove, All-get, leb, length, Bool-cases,
}
use zeropool.Vec.{Heap, Vec, clear, extend}
use zeropool.ArrayQueue.{ArrayQueue}
use zeropool.Buf.{Buf, BufUninit, write}
use zeropool.Buf
use zeropool.Buf.Return.{drop}
use zeropool.Pool.{World}
use zeropool.Pool.Valid.{at}
use zeropool.Pool.Alloc.Lent.{Home, Lent}
use zeropool.Pool.Alloc.Safety.{returned-Allocated}
use zeropool.Pool.Alloc.Uninit.{returned-Lent}
use zeropool.Pool.Dealloc.Safety.{dealloc-Returned}
use zeropool.Pool.Admin.{reset_stats}
use zeropool.Pool.Admin.Laws.{drain_drops}
use zeropool.Session.{
  Session, Act, allocates, allocates_uninit, edits, writes, takes, drops, warms, drains, resets,
  Run, begun, acted,
}
use zeropool.Session.Ownership.{
  Sound, lend-Sound, change-Sound, release-Sound, restock-Sound, warm-Sound,
}

-- The buffer after a write: it stays in its allocation, or is in the new one; it holds no less.
pub write-place :
    (heap : Heap) (place class_idx n : ℕ) (v u : Vec) (bytes : List ℕ)
    → write heap place (Buf.new v class_idx) bytes ≡ some (n, Buf.new u class_idx)
    → ((u.ptr ≡ v.ptr) ⊎ (u.ptr ≡ place)) × (v.cap ≤ u.cap)
unfolding write Buf.new extend
write-place heap place class_idx n v u bytes run =
    let q : extend heap place v bytes ≡ u = cc in
    let g = heap.grant_le (v.len + length bytes) in
    subst (λ (x : Vec). ((x.ptr ≡ v.ptr) ⊎ (x.ptr ≡ place)) × (v.cap ≤ x.cap)) q
      (elim (Bool-cases (leb (v.len + length bytes) v.cap)) [
        | inl fits ↦ (inl (ground arith), ground arith)
        | inr moves ↦ (inr (ground arith), ground arith)
      ])

cleared_at : (p : ℕ) (v : Vec) → at p (clear v) ≡ at p v
unfolding clear
cleared_at p v = refl

module _ {aq : ArrayQueue} (others : ℕ → ℕ) (heap : Heap) where
  Lent-Sound :
      {G : Type 0} (make : Vec → ℕ → G) (Good : Vec → Type 0) (s : Session aq)
      (result : Option (G × World aq)) (v : Vec) (class_idx : ℕ) (after : World aq)
      → ((a b : Vec) (c d : ℕ) → make a c ≡ make b d → (a ≡ b) × (c ≡ d))
      → Sound others s
      → Lent make Good s.world result
      → result ≡ some (make v class_idx, after)
      → Sound others (record { world = after; live = (v, class_idx) ∷ s.live })
  Lent-Sound {G} make Good s result v class_idx after apart sound a e =
      let same : ◌≡◌ {A = Option (G × World aq)} (some (make a.buf a.class_idx, a.after))
          (some (make v class_idx, after)) =
        sym a.returns ∙ e in
      let guards : make a.buf a.class_idx ≡ make v class_idx = cc in
      let worlds : a.after ≡ after = cc in
      let (q, r) = apart a.buf v a.class_idx class_idx guards in
      let out = lend-Sound others s a.buf a.class_idx a.after sound a.valid a.home a.source in
      let g : ◌≡◌ {A = Vec × ℕ × World aq} (a.buf, a.class_idx, a.after) (v, class_idx, after) =
        cc in
      subst
        (λ (x : Vec × ℕ × World aq).
          Sound others (record { world = x.2; live = (x.0, x.1) ∷ s.live }))
        g out

  pub Act-Sound : {s t : Session aq} → Act heap s t → Sound others s → Sound others t
  unfolding drop Buf.new Buf.new_uninit reset_stats
  Act-Sound {s} (allocates size v class_idx after small run) sound =
      Lent-Sound Buf.new _ s _ v class_idx after (λ a b c d e. (cc, cc)) sound
        (returned-Allocated size s.world after (Buf.new v class_idx) small sound.valid run) run
  Act-Sound {s} (allocates_uninit size v class_idx after small run) sound =
      Lent-Sound Buf.new_uninit _ s _ v class_idx after (λ a b c d e. (cc, cc)) sound
        (returned-Lent heap size s.world after (Buf.new_uninit v class_idx) small sound.valid run)
        run
  Act-Sound {s} (edits i v class_idx cells e) sound =
      let home = All-get (λ (g : Vec × ℕ). Home g.1 g.0) s.live i (v, class_idx) sound.homes e in
      change-Sound others s i v (record v { cells = cells }) class_idx s.world.serial sound e home
        (omega arith) (inl refl)
  Act-Sound {s} (writes i v u class_idx n bytes e run) sound =
      let home = All-get (λ (g : Vec × ℕ). Home g.1 g.0) s.live i (v, class_idx) sound.homes e in
      let (place, grown) = write-place heap s.world.serial class_idx n v u bytes run in
      change-Sound others s i v u class_idx (suc s.world.serial) sound e
        (elim home [ inl over ↦ inl over | inr (b, at_b, reached) ↦ inr (b, at_b, omega arith) ])
        (omega arith) (elim place [ inl stays ↦ inl stays | inr moved ↦ inr (moved, omega arith) ])
  Act-Sound {s} (takes i v class_idx b e run) sound =
      release-Sound others s i v class_idx s.world sound e sound.valid refl (λ p. omega arith)
  Act-Sound {s} (drops i v class_idx after e run) sound =
      let home = All-get (λ (g : Vec × ℕ). Home g.1 g.0) s.live i (v, class_idx) sound.homes e in
      let r = dealloc-Returned v class_idx s.world sound.valid home in
      let same : some r.after ≡ some after = sym r.returns ∙ run in
      let q : r.after ≡ after = cc in
      subst (λ (x : World aq). Sound others (record { world = x; live = remove s.live i })) q
        (release-Sound others s i v class_idx r.after sound e r.valid r.same_serial
          (λ p. omega (arith, r.conserved (at p), cleared_at p v)))
  Act-Sound {s} (warms count size after small run) sound =
      warm-Sound others s count size after small run sound
  Act-Sound {s} (drains after run) sound =
      let (after', ran, valid, same_serial, less, kept) = drain_drops s.world sound.valid in
      let same : some after' ≡ some after = sym ran ∙ run in
      let q : after' ≡ after = cc in
      subst (λ (x : World aq). Sound others (record s { world = x })) q
        (restock-Sound others s after' sound valid (omega arith) (λ p. omega (arith, less (at p))))
  Act-Sound {s} resets sound =
      let v = sound.valid in
      restock-Sound others s (reset_stats s.world) sound
        (record {
          contract = v.contract;
          table = v.table;
          cache_size = v.cache_size;
          cached = v.cached;
        })
        (omega arith) (λ p. omega arith)

  pub Run-Sound : {s t : Session aq} → Sound others s → Run heap s t → Sound others t
  Run-Sound sound begun = sound
  Run-Sound sound (acted r act) = Act-Sound act (Run-Sound sound r)
