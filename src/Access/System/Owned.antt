-- ===== src/Access/System/Owned.antt =====
-- Who holds an allocation while calls are running: the queues, each thread by its share, and live guards.
use zeropool.Base.{
  ℕ, ◌+◌, ◌≤◌, ◌<◌, ◌≡◌, sym, subst, ◌∙◌, ◌⊎◌, inl, inr, List, none, some, arith, get_elem?, set,
  tally, tally-set, All, Each, Each-get, Each-replace, length,
}
use zeropool.Vec.{Vec}
use zeropool.ArrayQueue.{ArrayQueue}
use zeropool.SizeClass.Resize.{Zeroed}
use zeropool.Route.{class_sizes}
use zeropool.Allocator.{Contract}
use zeropool.Pool.Alloc.Lent.{Home}
use zeropool.Pool.Alloc.Uninit.{Sized}
use zeropool.Session.Ownership.{guard_at}
use zeropool.Access.{Shared}
use zeropool.Access.Triple.{Share, Secures}
use zeropool.Access.Triple.Pool.{Entered, Handed}
use zeropool.Access.System.{
  Asked, zeroed, sized, no_guard, Result, Thread, idle, calling, draining, drained, System, becomes,
}
use zeropool.Access.System.Queues.{AllStocked, kept_by, Same}

-- What a call returns, as it was asked: a call that is to return a guard returns one.
abbrev pub Ended : ℕ → Asked → Result → Share → Type 0
Ended id (zeroed size) (some g, tls) share = Handed (Zeroed size) id (g, tls) share
Ended id (sized size) (some g, tls) share = Handed (Sized size) id (g, tls) share
Ended id no_guard (none, tls) share = Entered id (λ p. 0) tls share
Ended id _ _ share = ⊥

abbrev pub Owned : ℕ → Thread → Share → Type 0
Owned id (idle tls) share = Entered id (λ p. 0) tls share
Owned id (calling asked code) share = Secures (Ended id asked) code share
Owned id (draining tls k) share = (k < length class_sizes) × Entered id (λ p. 0) tls share
Owned id (drained tls k) share = (k < length class_sizes) × Entered id (λ p. 0) tls share

module _ {aq : ArrayQueue} where
  -- How often an allocation is held.
  abbrev pub holders : ℕ → System aq → List Share → ℕ
  holders p c shares =
      kept_by p c.shared + tally (λ (f : Share). f p) shares + tally (guard_at p) c.live

  pub record Sound (id : ℕ) (c : System aq) (shares : List Share) : Type 0 where
    pub named : c.shared.state.id ≡ id
    pub cache_size : 0 < c.shared.state.tls_cache_size
    pub contract : Contract c.shared.state.allocator
    pub stocked : AllStocked c.shared
    pub owned : Each (Owned id) c.threads shares
    pub homes : All (λ (g : Vec × ℕ). Home g.1 g.0) c.live
    pub once : (p : ℕ) → holders p c shares ≤ 1
    pub unborn : (p : ℕ) → c.shared.serial ≤ p → holders p c shares ≡ 0

  -- Nothing is held more often than before, but for an allocation made meanwhile.
  abbrev pub Accounts : System aq → List Share → System aq → List Share → Type 0
  Accounts c shares d shares' =
      (p : ℕ)
      → (holders p d shares' ≤ holders p c shares)
        ⊎ ((p ≡ c.shared.serial)
            × (c.shared.serial < d.shared.serial)
            × (holders p d shares' ≤ holders p c shares + 1))

  pub account-Sound :
      (id : ℕ) (c d : System aq) (shares shares' : List Share)
      → Sound id c shares
      → Same c.shared d.shared
      → c.shared.serial ≤ d.shared.serial
      → Each (Owned id) d.threads shares'
      → All (λ (g : Vec × ℕ). Home g.1 g.0) d.live
      → Accounts c shares d shares'
      → Sound id d shares'
  account-Sound id c d shares shares' sound same grows owned homes account = record {
    named = same.id ∙ sound.named;
    cache_size = subst (λ n. 0 < n) (sym same.cache_size) sound.cache_size;
    contract = subst Contract (sym same.allocator) sound.contract;
    stocked = same.stocked;
    owned = owned;
    homes = homes;
    once = λ p. elim (account p) [
      | inl less ↦ omega (arith, sound.once p)
      | inr (e, later, one_more) ↦ omega (arith, sound.unborn p (omega arith))
    ];
    unborn = λ p h. elim (account p) [
      | inl less ↦ omega (arith, sound.unborn p (omega arith))
      | inr (e, later, one_more) ↦ absurd (omega arith)
    ];
  }

  -- One thread goes on, with a share that need not cover more than before, and its guards and the queues
  -- as given.
  module _ (id : ℕ) (c : System aq) (shares : List Share) (sound : Sound id c shares) (i : ℕ)
      (old : Thread) (at_i : get_elem? c.threads i ≡ some old) where
    pub share_of : (share : Share) × (get_elem? shares i ≡ some share) × Owned id old share
    share_of = Each-get (Owned id) i c.threads shares old sound.owned at_i

    pub step-Sound :
        (thread : Thread) (share : Share) (s : Shared aq) (live : List (Vec × ℕ))
        → Same c.shared s
        → c.shared.serial ≤ s.serial
        → Owned id thread share
        → All (λ (g : Vec × ℕ). Home g.1 g.0) live
        → ((p : ℕ)
            → (kept_by p s + share p + tally (guard_at p) live
                ≤ kept_by p c.shared + share_of.0 p + tally (guard_at p) c.live)
              ⊎ ((p ≡ c.shared.serial)
                  × (c.shared.serial < s.serial)
                  × (kept_by p s + share p + tally (guard_at p) live
                      ≤ kept_by p c.shared + share_of.0 p + tally (guard_at p) c.live + 1)))
        → Sound id
            (becomes (record { shared = s; threads = c.threads; live = live }) i thread)
            (set shares i share)
    step-Sound thread share s live same grows owned homes account =
        let (before, here, ok) = share_of in
        let d = becomes (record { shared = s; threads = c.threads; live = live }) i thread in
        account-Sound id c d shares (set shares i share) sound same grows
          (Each-replace (Owned id) i c.threads shares thread share sound.owned owned) homes
          (λ p.
            let swap = tally-set (λ (f : Share). f p) shares i before share here in
            elim (account p) [
              | inl less ↦ inl (omega arith)
              | inr (e, later, more) ↦ inr (e, later, omega arith)
            ])
