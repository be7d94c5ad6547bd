-- ===== src/Access/System/Safety.antt =====
-- What threads whose calls run into each other can rely on.
use zeropool.Base.{
  ℕ, ◌+◌, ◌≤◌, ◌<◌, ◌≡◌, refl, ap, subst, ◌⊎◌, inl, inr, List, [], ◌∷◌, Option, none, some, arith,
  get_elem?, tally, tally-get, All, Each, Each-get,
}
use zeropool.Vec.{Heap, Vec}
use zeropool.ArrayQueue.{ArrayQueue}
use zeropool.SizeClass.Resize.{Zeroed}
use zeropool.Allocator.{Contract}
use zeropool.Tls.{TlsState}
use zeropool.Pool.Valid.{at, mine}
use zeropool.Pool.Alloc.Lent.{Home}
use zeropool.Pool.Alloc.Uninit.{Sized}
use zeropool.Session.Ownership.{guard_at, at_self, unshared}
use zeropool.Access.{Code, result, Shared, perform}
use zeropool.Access.Triple.{Share, Secures}
use zeropool.Access.System.{
  Asked, zeroed, sized, no_guard, Result, Thread, idle, calling, draining, drained, System, Reach,
  here, next,
}
use zeropool.Access.System.Queues.{AllStocked, kept_by}
use zeropool.Access.System.Performs.{perform-Performed}
use zeropool.Access.System.Owned.{Ended, Owned, Sound}
use zeropool.Access.System.Steps.{Step-Sound}

-- What a thread between calls, or in `drain`, has in its caches.
abbrev pub cached_by : ℕ → ℕ → Thread → ℕ
cached_by id p (idle tls) = mine (at p) id tls
cached_by id p (calling asked code) = 0
cached_by id p (draining tls k) = mine (at p) id tls
cached_by id p (drained tls k) = mine (at p) id tls

-- The answer to what a call was asked.
abbrev pub Answers : Asked → Option (Vec × ℕ) → Type 0
Answers (zeroed size) (some (v, class_idx)) = Zeroed size v × Home class_idx v
Answers (sized size) (some (v, class_idx)) = Sized size v × Home class_idx v
Answers no_guard none = Unit
Answers _ _ = ⊥

Ended-Answers :
    (id : ℕ) (asked : Asked) (g : Option (Vec × ℕ)) (tls : TlsState) (share : Share)
    → Ended id asked (g, tls) share
    → Answers asked g
Ended-Answers id (zeroed size) (some g) tls share h = (h.0, h.1)
Ended-Answers id (zeroed size) none tls share h = absurd h
Ended-Answers id (sized size) (some g) tls share h = (h.0, h.1)
Ended-Answers id (sized size) none tls share h = absurd h
Ended-Answers id no_guard (some g) tls share h = absurd h
Ended-Answers id no_guard none tls share h = tt

cached-covered :
    (id p : ℕ) (threads : List Thread) (shares : List Share)
    → Each (Owned id) threads shares
    → tally (cached_by id p) threads ≤ tally (λ (f : Share). f p) shares
cached-covered id p [] [] h = omega arith
cached-covered id p [] (share ∷ shares) h = absurd h
cached-covered id p (thread ∷ threads) [] h = absurd h
cached-covered id p (idle tls ∷ threads) (share ∷ shares) h =
    omega (arith, h.0.1 p, cached-covered id p threads shares h.1)
cached-covered id p (calling asked code ∷ threads) (share ∷ shares) h =
    omega (arith, cached-covered id p threads shares h.1)
cached-covered id p (draining tls k ∷ threads) (share ∷ shares) h =
    omega (arith, h.0.1.1 p, cached-covered id p threads shares h.1)
cached-covered id p (drained tls k ∷ threads) (share ∷ shares) h =
    omega (arith, h.0.1.1 p, cached-covered id p threads shares h.1)

module _ {aq : ArrayQueue} where
  -- The buffers of the queues, and of the caches of threads that are not in a call.
  abbrev pub pooled_at : ℕ → System aq → ℕ
  pooled_at p c = kept_by p c.shared + tally (cached_by c.shared.state.id p) c.threads

  -- A pool before any thread has used it.
  abbrev pub opened : Shared aq → System aq
  opened s = record { shared = s; threads = []; live = [] }

  pub record IsNew (s : Shared aq) : Type 0 where
    pub used : s.state.id ≡ 0 → ⊥
    pub cache_size : 0 < s.state.tls_cache_size
    pub contract : Contract s.state.allocator
    pub stocked : AllStocked s
    pub empty : (p : ℕ) → kept_by p s ≡ 0

  opened-Sound : (s : Shared aq) → IsNew s → Sound s.state.id (opened s) []
  opened-Sound s h = record {
    named = refl;
    cache_size = h.cache_size;
    contract = h.contract;
    stocked = h.stocked;
    owned = tt;
    homes = tt;
    once = λ p. omega (arith, h.empty p);
    unborn = λ p later. omega (arith, h.empty p);
  }

  module _ (heap : Heap) (s : Shared aq) (new : IsNew s) where
    Reach-Sound :
        (c : System aq)
        → Reach heap (opened s) c
        → (shares : List Share) × Sound s.state.id c shares
    Reach-Sound c here = ([], opened-Sound s new)
    Reach-Sound c (next {d} r step) =
        let (shares, sound) = Reach-Sound d r in Step-Sound s.state.id shares new.used step sound

    -- From a pool that no thread has used, of an identity other than 0 and with empty queues,
    -- whatever any number of threads do with it, their calls interleaved access by access, with
    -- guards that move between threads and are edited, written and given away in between, where
    -- every call asks for at most `isize::MAX` bytes: no two live guards share an allocation; the
    -- queues, and the caches of threads that are not in a call, hold no allocation of a live guard
    -- and none twice; each live guard suits its class; and each queue holds only buffers that serve
    -- its class.
    pub accesses_one_holder :
        (c : System aq)
        → Reach heap (opened s) c
        → ((i j : ℕ) (g h : Vec × ℕ)
            → get_elem? c.live i ≡ some g
            → get_elem? c.live j ≡ some h
            → g.0.ptr ≡ h.0.ptr
            → i ≡ j)
          × ((i : ℕ) (g : Vec × ℕ) → get_elem? c.live i ≡ some g → pooled_at g.0.ptr c ≡ 0)
          × ((p : ℕ) → pooled_at p c ≤ 1)
          × All (λ (g : Vec × ℕ). Home g.1 g.0) c.live
          × AllStocked c.shared
    accesses_one_holder c r =
        let (shares, sound) = Reach-Sound c r in
        let n = sound.named in
        let caches : (p : ℕ) → pooled_at p c + tally (guard_at p) c.live ≤ 1 = λ p. omega (
          arith,
          ap (λ m. tally (cached_by m p) c.threads) n,
          cached-covered s.state.id p c.threads shares sound.owned,
          sound.once p,
        ) in
        (
          λ i j g h at_i at_j same.
              unshared c.live i j g h (λ p. omega (arith, caches p)) at_i at_j same,
          λ i g at_i.
              let held = tally-get (guard_at g.0.ptr) c.live i g at_i in
              omega (arith, at_self g.0, caches g.0.ptr),
          λ p. omega (arith, caches p),
          sound.homes,
          sound.stocked,
        )

    -- From a pool that no thread has used, of an identity other than 0 and with empty queues, at
    -- every point of such an interleaving, of calls that ask for at most `isize::MAX` bytes, for
    -- every thread in a call: the call has returned what it was asked for, a guard that suits its
    -- class on so many zeroed bytes for `alloc` and of that length for `alloc_uninit`, none for
    -- `dealloc` and `warm`; or its next access succeeds. No such call panics.
    pub accesses_never_panic :
        (c : System aq)
        → Reach heap (opened s) c
        → (i : ℕ) (asked : Asked) (code : Code Result)
        → get_elem? c.threads i ≡ some (calling asked code)
        → ((g : Option (Vec × ℕ)) × (tls : TlsState) × (code ≡ result (g, tls)) × Answers asked g)
          ⊎ ((code' : Code Result) × (s' : Shared aq) × (perform heap code c.shared
                ≡ some (code', s')))
    accesses_never_panic c r i asked code at_i =
        let (shares, sound) = Reach-Sound c r in
        let (share, at_share, h) =
          Each-get (Owned s.state.id) i c.threads shares (calling asked code) sound.owned at_i in
        elim (perform-Performed heap (Ended s.state.id asked) c.shared sound.stocked sound.contract
          code share h) [
            | inl (a, e) ↦ inl (
              a.0,
              a.1,
              e,
              Ended-Answers s.state.id asked a.0 a.1 share
                  (subst (λ k. Secures (Ended s.state.id asked) k share) e h),
            )
            | inr (code', s', run, done) ↦ inr (code', s', run)
          ]
