-- ===== src/Threads/Refinement.antt =====
-- Threads at a pool of pool.rs, against the pool as its clients specify it.
use zeropool.Base.{
  ℕ, ◌+◌, ◌≡◌, refl, sym, ap, List, [], ◌∷◌, ◌++◌, some, arith, get_elem?, set, remove,
  remove-eq_self, tally, tally-append, tally-set, tally-remove, ◌==◌, Bool-cases, Option-cases, inl,
  inr, if◌then◌else◌,
}
use zeropool.Vec.{Heap, Vec}
use zeropool.ArrayQueue.{ArrayQueue}
use zeropool.ClassTable.Laws.{contents, tally-flatten}
use zeropool.Tls.{TlsState}
use zeropool.Tls
use zeropool.Pool.{World}
use zeropool.Pool.Valid.{IsValid, pooled, mine, not_mine}
use zeropool.Pool.Settings.{Settings}
use zeropool.Spec.{bag_of, Call, Change, Change-map, free, idle, frees, rests}
use zeropool.Spec.Bags.{Turns, Turns-of_tally, Store, Trace, still, changed}
use zeropool.Session.{Session, Act}
use zeropool.Session.Flow.{Balance, call_of, Act-Moves}
use zeropool.Threads.{Crew, seen, left, Step, acts, elsewhere, spawns, exits, Reach, here, next}
use zeropool.Threads.Ownership.{pooled_by_all, Sound, seen-IsValid, Act-Same, Reach-Sound}
use zeropool.Threads.Safety.{opened, opened-Sound}

abbrev concat : List (List Vec) → List Vec
concat [] = []
concat (c ∷ cs) = c ++ concat cs

tally-concat : (w : Vec → ℕ) (cs : List (List Vec)) → tally w (concat cs) ≡ tally (tally w) cs
tally-concat w [] = refl
tally-concat w (c ∷ cs) = omega (arith, tally-append w c (concat cs), tally-concat w cs)

-- The buffers in a thread's caches, where they are the pool's.
abbrev cached_on : ℕ → TlsState → List Vec
cached_on id tls = if tls.pool_id == id then concat tls.caches else []

tally-cached_on :
    (w : Vec → ℕ) (id : ℕ) (tls : TlsState) → tally w (cached_on id tls) ≡ mine w id tls
tally-cached_on w id tls = elim (Bool-cases (tls.pool_id == id)) [
  | inl ours ↦ rw ours (tally-concat w tls.caches)
  | inr other ↦ rw other
]

abbrev cached_on_all : ℕ → List TlsState → List Vec
cached_on_all id [] = []
cached_on_all id (tls ∷ rest) = cached_on id tls ++ cached_on_all id rest

tally-cached_on_all :
    (w : Vec → ℕ) (id : ℕ) (threads : List TlsState)
    → tally w (cached_on_all id threads) ≡ tally (mine w id) threads
tally-cached_on_all w id [] = refl
tally-cached_on_all w id (tls ∷ rest) = omega (
  arith,
  tally-append w (cached_on id tls) (cached_on_all id rest),
  tally-cached_on w id tls,
  tally-cached_on_all w id rest,
)

module _ {aq : ArrayQueue} where
  abbrev pub buffers : Crew aq → List Vec
  buffers c = contents c.state.table ++ cached_on_all c.state.id c.threads

  tally-buffers : (w : Vec → ℕ) (c : Crew aq) → tally w (buffers c) ≡ pooled_by_all w c
  tally-buffers w c = omega (
    arith,
    tally-append w (contents c.state.table) (cached_on_all c.state.id c.threads),
    tally-flatten w c.state.table.classes,
    tally-cached_on_all w c.state.id c.threads,
  )

  -- The pool as its clients see it: in which queue or cache a buffer waits is forgotten.
  abbrev pub store : Crew aq → Store
  store c = record { bag = bag_of (buffers c); next = c.serial; live = c.live }

  -- What a step of the threads asks of the pool.
  abbrev pub call_of_step : {heap : Heap} {c d : Crew aq} → Step heap c d → Call
  call_of_step (acts i tls s here_i act) = call_of act
  call_of_step (elsewhere i tls tls' here_i ne shape) = free
  call_of_step spawns = idle
  call_of_step (exits i) = free

  -- What a run asks of the pool, the latest first.
  abbrev pub calls : {heap : Heap} {c d : Crew aq} → Reach heap c d → List Call
  calls here = []
  calls (next r step) = call_of_step step ∷ calls r

  abbrev Changes : Call → Crew aq → Crew aq → Type 0
  Changes call c d = Change (Turns (store c).bag (store d).bag) c.serial c.live call d.serial d.live

  turns :
      (c d : Crew aq) (out come : List Vec)
      → ((w : Vec → ℕ) → pooled_by_all w d + tally w out ≡ pooled_by_all w c + tally w come)
      → Turns (store c).bag (store d).bag out come
  turns c d out come h =
      Turns-of_tally (buffers c) (buffers d) out come
        (λ w. omega (arith, h w, tally-buffers w c, tally-buffers w d))

  acts-Changes :
      (heap : Heap) (c : Crew aq) (i : ℕ) (tls : TlsState) (s : Session aq)
      → get_elem? c.threads i ≡ some tls
      → Sound c
      → (act : Act heap (seen c tls) s) → Changes (call_of act) c (left c i s)
  acts-Changes heap c i tls s here_i sound act =
      let id_same : s.world.state.id ≡ c.state.id =
        ap (λ (x : Settings). x.id) (Act-Same heap act) in
      Change-map (Balance (seen c tls).world s.world) (Turns (store c).bag (store (left c i s)).bag)
        c.serial s.world.serial c.live s.live (call_of act)
        (λ out come balance. turns c (left c i s) out come (λ w. omega (
          arith,
          balance w,
          tally-set (mine w s.world.state.id) c.threads i tls s.world.tls here_i,
          ap (λ n. mine w n tls) id_same,
          ap (λ n. tally (mine w n) c.threads) id_same,
        )))
        (Act-Moves heap (seen-IsValid heap c i tls here_i sound) sound.homes act)

  -- Each step of the threads changes the specified pool as its call may.
  Step-Changes :
      {heap : Heap} {c d : Crew aq}
      → Sound c
      → (step : Step heap c d) → Changes (call_of_step step) c d
  unfolding Tls.new
  Step-Changes {heap} {c} sound (acts i tls s here_i act) =
      acts-Changes heap c i tls s here_i sound act
  Step-Changes {c} sound (elsewhere i tls tls' here_i ne shape) = frees (cached_on c.state.id tls) (
      turns c (record c { threads = set c.threads i tls' }) (cached_on c.state.id tls) []
        (λ w. omega (
          arith,
          tally-set (mine w c.state.id) c.threads i tls tls' here_i,
          tally-cached_on w c.state.id tls,
          not_mine w c.state.id tls' ne,
        )))
  Step-Changes {c} sound spawns = rests (
      turns c (record c { threads = Tls.new ∷ c.threads }) [] []
        (λ w. omega (arith, not_mine w c.state.id Tls.new (λ e. sound.named (sym e)))))
  Step-Changes {c} sound (exits i) = elim (Option-cases (get_elem? c.threads i)) [
    | inl out_of_range ↦ frees [] (
        turns c (record c { threads = remove c.threads i }) [] []
          (λ w.
            omega
              (arith, ap (tally (mine w c.state.id)) (remove-eq_self c.threads i out_of_range))))
    | inr (tls, here_i) ↦ frees (cached_on c.state.id tls) (
        turns c (record c { threads = remove c.threads i }) (cached_on c.state.id tls) []
          (λ w. omega (
            arith,
            tally-remove (mine w c.state.id) c.threads i tls here_i,
            tally-cached_on w c.state.id tls,
          )))
  ]

  -- Every run of any number of threads from a valid and empty pool whose identity is not 0 is, with
  -- queues and caches forgotten, a run of the same calls on the specified pool, a bag of buffers:
  -- `alloc` lends a buffer out of the bag or one in the next allocation, of the requested length
  -- and zeroed, `alloc_uninit` one of that length; a change of a guard's bytes leaves it in its
  -- allocation or moves it to a new one; a drop puts the guard's buffer back, cleared, with at most
  -- two freed; `warm` puts in at most the requested number of buffers, each in a new allocation of
  -- its own; only `drain`, the end of a thread and its call on another pool free others; nothing
  -- else moves a buffer.
  pub Reach-Trace :
      (heap : Heap) (w : World aq) (c : Crew aq)
      → IsValid w
      → (w.state.id ≡ 0 → ⊥)
      → ((weight : Vec → ℕ) → pooled weight w ≡ 0)
      → (r : Reach heap (opened w) c) → Trace (store (opened w)) (calls r) (store c)
  Reach-Trace heap w c valid named empty here = still
  Reach-Trace heap w c valid named empty (next {d} r step) =
      changed (Reach-Trace heap w d valid named empty r)
        (Step-Changes (Reach-Sound (opened-Sound w valid named empty) r) step)
