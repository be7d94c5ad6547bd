-- ===== src/Spec.antt =====
-- What a pool is to its clients: a bag of buffers, of which it matters neither in which cache or queue
-- they wait nor in which order, beside the guards that clients hold.
pub mod Bags
pub mod Single
use zeropool.Base.{
  ℕ, suc, ◌≤◌, ◌<◌, ◌≡◌, ◌⊎◌, List, [], ◌∷◌, some, get_elem?, set, remove, length, tally, All,
  if◌then◌else◌, ◌==◌,
}
use mathlib.Core.Quot.{Quot}
use zeropool.Vec.{Vec, clear, byte}

-- Two lists hold the same buffers, as often.
abbrev pub SameBuffers : List Vec → List Vec → Type 0
SameBuffers xs ys = (weight : Vec → ℕ) → tally weight xs ≡ tally weight ys

abbrev pub Bag : Type 0
Bag = Quot SameBuffers

abbrev pub bag_of : List Vec → Bag
bag_of xs = Quot.mk xs

-- Made while the count of allocations went from `first` to `last`.
abbrev pub IsNew : ℕ → ℕ → Vec → Type 0
IsNew first last v = (first ≤ v.ptr) × (v.ptr < last)

-- Each allocation at most once.
abbrev pub Apart : List Vec → Type 0
Apart made = (p : ℕ) → tally (λ (v : Vec). if v.ptr == p then 1 else 0) made ≤ 1

-- What is asked of a pool: `alloc` or `alloc_uninit` of a size, a change of the bytes in guard `i`, guard `i`
-- kept or dropped, a warm-up with so many buffers, caches or queues emptied, or nothing that moves a buffer.
pub data Call : Type 0 where
  lend : ℕ → Call
  lend_uninit : ℕ → Call
  alter : ℕ → Call
  release : ℕ → Call
  return : ℕ → Call
  stock : ℕ → Call
  free : Call
  idle : Call

-- The buffers that answer a request for a guard.
pub data Answers (v : Vec) : Call → Type 0 where
  zeroed :
      {size : ℕ} → v.len ≡ size → ((i : ℕ) → i < size → v.cells i ≡ byte 0) → Answers v (lend size)
  sized : {size : ℕ} → v.len ≡ size → Answers v (lend_uninit size)

-- What each call may do to the bag, in which buffers go out and others come in, to the guards and to
-- the count of allocations. `Flow` says what went out and in.
pub data Change (Flow : List Vec → List Vec → Type 0) (n : ℕ) (live : List (Vec × ℕ))
    : Call → ℕ → List (Vec × ℕ) → Type 0 where
  -- A guard on a buffer of the bag, in its allocation.
  borrows :
      {call : Call} (raw v : Vec) (class_idx : ℕ)
      → Answers v call
      → v.ptr ≡ raw.ptr
      → Flow (raw ∷ []) []
      → Change Flow n live call n ((v, class_idx) ∷ live)
  -- A guard on a new buffer.
  makes :
      {call : Call} (v : Vec) (class_idx : ℕ)
      → Answers v call
      → v.ptr ≡ n
      → Flow [] []
      → Change Flow n live call (suc n) ((v, class_idx) ∷ live)
  -- A client writes to its buffer, which may move to a new allocation.
  alters :
      (i : ℕ) (v u : Vec) (class_idx n' : ℕ)
      → get_elem? live i ≡ some (v, class_idx)
      → n ≤ n'
      → (u.ptr ≡ v.ptr) ⊎ IsNew n n' u
      → Flow [] []
      → Change Flow n live (alter i) n' (set live i (u, class_idx))
  -- A client keeps its buffer for good.
  releases :
      (i : ℕ) (v : Vec) (class_idx : ℕ)
      → get_elem? live i ≡ some (v, class_idx)
      → Flow [] []
      → Change Flow n live (release i) n (remove live i)
  -- A guard gives its buffer back, cleared; at most two buffers are freed.
  returns :
      (i : ℕ) (v : Vec) (class_idx : ℕ) (dropped : List Vec)
      → get_elem? live i ≡ some (v, class_idx)
      → length dropped ≤ 2
      → Flow dropped (clear v ∷ [])
      → Change Flow n live (return i) n (remove live i)
  -- New buffers in allocations of their own are put in stock, no more than asked for.
  stocks :
      {count : ℕ} (n' : ℕ) (made : List Vec)
      → n ≤ n'
      → length made ≤ count
      → All (IsNew n n') made
      → Apart made
      → Flow [] made
      → Change Flow n live (stock count) n' live
  -- Buffers of the bag are freed.
  frees : (dropped : List Vec) → Flow dropped [] → Change Flow n live free n live
  -- Nothing is moved.
  rests : Flow [] [] → Change Flow n live idle n live

pub Change-map :
    (Flow Flow' : List Vec → List Vec → Type 0) (n n' : ℕ) (live live' : List (Vec × ℕ))
    (call : Call)
    → ((out come : List Vec) → Flow out come → Flow' out come)
    → Change Flow n live call n' live'
    → Change Flow' n live call n' live'
Change-map F G n n' live live' call f (borrows raw v class_idx a e flow) =
    borrows raw v class_idx a e (f _ _ flow)
Change-map F G n n' live live' call f (makes v class_idx a e flow) =
    makes v class_idx a e (f _ _ flow)
Change-map F G n n' live live' call f (alters i v u class_idx m e later place flow) =
    alters i v u class_idx m e later place (f _ _ flow)
Change-map F G n n' live live' call f (releases i v class_idx e flow) =
    releases i v class_idx e (f _ _ flow)
Change-map F G n n' live live' call f (returns i v class_idx dropped e few flow) =
    returns i v class_idx dropped e few (f _ _ flow)
Change-map F G n n' live live' call f (stocks m made later few new apart flow) =
    stocks m made later few new apart (f _ _ flow)
Change-map F G n n' live live' call f (frees dropped flow) = frees dropped (f _ _ flow)
Change-map F G n n' live live' call f (rests flow) = rests (f _ _ flow)
