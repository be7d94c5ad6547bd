-- ===== src/Access/Calls.antt =====
-- `alloc`, `alloc_uninit`, `dealloc` and `warm` of pool.rs, with `refill` and `spill` of tls.rs and `pop`
-- and `push` of size_class.rs, access by access. The state that a call is given serves for what never
-- changes: the configuration, and the boundaries of the classes.
use zeropool.Base.{
  ℕ, zero, suc, ◌-◌, ◌%◌, ◌^◌, Bool, true, false, [], ◌∷◌, Option, none, some, get_elem?, set,
  length, leb, ltb, ◌==◌, if◌then◌else◌,
}
use mathlib.Core.Option
use zeropool.Vec.{Vec, clear, truncate}
use zeropool.ArrayQueue.{ArrayQueue}
use zeropool.SizeClass.{SizeClass, resize_zeroed, resize_uninit}
use zeropool.ClassTable
use zeropool.Tls.{TlsState, push_cache}
use zeropool.Stats.{Event, get, put, tls_hit, shared_hit, allocation, oversized, discard}
use zeropool.Pool.{State, World, claim}
use zeropool.Pool.Dealloc.{pick_class}
use zeropool.Access.{
  Code, result, pop_queue, push_queue, add_count, sub_count, add_stat, call_allocator, call_vec,
  lock, ◌>>=◌, ◌>>◌, locally,
}

-- `SizeClass::pop`
unfoldable pub pop_code : ℕ → Code (Option Vec)
pop_code i =
    pop_queue i (λ o. elim o [ none ↦ result none | some buf ↦ sub_count i (result (some buf)) ])

-- `SizeClass::push`, and whether the class took the buffer.
unfoldable pub push_code : ℕ → Vec → Code Bool
push_code i buf =
    push_queue i buf (λ taken. if taken then add_count i (result true) else result false)

unfoldable pub refill_loop_code : ℕ → TlsState → ℕ → Code TlsState
unfolding pop_code
refill_loop_code zero tls i = result tls
refill_loop_code (suc remaining) tls i = pop_code i >>= λ o. elim o [
  | none ↦ result tls
  | some buf ↦ locally (push_cache tls i buf) >>= λ tls'. refill_loop_code remaining tls' i
]

unfoldable pub refill_code : TlsState → ℕ → ℕ → Code (Option Vec × TlsState)
unfolding pop_code refill_loop_code
refill_code tls i batch = pop_code i >>= λ o. elim o [
  | none ↦ result (none, tls)
  | some first ↦ refill_loop_code (batch - 1) tls i >>= λ tls'. result (some first, tls')
]

unfoldable pub spill_code : ℕ → TlsState → ℕ → Code TlsState
unfolding push_code
spill_code zero tls i = result tls
spill_code (suc batch) tls i = locally (get_elem? tls.caches i) >>= λ cache. elim cache [
  | [] ↦ result tls
  | buf ∷ rest ↦
      let tls' = record tls { caches = set tls.caches i rest } in
      push_code i buf >>= λ taken. if taken then spill_code batch tls' i else result tls'
]

module _ {aq : ArrayQueue} (s : State aq) where
  -- The pool as this thread sees it.
  abbrev pub alone : TlsState → World aq
  alone tls = record { state = s; tls = tls; serial = 0; locks = [] }

  unfoldable pub note_code : Event → Code (Unit {0})
  note_code e = if s.track_stats then add_stat e (result tt) else result tt

  unfoldable pub pin_code : Vec → Code (Unit {0})
  pin_code buf =
      if s.pinned_memory
      then (if buf.cap == 0 then result tt else lock buf (result tt))
      else result tt

  -- The `TlsState::with` closure of `alloc` and `alloc_uninit`.
  unfoldable pub take_pooled_code : ℕ → TlsState → Code (Option (Vec × Bool) × TlsState)
  unfolding refill_code
  take_pooled_code i tls =
      let mine = claim (alone tls) in
      locally (get_elem? mine.caches i) >>= λ cache. elim cache [
        | buf ∷ rest ↦ result (some (buf, true), record mine { caches = set mine.caches i rest })
        | [] ↦ refill_code mine i s.batch_size >>= λ r.
            result (Option.map (λ buf. (buf, false)) r.0, r.1)
      ]

  unfoldable pub note_hit_code : Bool → Code (Unit {0})
  unfolding note_code
  note_hit_code from_tls = if from_tls then note_code tls_hit else note_code shared_hit

  -- The rest of `alloc` after the closure.
  unfoldable pub alloc_found_code :
      ℕ → ℕ → SizeClass aq → Option (Vec × Bool) → TlsState → Code ((Vec × ℕ) × TlsState)
  unfolding note_code pin_code note_hit_code
  alloc_found_code size i class (some (buf, from_tls)) tls = do
    note_hit_code from_tls
    buf' ← locally (resize_zeroed buf size)
    result ((buf', i % 2 ^ 8), tls)
  alloc_found_code size i class none tls = do
    note_code allocation
    buf ← call_allocator class.class_size result
    pin_code (truncate buf size)
    result ((truncate buf size, i % 2 ^ 8), tls)

  -- The vector and the class index of the guard, and the thread's state after the call.
  unfoldable pub alloc_code : ℕ → TlsState → Code ((Vec × ℕ) × TlsState)
  unfolding note_code pin_code take_pooled_code alloc_found_code
  alloc_code size tls = do
    note_code get
    routed ← locally (ClassTable.route s.table size)
    elim routed [
      | none ↦ do
        note_code oversized
        note_code allocation
        buf ← call_allocator size result
        pin_code (truncate buf size)
        result ((truncate buf size, 255), tls)
      | some (i, class) ↦ do r ← take_pooled_code i tls; alloc_found_code size i class r.0 r.1
    ]

  -- The rest of `alloc_uninit` after the closure.
  unfoldable pub alloc_uninit_found_code :
      ℕ → ℕ → SizeClass aq → Option (Vec × Bool) → TlsState → Code ((Vec × ℕ) × TlsState)
  unfolding note_code pin_code note_hit_code
  alloc_uninit_found_code size i class (some (buf, from_tls)) tls = do
    note_hit_code from_tls
    buf' ← locally (resize_uninit buf size)
    result ((buf', i % 2 ^ 8), tls)
  alloc_uninit_found_code size i class none tls = do
    note_code allocation
    raw ← call_vec class.class_size result
    buf ← locally (resize_uninit raw size)
    pin_code buf
    result ((buf, i % 2 ^ 8), tls)

  unfoldable pub alloc_uninit_code : ℕ → TlsState → Code ((Vec × ℕ) × TlsState)
  unfolding note_code pin_code take_pooled_code alloc_uninit_found_code
  alloc_uninit_code size tls = do
    note_code get
    routed ← locally (ClassTable.route s.table size)
    elim routed [
      | none ↦ do
        note_code oversized
        note_code allocation
        raw ← call_vec size result
        buf ← locally (resize_uninit raw size)
        pin_code buf
        result ((buf, 255), tls)
      | some (i, class) ↦ do
        r ← take_pooled_code i tls
        alloc_uninit_found_code size i class r.0 r.1
    ]

  unfoldable pub make_room_code : ℕ → TlsState → Code TlsState
  unfolding spill_code
  make_room_code i tls = locally (get_elem? tls.caches i) >>= λ cache.
      if leb tls.limit (length cache) then spill_code s.batch_size tls i else result tls

  -- The `TlsState::with` closure of `dealloc`, and the push of what overflows.
  unfoldable pub keep_code : ℕ → Vec → TlsState → Code TlsState
  unfolding make_room_code push_code
  keep_code i buf tls = do
    class ← locally (ClassTable.index s.table i)
    tls' ← make_room_code i (claim (alone tls))
    cache ← locally (get_elem? tls'.caches i)
    if ltb (length cache) tls'.limit
        then locally (push_cache tls' i buf)
        else (push_code i buf >>= λ taken. result tls')

  unfoldable pub dealloc_code : Vec → ℕ → TlsState → Code TlsState
  unfolding note_code pin_code keep_code
  dealloc_code v hint tls = do
    note_code put
    let buf = clear v
    if hint == 255
        then (note_code discard >> result tls)
        else (if ltb buf.cap s.min_buffer_size
            then (note_code discard >> result tls)
            else (locally (pick_class buf.cap hint (alone tls)) >>= λ picked. elim picked [
              | none ↦ result tls
              | some i ↦ pin_code buf >> keep_code i buf tls
            ]))

  unfoldable pub warm_loop_code : ℕ → ℕ → SizeClass aq → Code (Unit {0})
  unfolding pin_code push_code
  warm_loop_code zero i class = result tt
  warm_loop_code (suc count) i class = do
    buf ← call_allocator class.class_size result
    pin_code buf
    taken ← push_code i buf
    if taken then warm_loop_code count i class else result tt

  unfoldable pub warm_code : ℕ → ℕ → Code (Unit {0})
  unfolding warm_loop_code
  warm_code count size = locally (ClassTable.route s.table size) >>= λ routed. elim routed [
    | none ↦ result tt
    | some (i, class) ↦ warm_loop_code count i class
  ]
