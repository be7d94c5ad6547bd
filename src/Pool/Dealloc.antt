-- ===== src/Pool/Dealloc.antt =====
-- `ZeroPool::dealloc` of pool.rs, whole.
pub mod Overflow
pub mod Keep
pub mod Safety
use zeropool.Base.{ℕ, Option, none, some, ◌>>=◌, if◌then◌else◌, get_elem?, leb, ltb, ◌==◌, length}
use zeropool.Vec.{Vec, clear}
use zeropool.ArrayQueue.{ArrayQueue}
use zeropool.SizeClass.{SizeClass}
use zeropool.SizeClass
use zeropool.ClassTable
use zeropool.Tls.{TlsState, spill, push_cache}
use zeropool.Stats.{put, discard}
use zeropool.Pool.{World, note, pin, claim, put_class}

module _ {aq : ArrayQueue} where
  -- The class index: the hint if the buffer still has that class's capacity, else by the capacity;
  -- the inner `none` is the early return.
  unfoldable pub pick_class : ℕ → ℕ → World aq → Option (Option ℕ)
  pick_class cap class_hint w = ClassTable.boundary class_hint >>= λ b.
      if leb b cap
      then some (some class_hint)
      else (ClassTable.route_capacity w.state.table cap >>= λ routed. elim routed [
        | none ↦ some none
        | some (idx, class) ↦ some (some idx)
      ])

  -- `if tls.caches[class_idx].len() >= tls.limit { tls.spill(…) }`
  unfoldable pub make_room : ℕ → TlsState → SizeClass aq → ℕ → Option (TlsState × SizeClass aq)
  make_room class_idx tls class batch = get_elem? tls.caches class_idx >>= λ cache.
      if leb tls.limit (length cache) then spill batch tls class_idx class else some (tls, class)

  -- A buffer that the shared class refuses is dropped: `let _ = … .push(buf)`
  unfoldable pub push_shared : ℕ → Vec → World aq → Option (World aq)
  push_shared class_idx buf w = ClassTable.index w.state.table class_idx >>= λ class.
      elim (SizeClass.push buf class) [
        | none ↦ some w
        | some class' ↦ some (record w { state = put_class class_idx class' w.state })
      ]

  -- The `TlsState::with` closure, and the push of what overflows.
  unfoldable pub keep : ℕ → Vec → World aq → Option (World aq)
  unfolding make_room push_shared
  keep class_idx buffer w =
      let tls = claim w in
      ClassTable.index w.state.table class_idx >>= λ class.
      make_room class_idx tls class w.state.batch_size >>= λ r.
      (let w' : World aq = record w { state = put_class class_idx r.1 w.state; tls = r.0 } in
        get_elem? r.0.caches class_idx >>= λ cache.
        if ltb (length cache) r.0.limit
        then (push_cache r.0 class_idx buffer >>= λ tls'. some (record w' { tls = tls' }))
        else push_shared class_idx buffer w')

  unfoldable pub dealloc : Vec → ℕ → World aq → Option (World aq)
  unfolding pick_class keep
  dealloc buf class_hint w =
      let w' = note put w in
      let buffer = clear buf in
      if class_hint == 255
      then some (note discard w')
      else (if ltb buffer.cap w'.state.min_buffer_size
          then some (note discard w')
          else (pick_class buffer.cap class_hint w' >>= λ picked. elim picked [
            | none ↦ some w'
            | some class_idx ↦ keep class_idx buffer (pin buffer w')
          ]))
