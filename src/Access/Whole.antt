-- ===== src/Access/Whole.antt =====
-- A call that no other thread interrupts, access by access: its parts in sequence, and what each access of
-- a class leaves.
pub mod Moves
pub mod Calls
pub mod Keep
pub mod Guards
pub mod Alloc
pub mod Uninit
pub mod Warm
pub mod Equal
pub mod Dealloc
use zeropool.Base.{
  ℕ, ◌≡◌, refl, ap, ◌∙◌, true, false, Option, none, some, inl, inr, Option-cases, get_elem?,
  set-set, set_self, get_elem?-set_self, arith, ◌∷◌, if◌then◌else◌, ◌==◌,
}
use zeropool.Vec.{Heap, Vec, with_capacity}
use zeropool.ArrayQueue.{ArrayQueue}
use zeropool.SizeClass.{SizeClass, fetch_add, fetch_sub}
use zeropool.SizeClass
use zeropool.Stats.{Event}
use zeropool.Stats
use zeropool.Pool.{State, World, put_class, note, pin}
use zeropool.Tls.{TlsState}
use zeropool.Access.{
  Code, result, panic, pop_queue, push_queue, add_count, sub_count, add_stat, call_allocator,
  call_vec, lock, ◌>>=◌, Shared, put, pop_at, push_at, count_at, stat_at, run,
}
use zeropool.Access.Calls.{pop_code, push_code, note_code, pin_code}

-- How a run goes on after a part of it.
abbrev pub go_on : {S A B : Type 0} → Option (A × S) → (A → S → Option (B × S)) → Option (B × S)
go_on none f = none
go_on (some (a, s)) f = f a s

module _ {aq : ArrayQueue} where
  pub put-put : (i : ℕ) (a b : SizeClass aq) (s : Shared aq) → put i b (put i a s) ≡ put i b s
  unfolding put_class
  put-put i a b s =
      ap (λ cs. record s { state = record s.state { table = record { classes = cs } } })
        (set-set s.state.table.classes i a b)

  pub put_self :
      (i : ℕ) (class : SizeClass aq) (s : Shared aq)
      → get_elem? s.state.table.classes i ≡ some class
      → put i class s ≡ s
  unfolding put_class
  put_self i class s e =
      ap (λ cs. record s { state = record s.state { table = record { classes = cs } } })
        (set_self s.state.table.classes i class e)

  pub get-put :
      (i : ℕ) (old class : SizeClass aq) (s : Shared aq)
      → get_elem? s.state.table.classes i ≡ some old
      → get_elem? (put i class s).state.table.classes i ≡ some class
  unfolding put_class
  get-put i old class s e = get_elem?-set_self s.state.table.classes i old class e

  -- What a counted event and a pinned buffer leave.
  abbrev pub noted : Event → Shared aq → Shared aq
  noted e s = record s {
    state = record s.state {
      counters = if s.state.track_stats then Stats.count e s.state.counters else s.state.counters;
    };
  }

  abbrev pub pinned : Vec → Shared aq → Shared aq
  pinned buf s = record s {
    locks =
        if s.state.pinned_memory
        then (if buf.cap == 0 then s.locks else (buf.ptr, buf.cap) ∷ s.locks)
        else s.locks;
  }

  abbrev pub shared_of : World aq → Shared aq
  shared_of w = record { state = w.state; serial = w.serial; locks = w.locks }

  abbrev pub world_of : Shared aq → TlsState → World aq
  world_of s tls = record { state = s.state; tls = tls; serial = s.serial; locks = s.locks }

  pub note-world_of :
      (e : Event) (s : Shared aq) (tls : TlsState)
      → note e (world_of s tls) ≡ world_of (noted e s) tls
  unfolding note
  note-world_of e s tls = ground arith

  pub pin-world_of :
      (buf : Vec) (s : Shared aq) (tls : TlsState)
      → pin buf (world_of s tls) ≡ world_of (pinned buf s) tls
  unfolding pin
  pin-world_of buf s tls = ground arith

  module _ (heap : Heap) where
    -- In sequence: what the first part returns goes to the second, and its panic is the panic of both.
    pub run-then :
        {A B : Type 0} (m : Code A) (f : A → Code B) (s : Shared aq)
        → run heap (m >>= f) s ≡ go_on (run heap m s) (λ a t. run heap (f a) t)
    unfolding ◌>>=◌ run
    run-then (result a) f s = refl
    run-then panic f s = refl
    run-then (pop_queue i k) f s = elim (Option-cases (pop_at i s)) [
      | inl e ↦ rw (e, run)
      | inr ((o, t), e) ↦ rw (e, run) (run-then (k o) f t)
    ]
    run-then (push_queue i v k) f s = elim (Option-cases (push_at i v s)) [
      | inl e ↦ rw (e, run)
      | inr ((o, t), e) ↦ rw (e, run) (run-then (k o) f t)
    ]
    run-then (add_count i k) f s = elim (Option-cases (count_at fetch_add i s)) [
      | inl e ↦ rw (e, run)
      | inr (t, e) ↦ rw (e, run) (run-then k f t)
    ]
    run-then (sub_count i k) f s = elim (Option-cases (count_at fetch_sub i s)) [
      | inl e ↦ rw (e, run)
      | inr (t, e) ↦ rw (e, run) (run-then k f t)
    ]
    run-then (add_stat e k) f s = run-then k f (stat_at e s)
    run-then (call_allocator n k) f s =
        elim (Option-cases (s.state.allocator.allocate s.serial n)) [
          | inl e ↦ rw (e, run)
          | inr (v, e) ↦ rw (e, run) (run-then (k v) f _)
        ]
    run-then (call_vec n k) f s = elim (Option-cases (with_capacity heap s.serial n)) [
      | inl e ↦ rw (e, run)
      | inr (v, e) ↦ rw (e, run) (run-then (k v) f _)
    ]
    run-then (lock v k) f s = run-then k f _

    pub run-note_code :
        (s : Shared aq) (s0 : State aq) (e : Event)
        → s0.track_stats ≡ s.state.track_stats
        → run heap (note_code s0 e) s ≡ some (tt, noted e s)
    unfolding note_code run stat_at
    run-note_code s s0 e same = ground arith

    -- An event is counted, and the call goes on.
    pub run-noting :
        {B : Type 0} (s : Shared aq) (s0 : State aq) (e : Event) (f : Unit {0} → Code B)
        → s0.track_stats ≡ s.state.track_stats
        → run heap (note_code s0 e >>= f) s ≡ run heap (f tt) (noted e s)
    run-noting s s0 e f same =
        run-then (note_code s0 e) f s
        ∙ ap (λ o. go_on o (λ a t. run heap (f a) t)) (run-note_code s s0 e same)

    pub run-pin_code :
        (s : Shared aq) (s0 : State aq) (buf : Vec)
        → s0.pinned_memory ≡ s.state.pinned_memory
        → run heap (pin_code s0 buf) s ≡ some (tt, pinned buf s)
    unfolding pin_code run
    run-pin_code s s0 buf same = ground arith

    module _ (i : ℕ) (class : SizeClass aq) (s : Shared aq)
        (at_i : get_elem? s.state.table.classes i ≡ some class) where
      pub run-pop_code : run heap (pop_code i) s ≡ elim (SizeClass.pop class) [
        | none ↦ some (none, s)
        | some (buf, class') ↦ some (some buf, put i class' s)
      ]
      unfolding pop_code run pop_at count_at SizeClass.pop
      run-pop_code = elim (Option-cases (aq.pop class.queue)) [
        | inl e ↦ rw (run, pop_at, at_i, e)
        | inr ((buf, queue), e) ↦
            let d : SizeClass aq = record class { queue = queue } in
            rw (run, pop_at, at_i, e, count_at, get-put i class d s at_i, put-put i d _ s)
      ]

      pub run-push_code :
          (buf : Vec)
          → run heap (push_code i buf) s ≡ elim (SizeClass.push buf class) [
            | none ↦ some (false, s)
            | some class' ↦ some (true, put i class' s)
          ]
      unfolding push_code run push_at count_at SizeClass.push
      run-push_code buf = elim (Option-cases (aq.push buf class.queue)) [
        | inl e ↦ rw (run, push_at, at_i, e)
        | inr (queue, e) ↦
            let d : SizeClass aq = record class { queue = queue } in
            rw (run, push_at, at_i, e, count_at, get-put i class d s at_i, put-put i d _ s)
      ]
