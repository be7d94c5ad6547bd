-- ===== src/Access/Bounds/Moves.antt =====
-- Bounds on the accesses of `pop` and `push` of size_class.rs and `refill` and `spill` of tls.rs.
use zeropool.Base.{ℕ, zero, suc, ◌+◌, ◌-◌, ◌*◌, arith, get_elem?}
use zeropool.Vec.{Vec}
use zeropool.Tls.{TlsState, push_cache}
use zeropool.Access.Bounds.{AtMost, AtMost-then, AtMost-locally, for_option, for_list, for_bool}
use zeropool.Access.Calls.{pop_code, push_code, refill_loop_code, refill_code, spill_code}

pop-AtMost : (i : ℕ) → AtMost 2 (pop_code i)
unfolding pop_code
pop-AtMost i = (omega arith, for_option _ tt (λ v. (omega arith, tt)))

pub push-AtMost : (i : ℕ) (v : Vec) → AtMost 2 (push_code i v)
unfolding push_code
push-AtMost i v = (omega arith, for_bool _ (omega arith, tt) tt)

refill_loop-AtMost : (n : ℕ) (tls : TlsState) (i : ℕ) → AtMost (2 * n) (refill_loop_code n tls i)
unfolding refill_loop_code
refill_loop-AtMost zero tls i = tt
refill_loop-AtMost (suc n) tls i =
    AtMost-then (2 * suc n) 2 (2 * n) (pop_code i) _ (omega arith) (pop-AtMost i) (
      for_option _ tt
        (λ v. AtMost-locally (2 * n) (push_cache tls i v) _ (λ tls'. refill_loop-AtMost n tls' i)))

pub refill-AtMost :
    (tls : TlsState) (i batch : ℕ) → AtMost (2 * (batch - 1) + 2) (refill_code tls i batch)
unfolding refill_code
refill-AtMost tls i batch =
    AtMost-then _ 2 (2 * (batch - 1)) (pop_code i) _ (omega arith) (pop-AtMost i) (
      for_option _ tt (λ v.
        AtMost-then (2 * (batch - 1)) (2 * (batch - 1)) 0 (refill_loop_code (batch - 1) tls i) _
          (omega arith) (refill_loop-AtMost (batch - 1) tls i) (λ tls'. tt)))

pub spill-AtMost :
    (batch : ℕ) (tls : TlsState) (i : ℕ) → AtMost (2 * batch) (spill_code batch tls i)
unfolding spill_code
spill-AtMost zero tls i = tt
spill-AtMost (suc batch) tls i = AtMost-locally _ (get_elem? tls.caches i) _ (
    for_list _ tt (λ v rest.
      AtMost-then (2 * suc batch) 2 (2 * batch) (push_code i v) _ (omega arith) (push-AtMost i v)
        (for_bool _ (spill-AtMost batch _ i) tt)))
