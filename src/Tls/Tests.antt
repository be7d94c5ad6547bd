-- ===== src/Tls/Tests.antt =====
-- A thread with one buffer in its first cache, at a full class.
use zeropool.Base.{◌≡◌, refl, ◌⊎◌, List, [], ◌∷◌, none, some, set, take, drop, stack}
use zeropool.Vec.{Vec}
use zeropool.ArrayQueue.Slots.{slots}
use zeropool.SizeClass.{SizeClass}
use zeropool.SizeClass.Laws.{held, ClassOk}
use zeropool.SizeClass.Sample.{blank, blank-Serves, stocked, stocked-ClassOk}
use zeropool.Tls.{TlsState, refill}
use zeropool.Tls.Refill.{refill-take}
use zeropool.Tls.Spill.{Spilled, spill_lem}

abbrev thread : TlsState
thread = record {
  pool_id = 1;
  caches = (blank 9 ∷ []) ∷ [] ∷ [] ∷ [] ∷ [] ∷ [] ∷ [] ∷ [] ∷ [];
  limit = 1;
}

refill-take_example :
    ((held stocked ≡ []) × (refill thread 0 stocked 2 ≡ some (none, thread, stocked)))
    ⊎ ((first : Vec) × (rest : List Vec) × (class' : SizeClass slots) × (held stocked
          ≡ first ∷ rest)
        × (refill thread 0 stocked 2
            ≡ some (
              some first,
              record thread { caches = set thread.caches 0 (stack (take 1 rest) (blank 9 ∷ [])) },
              class',
            ))
        × (held class' ≡ drop 1 rest)
        × ClassOk 4096 class')
refill-take_example = refill-take 4096 0 2 thread (blank 9 ∷ []) stocked refl stocked-ClassOk

spill_lem_example : Spilled 4096 0 1 thread (blank 9 ∷ []) stocked
spill_lem_example =
    spill_lem 4096 0 1 thread (blank 9 ∷ []) stocked refl (blank-Serves 9, tt) stocked-ClassOk
