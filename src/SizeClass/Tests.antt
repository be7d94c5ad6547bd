-- ===== src/SizeClass/Tests.antt =====
-- The loop of `clear` on a full class.
use zeropool.Base.{◌≡◌, [], some}
use zeropool.ArrayQueue.Slots.{slots}
use zeropool.SizeClass.{SizeClass, clear}
use zeropool.SizeClass.Laws.{held, ClassOk}
use zeropool.SizeClass.Drain.{clear-ClassOk}
use zeropool.SizeClass.Sample.{stocked, stocked-ClassOk}

clear-ClassOk_example :
    (d : SizeClass slots) × (clear stocked ≡ some d) × ClassOk 4096 d × (held d ≡ [])
clear-ClassOk_example = clear-ClassOk 4096 stocked stocked-ClassOk
