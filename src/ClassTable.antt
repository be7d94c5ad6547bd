-- ===== src/ClassTable.antt =====
-- size_class.rs, `ClassTable`: one class per boundary, found by routing. `none` is a panic.
pub mod Laws
use zeropool.Base.{
  ℕ, ◌+◌, ◌^◌, Bool, true, ◌&&◌, List, [], ◌∷◌, Option, none, some, ◌>>=◌, ◌>>◌, assert, get_elem?,
  ltb,
}
use zeropool.ArrayQueue.{ArrayQueue}
use zeropool.SizeClass.{SizeClass}
use zeropool.SizeClass
use zeropool.Route.{class_sizes}
use zeropool.Route

pub record ClassTable (aq : ArrayQueue) : Type 0 where
  pub classes : List (SizeClass aq)

-- `ClassTable::boundary`
unfoldable pub boundary : ℕ → Option ℕ
boundary class_idx = get_elem? class_sizes class_idx

module _ {aq : ArrayQueue} where
  unfoldable pub build : List ℕ → ℕ → Option (List (SizeClass aq))
  build [] max_buffers_per_class = some []
  build (size ∷ sizes) max_buffers_per_class = do
    class ← SizeClass.new size max_buffers_per_class
    classes ← build sizes max_buffers_per_class
    some (class ∷ classes)

  unfoldable pub new : ℕ → Option (ClassTable aq)
  unfolding build
  new max_buffers_per_class = do
    classes ← build class_sizes max_buffers_per_class
    some (record { classes = classes })

  -- The inner option is the function's own result.
  unfoldable pub route : ClassTable aq → ℕ → Option (Option (ℕ × SizeClass aq))
  route t size = elim (Route.route_size size) [
    | none ↦ some none
    | some idx ↦ get_elem? t.classes idx >>= λ class. some (some (idx, class))
  ]

  unfoldable pub route_capacity : ClassTable aq → ℕ → Option (Option (ℕ × SizeClass aq))
  route_capacity t capacity = elim (Route.route_capacity capacity) [
    | none ↦ some none
    | some idx ↦ get_elem? t.classes idx >>= λ class. some (some (idx, class))
  ]

  -- `Index::index`
  unfoldable pub index : ClassTable aq → ℕ → Option (SizeClass aq)
  index t idx = get_elem? t.classes idx

  -- The debug build panics where the sum overflows.
  unfoldable pub sum_lens : List (SizeClass aq) → Option ℕ
  sum_lens [] = some 0
  sum_lens (class ∷ classes) = do
    rest ← sum_lens classes
    assert (ltb (SizeClass.len class + rest) (2 ^ 64))
    some (SizeClass.len class + rest)

  unfoldable pub total_buffered : ClassTable aq → Option ℕ
  unfolding sum_lens
  total_buffered t = sum_lens t.classes

  unfoldable pub every_empty : List (SizeClass aq) → Bool
  every_empty [] = true
  every_empty (class ∷ classes) = SizeClass.is_empty class && every_empty classes

  unfoldable pub all_empty : ClassTable aq → Bool
  unfolding every_empty
  all_empty t = every_empty t.classes

  unfoldable pub clear_each : List (SizeClass aq) → Option (List (SizeClass aq))
  clear_each [] = some []
  clear_each (class ∷ classes) = do
    class' ← SizeClass.clear class
    classes' ← clear_each classes
    some (class' ∷ classes')

  unfoldable pub clear_all : ClassTable aq → Option (ClassTable aq)
  unfolding clear_each
  clear_all t = do classes ← clear_each t.classes; some (record { classes = classes })
