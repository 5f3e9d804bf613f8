-- ===== src/Array.antt =====
-- kernel/lib/array.c: an array of pointers kept in the order of its predicate. The cells lie in
-- memory from `array` on, eight bytes each.
pub mod Cells
pub mod Insert
pub mod Order
pub mod Remove
mod Tests
use gewodsys.Base.{ℕ, zero, suc, ◌+◌, ◌-◌, ◌*◌, ◌%◌, Bool, ltb, ◌==◌, if◌then◌else◌, word32}
use gewodsys.Rt.{Mem, load, store, zero_memory}

-- A predicate may follow its pointers, so it reads memory.
abbrev pub ArrayCompare : Type 0
ArrayCompare = ℕ → ℕ → Mem → Bool

pub record OrderedArray : Type 0 where
  pub array : ℕ
  pub size : ℕ
  pub capacity : ℕ
  pub predicate : ArrayCompare

unfoldable pub pointer_predicate : ArrayCompare
pointer_predicate a b m = ltb a b

-- `capacity` is a `uint32_t` and `capacity * sizeof(void *)` a `size_t`.
unfoldable pub create : ℕ → ℕ → ArrayCompare → Mem → OrderedArray × Mem
create address capacity predicate m = (
  record { array = address; size = 0; capacity = capacity; predicate = predicate },
  zero_memory address (capacity * 8) m,
)

-- `array->array[index]`
unfoldable pub get : OrderedArray → ℕ → Mem → ℕ
get a index m = load 8 (a.array + 8 * index) m

unfoldable pub set_cell : OrderedArray → ℕ → ℕ → Mem → Mem
set_cell a index item m = store 8 (a.array + 8 * index) item m

-- The loop that looks for the place, with the rounds left up to `size`.
unfoldable pub scan : OrderedArray → ℕ → Mem → ℕ → ℕ → ℕ
scan a item m zero iterator = iterator
scan a item m (suc n) iterator =
    let rest = scan a item m n (iterator + 1) in
    if a.predicate (get a iterator m) item m then rest else iterator

-- The loop that moves the later cells up, one round for each of them.
unfoldable pub shift_up : OrderedArray → ℕ → ℕ → ℕ → Mem → Mem
shift_up a zero iterator tmp m = m
shift_up a (suc n) iterator tmp m =
    shift_up a n (iterator + 1) (get a (iterator + 1) m) (set_cell a (iterator + 1) tmp m)

unfoldable pub insert_at : OrderedArray → ℕ → ℕ → Mem → Mem
unfolding shift_up set_cell get
insert_at a item iterator m =
    if iterator == a.size
    then set_cell a a.size item m
    else shift_up a (a.size - iterator) iterator (get a iterator m) (set_cell a iterator item m)

-- `size++` wraps as a `uint32_t`. The capacity is not looked at.
unfoldable pub insert : OrderedArray → ℕ → Mem → OrderedArray × Mem
unfolding scan insert_at
insert a item m =
    (record a { size = (a.size + 1) % word32 }, insert_at a item (scan a item m a.size 0) m)

unfoldable pub shift_down : OrderedArray → ℕ → ℕ → Mem → Mem
shift_down a zero index m = m
shift_down a (suc n) index m = shift_down a n (index + 1) (set_cell a index (get a (index + 1) m) m)

-- The loop makes no round where `index` is not below `size`; `size--` wraps.
unfoldable pub remove : OrderedArray → ℕ → Mem → OrderedArray × Mem
unfolding shift_down set_cell get
remove a index m =
    (record a { size = (a.size + word32 - 1) % word32 }, shift_down a (a.size - index) index m)
