-- ===== src/Sort.antt =====
-- parallel-sort/mergesort.c: the serial sorts and merges and the split point of the parallel merge.
-- An array is a function of its index; its elements have the int key, as its 32-bit pattern, and the
-- rest of the bytes.
pub mod Weight
pub mod Insertion
pub mod Split
mod Tests
use os_projects.Base.{
  ℕ, zero, suc, ◌+◌, ◌-◌, ◌*◌, ◌/◌, ◌%◌, ◌^◌, Bool, true, false, ◌&&◌, not, ◌==◌, ltb, leb,
  if◌then◌else◌, update,
}

pub record Elem : Type 0 where
  pub key : ℕ
  pub rest : ℕ

abbrev pub Array : Type 0
Array = ℕ → Elem

-- `compare_elem`, by wrapping subtraction of the ints
pub compare_elem : Elem → Elem → ℕ
compare_elem a b = (a.key + 2 ^ 32 - b.key) % 2 ^ 32

-- `compare_elem(a, b) > 0`
abbrev pub greater : Elem → Elem → Bool
greater a b = not (compare_elem a b == 0) && ltb (compare_elem a b) (2 ^ 31)

-- The inner loop of `insertion_sort`, which looks at `arr[j]` next if `k` is `j + 1`.
pub shift : ℕ → Elem → Array → Array
shift zero temp arr = update arr 0 temp
shift (suc j) temp arr =
    let rest = shift j temp (update arr (suc j) (arr j)) in
    if greater (arr j) temp then rest else update arr (suc j) temp

-- `k` rounds of the outer loop, from `i` on.
pub insert_from : ℕ → ℕ → Array → Array
insert_from zero i arr = arr
insert_from (suc k) i arr = insert_from k (i + 1) (shift i (arr i) arr)

pub insertion_sort : Array → ℕ → Array
insertion_sort arr n = insert_from (n - 1) 1 arr

-- The loops that copy what is left: `k` elements of `src` from `i` on to `dst` from `o` on.
pub copy_rest : ℕ → Array → ℕ → Array → ℕ → Array
copy_rest zero dst o src i = dst
copy_rest (suc k) dst o src i = copy_rest k (update dst o (src i)) (o + 1) src (i + 1)

-- The three loops of a merge of `a` elements of `left` from `i` on and `b` elements of `right` from
-- `j` on, to `dst` from `o` on. `fuel` counts the rounds of the first loop.
pub merge_loop : ℕ → ℕ → ℕ → Array → ℕ → Array → ℕ → Array → ℕ → Array
merge_loop zero a b dst o left i right j = dst
merge_loop (suc fuel) zero b dst o left i right j = copy_rest b dst o right j
merge_loop (suc fuel) (suc a) zero dst o left i right j = copy_rest (suc a) dst o left i
merge_loop (suc fuel) (suc a) (suc b) dst o left i right j =
    let from_right =
      merge_loop fuel (suc a) b (update dst o (right j)) (o + 1) left i right (j + 1) in
    let from_left =
      merge_loop fuel a (suc b) (update dst o (left i)) (o + 1) left (i + 1) right j in
    if greater (left i) (right j) then from_right else from_left

-- `merge_serial`: `L` and `R` are copies of the two parts. Each round takes an element, so that as
-- many rounds as elements, and one for the end, are enough.
pub merge_serial : Array → ℕ → ℕ → ℕ → Array
merge_serial arr p q r =
    let n1 = q + 1 - p in
    let n2 = r - q in
    let left = copy_rest n1 arr 0 arr p in
    let right = copy_rest n2 arr 0 arr (q + 1) in
    merge_loop (n1 + n2 + 1) n1 n2 arr p left 0 right 0

-- `merge_serial_2`, from `arr` to `b`.
pub merge_serial_2 : Array → ℕ → ℕ → ℕ → ℕ → Array → ℕ → Array
merge_serial_2 arr l1 r1 l2 r2 b start =
    let n1 = r1 + 1 - l1 in
    let n2 = r2 + 1 - l2 in merge_loop (n1 + n2 + 1) n1 n2 b start arr l1 arr l2

-- `merge_sort_serial`; each call halves the part, so its length is fuel enough.
pub sort_part : ℕ → Array → ℕ → ℕ → Array
sort_part zero arr l r = arr
sort_part (suc fuel) arr l r =
    let m = l + (r - l) / 2 in
    let sorted = merge_serial (sort_part fuel (sort_part fuel arr l m) (m + 1) r) l m r in
    if ltb l r then sorted else arr

pub merge_sort_serial : Array → ℕ → ℕ → Array
merge_sort_serial arr l r = sort_part (r + 1 - l) arr l r

-- The loop of `find_split_point`, with fuel for its rounds.
pub split_loop : ℕ → Array → ℕ → ℕ → Elem → ℕ
split_loop zero arr low high p = low
split_loop (suc fuel) arr low high p =
    let mid = low + (high - low) / 2 in
    let left = split_loop fuel arr low mid p in
    let right = split_loop fuel arr (mid + 1) high p in
    if ltb low high then (if greater p (arr mid) then right else left) else low

-- `find_split_point`; each round shrinks the range, so its length is fuel enough.
pub find_split_point : Array → ℕ → ℕ → Elem → ℕ
find_split_point arr l r p = split_loop (r + 1 - l) arr l r p

-- The inner loop of `bubble_sort_elem`: `k` rounds from `i` on.
pub bubble_from : ℕ → ℕ → Array → Array
bubble_from zero i arr = arr
bubble_from (suc k) i arr = bubble_from k (i + 1) (
    if greater (arr i) (arr (i + 1))
    then update (update arr i (arr (i + 1))) (i + 1) (arr i)
    else arr)

-- The outer loop, with `k` rounds left: round `j` makes `n - j - 1` steps, which is `k`.
pub bubble_rounds : ℕ → Array → Array
bubble_rounds zero arr = arr
bubble_rounds (suc k) arr = bubble_rounds k (bubble_from (suc k) 0 arr)

pub bubble_sort_elem : Array → ℕ → Array
bubble_sort_elem arr n = bubble_rounds (n - 1) arr
