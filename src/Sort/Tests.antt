-- ===== src/Sort/Tests.antt =====
-- Runs of the sorts, and their theorems at concrete arrays.
use os_projects.Base.{◌≡◌, refl, ◌==◌, if◌then◌else◌, arith}
use os_projects.Sort.{
  Array, compare_elem, insertion_sort, copy_rest, merge_loop, merge_serial, sort_part,
  merge_sort_serial, bubble_from, bubble_rounds, bubble_sort_elem,
}
use os_projects.Sort.Weight.{SameElems}
use os_projects.Sort.Insertion.{IsSorted, insertion_sort_lem}
use os_projects.Sort.Split.{IsPart}

-- 3, 1, 2, then zeros
abbrev mixed : Array
mixed i = record {
  key = if i == 0 then 3 else if i == 1 then 1 else if i == 2 then 2 else 0;
  rest = 0;
}

abbrev rising : Array
rising i = record {
  key = if i == 0 then 1 else if i == 1 then 2 else if i == 2 then 3 else 0;
  rest = 0;
}

merge_sort_runs : ((merge_sort_serial mixed 0 2) 2).key ≡ 3
unfolding merge_sort_serial sort_part merge_serial merge_loop copy_rest compare_elem
merge_sort_runs = refl

bubble_sort_runs : ((bubble_sort_elem mixed 3) 1).key ≡ 2
unfolding bubble_sort_elem bubble_rounds bubble_from compare_elem
bubble_sort_runs = refl

insertion_sort_lem_example :
    IsSorted 3 (insertion_sort mixed 3) × SameElems 3 (insertion_sort mixed 3) mixed
insertion_sort_lem_example = insertion_sort_lem 3 mixed (λ i h. ground arith)

rising-IsPart : IsPart rising 0 2
rising-IsPart = record { sorted = λ i j a b c. ground arith; small = λ i a b. ground arith }
