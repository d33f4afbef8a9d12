-- ===== src/Avl/Tests.antt =====
-- kernel/pc/avl.c at small trees.
use huge_pie.Base.{ℤ, pos, ◌≡◌, refl, true, some, Returns, ◌>>=◌, cmp_int, lt, ◌+◌, ◌≤◌, arith}
use huge_pie.Avl.{
  Element, Tree, null, node, compare, height, create_node, right_right_rotation, settle_right,
  minimum, insert, search, delete_node, delete, key_of,
}
use huge_pie.Avl.Sorted.{IsSorted, Above, erase, lookup}
use huge_pie.Avl.Heights.{IsHeighted, to_list, Holds, Held}
use huge_pie.Avl.Insert.{insert-Holds, insert_lem, added}
use huge_pie.Avl.Search.{search_lem}
use huge_pie.Avl.Delete.{delete_lem}
use huge_pie.Avl.Balance.{IsBalanced, insert-IsBalanced, insert_unbalanced}

abbrev key : (n : ℤ) → Element
key n = record { value = n; p = 0 }

abbrev one : Tree
one = node (key (pos 1)) 1 null null

abbrev three : Tree
three = node (key (pos 3)) 1 null null

-- 1, 2 and 3, with 2 at the root.
abbrev sample : Tree
sample = node (key (pos 2)) 2 one three

sample-IsHeighted : IsHeighted sample
sample-IsHeighted = omega arith

sample-IsSorted : IsSorted (to_list sample)
unfolding compare cmp_int
sample-IsSorted = ((refl, (refl, tt)), ((refl, tt), (tt, tt)))

-- The third key in ascending order makes the tree turn.
ascending :
    (do
      a ← insert true null (key (pos 1))
      b ← insert true a (key (pos 2))
      insert true b (key (pos 3)))
    ≡ some sample
unfolding insert create_node settle_right right_right_rotation compare cmp_int
ascending = refl

delete_root : delete sample (key (pos 2)) ≡ some (node (key (pos 3)) 2 one null)
unfolding delete delete_node search minimum compare cmp_int
delete_root = refl

insert-Holds_example :
    Returns (Holds (added true (key (pos 5)) (to_list sample))) (insert true sample (key (pos 5)))
insert-Holds_example = insert-Holds true sample (key (pos 5)) sample-IsHeighted sample-IsSorted

insert_lem_example :
    Returns (Held (added true (key (pos 5)) (to_list sample))) (insert true sample (key (pos 5)))
insert_lem_example = insert_lem true sample (key (pos 5)) (omega arith) sample-IsSorted

search_lem_example : key_of (search sample (key (pos 3))) ≡ lookup (key (pos 3)) (to_list sample)
search_lem_example = search_lem sample (key (pos 3)) sample-IsSorted

delete_lem_example :
    Returns (Held (erase (key (pos 2)) (to_list sample))) (delete sample (key (pos 2)))
delete_lem_example = delete_lem sample (key (pos 2)) (omega arith) sample-IsSorted

Above-sample : Above (key (pos 5)) (to_list sample)
unfolding compare cmp_int
Above-sample = (refl, (refl, (refl, tt)))

insert-IsBalanced_example :
    Returns
      (λ t'.
        IsHeighted t'
        × IsBalanced t'
        × (height sample ≤ height t')
        × (height t' ≤ height sample + 1))
      (insert true sample (key (pos 5)))
insert-IsBalanced_example =
    insert-IsBalanced true sample (key (pos 5)) sample-IsHeighted (omega arith) Above-sample

compared : (compare (key (pos 1)) (key (pos 2)) ≡ lt) × (compare (key (pos 2)) (key (pos 3)) ≡ lt)
unfolding compare cmp_int
compared = (refl, refl)

insert_unbalanced_example :
    Returns
      (λ t. ¬ IsBalanced t)
      (do
        t1 ← insert true null (key (pos 3))
        t2 ← insert true t1 (key (pos 1))
        insert true t2 (key (pos 2)))
insert_unbalanced_example =
    insert_unbalanced (key (pos 1)) (key (pos 2)) (key (pos 3)) compared.0 compared.1
