-- ===== src/Avl/Insert.antt =====
-- `avltree_insert` of kernel/pc/avl.c against insertion into a sorted list.
use huge_pie.Base.{
  ◌+◌, ◌≡◌, refl, inl, inr, Bool, true, false, List, [], ◌∷◌, ◌++◌, lt, eq, gt, arith, ◌==◌,
  if◌then◌else◌, Bool-cases, ==→eq, Returns, returns, bind, mono, Ordering-cases, ℕ,
}
use huge_pie.Avl.{
  Element, Tree, null, node, compare, height, create_node, settle_left, settle_right, insert,
}
use huge_pie.Avl.Sorted.{
  IsSorted, add, IsSorted-left, IsSorted-right, IsSorted-Above, Below-trans, Above-trans,
  Above-congr, add-append_left, add-append_right,
}
use huge_pie.Avl.Heights.{
  IsHeighted, IsRooted, to_list, Holds, Held, Held-of_Holds, update_height-Holds,
  left_left_rotation-Holds, right_right_rotation-Holds,
}

module _ (key k : Element) (h : ℕ) (l r : Tree) (hl : IsHeighted l) (hr : IsHeighted r) where
  settle_left-Holds :
      compare key k ≡ lt → Returns (Holds (to_list l ++ k ∷ to_list r)) (settle_left key k h l r)
  unfolding settle_left
  settle_left-Holds c = elim (Bool-cases (height l == height r + 2)) [
    | inl e ↦
        rw (e, c, settle_left)
          (bind (left_left_rotation-Holds k h l r (omega (arith, ==→eq _ _ e)) hl hr)
            λ t v. returns (update_height-Holds _ t (Held-of_Holds _ t v.0)))
    | inr e ↦ rw e (returns (update_height-Holds _ (node k h l r) ((hl, hr), refl)))
  ]

  settle_right-Holds :
      compare key k ≡ gt → Returns (Holds (to_list l ++ k ∷ to_list r)) (settle_right key k h l r)
  unfolding settle_right
  settle_right-Holds c = elim (Bool-cases (height r == height l + 2)) [
    | inl e ↦
        rw (e, c)
          (bind (right_right_rotation-Holds k h l r (omega (arith, ==→eq _ _ e)) hl hr)
            λ t v. returns (update_height-Holds _ t (Held-of_Holds _ t v.0)))
    | inr e ↦ rw e (returns (update_height-Holds _ (node k h l r) ((hl, hr), refl)))
  ]

-- The keys after an insertion: nothing is added where no memory is found.
abbrev pub added : Bool → Element → List Element → List Element
added mem key xs = if mem then add key xs else xs

added-left :
    (mem : Bool) (key k : Element) (xs ys : List Element)
    → IsSorted (xs ++ k ∷ ys)
    → compare key k ≡ lt
    → added mem key (xs ++ k ∷ ys) ≡ added mem key xs ++ k ∷ ys
added-left false key k xs ys s c = refl
added-left true key k xs ys s c =
    add-append_left key xs (k ∷ ys) (c, Below-trans key k ys c (IsSorted-right xs ys k s).0)

added-right :
    (mem : Bool) (key k : Element) (xs ys : List Element)
    → IsSorted (xs ++ k ∷ ys)
    → compare key k ≡ gt
    → added mem key (xs ++ k ∷ ys) ≡ xs ++ k ∷ added mem key ys
added-right false key k xs ys s c = refl
added-right true key k xs ys s c =
    rw (add-append_right key xs (k ∷ ys) (Above-trans key k xs c (IsSorted-Above xs ys k s)))
      (unfold add in rw (c, add))

added-here :
    (mem : Bool) (key k : Element) (xs ys : List Element)
    → IsSorted (xs ++ k ∷ ys)
    → compare key k ≡ eq
    → added mem key (xs ++ k ∷ ys) ≡ xs ++ k ∷ ys
added-here false key k xs ys s c = refl
added-here true key k xs ys s c =
    rw (add-append_right key xs (k ∷ ys) (Above-congr key k xs c (IsSorted-Above xs ys k s)))
      (unfold add in rw (c, add))

insert_null-Holds :
    (mem : Bool) (key : Element) → Returns (Holds (added mem key [])) (insert mem null key)
unfolding insert create_node add
insert_null-Holds false key = returns (tt, refl)
insert_null-Holds true key = returns ((omega arith, tt, tt), refl)

-- `avltree_insert` never follows a null pointer. The tree that it returns has right heights, and
-- its keys are those of the given tree with the new one in its place: at an equal key, or without
-- memory, they are the same.
pub insert-Holds :
    (mem : Bool) (t : Tree) (key : Element)
    → IsHeighted t
    → IsSorted (to_list t)
    → Returns (Holds (added mem key (to_list t))) (insert mem t key)
unfolding insert
insert-Holds mem null key v s = insert_null-Holds mem key
insert-Holds mem (node k h l r) key v s = elim (Ordering-cases (compare key k)) [
  | inl c ↦
      rw (c, insert)
        (bind (insert-Holds mem l key v.1 (IsSorted-left (to_list l) (to_list r) k s)) λ l' w.
          rw (added-left mem key k (to_list l) (to_list r) s c, ← w.1)
            (settle_left-Holds key k h l' r w.0 v.2 c))
  | inr (inl c) ↦
      rw (c, insert) (returns (v, rw (added-here mem key k (to_list l) (to_list r) s c)))
  | inr (inr c) ↦
      rw (c, insert)
        (bind (insert-Holds mem r key v.2 (IsSorted-right (to_list l) (to_list r) k s).1) λ r' w.
          rw (added-right mem key k (to_list l) (to_list r) s c, ← w.1)
            (settle_right-Holds key k h l r' v.1 w.0 c))
]

-- From a tree whose keys ascend and whose heights below the root are right (the root may have any, as
-- the one of `Init_pid`), `avltree_insert` never follows a null pointer, and the tree that it returns
-- is such a tree again and holds the keys of the given one with the new key in its place, which is
-- left out where there is no memory for it.
pub insert_lem :
    (mem : Bool) (t : Tree) (key : Element)
    → IsRooted t
    → IsSorted (to_list t)
    → Returns (Held (added mem key (to_list t))) (insert mem t key)
unfolding insert
insert_lem mem null key v s = mono (insert_null-Holds mem key) (λ t w. Held-of_Holds _ t w)
insert_lem mem (node k h l r) key v s = elim (Ordering-cases (compare key k)) [
  | inl c ↦
      rw (c, insert)
        (bind (insert-Holds mem l key v.0 (IsSorted-left (to_list l) (to_list r) k s)) λ l' w.
          rw (added-left mem key k (to_list l) (to_list r) s c, ← w.1)
            (mono (settle_left-Holds key k h l' r w.0 v.1 c) (λ t. Held-of_Holds _ t)))
  | inr (inl c) ↦
      rw (c, insert) (returns (v, rw (added-here mem key k (to_list l) (to_list r) s c)))
  | inr (inr c) ↦
      rw (c, insert)
        (bind (insert-Holds mem r key v.1 (IsSorted-right (to_list l) (to_list r) k s).1) λ r' w.
          rw (added-right mem key k (to_list l) (to_list r) s c, ← w.1)
            (mono (settle_right-Holds key k h l r' v.0 w.0 c) (λ t. Held-of_Holds _ t)))
]
