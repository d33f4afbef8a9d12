-- ===== src/Avl/Search.antt =====
-- `avltree_search`, `avltree_minimum` and `avltree_maximum` of kernel/pc/avl.c against the keys in
-- order.
use huge_pie.Base.{
  ◌≡◌, refl, sym, ◌∙◌, inl, inr, lt, eq, gt, Option, none, some, List, [], ◌∷◌, ◌++◌, arith,
  Ordering-cases,
}
use huge_pie.Avl.{Element, Tree, null, node, compare, key_of, search, minimum, maximum}
use huge_pie.Avl.Sorted.{
  IsSorted, IsSorted-left, IsSorted-right, IsSorted-Above, Above-trans, Above-congr, Below-trans,
  lookup, lookup-append_left, lookup-append_right, compare-eq_symm,
}
use huge_pie.Avl.Heights.{to_list}

lookup-left :
    (key k : Element) (xs ys : List Element)
    → IsSorted (xs ++ k ∷ ys)
    → compare key k ≡ lt
    → lookup key (xs ++ k ∷ ys) ≡ lookup key xs
lookup-left key k xs ys s c =
    lookup-append_left key xs (k ∷ ys) (c, Below-trans key k ys c (IsSorted-right xs ys k s).0)

lookup-right :
    (key k : Element) (xs ys : List Element)
    → IsSorted (xs ++ k ∷ ys)
    → compare key k ≡ gt
    → lookup key (xs ++ k ∷ ys) ≡ lookup key ys
lookup-right key k xs ys s c =
    rw (lookup-append_right key xs (k ∷ ys) (Above-trans key k xs c (IsSorted-Above xs ys k s)))
      (unfold lookup in rw (c, lookup))

lookup-here :
    (key k : Element) (xs ys : List Element)
    → IsSorted (xs ++ k ∷ ys)
    → compare key k ≡ eq
    → lookup key (xs ++ k ∷ ys) ≡ some k
lookup-here key k xs ys s c =
    rw (lookup-append_right key xs (k ∷ ys) (Above-congr key k xs c (IsSorted-Above xs ys k s)))
      (unfold lookup in rw (c, lookup))

-- In a tree whose keys ascend, `avltree_search` returns the node of the key that is compared equal
-- to the given one, with its data, and a null pointer exactly where there is none.
pub search_lem :
    (t : Tree) (key : Element)
    → IsSorted (to_list t)
    → key_of (search t key) ≡ lookup key (to_list t)
unfolding search
search_lem null key s = unfold lookup in refl
search_lem (node k h l r) key s = elim (Ordering-cases (compare key k)) [
  | inl c ↦ ground (
    arith,
    search_lem l key (IsSorted-left (to_list l) (to_list r) k s),
    lookup-left key k (to_list l) (to_list r) s c,
    compare-eq_symm k key,
  )
  | inr (inl c) ↦
      ground (arith, lookup-here key k (to_list l) (to_list r) s c, compare-eq_symm key k)
  | inr (inr c) ↦ ground (
    arith,
    search_lem r key (IsSorted-right (to_list l) (to_list r) k s).1,
    lookup-right key k (to_list l) (to_list r) s c,
    compare-eq_symm k key,
  )
]

-- The first and the last key.
abbrev pub first? : List Element → Option Element
first? [] = none
first? (x ∷ xs) = some x

abbrev pub last? : List Element → Option Element
last? [] = none
last? (x ∷ []) = some x
last? (x ∷ y ∷ ys) = last? (y ∷ ys)

first?-append :
    (xs ys zs : List Element) (k : Element) → first? ((xs ++ k ∷ ys) ++ zs) ≡ first? (xs ++ k ∷ ys)
first?-append [] ys zs k = refl
first?-append (x ∷ xs) ys zs k = refl

last?-append : (xs ys : List Element) (k : Element) → last? (xs ++ k ∷ ys) ≡ last? (k ∷ ys)
last?-append [] ys k = refl
last?-append (x ∷ []) ys k = refl
last?-append (x ∷ y ∷ xs) ys k = last?-append (y ∷ xs) ys k

-- `avltree_minimum` leads to the first key in order.
pub minimum_lem : (t : Tree) → key_of (minimum t) ≡ first? (to_list t)
unfolding minimum
minimum_lem null = refl
minimum_lem (node k h null r) = refl
minimum_lem (node k h (node lk lh ll lr) r) =
    minimum_lem (node lk lh ll lr)
    ∙ sym (first?-append (to_list ll) (to_list lr) (k ∷ to_list r) lk)

last?-skip :
    (xs ys zs : List Element) (k m : Element)
    → last? (xs ++ k ∷ (ys ++ m ∷ zs)) ≡ last? (ys ++ m ∷ zs)
last?-skip xs ys zs k m =
    last?-append xs (ys ++ m ∷ zs) k ∙ (last?-append (k ∷ ys) zs m ∙ sym (last?-append ys zs m))

-- `avltree_maximum` leads to the last key in order.
pub maximum_lem : (t : Tree) → key_of (maximum t) ≡ last? (to_list t)
unfolding maximum
maximum_lem null = refl
maximum_lem (node k h l null) = sym (last?-append (to_list l) [] k)
maximum_lem (node k h l (node rk rh rl rr)) =
    maximum_lem (node rk rh rl rr) ∙ sym (last?-skip (to_list l) (to_list rl) (to_list rr) k rk)
