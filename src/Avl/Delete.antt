-- ===== src/Avl/Delete.antt =====
-- `delete_node` and `avltree_delete` of kernel/pc/avl.c against deletion from a sorted list.
use huge_pie.Base.{
  ◌≡◌, refl, sym, ap, ◌∙◌, inl, inr, false, ◌&&◌, Option, none, some, List, [], ◌∷◌, ◌++◌, mono, eq,
  arith, ltb, if◌then◌else◌, Bool-cases, Returns, returns, bind, Ordering-cases, ℕ, append_assoc,
  append-nil, ◌>>=◌,
}
use huge_pie.Avl.{
  Element, Tree, null, node, compare, height, non_null, key_of, delete_node, search, delete,
}
use huge_pie.Avl.Sorted.{IsSorted, erase, lookup, IsSorted-left, IsSorted-right, compare_congr_left}
use huge_pie.Avl.Heights.{
  IsHeighted, IsRooted, IsRooted-of_IsHeighted, to_list, Holds, Held, Held-of_Holds,
}
use huge_pie.Avl.Search.{search_lem}
use huge_pie.Avl.Refill.{
  refill_left-Held, refill_right-Held, settle, erase-left, erase-right, erase-here,
  non_null-HasLast, non_null-HasFirst, erase-last, erase-first,
}

-- The node is replaced by the last key of its left child, or the first key of its right one.
replace_left :
    (h : ℕ) (l r : Tree) (m : Element) (rest : List Element) (o : Option Tree)
    → IsHeighted r
    → IsSorted (to_list l)
    → to_list l ≡ rest ++ m ∷ []
    → Returns (Holds (erase m (to_list l))) o
    → Returns (Held (to_list l ++ to_list r)) (o >>= λ l'. some (node m h l' r))
replace_left h l r m rest o hr s keys del = bind del λ l' v. returns (
  (v.0, hr),
  let shrunk : to_list l' ≡ rest = v.1 ∙ rw keys (erase-last m rest (rw keys at s)) in
      rw (shrunk, keys) (sym (append_assoc rest (m ∷ []) (to_list r))),
)

replace_right :
    (h : ℕ) (l r : Tree) (m : Element) (rest : List Element) (o : Option Tree)
    → IsHeighted l
    → to_list r ≡ m ∷ rest
    → Returns (Holds (erase m (to_list r))) o
    → Returns (Held (to_list l ++ to_list r)) (o >>= λ r'. some (node m h l r'))
replace_right h l r m rest o hl keys del = bind del λ r' v. returns (
  (hl, v.0),
  let shrunk : to_list r' ≡ rest = v.1 ∙ rw keys (erase-first m rest) in rw (shrunk, keys),
)

only_child :
    (l r : Tree)
    → (non_null l && non_null r) ≡ false
    → IsHeighted l
    → IsHeighted r
    → Held (to_list l ++ to_list r) (if non_null l then l else r)
only_child null r e hl hr = (IsRooted-of_IsHeighted r hr, refl)
only_child (node k h a b) null e hl hr = ((hl.1, hl.2), sym (append-nil _))
only_child (node k h a b) (node k' h' a' b') e hl hr = cc

delete_null-Holds : (z : Element) → Returns (Holds (erase z [])) (delete_node null z)
unfolding delete_node erase
delete_null-Holds z = returns (tt, refl)

-- `delete_node` never follows a null pointer. The tree that it returns has right heights, and its
-- keys are those of the given tree without the key of `z`.
pub delete_node-Holds :
    (t : Tree) (z : Element)
    → IsRooted t
    → IsSorted (to_list t)
    → Returns (Holds (erase z (to_list t))) (delete_node t z)
unfolding delete_node
delete_node-Holds null z v s = delete_null-Holds z
delete_node-Holds (node k h l r) z v s = elim (Ordering-cases (compare z k)) [
  | inl c ↦
      rw (c, delete_node, erase-left z k (to_list l) (to_list r) s c)
        (settle _ _ (
          bind (delete_node-Holds l z (IsRooted-of_IsHeighted l v.0) sl)
            λ l' w. rw (← w.1) (refill_left-Held k h l' r w.0 v.1)))
  | inr (inr c) ↦
      rw (c, delete_node, erase-right z k (to_list l) (to_list r) s c)
        (settle _ _ (
          bind (delete_node-Holds r z (IsRooted-of_IsHeighted r v.1) sr)
            λ r' w. rw (← w.1) (refill_right-Held k h l r' v.0 w.0)))
  | inr (inl c) ↦
      rw (c, delete_node, erase-here z k (to_list l) (to_list r) s c)
        (settle _ _ (elim (Bool-cases (non_null l && non_null r)) [
          | inr one ↦ rw one (returns (only_child l r one v.0 v.1))
          | inl both ↦ rw both (elim (Bool-cases (ltb (height r) (height l))) [
            | inl tall ↦
                let last = non_null-HasLast l (ground arith) in
                rw (tall, last.found)
                  (replace_left h l r last.last last.rest _ v.1 sl last.keys
                    (delete_node-Holds l last.last (IsRooted-of_IsHeighted l v.0) sl))
            | inr low ↦
                let first = non_null-HasFirst r (ground arith) in
                rw (low, first.found)
                  (replace_right h l r first.first first.rest _ v.0 first.keys
                    (delete_node-Holds r first.first (IsRooted-of_IsHeighted r v.1) sr))
          ])
        ]))
]
  where
    sl : IsSorted (to_list l)
    sl = IsSorted-left (to_list l) (to_list r) k s

    sr : IsSorted (to_list r)
    sr = (IsSorted-right (to_list l) (to_list r) k s).1

lookup-eq :
    (k : Element) (xs : List Element) (z : Element) → lookup k xs ≡ some z → compare k z ≡ eq
unfolding lookup
lookup-eq k [] z h = cc
lookup-eq k (x ∷ xs) z h = ground (arith, lookup-eq k xs z)

erase_missing : (k : Element) (xs : List Element) → lookup k xs ≡ none → erase k xs ≡ xs
unfolding lookup erase
erase_missing k [] h = refl
erase_missing k (x ∷ xs) h = ground (arith, erase_missing k xs)

erase_congr : (j k : Element) (xs : List Element) → compare j k ≡ eq → erase j xs ≡ erase k xs
unfolding erase
erase_congr j k [] h = refl
erase_congr j k (x ∷ xs) h = ground (arith, compare_congr_left j k x h, erase_congr j k xs h)

delete_found :
    (t : Tree) (key : Element) (found : Tree)
    → search t key ≡ found
    → IsRooted t
    → IsSorted (to_list t)
    → Returns (Held (erase key (to_list t))) (delete t key)
unfolding delete
delete_found t key null e v s =
    rw (e, delete)
      (returns (v, sym (erase_missing key (to_list t) (sym (search_lem t key s) ∙ ap key_of e))))
delete_found t key (node z h l r) e v s =
    rw
      (
        e,
        delete,
        erase_congr key z (to_list t)
            (lookup-eq key (to_list t) z (sym (search_lem t key s) ∙ ap key_of e)),
      )
      (mono (delete_node-Holds t z v s) (λ t' w. Held-of_Holds _ t' w))

-- From a tree whose keys ascend and whose heights below the root are right, `avltree_delete` never
-- follows a null pointer, and the tree that it returns is such a tree again and holds the keys of
-- the given one without the given key; a key that is not there changes nothing.
pub delete_lem :
    (t : Tree) (key : Element)
    → IsRooted t
    → IsSorted (to_list t)
    → Returns (Held (erase key (to_list t))) (delete t key)
delete_lem t key v s = delete_found t key (search t key) refl v s
