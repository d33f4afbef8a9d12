-- ===== src/Avl.antt =====
-- kernel/pc/avl.c and include/zjunix/avl.h: the AVL tree that keeps process ids and mailboxes.
-- A node is owned by one parent, so a tree is a value and a function that relinks nodes returns the
-- new tree. `none` is a use of a null pointer.

pub mod Heights
pub mod Insert
pub mod Balance
pub mod Refill
pub mod Delete
pub mod Search
pub mod Sorted
mod Tests
use huge_pie.Base.{
  ℕ, ◌+◌, ℤ, max, Ordering, lt, eq, gt, Bool, true, false, ◌&&◌, Option, none, some, ltb, ◌==◌,
  if◌then◌else◌, ◌>>=◌, cmp_int,
}

-- `struct Element`: a key with the address of its data.
pub record Element : Type 0 where
  pub value : ℤ
  pub p : ℕ

-- `struct AVLTreeNode`, or a null pointer.
pub data Tree : Type 0 where
  null : Tree
  node : (key : Element) (height : ℕ) (left right : Tree) → Tree

unfoldable pub compare : Element → Element → Ordering
compare x y = cmp_int x.value y.value

-- `HEIGHT(p)`.
abbrev pub height : Tree → ℕ
height null = 0
height (node k h l r) = h

abbrev pub non_null : Tree → Bool
non_null null = false
non_null (node k h l r) = true

-- The key that a pointer leads to; `none` for a null pointer.
abbrev pub key_of : Tree → Option Element
key_of null = none
key_of (node k h l r) = some k

-- `mem` tells whether `kmalloc` finds memory.
unfoldable pub create_node : Bool → Element → Tree → Tree → Tree
create_node mem key left right = if mem then node key 0 left right else null

-- `if (tree != NULL) tree->height = MAX(HEIGHT(tree->left), HEIGHT(tree->right)) + 1;`
abbrev pub update_height : Tree → Tree
update_height null = null
update_height (node k h l r) = node k (max (height l) (height r) + 1) l r

unfoldable pub left_left_rotation : Tree → Option Tree
left_left_rotation (node k2 h2 (node k1 h1 a b) c) =
    let t2 = node k2 (max (height b) (height c) + 1) b c in
    some (node k1 (max (height a) (height t2) + 1) a t2)
left_left_rotation t = none

unfoldable pub right_right_rotation : Tree → Option Tree
right_right_rotation (node k1 h1 a (node k2 h2 b c)) =
    let t1 = node k1 (max (height a) (height b) + 1) a b in
    some (node k2 (max (height c) (height t1) + 1) t1 c)
right_right_rotation t = none

unfoldable pub left_right_rotation : Tree → Option Tree
left_right_rotation null = none
left_right_rotation (node k3 h l r) = do
  l' ← right_right_rotation l
  left_left_rotation (node k3 h l' r)

unfoldable pub right_left_rotation : Tree → Option Tree
right_left_rotation null = none
right_left_rotation (node k1 h l r) = do
  r' ← left_left_rotation r
  right_right_rotation (node k1 h l r')

-- The part of `avltree_insert` that follows `tree->left = avltree_insert(tree->left, key)`.
unfoldable pub settle_left : Element → Element → ℕ → Tree → Tree → Option Tree
settle_left key k h l r = do
  t ←
      if height l == height r + 2
      then elim (compare key k) [
        | lt ↦ left_left_rotation (node k h l r)
        | _ ↦ left_right_rotation (node k h l r)
      ]
      else some (node k h l r)
  some (update_height t)

-- The same on the right.
unfoldable pub settle_right : Element → Element → ℕ → Tree → Tree → Option Tree
settle_right key k h l r = do
  t ←
      if height r == height l + 2
      then elim (compare key k) [
        | gt ↦ right_right_rotation (node k h l r)
        | _ ↦ right_left_rotation (node k h l r)
      ]
      else some (node k h l r)
  some (update_height t)

unfoldable pub insert : Bool → Tree → Element → Option Tree
insert mem null key = some (update_height (create_node mem key null null))
insert mem (node k h l r) key = elim (compare key k) [
  | lt ↦ (do l' ← insert mem l key; settle_left key k h l' r)
  | gt ↦ (do r' ← insert mem r key; settle_right key k h l r')
  | eq ↦ some (node k h l r)
]

unfoldable pub search : Tree → Element → Tree
search null key = null
search (node k h l r) key = elim (compare k key) [
  | eq ↦ node k h l r
  | _ ↦ elim (compare key k) [ lt ↦ search l key | _ ↦ search r key ]
]

unfoldable pub minimum : Tree → Tree
minimum null = null
minimum (node k h null r) = node k h null r
minimum (node k h (node lk lh ll lr) r) = minimum (node lk lh ll lr)

unfoldable pub maximum : Tree → Tree
maximum null = null
maximum (node k h l null) = node k h l null
maximum (node k h l (node rk rh rl rr)) = maximum (node rk rh rl rr)

-- After a deletion on the left: `Node *r = tree->right` leads the choice of the rotation.
unfoldable pub refill_left : Element → ℕ → Tree → Tree → Option Tree
refill_left k h l null = if 0 == height l + 2 then none else some (node k h l null)
refill_left k h l (node rk rh rl rr) =
    if rh == height l + 2
    then (if ltb (height rr) (height rl)
        then right_left_rotation (node k h l (node rk rh rl rr))
        else right_right_rotation (node k h l (node rk rh rl rr)))
    else some (node k h l (node rk rh rl rr))

-- After a deletion on the right.
unfoldable pub refill_right : Element → ℕ → Tree → Tree → Option Tree
refill_right k h null r = if 0 == height r + 2 then none else some (node k h null r)
refill_right k h (node lk lh ll lr) r =
    if lh == height r + 2
    then (if ltb (height ll) (height lr)
        then left_right_rotation (node k h (node lk lh ll lr) r)
        else left_left_rotation (node k h (node lk lh ll lr) r))
    else some (node k h (node lk lh ll lr) r)

-- `z` stands for `z->key`, the only part of the node that is read. The key of a node is
-- overwritten only after it was compared.
unfoldable pub delete_node : Tree → Element → Option Tree
delete_node null z = some null
delete_node (node k h l r) z = do
  t ← elim (compare z k) [
    | lt ↦ (do l' ← delete_node l z; refill_left k h l' r)
    | gt ↦ (do r' ← delete_node r z; refill_right k h l r')
    | eq ↦ elim (non_null l && non_null r) [
      | true ↦ elim (ltb (height r) (height l)) [
        | true ↦ (do m ← key_of (maximum l); l' ← delete_node l m; some (node m h l' r))
        | false ↦ (do m ← key_of (minimum r); r' ← delete_node r m; some (node m h l r'))
      ]
      | false ↦ some (if non_null l then l else r)
    ]
  ]
  some (update_height t)

unfoldable pub delete : Tree → Element → Option Tree
delete tree key = elim (search tree key) [ null ↦ some tree | node z h l r ↦ delete_node tree z ]
