-- ===== src/Avl/Balance.antt =====
-- The balance of the trees of kernel/pc/avl.c: kept by insertions of ever greater keys, lost by one
-- that goes to the right of a left child.
use huge_pie.Base.{
  ℕ, ◌+◌, ◌≤◌, ◌≡◌, ◌⊎◌, inl, inr, refl, Bool, true, false, some, lt, gt, arith, max, ◌==◌, Returns,
  returns, bind, mono, ◌>>=◌, ◌∷◌, All-append_right, Bool-cases, ne→==, ==→eq, ==→ne, ◌≢◌,
}
use huge_pie.Avl.{
  Element, Tree, null, node, compare, height, create_node, left_left_rotation, right_right_rotation,
  settle_left, settle_right, insert,
}
use huge_pie.Avl.Sorted.{Above, compare_trans, compare-gt_of_lt}
use huge_pie.Avl.Heights.{IsHeighted, to_list}

-- At every node the heights of the children differ by at most one.
abbrev pub IsBalanced : Tree → Type 0
IsBalanced null = Unit
IsBalanced (node k h l r) =
    (height l ≤ height r + 1) × (height r ≤ height l + 1) × IsBalanced l × IsBalanced r

-- The root leans to the right, or stands alone.
abbrev LeansRight : Tree → Type 0
LeansRight null = ⊥
LeansRight (node k h l r) = (height r ≡ height l + 1) ⊎ ((height l ≡ 0) × (height r ≡ 0))

-- What an insertion on the far right makes of a tree of height `n`.
record Grown (n : ℕ) (t : Tree) : Type 0 where
  heighted : IsHeighted t
  balanced : IsBalanced t
  growth : (height t ≡ n) ⊎ (height t ≡ n + 1) × LeansRight t

settle_right-Grown :
    (key k : Element) (h : ℕ) (l r : Tree) (n : ℕ)
    → IsHeighted l
    → IsBalanced l
    → height l ≤ n + 1
    → n ≤ height l + 1
    → Grown n r
    → compare key k ≡ gt
    → Returns (Grown (max (height l) n + 1)) (settle_right key k h l r)
unfolding settle_right right_right_rotation
settle_right-Grown key k h l null n hl bl p q g c =
    rw (ne→== 0 (height l + 2) (omega arith)) (returns (ground arith))
settle_right-Grown key k h l (node k2 h2 b d) n hl bl p q g c =
    elim (Bool-cases (h2 == height l + 2)) [
      | inl e ↦
          let tall : h2 ≡ height l + 2 = ==→eq _ _ e in
          let shape : (height d ≡ height l + 1) × (height b ≡ height l) × (n ≡ height l + 1) =
            omega arith in
          rw (e, c)
            (returns (record {
              heighted = (omega arith, (refl, hl, g.heighted.1), g.heighted.2);
              balanced = (
                omega arith,
                omega arith,
                (omega arith, omega arith, bl, g.balanced.2),
                g.balanced.3,
              );
              growth = inl (omega arith);
            }))
      | inr e ↦
          let low : h2 ≢ height l + 2 = ==→ne _ _ e in
          rw e (
            returns (record {
              heighted = (refl, hl, g.heighted);
              balanced = (omega arith, omega arith, bl, g.balanced);
              growth = omega arith;
            }))
    ]

-- An insertion of a key above all others adds at most one to the height and keeps the balance.
insert-Grown :
    (mem : Bool) (t : Tree) (key : Element)
    → IsHeighted t
    → IsBalanced t
    → Above key (to_list t)
    → Returns (Grown (height t)) (insert mem t key)
unfolding insert create_node
insert-Grown false null key v b a = returns (ground arith)
insert-Grown true null key v b a = returns (ground arith)
insert-Grown mem (node k h l r) key v b a =
    let c : compare key k ≡ gt = (All-append_right _ (to_list l) (k ∷ to_list r) a).0 in
    rw (c, insert, v.0)
      (bind (insert-Grown mem r key v.2 b.3 (All-append_right _ (to_list l) (k ∷ to_list r) a).1)
        λ r' g. settle_right-Grown key k _ l r' (height r) v.1 b.2 b.0 b.1 g c)

-- In a balanced tree with right heights, an insertion of a key above all others, such as `Alloc_pid`
-- makes, leaves a balanced tree with
-- right heights, and the tree grows by at most one level.
pub insert-IsBalanced :
    (mem : Bool) (t : Tree) (key : Element)
    → IsHeighted t
    → IsBalanced t
    → Above key (to_list t)
    → Returns
        (λ t'. IsHeighted t' × IsBalanced t' × (height t ≤ height t') × (height t' ≤ height t + 1))
        (insert mem t key)
insert-IsBalanced mem t key v b a =
    mono (insert-Grown mem t key v b a) λ t' g. (g.heighted, g.balanced, omega arith, omega arith)

abbrev leaf : Element → Tree
leaf k = node k 1 null null

insert-null : (c : Element) → insert true null c ≡ some (leaf c)
unfolding insert create_node
insert-null c = refl

insert-leaf :
    (a c : Element) → compare a c ≡ lt → insert true (leaf c) a ≡ some (node c 2 (leaf a) null)
unfolding insert create_node settle_left
insert-leaf a c h = rw (h, insert)

settle_middle :
    (a b c : Element)
    → compare b c ≡ lt
    → settle_left b c 2 (node a 2 null (leaf b)) null
      ≡ some (node a 3 null (node c 2 (leaf b) null))
unfolding settle_left left_left_rotation
settle_middle a b c bc = rw (bc, settle_left)

insert_middle :
    (a b c : Element)
    → compare b c ≡ lt
    → compare b a ≡ gt
    → insert true (node c 2 (leaf a) null) b ≡ some (node a 3 null (node c 2 (leaf b) null))
unfolding insert create_node settle_right
insert_middle a b c bc ba = rw (bc, ba, insert) (settle_middle a b c bc)

-- Three keys, the greatest first and the middle one last: the code compares the new key with the
-- node that it came through, and not with that node's left child, so it turns once where it should
-- turn twice, and the result is not balanced.
pub insert_unbalanced :
    (a b c : Element)
    → compare a b ≡ lt
    → compare b c ≡ lt
    → Returns
        (λ t. ¬ IsBalanced t)
        (do t1 ← insert true null c; t2 ← insert true t1 a; insert true t2 b)
insert_unbalanced a b c ab bc =
    rw
      (
        insert-null c,
        insert-leaf a c (compare_trans a b c ab bc),
        insert_middle a b c bc (compare-gt_of_lt a b ab),
      )
      (returns (λ v. absurd (omega arith)))
