-- ===== src/Avl/Refill.antt =====
-- The steps of `delete_node` of kernel/pc/avl.c: rotations after a deletion, and the first and the last
-- key of a tree.
use huge_pie.Base.{
  ◌+◌, ◌≡◌, refl, sym, ◌∙◌, inl, inr, true, Option, some, List, [], ◌∷◌, ◌++◌, mono, lt, eq, gt,
  arith, ltb, ◌==◌, Bool-cases, ne→==, Returns, returns, bind, ℕ, append_assoc, append-nil, ◌>>=◌,
}
use huge_pie.Avl.{
  Element, Tree, null, node, compare, height, non_null, key_of, update_height, minimum, maximum,
  refill_left, refill_right,
}
use huge_pie.Avl.Sorted.{
  IsSorted, erase, IsSorted-right, IsSorted-Above, Above-trans, Above-congr, Below-trans,
  erase-append_left, erase-append_right, compare_refl,
}
use huge_pie.Avl.Heights.{
  IsHeighted, to_list, Holds, Held, Held-of_Holds, update_height-Holds, left_left_rotation-Holds,
  right_right_rotation-Holds, left_right_rotation-Holds, right_left_rotation-Holds,
}

module _ (k : Element) (h : ℕ) where
  pub refill_left-Held :
      (l r : Tree)
      → IsHeighted l
      → IsHeighted r
      → Returns (Held (to_list l ++ k ∷ to_list r)) (refill_left k h l r)
  unfolding refill_left
  refill_left-Held l null hl hr =
      rw (ne→== 0 (height l + 2) (omega arith)) (returns ((hl, hr), refl))
  refill_left-Held l (node rk rh rl rr) hl hr = elim (Bool-cases (rh == height l + 2)) [
    | inr e ↦ rw e (returns ((hl, hr), refl))
    | inl e ↦ rw e (elim (Bool-cases (ltb (height rr) (height rl))) [
      | inl tall ↦ rw tall (
          mono (right_left_rotation-Holds k h l rk rh rl rr tall hl hr)
            λ t v. Held-of_Holds _ t v.0)
      | inr low ↦ rw low (
          mono (right_right_rotation-Holds k h l (node rk rh rl rr) (omega arith) hl hr)
            λ t v. Held-of_Holds _ t v.0)
    ])
  ]

  pub refill_right-Held :
      (l r : Tree)
      → IsHeighted l
      → IsHeighted r
      → Returns (Held (to_list l ++ k ∷ to_list r)) (refill_right k h l r)
  unfolding refill_right
  refill_right-Held null r hl hr =
      rw (ne→== 0 (height r + 2) (omega arith)) (returns ((hl, hr), refl))
  refill_right-Held (node lk lh ll lr) r hl hr = elim (Bool-cases (lh == height r + 2)) [
    | inr e ↦ rw e (returns ((hl, hr), refl))
    | inl e ↦ rw e (elim (Bool-cases (ltb (height ll) (height lr))) [
      | inl tall ↦ rw tall (
          mono (left_right_rotation-Holds k h lk lh ll lr r tall hl hr)
            λ t v. Held-of_Holds _ t v.0)
      | inr low ↦ rw low (
          mono (left_left_rotation-Holds k h (node lk lh ll lr) r (omega arith) hl hr)
            λ t v. Held-of_Holds _ t v.0)
    ])
  ]

-- The last statement of `delete_node`.
pub settle :
    (xs : List Element) (m : Option Tree)
    → Returns (Held xs) m
    → Returns (Holds xs) (m >>= λ t. some (update_height t))
settle xs m r = bind r (λ t v. returns (update_height-Holds xs t v))

pub erase-left :
    (z k : Element) (xs ys : List Element)
    → IsSorted (xs ++ k ∷ ys)
    → compare z k ≡ lt
    → erase z (xs ++ k ∷ ys) ≡ erase z xs ++ k ∷ ys
erase-left z k xs ys s c =
    erase-append_left z xs (k ∷ ys) (c, Below-trans z k ys c (IsSorted-right xs ys k s).0)

pub erase-right :
    (z k : Element) (xs ys : List Element)
    → IsSorted (xs ++ k ∷ ys)
    → compare z k ≡ gt
    → erase z (xs ++ k ∷ ys) ≡ xs ++ k ∷ erase z ys
erase-right z k xs ys s c =
    rw (erase-append_right z xs (k ∷ ys) (Above-trans z k xs c (IsSorted-Above xs ys k s)))
      (unfold erase in rw (c, erase))

pub erase-here :
    (z k : Element) (xs ys : List Element)
    → IsSorted (xs ++ k ∷ ys)
    → compare z k ≡ eq
    → erase z (xs ++ k ∷ ys) ≡ xs ++ ys
erase-here z k xs ys s c =
    rw (erase-append_right z xs (k ∷ ys) (Above-congr z k xs c (IsSorted-Above xs ys k s)))
      (unfold erase in rw (c, erase))

-- A tree that is not empty has a last key, which the walk to the right finds.
pub record HasLast (t : Tree) : Type 0 where
  pub last : Element
  pub rest : List Element
  pub found : key_of (maximum t) ≡ some last
  pub keys : to_list t ≡ rest ++ last ∷ []

pub HasLast-node : (k : Element) (h : ℕ) (l r : Tree) → HasLast (node k h l r)
unfolding maximum
HasLast-node k h l null = record { last = k; rest = to_list l; found = refl; keys = refl }
HasLast-node k h l (node rk rh rl rr) =
    let below = HasLast-node rk rh rl rr in
    record {
      last = below.last;
      rest = to_list l ++ k ∷ below.rest;
      found = below.found;
      keys = rw below.keys (sym (append_assoc (to_list l) (k ∷ below.rest) _));
    }

pub record HasFirst (t : Tree) : Type 0 where
  pub first : Element
  pub rest : List Element
  pub found : key_of (minimum t) ≡ some first
  pub keys : to_list t ≡ first ∷ rest

pub HasFirst-node : (k : Element) (h : ℕ) (l r : Tree) → HasFirst (node k h l r)
unfolding minimum
HasFirst-node k h null r = record { first = k; rest = to_list r; found = refl; keys = refl }
HasFirst-node k h (node lk lh ll lr) r =
    let below = HasFirst-node lk lh ll lr in
    record {
      first = below.first;
      rest = below.rest ++ k ∷ to_list r;
      found = below.found;
      keys = rw below.keys;
    }

pub non_null-HasLast : (t : Tree) → non_null t ≡ true → HasLast t
non_null-HasLast null e = cc
non_null-HasLast (node k h l r) e = HasLast-node k h l r

pub non_null-HasFirst : (t : Tree) → non_null t ≡ true → HasFirst t
non_null-HasFirst null e = cc
non_null-HasFirst (node k h l r) e = HasFirst-node k h l r

pub erase-last :
    (m : Element) (xs : List Element) → IsSorted (xs ++ m ∷ []) → erase m (xs ++ m ∷ []) ≡ xs
erase-last m xs s = erase-here m m xs [] s (compare_refl m) ∙ append-nil xs

pub erase-first : (m : Element) (xs : List Element) → erase m (m ∷ xs) ≡ xs
unfolding erase
erase-first m xs = rw (compare_refl m, erase)
