-- ===== src/Avl/Heights.antt =====
-- The height fields of kernel/pc/avl.c, the keys of a tree in order, and what the four rotations do
-- to both.
use huge_pie.Base.{
  ◌+◌, ◌<◌, ◌≡◌, refl, sym, max, ltb, List, [], ◌∷◌, ◌++◌, true, append_assoc, arith, Returns,
  returns, bind, ℕ, ltb→lt,
}
use huge_pie.Avl.{
  Element, Tree, null, node, height, update_height, left_left_rotation, right_right_rotation,
  left_right_rotation, right_left_rotation,
}

-- Each stored height is one more than the greater of the children's.
abbrev pub IsHeighted : Tree → Type 0
IsHeighted null = Unit
IsHeighted (node k h l r) = (h ≡ max (height l) (height r) + 1) × IsHeighted l × IsHeighted r

-- The same below the root, whose own height is not looked at: the tree that `Init_pid` makes is a
-- single node of height 0.
abbrev pub IsRooted : Tree → Type 0
IsRooted null = Unit
IsRooted (node k h l r) = IsHeighted l × IsHeighted r

-- The keys from left to right.
abbrev pub to_list : Tree → List Element
to_list null = []
to_list (node k h l r) = to_list l ++ k ∷ to_list r

-- What a subtree has to be after a step: right heights, and these keys.
abbrev pub Holds : List Element → Tree → Type 0
Holds xs t = IsHeighted t × (to_list t ≡ xs)

pub IsRooted-of_IsHeighted : (t : Tree) → IsHeighted t → IsRooted t
IsRooted-of_IsHeighted null v = tt
IsRooted-of_IsHeighted (node k h l r) v = (v.1, v.2)

-- Right heights below the root, and these keys: what `update_height` makes whole.
abbrev pub Held : List Element → Tree → Type 0
Held xs t = IsRooted t × (to_list t ≡ xs)

pub Held-of_Holds : (xs : List Element) (t : Tree) → Holds xs t → Held xs t
Held-of_Holds xs t v = (IsRooted-of_IsHeighted t v.0, v.1)

pub update_height-Holds : (xs : List Element) (t : Tree) → Held xs t → Holds xs (update_height t)
update_height-Holds xs null v = v
update_height-Holds xs (node k h l r) v = ((refl, v.0.0, v.0.1), v.1)

module _ (k : Element) (h : ℕ) where
  -- Each rotation finds the nodes that it turns where the tall side is tall enough.
  pub left_left_rotation-Holds :
      (l r : Tree)
      → 0 < height l
      → IsHeighted l
      → IsHeighted r
      → Returns
          (λ t. Holds (to_list l ++ k ∷ to_list r) t × (0 < height t))
          (left_left_rotation (node k h l r))
  unfolding left_left_rotation
  left_left_rotation-Holds null r p hl hr = absurd (omega arith)
  left_left_rotation-Holds (node k1 h1 a b) r p hl hr = returns (
    ((refl, hl.1, (refl, hl.2, hr)), sym (append_assoc (to_list a) (k1 ∷ to_list b) _)),
    omega arith,
  )

  pub right_right_rotation-Holds :
      (l r : Tree)
      → 0 < height r
      → IsHeighted l
      → IsHeighted r
      → Returns
          (λ t. Holds (to_list l ++ k ∷ to_list r) t × (0 < height t))
          (right_right_rotation (node k h l r))
  unfolding right_right_rotation
  right_right_rotation-Holds l null p hl hr = absurd (omega arith)
  right_right_rotation-Holds l (node k2 h2 b c) p hl hr = returns (
    ((omega arith, (refl, hl, hr.1), hr.2), append_assoc (to_list l) (k ∷ to_list b) _),
    omega arith,
  )

module _ (k : Element) (h : ℕ) where
  pub left_right_rotation-Holds :
      (k1 : Element) (h1 : ℕ) (a b r : Tree)
      → ltb (height a) (height b) ≡ true
      → IsHeighted (node k1 h1 a b)
      → IsHeighted r
      → Returns
          (λ t. Holds (to_list (node k1 h1 a b) ++ k ∷ to_list r) t × (0 < height t))
          (left_right_rotation (node k h (node k1 h1 a b) r))
  unfolding left_right_rotation
  left_right_rotation-Holds k1 h1 a b r tall hl hr =
      bind (right_right_rotation-Holds k1 h1 a b (omega (arith, ltb→lt _ _ tall)) hl.1 hl.2)
        λ l' v. rw (← v.0.1) (left_left_rotation-Holds k h l' r v.1 v.0.0 hr)

  pub right_left_rotation-Holds :
      (l : Tree) (k2 : Element) (h2 : ℕ) (b c : Tree)
      → ltb (height c) (height b) ≡ true
      → IsHeighted l
      → IsHeighted (node k2 h2 b c)
      → Returns
          (λ t. Holds (to_list l ++ k ∷ to_list (node k2 h2 b c)) t × (0 < height t))
          (right_left_rotation (node k h l (node k2 h2 b c)))
  unfolding right_left_rotation
  right_left_rotation-Holds l k2 h2 b c tall hl hr =
      bind (left_left_rotation-Holds k2 h2 b c (omega (arith, ltb→lt _ _ tall)) hr.1 hr.2)
        λ r' v. rw (← v.0.1) (right_right_rotation-Holds k h l r' v.1 hl v.0.0)
