-- ===== src/Pid/Laws.antt =====
-- What each function of kernel/pc/pid.c does to the ascending list of ids in use.
use huge_pie.Base.{
  ◌-◌, ◌^◌, ◌≡◌, refl, sym, ap, ◌∙◌, inl, inr, ℤ, pos, negsuc, Bool, true, false, ◌||◌, ◌&&◌,
  Option, none, some, List, [], ◌∷◌, ◌++◌, All, ltb_ℤ, ◌<ℤ◌, not, inc_int, inc_int-gt, subst,
  some-injective, if◌then◌else◌, Returns, returns, bind, Bool-cases, gt, arith, append-nil,
}
use huge_pie.Avl.{
  Element, Tree, null, node, compare, search, maximum, non_null, key_of, create_node,
}
use huge_pie.Avl.Sorted.{
  IsSorted, Above, add, erase, lookup, add-append_right, add-IsSorted, erase-IsSorted,
  compare-gt_of_lt, compare_trans, compare-lt_of_gt,
}
use huge_pie.Avl.Heights.{IsRooted, to_list}
use huge_pie.Avl.Insert.{insert_lem}
use huge_pie.Avl.Search.{last?, search_lem, maximum_lem}
use huge_pie.Avl.Delete.{delete_lem}
use huge_pie.Pid.{pid_num, element, init_pid, alloc_pid, check_pid, insert_pid, del_pid}

-- What every tree of ids keeps: heights that are right below the root, and ascending keys.
pub record IsPids (t : Tree) : Type 0 where
  pub rooted : IsRooted t
  pub sorted : IsSorted (to_list t)

abbrev pub is_some {ℓ} : {A : Type ℓ} → Option A → Bool
is_some none = false
is_some (some a) = true

-- The id is in use.
abbrev pub uses : List Element → ℤ → Bool
uses xs pid = is_some (lookup (element pid) xs)

abbrev in_range : ℤ → Bool
in_range pid = not (ltb_ℤ pid (pos 0) || not (ltb_ℤ pid (pos pid_num)))

non_null-eq-is_some : (t : Tree) → non_null t ≡ is_some (key_of t)
non_null-eq-is_some null = refl
non_null-eq-is_some (node k h l r) = refl

pub init_pid-IsPids : (mem : Bool) → IsPids (init_pid mem)
unfolding init_pid create_node
init_pid-IsPids false = record { rooted = tt; sorted = tt }
init_pid-IsPids true = record { rooted = (tt, tt); sorted = (tt, tt) }

check-search :
    (t : Tree) (pid : ℤ) → IsPids t → non_null (search t (element pid)) ≡ uses (to_list t) pid
check-search t pid v =
    non_null-eq-is_some (search t (element pid)) ∙ ap is_some (search_lem t (element pid) v.sorted)

-- On a tree of ids, `Check_pid` tells which of the ids 0 to 127 are in use; any other id it calls unused.
pub check_pid_lem :
    (t : Tree) (pid : ℤ)
    → IsPids t
    → check_pid t pid ≡ (if in_range pid then uses (to_list t) pid else false)
unfolding check_pid
check_pid_lem null pid v = unfold lookup in ground arith
check_pid_lem (node k h l r) pid v = ground (arith, check-search (node k h l r) pid v)

-- Every id in use is below the greatest `int`.
abbrev pub HasRoom : List Element → Type 0
HasRoom = All (λ x. x.value <ℤ pos (2 ^ 31 - 1))

compare-inc :
    (x : Element) → x.value <ℤ pos (2 ^ 31 - 1) → compare (element (inc_int x.value)) x ≡ gt
unfolding compare
compare-inc x h = inc_int-gt x.value h

Above-last :
    (xs : List Element) (m : Element)
    → IsSorted xs
    → HasRoom xs
    → last? xs ≡ some m
    → Above (element (inc_int m.value)) xs
Above-last [] m s h e = tt
Above-last (x ∷ []) m s h e = (
  subst (λ z. compare (element (inc_int z.value)) x ≡ gt) (some-injective _ _ e)
      (compare-inc x h.0),
  tt,
)
Above-last (x ∷ y ∷ ys) m s h e =
    let below = Above-last (y ∷ ys) m s.1 h.1 e in
    (compare-gt_of_lt x new (compare_trans x y new s.0.0 (compare-lt_of_gt new y below.0)), below)
  where
    new : Element
    new = element (inc_int m.value)

add-last : (k : Element) (xs : List Element) → Above k xs → add k xs ≡ xs ++ k ∷ []
add-last k xs a =
    ap (add k) (sym (append-nil xs)) ∙ (add-append_right k xs [] a ∙ unfold add in refl)

-- What `Alloc_pid` returns on a tree with a greatest id: an id above all those in use, and the tree
-- with that id added at the end.
pub record Allocated (xs : List Element) (r : ℤ × Tree) : Type 0 where
  pub fresh : Above (element r.0) xs
  pub keys : to_list r.1 ≡ xs ++ element r.0 ∷ []
  pub valid : IsPids r.1

alloc_found :
    (t m : Tree)
    → maximum t ≡ m
    → non_null m ≡ true
    → IsPids t
    → HasRoom (to_list t)
    → Returns (Allocated (to_list t)) (alloc_pid true t)
unfolding alloc_pid
alloc_found t null e f v room = cc
alloc_found t (node k h l r) e f v room =
    let above = Above-last (to_list t) k v.sorted room (sym (maximum_lem t) ∙ ap key_of e) in
    rw (e, alloc_pid)
      (bind (insert_lem true t (element (inc_int k.value)) v.rooted v.sorted) λ t' w.
        returns (record {
          fresh = above;
          keys = w.1 ∙ add-last (element (inc_int k.value)) (to_list t) above;
          valid = record {
            rooted = w.0;
            sorted = rw w.1 (add-IsSorted (element (inc_int k.value)) (to_list t) v.sorted);
          };
        }))

maximum-non_null : (t : Tree) → non_null t ≡ true → non_null (maximum t) ≡ true
unfolding maximum
maximum-non_null null e = e
maximum-non_null (node k h l null) e = refl
maximum-non_null (node k h l (node rk rh rl rr)) e = maximum-non_null (node rk rh rl rr) refl

-- On a tree that is not empty and whose ids are below the greatest `int`, `Alloc_pid` returns an id
-- that is greater than every id in use, and adds exactly that id.
pub alloc_pid_lem :
    (t : Tree)
    → non_null t ≡ true
    → IsPids t
    → HasRoom (to_list t)
    → Returns (Allocated (to_list t)) (alloc_pid true t)
alloc_pid_lem t e v room = alloc_found t (maximum t) refl (maximum-non_null t e) v room

-- The ids that `Insert_pid` turns away: negative ones, and those of 0 to 127 that are in use.
abbrev pub turned_away : List Element → ℤ → Bool
turned_away xs pid = ltb_ℤ pid (pos 0) || (ltb_ℤ pid (pos pid_num) && uses xs pid)

check-turned_away :
    (t : Tree) (pid : ℤ)
    → IsPids t
    → (ltb_ℤ pid (pos 0) || check_pid t pid) ≡ turned_away (to_list t) pid
check-turned_away t pid v = ground (arith, check_pid_lem t pid v)

-- What `Insert_pid` returns: -1 and the tree as it was for an id that is turned away, 0 and the tree
-- with the id in its place otherwise.
abbrev pub Inserted : List Element → ℤ → ℤ × Tree → Type 0
Inserted xs pid (code, t) =
    IsPids t
    × (code ≡ (if turned_away xs pid then negsuc 0 else pos 0))
    × (to_list t ≡ (if turned_away xs pid then xs else add (element pid) xs))

-- On a tree of ids, `Insert_pid` turns away negative ids and ids of 0 to 127 that are in use, with -1 and no change,
-- and adds any other id with 0; one from 128 on that is in use already is accepted once more, and
-- changes nothing.
pub insert_pid_lem :
    (t : Tree) (pid : ℤ) → IsPids t → Returns (Inserted (to_list t) pid) (insert_pid true t pid)
unfolding insert_pid
insert_pid_lem t pid v =
    rw (check-turned_away t pid v) (elim (Bool-cases (turned_away (to_list t) pid)) [
      | inl away ↦ rw away (returns (v, rw away, rw away))
      | inr new ↦ rw new (
          bind (insert_lem true t (element pid) v.rooted v.sorted) λ t' w. returns (
            record {
              rooted = w.0;
              sorted = rw w.1 (add-IsSorted (element pid) (to_list t) v.sorted);
            },
            rw new,
            rw new w.1,
          ))
    ])

-- What `Del_pid` returns: -1 on an empty tree, 0 otherwise, and the tree without the id.
abbrev pub Deleted : List Element → ℤ → ℤ × Tree → Type 0
Deleted xs pid (code, t) =
    IsPids t
    × (code ≡ (elim xs [ [] ↦ negsuc 0 | x ∷ r ↦ pos 0 ]))
    × (to_list t ≡ erase (element pid) xs)

nonempty-append :
    (xs ys : List Element) (k : Element)
    → (elim (xs ++ k ∷ ys) [ [] ↦ negsuc 0 | x ∷ r ↦ pos 0 ]) ≡ pos 0
nonempty-append [] ys k = refl
nonempty-append (x ∷ xs) ys k = refl

-- On a tree of ids, `Del_pid` takes the id out of the tree if it is there, and changes nothing else.
pub del_pid_lem :
    (t : Tree) (pid : ℤ) → IsPids t → Returns (Deleted (to_list t) pid) (del_pid t pid)
unfolding del_pid
del_pid_lem null pid v = returns (v, refl, unfold erase in refl)
del_pid_lem (node k h l r) pid v =
    bind (delete_lem (node k h l r) (element pid) v.rooted v.sorted) λ t' w. returns (
      record {
        rooted = w.0;
        sorted = rw w.1 (erase-IsSorted (element pid) (to_list (node k h l r)) v.sorted);
      },
      sym (nonempty-append (to_list l) (to_list r) k),
      w.1,
    )
