-- ===== src/Avl/Sorted.antt =====
-- The specification of kernel/pc/avl.c: a strictly ascending list of keys.
use huge_pie.Base.{
  ◌≡◌, refl, ap, lt, eq, gt, Option, none, some, List, [], ◌∷◌, ◌++◌, All, All-imp, All-append_left,
  arith, cmp_int_refl, eq_of_cmp_int, cmp_int-lt_of_gt, cmp_int-gt_of_lt, cmp_int_trans,
}
use huge_pie.Avl.{Element, compare}

pub compare_refl : (a : Element) → compare a a ≡ eq
unfolding compare
compare_refl a = cmp_int_refl a.value

pub compare-lt_of_gt : (a b : Element) → compare a b ≡ gt → compare b a ≡ lt
unfolding compare
compare-lt_of_gt a b h = cmp_int-lt_of_gt a.value b.value h

pub compare-gt_of_lt : (a b : Element) → compare a b ≡ lt → compare b a ≡ gt
unfolding compare
compare-gt_of_lt a b h = cmp_int-gt_of_lt a.value b.value h

pub compare_trans : (a b c : Element) → compare a b ≡ lt → compare b c ≡ lt → compare a c ≡ lt
unfolding compare
compare_trans a b c h k = cmp_int_trans a.value b.value c.value h k

-- Elements with one key compare alike, whatever their data.
pub compare_congr_left : (a b c : Element) → compare a b ≡ eq → compare a c ≡ compare b c
unfolding compare
compare_congr_left a b c h = ap (λ v. compare (record a { value = v }) c) (eq_of_cmp_int _ _ h)

pub compare_congr_right : (a b c : Element) → compare a b ≡ eq → compare c a ≡ compare c b
unfolding compare
compare_congr_right a b c h = ap (λ v. compare c (record a { value = v })) (eq_of_cmp_int _ _ h)

pub compare-eq_symm : (a b : Element) → compare a b ≡ eq → compare b a ≡ eq
unfolding compare
compare-eq_symm a b h = ground (arith, eq_of_cmp_int a.value b.value h, cmp_int_refl b.value)

-- `k` is below, or above, every key of the list.
abbrev pub Below : Element → List Element → Type 0
Below k = All (λ x. compare k x ≡ lt)

abbrev pub Above : Element → List Element → Type 0
Above k = All (λ x. compare k x ≡ gt)

abbrev pub IsSorted : List Element → Type 0
IsSorted [] = Unit
IsSorted (x ∷ xs) = Below x xs × IsSorted xs

unfoldable pub lookup : Element → List Element → Option Element
lookup k [] = none
lookup k (x ∷ xs) = elim (compare k x) [ eq ↦ some x | _ ↦ lookup k xs ]

-- A key that is there already is kept with its data.
unfoldable pub add : Element → List Element → List Element
add k [] = k ∷ []
add k (x ∷ xs) = elim (compare k x) [ lt ↦ k ∷ x ∷ xs | eq ↦ x ∷ xs | gt ↦ x ∷ add k xs ]

unfoldable pub erase : Element → List Element → List Element
erase k [] = []
erase k (x ∷ xs) = elim (compare k x) [ eq ↦ xs | _ ↦ x ∷ erase k xs ]

pub Below-trans : (j k : Element) (xs : List Element) → compare j k ≡ lt → Below k xs → Below j xs
Below-trans j k xs h b = All-imp _ _ xs (λ x p. compare_trans j k x h p) b

pub Above-trans : (j k : Element) (xs : List Element) → compare j k ≡ gt → Above k xs → Above j xs
Above-trans j k xs h b =
    All-imp _ _ xs
      (λ x p.
        compare-gt_of_lt x j
          (compare_trans x k j (compare-lt_of_gt k x p) (compare-lt_of_gt j k h)))
      b

pub Above-congr : (j k : Element) (xs : List Element) → compare j k ≡ eq → Above k xs → Above j xs
Above-congr j k xs h b = All-imp _ _ xs (λ x p. ground (arith, compare_congr_left j k x h)) b

pub Below-congr : (j k : Element) (xs : List Element) → compare j k ≡ eq → Below k xs → Below j xs
Below-congr j k xs h b = All-imp _ _ xs (λ x p. ground (arith, compare_congr_left j k x h)) b

-- The keys on the two sides of `k` in a sorted list.
pub IsSorted-left : (xs ys : List Element) (k : Element) → IsSorted (xs ++ k ∷ ys) → IsSorted xs
IsSorted-left [] ys k s = tt
IsSorted-left (x ∷ xs) ys k s = (All-append_left _ xs _ s.0, IsSorted-left xs ys k s.1)

pub IsSorted-right :
    (xs ys : List Element) (k : Element) → IsSorted (xs ++ k ∷ ys) → Below k ys × IsSorted ys
IsSorted-right [] ys k s = s
IsSorted-right (x ∷ xs) ys k s = IsSorted-right xs ys k s.1

Below-middle : (xs ys : List Element) (j k : Element) → Below j (xs ++ k ∷ ys) → compare j k ≡ lt
Below-middle [] ys j k b = b.0
Below-middle (x ∷ xs) ys j k b = Below-middle xs ys j k b.1

pub IsSorted-Above : (xs ys : List Element) (k : Element) → IsSorted (xs ++ k ∷ ys) → Above k xs
IsSorted-Above [] ys k s = tt
IsSorted-Above (x ∷ xs) ys k s =
    (compare-gt_of_lt x k (Below-middle xs ys x k s.0), IsSorted-Above xs ys k s.1)

pub lookup-Below : (k : Element) (xs : List Element) → Below k xs → lookup k xs ≡ none
unfolding lookup
lookup-Below k [] b = refl
lookup-Below k (x ∷ xs) b = ground (arith, lookup-Below k xs)

pub erase-Below : (k : Element) (xs : List Element) → Below k xs → erase k xs ≡ xs
unfolding erase
erase-Below k [] b = refl
erase-Below k (x ∷ xs) b = ground (arith, erase-Below k xs)

-- The three operations at a key that is below what follows, or above what comes before.
pub add-append_left :
    (k : Element) (xs ys : List Element) → Below k ys → add k (xs ++ ys) ≡ add k xs ++ ys
unfolding add
add-append_left k [] [] b = refl
add-append_left k [] (y ∷ ys) b = ground arith
add-append_left k (x ∷ xs) ys b = ground (arith, add-append_left k xs ys)

pub add-append_right :
    (k : Element) (xs ys : List Element) → Above k xs → add k (xs ++ ys) ≡ xs ++ add k ys
unfolding add
add-append_right k [] ys b = refl
add-append_right k (x ∷ xs) ys b = ground (arith, add-append_right k xs ys)

pub lookup-append_left :
    (k : Element) (xs ys : List Element) → Below k ys → lookup k (xs ++ ys) ≡ lookup k xs
unfolding lookup
lookup-append_left k [] ys b = lookup-Below k ys b
lookup-append_left k (x ∷ xs) ys b = ground (arith, lookup-append_left k xs ys)

pub lookup-append_right :
    (k : Element) (xs ys : List Element) → Above k xs → lookup k (xs ++ ys) ≡ lookup k ys
unfolding lookup
lookup-append_right k [] ys b = refl
lookup-append_right k (x ∷ xs) ys b = ground (arith, lookup-append_right k xs ys)

pub erase-append_left :
    (k : Element) (xs ys : List Element) → Below k ys → erase k (xs ++ ys) ≡ erase k xs ++ ys
unfolding erase
erase-append_left k [] ys b = erase-Below k ys b
erase-append_left k (x ∷ xs) ys b = ground (arith, erase-append_left k xs ys)

pub erase-append_right :
    (k : Element) (xs ys : List Element) → Above k xs → erase k (xs ++ ys) ≡ xs ++ erase k ys
unfolding erase
erase-append_right k [] ys b = refl
erase-append_right k (x ∷ xs) ys b = ground (arith, erase-append_right k xs ys)

-- The specification keeps its own invariant.
Below-add : (j k : Element) (xs : List Element) → compare j k ≡ lt → Below j xs → Below j (add k xs)
unfolding add
Below-add j k [] h b = (h, tt)
Below-add j k (x ∷ xs) h b = ground (arith, Below-add j k xs)

Below-erase : (j k : Element) (xs : List Element) → Below j xs → Below j (erase k xs)
unfolding erase
Below-erase j k [] b = tt
Below-erase j k (x ∷ xs) b = ground (arith, Below-erase j k xs)

pub add-IsSorted : (k : Element) (xs : List Element) → IsSorted xs → IsSorted (add k xs)
unfolding add
add-IsSorted k [] s = (tt, tt)
add-IsSorted k (x ∷ xs) s =
    ground (arith, add-IsSorted k xs, Below-add x k xs, compare-lt_of_gt k x, Below-trans k x xs)

pub erase-IsSorted : (k : Element) (xs : List Element) → IsSorted xs → IsSorted (erase k xs)
unfolding erase
erase-IsSorted k [] s = tt
erase-IsSorted k (x ∷ xs) s = ground (arith, erase-IsSorted k xs, Below-erase x k xs)
