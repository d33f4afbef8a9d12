-- ===== src/Bootmm/Infos.antt =====
-- kernel/mm/bootmm.c: the list of the areas in use, `insert_mminfo` and `remove_mminfo`.
use huge_pie.Bootmm.Areas.{
  IsArea, Added, Added-cons, Added-before, Added-after, Added-between, Added-append,
}
use huge_pie.Bootmm.{Info, merge, extend, keep, insert_mminfo, remove_mminfo, pred_word, max_info}
use huge_pie.Base.{
  ℕ, max, ◌≤◌, ◌<◌, inl, inr, ◌≡◌, refl, Option, none, some, List, [], ◌∷◌, ◌++◌, length, All, leb,
  ◌==◌, if◌then◌else◌, Bool-cases, arith, length-append, ==→eq,
}

-- How the loop of `insert_mminfo` ends.
pub data Merged (xs : List Info) (area : Info) : Option (ℕ × List Info) → Type 0 where
  merged_not : Merged xs area none
  merged_some :
      {code : ℕ} {ys : List Info}
      → 0 < code
      → length ys ≤ length xs
      → Added xs ys area
      → Merged xs area (some (code, ys))

keep-Merged :
    (x : Info) (xs : List Info) (area : Info) (r : Option (ℕ × List Info))
    → IsArea x
    → Merged xs area r
    → Merged (x ∷ xs) area (keep x r)
keep-Merged x xs area r a merged_not = merged_not
keep-Merged x xs area r a (merged_some {ys} p l d) =
    merged_some p (omega arith) (Added-cons x xs ys area a d)

extend-Merged :
    (x : Info) (xs : List Info) (area : Info)
    → IsArea x
    → All IsArea xs
    → IsArea area
    → x.type ≡ area.type
    → x.last ≡ pred_word area.start
    → Merged (x ∷ xs) area (some (extend x xs area.last area.type))
unfolding extend remove_mminfo
extend-Merged x [] area a rest n e p =
    merged_some (omega arith) (omega arith) (Added-before x [] area a tt n e p)
extend-Merged x (y ∷ ys) area a rest n e p =
    let alone : Merged (x ∷ y ∷ ys) area (some (2, record x { last = area.last } ∷ y ∷ ys)) =
      merged_some (omega arith) (omega arith) (Added-before x (y ∷ ys) area a rest n e p) in
    elim (Bool-cases (y.type == area.type)) [
      | inr other ↦ rw other alone
      | inl same ↦ elim (Bool-cases (pred_word y.start == area.last)) [
        | inr gap ↦ rw (same, gap) alone
        | inl met ↦
            rw (same, met)
              (merged_some {code = 7} (omega arith) (omega arith)
                (Added-between x y ys area a rest.0 rest.1 n e (==→eq _ _ same) p (==→eq _ _ met)))
      ]
    ]

merge-Merged :
    (xs : List Info) (area : Info)
    → All IsArea xs
    → IsArea area
    → Merged xs area (merge xs area.start area.last area.type)
unfolding merge
merge-Merged [] area a n = merged_not
merge-Merged (x ∷ xs) area a n =
    let later = keep-Merged x xs area _ a.0 (merge-Merged xs area a.1 n) in
    elim (Bool-cases (x.type == area.type)) [
      | inr other ↦ rw other later
      | inl same ↦ elim (Bool-cases (x.last == pred_word area.start)) [
        | inl before ↦
            rw (same, before)
              (extend-Merged x xs area a.0 a.1 n (==→eq _ _ same) (==→eq _ _ before))
        | inr apart ↦ elim (Bool-cases (pred_word x.start == area.last)) [
          | inl after ↦
              rw (same, apart, after)
                (merged_some (omega arith) (omega arith)
                  (Added-after x xs area a.0 a.1 n (==→eq _ _ same) (==→eq _ _ after)))
          | inr far ↦ rw (same, apart, far) later
        ]
      ]
    ]

-- The result of `insert_mminfo`: 0 and nothing changed, where the array is full and the new area meets
-- no other of its type; or another code, and just the bytes of the new area are added.
pub data Inserted (xs : List Info) (area : Info) : ℕ × List Info → Type 0 where
  full :
      max_info ≤ length xs
      → merge xs area.start area.last area.type ≡ none
      → Inserted xs area (0, xs)
  inserted :
      {code : ℕ} {ys : List Info}
      → 0 < code
      → length ys ≤ max (length xs) max_info
      → Added xs ys area
      → Inserted xs area (code, ys)

-- `insert_mminfo` either leaves the list as it is and says 0, and then the array is full, or adds just
-- the bytes of the new area under its type, and the array keeps its bound, if all areas are proper.
pub insert_mminfo-Inserted :
    (xs : List Info) (area : Info)
    → All IsArea xs
    → IsArea area
    → Inserted xs area (insert_mminfo xs area.start area.last area.type)
unfolding insert_mminfo
insert_mminfo-Inserted xs area a n =
    go (merge xs area.start area.last area.type) refl (merge-Merged xs area a n)
  where
    go :
        (m : Option (ℕ × List Info))
        → merge xs area.start area.last area.type ≡ m
        → Merged xs area m
        → Inserted xs area (elim m [
          | some r ↦ r
          | none ↦ if leb max_info (length xs) then (0, xs) else (1, xs ++ area ∷ [])
        ])
    go m e (merged_some p l d) = inserted p (omega arith) d
    go m e merged_not = elim (Bool-cases (leb max_info (length xs))) [
      | inl over ↦ rw over (full (ground arith) e)
      | inr room ↦ rw room (
          inserted (omega arith) (let b = length-append xs (area ∷ []) in ground arith)
            (Added-append xs area a n))
    ]
