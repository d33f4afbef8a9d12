-- ===== src/Bootmm/Splits.antt =====
-- kernel/mm/bootmm.c: an area is split in two, `split_mminfo`.
use huge_pie.Bootmm.{Info, shift, split_mminfo, max_info}
use huge_pie.Base.{
  ℕ, ℕ_discrete, ◌-◌, zero, suc, ◌+◌, ◌*◌, ◌/◌, ◌≤◌, ◌<◌, inl, inr, ◌≡◌, refl, sym, ◌∙◌, Option,
  none, some, List, [], ◌∷◌, ◌++◌, length, get_elem?, set, Returns, returns, mono, leb, ◌||◌, ◌==◌,
  if◌then◌else◌, Bool-cases, ◌>>=◌, arith, ==→eq, Returns-result, length-append, length-set,
  get_elem?-some, get_elem?-lt, get_elem?-set_self, get_elem?-set_ne,
}

-- The array after `n` entries from `index` on were moved up by one.
record Moved (n index : ℕ) (xs ys : List Info) : Type 0 where
  same_length : length ys ≡ length xs
  below : (j : ℕ) → j ≤ index → get_elem? ys j ≡ get_elem? xs j
  moved : (j : ℕ) → index ≤ j → j < index + n → get_elem? ys (j + 1) ≡ get_elem? xs j
  above : (j : ℕ) → index + n < j → get_elem? ys j ≡ get_elem? xs j

Moved-suc :
    (n index : ℕ) (xs ys : List Info) (x : Info)
    → index + suc n < length xs
    → get_elem? xs (index + n) ≡ some x
    → Moved n index (set xs (index + n + 1) x) ys
    → Moved (suc n) index xs ys
Moved-suc n index xs ys x h g m = record {
  same_length = m.same_length ∙ length-set xs (index + n + 1) x;
  below = λ j a. m.below j a ∙ get_elem?-set_ne xs (index + n + 1) j x (omega arith);
  moved = λ j a b. elim (ℕ_discrete j (index + n)) [
    | yes e ↦ rw e (
        m.above (index + n + 1) (omega arith)
        ∙ get_elem?-set_self xs (index + n + 1) x (omega arith)
        ∙ sym g)
    | no ne ↦ m.moved j a (omega arith) ∙ get_elem?-set_ne xs (index + n + 1) j x (omega arith)
  ];
  above = λ j a. m.above j (omega arith) ∙ get_elem?-set_ne xs (index + n + 1) j x (omega arith);
}

shift-Moved :
    (n index : ℕ) (xs : List Info)
    → index + n < length xs
    → Returns (Moved n index xs) (shift n index xs)
unfolding shift
shift-Moved zero index xs h = returns (record {
  same_length = refl;
  below = λ j a. refl;
  moved = λ j a b. absurd (omega arith);
  above = λ j a. refl;
})
shift-Moved (suc n) index xs h =
    let (x, g) = get_elem?-some xs (index + n) (omega arith) in
    rw g (
      mono
        (shift-Moved n index (set xs (index + n + 1) x)
          (rw (length-set xs (index + n + 1) x) (omega arith)))
        (λ ys m. Moved-suc n index xs ys x h g m))

-- The entry at the index is now two that meet at the byte, and the others are kept in order.
pub record Cut (infos ys : List Info) (index at : ℕ) (x : Info) : Type 0 where
  pub one_more : length ys ≡ length infos + 1
  pub below : (j : ℕ) → j < index → get_elem? ys j ≡ get_elem? infos j
  pub former : get_elem? ys index ≡ some (record x { last = at - 1 })
  pub latter : get_elem? ys (index + 1) ≡ some (record x { start = at })
  pub above : (j : ℕ) → index < j → j < length infos → get_elem? ys (j + 1) ≡ get_elem? infos j

-- The page of the address lies inside the area, and there is room for one entry more.
abbrev pub CanSplit : List Info → Info → ℕ → Type 0
CanSplit infos x at = (x.start < at) × (at < x.last) × (length infos < max_info)

-- What `split_mminfo` does to the entry at the index.
pub data Splits (infos : List Info) (index at : ℕ) : Option (ℕ × List Info) → Type 0 where
  absent : get_elem? infos index ≡ none → Splits infos index at (some (0, infos))
  refused :
      {x : Info}
      → get_elem? infos index ≡ some x
      → ¬ CanSplit infos x at
      → Splits infos index at (some (0, infos))
  cut :
      {x : Info} {ys : List Info}
      → get_elem? infos index ≡ some x
      → CanSplit infos x at
      → 0 < index
      → Cut infos ys index at x
      → Splits infos index at (some (1, ys))
  fault :
      {x : Info}
      → get_elem? infos index ≡ some x
      → CanSplit infos x at
      → index ≡ 0
      → Splits infos index at none

get_elem?-append :
    (xs ys : List Info) (j : ℕ) → j < length xs → get_elem? (xs ++ ys) j ≡ get_elem? xs j
get_elem?-append [] ys j h = absurd (omega arith)
get_elem?-append (x ∷ xs) ys zero h = refl
get_elem?-append (x ∷ xs) ys (suc j) h = get_elem?-append xs ys j (omega arith)

Moved-Cut :
    (infos zs : List Info) (index at : ℕ) (x : Info)
    → index < length infos
    → get_elem? infos index ≡ some x
    → Moved (length infos - index) index (infos ++ x ∷ []) zs
    → Cut infos
        (set (set zs index (record x { last = at - 1 })) (index + 1) (record x { start = at }))
        index
        at
        x
Moved-Cut infos zs index at x lt g m =
    let a = record x { last = at - 1 } in
    let b = record x { start = at } in
    let l : length zs ≡ length infos + 1 = m.same_length ∙ length-append infos (x ∷ []) in
    let l' : length (set zs index a) ≡ length infos + 1 = length-set zs index a ∙ l in
    record {
      one_more = length-set (set zs index a) (index + 1) b ∙ l';
      below = λ j h.
          get_elem?-set_ne (set zs index a) (index + 1) j b (omega arith)
          ∙ get_elem?-set_ne zs index j a (omega arith)
          ∙ m.below j (omega arith)
          ∙ get_elem?-append infos (x ∷ []) j (omega arith);
      former =
          get_elem?-set_ne (set zs index a) (index + 1) index b (omega arith)
          ∙ get_elem?-set_self zs index a (omega arith);
      latter = get_elem?-set_self (set zs index a) (index + 1) b (omega arith);
      above = λ j h k.
          get_elem?-set_ne (set zs index a) (index + 1) (j + 1) b (omega arith)
          ∙ get_elem?-set_ne zs index (j + 1) a (omega arith)
          ∙ m.moved j (omega arith) (omega arith)
          ∙ get_elem?-append infos (x ∷ []) j k;
    }

-- The two assignments that follow the loop.
shift-Splits :
    (infos : List Info) (index at : ℕ) (x : Info)
    → get_elem? infos index ≡ some x
    → CanSplit infos x at
    → 0 < index
    → Splits infos index at (do
      infos' ← shift (length infos - index) index (infos ++ x ∷ [])
      y ← get_elem? infos' (index + 1)
      some (
        1,
        set (set infos' index (record x { last = at - 1 })) (index + 1) (record y { start = at }),
      ))
shift-Splits infos index at x g c pos =
    let lt = get_elem?-lt infos index g in
    let n = length infos - index in
    let (zs, e, m) = Returns-result (
      shift-Moved n index (infos ++ x ∷ [])
        (let l = length-append infos (x ∷ []) in omega arith)) in
    let y : get_elem? zs (index + 1) ≡ some x =
      m.moved index (omega arith) (omega arith) ∙ get_elem?-append infos (x ∷ []) index lt ∙ g in
    rw (e, y) (cut g c pos (Moved-Cut infos zs index at x lt g m))

-- `split_mminfo` on each branch: it refuses an index or an address that is out of range, or if there is
-- no room; it cuts the entry in two at the page of the address; and for entry 0 it does not get there,
-- because its loop does not stop at index 0.
pub split_mminfo-Splits :
    (infos : List Info) (index split_start : ℕ)
    → Splits infos index (split_start / 4096 * 4096) (split_mminfo infos index split_start)
unfolding split_mminfo
split_mminfo-Splits infos index split_start = go (get_elem? infos index) refl
  where
    go :
        (o : Option Info)
        → get_elem? infos index ≡ o
        → Splits infos index (split_start / 4096 * 4096) (elim o [
          | none ↦ some (0, infos)
          | some x ↦
              let at = split_start / 4096 * 4096 in
              if leb at x.start || (leb x.last at || leb max_info (length infos))
              then some (0, infos)
              else if index == 0
              then none
              else (do
                infos' ← shift (length infos - index) index (infos ++ x ∷ [])
                y ← get_elem? infos' (index + 1)
                some (
                  1,
                  set
                      (set infos' index (record x { last = at - 1 }))
                      (index + 1)
                      (record y { start = at }),
                ))
        ])
    go none g = absent g
    go (some x) g =
        let at = split_start / 4096 * 4096 in
        elim (Bool-cases (leb at x.start || (leb x.last at || leb max_info (length infos)))) [
          | inl out ↦ rw out (refused g (λ c. ground arith))
          | inr ok ↦ elim (Bool-cases (index == 0)) [
            | inl first ↦ rw (ok, first) (fault g (ground arith) (==→eq _ _ first))
            | inr later ↦
                rw (ok, later) (shift-Splits infos index at x g (ground arith) (ground arith))
          ]
        ]
