-- ===== src/Buddy/Cover.antt =====
-- kernel/mm/buddy.c: how often a page lies in a block of the free lists, and what linking a page into a
-- list and out of it does to that.
use huge_pie.Buddy.{FreeList, push, without, unlink, count_down}
use huge_pie.Base.{
  pow_pos, ℕ, zero, suc, ◌+◌, ◌-◌, ◌*◌, ◌%◌, ◌^◌, ◌≤◌, ◌<◌, ◌⊎◌, inl, inr, ◌≡◌, refl, sym, ap, some,
  List, [], ◌∷◌, length, get_elem?, set, ltb, leb, ◌&&◌, ◌==◌, if◌then◌else◌, Bool-cases, arith,
  Returns, returns, length-set, get_elem?-some, some-injective, ==→eq, ==→ne,
}

-- 1 for a page of the block of `size` pages from `page` on, and 0 for another.
abbrev pub inside : ℕ → ℕ → ℕ → ℕ
inside page size x = if leb page x && ltb x (page + size) then 1 else 0

pub inside-halves :
    (page half x : ℕ) → inside page (2 * half) x ≡ inside page half x + inside (page + half) half x
inside-halves page half x = ground arith

pub inside_first : (page size : ℕ) → 0 < size → inside page size page ≡ 1
inside_first page size pos = ground arith

pub inside_last : (page size : ℕ) → 0 < size → inside page size (page + (size - 1)) ≡ 1
inside_last page size pos = ground arith

pub inside_in : (page size x : ℕ) → page ≤ x → x < page + size → inside page size x ≡ 1
inside_in page size x le lt = ground arith

pub inside_out : (page size x : ℕ) → (x < page) ⊎ (page + size ≤ x) → inside page size x ≡ 0
inside_out page size x out = ground arith

-- The number of the blocks of a list that the page lies in.
abbrev pub hits : ℕ → List ℕ → ℕ → ℕ
hits size [] x = 0
hits size (page ∷ pages) x = inside page size x + hits size pages x

-- The number of all blocks that the page lies in, where the first list is that of the level.
abbrev pub cover : ℕ → List FreeList → ℕ → ℕ
cover level [] x = 0
cover level (free ∷ lists) x = hits (2 ^ level) free.free_head x + cover (level + 1) lists x

-- `n` is the level of the list that is replaced.
cover-set :
    (level k n : ℕ) (lists : List FreeList) (free free' : FreeList) (x : ℕ)
    → level + k ≡ n
    → get_elem? lists k ≡ some free
    → cover level (set lists k free') x + hits (2 ^ n) free.free_head x
      ≡ cover level lists x + hits (2 ^ n) free'.free_head x
cover-set level k n [] free free' x e g = absurd cc
cover-set level zero n (f ∷ lists) free free' x e g =
    let same = ap (λ l. hits (2 ^ level) (FreeList.free_head l) x) (some-injective _ _ g) in
    let z : n ≡ level = omega arith in rw z (omega arith)
cover-set level (suc k) n (f ∷ lists) free free' x e g =
    let later = cover-set (level + 1) k n lists free free' x (omega arith) g in omega arith

pub push-cover :
    (lists : List FreeList) (k page : ℕ)
    → k < length lists
    → Returns
        (λ ls.
          (length ls ≡ length lists)
          × ((x : ℕ) → cover 0 ls x ≡ cover 0 lists x + inside page (2 ^ k) x))
        (push lists k page)
unfolding push
push-cover lists k page h =
    let (free, g) = get_elem?-some lists k h in
    rw g (
      returns (
        length-set lists k _,
        λ x. omega (
          arith,
          cover-set 0 k k lists free
              (record { nr_free = (free.nr_free + 1) % 2 ^ 32; free_head = page ∷ free.free_head })
              x (omega arith) g,
        ),
      ))

pub count_down-cover :
    (lists : List FreeList) (k : ℕ)
    → k < length lists
    → Returns
        (λ ls. (length ls ≡ length lists) × ((x : ℕ) → cover 0 ls x ≡ cover 0 lists x))
        (count_down lists k)
unfolding count_down
count_down-cover lists k h =
    let (free, g) = get_elem?-some lists k h in
    rw g (
      returns (
        length-set lists k _,
        λ x. omega (
          arith,
          cover-set 0 k k lists free
              (record free { nr_free = (free.nr_free + (2 ^ 32 - 1)) % 2 ^ 32 }) x (omega arith) g,
        ),
      ))

-- A page that is taken out of a list lies in no block of it, or was the first page of just one.
without-hits :
    (size : ℕ) (xs : List ℕ) (page : ℕ)
    → 0 < size
    → hits size xs page ≤ 1
    → (without xs page ≡ xs)
      ⊎ ((hits size xs page ≡ 1)
          × ((x : ℕ) → hits size (without xs page) x + inside page size x ≡ hits size xs x))
unfolding without
without-hits size [] page pos le = inl refl
without-hits size (y ∷ xs) page pos le = elim (Bool-cases (y == page)) [
  | inl same ↦
      let e : y ≡ page = ==→eq _ _ same in
      let one : inside y size page ≡ 1 = rw e (inside_first page size pos) in
      rw (same, e)
        (elim (without-hits size xs page pos (omega arith)) [
          | inl kept ↦ rw kept (inr (omega (arith, inside_first page size pos), λ x. omega arith))
          | inr once ↦ absurd (let h = once.0 in omega arith)
        ])
  | inr other ↦ rw other (elim (without-hits size xs page pos (omega arith)) [
    | inl kept ↦ inl (ap (λ l. y ∷ l) kept)
    | inr once ↦ inr (omega arith, λ x. omega (arith, once.1 x))
  ])
]

-- The page is linked in the list.
abbrev pub IsLinked : ℕ → List ℕ → Type 0
IsLinked page [] = ⊥
IsLinked page (y ∷ ys) = (page ≡ y) ⊎ IsLinked page ys

length-without : (xs : List ℕ) (page : ℕ) → length (without xs page) ≤ length xs
unfolding without
length-without [] page = omega arith
length-without (y ∷ xs) page = elim (Bool-cases (y == page)) [
  | inl same ↦ rw same (omega (arith, length-without xs page))
  | inr other ↦ rw other (omega (arith, length-without xs page))
]

without_shorter : (xs : List ℕ) (page : ℕ) → IsLinked page xs → length (without xs page) < length xs
unfolding without
without_shorter [] page h = absurd h
without_shorter (y ∷ xs) page h = elim (Bool-cases (y == page)) [
  | inl same ↦ rw same (omega (arith, length-without xs page))
  | inr other ↦ elim h [
    | inl e ↦ absurd (==→ne y page other (sym e))
    | inr r ↦ rw other (omega (arith, without_shorter xs page r))
  ]
]

hits_linked :
    (size : ℕ) (xs : List ℕ) (page : ℕ) → 0 < size → IsLinked page xs → 0 < hits size xs page
hits_linked size [] page pos h = absurd h
hits_linked size (y ∷ xs) page pos h = elim h [
  | inl e ↦ rw (sym e) (omega (arith, inside_first page size pos))
  | inr r ↦ omega (arith, hits_linked size xs page pos r)
]

unlink_none :
    (level : ℕ) (lists : List FreeList) (page : ℕ)
    → cover level lists page ≡ 0
    → (x : ℕ) → cover level (unlink lists page) x ≡ cover level lists x
unfolding unlink
unlink_none level [] page z x = refl
unlink_none level (free ∷ lists) page z x =
    elim (without-hits (2 ^ level) free.free_head page (pow_pos level) (omega arith)) [
      | inl kept ↦ rw kept (omega (arith, unlink_none (level + 1) lists page (omega arith) x))
      | inr once ↦ absurd (let h = once.0 in omega arith)
    ]

-- A page that is linked in a list lies in a block.
cover_linked :
    (level k n : ℕ) (lists : List FreeList) (free : FreeList) (page : ℕ)
    → level + k ≡ n
    → get_elem? lists k ≡ some free
    → IsLinked page free.free_head
    → 0 < cover level lists page
cover_linked level k n [] free page e g h = absurd cc
cover_linked level zero n (f ∷ lists) free page e g h =
    let same : FreeList.free_head f ≡ free.free_head =
      ap FreeList.free_head (some-injective _ _ g) in
    rw same (omega (arith, hits_linked (2 ^ level) free.free_head page (pow_pos level) h))
cover_linked level (suc k) n (f ∷ lists) free page e g h =
    omega (arith, cover_linked (level + 1) k n lists free page (omega arith) g h)

-- A page that is linked in the list of a level is taken out of it, if blocks do not overlap.
pub unlink_linked :
    (level k n : ℕ) (lists : List FreeList) (free : FreeList) (page : ℕ)
    → level + k ≡ n
    → get_elem? lists k ≡ some free
    → IsLinked page free.free_head
    → cover level lists page ≤ 1
    → (x : ℕ) → cover level (unlink lists page) x + inside page (2 ^ n) x ≡ cover level lists x
unfolding unlink
unlink_linked level k n [] free page e g h le x = absurd cc
unlink_linked level zero n (f ∷ lists) free page e g h le x =
    let same : FreeList.free_head f ≡ free.free_head =
      ap FreeList.free_head (some-injective _ _ g) in
    let linked : IsLinked page (FreeList.free_head f) = rw same h in
    let z : n ≡ level = omega arith in
    elim (without-hits (2 ^ level) f.free_head page (pow_pos level) (omega arith)) [
      | inl kept ↦
          absurd (
            let s = without_shorter f.free_head page linked in
            let l = ap length kept in omega arith)
      | inr once ↦ rw z (
          omega
            (arith, once.1 x, unlink_none (level + 1) lists page (let o = once.0 in omega arith) x))
    ]
unlink_linked level (suc k) n (f ∷ lists) free page e g h le x =
    let first = cover_linked (level + 1) k n lists free page (omega arith) g h in
    elim (without-hits (2 ^ level) f.free_head page (pow_pos level) (omega arith)) [
      | inl kept ↦ rw kept (
          omega (
            arith,
            unlink_linked (level + 1) k n lists free page (omega arith) g h (omega arith) x,
          ))
      | inr once ↦ absurd (let o = once.0 in omega arith)
    ]

pub length-unlink : (lists : List FreeList) (page : ℕ) → length (unlink lists page) ≡ length lists
unfolding unlink
length-unlink [] page = refl
length-unlink (free ∷ lists) page = ap suc (length-unlink lists page)
