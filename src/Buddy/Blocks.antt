-- ===== src/Buddy/Blocks.antt =====
-- kernel/mm/buddy.c: `__alloc_pages` takes one block out of the free lists.
use huge_pie.Buddy.{Buddy, FreeList, take_block, find_level, raw_alloc_pages, max_buddy_order}
use huge_pie.Buddy.Cover.{inside, inside_in, inside_out}
use huge_pie.Buddy.Take.{covered, IsBuddy, take_block-Less}
use huge_pie.Base.{
  ℕ, ℕ_discrete, some-injective, zero, suc, ◌+◌, ◌-◌, ◌^◌, ◌≤◌, ◌<◌, ◌⊎◌, inl, inr, ◌≡◌, refl, sym,
  ap, ◌∙◌, Option, none, some, List, [], ◌∷◌, length, get_elem?, ltb, ◌>>=◌, Bool-cases, arith,
  Returns, returns, bind, mono, get_elem?-some,
}

-- How the search of a list ends.
data Level (bplevel : ℕ) (lists : List FreeList) : ℕ → Option (ℕ × ℕ) → Type 0 where
  level_none :
      {n : ℕ}
      → ((k : ℕ)
          → bplevel ≤ k
          → k < bplevel + n
          → (free : FreeList) → get_elem? lists k ≡ some free
          → free.free_head ≡ [])
      → Level bplevel lists n none
  level_some :
      {n level page : ℕ} {free : FreeList} {pages : List ℕ}
      → bplevel ≤ level
      → get_elem? lists level ≡ some free
      → free.free_head ≡ page ∷ pages
      → Level bplevel lists n (some (level, page))

Level-head :
    (n bplevel : ℕ) (lists : List FreeList) (free : FreeList) (l : List ℕ)
    (rest : Option (Option (ℕ × ℕ)))
    → get_elem? lists bplevel ≡ some free
    → free.free_head ≡ l
    → Returns (Level (bplevel + 1) lists n) rest
    → Returns
        (Level bplevel lists (suc n))
        (elim l [ [] ↦ rest | page ∷ pages ↦ some (some (bplevel, page)) ])
Level-head n bplevel lists free (page ∷ pages) rest g e r = returns (level_some (omega arith) g e)
Level-head n bplevel lists free [] rest g e r = mono r (λ o l. go o l)
  where
    go : (o : Option (ℕ × ℕ)) → Level (bplevel + 1) lists n o → Level bplevel lists (suc n) o
    go o (level_some a k h) = level_some (omega arith) k h
    go o (level_none f) = level_none {n = suc n} (λ k a b free' h. elim (ℕ_discrete k bplevel) [
      | yes q ↦
          sym
            (ap FreeList.free_head (some-injective _ _ (sym g ∙ ap (get_elem? lists) (sym q) ∙ h)))
          ∙ e
      | no ne ↦ f k (omega arith) (omega arith) free' h
    ])

find_level-Level :
    (n bplevel : ℕ) (lists : List FreeList)
    → bplevel + n ≤ length lists
    → Returns (Level bplevel lists n) (find_level n bplevel lists)
unfolding find_level
find_level-Level zero bplevel lists h = returns (level_none (λ k a b free g. absurd (omega arith)))
find_level-Level (suc n) bplevel lists h =
    let (free, g) = get_elem?-some lists bplevel (omega arith) in
    rw g (
      Level-head n bplevel lists free free.free_head _ g refl
        (find_level-Level n (bplevel + 1) lists (omega arith)))

-- The result of `__alloc_pages`: a block of `2 ^ bplevel` pages that was free and is not any more, where
-- all other pages are free as before; or the null pointer with nothing changed, where the lists of this
-- level and of those above are empty.
pub data AllocatedBlock (buddy : Buddy) (bplevel : ℕ) : Option ℕ × Buddy → Type 0 where
  no_block :
      ((k : ℕ)
        → bplevel ≤ k
        → k ≤ max_buddy_order
        → (free : FreeList) → get_elem? buddy.freelist k ≡ some free
        → free.free_head ≡ [])
      → AllocatedBlock buddy bplevel (none, buddy)
  block :
      {buddy' : Buddy} (page : ℕ)
      → ((x : ℕ)
          → page ≤ x
          → x < page + 2 ^ bplevel
          → (covered buddy x ≡ 1) × (covered buddy' x ≡ 0))
      → ((x : ℕ) → (x < page) ⊎ (page + 2 ^ bplevel ≤ x) → covered buddy' x ≡ covered buddy x)
      → IsBuddy buddy'
      → AllocatedBlock buddy bplevel (some page, buddy')

Less-block :
    (buddy buddy' : Buddy) (bplevel page : ℕ)
    → IsBuddy buddy
    → length buddy'.freelist ≡ length buddy.freelist
    → length buddy'.pages ≡ length buddy.pages
    → ((x : ℕ) → covered buddy' x + inside page (2 ^ bplevel) x ≡ covered buddy x)
    → AllocatedBlock buddy bplevel (some page, buddy')
Less-block buddy buddy' bplevel page b l m c =
    block page
      (λ x le lt.
        let i = inside_in page (2 ^ bplevel) x le lt in
        (omega (arith, c x, b.apart x), omega (arith, c x, b.apart x)))
      (λ x out. omega (arith, c x, inside_out page (2 ^ bplevel) x out))
      (record {
        levels = l ∙ b.levels;
        apart = λ x. omega (arith, c x, b.apart x);
        in_array = λ x p. omega (arith, m, b.in_array x (omega (arith, c x)));
      })

-- `__alloc_pages` ends without a fault, and does one of the two things of `AllocatedBlock`, if the free
-- blocks do not overlap and lie inside the array of pages; this holds again afterwards.
pub raw_alloc_pages-AllocatedBlock :
    (buddy : Buddy) (bplevel : ℕ)
    → IsBuddy buddy
    → Returns (AllocatedBlock buddy bplevel) (raw_alloc_pages buddy bplevel)
unfolding raw_alloc_pages
raw_alloc_pages-AllocatedBlock buddy bplevel b = elim (Bool-cases (ltb max_buddy_order bplevel)) [
  | inl big ↦ rw big (returns (no_block (λ k a c. absurd (ground arith))))
  | inr ok ↦ rw ok (
      bind
        (find_level-Level (max_buddy_order + 1 - bplevel) bplevel buddy.freelist
          (let l = b.levels in ground arith))
        (λ r l. go (ground arith) r l))
]
  where
    go :
        bplevel ≤ max_buddy_order
        → (r : Option (ℕ × ℕ)) → Level bplevel buddy.freelist (max_buddy_order + 1 - bplevel) r
        → Returns (AllocatedBlock buddy bplevel) (elim r [
          | none ↦ some (none, buddy)
          | some found ↦ (do
            buddy' ← take_block buddy bplevel found.0 found.1
            some (some found.1, buddy'))
        ])
    go le r (level_none f) = returns (no_block (λ k a c. f k a (omega arith)))
    go le r (level_some {level} {page} {free} {pages} a g h) =
        bind (take_block-Less buddy bplevel level page free pages b a g h)
          (λ buddy' c. returns (Less-block buddy buddy' bplevel page b c.0 c.1 c.2))
