-- ===== src/Buddy/Alloc.antt =====
-- kernel/mm/buddy.c: `alloc_pages` asks for the smallest block that holds the pages.
use huge_pie.Buddy.{Buddy, level_for, alloc_pages}
use huge_pie.Buddy.Take.{IsBuddy}
use huge_pie.Buddy.Blocks.{AllocatedBlock, block, raw_alloc_pages-AllocatedBlock}
use huge_pie.Base.{
  pow_pos, ℕ, ℕ_discrete, zero, suc, ◌+◌, ◌*◌, ◌%◌, ◌^◌, ◌≤◌, ◌<◌, inl, inr, ◌≡◌, refl, Option,
  none, some, length, ltb, ◌==◌, Bool-cases, arith, Returns, returns, bind, false,
}

-- The least level of a block of so many pages.
abbrev pub IsLevelFor : ℕ → ℕ → Type 0
IsLevelFor page_num level = (page_num ≤ 2 ^ level) × ((k : ℕ) → k < level → 2 ^ k < page_num)

level_for_least :
    (fuel bplevel page_num : ℕ)
    → fuel + bplevel ≡ 32
    → page_num ≤ 2 ^ 31
    → ((k : ℕ) → k < bplevel → 2 ^ k < page_num)
    → Returns (IsLevelFor page_num) (level_for fuel bplevel page_num)
unfolding level_for
level_for_least zero bplevel page_num e le f = absurd (let h = f 31 (omega arith) in omega arith)
level_for_least (suc fuel) bplevel page_num e le f =
    elim (Bool-cases (ltb (2 ^ bplevel) page_num)) [
      | inr enough ↦ rw enough (returns (ground arith, f))
      | inl less ↦
          let lt : 2 ^ bplevel < page_num = ground arith in
          rw less (
            level_for_least fuel (bplevel + 1) page_num (omega arith) le (λ k a.
              elim (ℕ_discrete k bplevel) [ yes same ↦ rw same lt | no ne ↦ f k (omega arith) ]))
    ]

-- The result of `alloc_pages`: what `__alloc_pages` does for that level, with the address of the page.
pub record Given (buddy : Buddy) (page_num : ℕ) (r : ℕ × Buddy) : Type 0 where
  pub level : ℕ
  pub least : IsLevelFor page_num level
  pub page : Option ℕ
  pub allocated : AllocatedBlock buddy level (page, r.1)
  pub address : r.0 ≡ elim page [ none ↦ 0 | some p ↦ p * 4096 ]

block_small :
    (buddy buddy' : Buddy) (level p : ℕ)
    → IsBuddy buddy
    → length buddy.pages ≤ 2 ^ 20
    → AllocatedBlock buddy level (some p, buddy')
    → p * 4096 % 2 ^ 32 ≡ p * 4096
block_small buddy buddy' level p b small (block page f g again) =
    let h = (f page (omega arith) (let pos = pow_pos level in omega arith)).0 in
    let lt = b.in_array page (omega arith) in omega arith

-- `alloc_pages` for 1 to 2^31 pages ends without a fault, and takes a block of the least level that holds
-- them, or returns 0 with nothing changed, if the free blocks do not overlap and lie inside an array of at
-- most 2^20 pages.
pub alloc_pages-Given :
    (buddy : Buddy) (page_num : ℕ)
    → IsBuddy buddy
    → length buddy.pages ≤ 2 ^ 20
    → 0 < page_num
    → page_num ≤ 2 ^ 31
    → Returns (Given buddy page_num) (alloc_pages buddy page_num)
unfolding alloc_pages
alloc_pages-Given buddy page_num b small pos le =
    let ne : (page_num == 0) ≡ false = ground arith in
    rw ne (
      bind (level_for_least 32 0 page_num (omega arith) le (λ k a. absurd (omega arith)))
        (λ level least.
          bind (raw_alloc_pages-AllocatedBlock buddy level b)
            (λ r a. returns (go level least r.0 r.1 a))))
  where
    go :
        (level : ℕ)
        → IsLevelFor page_num level
        → (page : Option ℕ) (buddy' : Buddy) → AllocatedBlock buddy level (page, buddy')
        → Given buddy page_num (elim page [ none ↦ 0 | some p ↦ p * 4096 % 2 ^ 32 ], buddy')
    go level least none buddy' a = record {
      level = level;
      least = least;
      page = none;
      allocated = a;
      address = refl;
    }
    go level least (some p) buddy' a = record {
      level = level;
      least = least;
      page = some p;
      allocated = a;
      address = block_small buddy buddy' level p b small a;
    }
