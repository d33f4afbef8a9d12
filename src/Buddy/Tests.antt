-- ===== src/Buddy/Tests.antt =====
-- kernel/mm/buddy.c: runs over sixteen pages.
use huge_pie.Bootmm.{
  Bootmm, bootmm_alloc_pages, align_func, find_pages, find_loop, scan, set_maps, cleared,
  record_pages, insert_mminfo, merge, extend, mm_kernel, page_used,
}
use huge_pie.Buddy.{
  Buddy, Page, FreeList, init_pages, raw_alloc_pages, raw_free_pages, alloc_pages, find_level,
  take_block, halve, push, unlink, without, count_down, merge_loop, pair_of, combined_of,
  init_buddy, page_reserved, minus_one, no_pages,
}
use huge_pie.Buddy.Linked.{IsHonest}
use huge_pie.Buddy.Take.{IsBuddy}
use huge_pie.Buddy.Blocks.{AllocatedBlock, raw_alloc_pages-AllocatedBlock}
use huge_pie.Buddy.Free.{Freed, raw_free_pages-Freed}
use huge_pie.Buddy.Init.{Ready, start_pfn, init_buddy-Ready, init_pages_level, length-init_pages}
use huge_pie.Buddy.Alloc.{Given, alloc_pages-Given}
use huge_pie.Base.{
  ℕ, zero, suc, ◌-◌, ◌*◌, ◌/◌, ◌%◌, ◌^◌, inl, ◌≡◌, refl, ap, Option, some, some-injective, List, [],
  ◌∷◌, ◌>>=◌, arith, Returns,
}

abbrev page_at : ℕ → Page
page_at level = record {
  flag = page_reserved;
  reference = 1;
  virtual = minus_one;
  bplevel = level;
  slabp = 0;
}

-- One free block of sixteen pages.
abbrev one_block : Buddy
one_block = record {
  buddy_start_pfn = 0;
  buddy_end_pfn = 16;
  pages = page_at 4 ∷ init_pages 15;
  freelist =
      no_pages ∷ no_pages ∷ no_pages ∷ no_pages ∷ record { nr_free = 1; free_head = 0 ∷ [] } ∷ [];
}

one_block-IsBuddy : IsBuddy one_block
one_block-IsBuddy = record {
  levels = refl;
  apart = λ x. ground arith;
  in_array = λ x p. let l = length-init_pages 15 in ground arith;
}

-- Only page 2 is free.
abbrev one_page : Buddy
one_page = record {
  buddy_start_pfn = 0;
  buddy_end_pfn = 16;
  pages = page_at minus_one ∷ page_at minus_one ∷ page_at 0 ∷ init_pages 13;
  freelist =
      record { nr_free = 1; free_head = 2 ∷ [] } ∷ no_pages ∷ no_pages ∷ no_pages ∷ no_pages ∷ [];
}

one_page-IsBuddy : IsBuddy one_page
one_page-IsBuddy = record {
  levels = refl;
  apart = λ x. ground arith;
  in_array = λ x p. let l = length-init_pages 13 in ground arith;
}

one_page-IsHonest : IsHonest one_page.pages one_page.freelist
one_page-IsHonest zero level q lt g h =
    absurd (let e = ap Page.bplevel (some-injective _ _ g) in omega arith)
one_page-IsHonest (suc zero) level q lt g h =
    absurd (let e = ap Page.bplevel (some-injective _ _ g) in omega arith)
one_page-IsHonest (suc (suc zero)) zero q lt g h =
    (record { nr_free = 1; free_head = 2 ∷ [] }, refl, inl refl)
one_page-IsHonest (suc (suc zero)) (suc level) q lt g h =
    absurd (let e = ap Page.bplevel (some-injective _ _ g) in omega arith)
one_page-IsHonest (suc (suc (suc x))) level q lt g h =
    absurd (let e = init_pages_level 13 x q g in omega arith)

raw_alloc_pages-AllocatedBlock_example :
    Returns (AllocatedBlock one_block 1) (raw_alloc_pages one_block 1)
raw_alloc_pages-AllocatedBlock_example =
    raw_alloc_pages-AllocatedBlock one_block 1 one_block-IsBuddy

alloc_pages-Given_example : Returns (Given one_block 3) (alloc_pages one_block 3)
alloc_pages-Given_example =
    alloc_pages-Given one_block 3 one_block-IsBuddy (let l = length-init_pages 15 in omega arith)
      (omega arith) (omega arith)

raw_free_pages-Freed_example : Returns (Freed one_page 3 0) (raw_free_pages one_page 3 0)
raw_free_pages-Freed_example =
    raw_free_pages-Freed 16 one_page 3 0 one_page-IsBuddy
      (record { whole = refl; in_pages = let l = length-init_pages 13 in omega arith })
      one_page-IsHonest (omega arith) (omega arith) (omega arith) (λ x a b. ground arith)

-- Pages 0 and 1 are handed out, and page 0 is given back: page 1 is taken for a free page, and the block of
-- all sixteen pages is free again. The count of the first list falls below 0.
abbrev take_two_free_one : Option (Option ℕ × Option ℕ × List FreeList)
take_two_free_one = do
  (p, buddy) ← raw_alloc_pages one_block 0
  (q, buddy') ← raw_alloc_pages buddy 0
  buddy'' ← raw_free_pages buddy' 0 0
  some (p, q, buddy''.freelist)

pair_in_use :
    take_two_free_one
    ≡ some (
      some 0,
      some 1,
      record { nr_free = 2 ^ 32 - 1; free_head = [] }
          ∷ no_pages
          ∷ no_pages
          ∷ no_pages
          ∷ record { nr_free = 1; free_head = 0 ∷ [] }
          ∷ [],
    )
unfolding raw_alloc_pages raw_free_pages find_level take_block halve push unlink without count_down
    merge_loop pair_of combined_of init_pages
pair_in_use = refl

-- A machine of 64 pages, of which the first two are in use.
abbrev small_machine : Bootmm
small_machine = record {
  max_pfn = 64;
  s_map = set_maps 0 2 (cleared 64) page_used;
  last_alloc_end = 1;
  info = record { start = 0; last = 8191; type = 0 } ∷ [];
}

abbrev with_pages : Bootmm
with_pages = record {
  max_pfn = 64;
  s_map = set_maps 2 1 (set_maps 0 2 (cleared 64) page_used) page_used;
  last_alloc_end = 2;
  info = record { start = 0; last = 12287; type = 0 } ∷ [];
}

small_machine-alloc :
    bootmm_alloc_pages small_machine (28 * 64 % 2 ^ 32) mm_kernel 4096 ≡ some (8192, with_pages)
unfolding bootmm_alloc_pages align_func find_pages find_loop scan set_maps cleared record_pages
    insert_mminfo merge extend
small_machine-alloc = refl

init_buddy-Ready_example :
    Returns
      (λ r. Ready (start_pfn with_pages) (64 / 16 * 16) r.0 × (r.1 ≡ with_pages))
      (init_buddy small_machine)
init_buddy-Ready_example =
    init_buddy-Ready small_machine with_pages 8192 small_machine-alloc (omega arith)
