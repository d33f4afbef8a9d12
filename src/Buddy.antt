-- ===== src/Buddy.antt =====
-- kernel/mm/buddy.c and include/zjunix/buddy.h: the buddy allocator. A page is its number in the array
-- `pages`, and a free list the sequence of the pages that are linked in it. `none` is an access
-- outside an array, or the endless loop of a failed start. The lock never waits and has no effect here.
pub mod Cover
pub mod Alloc
mod Tests
pub mod Init
pub mod Free
pub mod Merge
pub mod Linked
pub mod Take
pub mod Blocks
use huge_pie.Bootmm.{Bootmm, Info, align_func, bootmm_alloc_pages, mm_kernel}
use huge_pie.Base.{
  ℕ, zero, suc, ◌+◌, ◌-◌, ◌*◌, ◌/◌, ◌%◌, ◌^◌, bit_or, Bool, true, false, not, Option, none, some,
  List, [], ◌∷◌, get_elem?, set, ltb, leb, ◌==◌, if◌then◌else◌, ◌>>=◌,
}

abbrev pub page_reserved : ℕ
page_reserved = 2 ^ 31

abbrev pub page_alloced : ℕ
page_alloced = 2 ^ 30

abbrev pub max_buddy_order : ℕ
max_buddy_order = 4

-- `-1` in an `unsigned int`.
abbrev pub minus_one : ℕ
minus_one = 2 ^ 32 - 1

-- `struct page`, less its links.
pub record Page : Type 0 where
  pub flag : ℕ
  pub reference : ℕ
  pub virtual : ℕ
  pub bplevel : ℕ
  pub slabp : ℕ

pub record FreeList : Type 0 where
  pub nr_free : ℕ
  pub free_head : List ℕ

-- `struct buddy_sys` and the array `pages`. The field `start_page` is the page `buddy_start_pfn`.
pub record Buddy : Type 0 where
  pub buddy_start_pfn : ℕ
  pub buddy_end_pfn : ℕ
  pub pages : List Page
  pub freelist : List FreeList

abbrev pub set_bplevel : Page → ℕ → Page
set_bplevel page lval = record page { bplevel = lval }

abbrev pub set_flag : Page → ℕ → Page
set_flag page val = record page { flag = bit_or page.flag val }

-- `list_add(&page->list, &freelist[level].free_head)` and `nr_free++`.
unfoldable pub push : List FreeList → ℕ → ℕ → Option (List FreeList)
push freelist level page = do
  free ← get_elem? freelist level
  some (
      set freelist level
        (record { nr_free = (free.nr_free + 1) % 2 ^ 32; free_head = page ∷ free.free_head }))

unfoldable pub without : List ℕ → ℕ → List ℕ
without [] page = []
without (x ∷ xs) page = let rest = without xs page in if x == page then rest else x ∷ rest

-- `list_del_init(&page->list)`: the page leaves the list that it is in.
unfoldable pub unlink : List FreeList → ℕ → List FreeList
unlink [] page = []
unlink (free ∷ lists) page =
    record free { free_head = without free.free_head page } ∷ unlink lists page

-- `nr_free--` of an `unsigned int`.
unfoldable pub count_down : List FreeList → ℕ → Option (List FreeList)
count_down freelist level = do
  free ← get_elem? freelist level
  some (set freelist level (record free { nr_free = (free.nr_free + minus_one) % 2 ^ 32 }))

-- `page_index ^ (1 << bplevel)`: the bit is turned.
unfoldable pub pair_of : ℕ → ℕ → ℕ
pair_of page_index bplevel =
    if page_index / 2 ^ bplevel % 2 == 0 then page_index + 2 ^ bplevel else page_index - 2 ^ bplevel

-- `pair_index & page_index`: the two differ in that bit only, and it is cleared.
unfoldable pub combined_of : ℕ → ℕ → ℕ
combined_of page_index bplevel =
    if page_index / 2 ^ bplevel % 2 == 0 then page_index else page_index - 2 ^ bplevel

-- The loop of `__free_pages`: the rounds that are left, the level, the index of the page from
-- `start_page` on, and the state; then the level, the index and the state at its end.
unfoldable pub merge_loop : ℕ → ℕ → ℕ → Buddy → Option (ℕ × ℕ × Buddy)
merge_loop zero bplevel page_index buddy = some (bplevel, page_index, buddy)
merge_loop (suc n) bplevel page_index buddy = do
  let pair = buddy.buddy_start_pfn + pair_of page_index bplevel
  pair_page ← get_elem? buddy.pages pair
  (if not (pair_page.bplevel == bplevel) then some (bplevel, page_index, buddy) else (do
    freelist ← count_down (unlink buddy.freelist pair) bplevel
    let pages = set buddy.pages pair (set_bplevel pair_page minus_one)
    merge_loop n (bplevel + 1) (combined_of page_index bplevel)
        (record buddy { pages = pages; freelist = freelist })))

-- `__free_pages`; `none` also for a page before `start_page`, whose index is negative.
unfoldable pub raw_free_pages : Buddy → ℕ → ℕ → Option Buddy
raw_free_pages buddy pbpage bplevel = if ltb pbpage buddy.buddy_start_pfn then none else (do
  (level, index, buddy') ←
      merge_loop (max_buddy_order - bplevel) bplevel (pbpage - buddy.buddy_start_pfn) buddy
  let page = buddy.buddy_start_pfn + index
  first ← get_elem? buddy'.pages page
  freelist ← push buddy'.freelist level page
  some (record buddy' {
    pages = set buddy'.pages page (set_bplevel first level);
    freelist = freelist;
  }))

-- The search of a list that is not empty: the rounds that are left and the level; then the level and the
-- first page.
unfoldable pub find_level : ℕ → ℕ → List FreeList → Option (Option (ℕ × ℕ))
find_level zero current_level freelist = some none
find_level (suc n) current_level freelist = do
  free ← get_elem? freelist current_level
  let rest = find_level n (current_level + 1) freelist
  elim free.free_head [ [] ↦ rest | page ∷ pages ↦ some (some (current_level, page)) ]

-- The loop that gives back the upper halves: the rounds that are left, the level and the size.
unfoldable pub halve : ℕ → ℕ → ℕ → ℕ → Buddy → Option Buddy
halve zero current_level size page buddy = some buddy
halve (suc n) current_level size page buddy = do
  freelist ← push buddy.freelist (current_level - 1) (page + size / 2)
  buddy_page ← get_elem? buddy.pages (page + size / 2)
  halve n (current_level - 1) (size / 2) page (record buddy {
    pages = set buddy.pages (page + size / 2) (set_bplevel buddy_page (current_level - 1));
    freelist = freelist;
  })

-- `__alloc_pages` once a list was found.
unfoldable pub take_block : Buddy → ℕ → ℕ → ℕ → Option Buddy
take_block buddy bplevel current_level page = do
  first ← get_elem? buddy.pages page
  freelist ← count_down (unlink buddy.freelist page) current_level
  halve (current_level - bplevel) current_level (2 ^ current_level) page (record buddy {
    pages = set buddy.pages page (set_flag (set_bplevel first bplevel) page_alloced);
    freelist = freelist;
  })

-- `__alloc_pages`: the page, or `none` for the null pointer, and the state.
unfoldable pub raw_alloc_pages : Buddy → ℕ → Option (Option ℕ × Buddy)
raw_alloc_pages buddy bplevel = if ltb max_buddy_order bplevel then some (none, buddy) else (do
  r ← find_level (max_buddy_order + 1 - bplevel) bplevel buddy.freelist
  elim r [
    | none ↦ some (none, buddy)
    | some found ↦ (do
      buddy' ← take_block buddy bplevel found.0 found.1
      some (some found.1, buddy'))
  ])

-- The loop of `alloc_pages`, on fuel: the least level of a block that holds the pages.
unfoldable pub level_for : ℕ → ℕ → ℕ → Option ℕ
level_for zero bplevel page_num = none
level_for (suc fuel) bplevel page_num =
    let rest = level_for fuel (bplevel + 1) page_num in
    if ltb (2 ^ bplevel) page_num then rest else some bplevel

-- The address, 0 for the null pointer. An `int` is shifted at most 31 times.
unfoldable pub alloc_pages : Buddy → ℕ → Option (ℕ × Buddy)
alloc_pages buddy page_num = if page_num == 0 then some (0, buddy) else (do
  bplevel ← level_for 32 0 page_num
  (page, buddy') ← raw_alloc_pages buddy bplevel
  some (elim page [ none ↦ 0 | some p ↦ p * 4096 % 2 ^ 32 ], buddy'))

unfoldable pub free_pages : Buddy → ℕ → ℕ → Option Buddy
free_pages buddy addr bplevel = raw_free_pages buddy (addr / 4096) bplevel

-- `init_pages`: what it leaves in each page, whatever was there.
unfoldable pub init_pages : ℕ → List Page
init_pages zero = []
init_pages (suc n) =
    record {
      flag = page_reserved;
      reference = 1;
      virtual = minus_one;
      bplevel = minus_one;
      slabp = 0;
    }
    ∷ init_pages n

-- The last byte of all areas.
unfoldable pub last_byte : List Info → ℕ → ℕ
last_byte [] kernel_end = kernel_end
last_byte (x ∷ xs) kernel_end = last_byte xs (if ltb kernel_end x.last then x.last else kernel_end)

-- The last loop of `init_buddy`: the rounds that are left and the page.
unfoldable pub free_each : ℕ → ℕ → Buddy → Option Buddy
free_each zero i buddy = some buddy
free_each (suc n) i buddy = do buddy' ← raw_free_pages buddy i 0; free_each n (i + 1) buddy'

abbrev pub no_pages : FreeList
no_pages = record { nr_free = 0; free_head = [] }

-- A `struct page` has 28 bytes.
unfoldable pub init_buddy : Bootmm → Option (Buddy × Bootmm)
init_buddy bmm = do
  (bp_base, bmm') ← bootmm_alloc_pages bmm (28 * bmm.max_pfn % 2 ^ 32) mm_kernel 4096
  let start = align_func (last_byte bmm'.info 0 / 4096) (2 ^ max_buddy_order)
  let end = bmm'.max_pfn / 16 * 16
  (if bp_base == 0 then none else (do
    buddy ← free_each (end - start) start (record {
      buddy_start_pfn = start;
      buddy_end_pfn = end;
      pages = init_pages bmm'.max_pfn;
      freelist = no_pages ∷ no_pages ∷ no_pages ∷ no_pages ∷ no_pages ∷ [];
    })
    some (buddy, bmm')))
