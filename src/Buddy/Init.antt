-- ===== src/Buddy/Init.antt =====
-- kernel/mm/buddy.c: the state after `init_buddy`.
use huge_pie.Bootmm.{Bootmm, bootmm_alloc_pages, align_func, mm_kernel}
use huge_pie.Buddy.{
  Buddy, Page, FreeList, init_pages, last_byte, free_each, init_buddy, no_pages, minus_one,
  max_buddy_order,
}
use huge_pie.Buddy.Cover.{inside, inside_out}
use huge_pie.Buddy.Linked.{IsHonest}
use huge_pie.Buddy.Take.{covered, IsBuddy}
use huge_pie.Buddy.Merge.{IsRange}
use huge_pie.Buddy.Free.{raw_free_pages-Freed}
use huge_pie.Base.{
  ℕ, dec_le, zero, suc, ◌+◌, ◌-◌, ◌*◌, ◌/◌, ◌%◌, ◌^◌, ◌≤◌, ◌<◌, ◌≡◌, refl, sym, ap, subst, ◌∙◌,
  some, List, [], ◌∷◌, length, get_elem?, ◌==◌, arith, Returns, returns, bind, mono, some-injective,
  false,
}

pub length-init_pages : (n : ℕ) → length (init_pages n) ≡ n
unfolding init_pages
length-init_pages zero = refl
length-init_pages (suc n) = ap suc (length-init_pages n)

pub init_pages_level :
    (n x : ℕ) (q : Page) → get_elem? (init_pages n) x ≡ some q → q.bplevel ≡ minus_one
unfolding init_pages
init_pages_level zero x q e = absurd cc
init_pages_level (suc n) zero q e = sym (ap Page.bplevel (some-injective _ _ e))
init_pages_level (suc n) (suc x) q e = init_pages_level n x q e

-- The state while the pages are put in: those below `i` are free.
record Filled (start count i : ℕ) (buddy : Buddy) : Type 0 where
  same_start : buddy.buddy_start_pfn ≡ start
  range : IsRange buddy count
  covers : (x : ℕ) → covered buddy x ≡ inside start (i - start) x
  honest : IsHonest buddy.pages buddy.freelist
  again : IsBuddy buddy

inside_next :
    (start i x : ℕ)
    → start ≤ i
    → inside start (i + 1 - start) x ≡ inside start (i - start) x + inside i 1 x
inside_next start i x le = ground arith

free_each-Filled :
    (start count n i : ℕ) (buddy : Buddy)
    → n + i ≡ start + count
    → start ≤ i
    → Filled start count i buddy
    → Returns (Filled start count (start + count)) (free_each n i buddy)
unfolding free_each
free_each-Filled start count zero i buddy e le f =
    let same : i ≡ start + count = omega arith in
    returns (subst (λ j. Filled start count j buddy) same f)
free_each-Filled start count (suc n) i buddy e le f =
    let s = f.same_start in
    bind
      (raw_free_pages-Freed count buddy i 0 f.again f.range f.honest (omega arith) (omega arith)
        (omega arith) (λ x a b. f.covers x ∙ inside_out start (i - start) x (omega arith)))
      (λ buddy' r.
        free_each-Filled start count n (i + 1) buddy' (omega arith) (omega arith) (record {
          same_start = r.same_start ∙ s;
          range = record {
            whole = f.range.whole;
            in_pages = let p = f.range.in_pages in omega (arith, r.same_start, r.same_pages);
          };
          covers = λ x. omega (arith, r.covers x, f.covers x, inside_next start i x le);
          honest = r.honest;
          again = r.again;
        }))

abbrev five_lists : List FreeList
five_lists = no_pages ∷ no_pages ∷ no_pages ∷ no_pages ∷ no_pages ∷ []

empty-Filled :
    (start end max_pfn : ℕ)
    → start % 16 ≡ 0
    → end % 16 ≡ 0
    → start ≤ end
    → end ≤ max_pfn
    → Filled start (end - start) start (record {
      buddy_start_pfn = start;
      buddy_end_pfn = end;
      pages = init_pages max_pfn;
      freelist = five_lists;
    })
empty-Filled start end max_pfn s e le m = record {
  same_start = refl;
  range = record { whole = omega arith; in_pages = omega (arith, length-init_pages max_pfn) };
  covers = λ x. sym (inside_out start (start - start) x (omega arith));
  honest = λ x level q lt g h. absurd (let l = init_pages_level max_pfn x q g in omega arith);
  again = record {
    levels = refl;
    apart = λ x. omega arith;
    in_array = λ x p. absurd (omega arith);
  };
}

-- What `init_buddy` leaves: each page from `start` on and below `end` is in just one free block, and no other page is.
pub record Ready (start end : ℕ) (buddy : Buddy) : Type 0 where
  pub covers : (x : ℕ) → covered buddy x ≡ inside start (end - start) x
  pub honest : IsHonest buddy.pages buddy.freelist
  pub again : IsBuddy buddy

all-Ready :
    (start end max_pfn : ℕ)
    → start % 16 ≡ 0
    → end % 16 ≡ 0
    → end ≤ max_pfn
    → Returns (Ready start end) (
        free_each (end - start) start (record {
          buddy_start_pfn = start;
          buddy_end_pfn = end;
          pages = init_pages max_pfn;
          freelist = five_lists;
        }))
unfolding free_each
all-Ready start end max_pfn s e m = elim (dec_le start end) [
  | yes le ↦
      let same : start + (end - start) - start ≡ end - start = omega arith in
      mono
        (free_each-Filled start (end - start) (end - start) start _ (omega arith) (omega arith)
          (empty-Filled start end max_pfn s e le m))
        (λ buddy f. record {
          covers = λ x. f.covers x ∙ ap (λ n. inside start n x) same;
          honest = f.honest;
          again = f.again;
        })
  | no gt ↦
      let zero' : end - start ≡ 0 = omega arith in
      rw zero' (
        returns (record {
          covers = λ x. sym (inside_out start (end - start) x (omega arith));
          honest =
              λ x level q lt g h. absurd (let l = init_pages_level max_pfn x q g in omega arith);
          again = record {
            levels = refl;
            apart = λ x. omega arith;
            in_array = λ x p. absurd (omega arith);
          };
        }))
]

-- `buddy_start_pfn`: the page of the last byte in use, rounded up to a multiple of 16.
abbrev pub start_pfn : Bootmm → ℕ
start_pfn bmm = align_func (last_byte bmm.info 0 / 4096) (2 ^ max_buddy_order)

align_func-whole : (value : ℕ) → align_func value (2 ^ max_buddy_order) % 16 ≡ 0
unfolding align_func
align_func-whole value = omega arith

-- If bootmm_alloc_pages has memory for the array of pages, init_buddy ends without a fault. Each
-- page from buddy_start_pfn on and below the last multiple of 16 that is not above max_pfn is then
-- in just one free block, and no other page is, where buddy_start_pfn is the number of the page
-- that holds the last byte in use, rounded up to a multiple of 16: that page itself if its number
-- is such a multiple. The boot allocator is as bootmm_alloc_pages left it.
pub init_buddy-Ready :
    (bmm bmm' : Bootmm) (bp_base : ℕ)
    → bootmm_alloc_pages bmm (28 * bmm.max_pfn % 2 ^ 32) mm_kernel 4096 ≡ some (bp_base, bmm')
    → 0 < bp_base
    → Returns
        (λ r. Ready (start_pfn bmm') (bmm'.max_pfn / 16 * 16) r.0 × (r.1 ≡ bmm'))
        (init_buddy bmm)
unfolding init_buddy
init_buddy-Ready bmm bmm' bp_base e pos =
    let ne : (bp_base == 0) ≡ false = ground arith in
    rw (e, ne)
      (bind
        (all-Ready (start_pfn bmm') (bmm'.max_pfn / 16 * 16) bmm'.max_pfn
          (align_func-whole (last_byte bmm'.info 0 / 4096)) (omega arith) (omega arith))
        (λ buddy r. returns (r, refl)))
