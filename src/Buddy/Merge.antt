-- ===== src/Buddy/Merge.antt =====
-- kernel/mm/buddy.c: the loop of `__free_pages` merges a block with its buddies.
use huge_pie.Buddy.{
  Buddy, Page, FreeList, merge_loop, pair_of, combined_of, max_buddy_order, minus_one, set_bplevel,
  unlink, count_down,
}
use huge_pie.Buddy.Cover.{inside, cover, unlink_linked, length-unlink}
use huge_pie.Buddy.Linked.{IsListed, IsHonest, count_down-Counted, unlink-IsListed}
use huge_pie.Buddy.Take.{covered}
use huge_pie.Base.{
  ℕ, ℕ_discrete, zero, suc, ◌+◌, ◌-◌, ◌*◌, ◌%◌, ◌^◌, ◌≤◌, ◌<◌, ◌⊎◌, inl, inr, ◌≡◌, ◌≢◌, refl, sym,
  ap, ◌∙◌, some, List, length, get_elem?, set, ◌==◌, Bool-cases, arith, Returns, returns, bind,
  mono, length-set, get_elem?-some, get_elem?-lt, get_elem?-set_self, get_elem?-set_ne,
  some-injective, ==→eq,
}

-- The pages of the allocator: `count` pages from `start_page` on, a multiple of the largest block.
pub record IsRange (buddy : Buddy) (count : ℕ) : Type 0 where
  pub whole : count % 16 ≡ 0
  pub in_pages : buddy.buddy_start_pfn + count ≤ length buddy.pages

-- The two halves of the block one level up, in either order.
pair-cases :
    (level index count : ℕ)
    → level < 4
    → count % 16 ≡ 0
    → index < count
    → ((pair_of index level ≡ index + 2 ^ level)
        × (combined_of index level ≡ index)
        × (index + 2 ^ level < count))
      ⊎ ((2 ^ level ≤ index)
          × (pair_of index level ≡ index - 2 ^ level)
          × (combined_of index level ≡ index - 2 ^ level))
unfolding pair_of combined_of
pair-cases zero index count lt w h = ground arith
pair-cases (suc zero) index count lt w h = ground arith
pair-cases (suc (suc zero)) index count lt w h = ground arith
pair-cases (suc (suc (suc zero))) index count lt w h = ground arith
pair-cases (suc (suc (suc (suc level)))) index count lt w h = absurd (omega arith)

-- Together with its buddy a block is the block one level up.
abbrev Joined : ℕ → ℕ → ℕ → ℕ → Type 0
Joined start level index count =
    (pair_of index level < count)
    × (combined_of index level < count)
    × ((x : ℕ)
        → inside (start + combined_of index level) (2 ^ (level + 1)) x
          ≡ inside (start + index) (2 ^ level) x
            + inside (start + pair_of index level) (2 ^ level) x)

pair-Joined :
    (start level index count : ℕ)
    → level < 4
    → count % 16 ≡ 0
    → index < count
    → Joined start level index count
pair-Joined start level index count lt w h =
    let e : level + 1 ≡ suc level = omega arith in
    let two : 2 ^ (level + 1) ≡ 2 * 2 ^ level = rw e (omega arith) in
    elim (pair-cases level index count lt w h) [
      | inl (p, c, l) ↦ rw (p, c) (l, h, λ x. ground arith)
      | inr (g, p, c) ↦ rw (p, c) (omega arith, omega arith, λ x. ground arith)
    ]

-- How the loop ends: the pages of the block that is carried and those of the free blocks are the same as
-- at first, taken together.
pub record Merged (buddy : Buddy) (count level index : ℕ) (r : ℕ × ℕ × Buddy) : Type 0 where
  pub level_le : r.0 ≤ max_buddy_order
  pub index_lt : r.1 < count
  pub same_start : r.2.buddy_start_pfn ≡ buddy.buddy_start_pfn
  pub same_levels : length r.2.freelist ≡ length buddy.freelist
  pub same_pages : length r.2.pages ≡ length buddy.pages
  pub covers :
      (x : ℕ)
      → covered r.2 x + inside (buddy.buddy_start_pfn + r.1) (2 ^ r.0) x
        ≡ covered buddy x + inside (buddy.buddy_start_pfn + index) (2 ^ level) x
  pub honest : IsHonest r.2.pages r.2.freelist

-- One round of the loop in which the buddy is free.
record Round (buddy : Buddy) (count level index : ℕ) (freelist : List FreeList) (pages : List Page)
    : Type 0 where
  same_levels : length freelist ≡ length buddy.freelist
  same_pages : length pages ≡ length buddy.pages
  index_lt : combined_of index level < count
  covers :
      (x : ℕ)
      → cover 0 freelist x
          + inside (buddy.buddy_start_pfn + combined_of index level) (2 ^ (level + 1)) x
        ≡ covered buddy x + inside (buddy.buddy_start_pfn + index) (2 ^ level) x
  honest : IsHonest pages freelist

set-IsHonest :
    (pages : List Page) (lists ls : List FreeList) (pair : ℕ) (q : Page)
    → get_elem? pages pair ≡ some q
    → IsHonest pages lists
    → ((k x : ℕ) → x ≢ pair → IsListed k x lists → IsListed k x ls)
    → IsHonest (set pages pair (set_bplevel q minus_one)) ls
set-IsHonest pages lists ls pair q g honest keep x level p lt h e = elim (ℕ_discrete x pair) [
  | yes same ↦ absurd (
      let a : set_bplevel q minus_one ≡ p = some-injective _ _ (
        sym (get_elem?-set_self pages pair (set_bplevel q minus_one) (get_elem?-lt pages pair g))
        ∙ ap (get_elem? (set pages pair (set_bplevel q minus_one))) (sym same)
        ∙ h) in
      let b : minus_one ≡ p.bplevel = ap Page.bplevel a in omega arith)
  | no ne ↦ keep level x ne (
      honest x level p lt
        (sym (get_elem?-set_ne pages pair x (set_bplevel q minus_one) (λ n. ne (sym n))) ∙ h) e)
]

module _ (count : ℕ) where
  unlink-Round :
      (level index : ℕ) (buddy : Buddy) (q : Page)
      → IsRange buddy count
      → level < max_buddy_order
      → index < count
      → length buddy.freelist ≡ max_buddy_order + 1
      → ((x : ℕ) → covered buddy x + inside (buddy.buddy_start_pfn + index) (2 ^ level) x ≤ 1)
      → IsHonest buddy.pages buddy.freelist
      → get_elem? buddy.pages (buddy.buddy_start_pfn + pair_of index level) ≡ some q
      → q.bplevel ≡ level
      → Returns
          (λ ls. Round buddy count level index ls (
            set buddy.pages
              (buddy.buddy_start_pfn + pair_of index level)
              (set_bplevel q minus_one)))
          (count_down (unlink buddy.freelist (buddy.buddy_start_pfn + pair_of index level)) level)
  unlink-Round level index buddy q range lt h five apart honest g same =
      let pair = buddy.buddy_start_pfn + pair_of index level in
      let (free, f, linked) = honest pair level q lt g same in
      let u = length-unlink buddy.freelist pair in
      let joined = pair-Joined buddy.buddy_start_pfn level index count lt range.whole h in
      mono (count_down-Counted (unlink buddy.freelist pair) level (omega arith)) (λ ls c. record {
        same_levels = c.same_length ∙ u;
        same_pages = length-set buddy.pages pair (set_bplevel q minus_one);
        index_lt = joined.1;
        covers = λ x. omega (
          arith,
          joined.2 x,
          c.covers x,
          unlink_linked 0 level level buddy.freelist free pair (omega arith) f linked
              (omega (arith, apart pair)) x,
        );
        honest =
            set-IsHonest buddy.pages buddy.freelist ls pair q g honest
              (λ k x ne l. c.others k x (unlink-IsListed buddy.freelist pair k x ne l));
      })

  pub merge_loop-Merged :
      (n level index : ℕ) (buddy : Buddy)
      → n + level ≡ max_buddy_order
      → IsRange buddy count
      → index < count
      → length buddy.freelist ≡ max_buddy_order + 1
      → ((x : ℕ) → covered buddy x + inside (buddy.buddy_start_pfn + index) (2 ^ level) x ≤ 1)
      → IsHonest buddy.pages buddy.freelist
      → Returns (Merged buddy count level index) (merge_loop n level index buddy)
  unfolding merge_loop
  merge_loop-Merged zero level index buddy e range h five apart honest = returns (record {
    level_le = omega arith;
    index_lt = h;
    same_start = refl;
    same_levels = refl;
    same_pages = refl;
    covers = λ x. refl;
    honest = honest;
  })
  merge_loop-Merged (suc n) level index buddy e range h five apart honest =
      let pair = buddy.buddy_start_pfn + pair_of index level in
      let joined =
        pair-Joined buddy.buddy_start_pfn level index count (omega arith) range.whole h in
      let in_pages = range.in_pages in
      let (q, g) = get_elem?-some buddy.pages pair (let j = joined.0 in omega arith) in
      elim (Bool-cases (q.bplevel == level)) [
        | inr other ↦
            rw (g, other)
              (returns (record {
                level_le = omega arith;
                index_lt = h;
                same_start = refl;
                same_levels = refl;
                same_pages = refl;
                covers = λ x. refl;
                honest = honest;
              }))
        | inl same ↦
            rw (g, same)
              (bind
                (unlink-Round level index buddy q range (omega arith) h five apart honest g
                  (==→eq _ _ same))
                (λ ls r.
                  mono
                    (merge_loop-Merged n (level + 1) (combined_of index level)
                      (record buddy {
                        pages = set buddy.pages pair (set_bplevel q minus_one);
                        freelist = ls;
                      })
                      (omega arith)
                      (record { whole = range.whole; in_pages = omega (arith, r.same_pages) })
                      r.index_lt (r.same_levels ∙ five) (λ x. omega (arith, r.covers x, apart x))
                      r.honest)
                    (λ s t. record {
                      level_le = t.level_le;
                      index_lt = t.index_lt;
                      same_start = t.same_start;
                      same_levels = t.same_levels ∙ r.same_levels;
                      same_pages = t.same_pages ∙ r.same_pages;
                      covers = λ x. t.covers x ∙ r.covers x;
                      honest = t.honest;
                    })))
      ]
