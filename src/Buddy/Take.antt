-- ===== src/Buddy/Take.antt =====
-- kernel/mm/buddy.c: a block leaves the free lists and its upper halves go back to them.
use huge_pie.Buddy.{
  Buddy, FreeList, halve, take_block, max_buddy_order, set_bplevel, set_flag, page_alloced, unlink,
}
use huge_pie.Buddy.Cover.{
  inside, inside-halves, cover, push-cover, count_down-cover, unlink_linked, length-unlink,
  IsLinked, inside_last,
}
use huge_pie.Base.{
  pow_pos, ℕ, zero, suc, ◌+◌, ◌-◌, ◌*◌, ◌/◌, ◌^◌, ◌≤◌, ◌<◌, inl, ◌≡◌, refl, ◌∙◌, some, List, ◌∷◌,
  length, get_elem?, set, arith, Returns, returns, bind, mono, length-set, get_elem?-some,
  get_elem?-lt,
}

-- How often a page lies in a free block.
abbrev pub covered : Buddy → ℕ → ℕ
covered buddy x = cover 0 buddy.freelist x

-- What holds between calls: there is a list for each level, no two free blocks overlap, and they lie inside
-- the array of pages.
pub record IsBuddy (buddy : Buddy) : Type 0 where
  pub levels : length buddy.freelist ≡ max_buddy_order + 1
  pub apart : (x : ℕ) → covered buddy x ≤ 1
  pub in_array : (x : ℕ) → 0 < covered buddy x → x < length buddy.pages

-- One state follows another, in which the pages of `size` from `page` on are counted once less.
pub record Less (page size size' : ℕ) (buddy buddy' : Buddy) : Type 0 where
  pub same_levels : length buddy'.freelist ≡ length buddy.freelist
  pub same_pages : length buddy'.pages ≡ length buddy.pages
  pub counts :
      (x : ℕ) → covered buddy' x + inside page size' x ≡ covered buddy x + inside page size x

halve-Less :
    (n level page : ℕ) (buddy : Buddy)
    → n ≤ level
    → level < length buddy.freelist
    → page + 2 ^ level ≤ length buddy.pages
    → Returns (Less page (2 ^ level) (2 ^ (level - n)) buddy) (halve n level (2 ^ level) page buddy)
unfolding halve
halve-Less zero level page buddy le lt room =
    let z : level - 0 ≡ level = omega arith in
    returns (record { same_levels = refl; same_pages = refl; counts = λ x. rw z refl })
halve-Less (suc n) zero page buddy le lt room = absurd (omega arith)
halve-Less (suc n) (suc c) page buddy le lt room =
    let e : 2 ^ suc c / 2 ≡ 2 ^ c = omega arith in
    let d : suc c - 1 ≡ c = omega arith in
    let pos = pow_pos c in
    let (buddy_page, g) = get_elem?-some buddy.pages (page + 2 ^ c) (omega arith) in
    let l = length-set buddy.pages (page + 2 ^ c) (set_bplevel buddy_page c) in
    rw (e, d)
      (bind (push-cover buddy.freelist c (page + 2 ^ c) (omega arith)) (λ lists p. rw g (
        mono
          (halve-Less n c page
            (record buddy {
              pages = set buddy.pages (page + 2 ^ c) (set_bplevel buddy_page c);
              freelist = lists;
            })
            (omega arith) (omega (arith, p.0)) (omega (arith, l)))
          (λ buddy' r. record {
            same_levels = r.same_levels ∙ p.0;
            same_pages = r.same_pages ∙ l;
            counts = λ x.
                let two : 2 ^ suc c ≡ 2 * 2 ^ c = omega arith in
                let q : suc c - suc n ≡ c - n = omega arith in
                let h : inside page (2 ^ suc c) x
                    ≡ inside page (2 ^ c) x + inside (page + 2 ^ c) (2 ^ c) x =
                  rw two (inside-halves page (2 ^ c) x) in
                rw q (omega (arith, r.counts x, p.1 x, h));
          }))))

-- The first page of a list and the pages behind it leave the free blocks.
pub take_block-Less :
    (buddy : Buddy) (bplevel level page : ℕ) (free : FreeList) (pages : List ℕ)
    → IsBuddy buddy
    → bplevel ≤ level
    → get_elem? buddy.freelist level ≡ some free
    → free.free_head ≡ page ∷ pages
    → Returns
        (λ b.
          (length b.freelist ≡ length buddy.freelist)
          × (length b.pages ≡ length buddy.pages)
          × ((x : ℕ) → covered b x + inside page (2 ^ bplevel) x ≡ covered buddy x))
        (take_block buddy bplevel level page)
unfolding take_block
take_block-Less buddy bplevel level page free pages b le g h =
    let lt = get_elem?-lt buddy.freelist level g in
    let linked : IsLinked page free.free_head = rw h (inl refl) in
    let first =
      unlink_linked 0 level level buddy.freelist free page (omega arith) g linked (b.apart page) in
    let room : page + 2 ^ level ≤ length buddy.pages =
      let i = inside_last page (2 ^ level) (pow_pos level) in
      let f = first (page + (2 ^ level - 1)) in
      let pos = pow_pos level in
      let last = b.in_array (page + (2 ^ level - 1)) (omega arith) in omega arith in
    let (p, e) = get_elem?-some buddy.pages page (let pos = pow_pos level in omega arith) in
    let l = length-set buddy.pages page (set_flag (set_bplevel p bplevel) page_alloced) in
    let u = length-unlink buddy.freelist page in
    rw e (
      bind (count_down-cover (unlink buddy.freelist page) level (omega arith)) (λ lists c.
        mono
          (halve-Less (level - bplevel) level page
            (record buddy {
              pages = set buddy.pages page (set_flag (set_bplevel p bplevel) page_alloced);
              freelist = lists;
            })
            (omega arith) (omega (arith, c.0)) (omega arith))
          (λ buddy' r. (
            r.same_levels ∙ c.0 ∙ u,
            r.same_pages ∙ l,
            λ x.
                let q : level - (level - bplevel) ≡ bplevel = omega arith in
                let s : inside page (2 ^ (level - (level - bplevel))) x
                    ≡ inside page (2 ^ bplevel) x =
                  rw q refl in
                omega (arith, r.counts x, s, c.1 x, first x),
          ))))
