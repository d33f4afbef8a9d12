-- ===== src/Buddy/Free.antt =====
-- kernel/mm/buddy.c: `__free_pages` puts a block into the free lists, merged with its buddies.
use huge_pie.Buddy.{Buddy, Page, FreeList, raw_free_pages, max_buddy_order, set_bplevel, push}
use huge_pie.Buddy.Cover.{inside, cover, inside_in, inside_out}
use huge_pie.Buddy.Linked.{IsHonest, Pushed, push-Pushed}
use huge_pie.Buddy.Merge.{IsRange, Merged, merge_loop-Merged}
use huge_pie.Buddy.Take.{covered, IsBuddy}
use huge_pie.Base.{
  ltb, false, pow_pos, ℕ, ℕ_discrete, dec_le, dec_lt, ◌+◌, ◌-◌, ◌^◌, ◌≤◌, ◌<◌, ◌≡◌, sym, ap, ◌∙◌,
  some, List, length, get_elem?, set, ◌>>=◌, arith, Returns, returns, bind, length-set,
  get_elem?-some, get_elem?-lt, get_elem?-set_self, get_elem?-set_ne, some-injective,
}

block_once :
    (buddy : Buddy) (page bplevel : ℕ)
    → IsBuddy buddy
    → ((x : ℕ) → page ≤ x → x < page + 2 ^ bplevel → covered buddy x ≡ 0)
    → (x : ℕ) → covered buddy x + inside page (2 ^ bplevel) x ≤ 1
block_once buddy page bplevel b used x = elim (dec_le page x) [
  | no l ↦ omega (arith, b.apart x, inside_out page (2 ^ bplevel) x (omega arith))
  | yes l ↦ elim (dec_le (page + 2 ^ bplevel) x) [
    | yes g ↦ omega (arith, b.apart x, inside_out page (2 ^ bplevel) x (omega arith))
    | no g ↦ omega (arith, used x l (omega arith), inside_in page (2 ^ bplevel) x l (omega arith))
  ]
]

-- What `__free_pages` leaves: the pages of the block are free, and the others as before.
pub record Freed (buddy : Buddy) (page bplevel : ℕ) (buddy' : Buddy) : Type 0 where
  pub same_start : buddy'.buddy_start_pfn ≡ buddy.buddy_start_pfn
  pub same_pages : length buddy'.pages ≡ length buddy.pages
  pub covers : (x : ℕ) → covered buddy' x ≡ covered buddy x + inside page (2 ^ bplevel) x
  pub honest : IsHonest buddy'.pages buddy'.freelist
  pub again : IsBuddy buddy'

module _ (count : ℕ) where
  push-IsHonest :
      (pages : List Page) (lists ls : List FreeList) (page level : ℕ) (q : Page)
      → get_elem? pages page ≡ some q
      → IsHonest pages lists
      → Pushed lists level page ls
      → IsHonest (set pages page (set_bplevel q level)) ls
  push-IsHonest pages lists ls page level q g honest p x k r lt h e = elim (ℕ_discrete x page) [
    | yes same ↦
        let a : set_bplevel q level ≡ r = some-injective _ _ (
          sym (get_elem?-set_self pages page (set_bplevel q level) (get_elem?-lt pages page g))
          ∙ ap (get_elem? (set pages page (set_bplevel q level))) (sym same)
          ∙ h) in
        let b : k ≡ level = sym e ∙ sym (ap Page.bplevel a) in rw (b, same) p.listed
    | no ne ↦ p.others k x (
        honest x k r lt
          (sym (get_elem?-set_ne pages page x (set_bplevel q level) (λ n. ne (sym n))) ∙ h) e)
  ]

  -- What follows the loop.
  Merged-Freed :
      (buddy : Buddy) (page bplevel : ℕ) (r : ℕ × ℕ × Buddy)
      → IsBuddy buddy
      → IsRange buddy count
      → bplevel ≤ max_buddy_order
      → buddy.buddy_start_pfn ≤ page
      → page + 2 ^ bplevel ≤ buddy.buddy_start_pfn + count
      → ((x : ℕ) → page ≤ x → x < page + 2 ^ bplevel → covered buddy x ≡ 0)
      → Merged buddy count bplevel (page - buddy.buddy_start_pfn) r
      → Returns (Freed buddy page bplevel) (do
        first ← get_elem? r.2.pages (buddy.buddy_start_pfn + r.1)
        freelist ← push r.2.freelist r.0 (buddy.buddy_start_pfn + r.1)
        some (record r.2 {
          pages = set r.2.pages (buddy.buddy_start_pfn + r.1) (set_bplevel first r.0);
          freelist = freelist;
        }))
  Merged-Freed buddy page bplevel r b range le ge room used m =
      let last = buddy.buddy_start_pfn + r.1 in
      let in_pages = range.in_pages in
      let (q, g) =
        get_elem?-some r.2.pages last (let i = m.index_lt in let s = m.same_pages in omega arith) in
      let e : buddy.buddy_start_pfn + (page - buddy.buddy_start_pfn) ≡ page = omega arith in
      let l = length-set r.2.pages last (set_bplevel q r.0) ∙ m.same_pages in
      rw g (
        bind
          (push-Pushed r.2.freelist r.0 last
            (let i = m.level_le in omega (arith, m.same_levels, b.levels)))
          (λ ls p.
            let covers : (x : ℕ) → cover 0 ls x ≡ covered buddy x + inside page (2 ^ bplevel) x =
              λ x.
                p.covers x ∙ m.covers x ∙ ap (λ j. covered buddy x + inside j (2 ^ bplevel) x) e in
            returns (record {
              same_start = m.same_start;
              same_pages = l;
              covers = covers;
              honest = push-IsHonest r.2.pages r.2.freelist ls last r.0 q g m.honest p;
              again = record {
                levels = p.same_length ∙ m.same_levels ∙ b.levels;
                apart = λ x. omega (arith, covers x, block_once buddy page bplevel b used x);
                in_array = λ x c. elim (dec_lt x (buddy.buddy_start_pfn + count)) [
                  | yes lt ↦ omega (arith, l)
                  | no out ↦ omega (
                    arith,
                    l,
                    b.in_array x
                        (omega (arith, covers x, inside_out page (2 ^ bplevel) x (omega arith))),
                  )
                ];
              };
            })))

  -- `__free_pages` of a block that is in use ends without a fault and adds just the pages of the block to
  -- the free ones, if each page whose `bplevel` is a level below the last one is linked in the list of that
  -- level, and the block lies in the range of the allocator; what holds between calls holds again.
  pub raw_free_pages-Freed :
      (buddy : Buddy) (page bplevel : ℕ)
      → IsBuddy buddy
      → IsRange buddy count
      → IsHonest buddy.pages buddy.freelist
      → bplevel ≤ max_buddy_order
      → buddy.buddy_start_pfn ≤ page
      → page + 2 ^ bplevel ≤ buddy.buddy_start_pfn + count
      → ((x : ℕ) → page ≤ x → x < page + 2 ^ bplevel → covered buddy x ≡ 0)
      → Returns (Freed buddy page bplevel) (raw_free_pages buddy page bplevel)
  unfolding raw_free_pages
  raw_free_pages-Freed buddy page bplevel b range honest le ge room used =
      let pos = pow_pos bplevel in
      let e : buddy.buddy_start_pfn + (page - buddy.buddy_start_pfn) ≡ page = omega arith in
      let once : (x : ℕ)
          → covered buddy x
              + inside (buddy.buddy_start_pfn + (page - buddy.buddy_start_pfn)) (2 ^ bplevel) x
            ≤ 1 =
        λ x. rw e (block_once buddy page bplevel b used x) in
      let inside' : ltb page buddy.buddy_start_pfn ≡ false = ground arith in
      rw inside' (
        bind
          (merge_loop-Merged count (max_buddy_order - bplevel) bplevel
            (page - buddy.buddy_start_pfn) buddy (omega arith) range (omega arith) b.levels once
            honest)
          (λ r m. Merged-Freed buddy page bplevel r b range le ge room used m))
