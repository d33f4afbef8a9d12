-- ===== src/Buddy/Linked.antt =====
-- kernel/mm/buddy.c: which pages are linked in the list of a level, and when the levels in the array of
-- pages tell the truth about it.
use huge_pie.Buddy.{Page, FreeList, push, without, unlink, count_down, minus_one, max_buddy_order}
use huge_pie.Buddy.Cover.{IsLinked, inside, cover, push-cover, count_down-cover}
use huge_pie.Base.{
  ℕ, ℕ_discrete, zero, suc, ◌+◌, ◌%◌, ◌^◌, ◌<◌, inl, inr, ◌≡◌, ◌≢◌, refl, sym, ap, ◌∙◌, some, List,
  [], ◌∷◌, length, get_elem?, set, ◌==◌, Bool-cases, Returns, Returns-some, returns, some-injective,
  ==→eq, get_elem?-some, get_elem?-set_self, get_elem?-set_ne, get_elem?-lt,
}

-- The page is linked in the list of the level.
abbrev pub IsListed : ℕ → ℕ → List FreeList → Type 0
IsListed level page lists =
    (free : FreeList) × (get_elem? lists level ≡ some free) × IsLinked page free.free_head

-- A page whose field `bplevel` is a level below the last one is linked in the list of that level.
abbrev pub IsHonest : List Page → List FreeList → Type 0
IsHonest pages lists =
    (x level : ℕ) (q : Page)
    → level < max_buddy_order
    → get_elem? pages x ≡ some q
    → q.bplevel ≡ level
    → IsListed level x lists

without-IsLinked :
    (xs : List ℕ) (page x : ℕ) → x ≢ page → IsLinked x xs → IsLinked x (without xs page)
unfolding without
without-IsLinked [] page x ne h = h
without-IsLinked (y ∷ xs) page x ne h = elim (Bool-cases (y == page)) [
  | inl same ↦ rw same (elim h [
    | inl e ↦ absurd (ne (e ∙ ==→eq y page same))
    | inr r ↦ without-IsLinked xs page x ne r
  ])
  | inr other ↦ rw other (elim h [ inl e ↦ inl e | inr r ↦ inr (without-IsLinked xs page x ne r) ])
]

pub unlink-IsListed :
    (lists : List FreeList) (page level x : ℕ)
    → x ≢ page
    → IsListed level x lists
    → IsListed level x (unlink lists page)
unfolding unlink
unlink-IsListed [] page level x ne (free, g, h) = absurd cc
unlink-IsListed (f ∷ lists) page zero x ne (free, g, h) =
    let same : FreeList.free_head f ≡ free.free_head =
      ap FreeList.free_head (some-injective _ _ g) in
    let linked : IsLinked x (FreeList.free_head f) = rw same h in
    (
      record f { free_head = without f.free_head page },
      refl,
      without-IsLinked f.free_head page x ne linked,
    )
unlink-IsListed (f ∷ lists) page (suc level) x ne h = unlink-IsListed lists page level x ne h

-- A list that is replaced by one with the same pages and more.
set-IsListed :
    (lists : List FreeList) (k level x : ℕ) (free free' : FreeList)
    → get_elem? lists k ≡ some free
    → (IsLinked x free.free_head → IsLinked x free'.free_head)
    → IsListed level x lists
    → IsListed level x (set lists k free')
set-IsListed lists k level x free free' g f (old, h, l) = elim (ℕ_discrete k level) [
  | yes e ↦
      let same : old.free_head ≡ free.free_head =
        ap FreeList.free_head (some-injective _ _ (sym h ∙ ap (get_elem? lists) (sym e) ∙ g)) in
      let linked : IsLinked x free.free_head = rw (sym same) l in
      (
        free',
        ap (get_elem? (set lists k free')) (sym e)
            ∙ get_elem?-set_self lists k free' (get_elem?-lt lists k g),
        f linked,
      )
  | no ne ↦ (old, get_elem?-set_ne lists k level free' ne ∙ h, l)
]

-- What a list with one page more says, and what the same lists say with another count.
pub record Pushed (lists : List FreeList) (level page : ℕ) (ls : List FreeList) : Type 0 where
  pub same_length : length ls ≡ length lists
  pub covers : (x : ℕ) → cover 0 ls x ≡ cover 0 lists x + inside page (2 ^ level) x
  pub listed : IsListed level page ls
  pub others : (k x : ℕ) → IsListed k x lists → IsListed k x ls

pub record Counted (lists ls : List FreeList) : Type 0 where
  pub same_length : length ls ≡ length lists
  pub covers : (x : ℕ) → cover 0 ls x ≡ cover 0 lists x
  pub others : (k x : ℕ) → IsListed k x lists → IsListed k x ls

pub push-Pushed :
    (lists : List FreeList) (level page : ℕ)
    → level < length lists
    → Returns (Pushed lists level page) (push lists level page)
unfolding push
push-Pushed lists level page h =
    let (free, g) = get_elem?-some lists level h in
    let free' : FreeList = record {
      nr_free = (free.nr_free + 1) % 2 ^ 32;
      free_head = page ∷ free.free_head;
    } in
    let e : push lists level page ≡ some (set lists level free') = rw g refl in
    let c = Returns-some (push-cover lists level page h) e in
    rw g (
      returns (record {
        same_length = c.0;
        covers = c.1;
        listed = (free', get_elem?-set_self lists level free' h, inl refl);
        others = λ k x l. set-IsListed lists level k x free free' g (λ i. inr i) l;
      }))

pub count_down-Counted :
    (lists : List FreeList) (level : ℕ)
    → level < length lists
    → Returns (Counted lists) (count_down lists level)
unfolding count_down
count_down-Counted lists level h =
    let (free, g) = get_elem?-some lists level h in
    let free' : FreeList = record free { nr_free = (free.nr_free + minus_one) % 2 ^ 32 } in
    let e : count_down lists level ≡ some (set lists level free') = rw g refl in
    let c = Returns-some (count_down-cover lists level h) e in
    rw g (
      returns (record {
        same_length = c.0;
        covers = c.1;
        others = λ k x l. set-IsListed lists level k x free free' g (λ i. i) l;
      }))
