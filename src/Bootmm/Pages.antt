-- ===== src/Bootmm/Pages.antt =====
-- kernel/mm/bootmm.c: what `set_maps` and `find_pages` leave in the map of the pages.
use huge_pie.Bootmm.{Bootmm, find_pages, set_maps, align_func, pred_word, page_used}
use huge_pie.Bootmm.Search.{IsMark, IsFree, Found, found_run, found_none, find_loop-Found}
use huge_pie.Base.{
  ℕ, ℕ_discrete, ◌-◌, zero, suc, ◌+◌, ◌*◌, ◌%◌, ◌^◌, ◌≤◌, ◌<◌, ◌⊎◌, inr, ◌≡◌, refl, ◌∙◌, Option,
  none, some, List, [], ◌∷◌, get_elem?, set, length, All, Returns, returns, bind, arith, length-set,
  get_elem?-set_self, get_elem?-set_ne,
}

pub length-set_maps :
    (s cnt : ℕ) (map : List ℕ) (v : ℕ) → length (set_maps s cnt map v) ≡ length map
unfolding set_maps
length-set_maps s zero map v = refl
length-set_maps s (suc cnt) map v = length-set_maps (s + 1) cnt (set map s v) v ∙ length-set map s v

pub set_maps_outside :
    (s cnt : ℕ) (map : List ℕ) (v j : ℕ)
    → (j < s) ⊎ (s + cnt ≤ j)
    → get_elem? (set_maps s cnt map v) j ≡ get_elem? map j
unfolding set_maps
set_maps_outside s zero map v j h = refl
set_maps_outside s (suc cnt) map v j h =
    set_maps_outside (s + 1) cnt (set map s v) v j (omega arith)
    ∙ get_elem?-set_ne map s j v (omega arith)

pub set_maps_inside :
    (s cnt : ℕ) (map : List ℕ) (v j : ℕ)
    → s ≤ j
    → j < s + cnt
    → s + cnt ≤ length map
    → get_elem? (set_maps s cnt map v) j ≡ some v
unfolding set_maps
set_maps_inside s zero map v j a b l = absurd (omega arith)
set_maps_inside s (suc cnt) map v j a b l = elim (ℕ_discrete j s) [
  | yes e ↦ rw e (
      set_maps_outside (s + 1) cnt (set map s v) v s (omega arith)
      ∙ get_elem?-set_self map s v (omega arith))
  | no ne ↦
      set_maps_inside (s + 1) cnt (set map s v) v j (omega arith) (omega arith)
        (omega (arith, length-set map s v))
]

All-set : (P : ℕ → Type 0) (xs : List ℕ) (i v : ℕ) → P v → All P xs → All P (set xs i v)
All-set P [] i v p a = tt
All-set P (x ∷ xs) zero v p a = (p, a.1)
All-set P (x ∷ xs) (suc i) v p a = (a.0, All-set P xs i v p a.1)

pub All-set_maps :
    (P : ℕ → Type 0) (s cnt : ℕ) (map : List ℕ) (v : ℕ)
    → P v
    → All P map
    → All P (set_maps s cnt map v)
unfolding set_maps
All-set_maps P s zero map v p a = a
All-set_maps P s (suc cnt) map v p a =
    All-set_maps P (s + 1) cnt (set map s v) v p (All-set P map s v p a)

-- The map after `cnt` free pages below `e_pfn` were taken from `index` on: these pages are marked as
-- used, and the marks of all others are kept.
pub record Taken (map map' : List ℕ) (e_pfn index cnt : ℕ) : Type 0 where
  pub were_free : IsFree map e_pfn index cnt
  pub are_used : (j : ℕ) → index ≤ j → j < index + cnt → get_elem? map' j ≡ some page_used
  pub others : (j : ℕ) → (j < index) ⊎ (index + cnt ≤ j) → get_elem? map' j ≡ get_elem? map j
  pub same_length : length map' ≡ length map
  pub marks : All IsMark map'

IsFree-bound :
    (map : List ℕ) (e_pfn index cnt : ℕ)
    → 0 < cnt
    → IsFree map e_pfn index cnt
    → index + cnt ≤ e_pfn
IsFree-bound map e_pfn index cnt pos f =
    let lt = (f (index + (cnt - 1)) (omega arith) (omega arith)).0 in omega arith

set_maps-Taken :
    (map : List ℕ) (e_pfn index cnt : ℕ)
    → All IsMark map
    → e_pfn ≤ length map
    → 0 < cnt
    → IsFree map e_pfn index cnt
    → Taken map (set_maps index cnt map page_used) e_pfn index cnt
set_maps-Taken map e_pfn index cnt m le pos f =
    let bound = IsFree-bound map e_pfn index cnt pos f in
    record {
      were_free = f;
      are_used = λ j a b. set_maps_inside index cnt map page_used j a b (omega arith);
      others = set_maps_outside index cnt map page_used;
      same_length = length-set_maps index cnt map page_used;
      marks = All-set_maps IsMark index cnt map page_used (inr refl) m;
    }

-- The result of `find_pages`: the address of the first page of a run that is now taken, or the null
-- pointer where no run is left from `s_pfn` on.
pub data Placed (bmm : Bootmm) (cnt s_pfn e_pfn : ℕ) : ℕ × Bootmm → Type 0 where
  placed :
      {bmm' : Bootmm} (index : ℕ)
      → s_pfn ≤ index
      → Taken bmm.s_map bmm'.s_map e_pfn index cnt
      → bmm'.last_alloc_end ≡ index + cnt - 1
      → bmm'.info ≡ bmm.info
      → bmm'.max_pfn ≡ bmm.max_pfn
      → Placed bmm cnt s_pfn e_pfn (index * 4096, bmm')
  unplaced :
      ((i : ℕ) → s_pfn ≤ i → ¬ IsFree bmm.s_map e_pfn i cnt) → Placed bmm cnt s_pfn e_pfn (0, bmm)

align_func_one : (s : ℕ) → s < 2 ^ 32 → align_func s 1 ≡ s
unfolding align_func
align_func_one s h = omega arith

-- Over a map of marks that reaches up to e_pfn, which is below 2^20, for s_pfn below 2^32 and at
-- least one page, find_pages with an alignment of one page ends in one of two ways: it returns the
-- address of a run of that length at or above s_pfn and below e_pfn, marks just its pages, which
-- were free, and keeps the list of areas; or it returns 0 with nothing changed, and there is no
-- free run of that length that starts at or above s_pfn. Nothing is said of runs that start below
-- s_pfn.
pub find_pages-Placed :
    (bmm : Bootmm) (cnt s_pfn e_pfn : ℕ)
    → All IsMark bmm.s_map
    → e_pfn ≤ length bmm.s_map
    → e_pfn < 2 ^ 20
    → s_pfn < 2 ^ 32
    → 0 < cnt
    → Returns (Placed bmm cnt s_pfn e_pfn) (find_pages bmm cnt s_pfn e_pfn 1)
unfolding find_pages
find_pages-Placed bmm cnt s_pfn e_pfn m le small word pos = rw (align_func_one s_pfn word) (
    bind
      (find_loop-Found bmm.s_map e_pfn m le cnt 1 pos (omega arith) (e_pfn + 1) s_pfn (omega arith)
        (omega arith))
      go)
  where
    go :
        (r : Option ℕ)
        → Found bmm.s_map e_pfn m le cnt 1 s_pfn r
        → Returns (Placed bmm cnt s_pfn e_pfn) (elim r [
          | none ↦ some (0, bmm)
          | some index ↦ some (
            index * 4096 % 2 ^ 32,
            record bmm {
              last_alloc_end = pred_word (index + cnt);
              s_map = set_maps index cnt bmm.s_map page_used;
            },
          )
        ])
    go r (found_none n) = returns (unplaced (n (omega arith)))
    go r (found_run {i} a f) =
        let bound = IsFree-bound bmm.s_map e_pfn i cnt pos f in
        let e : i * 4096 % 2 ^ 32 ≡ i * 4096 = omega arith in
        rw e (
          returns
            (placed i a (set_maps-Taken bmm.s_map e_pfn i cnt m le pos f) (omega arith) refl refl))
