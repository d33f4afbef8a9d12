-- ===== src/Bootmm/Record.antt =====
-- kernel/mm/bootmm.c: what holds between calls, and what the entry of an area in the list leaves.
use huge_pie.Bootmm.{Bootmm, Info, record_pages, pred_word, page_free, page_used, max_info}
use huge_pie.Bootmm.Search.{IsMark, IsFree}
use huge_pie.Bootmm.Pages.{Taken}
use huge_pie.Bootmm.Areas.{IsArea, IsCovered, Added}
use huge_pie.Bootmm.Infos.{Inserted, full, inserted, insert_mminfo-Inserted}
use huge_pie.Base.{
  ℕ, ℕ_discrete, dec_lt, ◌-◌, ◌+◌, ◌*◌, ◌/◌, ◌^◌, ◌≤◌, ◌<◌, inl, inr, ◌≡◌, refl, sym, ◌∙◌, some,
  List, get_elem?, length, All, arith, false, ◌==◌, if◌then◌else◌,
}

-- What holds between calls: each byte of the map is a mark, the map reaches up to the last page, page 0
-- is in use, the list of areas has its bound, and each page of an area is marked as used.
pub record IsBootmm (bmm : Bootmm) : Type 0 where
  pub marks : All IsMark bmm.s_map
  pub reach : bmm.max_pfn ≤ length bmm.s_map
  pub small : bmm.max_pfn < 2 ^ 20
  pub last_le : bmm.last_alloc_end ≤ bmm.max_pfn
  pub page_zero : get_elem? bmm.s_map 0 ≡ some page_used
  pub areas : All IsArea bmm.info
  pub bound : length bmm.info ≤ max_info
  pub are_used :
      (type byte : ℕ)
      → IsCovered bmm.info type byte
      → get_elem? bmm.s_map (byte / 4096) ≡ some page_used

-- The area of `cnt` pages from the page at `index` on.
abbrev pub pages_at : ℕ → ℕ → ℕ → Info
pages_at index cnt type = record {
  start = index * 4096;
  last = index * 4096 + cnt * 4096 - 1;
  type = type;
}

-- What `bootmm_alloc_pages` leaves: pages that were free are taken and entered as an area; or they are
-- taken, but there is no room in the list of areas, and the null pointer is returned; or there is no run of
-- so many free pages behind the last one nor before it.
pub data Allocated (bmm : Bootmm) (cnt type : ℕ) : ℕ × Bootmm → Type 0 where
  got :
      {bmm' : Bootmm} (index : ℕ)
      → 0 < index
      → Taken bmm.s_map bmm'.s_map bmm.max_pfn index cnt
      → Added bmm.info bmm'.info (pages_at index cnt type)
      → IsBootmm bmm'
      → Allocated bmm cnt type (index * 4096, bmm')
  unrecorded :
      {bmm' : Bootmm} (index : ℕ)
      → Taken bmm.s_map bmm'.s_map bmm.max_pfn index cnt
      → bmm'.info ≡ bmm.info
      → max_info ≤ length bmm.info
      → IsBootmm bmm'
      → Allocated bmm cnt type (0, bmm')
  no_room :
      ((i : ℕ) → bmm.last_alloc_end < i → ¬ IsFree bmm.s_map bmm.max_pfn i cnt)
      → ((i : ℕ) → ¬ IsFree bmm.s_map bmm.last_alloc_end i cnt)
      → Allocated bmm cnt type (0, bmm)

pub Taken-weaken :
    (map map' : List ℕ) (e e' index cnt : ℕ)
    → e ≤ e'
    → Taken map map' e index cnt
    → Taken map map' e' index cnt
Taken-weaken map map' e e' index cnt le t = record {
  were_free = λ i a b. let (lt, g) = t.were_free i a b in (omega arith, g);
  are_used = t.are_used;
  others = t.others;
  same_length = t.same_length;
  marks = t.marks;
}

-- A page that is in use stays so.
pub Taken-kept :
    (map map' : List ℕ) (e index cnt j : ℕ)
    → Taken map map' e index cnt
    → get_elem? map j ≡ some page_used
    → get_elem? map' j ≡ some page_used
Taken-kept map map' e index cnt j t u = elim (dec_lt j index) [
  | yes l ↦ t.others j (inl l) ∙ u
  | no ge ↦ elim (dec_lt j (index + cnt)) [
    | yes l ↦ t.are_used j (omega arith) l
    | no g ↦ t.others j (inr (omega arith)) ∙ u
  ]
]

pub Taken-pos :
    (map map' : List ℕ) (e index cnt : ℕ)
    → 0 < cnt
    → get_elem? map 0 ≡ some page_used
    → Taken map map' e index cnt
    → 0 < index
Taken-pos map map' e index cnt pos u t = elim (ℕ_discrete index 0) [
  | yes z ↦ absurd (
      let clash : some page_free ≡ some page_used =
        sym (t.were_free 0 (omega arith) (omega arith)).1 ∙ u in
      cc)
  | no n ↦ omega arith
]

pub Taken-bound :
    (map map' : List ℕ) (e index cnt : ℕ) → 0 < cnt → Taken map map' e index cnt → index + cnt ≤ e
Taken-bound map map' e index cnt pos t =
    let lt = (t.were_free (index + (cnt - 1)) (omega arith) (omega arith)).0 in omega arith

module _ (bmm bmm' : Bootmm) (b : IsBootmm bmm) (index cnt : ℕ) (pos : 0 < cnt)
    (t : Taken bmm.s_map bmm'.s_map bmm.max_pfn index cnt) (same_max : bmm'.max_pfn ≡ bmm.max_pfn)
    (new_last : bmm'.last_alloc_end ≡ index + cnt - 1) where
  Taken-IsBootmm :
      (infos : List Info)
      → All IsArea infos
      → length infos ≤ max_info
      → ((type byte : ℕ)
          → IsCovered infos type byte
          → get_elem? bmm'.s_map (byte / 4096) ≡ some page_used)
      → IsBootmm (record bmm' { info = infos })
  Taken-IsBootmm infos a l u =
      let bound = Taken-bound bmm.s_map bmm'.s_map bmm.max_pfn index cnt pos t in
      let reach = b.reach in
      let small = b.small in
      let same = t.same_length in
      record {
        marks = t.marks;
        reach = omega arith;
        small = omega arith;
        last_le = omega arith;
        page_zero = Taken-kept bmm.s_map bmm'.s_map bmm.max_pfn index cnt 0 t b.page_zero;
        areas = a;
        bound = l;
        are_used = u;
      }

  Taken-used :
      (type byte : ℕ)
      → IsCovered bmm.info type byte
      → get_elem? bmm'.s_map (byte / 4096) ≡ some page_used
  Taken-used type byte c =
      Taken-kept bmm.s_map bmm'.s_map bmm.max_pfn index cnt (byte / 4096) t (b.are_used type byte c)

  Added-used :
      (type kind byte : ℕ) (ys : List Info)
      → Added bmm.info ys (pages_at index cnt type)
      → IsCovered ys kind byte
      → get_elem? bmm'.s_map (byte / 4096) ≡ some page_used
  Added-used type kind byte ys d c = elim (d.to kind byte c) [
    | inl old ↦ Taken-used kind byte old
    | inr new ↦ t.are_used (byte / 4096) (omega arith) (omega arith)
  ]

  pub record_pages-Allocated :
      (type : ℕ)
      → bmm'.info ≡ bmm.info
      → Allocated bmm cnt type (record_pages (index * 4096) (cnt * 4096) type bmm')
  unfolding record_pages
  record_pages-Allocated type same_info =
      let bound = Taken-bound bmm.s_map bmm'.s_map bmm.max_pfn index cnt pos t in
      let small = b.small in
      let e : pred_word (index * 4096 + cnt * 4096) ≡ index * 4096 + cnt * 4096 - 1 = omega arith in
      rw (same_info, e)
        (go _ (insert_mminfo-Inserted bmm.info (pages_at index cnt type) b.areas (omega arith)))
    where
      go :
          (r : ℕ × List Info)
          → Inserted bmm.info (pages_at index cnt type) r
          → Allocated bmm cnt type
              (if r.0 == 0 then 0 else index * 4096, record bmm' { info = r.1 })
      go r (full l m) =
          unrecorded index t refl l (Taken-IsBootmm bmm.info b.areas b.bound Taken-used)
      go r (inserted {code} {ys} p l d) =
          let bound = b.bound in
          let ne : (code == 0) ≡ false = ground arith in
          rw ne (
            got index (Taken-pos bmm.s_map bmm'.s_map bmm.max_pfn index cnt pos b.page_zero t) t d
              (Taken-IsBootmm ys d.areas (ground arith) (λ k y c. Added-used type k y ys d c)))
