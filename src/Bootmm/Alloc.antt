-- ===== src/Bootmm/Alloc.antt =====
-- kernel/mm/bootmm.c: `bootmm_alloc_pages` on each of its branches.
use huge_pie.Bootmm.Record.{
  IsBootmm, Allocated, no_room, Taken-weaken, Taken-pos, record_pages-Allocated,
}
use huge_pie.Bootmm.{Bootmm, bootmm_alloc_pages, record_pages, find_pages, align_func, pred_word}
use huge_pie.Bootmm.Search.{IsFree}
use huge_pie.Bootmm.Pages.{Taken, Placed, placed, unplaced, find_pages-Placed}
use huge_pie.Base.{
  ℕ, ◌-◌, ◌+◌, ◌*◌, ◌/◌, ◌%◌, ◌^◌, ◌≤◌, ◌<◌, ◌≡◌, some, ◌>>=◌, Returns, returns, bind, arith, false,
  not, ◌==◌, if◌then◌else◌,
}

-- What follows a search: the branches of `bootmm_alloc_pages` on its result.
module _ (bmm : Bootmm) (b : IsBootmm bmm) (cnt type : ℕ) (pos : 0 < cnt) where
  after-Allocated :
      (bmm' : Bootmm) (s e index : ℕ)
      → e ≤ bmm.max_pfn
      → Taken bmm.s_map bmm'.s_map e index cnt
      → bmm'.last_alloc_end ≡ index + cnt - 1
      → bmm'.info ≡ bmm.info
      → bmm'.max_pfn ≡ bmm.max_pfn
      → (0 < index) × Allocated bmm cnt type (record_pages (index * 4096) (cnt * 4096) type bmm')
  after-Allocated bmm' s e index le t l i m =
      let t' = Taken-weaken bmm.s_map bmm'.s_map e bmm.max_pfn index cnt le t in
      (
        Taken-pos bmm.s_map bmm'.s_map e index cnt pos b.page_zero t,
        record_pages-Allocated bmm bmm' b index cnt pos t' m l type i,
      )

  second-Allocated :
      ((i : ℕ) → bmm.last_alloc_end < i → ¬ IsFree bmm.s_map bmm.max_pfn i cnt)
      → (r : ℕ × Bootmm) → Placed bmm cnt 0 bmm.last_alloc_end r
      → Allocated bmm cnt type
          (if not (r.0 == 0) then record_pages r.0 (cnt * 4096) type r.1 else (0, r.1))
  second-Allocated n r (unplaced k) = no_room n (λ i. k i (omega arith))
  second-Allocated n r (placed {bmm'} index a t l i m) =
      let (p, r) = after-Allocated bmm' 0 bmm.last_alloc_end index b.last_le t l i m in
      let ne : (index * 4096 == 0) ≡ false = ground arith in rw ne r

  first-Allocated :
      (r : ℕ × Bootmm)
      → Placed bmm cnt (bmm.last_alloc_end + 1) bmm.max_pfn r
      → Returns (Allocated bmm cnt type) (
          if not (r.0 == 0) then some (record_pages r.0 (cnt * 4096) type r.1) else (do
            (res', bmm'') ← find_pages r.1 cnt 0 r.1.last_alloc_end 1
            some (
                if not (res' == 0) then record_pages res' (cnt * 4096) type bmm'' else (0, bmm''))))
  first-Allocated r (placed {bmm'} index a t l i m) =
      let (p, r) =
        after-Allocated bmm' (bmm.last_alloc_end + 1) bmm.max_pfn index (omega arith) t l i m in
      let ne : (index * 4096 == 0) ≡ false = ground arith in rw ne (returns r)
  first-Allocated r (unplaced n) =
      let le = b.last_le in
      let reach = b.reach in
      let small = b.small in
      bind
        (find_pages-Placed bmm cnt 0 bmm.last_alloc_end b.marks (omega arith) (omega arith)
          (omega arith) pos)
        (λ r p. returns (second-Allocated (λ i l. n i (omega arith)) r p))

-- `bootmm_alloc_pages` ends without a fault and does one of the three things of `Allocated`, for the
-- number of pages that hold the size, and what holds between calls holds again.
pub bootmm_alloc_pages-Allocated :
    (bmm : Bootmm) (size type align : ℕ)
    → IsBootmm bmm
    → 0 < size
    → size ≤ 2 ^ 32 - 4096
    → align / 4096 ≡ 1
    → Returns
        (λ r. Allocated bmm ((size + 4095) / 4096) type r)
        (bootmm_alloc_pages bmm size type align)
unfolding bootmm_alloc_pages align_func
bootmm_alloc_pages-Allocated bmm size type align b pos le one =
    let cnt = (size + 4095) / 4096 in
    let e : (size + pred_word 4096) % 2 ^ 32 / 4096 * 4096 ≡ cnt * 4096 = omega arith in
    let f : cnt * 4096 / 4096 ≡ cnt = omega arith in
    let last = b.last_le in
    let small = b.small in
    let g : (bmm.last_alloc_end + 1) % 2 ^ 32 ≡ bmm.last_alloc_end + 1 = omega arith in
    let reach = b.reach in
    rw (e, f, g, one)
      (bind
        (find_pages-Placed bmm cnt (bmm.last_alloc_end + 1) bmm.max_pfn b.marks reach small
          (omega arith) (omega arith))
        (λ r p. first-Allocated bmm b cnt type (omega arith) r p))
