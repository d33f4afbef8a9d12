-- ===== src/Bootmm/Init.antt =====
-- kernel/mm/bootmm.c: the state after `init_bootmm`.
use huge_pie.Bootmm.{
  cleared, set_maps, merge, insert_mminfo, init_bootmm, machine_max_pages, page_used,
}
use huge_pie.Bootmm.Search.{IsMark}
use huge_pie.Bootmm.Pages.{All-set_maps, length-set_maps, set_maps_inside}
use huge_pie.Bootmm.Record.{IsBootmm}
use huge_pie.Base.{
  ℕ, zero, suc, ◌/◌, ◌<◌, ◌≡◌, refl, ap, ◌∙◌, inl, inr, some, length, get_elem?, All, arith,
}

length-cleared : (n : ℕ) → length (cleared n) ≡ n
unfolding cleared
length-cleared zero = refl
length-cleared (suc n) = ap suc (length-cleared n)

All-cleared : (n : ℕ) → All IsMark (cleared n)
unfolding cleared
All-cleared zero = tt
All-cleared (suc n) = (inl refl, All-cleared n)

-- The pages of the kernel are marked.
kernel_pages :
    (j : ℕ)
    → j < 4096
    → get_elem? (set_maps 0 4096 (cleared machine_max_pages) page_used) j ≡ some page_used
kernel_pages j h =
    let l = length-cleared machine_max_pages in
    set_maps_inside 0 4096 (cleared machine_max_pages) page_used j (omega arith) (omega arith)
      (omega arith)

-- After `init_bootmm` the state is as it has to be between calls.
pub init_bootmm-IsBootmm : IsBootmm init_bootmm
unfolding init_bootmm insert_mminfo merge
init_bootmm-IsBootmm =
    let l =
      length-set_maps 0 4096 (cleared machine_max_pages) page_used
      ∙ length-cleared machine_max_pages in
    record {
      marks =
          All-set_maps IsMark 0 4096 (cleared machine_max_pages) page_used (inr refl)
            (All-cleared machine_max_pages);
      reach = omega arith;
      small = omega arith;
      last_le = omega arith;
      page_zero = kernel_pages 0 (omega arith);
      areas = ((omega arith, omega arith), tt);
      bound = omega arith;
      are_used = λ type byte c. elim c [
        | inl i ↦ kernel_pages (byte / 4096) (omega arith)
        | inr e ↦ absurd e
      ];
    }
