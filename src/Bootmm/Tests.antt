-- ===== src/Bootmm/Tests.antt =====
-- kernel/mm/bootmm.c: runs at concrete inputs. The map has eight pages, of which the first two and the
-- fifth are in use.
use huge_pie.Bootmm.{
  Bootmm, Info, align_func, insert_mminfo, merge, split_mminfo, set_maps, find_loop, scan,
  find_pages, bootmm_alloc_pages, record_pages, page_used,
}
use huge_pie.Bootmm.Search.{IsMark, Found, find_loop-Found}
use huge_pie.Bootmm.Pages.{Placed, find_pages-Placed}
use huge_pie.Bootmm.Infos.{Inserted, insert_mminfo-Inserted}
use huge_pie.Bootmm.Splits.{Splits, split_mminfo-Splits}
use huge_pie.Bootmm.Record.{IsBootmm, Allocated}
use huge_pie.Bootmm.Alloc.{bootmm_alloc_pages-Allocated}
use huge_pie.Bootmm.Run.{Ran, alloc_all, alloc_all-Ran}
use huge_pie.Base.{
  ℕ, zero, suc, ◌*◌, ◌/◌, ◌≤◌, ◌<◌, length, ◌≡◌, refl, inl, inr, some, List, [], ◌∷◌, get_elem?,
  All, Returns, arith,
}

abbrev eight_pages : List ℕ
eight_pages = 255 ∷ 255 ∷ 0 ∷ 0 ∷ 255 ∷ 0 ∷ 0 ∷ 0 ∷ []

abbrev kernel_area : Info
kernel_area = record { start = 0; last = 8191; type = 0 }

abbrev eight : Bootmm
eight = record { max_pfn = 8; s_map = eight_pages; last_alloc_end = 1; info = kernel_area ∷ [] }

marks_eight : All IsMark eight_pages
marks_eight = (
  inr refl,
  (inr refl, (inl refl, (inl refl, (inr refl, (inl refl, (inl refl, (inl refl, tt))))))),
)

eight_reach : 8 ≤ length eight_pages
eight_reach = omega arith

kernel_used : (j : ℕ) → j < 2 → get_elem? eight_pages j ≡ some page_used
kernel_used zero h = refl
kernel_used (suc zero) h = refl
kernel_used (suc (suc j)) h = absurd (omega arith)

eight-IsBootmm : IsBootmm eight
eight-IsBootmm = record {
  marks = marks_eight;
  reach = omega arith;
  small = omega arith;
  last_le = omega arith;
  page_zero = refl;
  areas = ((omega arith, omega arith), tt);
  bound = omega arith;
  are_used =
      λ type byte c. elim c [ inl i ↦ kernel_used (byte / 4096) (omega arith) | inr e ↦ absurd e ];
}

-- Three pages are found behind the fifth, and the search of four fails.
three_pages :
    bootmm_alloc_pages eight 12000 5 4096
    ≡ some (
      5 * 4096,
      record {
        max_pfn = 8;
        s_map = 255 ∷ 255 ∷ 0 ∷ 0 ∷ 255 ∷ 255 ∷ 255 ∷ 255 ∷ [];
        last_alloc_end = 7;
        info = kernel_area ∷ record { start = 20480; last = 32767; type = 5 } ∷ [];
      },
    )
unfolding bootmm_alloc_pages align_func find_pages find_loop scan set_maps record_pages
    insert_mminfo merge
three_pages = refl

four_pages : bootmm_alloc_pages eight 16384 5 4096 ≡ some (0, eight)
unfolding bootmm_alloc_pages align_func find_pages find_loop scan set_maps record_pages
    insert_mminfo merge
four_pages = refl

-- With an alignment of four pages, page 5 is returned: what follows a used page is not aligned.
unaligned : find_loop 9 eight_pages 2 8 4 4 ≡ some (some 5)
unfolding find_loop scan
unaligned = refl

bootmm_alloc_pages-Allocated_example :
    Returns (λ r. Allocated eight 3 5 r) (bootmm_alloc_pages eight 12000 5 4096)
bootmm_alloc_pages-Allocated_example =
    bootmm_alloc_pages-Allocated eight 12000 5 4096 eight-IsBootmm (omega arith) (omega arith) refl

alloc_all-Ran_example :
    Returns (Ran eight) (alloc_all eight ((4096, 5) ∷ (8192, 5) ∷ (8192, 4) ∷ []))
alloc_all-Ran_example =
    alloc_all-Ran eight ((4096, 5) ∷ (8192, 5) ∷ (8192, 4) ∷ []) eight-IsBootmm
      ((omega arith, omega arith), ((omega arith, omega arith), ((omega arith, omega arith), tt)))

find_pages-Placed_example : Returns (Placed eight 3 2 8) (find_pages eight 3 2 8 1)
find_pages-Placed_example =
    find_pages-Placed eight 3 2 8 marks_eight (omega arith) (omega arith) (omega arith)
      (omega arith)

find_loop-Found_example :
    Returns (Found eight_pages 8 marks_eight eight_reach 2 1 0) (find_loop 9 eight_pages 2 8 1 0)
find_loop-Found_example =
    find_loop-Found eight_pages 8 marks_eight eight_reach 2 1 (omega arith) (omega arith) 9 0
      (omega arith) (omega arith)

insert_mminfo-Inserted_example :
    Inserted
      (kernel_area ∷ [])
      (record { start = 8192; last = 12287; type = 0 })
      (insert_mminfo (kernel_area ∷ []) 8192 12287 0)
insert_mminfo-Inserted_example =
    insert_mminfo-Inserted (kernel_area ∷ []) (record { start = 8192; last = 12287; type = 0 })
      ((omega arith, omega arith), tt) (omega arith, omega arith)

split_mminfo-Splits_example :
    Splits
      (kernel_area ∷ record { start = 8192; last = 20479; type = 5 } ∷ [])
      1
      12288
      (split_mminfo (kernel_area ∷ record { start = 8192; last = 20479; type = 5 } ∷ []) 1 12300)
split_mminfo-Splits_example =
    split_mminfo-Splits (kernel_area ∷ record { start = 8192; last = 20479; type = 5 } ∷ []) 1 12300
