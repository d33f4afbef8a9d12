-- ===== src/FatTable/Tests.antt =====
-- kernel/fs/fat/utils.c: runs over a table of two short buffers.
use huge_pie.FatTable.{
  FatInfo, Table, put, get_u32, set_u32, modify_entry, read_fat_sector, get_fat_entry_value,
  fs_modify_fat, cluster_to_fat_entry, fs_dataclus2sec, fs_sec2dataclus,
}
use huge_pie.FatTable.Codec.{Stored, set_u32-get_u32}
use huge_pie.FatTable.Clusters.{cluster_to_fat_entry_injective, fs_dataclus2sec-fs_sec2dataclus}
use huge_pie.FatTable.Roundtrip.{fs_modify_fat-get_fat_entry_value}
use huge_pie.Fscache.{find}
use huge_pie.Base.{ℕ, ◌%◌, ◌^◌, ◌≡◌, refl, some, List, [], ◌∷◌, arith, Returns}

abbrev six_bytes : List ℕ
six_bytes = 1 ∷ 2 ∷ 3 ∷ 4 ∷ 5 ∷ 6 ∷ []

set_u32-get_u32_example :
    Returns (Stored get_u32 six_bytes 1 4 (0x89abcdef % 2 ^ 32)) (set_u32 six_bytes 1 0x89abcdef)
set_u32-get_u32_example = set_u32-get_u32 six_bytes 1 0x89abcdef (omega arith)

abbrev disk : FatInfo
disk = record {
  base_addr = 100;
  first_data_sector = 500;
  sectors_per_cluster = 2 ^ 3;
  reserved_sectors = 32;
  num_of_sectors_per_fat = 200;
}

abbrev cluster : ℕ
cluster = 130

cluster_to_fat_entry_injective_example : cluster ≡ cluster
cluster_to_fat_entry_injective_example =
    cluster_to_fat_entry_injective disk cluster cluster (omega arith) (omega arith) (omega arith)
      refl

fs_dataclus2sec-fs_sec2dataclus_example : fs_sec2dataclus disk (fs_dataclus2sec disk 77) ≡ 77
fs_dataclus2sec-fs_sec2dataclus_example =
    fs_dataclus2sec-fs_sec2dataclus disk 3 77 (omega arith) refl (omega arith) (omega arith)
      (omega arith)

-- Sector 132 of the table is in the second buffer.
abbrev loaded : List ℕ → ℕ → Table
loaded ch state = record {
  fat_buf =
      record { buf = []; cur = 0xffffffff; state = 0 }
      ∷ record { buf = ch ∷ []; cur = 132; state = state }
      ∷ [];
  fat_clock_head = 0;
  card = record { sectors = λ a. []; events = [] };
}

change_entry :
    fs_modify_fat disk (loaded (1 ∷ 2 ∷ 3 ∷ 0xf4 ∷ 5 ∷ []) 0) 0 0xc9abcdef
    ≡ some (0, loaded (0xef ∷ 0xcd ∷ 0xab ∷ 0xf9 ∷ 5 ∷ []) 3)
unfolding fs_modify_fat read_fat_sector cluster_to_fat_entry find modify_entry get_u32 set_u32 put
change_entry = refl

fs_modify_fat-get_fat_entry_value_example :
    (t : Table) × (get_fat_entry_value disk (loaded (0xef ∷ 0xcd ∷ 0xab ∷ 0xf9 ∷ 5 ∷ []) 3) 0
      ≡ some (some (0xc9abcdef % 2 ^ 28), t))
fs_modify_fat-get_fat_entry_value_example =
    fs_modify_fat-get_fat_entry_value disk (loaded (1 ∷ 2 ∷ 3 ∷ 0xf4 ∷ 5 ∷ []) 0) 0 0xc9abcdef
      (loaded (0xef ∷ 0xcd ∷ 0xab ∷ 0xf9 ∷ 5 ∷ []) 3) (omega arith) change_entry
