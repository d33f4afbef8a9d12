-- ===== src/FatTable.antt =====
-- kernel/fs/fat/utils.c: numbers in buffers, clusters and sectors, and the file allocation table in its
-- buffers. `none` is an access outside a buffer or outside the array of buffers.
pub mod Codec
pub mod Clusters
pub mod Entries
pub mod Roundtrip
mod Tests
use huge_pie.Base.{
  ℕ, zero, suc, ◌+◌, ◌-◌, ◌*◌, ◌/◌, ◌%◌, ◌^◌, Bool, not, ◌&&◌, Option, none, some, List, [], ◌∷◌,
  get_elem?, set, length, ltb, leb, ◌==◌, if◌then◌else◌, ◌>>=◌,
}
use huge_pie.Sd.{Sector, Card, read_block, write_block}
use huge_pie.Fscache.{Buffer, invalid, is_dirty, clear_dirty, set_reference, victim, find}

-- A write of one byte.
unfoldable pub put : List ℕ → ℕ → ℕ → Option (List ℕ)
put ch i byte = if ltb i (length ch) then some (set ch i byte) else none

-- The pointer `ch` of the source is the buffer and an offset.
unfoldable pub get_u16 : List ℕ → ℕ → Option ℕ
get_u16 ch i = do a ← get_elem? ch i; b ← get_elem? ch (i + 1); some (a + b * 2 ^ 8)

unfoldable pub get_u32 : List ℕ → ℕ → Option ℕ
get_u32 ch i = do
  a ← get_elem? ch i
  b ← get_elem? ch (i + 1)
  c ← get_elem? ch (i + 2)
  d ← get_elem? ch (i + 3)
  some (a + b * 2 ^ 8 + c * 2 ^ 16 + d * 2 ^ 24)

unfoldable pub set_u16 : List ℕ → ℕ → ℕ → Option (List ℕ)
set_u16 ch i num = do ch' ← put ch i (num % 256); put ch' (i + 1) (num / 2 ^ 8 % 256)

unfoldable pub set_u32 : List ℕ → ℕ → ℕ → Option (List ℕ)
set_u32 ch i num = do
  ch₁ ← put ch i (num % 256)
  ch₂ ← put ch₁ (i + 1) (num / 2 ^ 8 % 256)
  ch₃ ← put ch₂ (i + 2) (num / 2 ^ 16 % 256)
  put ch₃ (i + 3) (num / 2 ^ 24 % 256)

-- `for (i = 0; num > 1; num >>= 1, i++)` with the rounds that a word allows.
unfoldable pub wa_loop : ℕ → ℕ → ℕ → ℕ
wa_loop zero num i = i
wa_loop (suc n) num i = let rest = wa_loop n (num / 2) (i + 1) in if ltb 1 num then rest else i

unfoldable pub fs_wa : ℕ → ℕ
fs_wa num = wa_loop 32 num 0

unfoldable pub get_entry_filesize : List ℕ → Option ℕ
get_entry_filesize entry = get_u32 entry 28

unfoldable pub get_entry_attr : List ℕ → Option ℕ
get_entry_attr entry = get_elem? entry 11

-- The fields `starthi` and `startlow` of an entry.
unfoldable pub get_start_cluster : ℕ → ℕ → ℕ
get_start_cluster starthi startlow = (starthi * 2 ^ 16 + startlow) % 2 ^ 32

-- The fields of `fat_info` that are read here.
pub record FatInfo : Type 0 where
  pub base_addr : ℕ
  pub first_data_sector : ℕ
  pub sectors_per_cluster : ℕ
  pub reserved_sectors : ℕ
  pub num_of_sectors_per_fat : ℕ

-- The sector of the table and the offset in it.
unfoldable pub cluster_to_fat_entry : FatInfo → ℕ → ℕ × ℕ
cluster_to_fat_entry fat clus =
    let offset = clus * 4 % 2 ^ 32 in
    ((fat.reserved_sectors + offset / 2 ^ 9 + fat.base_addr) % 2 ^ 32, offset % 512)

-- `clus - 2` wraps below 2.
unfoldable pub fs_dataclus2sec : FatInfo → ℕ → ℕ
fs_dataclus2sec fat clus =
    ((clus + (2 ^ 32 - 2)) % 2 ^ 32 * 2 ^ fs_wa fat.sectors_per_cluster % 2 ^ 32
      + fat.first_data_sector)
    % 2 ^ 32

unfoldable pub fs_sec2dataclus : FatInfo → ℕ → ℕ
fs_sec2dataclus fat sec =
    ((sec + 2 ^ 32 - fat.first_data_sector) % 2 ^ 32 / 2 ^ fs_wa fat.sectors_per_cluster + 2)
    % 2 ^ 32

-- `fat_buf`, `fat_clock_head` and the card.
pub record Table : Type 0 where
  pub fat_buf : List Buffer
  pub fat_clock_head : ℕ
  pub card : Card

-- `write_fat_sector`: the table and its copy.
unfoldable pub write_fat_sector : FatInfo → Buffer → Card → ℕ × Buffer × Card
write_fat_sector fat f card =
    if not (f.cur == invalid) && is_dirty f.state
    then (let (code, card') = write_block f.buf f.cur card in
        let (code', card'') =
          write_block f.buf ((fat.num_of_sectors_per_fat + f.cur) % 2 ^ 32) card' in
        if code == 1
        then (1, f, card')
        else if code' == 1
        then (1, f, card'')
        else (0, record f { state = clear_dirty f.state }, card''))
    else (0, f, card)

-- The branch of `read_fat_sector` for a sector that no buffer holds.
unfoldable pub fill_fat : FatInfo → ℕ → List Buffer → ℕ → Buffer → ℕ → Card → ℕ × Table
fill_fat fat sector bufs index b clock card =
    let (code, b', card') = write_fat_sector fat b card in
    let (code', buf, card'') = read_block b'.buf sector card' in
    if code == 1
    then (invalid, record { fat_buf = set bufs index b'; fat_clock_head = clock; card = card' })
    else if code' == 1
    then (
      invalid,
      record {
        fat_buf = set bufs index (record b' { buf = buf });
        fat_clock_head = clock;
        card = card'';
      },
    )
    else (
      index,
      record {
        fat_buf = set bufs index (record { buf = buf; cur = sector; state = 1 });
        fat_clock_head = clock;
        card = card'';
      },
    )

unfoldable pub read_fat_sector : FatInfo → Table → ℕ → Option (ℕ × Table)
read_fat_sector fat t sector =
    let index = find t.fat_buf sector in
    if index == length t.fat_buf
    then (do
      (index', bufs, clock) ← victim t.fat_buf t.fat_clock_head (length t.fat_buf)
      b ← get_elem? bufs index'
      some (fill_fat fat sector bufs index' b clock t.card))
    else (do
      b ← get_elem? t.fat_buf index
      some (
        index,
        record t { fat_buf = set t.fat_buf index (record b { state = set_reference b.state }) },
      ))

-- The bytes of a buffer of one sector.
abbrev pub bytes : List Sector → List ℕ
bytes [] = []
bytes (s ∷ ss) = s

-- The value of the entry; `none` where the code returns 1.
unfoldable pub get_fat_entry_value : FatInfo → Table → ℕ → Option (Option ℕ × Table)
get_fat_entry_value fat t clus = do
  let (sector, offset) = cluster_to_fat_entry fat clus
  (index, t') ← read_fat_sector fat t sector
  (if index == invalid then some (none, t') else (do
    b ← get_elem? t'.fat_buf index
    value ← get_u32 (bytes b.buf) offset
    some (some (value % 2 ^ 28), t')))

-- `(get_u32(p) & 0xF0000000) | (value & 0x0FFFFFFF)`
abbrev pub merged_entry : ℕ → ℕ → ℕ
merged_entry old value = old / 2 ^ 28 * 2 ^ 28 + value % 2 ^ 28

-- What is done with the buffer of the entry.
unfoldable pub modify_entry : Buffer → ℕ → ℕ → Option Buffer
modify_entry b offset value = do
  old ← get_u32 (bytes b.buf) offset
  ch ← set_u32 (bytes b.buf) offset (merged_entry old value)
  some (record b { buf = ch ∷ []; state = 3 })

unfoldable pub fs_modify_fat : FatInfo → Table → ℕ → ℕ → Option (ℕ × Table)
fs_modify_fat fat t clus value = do
  let (sector, offset) = cluster_to_fat_entry fat clus
  (index, t') ← read_fat_sector fat t sector
  (if index == invalid then some (1, t') else (do
    b ← get_elem? t'.fat_buf index
    b' ← modify_entry b offset value
    some (0, record t' { fat_buf = set t'.fat_buf index b' })))
