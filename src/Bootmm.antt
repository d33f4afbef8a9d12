-- ===== src/Bootmm.antt =====
-- kernel/mm/bootmm.c and include/zjunix/bootmm.h: the allocator of whole pages at boot. `none` is an
-- access outside an array, or a loop that does not end.
pub mod Search
mod Tests
pub mod Run
pub mod Init
pub mod Alloc
pub mod Record
pub mod Areas
pub mod Splits
pub mod Infos
pub mod Pages
use huge_pie.Base.{
  ℕ, zero, suc, ◌+◌, ◌-◌, ◌*◌, ◌/◌, ◌%◌, ◌^◌, Bool, true, false, ◌||◌, not, Option, none, some,
  List, [], ◌∷◌, ◌++◌, get_elem?, set, length, ltb, leb, ◌==◌, if◌then◌else◌, ◌>>=◌,
}

abbrev pub page_free : ℕ
page_free = 0x00

abbrev pub page_used : ℕ
page_used = 0xff

abbrev pub mm_kernel : ℕ
mm_kernel = 0

abbrev pub max_info : ℕ
max_info = 10

-- `struct bootmm_info`. `last` is the field `end`, the last byte of the area.
pub record Info : Type 0 where
  pub start : ℕ
  pub last : ℕ
  pub type : ℕ

-- `struct bootmm`. `s_map` is the map of the pages from `s_map` to `e_map`, and `info` holds the
-- `cnt_infos` entries in use.
pub record Bootmm : Type 0 where
  pub max_pfn : ℕ
  pub s_map : List ℕ
  pub last_alloc_end : ℕ
  pub info : List Info

-- `x - 1` of an `unsigned int`.
abbrev pub pred_word : ℕ → ℕ
pred_word x = (x + (2 ^ 32 - 1)) % 2 ^ 32

-- `(value + align - 1) & ~(align - 1)` for a power of two.
unfoldable pub align_func : ℕ → ℕ → ℕ
align_func value align = (value + pred_word align) % 2 ^ 32 / align * align

-- The entry at the index is dropped, and those behind it move up.
unfoldable pub remove_mminfo : List Info → ℕ → List Info
remove_mminfo [] index = []
remove_mminfo (x ∷ xs) zero = xs
remove_mminfo (x ∷ xs) (suc index) = x ∷ remove_mminfo xs index

-- What is done at an entry that ends where the new area starts: the code and the entries.
unfoldable pub extend : Info → List Info → ℕ → ℕ → ℕ × List Info
extend x [] last type = (6, record x { last = last } ∷ [])
extend x (y ∷ ys) last type =
    if not (y.type == type)
    then (2, record x { last = last } ∷ y ∷ ys)
    else if pred_word y.start == last
    then (7, remove_mminfo (record x { last = y.last } ∷ y ∷ ys) 1)
    else (2, record x { last = last } ∷ y ∷ ys)

abbrev pub keep : Info → Option (ℕ × List Info) → Option (ℕ × List Info)
keep x none = none
keep x (some (code, xs)) = some (code, x ∷ xs)

-- The loop of `insert_mminfo`; `none` if it ends without a return.
unfoldable pub merge : List Info → ℕ → ℕ → ℕ → Option (ℕ × List Info)
merge [] start last type = none
merge (x ∷ xs) start last type =
    let rest = keep x (merge xs start last type) in
    if not (x.type == type)
    then rest
    else if x.last == pred_word start
    then some (extend x xs last type)
    else if pred_word x.start == last
    then some (4, record x { start = start } ∷ xs)
    else rest

unfoldable pub insert_mminfo : List Info → ℕ → ℕ → ℕ → ℕ × List Info
insert_mminfo infos start last type = elim (merge infos start last type) [
  | some r ↦ r
  | none ↦
      if leb max_info (length infos)
      then (0, infos)
      else (1, infos ++ record { start = start; last = last; type = type } ∷ [])
]

-- `for (temp = cnt_infos - 1; temp >= index; temp--)`: the rounds that are left, over an array with
-- one entry more.
unfoldable pub shift : ℕ → ℕ → List Info → Option (List Info)
shift zero index infos = some infos
shift (suc n) index infos = do
  x ← get_elem? infos (index + n)
  shift n index (set infos (index + n + 1) x)

-- The code and the entries. With index 0 the test `temp >= index` of the loop always holds, `temp`
-- wraps, and `info[0xffffffff]` is read.
unfoldable pub split_mminfo : List Info → ℕ → ℕ → Option (ℕ × List Info)
split_mminfo infos index split_start = elim (get_elem? infos index) [
  | none ↦ some (0, infos)
  | some x ↦
      let at = split_start / 4096 * 4096 in
      if leb at x.start || (leb x.last at || leb max_info (length infos))
      then some (0, infos)
      else if index == 0
      then none
      else (do
        infos' ← shift (length infos - index) index (infos ++ x ∷ [])
        y ← get_elem? infos' (index + 1)
        some (
          1,
          set (set infos' index (record x { last = at - 1 })) (index + 1) (record y { start = at }),
        ))
]

unfoldable pub set_maps : ℕ → ℕ → List ℕ → ℕ → List ℕ
set_maps s_pfn zero map value = map
set_maps s_pfn (suc cnt) map value = set_maps (s_pfn + 1) cnt (set map s_pfn value) value

-- How the inner loop of `find_pages` ends: all pages are free, the page at the index is in use, or the
-- end is reached.
pub data Scan : Type 0 where
  found : Scan
  blocked : ℕ → Scan
  over : Scan

-- A byte that is neither of the two values leaves the loop where it is for ever.
unfoldable pub scan : List ℕ → ℕ → ℕ → ℕ → Option Scan
scan map e_pfn zero temp = some found
scan map e_pfn (suc count) temp =
    let rest = scan map e_pfn count (temp + 1) in
    if leb e_pfn temp then some over else (do
      b ← get_elem? map temp
      if b == page_free then rest else (if b == page_used then some (blocked temp) else none))

-- The outer loop, on fuel: the index of the first page, or `none` for the null pointer.
unfoldable pub find_loop : ℕ → List ℕ → ℕ → ℕ → ℕ → ℕ → Option (Option ℕ)
find_loop zero map page_cnt e_pfn align_pfn index = none
find_loop (suc fuel) map page_cnt e_pfn align_pfn index =
    let again = λ (i : ℕ). find_loop fuel map page_cnt e_pfn align_pfn i in
    if leb e_pfn index then some none else (do
      b ← get_elem? map index
      (if b == page_used then again (index + 1) else (do
        s ← scan map e_pfn page_cnt index
        elim s [
          | found ↦ some (some index)
          | blocked temp ↦ again ((temp + align_pfn) % 2 ^ 32)
          | over ↦ some none
        ])))

-- The result is the address of the first page, 0 for the null pointer. The fuel is one round for
-- each page up to `e_pfn`.
unfoldable pub find_pages : Bootmm → ℕ → ℕ → ℕ → ℕ → Option (ℕ × Bootmm)
find_pages bmm page_cnt s_pfn e_pfn align_pfn = do
  r ← find_loop (e_pfn + 1) bmm.s_map page_cnt e_pfn align_pfn (align_func s_pfn align_pfn)
  elim r [
    | none ↦ some (0, bmm)
    | some index ↦ some (
      index * 4096 % 2 ^ 32,
      record bmm {
        last_alloc_end = pred_word (index + page_cnt);
        s_map = set_maps index page_cnt bmm.s_map page_used;
      },
    )
  ]

-- `sizeof(bootmmmap)`, one byte for each page of the machine.
abbrev pub machine_max_pages : ℕ
machine_max_pages = 32768

unfoldable pub cleared : ℕ → List ℕ
cleared zero = []
cleared (suc n) = page_free ∷ cleared n

abbrev pub get_phymm_size : ℕ
get_phymm_size = 128 * 1024 * 1024

-- The first 16 megabytes of the memory belong to the kernel.
unfoldable pub init_bootmm : Bootmm
init_bootmm =
    let end = 16 * 1024 * 1024 in
    record {
      max_pfn = get_phymm_size / 4096;
      s_map = set_maps 0 (end / 4096) (cleared machine_max_pages) page_used;
      last_alloc_end = end / 4096 - 1;
      info = (insert_mminfo [] 0 (end - 1) mm_kernel).1;
    }

-- The pages are entered in the list of areas; they stay marked as used where that fails.
unfoldable pub record_pages : ℕ → ℕ → ℕ → Bootmm → ℕ × Bootmm
record_pages res size type bmm =
    let (code, info) = insert_mminfo bmm.info res (pred_word (res + size)) type in
    (if code == 0 then 0 else res, record bmm { info = info })

unfoldable pub bootmm_alloc_pages : Bootmm → ℕ → ℕ → ℕ → Option (ℕ × Bootmm)
bootmm_alloc_pages bmm size type align = do
  let size' = align_func size 4096
  (res, bmm') ←
      find_pages bmm (size' / 4096) ((bmm.last_alloc_end + 1) % 2 ^ 32) bmm.max_pfn (align / 4096)
  if not (res == 0) then some (record_pages res size' type bmm') else (do
    (res', bmm'') ← find_pages bmm' (size' / 4096) 0 bmm'.last_alloc_end (align / 4096)
    some (if not (res' == 0) then record_pages res' size' type bmm'' else (0, bmm'')))
