-- ===== src/Fscache.antt =====
-- kernel/fs/fscache/fscache.c: the write-back buffers of a file, chosen by the clock. The functions for
-- 4096 and for 512 bytes differ only in the size of a buffer and in the number of sectors of a transfer,
-- so one definition stands for both; `count` is that number: `sectors_per_cluster` for a `BUF_4K`, whose buffer
-- has eight sectors, and 1 for a `BUF_512`. `none` is an access outside the array or behind the bytes of a buffer.
pub mod Same
pub mod Sweep
pub mod Victim
pub mod View
pub mod Read
pub mod Failures
mod Tests
pub mod Flush
pub mod Fill
use huge_pie.Base.{
  ℕ, zero, suc, ◌+◌, ◌*◌, ◌-◌, ◌/◌, ◌%◌, ◌^◌, Bool, true, false, ◌&&◌, not, Option, none, some,
  List, [], ◌∷◌, ◌++◌, get_elem?, set, length, take, drop, ltb, leb, ◌==◌, if◌then◌else◌, ◌>>=◌,
}
use huge_pie.Sd.{Sector, Card, read_block, write_block}

-- `BUF_4K` and `BUF_512`.
pub record Buffer : Type 0 where
  pub buf : List Sector
  pub cur : ℕ
  pub state : ℕ

-- The marker of a buffer that holds nothing, and of a failed read.
abbrev pub invalid : ℕ
invalid = 0xffffffff

-- `state & 0x01`, `state & 0x02`, `state &= 0xfe`, `state |= 0x01`, `state &= 0x01`.
abbrev pub is_referenced : ℕ → Bool
is_referenced s = s % 2 == 1

abbrev pub is_dirty : ℕ → Bool
is_dirty s = s / 2 % 2 == 1

abbrev pub clear_reference : ℕ → ℕ
clear_reference s = s / 2 % 128 * 2

abbrev pub set_reference : ℕ → ℕ
set_reference s = s / 2 * 2 + 1

abbrev pub clear_dirty : ℕ → ℕ
clear_dirty s = s % 2

-- `if ((++(*clock_head)) >= size) *clock_head = 0;`
abbrev pub advance : ℕ → ℕ → ℕ
advance size clock = if leb size (clock + 1) then 0 else clock + 1

-- The two sweeps: the victim if there is one, the buffers and the clock.
unfoldable pub sweep_one : ℕ → ℕ → List Buffer → ℕ → Option (Option ℕ × List Buffer × ℕ)
sweep_one size zero bufs clock = some (none, bufs, clock)
sweep_one size (suc i) bufs clock = do
  b ← get_elem? bufs clock
  let cleared = set bufs clock (record b { state = clear_reference b.state })
  let bufs' = if is_referenced b.state then cleared else bufs
  let rest = sweep_one size i bufs' (advance size clock)
  if not (is_referenced b.state) && not (is_dirty b.state)
      then some (some clock, bufs, clock)
      else rest

unfoldable pub sweep_two : ℕ → ℕ → List Buffer → ℕ → Option (Option ℕ × ℕ)
sweep_two size zero bufs clock = some (none, clock)
sweep_two size (suc i) bufs clock = do
  b ← get_elem? bufs clock
  let rest = sweep_two size i bufs (advance size clock)
  if is_dirty b.state then rest else some (some clock, clock)

-- What follows the first sweep.
unfoldable pub choose : ℕ → Option ℕ × List Buffer × ℕ → Option (ℕ × List Buffer × ℕ)
choose size (some index, bufs, clock) = some (index, bufs, advance size clock)
choose size (none, bufs, clock) = do
  (found, clock') ← sweep_two size size bufs clock
  some (elim found [ some index ↦ index | none ↦ clock' ], bufs, advance size clock')

-- `fs_victim_4k` and `fs_victim_512`: the index, the buffers and the clock.
unfoldable pub victim : List Buffer → ℕ → ℕ → Option (ℕ × List Buffer × ℕ)
victim bufs clock size = do swept ← sweep_one size size bufs clock; choose size swept

-- `fs_write_4k` and `fs_write_512`: 0 or 1, the buffer and the card.
unfoldable pub write : ℕ → Buffer → Card → Option (ℕ × Buffer × Card)
write count f card =
    if not (f.cur == invalid) && is_dirty f.state
    then (let (code, card') = write_block (take count f.buf) f.cur card in
        if code == 1
        then some (1, f, card')
        else if ltb (length f.buf) count
        then none
        else some (0, record f { state = clear_dirty f.state }, card'))
    else some (0, f, card)

-- The index of the buffer for a sector; the length of the array if there is none.
unfoldable pub find : List Buffer → ℕ → ℕ
find [] sector = 0
find (b ∷ bs) sector = let rest = find bs sector in if b.cur == sector then 0 else suc rest

-- What a call leaves: its result, the buffers, the clock and the card.
pub record Outcome : Type 0 where
  pub result : ℕ
  pub bufs : List Buffer
  pub clock : ℕ
  pub card : Card

-- What follows the write-back of the victim: the sectors are read into it.
unfoldable pub refill : ℕ → ℕ → List Buffer → ℕ → ℕ → ℕ × Buffer × Card → Option Outcome
refill count sector bufs index clock written =
    let (code, b, card) = written in
    let (code', front, card') = read_block (take count b.buf) sector card in
    let buf = front ++ drop count b.buf in
    if code == 1
    then some (record { result = invalid; bufs = set bufs index b; clock = clock; card = card })
    else if code' == 1
    then some (record {
      result = invalid;
      bufs = set bufs index (record b { buf = buf });
      clock = clock;
      card = card';
    })
    else if ltb (length b.buf) count
    then none
    else some (record {
      result = index;
      bufs = set bufs index (record { buf = buf; cur = sector; state = 1 });
      clock = clock;
      card = card';
    })

-- The branch of `fs_read_4k` and `fs_read_512` for a sector that no buffer holds, behind the choice of the victim.
unfoldable pub fill : ℕ → ℕ → List Buffer → ℕ → Buffer → ℕ → Card → Option Outcome
fill count sector bufs index b clock card = do
  written ← write count b card
  refill count sector bufs index clock written

-- `fs_read_4k` and `fs_read_512`. `base` is `fat_info.base_addr`, and `size` the length of the array.
unfoldable pub read : ℕ → ℕ → List Buffer → ℕ → ℕ → Card → Option Outcome
read count base bufs first_sector clock card =
    let sector = (first_sector + base) % 2 ^ 32 in
    let index = find bufs sector in
    if index == length bufs
    then (do
      (index', bufs', clock') ← victim bufs clock (length bufs)
      b ← get_elem? bufs' index'
      fill count sector bufs' index' b clock' card)
    else (do
      b ← get_elem? bufs index
      some (record {
        result = index;
        bufs = set bufs index (record b { state = set_reference b.state });
        clock = clock;
        card = card;
      }))

-- The loop of `fs_clr_4k` and `fs_clr_512` over the bytes, sector by sector.
abbrev pub clear_sector : Sector → Sector
clear_sector [] = []
clear_sector (b ∷ bs) = 0 ∷ clear_sector bs

abbrev pub zeros : ℕ → List Sector → List Sector
zeros zero ss = ss
zeros (suc count) [] = []
zeros (suc count) (s ∷ ss) = clear_sector s ∷ zeros count ss

-- The part of `fs_clr_4k` and `fs_clr_512` behind the choice of the victim.
unfoldable pub wipe : ℕ → ℕ → List Buffer → ℕ → Buffer → ℕ → Card → Option Outcome
wipe count sector bufs index b clock card = do
  (code, b', card') ← write count b card
  if code == 1
      then some (record { result = 1; bufs = set bufs index b'; clock = clock; card = card' })
      else if ltb (length b'.buf) count
      then none
      else some (record {
        result = 0;
        bufs = set bufs index (record { buf = zeros count b'.buf; cur = sector; state = 0 });
        clock = clock;
        card = card';
      })

-- `fs_clr_4k` and `fs_clr_512`: the result is 0 or 1.
unfoldable pub clr : ℕ → List Buffer → ℕ → ℕ → Card → Option Outcome
clr count bufs clock sector card = do
  (index, bufs', clock') ← victim bufs clock (length bufs)
  b ← get_elem? bufs' index
  wipe count sector bufs' index b clock' card

-- The functions for buffers of one sector: the same code.
abbrev pub victim_512 : List Buffer → ℕ → ℕ → Option (ℕ × List Buffer × ℕ)
victim_512 = victim

abbrev pub write_512 : Buffer → Card → Option (ℕ × Buffer × Card)
write_512 = write 1

abbrev pub read_512 : ℕ → List Buffer → ℕ → ℕ → Card → Option Outcome
read_512 = read 1

abbrev pub clr_512 : List Buffer → ℕ → ℕ → Card → Option Outcome
clr_512 = clr 1
