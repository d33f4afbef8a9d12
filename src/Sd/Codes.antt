-- ===== src/Sd/Codes.antt =====
-- The codes that `sd_read_block` and `sd_write_block` of kernel/driver/sd.c return.
use huge_pie.Base.{ℕ, ◌+◌, ◌%◌, ◌^◌, ◌≢◌, ◌<◌, List, [], ◌∷◌, arith}
use huge_pie.Sd.{
  Sector, Card, next_event, status_code, read_sector, write_sector, read_loop, write_loop,
  read_block, write_block,
}

status_code_ne_one : (t : ℕ) → status_code t ≢ 1
status_code_ne_one t = ground arith

read_block_one : (b : Sector) (addr : ℕ) (card : Card) → (read_block (b ∷ []) addr card).0 ≢ 1
unfolding read_block read_sector
read_block_one b addr card = ground (
  arith,
  status_code_ne_one (next_event card.events).command,
  status_code_ne_one (next_event card.events).transfer,
)

write_block_one : (b : Sector) (addr : ℕ) (card : Card) → (write_block (b ∷ []) addr card).0 ≢ 1
unfolding write_block write_sector
write_block_one b addr card = ground (
  arith,
  status_code_ne_one (next_event card.events).command,
  status_code_ne_one (next_event card.events).transfer,
)

-- A block transfer of one sector never returns 1, whatever the status registers show. The callers in
-- the file systems compare the result with 1, so they take every failure of it for a success.
pub single_block_codes :
    (b : Sector) (addr : ℕ) (card : Card)
    → ((read_block (b ∷ []) addr card).0 ≢ 1) × ((write_block (b ∷ []) addr card).0 ≢ 1)
single_block_codes b addr card = (read_block_one b addr card, write_block_one b addr card)

read_loop_code : (addr : ℕ) (bs : List Sector) (card : Card) → (read_loop addr bs card).0 < 2
unfolding read_loop
read_loop_code addr [] card = omega arith
read_loop_code addr (b ∷ bs) card =
    ground (arith, read_loop_code ((addr + 1) % 2 ^ 32) bs (read_sector addr b card).2)

write_loop_code : (addr : ℕ) (bs : List Sector) (card : Card) → (write_loop addr bs card).0 < 2
unfolding write_loop
write_loop_code addr [] card = omega arith
write_loop_code addr (b ∷ bs) card =
    ground (arith, write_loop_code ((addr + 1) % 2 ^ 32) bs (write_sector addr b card).1)

-- A block transfer of two or more sectors returns 0 or 1.
pub long_block_codes :
    (b c : Sector) (bs : List Sector) (addr : ℕ) (card : Card)
    → ((read_block (b ∷ c ∷ bs) addr card).0 < 2) × ((write_block (b ∷ c ∷ bs) addr card).0 < 2)
unfolding read_block write_block
long_block_codes b c bs addr card =
    (read_loop_code addr (b ∷ c ∷ bs) card, write_loop_code addr (b ∷ c ∷ bs) card)
