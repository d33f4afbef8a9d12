-- ===== src/Sd.antt =====
-- kernel/driver/sd.c: blocks of sectors on the SD card. The card itself is hardware: its sectors are
-- a function of their number, and each command takes one event, which says what the two status
-- registers show once they are not zero.
pub mod Codes
pub mod Run
mod Tests
use huge_pie.Base.{ℕ, suc, ◌+◌, ◌%◌, ◌^◌, List, [], ◌∷◌, length, ◌==◌, if◌then◌else◌}

-- The bytes of a sector.
abbrev pub Sector : Type 0
Sector = List ℕ

-- `SD_CTRL[13]`, `SD_CTRL[15]`, and what a write whose data transfer failed leaves in the sector.
pub record Event : Type 0 where
  pub command : ℕ
  pub transfer : ℕ
  pub left : Sector

pub record Card : Type 0 where
  pub sectors : ℕ → Sector
  pub events : List Event

-- The registers where all goes well, as they do when the list of events is used up.
abbrev pub success : Event
success = record { command = 1; transfer = 1; left = [] }

abbrev pub next_event : List Event → Event
next_event [] = success
next_event (e ∷ es) = e

abbrev pub later_events : List Event → List Event
later_events [] = []
later_events (e ∷ es) = es

abbrev pub update : (ℕ → Sector) → ℕ → Sector → ℕ → Sector
update f id s a = if a == id then s else f a

-- The result of `sd_send_cmd_blocking`, and the last test of a transfer: 0 if bit 0 is set, else the
-- register.
abbrev pub status_code : ℕ → ℕ
status_code t = if t % 2 == 1 then 0 else t

-- The code, the buffer and the card after the call.
unfoldable pub read_sector : ℕ → Sector → Card → ℕ × Sector × Card
read_sector id buffer card =
    let e = next_event card.events in
    let card' = record card { events = later_events card.events } in
    if status_code e.command == 0
    then (
      status_code e.transfer,
      (if status_code e.transfer == 0 then card.sectors id else buffer),
      card',
    )
    else (status_code e.command, buffer, card')

unfoldable pub write_sector : ℕ → Sector → Card → ℕ × Card
write_sector id buffer card =
    let e = next_event card.events in
    let rest = later_events card.events in
    if status_code e.command == 0
    then (
      status_code e.transfer,
      record {
        sectors = update card.sectors id (if status_code e.transfer == 0 then buffer else e.left);
        events = rest;
      },
    )
    else (status_code e.command, record card { events = rest })

-- The loop of `sd_read_block` over the sectors that are left.
unfoldable pub read_loop : ℕ → List Sector → Card → ℕ × List Sector × Card
read_loop addr [] card = (0, [], card)
read_loop addr (b ∷ bs) card =
    let (code, b', card') = read_sector addr b card in
    let (code', bs', card'') = read_loop ((addr + 1) % 2 ^ 32) bs card' in
    if code == 0 then (code', b' ∷ bs', card'') else (1, b' ∷ bs, card')

-- A buffer is the list of its sectors, so `count` is its length.
unfoldable pub read_block : List Sector → ℕ → Card → ℕ × List Sector × Card
read_block (b ∷ []) addr card =
    let (code, b', card') = read_sector addr b card in (code, b' ∷ [], card')
read_block buf addr card = read_loop addr buf card

unfoldable pub write_loop : ℕ → List Sector → Card → ℕ × Card
write_loop addr [] card = (0, card)
write_loop addr (b ∷ bs) card =
    let (code, card') = write_sector addr b card in
    let rest = write_loop ((addr + 1) % 2 ^ 32) bs card' in if code == 0 then rest else (1, card')

unfoldable pub write_block : List Sector → ℕ → Card → ℕ × Card
write_block (b ∷ []) addr card = write_sector addr b card
write_block buf addr card = write_loop addr buf card
