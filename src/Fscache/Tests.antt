-- ===== src/Fscache/Tests.antt =====
-- kernel/fs/fscache/fscache.c at arrays of two buffers.
use huge_pie.Base.{
  ℕ, zero, suc, ◌<◌, ◌≡◌, ◌≢◌, refl, false, Option, some, none, List, [], ◌∷◌, length, take, ◌≤◌,
  get_elem?, arith, Returns, ◌>>=◌,
}
use huge_pie.Sd.{Sector, Card, read_sector, read_loop, read_block, write_sector, write_block}
use huge_pie.Sd.Run.{run, settled}
use huge_pie.Fscache.{
  Buffer, is_dirty, find, sweep_one, sweep_two, choose, victim, write, fill, refill, read, read_512,
  invalid,
}
use huge_pie.Fscache.Victim.{Chosen, victim-Chosen}
use huge_pie.Fscache.View.{IsSlot, IsValid}
use huge_pie.Fscache.Read.{ReadAt, read-ReadAt}
use huge_pie.Fscache.Failures.{AreSingle, read_512_unreported}

-- Sector `n` holds the byte `n`.
abbrev disk : ℕ → Sector
disk n = n ∷ []

-- A dirty buffer for sector 5, and an empty one.
abbrev pair : List Buffer
pair =
    record { buf = (7 ∷ []) ∷ []; cur = 5; state = 3 }
    ∷ record { buf = (0 ∷ []) ∷ []; cur = invalid; state = 0 }
    ∷ []

-- Both buffers are dirty: the clock gives up the first one, and the card keeps its data.
abbrev full : List Buffer
full =
    record { buf = (7 ∷ []) ∷ []; cur = 5; state = 3 }
    ∷ record { buf = (8 ∷ []) ∷ []; cur = 6; state = 2 }
    ∷ []

victim-pair :
    victim pair 0 2
    ≡ some (
      1,
      record { buf = (7 ∷ []) ∷ []; cur = 5; state = 2 }
          ∷ record { buf = (0 ∷ []) ∷ []; cur = invalid; state = 0 }
          ∷ [],
      0,
    )
unfolding victim sweep_one choose
victim-pair = refl

read_full : Option ℕ
unfolding read find victim sweep_one sweep_two choose fill refill write read_block read_sector
    write_block write_sector
read_full = read 1 0 full 9 0 (settled disk) >>= λ o. some (first_byte (o.card.sectors 5))
  where
    first_byte : Sector → ℕ
    first_byte [] = 0
    first_byte (b ∷ bs) = b

read_full_lem : read_full ≡ some 7
unfolding read_full
read_full_lem = refl

pair_sized : (i : ℕ) (b : Buffer) → get_elem? pair i ≡ some b → 1 ≤ length b.buf
pair_sized zero b e = ground arith
pair_sized (suc zero) b e = ground arith
pair_sized (suc (suc i)) b e = cc

pair_slots : (i : ℕ) (b : Buffer) → get_elem? pair i ≡ some b → b.cur ≢ invalid → IsSlot 1 0 b.cur
pair_slots zero b e n = ground arith
pair_slots (suc zero) b e n = ground arith
pair_slots (suc (suc i)) b e n = cc

pair_agrees :
    (i : ℕ) (b : Buffer)
    → get_elem? pair i ≡ some b
    → b.cur ≢ invalid
    → is_dirty b.state ≡ false
    → take 1 b.buf ≡ run disk b.cur 1
pair_agrees zero b e n d = ground arith
pair_agrees (suc zero) b e n d = ground arith
pair_agrees (suc (suc i)) b e n d = cc

pair_distinct :
    (i j : ℕ) (b c : Buffer)
    → get_elem? pair i ≡ some b
    → get_elem? pair j ≡ some c
    → b.cur ≢ invalid
    → b.cur ≡ c.cur
    → i ≡ j
pair_distinct zero zero b c e g n q = refl
pair_distinct zero (suc zero) b c e g n q = ground arith
pair_distinct (suc zero) j b c e g n q = ground arith
pair_distinct (suc (suc i)) j b c e g n q = cc
pair_distinct zero (suc (suc j)) b c e g n q = cc

pair-IsValid : IsValid 1 0 pair disk
pair-IsValid = record {
  sized = pair_sized;
  slots = pair_slots;
  agrees = pair_agrees;
  distinct = pair_distinct;
}

victim-Chosen_example : Returns (Chosen pair 2) (victim pair 0 2)
victim-Chosen_example = victim-Chosen pair 2 0 refl (omega arith)

read-ReadAt_example : Returns (ReadAt 1 0 pair disk 9) (read 1 0 pair 9 0 (settled disk))
read-ReadAt_example =
    read-ReadAt 1 0 0 9 pair disk 0 pair-IsValid
      (record { aligned = refl; fits = omega arith; valid = omega arith }) (omega arith)

full-AreSingle : AreSingle full
full-AreSingle zero b e = ground arith
full-AreSingle (suc zero) b e = ground arith
full-AreSingle (suc (suc i)) b e = cc

-- The card fails on both commands, and the read says that all went well.
abbrev broken : Card
broken = record {
  sectors = disk;
  events =
      record { command = 2; transfer = 1; left = [] }
      ∷ record { command = 4; transfer = 1; left = [] }
      ∷ [];
}

read_512_unreported_example : Returns (λ o. o.result < 2) (read_512 0 full 9 0 broken)
read_512_unreported_example = read_512_unreported 0 9 full 0 broken full-AreSingle (omega arith)

-- A cluster of two sectors does not fit into a buffer of one: the transfer goes on behind its bytes.
overrun : read 2 0 pair 10 0 (settled disk) ≡ none
unfolding read find victim sweep_one sweep_two choose fill refill write read_block read_loop
    read_sector
overrun = refl
