-- ===== src/Sd/Tests.antt =====
-- kernel/driver/sd.c at small cards.
use huge_pie.Base.{◌≡◌, ◌≢◌, inl, refl, List, [], ◌∷◌, arith}
use huge_pie.Sd.{Sector, Card, read_block, write_block, read_sector, read_loop}
use huge_pie.Sd.Run.{settled, write-read}
use huge_pie.Sd.Codes.{single_block_codes}

-- The first command fails with the register at 2.
abbrev broken : Card
broken = record {
  sectors = λ n. n ∷ [];
  events = record { command = 2; transfer = 1; left = [] } ∷ [];
}

-- One sector returns the register, two return 1.
broken_codes :
    ((read_block ([] ∷ []) 7 broken).0 ≡ 2) × ((read_block ([] ∷ [] ∷ []) 7 broken).0 ≡ 1)
unfolding read_block read_sector read_loop
broken_codes = (refl, refl)

single_block_codes_example :
    ((read_block ([] ∷ []) 7 broken).0 ≢ 1) × ((write_block ([] ∷ []) 7 broken).0 ≢ 1)
single_block_codes_example = single_block_codes [] 7 broken

abbrev two : List Sector
two = (1 ∷ []) ∷ (2 ∷ []) ∷ []

write-read_example :
    ((read_block two 4 (write_block two 4 (settled (λ n. []))).1).1 ≡ two)
    × ((read_block two 8 (write_block two 4 (settled (λ n. []))).1).1
        ≡ (read_block two 8 (settled (λ n. []))).1)
write-read_example =
    write-read (λ n. []) 4 8 two two refl (omega arith) (omega arith) (inl (omega arith))
