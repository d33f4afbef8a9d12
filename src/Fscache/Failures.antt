-- ===== src/Fscache/Failures.antt =====
-- Failures of the card under the buffers of one sector, in kernel/fs/fscache/fscache.c.
use huge_pie.Base.{
  ℕ, ◌+◌, ◌%◌, ◌^◌, ◌<◌, ◌≡◌, ◌≢◌, inl, inr, refl, ap, ◌∙◌, some, List, [], ◌∷◌, length, get_elem?,
  get_elem?-some, get_elem?-lt, ◌==◌, arith, Bool-cases, ==→ne, Returns, returns, bind, mono, take,
  length-take, ne→==, ltb, not, ◌&&◌, false,
}
use huge_pie.Sd.{Sector, Card, read_block, write_block}
use huge_pie.Sd.Codes.{single_block_codes}
use huge_pie.Fscache.{Buffer, invalid, is_dirty, write, find, fill, refill, read, read_512}
use huge_pie.Fscache.Same.{length-AllSame}
use huge_pie.Fscache.Victim.{victim-Chosen}
use huge_pie.Fscache.Flush.{From-same, find-Held}

-- Every buffer holds one sector, as a `BUF_512` does.
abbrev pub AreSingle : List Buffer → Type 0
AreSingle bufs = (i : ℕ) (b : Buffer) → get_elem? bufs i ≡ some b → length b.buf ≡ 1

read_single :
    (buf : List Sector) (addr : ℕ) (card : Card) → length buf ≡ 1 → (read_block buf addr card).0 ≢ 1
read_single [] addr card h = absurd (omega arith)
read_single (s ∷ []) addr card h = (single_block_codes s addr card).0
read_single (s ∷ t ∷ buf) addr card h = absurd (omega arith)

write_single :
    (buf : List Sector) (addr : ℕ) (card : Card)
    → length buf ≡ 1
    → (write_block buf addr card).0 ≢ 1
write_single [] addr card h = absurd (omega arith)
write_single (s ∷ []) addr card h = (single_block_codes s addr card).1
write_single (s ∷ t ∷ buf) addr card h = absurd (omega arith)

-- A write-back ends with 0, and a transfer stays inside the buffer.
write-code :
    (b : Buffer) (card : Card)
    → length b.buf ≡ 1
    → Returns (λ z. (z.0 ≡ 0) × (z.1.buf ≡ b.buf)) (write 1 b card)
unfolding write
write-code b card h = elim (Bool-cases (not (b.cur == invalid) && is_dirty b.state)) [
  | inl must ↦
      let room : ltb (length b.buf) 1 ≡ false = ground arith in
      let never : ((write_block (take 1 b.buf) b.cur card).0 == 1) ≡ false =
        ne→== _ 1 (write_single (take 1 b.buf) b.cur card (length-take 1 b.buf (omega arith))) in
      rw (must, never, room) (returns (refl, refl))
  | inr skip ↦ rw skip (returns (refl, refl))
]

fill-result :
    (sector : ℕ) (bufs : List Buffer) (index : ℕ) (b : Buffer) (clock : ℕ) (card : Card)
    → length b.buf ≡ 1
    → Returns (λ o. o.result ≡ index) (fill 1 sector bufs index b clock card)
unfolding fill refill
fill-result sector bufs index b clock card h = bind (write-code b card h) λ z w.
    let size : length z.1.buf ≡ 1 = ap length w.1 ∙ h in
    let room : ltb (length z.1.buf) 1 ≡ false = ground arith in
    let never : ((read_block (take 1 z.1.buf) sector z.2).0 == 1) ≡ false =
      ne→== _ 1
        (read_single (take 1 z.1.buf) sector z.2 (length-take 1 z.1.buf (omega (arith, size)))) in
    rw (w.0, never, room) (returns refl)

-- With buffers of one sector and the clock inside the array, whatever the card reports, `fs_read_512` returns the index of a buffer, and never the marker of a
-- failed read.
pub read_512_unreported :
    (base first_sector : ℕ) (bufs : List Buffer) (clock : ℕ) (card : Card)
    → AreSingle bufs
    → clock < length bufs
    → Returns (λ o. o.result < length bufs) (read_512 base bufs first_sector clock card)
unfolding read
read_512_unreported base first_sector bufs clock card one c =
    elim (Bool-cases (find bufs sector == length bufs)) [
      | inl e ↦ rw e (
          bind (victim-Chosen bufs (length bufs) clock refl c) λ z w.
            let there =
              get_elem?-some z.1 z.0 (omega (arith, length-AllSame bufs z.1 w.same, w.inside)) in
            let o = From-same bufs z.1 z.0 there.0 w.same there.1 in
            rw there.1 (
              mono
                (fill-result sector z.1 z.0 there.0 z.2 card
                  (ap length o.same.buf ∙ one z.0 o.origin o.there))
                λ x q. rw q w.inside))
      | inr e ↦
          let h = find-Held bufs sector (==→ne _ _ e) in
          rw (e, h.1) (returns (get_elem?-lt bufs (find bufs sector) h.1))
    ]
  where
    sector : ℕ
    sector = (first_sector + base) % 2 ^ 32
